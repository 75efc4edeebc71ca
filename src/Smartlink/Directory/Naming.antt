-- ===== src/Smartlink/Directory/Naming.antt =====
-- The id of a client of smartlink/st_client_table.cpp, in its directory.
use zpserver.Common.{
  ℕ, ◌≡◌, refl, ap, sym, ◌∙◌, inl, inr, true, false, ◌&&◌, none, some, arith, if◌then◌else◌, lookup,
  insert, nat_key, lookup-insert, Bool-cases, Option-cases,
}
use zpserver.Smartlink.Table.{
  Table, set_node, regisit_client_uuid, is_valid_user_id, identify_client,
}
use zpserver.Smartlink.Table.Clients.{IsValid, identify_socket}
use zpserver.Smartlink.Directory.{
  Directory, put, is_none, name, online_in, id_in, owner_in, directory,
}
use zpserver.Smartlink.Directory.Tables.{IsDirectory, IsDirectory-directory, broadcast_keeps}

-- A connection without an id gets a valid one.
named-IsDirectory :
    (sock c id : ℕ) (t : Table)
    → lookup sock t.sock2node ≡ some c
    → IsValid t
    → IsDirectory
        (record (set_node c (record (t.node c) { uuid = id; uuid_recieved = true }) t) {
          uuid2node =
              insert id c
                (set_node c (record (t.node c) { uuid = id; uuid_recieved = true }) t).uuid2node;
        })
        (record (directory t) {
          id_of = put sock (some id) (id_in t);
          owner = put id (some sock) (owner_in t);
        })
unfolding set_node directory online_in id_in owner_in put
named-IsDirectory sock c id t at v = record {
  online = λ s. refl;
  id_of = λ s. elim (Option-cases (lookup s t.sock2node)) [
    | inl f ↦ ground (arith, at, f)
    | inr (d, f) ↦ ground (arith, at, f, v.has_socket s d f, v.has_socket sock c at)
  ];
  owner = λ i. elim (Option-cases (lookup i t.uuid2node)) [
    | inl f ↦ ground (arith, at, f, lookup-insert id i c t.uuid2node, v.has_socket sock c at)
    | inr (d, f) ↦ ground (arith, at, f, lookup-insert id i c t.uuid2node, v.has_socket sock c at)
  ];
}

known_now :
    (c id : ℕ) (t : Table)
    → (set_node c (record (t.node c) { uuid = id; uuid_recieved = true }) t).node c
      ≡ record (t.node c) { uuid = id; uuid_recieved = true }
unfolding set_node
known_now c id t = ground arith

-- The connection of a node has its id in the directory.
connection_in :
    (sock c : ℕ) (t : Table)
    → lookup sock t.sock2node ≡ some c
    → (online_in t sock ≡ true)
      × (id_in t sock ≡ (if (t.node c).uuid_recieved then some (t.node c).uuid else none))
unfolding online_in id_in
connection_in sock c t at = ground (arith, at)

offline : (sock : ℕ) (t : Table) → lookup sock t.sock2node ≡ none → online_in t sock ≡ false
unfolding online_in
offline sock t e = ground (arith, e)

name_again :
    (sock id : ℕ) (d : Directory)
    → (d.online sock && is_none (d.id_of sock) && is_valid_user_id id) ≡ false
    → name sock id d ≡ d
unfolding name
name_again sock id d e = rw e refl

name_first :
    (sock id : ℕ) (d : Directory)
    → (d.online sock && is_none (d.id_of sock) && is_valid_user_id id) ≡ true
    → name sock id d
      ≡ record d { id_of = put sock (some id) d.id_of; owner = put id (some sock) d.owner }
unfolding name
name_first sock id d e = rw e refl

identify_client_step :
    (sock c id : ℕ) (t : Table)
    → lookup sock t.sock2node ≡ some c
    → IsValid t
    → directory (identify_client c id t) ≡ name sock id (directory t)
unfolding identify_client regisit_client_uuid directory
identify_client_step sock c id t at v =
    let (online, id_is) = connection_in sock c t at in
    elim (Bool-cases (t.node c).uuid_recieved) [
      | inl known ↦
          rw known (sym (name_again sock id (directory t) (ground (arith, online, id_is, known))))
      | inr new ↦ elim (Bool-cases (is_valid_user_id id)) [
        | inr wrong ↦
            rw (new, wrong) (sym (name_again sock id (directory t) (ground (arith, wrong))))
        | inl fine ↦
            let named = set_node c (record (t.node c) { uuid = id; uuid_recieved = true }) t in
            let known : (named.node c).uuid_recieved ≡ true =
              ap (λ n. n.uuid_recieved) (known_now c id t) in
            rw (new, fine, known)
              (broadcast_keeps (named.node c).uuid true
                  (record named { uuid2node = insert (named.node c).uuid c named.uuid2node })
                ∙ ap (λ n. directory (record named { uuid2node = insert n.uuid c named.uuid2node }))
                    (known_now c id t)
                ∙ IsDirectory-directory _ _ (named-IsDirectory sock c id t at v)
                ∙ sym (name_first sock id (directory t) (ground (arith, online, id_is, new, fine))))
      ]
    ]

pub identify_step :
    (sock id : ℕ) (t : Table)
    → IsValid t
    → directory (identify_socket sock id t) ≡ name sock id (directory t)
unfolding identify_socket directory
identify_step sock id t v = elim (Option-cases (lookup sock t.sock2node)) [
  | inl e ↦
      rw (e, identify_socket)
        (sym (name_again sock id (directory t) (ground (arith, offline sock t e))))
  | inr (c, e) ↦ rw (e, identify_socket) (identify_client_step sock c id t e v)
]
