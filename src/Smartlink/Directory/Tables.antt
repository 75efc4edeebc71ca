-- ===== src/Smartlink/Directory/Tables.antt =====
-- Changes of the tables of smartlink/st_client_table.cpp that their directory does not see, and new
-- connections.
use mathlib.Core.Path.{fun_ext}
use zpserver.Common.{
  ℕ, ◌+◌, ◌≡◌, refl, ◌∙◌, inl, inr, Bool, List, [], ◌∷◌, arith, leb, lookup, nat_key, lookup-insert,
  Bool-cases, Option-cases,
}
use zpserver.Smartlink.Table.{
  Table, emit, set_node, new_client, broadcast_client_uuid, node_of_socket, push_new_data,
  push_node, on_data_recieved, check_heart_beating, kick_dead,
}
use zpserver.Smartlink.Table.Clients.{IsValid}
use zpserver.Smartlink.Directory.{Directory, put, connect, online_in, id_in, owner_in, directory}

-- A table whose directory is `d`.
pub record IsDirectory (t : Table) (d : Directory) : Type 0 where
  pub online : (sock : ℕ) → online_in t sock ≡ d.online sock
  pub id_of : (sock : ℕ) → id_in t sock ≡ d.id_of sock
  pub owner : (id : ℕ) → owner_in t id ≡ d.owner id

pub IsDirectory-directory : (t : Table) (d : Directory) → IsDirectory t d → directory t ≡ d
unfolding directory
IsDirectory-directory t d h =
    let p : online_in t ≡ d.online = fun_ext h.online in
    let q : id_in t ≡ d.id_of = fun_ext h.id_of in
    let r : owner_in t ≡ d.owner = fun_ext h.owner in rw (p, q, r) refl

pub node_of_socket-IsDirectory :
    (sock now : ℕ) (t : Table)
    → IsValid t
    → IsDirectory (node_of_socket sock now t).0 (connect sock (directory t))
unfolding node_of_socket set_node new_client connect directory online_in id_in owner_in put
node_of_socket-IsDirectory sock now t v = elim (Option-cases (lookup sock t.sock2node)) [
  | inr (c, e) ↦
      rw (e, node_of_socket)
        (record { online = λ s. ground (arith, e); id_of = λ s. refl; owner = λ u. refl })
  | inl e ↦
      rw (e, node_of_socket)
        (record {
          online = λ s. ground (arith, lookup-insert sock s t.next_node t.sock2node);
          id_of = λ s. elim (Option-cases (lookup s t.sock2node)) [
            | inl f ↦ ground (arith, e, f, lookup-insert sock s t.next_node t.sock2node)
            | inr (c, f) ↦
                ground (arith, e, f, lookup-insert sock s t.next_node t.sock2node, v.made s c f)
          ];
          owner = λ u. elim (Option-cases (lookup u t.uuid2node)) [
            | inl f ↦ ground (arith, f)
            | inr (c, f) ↦ ground (arith, f, v.made (t.node c).sock c (v.connected u c f))
          ];
        })
]

-- A change that leaves the tables and what the directory takes of the nodes.
pub same-IsDirectory :
    (t u : Table)
    → u.sock2node ≡ t.sock2node
    → u.uuid2node ≡ t.uuid2node
    → ((c : ℕ)
        → ((u.node c).sock ≡ (t.node c).sock)
          × ((u.node c).uuid ≡ (t.node c).uuid)
          × ((u.node c).uuid_recieved ≡ (t.node c).uuid_recieved))
    → directory u ≡ directory t
unfolding directory online_in id_in owner_in
same-IsDirectory t u p q n = IsDirectory-directory u (directory t) (record {
  online = λ s. rw p refl;
  id_of = λ s. elim (Option-cases (lookup s t.sock2node)) [
    | inl f ↦ ground (arith, p, f)
    | inr (c, f) ↦ ground (arith, p, f, n c)
  ];
  owner = λ i. elim (Option-cases (lookup i t.uuid2node)) [
    | inl f ↦ ground (arith, q, f)
    | inr (c, f) ↦ ground (arith, q, f, n c)
  ];
})

check_keeps : (now c : ℕ) (t : Table) → directory (check_heart_beating now c t) ≡ directory t
unfolding check_heart_beating emit
check_keeps now c t =
    elim (Bool-cases (leb ((t.node c).last_report + t.heart_beating_dead_thrd) now)) [
      | inl dead ↦ rw dead (same-IsDirectory t _ refl refl (λ j. (refl, refl, refl)))
      | inr alive ↦ rw alive refl
    ]

pub kick_dead_keeps :
    (now : ℕ) (m : List (ℕ × ℕ)) (t : Table) → directory (kick_dead now m t) ≡ directory t
unfolding kick_dead
kick_dead_keeps now [] t = refl
kick_dead_keeps now ((sock, c) ∷ m) t =
    kick_dead_keeps now m (check_heart_beating now c t) ∙ check_keeps now c t

push_new_data_keeps :
    (c : ℕ) (block : List ℕ) (now : ℕ) (t : Table)
    → directory (push_new_data c block now t).0 ≡ directory t
unfolding push_new_data set_node
push_new_data_keeps c block now t =
    same-IsDirectory t _ refl refl (λ j. (ground arith, ground arith, ground arith))

push_node_keeps : (c : ℕ) (t : Table) → directory (push_node c t) ≡ directory t
unfolding push_node emit set_node
push_node_keeps c t =
    same-IsDirectory t _ refl refl (λ j. (ground arith, ground arith, ground arith))

pub broadcast_keeps :
    (id : ℕ) (active : Bool) (t : Table)
    → directory (broadcast_client_uuid id active t) ≡ directory t
unfolding broadcast_client_uuid
broadcast_keeps id active t =
    same-IsDirectory t _ (ground arith) (ground arith)
      (λ c. (ground arith, ground arith, ground arith))

pub data_recieved_step :
    (sock : ℕ) (block : List ℕ) (now : ℕ) (t : Table)
    → IsValid t
    → directory (on_data_recieved sock block now t) ≡ connect sock (directory t)
unfolding on_data_recieved
data_recieved_step sock block now t v =
    let (t1, c) = node_of_socket sock now t in
    let pushed = push_new_data c block now t1 in
    let connected : directory pushed.0 ≡ connect sock (directory t) =
      push_new_data_keeps c block now t1
      ∙ IsDirectory-directory t1 _ (node_of_socket-IsDirectory sock now t v) in
    elim (Bool-cases (leb pushed.1 1)) [
      | inl first ↦ rw first (push_node_keeps c pushed.0 ∙ connected)
      | inr more ↦ rw more connected
    ]
