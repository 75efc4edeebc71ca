-- ===== src/Smartlink/Table/Clients.antt =====
-- The tables of st_client_table over sequences of its calls. A login that gives a client a second id
-- is not one of them: Smartlink/App/SecondId is about it.
use zpserver.Common.{
  ℕ, ◌+◌, ◌<◌, ◌≡◌, ◌≢◌, refl, inl, inr, Bool, true, false, none, some, List, [], ◌∷◌, arith, leb,
  ◌==◌, nat_key, lookup, remove, lookup-insert, lookup-remove, Bool-cases, Option-cases,
}
use zpserver.Smartlink.Table.{
  ClientNode, Table, emit, set_node, new_client, broadcast_client_uuid, regisit_client_uuid,
  node_of_socket, on_new_client_connected, on_client_encrypted, push_new_data, push_node,
  on_data_recieved, delete_nodes, unregister_uuid, give_up, on_client_disconnected,
  check_heart_beating, kick_dead, kick_dead_clients, is_valid_user_id, identify_client,
}

-- Each connection has its own node, which is not given up; each id leads to the node of a connected
-- client that has this id.
pub record IsValid (t : Table) : Type 0 where
  pub has_socket : (sock c : ℕ) → lookup sock t.sock2node ≡ some c → (t.node c).sock ≡ sock
  pub not_given_up : (sock c : ℕ) → lookup sock t.sock2node ≡ some c → (t.node c).term_set ≡ false
  pub made : (sock c : ℕ) → lookup sock t.sock2node ≡ some c → c < t.next_node
  pub has_uuid :
      (u c : ℕ)
      → lookup u t.uuid2node ≡ some c
      → ((t.node c).uuid ≡ u) × ((t.node c).uuid_recieved ≡ true)
  pub connected :
      (u c : ℕ) → lookup u t.uuid2node ≡ some c → lookup (t.node c).sock t.sock2node ≡ some c

-- A connection, an encrypted connection, data, the id of a connected client, a disconnection, and
-- the timer.
pub data Call : Type 0 where
  opened encrypted : ℕ → ℕ → Call
  data_recieved : ℕ → List ℕ → ℕ → Call
  identified : ℕ → ℕ → Call
  disconnected timer : ℕ → Call

-- The first id of the client with a connection.
unfoldable pub identify_socket : ℕ → ℕ → Table → Table
identify_socket sock id t = elim (lookup sock t.sock2node) [
  | none ↦ t
  | some c ↦ identify_client c id t
]

unfoldable pub serve : Table → Call → Table
serve t (opened sock now) = on_new_client_connected sock now t
serve t (encrypted sock now) = on_client_encrypted sock now t
serve t (data_recieved sock block now) = on_data_recieved sock block now t
serve t (identified sock id) = identify_socket sock id t
serve t (disconnected sock) = on_client_disconnected sock t
serve t (timer now) = kick_dead_clients now t

unfoldable pub serve_all : Table → List Call → Table
serve_all t [] = t
serve_all t (c ∷ cs) = serve_all (serve t c) cs

-- A state with the same tables.
same_tables :
    (t : Table) {u : Table}
    → u.sock2node ≡ t.sock2node
    → u.uuid2node ≡ t.uuid2node
    → u.node ≡ t.node
    → u.next_node ≡ t.next_node
    → IsValid t
    → IsValid u
same_tables t {u} p q r n v = record {
  has_socket = λ s c h. rw r (v.has_socket s c (rw (← p) h));
  not_given_up = λ s c h. rw r (v.not_given_up s c (rw (← p) h));
  made = λ s c h. rw n (v.made s c (rw (← p) h));
  has_uuid = λ k c h. rw r (v.has_uuid k c (rw (← q) h));
  connected = λ k c h. rw (r, p) (v.connected k c (rw (← q) h));
}

-- A change of a node that leaves what the tables rest on.
set_node-IsValid :
    (c : ℕ) (n : ClientNode) (t : Table)
    → n.sock ≡ (t.node c).sock
    → n.term_set ≡ (t.node c).term_set
    → n.uuid ≡ (t.node c).uuid
    → n.uuid_recieved ≡ (t.node c).uuid_recieved
    → IsValid t
    → IsValid (set_node c n t)
unfolding set_node
set_node-IsValid c n t p q r k v = record {
  has_socket = λ s d h. ground (arith, v.has_socket s d);
  not_given_up = λ s d h. ground (arith, v.not_given_up s d);
  made = λ s d h. v.made s d h;
  has_uuid = λ u d h. ground (arith, v.has_uuid u d h);
  connected = λ u d h. ground (arith, v.connected u d h);
}

node_of_socket-IsValid :
    (sock now : ℕ) (t : Table) → IsValid t → IsValid (node_of_socket sock now t).0
unfolding node_of_socket set_node new_client
node_of_socket-IsValid sock now t v = elim (Option-cases (lookup sock t.sock2node)) [
  | inr (c, e) ↦ rw (e, node_of_socket) v
  | inl e ↦
      rw (e, node_of_socket)
        (record {
          has_socket = λ s c h.
              ground
                (arith, lookup-insert sock s t.next_node t.sock2node, v.has_socket s c, v.made s c);
          not_given_up = λ s c h.
              ground (
                arith,
                lookup-insert sock s t.next_node t.sock2node,
                v.not_given_up s c,
                v.made s c,
              );
          made = λ s c h. ground (arith, lookup-insert sock s t.next_node t.sock2node, v.made s c);
          has_uuid = λ u c h.
              ground (arith, v.has_uuid u c h, v.made (t.node c).sock c (v.connected u c h));
          connected = λ u c h. ground (
            arith,
            e,
            v.connected u c h,
            v.made (t.node c).sock c (v.connected u c h),
            lookup-insert sock (t.node c).sock t.next_node t.sock2node,
          );
        })
]

broadcast_keeps :
    (id : ℕ) (active : Bool) (t : Table)
    → ((broadcast_client_uuid id active t).sock2node ≡ t.sock2node)
      × ((broadcast_client_uuid id active t).uuid2node ≡ t.uuid2node)
      × ((broadcast_client_uuid id active t).node ≡ t.node)
      × ((broadcast_client_uuid id active t).next_node ≡ t.next_node)
unfolding broadcast_client_uuid
broadcast_keeps id active t = ground arith

broadcast-IsValid :
    (id : ℕ) (active : Bool) (t : Table) → IsValid t → IsValid (broadcast_client_uuid id active t)
broadcast-IsValid id active t v =
    let (p, q, r, n) = broadcast_keeps id active t in same_tables t p q r n v

push_node-IsValid : (c : ℕ) (t : Table) → IsValid t → IsValid (push_node c t)
unfolding push_node emit
push_node-IsValid c t v =
    same_tables (set_node c _ t) refl refl refl refl (set_node-IsValid c _ t refl refl refl refl v)

data_recieved-IsValid :
    (sock : ℕ) (block : List ℕ) (now : ℕ) (t : Table)
    → IsValid t
    → IsValid (on_data_recieved sock block now t)
unfolding on_data_recieved push_new_data
data_recieved-IsValid sock block now t v =
    let (t1, c) = node_of_socket sock now t in
    let v2 = set_node-IsValid c _ t1 refl refl refl refl (node_of_socket-IsValid sock now t v) in
    elim (Bool-cases (leb (push_new_data c block now t1).1 1)) [
      | inl first ↦ rw first (push_node-IsValid c _ v2)
      | inr more ↦ rw more v2
    ]

-- The node of a connection that had no id gets one, and is entered under it.
identify_client-IsValid :
    (sock c id : ℕ) (t : Table)
    → lookup sock t.sock2node ≡ some c
    → IsValid t
    → IsValid (identify_client c id t)
unfolding identify_client regisit_client_uuid set_node
identify_client-IsValid sock c id t at v = elim (Bool-cases (t.node c).uuid_recieved) [
  | inl known ↦ rw known v
  | inr new ↦ elim (Bool-cases (is_valid_user_id id)) [
    | inr wrong ↦ rw (new, wrong) v
    | inl fine ↦
        rw (new, fine, nat_same c)
          (broadcast-IsValid id true _ (record {
            has_socket = λ s d h. ground (arith, v.has_socket s d h);
            not_given_up = λ s d h. ground (arith, v.not_given_up s d h);
            made = λ s d h. v.made s d h;
            has_uuid = λ u d h. ground (arith, lookup-insert id u c t.uuid2node, v.has_uuid u d);
            connected = λ u d h. ground (
              arith,
              lookup-insert id u c t.uuid2node,
              v.connected u d,
              v.has_socket sock c at,
              at,
            );
          }))
  ]
]
  where
    nat_same : (k : ℕ) → (k == k) ≡ true
    nat_same k = ground arith

check-IsValid : (now c : ℕ) (t : Table) → IsValid t → IsValid (check_heart_beating now c t)
unfolding check_heart_beating emit
check-IsValid now c t v =
    elim (Bool-cases (leb ((t.node c).last_report + t.heart_beating_dead_thrd) now)) [
      | inl dead ↦ rw dead (same_tables t refl refl refl refl v)
      | inr alive ↦ rw alive v
    ]

kick_dead-IsValid :
    (now : ℕ) (m : List (ℕ × ℕ)) (t : Table) → IsValid t → IsValid (kick_dead now m t)
unfolding kick_dead
kick_dead-IsValid now [] t v = v
kick_dead-IsValid now ((sock, c) ∷ m) t v =
    kick_dead-IsValid now m (check_heart_beating now c t) (check-IsValid now c t v)

-- After the connection of `c` and its id are taken out, nothing leads to `c`.
record IsLeft (c : ℕ) (t : Table) : Type 0 where
  valid : IsValid t
  no_socket : (s d : ℕ) → lookup s t.sock2node ≡ some d → d ≢ c
  no_uuid : (u d : ℕ) → lookup u t.uuid2node ≡ some d → d ≢ c

give_up-IsValid : (c : ℕ) (t : Table) → IsLeft c t → IsValid (give_up c t)
unfolding give_up set_node
give_up-IsValid c t l = record {
  has_socket = λ s d h. ground (arith, l.valid.has_socket s d h, l.no_socket s d h);
  not_given_up = λ s d h. ground (arith, l.valid.not_given_up s d h, l.no_socket s d h);
  made = λ s d h. l.valid.made s d h;
  has_uuid = λ u d h. ground (arith, l.valid.has_uuid u d h, l.no_uuid u d h);
  connected = λ u d h. ground (arith, l.valid.connected u d h, l.no_uuid u d h);
}

-- The tables after the two removals; `uuids` is what is left of the ids.
remove-IsLeft :
    (sock c : ℕ) (uuids : List (ℕ × ℕ)) (t : Table)
    → lookup sock t.sock2node ≡ some c
    → ((u d : ℕ) → lookup u uuids ≡ some d → (lookup u t.uuid2node ≡ some d) × (d ≢ c))
    → IsValid t
    → IsLeft c (record t { sock2node = remove sock t.sock2node; uuid2node = uuids })
remove-IsLeft sock c uuids t at less v = record {
  valid = record {
    has_socket = λ s d h. ground (arith, lookup-remove sock s t.sock2node, v.has_socket s d);
    not_given_up = λ s d h. ground (arith, lookup-remove sock s t.sock2node, v.not_given_up s d);
    made = λ s d h. ground (arith, lookup-remove sock s t.sock2node, v.made s d);
    has_uuid = λ u d h. v.has_uuid u d (less u d h).0;
    connected = λ u d h. ground (
      arith,
      v.connected u d (less u d h).0,
      (less u d h).1,
      at,
      lookup-remove sock (t.node d).sock t.sock2node,
    );
  };
  no_socket = λ s d h.
      ground (arith, lookup-remove sock s t.sock2node, v.has_socket s d, v.has_socket sock c at);
  no_uuid = λ u d h. (less u d h).1;
}

IsLeft-broadcast :
    (c id : ℕ) (active : Bool) (t : Table)
    → IsLeft c t
    → IsLeft c (broadcast_client_uuid id active t)
IsLeft-broadcast c id active t l =
    let (p, q, r, n) = broadcast_keeps id active t in
    record {
      valid = same_tables t p q r n l.valid;
      no_socket = λ s d h. l.no_socket s d (rw (← p) h);
      no_uuid = λ u d h. l.no_uuid u d (rw (← q) h);
    }

unregister-IsLeft :
    (sock c : ℕ) (t : Table)
    → lookup sock t.sock2node ≡ some c
    → IsValid t
    → IsLeft c (unregister_uuid c (record t { sock2node = remove sock t.sock2node }))
unfolding unregister_uuid
unregister-IsLeft sock c t at v = elim (Bool-cases (t.node c).uuid_recieved) [
  | inr unknown ↦
      rw unknown
        (remove-IsLeft sock c t.uuid2node t at (λ u d h. (h, ground (arith, v.has_uuid u d h))) v)
  | inl known ↦ elim (Option-cases (lookup (t.node c).uuid t.uuid2node)) [
    | inl no_entry ↦
        rw (known, no_entry, unregister_uuid)
          (remove-IsLeft sock c t.uuid2node t at (λ u d h. (h, ground (arith, v.has_uuid u d h))) v)
    | inr (d, entry) ↦ elim (Bool-cases (d == c)) [
      | inr other ↦
          rw (known, entry, unregister_uuid, other)
            (remove-IsLeft sock c t.uuid2node t at (λ u k h. (h, ground (arith, v.has_uuid u k h)))
              v)
      | inl same ↦
          rw (known, entry, unregister_uuid, same)
            (IsLeft-broadcast c (t.node c).uuid false _ (
              remove-IsLeft sock c (remove (t.node c).uuid t.uuid2node) t at
                (λ u k h. (
                  ground (arith, lookup-remove (t.node c).uuid u t.uuid2node),
                  ground (arith, lookup-remove (t.node c).uuid u t.uuid2node, v.has_uuid u k),
                ))
                v))
    ]
  ]
]

disconnected-IsValid : (sock : ℕ) (t : Table) → IsValid t → IsValid (on_client_disconnected sock t)
unfolding on_client_disconnected delete_nodes
disconnected-IsValid sock t v = elim (Option-cases (lookup sock t.sock2node)) [
  | inl e ↦ rw (e, on_client_disconnected) (same_tables t refl refl refl refl v)
  | inr (c, e) ↦
      let u = unregister_uuid c (record t { sock2node = remove sock t.sock2node }) in
      rw (e, on_client_disconnected)
        (same_tables (give_up c u) refl refl refl refl
          (give_up-IsValid c u (unregister-IsLeft sock c t e v)))
]

identify-IsValid : (sock id : ℕ) (t : Table) → IsValid t → IsValid (identify_socket sock id t)
unfolding identify_socket
identify-IsValid sock id t v = elim (Option-cases (lookup sock t.sock2node)) [
  | inl e ↦ rw (e, identify_socket) v
  | inr (c, e) ↦ rw (e, identify_socket) (identify_client-IsValid sock c id t e v)
]

pub serve-IsValid : (t : Table) (c : Call) → IsValid t → IsValid (serve t c)
unfolding serve on_new_client_connected on_client_encrypted kick_dead_clients
serve-IsValid t (opened sock now) v = node_of_socket-IsValid sock now t v
serve-IsValid t (encrypted sock now) v = node_of_socket-IsValid sock now t v
serve-IsValid t (data_recieved sock block now) v = data_recieved-IsValid sock block now t v
serve-IsValid t (identified sock id) v = identify-IsValid sock id t v
serve-IsValid t (disconnected sock) v = disconnected-IsValid sock t v
serve-IsValid t (timer now) v = kick_dead-IsValid now t.sock2node t v

-- From valid tables, over any sequence of connections, encrypted connections, data, first ids of
-- clients, disconnections and timer calls, two connections with one id among them, but without a
-- second id for a client: each connection has its own node, and each id leads to a client that has
-- this id and is connected.
pub clients-IsValid : (t : Table) (cs : List Call) → IsValid t → IsValid (serve_all t cs)
unfolding serve_all
clients-IsValid t [] v = v
clients-IsValid t (c ∷ cs) v = clients-IsValid (serve t c) cs (serve-IsValid t c v)
