-- ===== src/Cluster/Sessions/Invariant.antt =====
-- The tables of zp_ClusterTerm over any sequence of the network engine's calls.
use zpserver.Common.{
  ℕ, ◌+◌, ◌<◌, ◌≡◌, ◌≢◌, refl, inl, inr, Bool, true, false, some, List, [], ◌∷◌, arith, leb, ◌==◌,
  if◌then◌else◌, nat_key, lookup, remove, length, lookup-insert, lookup-remove, Bool-cases,
  Option-cases,
}
use zpserver.Cluster.State.{Node, Term, emit, emit_all, set_node, new_node}
use zpserver.Cluster.Sessions.{
  give_up, send_hello_package, node_of_socket, on_new_client_connected, push_new_data, push_node,
  on_data_recieved, delete_nodes, unregister_name, retire_node, on_client_disconnected,
  check_heart_beating, kick_dead, kick_dead_clients,
}

-- The node of a connection has its socket, which no two connections then share, and is not given up.
pub record IsValid (t : Term) : Type 0 where
  pub has_socket : (sock c : ℕ) → lookup sock t.sock2node ≡ some c → (t.node c).sock ≡ sock
  pub not_given_up : (sock c : ℕ) → lookup sock t.sock2node ≡ some c → (t.node c).term_set ≡ false
  pub made : (sock c : ℕ) → lookup sock t.sock2node ≡ some c → c < t.next_node

-- The calls of the network engine and of the timer.
pub data Call : Type 0 where
  connected : ℕ → ℕ → Call
  data_recieved : ℕ → List ℕ → ℕ → Call
  disconnected : ℕ → Call
  timer : ℕ → Call

pub serve : Term → Call → Term
serve t (connected sock now) = on_new_client_connected sock now t
serve t (data_recieved sock block now) = on_data_recieved sock block now t
serve t (disconnected sock) = on_client_disconnected sock t
serve t (timer now) = kick_dead_clients now t

pub serve_all : Term → List Call → Term
serve_all t [] = t
serve_all t (c ∷ cs) = serve_all (serve t c) cs

node_of_socket-IsValid :
    (sock now : ℕ) (t : Term) → IsValid t → IsValid (node_of_socket sock now t).0
unfolding node_of_socket set_node new_node
node_of_socket-IsValid sock now t v = elim (Option-cases (lookup sock t.sock2node)) [
  | inr (c, e) ↦ rw (e, node_of_socket) v
  | inl e ↦
      rw (e, node_of_socket)
        (record {
          has_socket = λ s c h.
              ground
                (arith, lookup-insert sock s t.next_node t.sock2node, v.has_socket s c, v.made s c);
          not_given_up = λ s c h.
              ground (
                arith,
                lookup-insert sock s t.next_node t.sock2node,
                v.not_given_up s c,
                v.made s c,
              );
          made = λ s c h. ground (arith, lookup-insert sock s t.next_node t.sock2node, v.made s c);
        })
]

-- A node is entered under the socket afterwards.
pub node_of_socket-lookup :
    (sock now : ℕ) (t : Term)
    → lookup sock (node_of_socket sock now t).0.sock2node ≡ some (node_of_socket sock now t).1
unfolding node_of_socket
node_of_socket-lookup sock now t = elim (Option-cases (lookup sock t.sock2node)) [
  | inr (c, e) ↦ rw (e, node_of_socket) e
  | inl e ↦ rw (e, node_of_socket) (ground (arith, lookup-insert sock sock t.next_node t.sock2node))
]

emit-IsValid :
    (t : Term) {u : Term}
    → u.sock2node ≡ t.sock2node
    → u.node ≡ t.node
    → u.next_node ≡ t.next_node
    → IsValid t
    → IsValid u
emit-IsValid t {u} p q r v = record {
  has_socket = λ s c h. rw q (v.has_socket s c (rw (← p) h));
  not_given_up = λ s c h. rw q (v.not_given_up s c (rw (← p) h));
  made = λ s c h. rw r (v.made s c (rw (← p) h));
}

set_node-IsValid :
    (c : ℕ) (n : Node) (t : Term)
    → n.sock ≡ (t.node c).sock
    → n.term_set ≡ (t.node c).term_set
    → IsValid t
    → IsValid (set_node c n t)
unfolding set_node
set_node-IsValid c n t p q v = record {
  has_socket = λ s d h. ground (arith, v.has_socket s d);
  not_given_up = λ s d h. ground (arith, v.not_given_up s d);
  made = λ s d h. v.made s d h;
}

push_node-IsValid : (c : ℕ) (t : Term) → IsValid t → IsValid (push_node c t)
unfolding push_node emit
push_node-IsValid c t v =
    emit-IsValid (set_node c _ t) refl refl refl (set_node-IsValid c _ t refl refl v)

push_new_data-IsValid :
    (c : ℕ) (block : List ℕ) (now : ℕ) (t : Term)
    → IsValid t
    → IsValid (push_new_data c block now t).0
unfolding push_new_data
push_new_data-IsValid c block now t v = set_node-IsValid c _ t refl refl v

connected-IsValid :
    (sock now : ℕ) (t : Term) → IsValid t → IsValid (on_new_client_connected sock now t)
unfolding on_new_client_connected send_hello_package emit
connected-IsValid sock now t v =
    emit-IsValid (node_of_socket sock now t).0 refl refl refl (node_of_socket-IsValid sock now t v)

data_recieved-IsValid :
    (sock : ℕ) (block : List ℕ) (now : ℕ) (t : Term)
    → IsValid t
    → IsValid (on_data_recieved sock block now t)
unfolding on_data_recieved
data_recieved-IsValid sock block now t v =
    let (t1, c) = node_of_socket sock now t in
    let v2 = push_new_data-IsValid c block now t1 (node_of_socket-IsValid sock now t v) in
    if-IsValid (leb (push_new_data c block now t1).1 1) _ _ (push_node-IsValid c _ v2) v2
  where
    if-IsValid : (b : Bool) (x y : Term) → IsValid x → IsValid y → IsValid (if b then x else y)
    if-IsValid true x y p q = p
    if-IsValid false x y p q = q

check-IsValid : (now c : ℕ) (t : Term) → IsValid t → IsValid (check_heart_beating now c t)
unfolding check_heart_beating emit
check-IsValid now c t v =
    elim (Bool-cases (leb ((t.node c).last_report + t.heart_beating_time) now)) [
      | inl dead ↦ rw dead (emit-IsValid t refl refl refl v)
      | inr alive ↦ rw alive v
    ]

kick_dead-IsValid :
    (now : ℕ) (m : List (ℕ × ℕ)) (t : Term) → IsValid t → IsValid (kick_dead now m t)
unfolding kick_dead
kick_dead-IsValid now [] t v = v
kick_dead-IsValid now ((sock, c) ∷ m) t v =
    kick_dead-IsValid now m (check_heart_beating now c t) (check-IsValid now c t v)

delete_nodes-IsValid : (t : Term) → IsValid t → IsValid (delete_nodes t)
unfolding delete_nodes emit_all
delete_nodes-IsValid t v = emit-IsValid t refl refl refl v

-- Giving up a name touches neither the sockets nor the nodes.
unregister_name_keeps :
    (c : ℕ) (t : Term)
    → ((unregister_name c t).sock2node ≡ t.sock2node)
      × ((unregister_name c t).node ≡ t.node)
      × ((unregister_name c t).next_node ≡ t.next_node)
unfolding unregister_name
unregister_name_keeps c t = ground arith

-- After the connection's entry is gone, no entry leads to its node.
removed_leads_elsewhere :
    (sock c s d : ℕ) (t : Term)
    → lookup sock t.sock2node ≡ some c
    → IsValid t
    → lookup s (remove sock t.sock2node) ≡ some d
    → (lookup s t.sock2node ≡ some d) × (d ≢ c)
removed_leads_elsewhere sock c s d t e v h =
    ground (arith, lookup-remove sock s t.sock2node, v.has_socket sock c e, v.has_socket s d)

give_up-IsValid :
    (c : ℕ) (t : Term)
    → ((s d : ℕ) → lookup s t.sock2node ≡ some d → d ≢ c)
    → IsValid t
    → IsValid (give_up c t)
unfolding give_up set_node
give_up-IsValid c t other v = record {
  has_socket = λ s d h. ground (arith, v.has_socket s d h, other s d h);
  not_given_up = λ s d h. ground (arith, v.not_given_up s d h, other s d h);
  made = λ s d h. v.made s d h;
}

retire_node-IsValid :
    (sock c : ℕ) (t : Term)
    → lookup sock t.sock2node ≡ some c
    → IsValid t
    → IsValid (retire_node sock c t)
unfolding retire_node emit
retire_node-IsValid sock c t e v =
    let t0 = record t { sock2node = remove sock t.sock2node } in
    let (ks, kn, km) = unregister_name_keeps c t0 in
    let v0 : IsValid t0 = record {
      has_socket = λ s d h. v.has_socket s d (removed_leads_elsewhere sock c s d t e v h).0;
      not_given_up = λ s d h. v.not_given_up s d (removed_leads_elsewhere sock c s d t e v h).0;
      made = λ s d h. v.made s d (removed_leads_elsewhere sock c s d t e v h).0;
    } in
    let v1 = emit-IsValid t0 {u = unregister_name c t0} ks kn km v0 in
    let v2 =
      give_up-IsValid c (unregister_name c t0)
        (λ s d h. (removed_leads_elsewhere sock c s d t e v (rw ks at h)).1) v1 in
    elim (Bool-cases (length (t.node c).term_name == 0)) [
      | inl nameless ↦ rw nameless v2
      | inr named ↦ rw named (emit-IsValid (give_up c (unregister_name c t0)) refl refl refl v2)
    ]

disconnected-IsValid : (sock : ℕ) (t : Term) → IsValid t → IsValid (on_client_disconnected sock t)
unfolding on_client_disconnected
disconnected-IsValid sock t v = elim (Option-cases (lookup sock t.sock2node)) [
  | inl e ↦ rw (e, on_client_disconnected) (delete_nodes-IsValid t v)
  | inr (c, e) ↦
      rw (e, on_client_disconnected)
        (delete_nodes-IsValid (retire_node sock c t) (retire_node-IsValid sock c t e v))
]

pub serve-IsValid : (t : Term) (c : Call) → IsValid t → IsValid (serve t c)
unfolding serve kick_dead_clients
serve-IsValid t (connected sock now) v = connected-IsValid sock now t v
serve-IsValid t (data_recieved sock block now) v = data_recieved-IsValid sock block now t v
serve-IsValid t (disconnected sock) v = disconnected-IsValid sock t v
serve-IsValid t (timer now) v = kick_dead-IsValid now t.sock2node t v

-- From a valid term, over any sequence of connections, data, disconnections and timer calls, each
-- connection has a node of its own that has its socket and is not given up.
pub serve_all-IsValid : (t : Term) (cs : List Call) → IsValid t → IsValid (serve_all t cs)
unfolding serve_all
serve_all-IsValid t [] v = v
serve_all-IsValid t (c ∷ cs) v = serve_all-IsValid (serve t c) cs (serve-IsValid t c v)
