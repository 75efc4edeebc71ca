-- ===== src/Cluster/Sessions/Stale.antt =====
-- A server that introduces itself twice, through zp_ClusterNode::deal_current_message_block and
-- zp_ClusterTerm::on_evt_ClientDisconnected.
use zpserver.Common.{
  ℕ, ◌≡◌, ◌≢◌, refl, inl, inr, true, false, none, some, List, [], ◌∷◌, arith, ◌==◌, length, Text,
  text_key, nat_key, text_same, lookup, contains, contains-none, lookup-remove, Bool-cases, eq→==,
  ◌∙◌,
}
use zpserver.Cluster.State.{Node, Term, emit, emit_all, set_node}
use zpserver.Cluster.Wire.{ServerInfo}
use zpserver.Cluster.Term.{regisit_new_server}
use zpserver.Cluster.Node.{basic_info, take_info}
use zpserver.Cluster.Sessions.{
  on_client_disconnected, retire_node, give_up, unregister_name, delete_nodes,
}

-- The term after the second introduction: the node has lost its name, the entry stays.
abbrev nameless : (Text → Text) → ServerInfo → ℕ → Term → Node
nameless host_address s c t = record (take_info host_address s (t.node c)) { term_name = [] }

some_length : (s : Text) → s ≢ [] → (length s == 0) ≡ false
some_length [] h = absurd (h refl)
some_length (c ∷ s) h = ground arith

contains_entry :
    (k : Text) (m : List (Text × ℕ)) (c : ℕ) → lookup k m ≡ some c → contains k m ≡ true
contains_entry k m c e = elim (Bool-cases (contains k m)) [
  | inl h ↦ h
  | inr h ↦ ground (arith, contains-none k m h)
]

again_refused :
    (host_address : Text → Text) (s : ServerInfo) (c : ℕ) (t : Term)
    → s.name ≢ []
    → text_same s.name t.term_name ≡ false
    → lookup s.name t.name2node ≡ some c
    → ((basic_info host_address s c t).name2node ≡ t.name2node)
      × ((basic_info host_address s c t).sock2node ≡ t.sock2node)
      × (((basic_info host_address s c t).node c).term_name ≡ [])
unfolding basic_info take_info regisit_new_server set_node emit
again_refused host_address s c t ne other e =
    rw
      (
        other,
        eq→== c c refl,
        some_length s.name ne,
        contains_entry s.name t.name2node c e,
        eq→== c c refl,
      )
      (refl, refl, refl)

nameless_leaves :
    (sock c : ℕ) (u : Term)
    → lookup sock u.sock2node ≡ some c
    → (u.node c).term_name ≡ []
    → ((on_client_disconnected sock u).name2node ≡ u.name2node)
      × (((on_client_disconnected sock u).node c).term_set ≡ true)
      × (lookup sock (on_client_disconnected sock u).sock2node ≡ none)
unfolding on_client_disconnected retire_node give_up unregister_name delete_nodes emit_all set_node
nameless_leaves sock c u e blank =
    rw (e, on_client_disconnected, blank, retire_node, unregister_name, eq→== c c refl)
      (refl, refl, lookup-remove sock sock u.sock2node ∙ rw (eq→== sock sock refl) refl)

-- A registered server that sends its basic information a second time, under the name it has, and
-- then disconnects, stays in the table of names: the name still leads to its node, which has been
-- given up for deletion and has no connection any more.
pub stale_name :
    (host_address : Text → Text) (s : ServerInfo) (sock c : ℕ) (t : Term)
    → lookup sock t.sock2node ≡ some c
    → s.name ≢ []
    → text_same s.name t.term_name ≡ false
    → lookup s.name t.name2node ≡ some c
    → let u = on_client_disconnected sock (basic_info host_address s c t) in
      (lookup s.name u.name2node ≡ some c)
      × ((u.node c).term_set ≡ true)
      × (lookup sock u.sock2node ≡ none)
stale_name host_address s sock c t here ne other e =
    let u = basic_info host_address s c t in
    let (names, socks, blank) = again_refused host_address s c t ne other e in
    let (names', gone, left) = nameless_leaves sock c u (rw socks here) blank in
    (rw (names', names) e, gone, left)
