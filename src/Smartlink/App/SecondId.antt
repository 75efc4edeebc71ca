-- ===== src/Smartlink/App/SecondId.antt =====
-- A client that has an id, from a heart beat, and logs in as another user.
use zpserver.Common.{
  ℕ, ◌≡◌, ◌≢◌, refl, ap, ◌∙◌, Bool, true, false, some, arith, ◌==◌, lookup, insert, remove, nat_key,
  lookup-insert, lookup-remove,
}
use zpserver.Smartlink.Table.{
  Table, set_node, broadcast_client_uuid, regisit_client_uuid, delete_nodes, unregister_uuid,
  give_up, on_client_disconnected,
}
use zpserver.Smartlink.App.Requests.{set_uuid}

set_uuid_tables :
    (c id : ℕ) (t : Table)
    → ((set_uuid c id t).sock2node ≡ t.sock2node)
      × ((set_uuid c id t).uuid2node ≡ insert id c t.uuid2node)
      × ((set_uuid c id t).node c ≡ record (t.node c) { uuid = id; uuid_recieved = true })
unfolding set_uuid regisit_client_uuid broadcast_client_uuid set_node
set_uuid_tables c id t = ground arith

broadcast_uuids :
    (id : ℕ) (active : Bool) (t : Table)
    → ((broadcast_client_uuid id active t).uuid2node ≡ t.uuid2node)
      × ((broadcast_client_uuid id active t).node ≡ t.node)
unfolding broadcast_client_uuid
broadcast_uuids id active t = ground arith

-- Only the entry of the node's present id is taken out.
unregister_present :
    (c : ℕ) (t : Table)
    → (t.node c).uuid_recieved ≡ true
    → lookup (t.node c).uuid t.uuid2node ≡ some c
    → ((unregister_uuid c t).uuid2node ≡ remove (t.node c).uuid t.uuid2node)
unfolding unregister_uuid
unregister_present c t known entry =
    let same : (c == c) ≡ true = ground arith in
    rw (known, entry, unregister_uuid, same) (broadcast_uuids (t.node c).uuid false _).0

give_up_term : (c : ℕ) (t : Table) → ((give_up c t).node c).term_set ≡ true
unfolding give_up set_node
give_up_term c t = ground arith

disconnected_is :
    (sock c : ℕ) (t : Table)
    → lookup sock t.sock2node ≡ some c
    → on_client_disconnected sock t
      ≡ delete_nodes
          (give_up c (unregister_uuid c (record t { sock2node = remove sock t.sock2node })))
unfolding on_client_disconnected
disconnected_is sock c t at = rw (at, on_client_disconnected) refl

given_up_tables :
    (c : ℕ) (t : Table)
    → ((delete_nodes (give_up c t)).uuid2node ≡ t.uuid2node)
      × (((delete_nodes (give_up c t)).node c).term_set ≡ true)
unfolding delete_nodes give_up set_node
given_up_tables c t = ground arith

-- A connected client that is entered under an id, and then logs in as a user with another id: when
-- it is disconnected, its first id still leads to its node, which is given up.
pub second_id_stale :
    (sock c id : ℕ) (t : Table)
    → lookup sock t.sock2node ≡ some c
    → lookup (t.node c).uuid t.uuid2node ≡ some c
    → (t.node c).uuid ≢ id
    → (lookup (t.node c).uuid (on_client_disconnected sock (set_uuid c id t)).uuid2node ≡ some c)
      × (((on_client_disconnected sock (set_uuid c id t)).node c).term_set ≡ true)
second_id_stale sock c id t at entry other =
    let (socks, uuids, node) = set_uuid_tables c id t in
    let u = set_uuid c id t in
    let v = record u { sock2node = remove sock u.sock2node } in
    let known : (v.node c).uuid_recieved ≡ true = ap (λ n. n.uuid_recieved) node in
    let id_is : (v.node c).uuid ≡ id = ap (λ n. n.uuid) node in
    let present : lookup (v.node c).uuid v.uuid2node ≡ some c =
      ap (λ i. lookup i v.uuid2node) id_is
      ∙ ap (lookup id) uuids
      ∙ ground (arith, lookup-insert id id c t.uuid2node) in
    let left = unregister_present c v known present in
    let (kept, given_up) = given_up_tables c (unregister_uuid c v) in
    let gone = disconnected_is sock c u (ap (lookup sock) socks ∙ at) in
    (
      ap (λ x. lookup (t.node c).uuid x.uuid2node) gone
          ∙ ap (lookup (t.node c).uuid) (kept ∙ left)
          ∙ ap (λ i. lookup (t.node c).uuid (remove i v.uuid2node)) id_is
          ∙ ap (λ m. lookup (t.node c).uuid (remove id m)) uuids
          ∙ ground (
            arith,
            other,
            entry,
            lookup-remove id (t.node c).uuid (insert id c t.uuid2node),
            lookup-insert id (t.node c).uuid c t.uuid2node,
          ),
      ap (λ x. (x.node c).term_set) gone ∙ given_up,
    )
