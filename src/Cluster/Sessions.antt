-- ===== src/Cluster/Sessions.antt =====
-- cluster/zp_clusterterm.cpp: the slots that the network engine calls when a connection opens,
-- brings data, or closes. Time is an argument.
pub mod Invariant
pub mod Stale
use zpserver.Common.{
  ℕ, suc, ◌+◌, Bool, true, false, ◌&&◌, Option, none, some, List, [], ◌∷◌, ◌++◌, ltb, leb, ◌==◌,
  if◌then◌else◌, length, nat_key, text_key, lookup, insert, remove,
}
use zpserver.Cluster.State.{
  Event, send_data, close_client, message, new_svr_disconnected, push_task, delete_later, Node,
  Term, emit, emit_all, set_node, new_node,
}
use zpserver.Cluster.Wire.{write_info, cross_svr_msg}
use zpserver.Cluster.Term.{info_of_term}

-- SendHelloPackage of node `c`
unfoldable pub send_hello_package : ℕ → Term → Term
send_hello_package c t =
    emit (send_data (t.node c).sock (cross_svr_msg 0x01 (write_info (info_of_term t)))) t

-- The node of a connection, made and entered if there is none.
unfoldable pub node_of_socket : ℕ → ℕ → Term → Term × ℕ
node_of_socket sock now t = elim (lookup sock t.sock2node) [
  | some c ↦ (t, c)
  | none ↦ (
    record (set_node t.next_node (new_node sock now) t) {
      sock2node = insert sock t.next_node t.sock2node;
      next_node = suc t.next_node;
    },
    t.next_node,
  )
]

-- on_evt_NewClientConnected (on_evt_ClientEncrypted has the same body, and is not connected)
unfoldable pub on_new_client_connected : ℕ → ℕ → Term → Term
on_new_client_connected sock now t =
    let (t', c) = node_of_socket sock now t in send_hello_package c t'

-- zp_ClusterNode::push_new_data: the term with the longer queue, and the queue's length.
unfoldable pub push_new_data : ℕ → List ℕ → ℕ → Term → Term × ℕ
push_new_data c block now t =
    let raw = (t.node c).list_raw_data ++ block ∷ [] in
    (set_node c (record (t.node c) { list_raw_data = raw; last_report = now }) t, length raw)

-- pushTask(node): the node waits in the task engine's queue, with one more reference.
unfoldable pub push_node : ℕ → Term → Term
push_node c t =
    emit (push_task c) (set_node c (record (t.node c) { ref_count = (t.node c).ref_count + 1 }) t)

-- on_evt_Data_recieved
unfoldable pub on_data_recieved : ℕ → List ℕ → ℕ → Term → Term
on_data_recieved sock block now t =
    let (t1, c) = node_of_socket sock now t in
    let (t2, blocks) = push_new_data c block now t1 in if leb blocks 1 then push_node c t2 else t2

-- The nodes of the list that no task holds any more, and those that one holds.
unfoldable pub unreferenced : (ℕ → Node) → List ℕ → List ℕ
unreferenced node [] = []
unreferenced node (c ∷ cs) =
    let rest = unreferenced node cs in if (node c).ref_count == 0 then c ∷ rest else rest

unfoldable pub referenced : (ℕ → Node) → List ℕ → List ℕ
referenced node [] = []
referenced node (c ∷ cs) =
    let rest = referenced node cs in if (node c).ref_count == 0 then rest else c ∷ rest

unfoldable pub deletions : List ℕ → List Event
deletions [] = []
deletions (c ∷ cs) = delete_later c ∷ deletions cs

-- The second half of on_evt_ClientDisconnected: delete what can be deleted.
unfoldable pub delete_nodes : Term → Term
delete_nodes t =
    emit_all (deletions (unreferenced t.node t.node_to_be_del))
      (record t { node_to_be_del = referenced t.node t.node_to_be_del })

-- The name is given up only if it is this node that is entered under it.
unfoldable pub unregister_name : ℕ → Term → Term
unregister_name c t =
    if length (t.node c).term_name == 0
    then t
    else (elim (lookup (t.node c).term_name t.name2node) [
      | none ↦ t
      | some d ↦
          if d == c then record t { name2node = remove (t.node c).term_name t.name2node } else t
    ])

-- bTermSet = true, and into the list of nodes to be deleted
unfoldable pub give_up : ℕ → Term → Term
give_up c t = record (set_node c (record (t.node c) { term_set = true }) t) {
  node_to_be_del = t.node_to_be_del ++ c ∷ [];
}

-- The first half, for the node `c` of the connection.
unfoldable pub retire_node : ℕ → ℕ → Term → Term
retire_node sock c t =
    let t' = give_up c (unregister_name c (record t { sock2node = remove sock t.sock2node })) in
    if length (t.node c).term_name == 0
    then t'
    else emit (new_svr_disconnected (t.node c).term_name) t'

-- on_evt_ClientDisconnected
unfoldable pub on_client_disconnected : ℕ → Term → Term
on_client_disconnected sock t = elim (lookup sock t.sock2node) [
  | none ↦ delete_nodes t
  | some c ↦ delete_nodes (retire_node sock c t)
]

-- zp_ClusterNode::CheckHeartBeating: a node that was silent too long is closed.
unfoldable pub check_heart_beating : ℕ → ℕ → Term → Term
check_heart_beating now c t =
    if leb ((t.node c).last_report + t.heart_beating_time) now
    then emit (close_client (t.node c).sock) (emit message t)
    else t

-- KickDeadClients, over the entries of m_hash_sock2node
unfoldable pub kick_dead : ℕ → List (ℕ × ℕ) → Term → Term
kick_dead now [] t = t
kick_dead now ((sock, c) ∷ m) t = kick_dead now m (check_heart_beating now c t)

unfoldable pub kick_dead_clients : ℕ → Term → Term
kick_dead_clients now t = kick_dead now t.sock2node t
