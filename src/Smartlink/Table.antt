-- ===== src/Smartlink/Table.antt =====
-- smartlink/st_client_table.cpp: st_client_table, which knows the clients by connection and by id,
-- and for each client of a remote server the name of that server. A node is a number; what is sent,
-- and what is asked of the task engine, goes to `events`, with the constructors of Cluster/State.
-- The iteration order of std::unordered_map, which C++ leaves open, is that of the keys here.
pub mod Clients
pub mod Remote
use zpserver.Common.{
  ℕ, suc, ◌+◌, ◌*◌, Bool, true, false, not, ◌&&◌, Option, none, some, List, [], ◌∷◌, ◌++◌, ltb, leb,
  ◌==◌, if◌then◌else◌, length, bytes, nat_key, text_key, Text, text_same, lookup, insert, remove,
  contains, is_empty,
}
use zpserver.Cluster.State.{
  Event, send_data, close_client, message, push_task, delete_later, Node, Term,
}
use zpserver.Cluster.Term.{send_data_to_remote_server, min_payload_server, Payload}

-- st_clientNode_baseTrans, but for its reader
pub record ClientNode : Type 0 where
  pub sock : ℕ
  pub uuid : ℕ
  pub uuid_recieved : Bool
  pub list_raw_data : List (List ℕ)
  pub term_set : Bool
  pub last_report : ℕ
  pub ref_count : ℕ

pub record Table : Type 0 where
  pub uuid2node : List (ℕ × ℕ)
  pub sock2node : List (ℕ × ℕ)
  pub node_to_be_del : List ℕ
  pub node : ℕ → ClientNode
  pub next_node : ℕ
  pub remote_client2svr_name : List (ℕ × Text)
  pub heart_beating_dead_thrd : ℕ
  pub balance_max : ℕ
  pub cluster : Term
  pub events : List Event

unfoldable pub emit : Event → Table → Table
emit e t = record t { events = t.events ++ e ∷ [] }

unfoldable pub set_node : ℕ → ClientNode → Table → Table
set_node c n t = record t { node = λ j. if c == j then n else t.node j }

-- A constructed st_clientNode_baseTrans.
unfoldable pub new_client : ℕ → ℕ → ClientNode
new_client sock now = record {
  sock = sock;
  uuid = 0xffffffff;
  uuid_recieved = false;
  list_raw_data = [];
  term_set = false;
  last_report = now;
  ref_count = 0;
}

-- EXAMPLE_CROSSSVR_MSG: mark, version, type, length of the payload, payload.
unfoldable pub example_msg : ℕ → ℕ → List ℕ → List ℕ
example_msg kind size payload = bytes 2 0x4567 ++ (bytes 2 1 ++ (kind ∷ (bytes 4 size ++ payload)))

unfoldable pub uuid_bytes : List ℕ → List ℕ
uuid_bytes [] = []
uuid_bytes (u ∷ us) = bytes 4 u ++ uuid_bytes us

-- SvrNames: each entry's node gives its name.
unfoldable pub names_of : (ℕ → Node) → List (Text × ℕ) → List Text
names_of node [] = []
names_of node ((name, c) ∷ m) = (node c).term_name ∷ names_of node m

unfoldable pub svr_names : Term → List Text
svr_names t = names_of t.node t.name2node

unfoldable pub send_to_servers : List Text → List ℕ → Term → Term
send_to_servers [] array t = t
send_to_servers (svr ∷ svrs) array t =
    send_to_servers svrs array (send_data_to_remote_server svr array t)

-- broadcast_client_uuid
unfoldable pub broadcast_client_uuid : ℕ → Bool → Table → Table
broadcast_client_uuid uuid active t =
    let svrs = svr_names t.cluster in
    if is_empty svrs then t else record t {
      cluster =
          send_to_servers svrs (example_msg (if active then 0x01 else 0x02) 4 (bytes 4 uuid))
            t.cluster;
    }

-- regisitClientUUID
unfoldable pub regisit_client_uuid : ℕ → Table → Table × Bool
regisit_client_uuid c t = if not (t.node c).uuid_recieved then (t, false) else (
  broadcast_client_uuid (t.node c).uuid true
      (record t { uuid2node = insert (t.node c).uuid c t.uuid2node }),
  true,
)

-- clientNodeFromUUID, clientNodeFromSocket
unfoldable pub client_node_from_uuid : ℕ → Table → Option ℕ
client_node_from_uuid uuid t = lookup uuid t.uuid2node

unfoldable pub client_node_from_socket : ℕ → Table → Option ℕ
client_node_from_socket sock t = lookup sock t.sock2node

unfoldable pub node_of_socket : ℕ → ℕ → Table → Table × ℕ
node_of_socket sock now t = elim (lookup sock t.sock2node) [
  | some c ↦ (t, c)
  | none ↦ (
    record (set_node t.next_node (new_client sock now) t) {
      sock2node = insert sock t.next_node t.sock2node;
      next_node = suc t.next_node;
    },
    t.next_node,
  )
]

-- on_evt_ClientEncrypted, on_evt_NewClientConnected
unfoldable pub on_client_encrypted : ℕ → ℕ → Table → Table
on_client_encrypted sock now t = (node_of_socket sock now t).0

unfoldable pub on_new_client_connected : ℕ → ℕ → Table → Table
on_new_client_connected sock now t = (node_of_socket sock now t).0

-- push_new_data and pushTask of a node
unfoldable pub push_new_data : ℕ → List ℕ → ℕ → Table → Table × ℕ
push_new_data c block now t =
    let raw = (t.node c).list_raw_data ++ block ∷ [] in
    (set_node c (record (t.node c) { list_raw_data = raw; last_report = now }) t, length raw)

unfoldable pub push_node : ℕ → Table → Table
push_node c t =
    emit (push_task c) (set_node c (record (t.node c) { ref_count = (t.node c).ref_count + 1 }) t)

-- on_evt_Data_recieved
unfoldable pub on_data_recieved : ℕ → List ℕ → ℕ → Table → Table
on_data_recieved sock block now t =
    let (t1, c) = node_of_socket sock now t in
    let (t2, blocks) = push_new_data c block now t1 in if leb blocks 1 then push_node c t2 else t2

-- The end of on_evt_ClientDisconnected, over the list of nodes to be deleted: those without a
-- reference are deleted and leave the list.
unfoldable pub keep_referenced : (ℕ → ClientNode) → List ℕ → List ℕ
keep_referenced node [] = []
keep_referenced node (c ∷ cs) =
    let rest = keep_referenced node cs in if (node c).ref_count == 0 then rest else c ∷ rest

unfoldable pub deletions : (ℕ → ClientNode) → List ℕ → List Event
deletions node [] = []
deletions node (c ∷ cs) =
    let rest = deletions node cs in if (node c).ref_count == 0 then delete_later c ∷ rest else rest

unfoldable pub delete_nodes : Table → Table
delete_nodes t = record t {
  events = t.events ++ deletions t.node t.node_to_be_del;
  node_to_be_del = keep_referenced t.node t.node_to_be_del;
}

-- The id is given up only if it is this node that is entered under it.
unfoldable pub unregister_uuid : ℕ → Table → Table
unregister_uuid c t =
    if not (t.node c).uuid_recieved then t else (elim (lookup (t.node c).uuid t.uuid2node) [
      | none ↦ t
      | some d ↦
          if d == c
          then broadcast_client_uuid (t.node c).uuid false
              (record t { uuid2node = remove (t.node c).uuid t.uuid2node })
          else t
    ])

unfoldable pub give_up : ℕ → Table → Table
give_up c t = record (set_node c (record (t.node c) { term_set = true }) t) {
  node_to_be_del = t.node_to_be_del ++ c ∷ [];
}

-- on_evt_ClientDisconnected
unfoldable pub on_client_disconnected : ℕ → Table → Table
on_client_disconnected sock t = elim (lookup sock t.sock2node) [
  | none ↦ delete_nodes t
  | some c ↦
      delete_nodes
        (give_up c (unregister_uuid c (record t { sock2node = remove sock t.sock2node })))
]

-- CheckHeartBeating of a node, and KickDeadClients
unfoldable pub check_heart_beating : ℕ → ℕ → Table → Table
check_heart_beating now c t =
    if leb ((t.node c).last_report + t.heart_beating_dead_thrd) now
    then emit (close_client (t.node c).sock) (emit message t)
    else t

unfoldable pub kick_dead : ℕ → List (ℕ × ℕ) → Table → Table
kick_dead now [] t = t
kick_dead now ((sock, c) ∷ m) t = kick_dead now m (check_heart_beating now c t)

unfoldable pub kick_dead_clients : ℕ → Table → Table
kick_dead_clients now t = kick_dead now t.sock2node t

unfoldable pub keys_of : List (ℕ × ℕ) → List ℕ
keys_of [] = []
keys_of ((k, v) ∷ m) = k ∷ keys_of m

-- on_evt_NewSvrConnected
unfoldable pub on_new_svr_connected : Text → Table → Table
on_new_svr_connected svr t =
    let uuids = keys_of t.uuid2node in
    emit message (
      if is_empty uuids then t else record t {
        cluster =
            send_data_to_remote_server svr (example_msg 0x01 (length uuids * 4) (uuid_bytes uuids))
              t.cluster;
      })

-- SendToNode
unfoldable pub send_to_node : ℕ → List ℕ → Table → Table × Bool
send_to_node uuid msg t = elim (lookup uuid t.uuid2node) [
  | none ↦ (t, false)
  | some c ↦ (emit (send_data (t.node c).sock msg) t, true)
]

-- cross_svr_add_uuids
unfoldable pub add_remote : Text → List ℕ → List (ℕ × Text) → List (ℕ × Text)
add_remote svr [] m = m
add_remote svr (u ∷ us) m = add_remote svr us (insert u svr m)

unfoldable pub cross_svr_add_uuids : Text → List ℕ → Table → Table
cross_svr_add_uuids svr uuids t =
    emit message
      (record t { remote_client2svr_name = add_remote svr uuids t.remote_client2svr_name })

-- cross_svr_del_uuids: `none` for pUUIDs = NULL
unfoldable pub del_remote : List ℕ → List (ℕ × Text) → List (ℕ × Text)
del_remote [] m = m
del_remote (u ∷ us) m = del_remote us (remove u m)

unfoldable pub uuids_of_svr : Text → List (ℕ × Text) → List ℕ
uuids_of_svr svr [] = []
uuids_of_svr svr ((u, name) ∷ m) =
    let rest = uuids_of_svr svr m in if text_same name svr then u ∷ rest else rest

unfoldable pub cross_svr_del_uuids : Text → Option (List ℕ) → Table → Table
cross_svr_del_uuids svr none t = emit message (record t {
  remote_client2svr_name =
      del_remote (uuids_of_svr svr t.remote_client2svr_name) t.remote_client2svr_name;
})
cross_svr_del_uuids svr (some uuids) t =
    emit message (record t { remote_client2svr_name = del_remote uuids t.remote_client2svr_name })

-- on_evt_NewSvrDisconnected
unfoldable pub on_new_svr_disconnected : Text → Table → Table
on_new_svr_disconnected svr t = emit message (cross_svr_del_uuids svr none t)

-- cross_svr_send_data, cross_svr_find_uuid
unfoldable pub cross_svr_send_data : Text → List ℕ → Table → Table
cross_svr_send_data svr array t = record t {
  cluster = send_data_to_remote_server svr (example_msg 0x03 (length array) array) t.cluster;
}

unfoldable pub cross_svr_find_uuid : ℕ → Table → Text
cross_svr_find_uuid uuid t = elim (lookup uuid t.remote_client2svr_name) [
  | none ↦ []
  | some svr ↦ svr
]

-- NeedRedirect, with the address that it found
unfoldable pub need_redirect : Table → Option Payload
need_redirect t =
    let found = min_payload_server t.cluster in
    if ltb t.cluster.client_nums t.balance_max
    then none
    else if text_same found.server_name t.cluster.term_name
    then none
    else some found

-- st_clientNode_baseTrans::bIsValidUserId
unfoldable pub is_valid_user_id : ℕ → Bool
is_valid_user_id id = leb 2 id && leb id 0xfffffffe

-- What a heart beat, or a message's header, with the id does for a client: the first valid id stays.
unfoldable pub identify_client : ℕ → ℕ → Table → Table
identify_client c id t =
    if (t.node c).uuid_recieved
    then t
    else if is_valid_user_id id
    then (regisit_client_uuid c
        (set_node c (record (t.node c) { uuid = id; uuid_recieved = true }) t)).0
    else t
