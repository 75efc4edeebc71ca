-- ===== src/Cluster/Term.antt =====
-- cluster/zp_clusterterm.cpp: the registry of the remote servers and what is sent to them.
pub mod Balance
pub mod Registry
use zpserver.Common.{
  ℕ, zero, suc, ◌+◌, ◌*◌, ◌≡◌, Bool, true, false, ◌&&◌, Option, none, some, List, [], ◌∷◌, ◌++◌,
  map, ltb, leb, ◌==◌, if◌then◌else◌, length, is_empty, bytes, take, to_utf8, Text, text_key,
  nat_key, text_same, lookup, insert, remove, contains,
}
use zpserver.Cluster.State.{
  Event, send_data, close_client, message, new_svr_disconnected, push_task, delete_later, Node,
  Term, emit, emit_all, set_node, new_node,
}
use zpserver.Cluster.Wire.{ServerInfo, write_info, cross_svr_msg}

-- regisitNewServer
unfoldable pub regisit_new_server : ℕ → Term → Term × Bool
regisit_new_server c t =
    if length (t.node c).term_name == 0
    then (emit message t, false)
    else if contains (t.node c).term_name t.name2node
    then (t, false)
    else (record t { name2node = insert (t.node c).term_name c t.name2node }, true)

-- SvrNodeFromName, SvrNodeFromSocket
unfoldable pub svr_node_from_name : Text → Term → Option ℕ
svr_node_from_name name t = lookup name t.name2node

unfoldable pub svr_node_from_socket : ℕ → Term → Option ℕ
svr_node_from_socket sock t = lookup sock t.sock2node

unfoldable pub info_of_node : Node → ServerInfo
info_of_node n = record {
  name = n.term_name;
  addr_lan = n.addr_lan;
  port_lan = n.port_lan;
  addr_pub = n.addr_pub;
  port_pub = n.port_pub;
}

unfoldable pub info_of_term : Term → ServerInfo
info_of_term t = record {
  name = t.term_name;
  addr_lan = t.addr_lan;
  port_lan = t.port_lan;
  addr_pub = t.addr_pub;
  port_pub = t.port_pub;
}

-- A record for each registered server, in the order of the names.
unfoldable pub write_infos : (ℕ → Node) → List (Text × ℕ) → List ℕ
write_infos node [] = []
write_infos node ((name, c) ∷ m) = write_info (info_of_node (node c)) ++ write_infos node m

-- netEng()->SendDataToClient for every registered server
unfoldable pub send_to_all : (ℕ → Node) → List (Text × ℕ) → List ℕ → List Event
send_to_all node [] array = []
send_to_all node ((name, c) ∷ m) array = send_data (node c).sock array ∷ send_to_all node m array

-- BroadcastServers
unfoldable pub broadcast_servers : Term → Term
broadcast_servers t =
    if length t.term_name == 0
    then t
    else emit_all
        (send_to_all t.node t.name2node
          (cross_svr_msg 0x02 (write_infos t.node t.name2node ++ write_info (info_of_term t))))
        t

-- SendHeartBeatings
unfoldable pub send_heart_beatings : Term → Term
send_heart_beatings t =
    emit_all (send_to_all t.node t.name2node (cross_svr_msg 0x00 (bytes 4 t.client_nums))) t

-- SendDataToRemoteServer
unfoldable pub send_data_to_remote_server : Text → List ℕ → Term → Term
send_data_to_remote_server name array t = elim (lookup name t.name2node) [
  | none ↦ t
  | some c ↦ emit (send_data (t.node c).sock (cross_svr_msg 0x03 array)) t
]

-- The loop of minPayloadServer over the registered servers: least number of clients, and its node.
unfoldable pub min_payload : (ℕ → Node) → List (Text × ℕ) → ℕ → Option ℕ → Option ℕ
min_payload node [] least found = found
min_payload node ((name, c) ∷ m) least found =
    let clients = (node c).remote_client_nums in
    let next = min_payload node m clients (some c) in
    let same = min_payload node m least found in if ltb clients least then next else same

-- What minPayloadServer returns: the name, the 64 bytes of the address and the port.
pub record Payload : Type 0 where
  pub server_name : Text
  pub address : List ℕ
  pub port : ℕ

unfoldable pub min_payload_server : Term → Payload
min_payload_server t = elim (min_payload t.node t.name2node t.client_nums none) [
  | none ↦ record {
    server_name = t.term_name;
    address = take 64 (to_utf8 t.addr_pub);
    port = t.port_pub;
  }
  | some c ↦ record {
    server_name = (t.node c).term_name;
    address = take 64 (to_utf8 (t.node c).addr_pub);
    port = (t.node c).port_pub;
  }
]
