-- ===== src/Cluster/State.antt =====
-- The state of the cluster layer: the members of zp_ClusterNode and zp_ClusterTerm (cluster/*.h),
-- the signals that they emit and the calls that they make of the network and of the task engine.
use zpserver.Common.{ℕ, Bool, false, List, [], ◌∷◌, ◌++◌, ◌==◌, if◌then◌else◌, Text}

-- What the cluster layer sends out. The texts of log messages are not kept.
pub data Event : Type 0 where
  send_data : ℕ → List ℕ → Event
  close_client : ℕ → Event
  connect_to : Text → ℕ → Event
  message : Event
  new_svr_connected new_svr_disconnected : Text → Event
  remote_data_recieved : Text → List ℕ → Event
  push_task delete_later : ℕ → Event

-- zp_ClusterNode, but for what its reader holds (Cluster/Frame). Objects are numbers; an address is
-- the text that QHostAddress::toString() gives.
pub record Node : Type 0 where
  pub sock : ℕ
  pub term_name : Text
  pub addr_lan : Text
  pub port_lan : ℕ
  pub addr_pub : Text
  pub port_pub : ℕ
  pub remote_client_nums : ℕ
  pub list_raw_data : List (List ℕ)
  pub current_read_offset : ℕ
  pub term_set : Bool
  pub last_report : ℕ
  pub ref_count : ℕ

-- zp_ClusterTerm; `node` is the memory that its pointers to nodes lead to.
pub record Term : Type 0 where
  pub term_name : Text
  pub client_nums : ℕ
  pub addr_lan : Text
  pub port_lan : ℕ
  pub addr_pub : Text
  pub port_pub : ℕ
  pub heart_beating_time : ℕ
  pub name2node : List (Text × ℕ)
  pub sock2node : List (ℕ × ℕ)
  pub node_to_be_del : List ℕ
  pub node : ℕ → Node
  pub next_node : ℕ
  pub events : List Event

-- What a node sees: itself, the term, and what a class derived from zp_ClusterNode adds.
pub record Context (U : Type 0) : Type 0 where
  pub self : ℕ
  pub term : Term
  pub extra : U

unfoldable pub emit : Event → Term → Term
emit e t = record t { events = t.events ++ e ∷ [] }

unfoldable pub emit_all : List Event → Term → Term
emit_all es t = record t { events = t.events ++ es }

-- A write through a pointer to a node.
unfoldable pub set_node : ℕ → Node → Term → Term
set_node c n t = record t { node = λ j. if c == j then n else t.node j }

-- A constructed zp_ClusterNode.
unfoldable pub new_node : ℕ → ℕ → Node
new_node sock now = record {
  sock = sock;
  term_name = [];
  addr_lan = [];
  port_lan = 0;
  addr_pub = [];
  port_pub = 0;
  remote_client_nums = 0;
  list_raw_data = [];
  current_read_offset = 0;
  term_set = false;
  last_report = now;
  ref_count = 0;
}
