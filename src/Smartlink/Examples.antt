-- ===== src/Smartlink/Examples.antt =====
-- Concrete inputs for the theorems on the tables of clients.
use zpserver.Common.{
  inl, Bool, ℕ, ◌≤◌, ◌<◌, ◌≡◌, refl, ◌⊎◌, true, false, none, some, List, [], ◌∷◌, ◌++◌, length,
  word, drop, ◌==◌, arith, if◌then◌else◌, nat_key, lookup, text_same,
}
use zpserver.Cluster.State.{Node, Term}
use zpserver.Cluster.Term.{Payload, min_payload_server}
use zpserver.Cluster.Term.Balance.{IsRegistered}
use zpserver.Smartlink.Table.{
  Table, cross_svr_find_uuid, cross_svr_add_uuids, cross_svr_del_uuids, on_new_svr_disconnected,
  need_redirect,
}
use zpserver.Smartlink.Table.{send_to_node}
use zpserver.Smartlink.Cross.{CrossNode, MsgHeader, no_uuid, deal_user_data}
use zpserver.Smartlink.Cross.Total.{IsOpen, deal_user_data_total}
use zpserver.Smartlink.Cross.Pieces.{data_header, loaded, between, piece_ends_message}
use zpserver.Smartlink.Table.Clients.{
  IsValid, Call, opened, data_recieved, identified, disconnected, timer, serve_all, clients-IsValid,
}
use zpserver.Smartlink.Table.Remote.{
  member, IsSorted, cross_svr_ids, lost_svr_forgotten, need_redirect_lem,
}

abbrev example_node : ℕ → Node
example_node c = record {
  sock = 90;
  term_name = 65 ∷ [];
  addr_lan = [];
  port_lan = 1;
  addr_pub = [];
  port_pub = 2;
  remote_client_nums = 3;
  list_raw_data = [];
  current_read_offset = 0;
  term_set = false;
  last_report = 0;
  ref_count = 0;
}

abbrev example_term : Term
example_term = record {
  term_name = 67 ∷ [];
  client_nums = 9;
  addr_lan = [];
  port_lan = 23457;
  addr_pub = [];
  port_pub = 23456;
  heart_beating_time = 180;
  name2node = (65 ∷ [], 0) ∷ [];
  sock2node = (90, 0) ∷ [];
  node_to_be_del = [];
  node = example_node;
  next_node = 1;
  events = [];
}

-- Client 7 on connection 20, and two clients of the servers "A" and "B".
abbrev pub example_table : Table
example_table = record {
  uuid2node = (7, 0) ∷ [];
  sock2node = (20, 0) ∷ [];
  node_to_be_del = [];
  node = λ c. record {
    sock = 20;
    uuid = 7;
    uuid_recieved = true;
    list_raw_data = [];
    term_set = false;
    last_report = 0;
    ref_count = 0;
  };
  next_node = 1;
  remote_client2svr_name = (3, 65 ∷ []) ∷ (4, 66 ∷ []) ∷ [];
  heart_beating_dead_thrd = 180;
  balance_max = 5;
  cluster = example_term;
  events = [];
}

example_entry : (k i c : ℕ) → lookup k ((i, 0) ∷ []) ≡ some c → (i ≡ k) × (c ≡ 0)
unfolding lookup
example_entry k i c h = ground arith

pub connection : lookup 20 example_table.sock2node ≡ some 0
unfolding lookup
connection = refl

pub example-IsValid : IsValid example_table
example-IsValid = record {
  has_socket = λ s c h. (example_entry s 20 c h).0;
  not_given_up = λ s c h. refl;
  made = λ s c h. omega (arith, (example_entry s 20 c h).1);
  has_uuid = λ u c h. ((example_entry u 7 c h).0, refl);
  connected = λ u c h. ground (arith, connection, (example_entry u 7 c h).1);
}

abbrev pub example_calls : List Call
example_calls =
    opened 21 1
    ∷ identified 21 7
    ∷ data_recieved 22 (1 ∷ 2 ∷ []) 2
    ∷ disconnected 20
    ∷ timer 400
    ∷ []

clients-IsValid_example : IsValid (serve_all example_table example_calls)
clients-IsValid_example = clients-IsValid example_table example_calls example-IsValid

cross_svr_ids_example :
    (cross_svr_find_uuid 3 (cross_svr_add_uuids (66 ∷ []) (3 ∷ 5 ∷ []) example_table)
      ≡ (if member 3 (3 ∷ 5 ∷ []) then 66 ∷ [] else cross_svr_find_uuid 3 example_table))
    × (cross_svr_find_uuid 3 (cross_svr_del_uuids (66 ∷ []) (some (3 ∷ 5 ∷ [])) example_table)
        ≡ (if member 3 (3 ∷ 5 ∷ []) then [] else cross_svr_find_uuid 3 example_table))
cross_svr_ids_example = cross_svr_ids (66 ∷ []) (3 ∷ 5 ∷ []) 3 example_table

remote-IsSorted : IsSorted example_table.remote_client2svr_name
remote-IsSorted = ((omega arith, tt), (tt, tt))

lost_svr_forgotten_example :
    (lookup 4 (on_new_svr_disconnected (65 ∷ []) example_table).remote_client2svr_name
      ≡ (elim (lookup 4 example_table.remote_client2svr_name) [
        | none ↦ none
        | some name ↦ if text_same name (65 ∷ []) then none else some name
      ]))
    × IsSorted (on_new_svr_disconnected (65 ∷ []) example_table).remote_client2svr_name
lost_svr_forgotten_example = lost_svr_forgotten (65 ∷ []) 4 example_table remote-IsSorted

need_redirect_lem_example :
    ((p : Payload) × (c : ℕ) × (need_redirect example_table ≡ some p)
      × (5 ≤ 9)
      × IsRegistered example_term.name2node c
      × (p.server_name ≡ (example_node c).term_name)
      × (p.port ≡ (example_node c).port_pub)
      × ((example_node c).remote_client_nums < 9))
    ⊎ ((need_redirect example_table ≡ none)
        × ((9 < 5) ⊎ ((min_payload_server example_term).server_name ≡ 67 ∷ [])))
need_redirect_lem_example = need_redirect_lem example_table

-- The inner header of a message of 40 bytes to client 7: 12 of its bytes have come.
abbrev first_piece : List ℕ
first_piece = 0xaa ∷ 0x55 ∷ 8 ∷ 0 ∷ 0 ∷ 0 ∷ 7 ∷ 0 ∷ 0 ∷ 0 ∷ 28 ∷ 0 ∷ []

abbrev some_header : MsgHeader
some_header = record { mark = 0; version = 0; mesage_type = 0; message_len = 0 }

more_to_come : length first_piece < word 4 (40 ∷ 0 ∷ 0 ∷ 0 ∷ [])
unfolding word
more_to_come = omega arith

to_client : (word 4 (drop 6 first_piece) == no_uuid) ≡ false
unfolding word
to_client = refl

piece_ends_message_example :
    deal_user_data 5
      (65 ∷ [])
      (between some_header example_table)
      (data_header 40 0 0 0 ++ first_piece)
    ≡ some (
      between
          (loaded some_header 40 0 0 0)
          (send_to_node (word 4 (drop 6 first_piece)) first_piece example_table).0,
      true,
    )
piece_ends_message_example =
    piece_ends_message (65 ∷ []) some_header first_piece 40 0 0 0 3 example_table (omega arith)
      more_to_come to_client

deal_user_data_total_example :
    (s' : CrossNode) × (done : Bool) × (deal_user_data 25
        (65 ∷ [])
        (between some_header example_table)
        first_piece
      ≡ some (s', done))
    × IsOpen s'
deal_user_data_total_example =
    deal_user_data_total 25 (65 ∷ []) (between some_header example_table) first_piece
      (inl (omega arith)) (omega arith)
