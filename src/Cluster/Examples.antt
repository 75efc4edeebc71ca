-- ===== src/Cluster/Examples.antt =====
-- Concrete inputs for the theorems on the cluster layer.
use zpserver.Common.{
  ℕ, ◌+◌, ◌<◌, ◌≡◌, ◌≢◌, refl, ◌⊎◌, true, false, none, some, List, [], ◌∷◌, arith, concat, map,
  ◌==◌, if◌then◌else◌, is_empty, take, drop, word, bytes, Text, text_key, nat_key, text_same,
  lookup,
}
use zpserver.Common.{to_utf8}
use zpserver.Common.Utf8
use zpserver.Cluster.State.{Node, Term, Context, new_node}
use zpserver.Cluster.Wire.{ServerInfo}
use zpserver.Cluster.Frame.{Reader, start_new, load_mark, filter_message}
use zpserver.Cluster.Frame.Total.{filter_message_total}
use zpserver.Cluster.Frame.Stream.{read_all, read_byte, settle, finish_pending, is_pending, push}
use zpserver.Cluster.Frame.Stream.Sane.{fresh-IsSane}
use zpserver.Cluster.Frame.Stream.Fragments.{feed}
use zpserver.Cluster.Frame.Stream.Messages.{Message, encode}
use zpserver.Cluster.Frame.Stream.Delivery.{AllWhole, deliver_all}
use zpserver.Cluster.Node.{deal_user_data_base, deal_current_message_block, reject_client}
use zpserver.Cluster.Node.Control.{is_control, control_messages, control_cuts}
use zpserver.Cluster.Run.{run, done, again, message_block_size}
use zpserver.Cluster.Run.Turn.{inbox, run_turn}
use zpserver.Cluster.Term.{regisit_new_server, min_payload_server}
use zpserver.Cluster.Term.Registry.{regisit_new_server_lem, entry_after}
use zpserver.Cluster.Term.Balance.{min_payload_server_least, IsRegistered, AllAtLeast}
use zpserver.Cluster.Sessions.{on_client_disconnected}
use zpserver.Cluster.Sessions.Stale.{stale_name}
use zpserver.Cluster.Node.{basic_info}
use zpserver.Cluster.Sessions.Invariant.{
  IsValid, connected, data_recieved, disconnected, timer, serve_all, serve_all-IsValid,
}

abbrev same_address : Text → Text
same_address s = s

-- The server "C", of whom "A" (at node 0) and an unnamed server (at node 1) are connected.
abbrev example_node : ℕ → Node
example_node c = record (new_node (10 + c) 0) {
  term_name = if c == 0 then 65 ∷ [] else if c == 1 then 66 ∷ [] else [];
  remote_client_nums = 3 + c;
}

abbrev example_term : Term
example_term = record {
  term_name = 67 ∷ [];
  client_nums = 9;
  addr_lan = [];
  port_lan = 23457;
  addr_pub = [];
  port_pub = 23456;
  heart_beating_time = 180;
  name2node = (65 ∷ [], 0) ∷ [];
  sock2node = (10, 0) ∷ (11, 1) ∷ [];
  node_to_be_del = [];
  node = example_node;
  next_node = 2;
  events = [];
}

abbrev example_reader : Reader (Context (Unit {0}))
example_reader = record {
  current_message_size = 0;
  current_block = [];
  current_header = record { mark = 0; messagetype = 0; data_length = 0 };
  user = record { self = 1; term = example_term; extra = tt };
}

abbrev heart_beat : Message
heart_beat = record { messagetype = 0; content = 7 ∷ 0 ∷ 0 ∷ 0 ∷ [] }

abbrev heart_beat_bytes : List ℕ
heart_beat_bytes = 0x34 ∷ 0x12 ∷ 0 ∷ 4 ∷ 0 ∷ 0 ∷ 0 ∷ 7 ∷ 0 ∷ 0 ∷ 0 ∷ []

abbrev example_deal : Reader (Context (Unit {0})) → Reader (Context (Unit {0}))
example_deal = deal_current_message_block same_address deal_user_data_base

-- The message, in three blocks.
abbrev three_blocks : List (List ℕ)
three_blocks = (0x34 ∷ []) ∷ (0x12 ∷ 0 ∷ 4 ∷ 0 ∷ 0 ∷ 0 ∷ 7 ∷ []) ∷ (0 ∷ 0 ∷ 0 ∷ []) ∷ []

heart_beat-AllWhole : AllWhole is_control (heart_beat ∷ [])
heart_beat-AllWhole = (record { kind = refl; nonempty = omega arith; short = omega arith }, tt)

three_blocks_whole : concat three_blocks ≡ concat (map encode (heart_beat ∷ []))
unfolding encode bytes
three_blocks_whole = refl

control_messages_example :
    feed example_deal reject_client (start_new example_reader) three_blocks
    ≡ some (deliver_all example_deal (start_new example_reader) (heart_beat ∷ []))
control_messages_example =
    control_messages same_address deal_user_data_base (heart_beat ∷ []) three_blocks example_reader
      heart_beat-AllWhole three_blocks_whole

-- In the middle of the header the reader has not dealt anything.
abbrev two_bytes : Reader (Context (Unit {0}))
two_bytes = record example_reader {
  current_message_size = 2;
  current_block = 0x34 ∷ 0x12 ∷ [];
  current_header = record { mark = 0x1234; messagetype = 0; data_length = 0 };
}

two_bytes_read :
    read_all example_deal is_control (start_new example_reader) (concat ((0x34 ∷ 0x12 ∷ []) ∷ []))
    ≡ some two_bytes
unfolding read_all read_byte settle finish_pending is_pending push start_new word load_mark
two_bytes_read = refl

control_cuts_example :
    feed example_deal reject_client (start_new example_reader) ((0x34 ∷ 0x12 ∷ []) ∷ [])
    ≡ feed example_deal reject_client
        (start_new example_reader)
        ((0x34 ∷ []) ∷ [] ∷ (0x12 ∷ []) ∷ [])
control_cuts_example =
    control_cuts same_address deal_user_data_base ((0x34 ∷ 0x12 ∷ []) ∷ [])
      ((0x34 ∷ []) ∷ [] ∷ (0x12 ∷ []) ∷ []) (start_new example_reader) two_bytes refl
      (fresh-IsSane is_control example_reader) two_bytes_read

filter_message_total_example :
    (r' : Reader (Context (Unit {0}))) × (filter_message example_deal reject_client heart_beat_bytes
        0 example_reader
      ≡ some (r', 11))
filter_message_total_example =
    filter_message_total example_deal reject_client heart_beat_bytes 0 example_reader

run_turn_example :
    (r' : Reader (Context (Unit {0}))) × (feed example_deal reject_client example_reader
        (take message_block_size three_blocks)
      ≡ some r')
    × (run example_deal reject_client false
          (inbox example_deal reject_client three_blocks example_reader)
        ≡ some (
          inbox example_deal reject_client (drop message_block_size three_blocks) r',
          if is_empty (drop message_block_size three_blocks) then done else again,
        ))
run_turn_example = run_turn example_deal reject_client three_blocks example_reader

abbrev info_a : ServerInfo
info_a = record {
  name = 65 ∷ [];
  addr_lan = 49 ∷ 46 ∷ [];
  port_lan = 80;
  addr_pub = 50 ∷ [];
  port_pub = 65535;
}

-- With a name of a character that has three bytes in UTF-8.
abbrev info_c : ServerInfo
info_c = record info_a { name = 0x4E2D ∷ [] }

abbrev name_a : Text
name_a = 65 ∷ []

-- The name "A" is taken.
regisit_new_server_lem_example :
    (((regisit_new_server 0 example_term).1 ≡ true)
      × (name_a ≢ [])
      × (lookup name_a example_term.name2node ≡ none)
      × (entry_after 0 example_term name_a
          ≡ (if text_same name_a name_a then some 0 else lookup name_a example_term.name2node)))
    ⊎ (((regisit_new_server 0 example_term).1 ≡ false)
        × ((name_a ≡ []) ⊎ ((d : ℕ) × (lookup name_a example_term.name2node ≡ some d)))
        × (entry_after 0 example_term name_a ≡ lookup name_a example_term.name2node))
regisit_new_server_lem_example = regisit_new_server_lem 0 example_term name_a

min_payload_server_least_example :
    ((min_payload_server example_term ≡ record {
      server_name = 67 ∷ [];
      address = take 64 (to_utf8 example_term.addr_pub);
      port = 23456;
    })
      × AllAtLeast example_node example_term.name2node 9)
    ⊎ ((c : ℕ) × IsRegistered example_term.name2node c
        × ((min_payload_server example_term).server_name ≡ (example_node c).term_name)
        × ((min_payload_server example_term).address ≡ take 64 (to_utf8 (example_node c).addr_pub))
        × ((min_payload_server example_term).port ≡ (example_node c).port_pub)
        × ((example_node c).remote_client_nums < 9)
        × AllAtLeast example_node example_term.name2node (example_node c).remote_client_nums)
min_payload_server_least_example = min_payload_server_least example_term

-- The two connections of the example.
example_entries :
    (sock c : ℕ) → lookup sock example_term.sock2node ≡ some c → (sock ≡ 10 + c) × (c < 2)
unfolding lookup
example_entries sock c h = ground arith

example-IsValid : IsValid example_term
unfolding new_node
example-IsValid = record {
  has_socket = λ sock c h. omega (arith, (example_entries sock c h).0);
  not_given_up = λ sock c h. refl;
  made = λ sock c h. (example_entries sock c h).1;
}

serve_all-IsValid_example : IsValid (
    serve_all example_term
      (connected 12 1 ∷ data_recieved 13 heart_beat_bytes 2 ∷ disconnected 10 ∷ timer 400 ∷ []))
serve_all-IsValid_example =
    serve_all-IsValid example_term
      (connected 12 1 ∷ data_recieved 13 heart_beat_bytes 2 ∷ disconnected 10 ∷ timer 400 ∷ [])
      example-IsValid

socket_of_a : lookup 10 example_term.sock2node ≡ some 0
unfolding lookup
socket_of_a = refl

entry_of_a : lookup info_a.name example_term.name2node ≡ some 0
unfolding lookup text_same
entry_of_a = refl

not_own_name : text_same info_a.name example_term.term_name ≡ false
unfolding text_same
not_own_name = refl

stale_name_example :
    let u = on_client_disconnected 10 (basic_info same_address info_a 0 example_term) in
    (lookup info_a.name u.name2node ≡ some 0)
    × ((u.node 0).term_set ≡ true)
    × (lookup 10 u.sock2node ≡ none)
stale_name_example =
    stale_name same_address info_a 10 0 example_term socket_of_a (λ e. cc) not_own_name entry_of_a
