-- ===== src/Smartlink/App/Examples.antt =====
-- Concrete inputs for the theorems on a client's node: its reader, its requests, its directory.
use zpserver.Common.{
  ℕ, zero, suc, ◌<◌, ◌≡◌, ◌≢◌, refl, ◌⊎◌, inl, inr, Bool, true, false, Option, none, some, List, [],
  ◌∷◌, ◌++◌, arith, ltb, ◌==◌, if◌then◌else◌, length, take, drop, word, lookup, nat_key, concat,
  replicate,
}
use zpserver.Cluster.State.{send_data}
use zpserver.Smartlink.Table.{
  Table, emit, identify_client, is_valid_user_id, on_client_disconnected, client_node_from_uuid,
}
use zpserver.Smartlink.Table.{cross_svr_find_uuid, cross_svr_send_data}
use zpserver.Smartlink.Frame.{copy}
use zpserver.Cluster.Run.{done, again}
use zpserver.Common.{is_empty}
use zpserver.Smartlink.Run.{ended, TurnEnd, run}
use zpserver.Smartlink.Run.Turn.{inbox, client_turn}
use zpserver.Smartlink.Table.Clients.{serve_all}
use zpserver.Smartlink.Examples.{example_table, example-IsValid, example_calls, connection}
use zpserver.Smartlink.Frame.{
  TransHeader, Reader, finished, read_past, read_blocks, filter_message, header_of, bytes_left,
  is_positive,
}
use zpserver.Smartlink.Frame.Total.{filter_message_ends}
use zpserver.Smartlink.Frame.Relay.{IsMessage}
use zpserver.Smartlink.Frame.Relay.Delivery.{parts}
use zpserver.Smartlink.Directory.{directory, steps}
use zpserver.Smartlink.Directory.Refinement.{serve_all_refines}
use zpserver.Smartlink.Session.{Session, AppHeader, own_node, heart_beat, reject}
use zpserver.Smartlink.Session.HeartBeat.{
  beat, IsIdentified, between, heart_beat_answered, split_heart_beat_reads_past,
}
use zpserver.Cluster.Term
use zpserver.Smartlink.Table
use zpserver.Smartlink.Session
use zpserver.Smartlink.App
use zpserver.Smartlink.App.Requests
use zpserver.Smartlink.App.Dispatch
use zpserver.Smartlink.App.{Database, UserRow, row, no_row}
use zpserver.Smartlink.App.Requests.{send_user_table, set_uuid}
use zpserver.Smartlink.App.Dispatch.{deal_current_message_block}
use zpserver.Smartlink.App.Relay.{IsForClient, receiver, sent_to, messages_relayed}
use zpserver.Smartlink.App.Remote.{IsForRemote, remote_piece_repeated}
use zpserver.Smartlink.App.Login.{IsAccount}
use zpserver.Smartlink.App.Login.Checked.{login_checked}
use zpserver.Smartlink.App.SecondId.{second_id_stale}
use zpserver.Smartlink.App.Download.{send_user_table_overrun}

-- A database with one user, 9, who has no password; its second column reads as 9.
abbrev one_user : Database ℕ
one_user = record {
  connect = λ d. (d, true);
  close = λ d. d;
  find_user = λ user password d. (suc d, if user == 9 then row (some 9) else no_row);
  friends = λ user d. (d, some (7 ∷ []));
  delete_relations = λ user d. (d, true);
  insert_relation = λ user friend d. (d, true);
}

abbrev no_header : TransHeader
no_header = record { mark = 0; source_id = 0; destin_id = 0; data_length = 0 }

abbrev no_app_header : AppHeader
no_app_header = record { msg_fmt_version = 0; ask_id = 0; msg_type = 0 }

-- The session of client 7 on connection 20, who is not logged in.
abbrev client_seven : Session ℕ
client_seven = record {
  self = 0;
  table = example_table;
  logged_in = false;
  current_app_header = no_app_header;
  matched_nodes = [];
  db = 0;
  overrun = false;
}

abbrev start : Reader (Session ℕ)
start = between no_header client_seven

-- A message of two bytes from client 7 to itself, in two blocks.
abbrev to_itself : List ℕ
to_itself = 0xAA ∷ 0x55 ∷ 7 ∷ 0 ∷ 0 ∷ 0 ∷ 7 ∷ 0 ∷ 0 ∷ 0 ∷ 2 ∷ 0 ∷ 104 ∷ 105 ∷ []

abbrev two_blocks : List (List ℕ)
two_blocks = take 13 to_itself ∷ drop 13 to_itself ∷ []

to_itself-IsMessage : IsMessage to_itself
unfolding word
to_itself-IsMessage = record {
  marked = refl;
  whole = refl;
  has_data = omega arith;
  short = omega arith;
}

to_itself-IsForClient : IsForClient example_table 7 to_itself
unfolding header_of word client_node_from_uuid lookup
to_itself-IsForClient = record { source = refl; not_server = refl; online = (0, refl) }

seven_valid : is_valid_user_id 7 ≡ true
unfolding is_valid_user_id
seven_valid = refl

messages_relayed_example :
    (r' : Reader (Session ℕ)) × (read_blocks
        (deal_current_message_block one_user)
        heart_beat
        reject
        start
        two_blocks
      ≡ finished r' [])
    × (r'.current_message_size ≡ 0)
    × (r'.current_block ≡ [])
    × ((sock : ℕ)
        → sent_to sock r'.user.table.events
          ≡ sent_to sock example_table.events
            ++ parts (receiver example_table) sock (to_itself ∷ []))
messages_relayed_example =
    messages_relayed one_user (to_itself ∷ []) two_blocks start refl seven_valid
      (to_itself-IsMessage, to_itself-IsForClient, tt) refl refl refl

serve_all_refines_example :
    directory (serve_all example_table example_calls)
    ≡ steps (directory example_table) example_calls
serve_all_refines_example = serve_all_refines example_table example_calls example-IsValid

-- The login of user 9, all of it in the block.
abbrev login_nine : List ℕ
login_nine =
    0xAA ∷ 0x55 ∷ 255 ∷ 255 ∷ 255 ∷ 255 ∷ 1 ∷ 0 ∷ 0 ∷ 0 ∷ 10 ∷ 0 ∷ 0 ∷ 0 ∷ 0 ∷ 1 ∷ 0 ∷ 9 ∷ 0 ∷ 0 ∷ 0
    ∷ 0 ∷ []

abbrev login_read : Reader (Session ℕ)
login_read = record {
  current_message_size = 22;
  current_block = login_nine;
  current_header = record {
    mark = 0x55AA;
    source_id = 0xffffffff;
    destin_id = 1;
    data_length = 10;
  };
  user = client_seven;
}

nine_logged_in : (deal_current_message_block one_user login_read).user.logged_in ≡ true
unfolding deal_current_message_block Dispatch.deal_to_server Dispatch.deal_to_server_handshakes
    Dispatch.handshake Dispatch.catch_header Dispatch.when_complete Dispatch.cleared
    Dispatch.close_failed Dispatch.reset_type Requests.login_client Requests.check_user
    Requests.login_user Requests.user_found Requests.enter_user Requests.redirected
    Requests.set_uuid App.load_relations App.take_rows App.set_db Session.reply Session.emit_event
    Session.clear_block Session.base_deal Session.say Session.close_self Session.bad_id
    Session.identify is_valid_user_id bytes_left word Table.need_redirect Table.regisit_client_uuid
    Table.set_node Table.broadcast_client_uuid emit Term.min_payload_server Table.svr_names
    Table.names_of Table.send_to_servers Term.send_data_to_remote_server lookup
    zpserver.Common.text_same zpserver.Cluster.State.emit Term.min_payload
nine_logged_in = refl

login_checked_example :
    (login_read.current_header.destin_id ≡ 1)
    × (is_positive (bytes_left login_read) ≡ false)
    × (id : ℕ) × IsAccount one_user login_read id
    × ((own_node (deal_current_message_block one_user login_read).user).uuid_recieved ≡ true)
    × ((own_node (deal_current_message_block one_user login_read).user).uuid ≡ id)
login_checked_example = login_checked one_user login_read refl nine_logged_in

filter_message_ends_example :
    ((r' : Reader (Session ℕ)) × (filter_message
          (deal_current_message_block one_user)
          heart_beat
          reject
          login_nine
          3
          start
        ≡ finished r' []))
    ⊎ (filter_message (deal_current_message_block one_user) heart_beat reject login_nine 3 start
        ≡ read_past)
filter_message_ends_example =
    filter_message_ends (deal_current_message_block one_user) heart_beat reject login_nine 3 start

abbrev beat_five : List ℕ
beat_five = beat 5 0 0 0 1 2

-- A client without an id
abbrev unnamed_table : Table
unnamed_table = record example_table {
  uuid2node = [];
  node = λ c. record (example_table.node c) { uuid = 0xffffffff; uuid_recieved = false };
}

abbrev unnamed_client : Session ℕ
unnamed_client = record client_seven { table = unnamed_table }

abbrev table_after_beat : Table
table_after_beat =
    identify_client 0 (word 4 (5 ∷ 0 ∷ 0 ∷ 0 ∷ [])) (emit (send_data 20 beat_five) unnamed_table)

heart_beat_answered_example :
    (filter_message
        (deal_current_message_block one_user)
        heart_beat
        reject
        beat_five
        0
        (between no_header unnamed_client)
      ≡ finished
          (between
            (record no_header { mark = 0xBEBE })
            (record unnamed_client { table = table_after_beat }))
          [])
    × IsIdentified 0
        (word 4 (5 ∷ 0 ∷ 0 ∷ 0 ∷ []))
        (emit (send_data 20 beat_five) unnamed_table)
        table_after_beat
    × (table_after_beat.events ≡ unnamed_table.events ++ send_data 20 beat_five ∷ [])
heart_beat_answered_example =
    heart_beat_answered (deal_current_message_block one_user) no_header unnamed_client 5 0 0 0 1 2

split_heart_beat_reads_past_example :
    filter_message
      (deal_current_message_block one_user)
      heart_beat
      reject
      (0xBE ∷ 0xBE ∷ 5 ∷ 0 ∷ [])
      0
      start
    ≡ read_past
split_heart_beat_reads_past_example =
    split_heart_beat_reads_past (deal_current_message_block one_user) no_header client_seven 5
      (0 ∷ []) (omega arith)

entry : lookup 7 example_table.uuid2node ≡ some 0
unfolding lookup
entry = refl

seven_is_not_nine : ◌≢◌ {A = ℕ} 7 9
seven_is_not_nine = omega arith

second_id_stale_example :
    (lookup 7 (on_client_disconnected 20 (set_uuid 0 9 example_table)).uuid2node ≡ some 0)
    × (((on_client_disconnected 20 (set_uuid 0 9 example_table)).node 0).term_set ≡ true)
second_id_stale_example = second_id_stale 20 0 9 example_table connection entry seven_is_not_nine

abbrev some_ids : List ℕ
some_ids = 8 ∷ 9 ∷ 10 ∷ []

send_user_table_overrun_example :
    (send_user_table some_ids 0 start).user.overrun ≡ ltb 16381 (length some_ids)
send_user_table_overrun_example = send_user_table_overrun some_ids 0 start refl

-- The first of the data of a message from client 7 to client 3, who is on the server "A".
abbrev to_remote : Reader (Session ℕ)
to_remote = record {
  current_message_size = 14;
  current_block = 0xAA ∷ 0x55 ∷ 7 ∷ 0 ∷ 0 ∷ 0 ∷ 3 ∷ 0 ∷ 0 ∷ 0 ∷ 4 ∷ 0 ∷ 104 ∷ 105 ∷ [];
  current_header = record { mark = 0x55AA; source_id = 7; destin_id = 3; data_length = 4 };
  user = client_seven;
}

to_remote-IsForRemote : IsForRemote to_remote
unfolding is_valid_user_id client_node_from_uuid cross_svr_find_uuid lookup
to_remote-IsForRemote = record {
  known = refl;
  valid = refl;
  source = refl;
  not_server = refl;
  not_here = refl;
  there = refl;
}

remote_piece_repeated_example :
    (deal_current_message_block one_user
      (copy 2 (deal_current_message_block one_user to_remote) (106 ∷ 107 ∷ [])).0).user.table
    ≡ cross_svr_send_data
        (cross_svr_find_uuid 3 example_table)
        (to_remote.current_block ++ 106 ∷ 107 ∷ [])
        (cross_svr_send_data
          (cross_svr_find_uuid 3 example_table)
          to_remote.current_block
          example_table)
remote_piece_repeated_example =
    remote_piece_repeated one_user (106 ∷ 107 ∷ []) to_remote to_remote-IsForRemote

client_turn_example :
    ((r' : Reader (Session ℕ)) × (read_blocks
          (deal_current_message_block one_user)
          heart_beat
          reject
          start
          (take 8 two_blocks)
        ≡ finished r' [])
      × (run
            (deal_current_message_block one_user)
            heart_beat
            reject
            false
            (inbox (deal_current_message_block one_user) heart_beat reject two_blocks start)
          ≡ ended
              (inbox (deal_current_message_block one_user) heart_beat reject (drop 8 two_blocks) r')
              (if is_empty (drop 8 two_blocks) then done else again)))
    ⊎ ((read_blocks
            (deal_current_message_block one_user)
            heart_beat
            reject
            start
            (take 8 two_blocks)
          ≡ read_past)
        × (run
              (deal_current_message_block one_user)
              heart_beat
              reject
              false
              (inbox (deal_current_message_block one_user) heart_beat reject two_blocks start)
            ≡ TurnEnd.past_block))
client_turn_example =
    client_turn (deal_current_message_block one_user) heart_beat reject two_blocks start
