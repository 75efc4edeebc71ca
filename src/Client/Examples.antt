-- ===== src/Client/Examples.antt =====
-- Concrete inputs for the theorems on the client program.
use zpserver.Common.{
  inl, Text, IsAscii, to_utf8, ℕ, ◌+◌, ◌*◌, ◌≤◌, ◌≡◌, ◌≢◌, refl, some, List, [], ◌∷◌, ◌++◌, arith,
  length, drop, word, min, true, false,
}
use zpserver.Smartlink.Table.{is_valid_user_id}
use zpserver.Smartlink.Frame
use zpserver.Smartlink.Frame.{TransHeader, Reader, finished, header_of}
use zpserver.Common.{text_same, if◌then◌else◌}
use zpserver.Cluster.State.{Term, new_node}
use zpserver.Smartlink.Table.{new_client}
use zpserver.Smartlink.Frame.Relay.Whole.{idle_reader}
use zpserver.Smartlink.Session
use zpserver.Smartlink.Session.{Session, own_node}
use zpserver.Smartlink.App.Dispatch
use zpserver.Client.Login.{login_enters}
use zpserver.Smartlink.App.{insert_rows, Database, row, no_row}
use zpserver.Smartlink.App.Requests.{login_user, login_password, upload_user_num, insert_ids}
use zpserver.Common.Utf8
use zpserver.Common.Utf8.RoundTrip.{ArePlain}
use zpserver.Client.Garbled.{login_password_garbled}
use zpserver.Client.Requests.{login_request, upload_request}
use zpserver.Client.Reader.{filter_message}
use zpserver.Client.Reader.Same.{filter_message_same}
use zpserver.Client.Replies.{Window, users, line, deal_current_message_block, heart_beat, reject}
use zpserver.Client.RoundTrip.{
  login_request_read, upload_request_read, download_reply, download_shown,
}

abbrev password : Text
password = 112 ∷ 119 ∷ []

password-IsAscii : IsAscii password
password-IsAscii = (omega arith, omega arith, (omega arith, omega arith, tt))

login_request_read_example :
    (login_user (login_request 9 password) ≡ 9)
    × (login_password (login_request 9 password) ≡ password)
    × (word 2 (drop 15 (login_request 9 password)) ≡ 0x0001)
    × (length (login_request 9 password) ≡ 12 + (header_of (login_request 9 password)).data_length)
    × (length (login_request 9 password) ≤ 88)
login_request_read_example =
    login_request_read 9 password (omega arith) password-IsAscii (omega arith)

-- A password of one character, U+00E9, which has two bytes in UTF-8.
abbrev accented : Text
accented = 0xE9 ∷ []

accented-ArePlain : ArePlain accented
accented-ArePlain = (
  record { short = omega arith; not_high = ground arith; not_low = ground arith },
  omega arith,
  tt,
)

accented_short : length (to_utf8 accented) ≤ 65
unfolding to_utf8 Utf8.utf8_after Utf8.unit_bytes
accented_short = ground arith

login_password_garbled_example :
    (login_password (login_request 9 accented) ≡ to_utf8 accented)
    × (login_password (login_request 9 accented) ≢ accented)
login_password_garbled_example =
    login_password_garbled 9 accented accented-ArePlain (inl (omega arith)) accented_short

abbrev friends : List ℕ
friends = 7 ∷ 8 ∷ []

valid_7 : is_valid_user_id 7 ≡ true
unfolding is_valid_user_id
valid_7 = refl

valid_8 : is_valid_user_id 8 ≡ true
unfolding is_valid_user_id
valid_8 = refl

upload_request_read_example :
    (upload_user_num (upload_request 9 friends) ≡ length friends)
    × (length (upload_request 9 friends) ≡ 19 + 4 * length friends)
    × (length (upload_request 9 friends) ≡ 12 + (header_of (upload_request 9 friends)).data_length)
    × (word 2 (drop 15 (upload_request 9 friends)) ≡ 0x1003)
    × (insert_ids
          (min (upload_user_num (upload_request 9 friends)) 4096)
          (drop 19 (upload_request 9 friends))
          []
        ≡ insert_rows friends [])
upload_request_read_example =
    upload_request_read 9 friends [] (valid_7, (valid_8, tt)) (omega arith)

abbrev some_header : TransHeader
some_header = record { mark = 0x55AA; source_id = 9; destin_id = 1; data_length = 5 }

-- The client has all of a reply.
abbrev reply_read : Reader Window
reply_read = record {
  current_message_size = length (download_reply some_header friends);
  current_block = download_reply some_header friends;
  current_header = header_of (download_reply some_header friends);
  user = record { loged_in = true; shown = [] };
}

download_shown_example :
    (deal_current_message_block reply_read).user.shown ≡ [] ++ users friends ∷ line ∷ []
download_shown_example =
    download_shown some_header friends reply_read (omega arith, (omega arith, tt)) (omega arith)
      refl refl refl

-- A block with the first five bytes of a message.
abbrev five_bytes : List ℕ
five_bytes = 0xAA ∷ 0x55 ∷ 7 ∷ 0 ∷ 0 ∷ []

abbrev waiting_client : Reader Window
waiting_client = record {
  current_message_size = 0;
  current_block = [];
  current_header = some_header;
  user = record { loged_in = false; shown = [] };
}

abbrev after_five : Reader Window
after_five = record waiting_client { current_message_size = 5; current_block = five_bytes }

server_reads :
    Frame.filter_message deal_current_message_block heart_beat reject five_bytes 0 waiting_client
    ≡ finished after_five []
unfolding Frame.filter_message Frame.rounds Frame.loop Frame.round Frame.after_mark
    Frame.receive_mark Frame.load_mark Frame.dispatch Frame.trans_message Frame.fill_header
    Frame.copy word
server_reads = refl

filter_message_same_example :
    filter_message deal_current_message_block heart_beat reject five_bytes 0 waiting_client
    ≡ some (after_five, [])
filter_message_same_example =
    filter_message_same deal_current_message_block heart_beat reject five_bytes 0 waiting_client
      after_five [] server_reads

-- A database in which user 9 has the password above; the second column of the row reads as 9.
abbrev nine_only : Database ℕ
nine_only = record {
  connect = λ d. (d, true);
  close = λ d. d;
  find_user = λ user pass d. (d, if text_same pass password then row (some user) else no_row);
  friends = λ user d. (d, some []);
  delete_relations = λ user d. (d, true);
  insert_relation = λ user friend d. (d, true);
}

-- A server without other servers, and a client on connection 20 of which nothing is known.
abbrev lone_server : Term
lone_server = record {
  term_name = 67 ∷ [];
  client_nums = 1;
  addr_lan = [];
  port_lan = 23457;
  addr_pub = [];
  port_pub = 23456;
  heart_beating_time = 180;
  name2node = [];
  sock2node = [];
  node_to_be_del = [];
  node = λ c. new_node c 0;
  next_node = 0;
  events = [];
}

abbrev newcomer : Session ℕ
newcomer = record {
  self = 0;
  table = record {
    uuid2node = [];
    sock2node = (20, 0) ∷ [];
    node_to_be_del = [];
    node = λ c. new_client 20 0;
    next_node = 1;
    remote_client2svr_name = [];
    heart_beating_dead_thrd = 180;
    balance_max = 5;
    cluster = lone_server;
    events = [];
  };
  logged_in = false;
  current_app_header = record { msg_fmt_version = 0; ask_id = 0; msg_type = 0 };
  matched_nodes = [];
  db = 0;
  overrun = false;
}

password_found : (nine_only.find_user 9 password 0).1 ≡ row (some 9)
unfolding text_same
password_found = refl

valid_9 : is_valid_user_id 9 ≡ true
unfolding is_valid_user_id
valid_9 = refl

login_enters_example :
    (r' : Reader (Session ℕ)) × (Frame.filter_message
        (Dispatch.deal_current_message_block nine_only)
        Session.heart_beat
        Session.reject
        (login_request 9 password)
        0
        (idle_reader some_header newcomer)
      ≡ finished r' [])
    × (r'.current_message_size ≡ 0)
    × (r'.current_block ≡ [])
    × (r'.user.logged_in ≡ true)
    × ((own_node r'.user).uuid_recieved ≡ true)
    × ((own_node r'.user).uuid ≡ 9)
login_enters_example =
    login_enters nine_only 9 9 password some_header newcomer (omega arith) password-IsAscii
      (omega arith) refl refl refl password_found valid_9
