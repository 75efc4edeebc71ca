-- ===== src/Smartlink/App/Requests.antt =====
-- smartlink/st_clientnode_app_imp.cpp and smartlink/st_msg_applayer.h: what the server does with the
-- four requests of a client, and its replies byte by byte. Bytes that the code reads from past the
-- end of a request are zeros here.
use zpserver.Common.{
  ℕ, zero, suc, ◌+◌, ◌-◌, ◌*◌, ◌%◌, ◌^◌, min, Bool, true, false, not, none, some, List, [], ◌∷◌,
  ◌++◌, ltb, ◌==◌, if◌then◌else◌, length, take, drop, replicate, word, bytes, Text,
}
use zpserver.Cluster.Term.{min_payload_server}
use zpserver.Smartlink.Table.{Table, set_node, regisit_client_uuid, need_redirect, is_valid_user_id}
use zpserver.Smartlink.Frame.{Reader, TransHeader}
use zpserver.Smartlink.Session.{Session, reply, say}
use zpserver.Smartlink.App.{
  UserRow, query_failed, no_row, row, Database, set_insert, set_db, load_relations, save_relations,
}

-- EXAMPLE_TRANS_MSG of a reply, to the sender of the message with the header: `size` is the
-- data_length, and what follows is the application's header and the reply.
unfoldable pub reply_msg : TransHeader → ℕ → ℕ → List ℕ → List ℕ
reply_msg h size kind body =
    bytes 2 0x55AA
    ++ (bytes 4 h.destin_id
        ++ (bytes 4 h.source_id ++ (bytes 2 size ++ (bytes 2 0 ++ (0 ∷ (bytes 2 kind ++ body))))))

-- QString += char, until a zero, and `n` times at most: each byte becomes the character of Latin-1
-- that has its number, whatever the bytes stand for in UTF-8.
unfoldable pub password_of : ℕ → List ℕ → Text
password_of zero cs = []
password_of (suc n) [] = []
password_of (suc n) (c ∷ cs) = let rest = password_of n cs in if c == 0 then [] else c ∷ rest

-- EXAMPLE_TRANS_MSG and tag_app_layer_header, at the front of a request
abbrev pub front_size : ℕ
front_size = 17

-- stMsg_ClientLoginReq: user_id, and Passwd up to the request's end, 65 characters at most
unfoldable pub login_user : List ℕ → ℕ
login_user block = word 4 (drop front_size block)

unfoldable pub login_password : List ℕ → Text
login_password block = password_of 65 (drop (front_size + 4) block)

-- stMsg_ClientLoginRsp
pub record LoginRsp : Type 0 where
  pub done_code : ℕ
  pub user_id : ℕ
  pub address_redirect : List ℕ
  pub port_redirect : ℕ

unfoldable pub login_rsp : LoginRsp → List ℕ
login_rsp p =
    p.done_code
    ∷ (bytes 4 p.user_id
        ++ (p.address_redirect
            ++ (replicate (64 - length p.address_redirect) 0 ++ bytes 2 p.port_redirect)))

-- The reply of a login that fails.
abbrev pub failed_login : LoginRsp
failed_login = record { done_code = 3; user_id = 0; address_redirect = []; port_redirect = 0 }

-- What NeedRedirect writes and returns
unfoldable pub redirected : Table → LoginRsp → LoginRsp
redirected t p =
    let server = min_payload_server t.cluster in
    let code : ℕ = elim (need_redirect t) [ none ↦ p.done_code | some found ↦ 1 ] in
    if ltb t.cluster.client_nums t.balance_max then p else record p {
      done_code = code;
      address_redirect = server.address;
      port_redirect = server.port;
    }

-- m_bUUIDRecieved = true; m_uuid = id; regisitClientUUID(this)
unfoldable pub set_uuid : ℕ → ℕ → Table → Table
set_uuid c id t =
    (regisit_client_uuid c (set_node c (record (t.node c) { uuid = id; uuid_recieved = true }) t)).0

module _ {D : Type 0} (database : Database D) where
  -- A user whose id is `id`: logged in, with the relations, or sent to another server.
  unfoldable pub enter_user : ℕ → Reader (Session D) → Reader (Session D) × LoginRsp
  enter_user id r =
      let t = set_uuid r.user.self id r.user.table in
      let (r1, loaded) =
        load_relations database
          (record r { user = record r.user { table = t; logged_in = true } }) in
      (
        r1,
        redirected r1.user.table (record {
          done_code = if loaded then 0 else 3;
          user_id = id;
          address_redirect = [];
          port_redirect = 0;
        }),
      )

  -- What the query for the user leads to.
  unfoldable pub user_found : UserRow → Reader (Session D) → Reader (Session D) × LoginRsp
  user_found query_failed r = (set_db (database.close r.user.db) (say r), failed_login)
  user_found no_row r = (r, failed_login)
  user_found (row none) r = (r, failed_login)
  user_found (row (some id)) r = if is_valid_user_id id then enter_user id r else (r, failed_login)

  unfoldable pub check_user : Reader (Session D) → Reader (Session D) × LoginRsp
  check_user r =
      let (d, usable) = database.connect r.user.db in
      let (d1, found) =
        database.find_user (login_user r.current_block) (login_password r.current_block) d in
      if usable then user_found found (set_db d1 r) else (set_db d r, failed_login)

  -- LoginClient
  unfoldable pub login_client : Reader (Session D) → Reader (Session D) × Bool
  login_client r =
      let (r1, p) = check_user r in
      (reply (reply_msg r.current_header 76 0x7FFE (login_rsp p)) r1, not (p.done_code == 3))

-- The ids that follow each other from a pointer on; those that are not valid are left out, and 4096
-- are read at most.
unfoldable pub insert_ids : ℕ → List ℕ → List ℕ → List ℕ
insert_ids zero bs ids = ids
insert_ids (suc n) bs ids =
    let id = word 4 bs in
    insert_ids n (drop 4 bs) (if is_valid_user_id id then set_insert id ids else ids)

-- UserNum of stMsg_UploadUserListReq
unfoldable pub upload_user_num : List ℕ → ℕ
upload_user_num block = word 2 (drop front_size block)

-- The ids of a list, four bytes each
unfoldable pub id_bytes : List ℕ → List ℕ
id_bytes [] = []
id_bytes (u ∷ us) = bytes 4 u ++ id_bytes us

-- stMsg_DownloadUserListRsp: of the ids, at most 32768 are written.
unfoldable pub download_rsp : ℕ → List ℕ → List ℕ
download_rsp code ids =
    let written = take 32768 ids in code ∷ (bytes 2 (length written) ++ id_bytes written)

module _ {D : Type 0} where
  -- The reply of Box2Svr_DownloadUserTable to the ids that were loaded. Its length is kept in 16
  -- bits, and what is written past the array's end is not in it.
  unfoldable pub send_user_table : List ℕ → ℕ → Reader (Session D) → Reader (Session D)
  send_user_table ids code r =
      let size = (8 + 4 * length ids) % 2 ^ 16 in
      let body = download_rsp code ids in
      let array = take (12 + size) (reply_msg r.current_header size 0x7FFB body) in
      reply array (record r {
        user = record r.user {
          overrun = if ltb (12 + size) (17 + length body) then true else r.user.overrun;
        };
      })

module _ {D : Type 0} (database : Database D) where
  -- The ids of the request are added to the relations, and these are saved.
  unfoldable pub add_relations : Reader (Session D) → Reader (Session D) × Bool
  add_relations r =
      let (r1, loaded) = load_relations database r in
      let ids =
        insert_ids (min (upload_user_num r.current_block) 4096)
          (drop (front_size + 2) r.current_block) r1.user.matched_nodes in
      if loaded
      then save_relations database (record r1 { user = record r1.user { matched_nodes = ids } })
      else (r1, false)

  -- Box2Svr_UploadUserTable
  unfoldable pub upload_user_table : Reader (Session D) → Reader (Session D) × Bool
  upload_user_table r =
      let (r1, done) = add_relations r in
      if not (r.current_message_size == front_size + 2 + 4 * upload_user_num r.current_block)
      then (say r, false)
      else (reply (reply_msg r.current_header 6 0x7FFC ((if done then 0 else 1) ∷ [])) r1, done)

  -- Box2Svr_DownloadUserTable
  unfoldable pub download_user_table : Reader (Session D) → Reader (Session D) × Bool
  download_user_table r =
      let (r1, loaded) = load_relations database r in
      (
        if loaded then send_user_table r1.user.matched_nodes 0 r1 else send_user_table [] 1 r1,
        loaded,
      )

module _ {D : Type 0} where
  -- ClientLogout
  unfoldable pub client_logout : Reader (Session D) → Reader (Session D) × Bool
  client_logout r = (reply (reply_msg r.current_header 6 0x7FFD (0 ∷ [])) r, true)
