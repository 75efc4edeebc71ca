-- ===== src/Smartlink/App/Dispatch.antt =====
-- smartlink/st_clientnode_applayer.cpp: where a client's message goes: to the server, in the two
-- tables of requests, or to another client, here or on another server.
use zpserver.Common.{
  ◌+◌, Bool, true, false, not, ◌||◌, none, some, ltb, ◌==◌, if◌then◌else◌, drop, word, is_empty,
}
use zpserver.Cluster.State.{send_data}
use zpserver.Smartlink.Table.{
  client_node_from_uuid, cross_svr_find_uuid, cross_svr_send_data, is_valid_user_id,
}
use zpserver.Smartlink.Frame.{Reader, bytes_left, is_positive}
use zpserver.Smartlink.Session.{
  Session, own_node, emit_event, say, close_self, clear_block, base_deal,
}
use zpserver.Smartlink.App.{Database}
use zpserver.Smartlink.App.Requests.{
  front_size, login_client, upload_user_table, download_user_table, client_logout,
}

module _ {D : Type 0} where
  -- memcpy of the application's header, unless one was taken before
  unfoldable pub catch_header : Reader (Session D) → Reader (Session D)
  catch_header r =
      let bs = drop 12 r.current_block in
      if r.user.current_app_header.msg_type == 0
      then record r {
        user = record r.user {
          current_app_header = record {
            msg_fmt_version = word 2 bs;
            ask_id = word 1 (drop 2 bs);
            msg_type = word 2 (drop 3 bs);
          };
        };
      }
      else r

  -- A request whose size or type is not right.
  unfoldable pub broken : Reader (Session D) → Reader (Session D) × Bool
  broken r = (clear_block (say r), false)

  -- m_currentBlock.clear() after a request
  unfoldable pub cleared : Reader (Session D) × Bool → Reader (Session D) × Bool
  cleared (r, res) = (clear_block r, res)

  -- A request that waits for the rest of the message, and is dealt with when it is there.
  unfoldable pub when_complete :
      Bool
      → Reader (Session D)
      → (Reader (Session D) → Reader (Session D) × Bool)
      → Reader (Session D) × Bool
  when_complete right_size r request =
      let dealt = cleared (request r) in
      if is_positive (bytes_left r) then (r, true) else if right_size then dealt else broken r

module _ {D : Type 0} (database : Database D) where
  -- The switch of Deal_ToServer_Handshakes
  unfoldable pub handshake : Reader (Session D) → Reader (Session D) × Bool
  handshake r =
      let login = when_complete (not (ltb 88 r.current_message_size)) r (login_client database) in
      if r.user.current_app_header.msg_type == 0x0001 then login else broken r

  -- Deal_ToServer_Handshakes
  unfoldable pub deal_to_server_handshakes : Reader (Session D) → Reader (Session D) × Bool
  deal_to_server_handshakes r =
      if ltb r.current_header.data_length 5
      then (r, false)
      else if ltb r.current_message_size front_size
      then (r, true)
      else handshake (catch_header r)

  -- The switch of Deal_Node2Svr_Msgs
  unfoldable pub node_request : Reader (Session D) → Reader (Session D) × Bool
  node_request r =
      let kind = r.user.current_app_header.msg_type in
      let size = r.current_message_size in
      let upload = when_complete (not (ltb size (front_size + 2))) r (upload_user_table database) in
      let download = when_complete (size == front_size) r (download_user_table database) in
      let logout = when_complete (size == front_size + 1) r client_logout in
      if kind == 0x1003
      then upload
      else if kind == 0x1004
      then download
      else if kind == 0x1002
      then logout
      else broken r

  -- Deal_Node2Svr_Msgs
  unfoldable pub deal_node_to_svr_msgs : Reader (Session D) → Reader (Session D) × Bool
  deal_node_to_svr_msgs r =
      if ltb r.current_header.data_length 5
      then (r, false)
      else if ltb r.current_message_size front_size
      then (r, true)
      else node_request (catch_header r)

  -- What follows when a message to the server failed.
  unfoldable pub close_failed : Reader (Session D) × Bool → Reader (Session D)
  close_failed (r, res) = if res then r else close_self (say (clear_block r))

  -- A message to the server
  unfoldable pub deal_to_server : Reader (Session D) → Reader (Session D)
  deal_to_server r =
      let id = r.current_header.source_id in
      let handshaken = close_failed (deal_to_server_handshakes r) in
      let requested = close_failed (deal_node_to_svr_msgs r) in
      if not r.user.logged_in || not (own_node r.user).uuid_recieved
      then handshaken
      else if is_valid_user_id id
      then requested
      else if id == 0xffffffff
      then say (clear_block r)
      else close_self (say (clear_block r))

module _ {D : Type 0} where
  -- A message to another client: it goes to the client's socket, or to the client's server.
  unfoldable pub deal_to_client : Reader (Session D) → Reader (Session D)
  deal_to_client r =
      let id = r.current_header.destin_id in
      let t = r.user.table in
      let svr = cross_svr_find_uuid id t in
      elim (client_node_from_uuid id t) [
        | some c ↦ clear_block (emit_event (send_data (t.node c).sock r.current_block) r)
        | none ↦ if is_empty svr then say r else record r {
          user = record r.user { table = cross_svr_send_data svr r.current_block t };
        }
      ]

  -- if (bytesLeft()==0) m_current_app_header.header.MsgType = 0x00
  unfoldable pub reset_type : Reader (Session D) → Reader (Session D)
  reset_type r =
      if bytes_left r == 0
      then record r {
        user = record r.user {
          current_app_header = record r.user.current_app_header { msg_type = 0 };
        };
      }
      else r

module _ {D : Type 0} (database : Database D) where
  -- st_clientNodeAppLayer::deal_current_message_block
  unfoldable pub deal_current_message_block : Reader (Session D) → Reader (Session D)
  deal_current_message_block r =
      let at_server = base_deal (reset_type (deal_to_server database r)) in
      let at_client = base_deal (reset_type (deal_to_client r)) in
      if r.current_header.destin_id == 0x00000001 then at_server else at_client
