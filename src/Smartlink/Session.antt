-- ===== src/Smartlink/Session.antt =====
-- smartlink/st_clientnode_basetrans.cpp and smartlink/st_clientnode_applayer.h: the state of a
-- client's node beside its reader, and what the base class does with heart beats, with bad marks and
-- with the id in a message's header.
pub mod HeartBeat
use zpserver.Common.{
  ℕ, ◌≡◌, Bool, true, false, not, ◌&&◌, ◌||◌, List, [], ◌∷◌, ◌++◌, ◌==◌, if◌then◌else◌, take, drop,
  word, bytes,
}
use zpserver.Cluster.State.{send_data, close_client, message, Event}
use zpserver.Smartlink.Table.{Table, ClientNode, emit, identify_client, is_valid_user_id}
use zpserver.Smartlink.Frame.{Reader, TransHeader}

-- EXAMPLE_MSG_APP::tag_app_layer_header
pub record AppHeader : Type 0 where
  pub msg_fmt_version : ℕ
  pub ask_id : ℕ
  pub msg_type : ℕ

-- st_clientNodeAppLayer: the node `self` of the table, the state of its application layer, and the
-- state `db` of the database that it uses. `overrun` says that it has written past the end of an
-- array, after which C++ promises nothing. QSet is a list without repetitions; its order, which Qt
-- leaves open, is that of the insertions.
pub record Session (D : Type 0) : Type 0 where
  pub self : ℕ
  pub table : Table
  pub logged_in : Bool
  pub current_app_header : AppHeader
  pub matched_nodes : List ℕ
  pub db : D
  pub overrun : Bool

module _ {D : Type 0} where
  -- The node of the session in the table: its m_uuid, m_bUUIDRecieved and m_pClientSock.
  abbrev pub own_node : Session D → ClientNode
  own_node s = s.table.node s.self

  -- Signals of the node
  unfoldable pub emit_event : Event → Reader (Session D) → Reader (Session D)
  emit_event e r = record r { user = record r.user { table = emit e r.user.table } }

  -- emit evt_SendDataToClient(this->sock(),array)
  unfoldable pub reply : List ℕ → Reader (Session D) → Reader (Session D)
  reply array r = emit_event (send_data (own_node r.user).sock array) r

  -- emit evt_Message(…)
  unfoldable pub say : Reader (Session D) → Reader (Session D)
  say r = emit_event message r

  -- emit evt_close_client(this->sock())
  unfoldable pub close_self : Reader (Session D) → Reader (Session D)
  close_self r = emit_event (close_client (own_node r.user).sock) r

  -- m_currentBlock = QByteArray()
  unfoldable pub clear_block : Reader (Session D) → Reader (Session D)
  clear_block r = record r { current_block = [] }

  -- The first valid id that a client gives is its id.
  unfoldable pub identify : ℕ → Reader (Session D) → Reader (Session D)
  identify id r = record r {
    user = record r.user { table = identify_client r.user.self id r.user.table };
  }

  -- The message of an id that is not to be, and its end
  unfoldable pub bad_id : Reader (Session D) → Reader (Session D)
  bad_id r = close_self (clear_block (say r))

  -- What filter_message does with a whole heart beat: it goes back, and its id may be the client's.
  unfoldable pub heart_beat : Reader (Session D) → Reader (Session D)
  heart_beat r = identify (word 4 (drop 2 r.current_block)) (reply r.current_block r)

  -- What filter_message does with an unknown mark.
  unfoldable pub reject : Reader (Session D) → Reader (Session D)
  reject r = close_self (record (say r) { current_message_size = 0; current_block = [] })

  -- st_clientNode_baseTrans::deal_current_message_block
  unfoldable pub base_deal : Reader (Session D) → Reader (Session D)
  base_deal r =
      let id = r.current_header.source_id in
      if not (own_node r.user).uuid_recieved
      then (if is_valid_user_id id then identify id r else if id == 0xffffffff then r else bad_id r)
      else (let r1 = if not (is_valid_user_id id || (id == 0xffffffff)) then bad_id r else r in
          if is_valid_user_id id && not ((own_node r.user).uuid == id) then bad_id r1 else r1)
