-- ===== src/Cluster/Node/Control.antt =====
-- The messages of types 0x00, 0x01 and 0x02 through the whole receiving side of a zp_ClusterNode.
use zpserver.Common.{ℕ, ◌≡◌, Bool, true, some, List, arith, ltb, concat, map, Text}
use zpserver.Cluster.State.{Context}
use zpserver.Cluster.Frame.{Reader, bit_left, start_new, is_positive}
use zpserver.Cluster.Frame.Stream.{read_all, IsSane}
use zpserver.Cluster.Frame.Stream.Fragments.{feed, feed-cuts}
use zpserver.Cluster.Frame.Stream.Messages.{Message, encode}
use zpserver.Cluster.Frame.Stream.Delivery.{AllWhole, deliver_all, feed-messages}
use zpserver.Cluster.Node.{UserData, deal_current_message_block, reject_client}

-- Heart beats, basic information and broadcasts are dealt when they are complete.
abbrev pub is_control : ℕ → Bool
is_control kind = ltb kind 3

module _ {U : Type 0} (host_address : Text → Text) (deal_user_data : UserData U) where
  -- Before that the handler does nothing.
  control_waits :
      (r : Reader (Context U))
      → is_control r.current_header.messagetype ≡ true
      → is_positive (bit_left r) ≡ true
      → deal_current_message_block host_address deal_user_data r ≡ r
  unfolding deal_current_message_block
  control_waits r kind left = ground arith

-- A stream of whole heart beats, basic information and broadcasts, each with a payload of at least
-- one and less than 2^30 bytes, cut into blocks in any way: each message is dealt once, whole and in order, and the reader ends between two messages.
pub control_messages :
    {U : Type 0} (host_address : Text → Text) (deal_user_data : UserData U) (ms : List Message)
    (blocks : List (List ℕ)) (r : Reader (Context U))
    → AllWhole is_control ms
    → concat blocks ≡ concat (map encode ms)
    → let deal = deal_current_message_block host_address deal_user_data in
      feed deal reject_client (start_new r) blocks ≡ some (deliver_all deal (start_new r) ms)
control_messages host_address deal_user_data ms blocks r w cut =
    feed-messages (deal_current_message_block host_address deal_user_data) reject_client is_control
      (control_waits host_address deal_user_data) ms blocks r w cut

-- From a state that the reader can be in, also in the middle of a message: two ways to cut what comes have one outcome, if the bytes hold
-- no bad mark and no message of another type.
pub control_cuts :
    {U : Type 0} (host_address : Text → Text) (deal_user_data : UserData U)
    (blocks blocks' : List (List ℕ)) (r r' : Reader (Context U))
    → concat blocks ≡ concat blocks'
    → IsSane is_control r
    → read_all (deal_current_message_block host_address deal_user_data) is_control r (concat blocks)
      ≡ some r'
    → feed (deal_current_message_block host_address deal_user_data) reject_client r blocks
      ≡ feed (deal_current_message_block host_address deal_user_data) reject_client r blocks'
control_cuts host_address deal_user_data blocks blocks' r r' same v e =
    feed-cuts (deal_current_message_block host_address deal_user_data) reject_client is_control
      (control_waits host_address deal_user_data) blocks blocks' r r' same v e
