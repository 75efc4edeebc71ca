-- ===== src/Cluster/Node.antt =====
-- cluster/zp_clusternode.cpp: what a zp_ClusterNode does with the messages of a remote server.
-- `host_address` stands for QHostAddress(text).toString() of Qt, and `deal_user_data` for the virtual
-- method of that name; `deal_user_data_base` is the one of this class.
pub mod Control
use zpserver.Common.{
  ℕ, zero, suc, ◌+◌, ◌-◌, ◌*◌, ◌/◌, Bool, true, false, not, ◌&&◌, Option, none, some, List, [], ◌∷◌,
  ◌++◌, ltb, leb, ◌==◌, if◌then◌else◌, length, is_empty, drop, word, Text, text_key, text_same,
  text_before, contains,
}
use zpserver.Cluster.State.{
  Event, close_client, connect_to, message, new_svr_connected, remote_data_recieved, Node, Term,
  Context, emit, set_node,
}
use zpserver.Cluster.Wire.{ServerInfo, read_info, info_size}
use zpserver.Cluster.Term.{regisit_new_server, broadcast_servers}
use zpserver.Cluster.Frame.{Reader, bit_left, filter_message, start_new}

abbrev pub UserData : Type 0 → Type 0
UserData U = List ℕ → Context U → Context U × Bool

module _ {U : Type 0} where
  -- An action on the term.
  unfoldable pub on_term : (Term → Term) → Reader (Context U) → Reader (Context U)
  on_term f r = record r { user = record r.user { term = f r.user.term } }

  -- An action on the node itself.
  unfoldable pub on_self : (Node → Node) → Reader (Context U) → Reader (Context U)
  unfolding on_term set_node
  on_self f r = on_term (λ t. set_node r.user.self (f (t.node r.user.self)) t) r

  unfoldable pub close_self : Term → Context U → Term
  unfolding emit
  close_self t x = emit (close_client (t.node x.self).sock) (emit message t)

  -- zp_ClusterNode::deal_user_data
  unfoldable pub deal_user_data_base : UserData U
  unfolding emit
  deal_user_data_base array x = (
    record x { term = emit (remote_data_recieved (x.term.node x.self).term_name array) x.term },
    true,
  )

  -- The branch of filter_message for a bad mark: two signals.
  unfoldable pub reject_client : Reader (Context U) → Reader (Context U)
  reject_client r = on_term (λ t. close_self t r.user) r

  -- case 0x00
  unfoldable pub deal_heart_beating : Reader (Context U) → Reader (Context U)
  deal_heart_beating r =
      on_self (λ n. record n { remote_client_nums = word 4 (drop 7 r.current_block) }) r

module _ (host_address : Text → Text) where
  -- What a basicInfo message sets in the node.
  unfoldable pub take_info : ServerInfo → Node → Node
  take_info s n = record n {
    term_name = s.name;
    port_lan = s.port_lan;
    addr_lan = host_address s.addr_lan;
    port_pub = s.port_pub;
    addr_pub = host_address s.addr_pub;
  }

  -- case 0x01, on the term, for the node `c`
  unfoldable pub basic_info : ServerInfo → ℕ → Term → Term
  basic_info s c t =
      if text_same s.name t.term_name
      then emit (close_client (t.node c).sock) (emit message t)
      else (let (t', done) = regisit_new_server c (set_node c (take_info s (t.node c)) t) in
          if done
          then broadcast_servers (emit (new_svr_connected (t'.node c).term_name) t')
          else emit (close_client (t'.node c).sock)
              (emit message (set_node c (record (t'.node c) { term_name = [] }) t')))

  -- One record of a broadcast: connect to a server that is unknown and whose name is greater.
  unfoldable pub hear_of : ServerInfo → Term → Term
  unfolding emit contains
  hear_of s t =
      if not (text_same s.name t.term_name) && not (contains s.name t.name2node)
      then (if text_before t.term_name s.name
          then emit (connect_to (host_address s.addr_lan) s.port_lan) t
          else emit message t)
      else t

  -- for (int i=0;i<nSvrs;i++)
  unfoldable pub hear_broadcast : ℕ → List ℕ → Term → Term
  unfolding hear_of read_info
  hear_broadcast zero bs t = t
  hear_broadcast (suc n) bs t = hear_broadcast n (drop info_size bs) (hear_of (read_info bs) t)

  module _ {U : Type 0} (deal_user_data : UserData U) where
    -- case 0x03: the first piece comes without the header, which is cut off; the others as they are.
    unfoldable pub deal_piece : Reader (Context U) → Reader (Context U)
    deal_piece r =
        let array =
          if r.current_message_size == length r.current_block
          then drop 7 r.current_block
          else r.current_block in
        let (x, done) = deal_user_data array r.user in
        if done then record r { user = x; current_block = [] } else record r { user = x }

    -- deal_current_message_block
    unfoldable pub deal_current_message_block : Reader (Context U) → Reader (Context U)
    deal_current_message_block r =
        let kind = r.current_header.messagetype in
        let complete = bit_left r == 0 in
        if kind == 0x00
        then (if complete then deal_heart_beating r else r)
        else if kind == 0x01
        then (if complete
            then on_term (basic_info (read_info (drop 7 r.current_block)) r.user.self) r
            else r)
        else if kind == 0x02
        then (if complete
            then on_term
                (hear_broadcast (r.current_header.data_length / info_size) (drop 7 r.current_block))
                r
            else r)
        else if kind == 0x03
        then deal_piece r
        else on_term (λ t. close_self t r.user) r
