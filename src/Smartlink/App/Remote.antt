-- ===== src/Smartlink/App/Remote.antt =====
-- A message for a client of another server, as the application layer sends its pieces.
use zpserver.Common.{
  ℕ, ◌≡◌, refl, ap, sym, ◌∙◌, true, false, none, List, ◌++◌, arith, ◌==◌, length, is_empty,
  take_full,
}
use zpserver.Smartlink.Table.{
  Table, client_node_from_uuid, cross_svr_find_uuid, cross_svr_send_data, is_valid_user_id,
}
use zpserver.Smartlink.Frame.{Reader, copy}
use zpserver.Smartlink.Session.{Session, own_node, base_deal}
use zpserver.Smartlink.App.{Database}
use zpserver.Smartlink.App.Dispatch.{deal_to_client, reset_type, deal_current_message_block}
use zpserver.Smartlink.App.Relay.{base_deal_same}

-- The reader is within a message from a client with an id, which is for a client of another server.
pub record IsForRemote {D : Type 0} (r : Reader (Session D)) : Type 0 where
  pub known : (own_node r.user).uuid_recieved ≡ true
  pub valid : is_valid_user_id (own_node r.user).uuid ≡ true
  pub source : r.current_header.source_id ≡ (own_node r.user).uuid
  pub not_server : (r.current_header.destin_id == 1) ≡ false
  pub not_here : client_node_from_uuid r.current_header.destin_id r.user.table ≡ none
  pub there : is_empty (cross_svr_find_uuid r.current_header.destin_id r.user.table) ≡ false

same_remote :
    {D : Type 0} (r u : Reader (Session D))
    → own_node u.user ≡ own_node r.user
    → u.current_header ≡ r.current_header
    → ((id : ℕ)
        → (client_node_from_uuid id u.user.table ≡ client_node_from_uuid id r.user.table)
          × (cross_svr_find_uuid id u.user.table ≡ cross_svr_find_uuid id r.user.table))
    → IsForRemote r
    → IsForRemote u
same_remote r u own header same h =
    let destin = ap (λ g. g.destin_id) header in
    record {
      known = ap (λ n. n.uuid_recieved) own ∙ h.known;
      valid = ap (λ n. is_valid_user_id n.uuid) own ∙ h.valid;
      source = ap (λ g. g.source_id) header ∙ h.source ∙ sym (ap (λ n. n.uuid) own);
      not_server = ap (λ i. i == 1) destin ∙ h.not_server;
      not_here =
          ap (λ i. client_node_from_uuid i u.user.table) destin
          ∙ (same r.current_header.destin_id).0
          ∙ h.not_here;
      there =
          ap (λ i. is_empty (cross_svr_find_uuid i u.user.table)) destin
          ∙ ap is_empty (same r.current_header.destin_id).1
          ∙ h.there;
    }

-- What is sent to another server changes nothing of what is known of the clients.
send_keeps :
    (svr : List ℕ) (bs : List ℕ) (t : Table)
    → ((cross_svr_send_data svr bs t).node ≡ t.node)
      × ((id : ℕ)
          → (client_node_from_uuid id (cross_svr_send_data svr bs t) ≡ client_node_from_uuid id t)
            × (cross_svr_find_uuid id (cross_svr_send_data svr bs t) ≡ cross_svr_find_uuid id t))
unfolding cross_svr_send_data client_node_from_uuid cross_svr_find_uuid
send_keeps svr bs t = (refl, λ id. (refl, refl))

module _ {D : Type 0} (database : Database D) where
  -- The piece was sent; all else is as it was, but for the type of the application's message.
  abbrev passed_on : Reader (Session D) → Reader (Session D)
  passed_on r = record r {
    user = record r.user {
      table =
          cross_svr_send_data (cross_svr_find_uuid r.current_header.destin_id r.user.table)
            r.current_block r.user.table;
    };
  }

  reset_type_keeps :
      (r : Reader (Session D))
      → ((reset_type r).user.table ≡ r.user.table)
        × ((reset_type r).user.self ≡ r.user.self)
        × ((reset_type r).current_header ≡ r.current_header)
        × ((reset_type r).current_block ≡ r.current_block)
  unfolding reset_type
  reset_type_keeps r = ground arith

  deal_remote :
      (r : Reader (Session D))
      → IsForRemote r
      → deal_current_message_block database r ≡ reset_type (passed_on r)
  unfolding deal_current_message_block deal_to_client cross_svr_send_data
  deal_remote r h =
      let (table, self, header, block) = reset_type_keeps (passed_on r) in
      let own : own_node (reset_type (passed_on r)).user ≡ own_node r.user =
        ap (λ t. t.node (reset_type (passed_on r)).user.self) table ∙ ap r.user.table.node self in
      let same : base_deal (reset_type (passed_on r)) ≡ reset_type (passed_on r) =
        base_deal_same (reset_type (passed_on r)) (ap (λ n. n.uuid_recieved) own ∙ h.known)
          (ap (λ n. is_valid_user_id n.uuid) own ∙ h.valid)
          (ap (λ g. g.source_id) header ∙ h.source ∙ sym (ap (λ n. n.uuid) own)) in
      rw (h.not_server, h.not_here, deal_to_client, h.there) same

  -- What a piece leaves behind.
  deal_remote_keeps :
      (r : Reader (Session D))
      → IsForRemote r
      → ((deal_current_message_block database r).user.table
          ≡ cross_svr_send_data
              (cross_svr_find_uuid r.current_header.destin_id r.user.table)
              r.current_block
              r.user.table)
        × ((deal_current_message_block database r).user.self ≡ r.user.self)
        × ((deal_current_message_block database r).current_header ≡ r.current_header)
        × ((deal_current_message_block database r).current_block ≡ r.current_block)
  deal_remote_keeps r h = rw (deal_remote r h) (reset_type_keeps (passed_on r))

  -- Another piece of the message has come.
  abbrev with_piece : List ℕ → Reader (Session D) → Reader (Session D)
  with_piece q r = (copy (length q) r q).0

  with_piece_keeps :
      (q : List ℕ) (r : Reader (Session D))
      → ((with_piece q r).user ≡ r.user)
        × ((with_piece q r).current_header ≡ r.current_header)
        × ((with_piece q r).current_block ≡ r.current_block ++ q)
  unfolding copy
  with_piece_keeps q r =
      (refl, refl, ap (λ x. r.current_block ++ x) (take_full (length q) q (omega arith)))

  still_remote :
      (q : List ℕ) (r : Reader (Session D))
      → IsForRemote r
      → IsForRemote (with_piece q (deal_current_message_block database r))
  still_remote q r h =
      let r1 = deal_current_message_block database r in
      let svr = cross_svr_find_uuid r.current_header.destin_id r.user.table in
      let (table, self, header, block) = deal_remote_keeps r h in
      let (user, header', block') = with_piece_keeps q r1 in
      let (node, same) = send_keeps svr r.current_block r.user.table in
      let table' = ap (λ s. s.table) user ∙ table in
      same_remote r (with_piece q r1)
        (ap (λ t. t.node (with_piece q r1).user.self) table'
          ∙ ap (λ f. f (with_piece q r1).user.self) node
          ∙ ap r.user.table.node (ap (λ s. s.self) user ∙ self))
        (header' ∙ header)
        (λ id. (
          ap (client_node_from_uuid id) table' ∙ (same id).0,
          ap (cross_svr_find_uuid id) table' ∙ (same id).1,
        ))
        h

  -- A message from a client with an id to a client of another server, of which one piece has come
  -- and is dealt with, and then another: the other server is sent the first piece, and then the
  -- first piece again with the second behind it.
  pub remote_piece_repeated :
      (q : List ℕ) (r : Reader (Session D))
      → IsForRemote r
      → (deal_current_message_block database
          (copy (length q) (deal_current_message_block database r) q).0).user.table
        ≡ cross_svr_send_data
            (cross_svr_find_uuid r.current_header.destin_id r.user.table)
            (r.current_block ++ q)
            (cross_svr_send_data
              (cross_svr_find_uuid r.current_header.destin_id r.user.table)
              r.current_block
              r.user.table)
  remote_piece_repeated q r h =
      let r1 = deal_current_message_block database r in
      let r2 = with_piece q r1 in
      let svr = cross_svr_find_uuid r.current_header.destin_id r.user.table in
      let (table, self, header, block) = deal_remote_keeps r h in
      let (user, header', block') = with_piece_keeps q r1 in
      let table' = ap (λ s. s.table) user ∙ table in
      let same_svr : cross_svr_find_uuid r2.current_header.destin_id r2.user.table ≡ svr =
        ap (λ g. cross_svr_find_uuid g.destin_id r2.user.table) (header' ∙ header)
        ∙ ap (cross_svr_find_uuid r.current_header.destin_id) table'
        ∙ ((send_keeps svr r.current_block r.user.table).1 r.current_header.destin_id).1 in
      (deal_remote_keeps r2 (still_remote q r h)).0
      ∙ ap (λ v. cross_svr_send_data v r2.current_block r2.user.table) same_svr
      ∙ ap (λ b. cross_svr_send_data svr b r2.user.table) (block' ∙ ap (λ b. b ++ q) block)
      ∙ ap (cross_svr_send_data svr (r.current_block ++ q)) table'
