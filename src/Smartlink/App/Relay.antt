-- ===== src/Smartlink/App/Relay.antt =====
-- Messages of one client to others that are connected to the same server: the application layer
-- hands on each piece, and Frame/Relay follows the stream.
use zpserver.Common.{
  ℕ, ◌≡◌, refl, ap, sym, ◌∙◌, inl, inr, true, false, none, some, List, [], ◌∷◌, ◌++◌, arith, ◌==◌,
  if◌then◌else◌, nat_key, concat, append_assoc, append-nil, Bool-cases,
}
use zpserver.Cluster.State.{Event, send_data}
use zpserver.Smartlink.Table.{Table, emit, client_node_from_uuid, is_valid_user_id}
use zpserver.Smartlink.Frame.{Reader, finished, header_of, read_blocks}
use zpserver.Smartlink.Frame.Relay.{IsRelay}
use zpserver.Smartlink.Frame.Relay.Delivery.{AreFor, parts, read_blocks_delivers}
use zpserver.Smartlink.Session.{
  Session, own_node, emit_event, clear_block, heart_beat, reject, base_deal,
}
use zpserver.Smartlink.App.{Database}
use zpserver.Smartlink.App.Dispatch.{deal_to_client, reset_type, deal_current_message_block}

-- The bytes that were sent to a socket.
abbrev pub sent_to : ℕ → List Event → List ℕ
sent_to sock [] = []
sent_to sock (send_data k bs ∷ es) = if k == sock then bs ++ sent_to sock es else sent_to sock es
sent_to sock (e ∷ es) = sent_to sock es

sent_to-append :
    (sock k : ℕ) (bs : List ℕ) (es : List Event)
    → sent_to sock (es ++ send_data k bs ∷ []) ≡ sent_to sock es ++ (if k == sock then bs else [])
sent_to-append sock k bs [] = ground (arith, append-nil bs)
sent_to-append sock k bs (send_data j cs ∷ es) = elim (Bool-cases (j == sock)) [
  | inl here ↦ rw (here, sent_to-append sock k bs es) (sym (append_assoc cs _ _))
  | inr elsewhere ↦ rw elsewhere (sent_to-append sock k bs es)
]
sent_to-append sock k bs (e ∷ es) = sent_to-append sock k bs es

-- The socket of the client that a message is for.
abbrev pub receiver : Table → List ℕ → ℕ
receiver t m = elim (client_node_from_uuid (header_of m).destin_id t) [
  | none ↦ 0
  | some c ↦ (t.node c).sock
]

-- A message from the client with the id to a connected client, not to the server.
pub record IsForClient (t : Table) (id : ℕ) (m : List ℕ) : Type 0 where
  pub source : (header_of m).source_id ≡ id
  pub not_server : ((header_of m).destin_id == 1) ≡ false
  pub online : (c : ℕ) × (client_node_from_uuid (header_of m).destin_id t ≡ some c)

module _ {D : Type 0} where
  pub base_deal_same :
      (r : Reader (Session D))
      → (own_node r.user).uuid_recieved ≡ true
      → is_valid_user_id (own_node r.user).uuid ≡ true
      → r.current_header.source_id ≡ (own_node r.user).uuid
      → base_deal r ≡ r
  unfolding base_deal
  base_deal_same r known valid same = rw (known, same, valid) (ground arith)

  deal_to_client_here :
      (r : Reader (Session D)) (c : ℕ)
      → client_node_from_uuid r.current_header.destin_id r.user.table ≡ some c
      → deal_to_client r
        ≡ clear_block (emit_event (send_data (r.user.table.node c).sock r.current_block) r)
  unfolding deal_to_client
  deal_to_client_here r c here = rw (here, deal_to_client) refl

  -- What handing on a piece leaves.
  abbrev handed_on : ℕ → Reader (Session D) → Reader (Session D)
  handed_on sock r = reset_type (clear_block (emit_event (send_data sock r.current_block) r))

  handed_on_keeps :
      (sock : ℕ) (r : Reader (Session D))
      → ((handed_on sock r).user.table.node ≡ r.user.table.node)
        × ((handed_on sock r).user.table.uuid2node ≡ r.user.table.uuid2node)
        × ((handed_on sock r).user.table.events
            ≡ r.user.table.events ++ send_data sock r.current_block ∷ [])
        × ((handed_on sock r).user.self ≡ r.user.self)
        × ((handed_on sock r).current_header ≡ r.current_header)
        × ((handed_on sock r).current_message_size ≡ r.current_message_size)
        × ((handed_on sock r).current_block ≡ [])
  unfolding reset_type clear_block emit_event emit
  handed_on_keeps sock r = ground arith

same_client :
    (id : ℕ) (t u : Table)
    → u.uuid2node ≡ t.uuid2node
    → client_node_from_uuid id u ≡ client_node_from_uuid id t
unfolding client_node_from_uuid
same_client id t u e = rw e refl

receiver_is :
    (t : Table) (m : List ℕ) (c : ℕ)
    → client_node_from_uuid (header_of m).destin_id t ≡ some c
    → receiver t m ≡ (t.node c).sock
receiver_is t m c e = rw (e, receiver) refl

module _ {D : Type 0} (database : Database D) (self : ℕ) (t : Table) where
  -- The session of the client: the clients are those of `t`.
  record IsGood (s : Session D) : Type 0 where
    same_self : s.self ≡ self
    same_node : s.table.node ≡ t.node
    same_uuids : s.table.uuid2node ≡ t.uuid2node

  -- A piece for a connected client.
  deal_piece :
      (m : List ℕ) (r : Reader (Session D))
      → (t.node self).uuid_recieved ≡ true
      → is_valid_user_id (t.node self).uuid ≡ true
      → IsForClient t (t.node self).uuid m
      → IsGood r.user
      → r.current_header ≡ header_of m
      → deal_current_message_block database r ≡ handed_on (receiver t m) r
  unfolding deal_current_message_block
  deal_piece m r known valid for good header =
      let (c, online) = for.online in
      let there : client_node_from_uuid r.current_header.destin_id r.user.table ≡ some c =
        ap (λ h. client_node_from_uuid h.destin_id r.user.table) header
        ∙ same_client (header_of m).destin_id t r.user.table good.same_uuids
        ∙ online in
      let sock : receiver t m ≡ (r.user.table.node c).sock =
        receiver_is t m c online ∙ sym (ap (λ f. (f c).sock) good.same_node) in
      let not_server : (r.current_header.destin_id == 1) ≡ false = rw header for.not_server in
      let (node, uuids, events, me, head, size, block) = handed_on_keeps (receiver t m) r in
      let own : own_node (handed_on (receiver t m) r).user ≡ t.node self =
        ap (λ f. f (handed_on (receiver t m) r).user.self) (node ∙ good.same_node)
        ∙ ap t.node (me ∙ good.same_self) in
      let same : base_deal (handed_on (receiver t m) r) ≡ handed_on (receiver t m) r =
        base_deal_same (handed_on (receiver t m) r) (ap (λ n. n.uuid_recieved) own ∙ known)
          (ap (λ n. is_valid_user_id n.uuid) own ∙ valid)
          (ap (λ h. h.source_id) (head ∙ header) ∙ for.source ∙ sym (ap (λ n. n.uuid) own)) in
      rw not_server (
        ap (λ x. base_deal (reset_type x)) (deal_to_client_here r c there)
        ∙ ap (λ k. base_deal (handed_on k r)) (sym sock)
        ∙ same)

  -- What the application layer does with a piece is what Frame/Relay asks for.
  deal-IsRelay :
      (t.node self).uuid_recieved ≡ true
      → is_valid_user_id (t.node self).uuid ≡ true
      → IsRelay
          (Session D)
          (deal_current_message_block database)
          IsGood
          (IsForClient t (t.node self).uuid)
          (receiver t)
          (λ sock s. sent_to sock s.table.events)
  deal-IsRelay known valid = record {
    size_kept = λ m r for good header.
        let (node, uuids, events, me, head, size, block) = handed_on_keeps (receiver t m) r in
        rw (deal_piece m r known valid for good header) (
          size,
          head,
          block,
          record {
            same_self = me ∙ good.same_self;
            same_node = node ∙ good.same_node;
            same_uuids = uuids ∙ good.same_uuids;
          },
        );
    sent = λ m r k for good header.
        let (node, uuids, events, me, head, size, block) = handed_on_keeps (receiver t m) r in
        rw (deal_piece m r known valid for good header) (
          ap (sent_to k) events
          ∙ sent_to-append k (receiver t m) r.current_block r.user.table.events);
  }

-- A client with a valid id sends messages to clients that are connected to this server, each with
-- its id as the source, a destination other than the server, the mark of a message, and at least one
-- byte of data, as many as its header says. From between two messages, however the stream is cut into blocks,
-- reading them ends, between two messages, and each socket has been sent just the messages for its
-- client, whole, byte for byte and in their order.
pub messages_relayed :
    {D : Type 0} (database : Database D) (ms blocks : List (List ℕ)) (r : Reader (Session D))
    → (own_node r.user).uuid_recieved ≡ true
    → is_valid_user_id (own_node r.user).uuid ≡ true
    → AreFor (IsForClient r.user.table (own_node r.user).uuid) ms
    → concat blocks ≡ concat ms
    → r.current_message_size ≡ 0
    → r.current_block ≡ []
    → (r' : Reader (Session D)) × (read_blocks
          (deal_current_message_block database)
          heart_beat
          reject
          r
          blocks
        ≡ finished r' [])
      × (r'.current_message_size ≡ 0)
      × (r'.current_block ≡ [])
      × ((sock : ℕ)
          → sent_to sock r'.user.table.events
            ≡ sent_to sock r.user.table.events ++ parts (receiver r.user.table) sock ms)
messages_relayed database ms blocks r known valid for cut size block =
    let t = r.user.table in
    let (r', e, size', block', good, sent) =
      read_blocks_delivers (deal_current_message_block database) heart_beat reject
        (IsGood database r.user.self t) (IsForClient t (own_node r.user).uuid) (receiver t)
        (λ sock s. sent_to sock s.table.events) (deal-IsRelay database r.user.self t known valid) ms
        blocks r for cut size block
        (record { same_self = refl; same_node = refl; same_uuids = refl }) in
    (r', e, size', block', sent)
