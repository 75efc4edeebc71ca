-- ===== src/Cluster/Frame/Stream/Delivery.antt =====
-- A stream of whole messages through zp_ClusterNode::filter_message, in whatever blocks it comes.
use zpserver.Common.{
  arith, ℕ, ◌<◌, ◌^◌, ◌≡◌, refl, Bool, true, some, List, [], ◌∷◌, concat, map, length,
}
use zpserver.Cluster.Frame.{Reader, bit_left, start_new, is_positive}
use zpserver.Cluster.Frame.Stream.{read_all}
use zpserver.Cluster.Frame.Stream.Sane.{fresh-IsSane}
use zpserver.Cluster.Frame.Stream.Fragments.{feed, feed-read_all, read_all-join}
use zpserver.Cluster.Frame.Stream.Messages.{Message, encode, holding, read_message}

-- A message that the reader hands over whole: its type is one that is dealt when complete, and its
-- length is not zero, and less than 2^30, which `int` and QByteArray hold with the header.
pub record IsWhole (deferred : ℕ → Bool) (m : Message) : Type 0 where
  pub kind : deferred m.messagetype ≡ true
  pub nonempty : 0 < length m.content
  pub short : length m.content < 2 ^ 30

abbrev pub AllWhole : (ℕ → Bool) → List Message → Type 0
AllWhole deferred [] = Unit {0}
AllWhole deferred (m ∷ ms) = IsWhole deferred m × AllWhole deferred ms

module _ {S : Type 0} (deal : Reader S → Reader S) where
  -- The messages are dealt one after the other, each held whole.
  unfoldable pub deliver_all : Reader S → List Message → Reader S
  deliver_all r [] = r
  deliver_all r (m ∷ ms) = deliver_all (start_new (deal (holding r.user m))) ms

module _ {S : Type 0} (deal : Reader S → Reader S) (deferred : ℕ → Bool) where
  read_messages :
      (ms : List Message) (r : Reader S)
      → AllWhole deferred ms
      → read_all deal deferred (start_new r) (concat (map encode ms))
        ≡ some (deliver_all deal (start_new r) ms)
  unfolding deliver_all start_new read_all
  read_messages [] r w = refl
  read_messages (m ∷ ms) r (w, ws) =
      read_all-join deal deferred (encode m) (concat (map encode ms)) (start_new r)
        (start_new (deal (holding r.user m)))
        (read_message deal deferred r.user r.current_header m w.kind w.nonempty
          (omega (arith, w.short)))
        (read_messages ms (deal (holding r.user m)) ws)

-- Reading any cut of the encoded messages deals exactly these messages, each once and whole, in
-- their order, and ends between two messages.
pub feed-messages :
    {S : Type 0} (deal reject : Reader S → Reader S) (deferred : ℕ → Bool)
    (quiet : (r : Reader S)
      → deferred r.current_header.messagetype ≡ true
      → is_positive (bit_left r) ≡ true
      → deal r ≡ r)
    (ms : List Message) (blocks : List (List ℕ)) (r : Reader S)
    → AllWhole deferred ms
    → concat blocks ≡ concat (map encode ms)
    → feed deal reject (start_new r) blocks ≡ some (deliver_all deal (start_new r) ms)
feed-messages deal reject deferred quiet ms blocks r w cut =
    feed-read_all deal reject deferred quiet blocks (start_new r) _ (fresh-IsSane deferred r)
      (rw cut (read_messages deal deferred ms r w))
