-- ===== src/Cluster/Frame/Stream.antt =====
-- The reader of zp_ClusterNode::filter_message against a machine that takes one byte at a time:
-- how a stream is cut into blocks does not matter.
pub mod Peel
pub mod Sane
pub mod Step
pub mod Fragments
pub mod Messages
pub mod Delivery
use zpserver.Common.{
  ℕ, zero, suc, ◌+◌, ◌≤◌, ◌<◌, ◌≡◌, Bool, true, false, ◌&&◌, Option, none, some, List, [], ◌∷◌,
  ◌++◌, ltb, leb, ◌==◌, if◌then◌else◌, length, word,
}
use zpserver.Cluster.Frame.{
  Reader, load_mark, load_header, bit_left, start_new, is_positive, header_size, mark_value,
}

module _ {S : Type 0} where
  -- One more byte of the current message.
  unfoldable pub push : Reader S → ℕ → Reader S
  push r b = record r {
    current_message_size = r.current_message_size + 1;
    current_block = r.current_block ++ b ∷ [];
  }

  -- The header is there and nothing is left to read: the message is dealt when more bytes come.
  unfoldable pub is_pending : Reader S → Bool
  is_pending r =
      leb header_size r.current_message_size && (if is_positive (bit_left r) then false else true)

-- A message type in `deferred` is dealt only when the message is complete.
module _ {S : Type 0} (deal : Reader S → Reader S) (deferred : ℕ → Bool) where
  -- What follows the new byte; `none` for a bad mark or a type that is dealt in pieces.
  unfoldable pub settle : Reader S → Option (Reader S)
  settle r =
      if r.current_message_size == 2
      then (if (load_mark r).current_header.mark == mark_value then some (load_mark r) else none)
      else if r.current_message_size == header_size
      then (if deferred (load_header r).current_header.messagetype
          then some (load_header r)
          else none)
      else if ltb header_size r.current_message_size
      then (if is_positive (bit_left r) then some r else some (start_new (deal r)))
      else some r

  -- A message with nothing left to read is dealt first.
  unfoldable pub finish_pending : Reader S → Reader S
  finish_pending r = if is_pending r then start_new (deal r) else r

  unfoldable pub read_byte : Reader S → ℕ → Option (Reader S)
  read_byte r b = settle (push (finish_pending r) b)

  unfoldable pub read_all : Reader S → List ℕ → Option (Reader S)
  read_all r [] = some r
  read_all r (b ∷ bs) = elim (read_byte r b) [ none ↦ none | some r' ↦ read_all r' bs ]

-- What holds of a reader between two bytes.
pub record IsSane {S : Type 0} (deferred : ℕ → Bool) (r : Reader S) : Type 0 where
  pub marked : 2 ≤ r.current_message_size → (r.current_header.mark == mark_value) ≡ true
  pub whole : r.current_message_size ≤ 7 → length r.current_block ≡ r.current_message_size
  pub mark_kept :
      2 ≤ r.current_message_size
      → r.current_message_size ≤ 7
      → word 2 r.current_block ≡ r.current_header.mark
  pub header_read : r.current_message_size ≡ 7 → load_header r ≡ r
  pub in_pieces : 7 ≤ r.current_message_size → deferred r.current_header.messagetype ≡ true
  pub unfinished : 7 < r.current_message_size → is_positive (bit_left r) ≡ true
