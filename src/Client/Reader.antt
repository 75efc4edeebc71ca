-- ===== src/Client/Reader.antt =====
-- FunctionalClientTest/maindialog.cpp, `MainDialog::filter_message`: the client's reader, which is
-- that of the server, a byte at a time. What is done with a message, with a heart beat and with a bad
-- mark is a parameter.
pub mod Same
use zpserver.Common.{
  ℕ, zero, suc, ◌+◌, ◌-◌, Bool, ◌&&◌, Option, none, some, List, [], ◌∷◌, ◌++◌, ltb, ◌==◌,
  if◌then◌else◌, length, is_empty, drop,
}
use zpserver.Smartlink.Frame.{
  Reader, header_size, heart_beat_size, heart_beat_mark, trans_mark, is_positive, load_mark,
  load_header, bytes_left, start_new, rounds,
}

module _ {S : Type 0} where
  -- m_currentBlock.push_back(dataptr[offset++]); m_currentMessageSize++;
  unfoldable pub push_back : ℕ → Reader S → Reader S
  push_back b r = record r {
    current_message_size = r.current_message_size + 1;
    current_block = r.current_block ++ b ∷ [];
  }

  -- while (m_currentMessageSize<n && blocklen>offset)
  unfoldable pub receive_until : ℕ → Reader S → List ℕ → Reader S × List ℕ
  receive_until n r [] = (r, [])
  receive_until n r (b ∷ rest) =
      let next = receive_until n (push_back b r) rest in
      if ltb r.current_message_size n then next else (r, b ∷ rest)

  -- while (bitLeft>0 && blocklen>offset), with what `bitLeft` is after it
  unfoldable pub receive_left : ℕ → Reader S → List ℕ → (Reader S × List ℕ) × ℕ
  receive_left zero r rest = ((r, rest), zero)
  receive_left (suc left) r [] = ((r, []), suc left)
  receive_left (suc left) r (b ∷ rest) = receive_left left (push_back b r) rest

module _ {S : Type 0} (deal heart_beat reject : Reader S → Reader S) where
  -- What both branches on the size share
  unfoldable pub payload : Reader S → List ℕ → Reader S × List ℕ
  payload r rest =
      let ((r', rest'), left) = receive_left (bytes_left r) r rest in
      if is_positive (bytes_left r)
      then (if ltb 0 left then (deal r', rest') else (start_new (deal r'), rest'))
      else (start_new (deal r), rest)

  unfoldable pub trans_message : Reader S × List ℕ → Reader S × List ℕ
  trans_message (r, rest) =
      if ltb r.current_message_size header_size
      then (r, rest)
      else if r.current_message_size == header_size
      then (if is_empty rest then (load_header r, rest) else payload (load_header r) rest)
      else if is_empty rest
      then (r, rest)
      else payload r rest

  unfoldable pub heart_beating : Reader S × List ℕ → Reader S × List ℕ
  heart_beating (r, rest) =
      if ltb r.current_message_size heart_beat_size
      then (r, rest)
      else (start_new (heart_beat r), rest)

  unfoldable pub dispatch : Reader S → List ℕ → Reader S × List ℕ
  dispatch r rest =
      if r.current_header.mark == heart_beat_mark
      then heart_beating (receive_until heart_beat_size r rest)
      else if r.current_header.mark == trans_mark
      then trans_message (receive_until header_size r rest)
      else (start_new (reject r), [])

  unfoldable pub after_mark : Reader S × List ℕ → Reader S × List ℕ
  after_mark (r, rest) =
      if ltb r.current_message_size 2
      then (r, rest)
      else dispatch (if r.current_message_size == 2 then load_mark r else r) rest

  -- One round of `while (blocklen>offset)`
  unfoldable pub round : Reader S → List ℕ → Reader S × List ℕ
  round r rest = after_mark (receive_until 2 r rest)

  -- The loop, on fuel
  unfoldable pub loop : ℕ → Reader S → List ℕ → Option (Reader S × List ℕ)
  loop zero r rest = none
  loop (suc fuel) r [] = some (r, [])
  loop (suc fuel) r (b ∷ rest) = let (r', rest') = round r (b ∷ rest) in loop fuel r' rest'

  -- filter_message(block, offset), with the bytes from the offset returned on
  unfoldable pub filter_message : List ℕ → ℕ → Reader S → Option (Reader S × List ℕ)
  unfolding rounds
  filter_message block offset r = loop (rounds (drop offset block)) r (drop offset block)
