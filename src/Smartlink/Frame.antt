-- ===== src/Smartlink/Frame.antt =====
-- smartlink/st_clientnode_basetrans.cpp, `st_clientNode_baseTrans::filter_message`: how the bytes of
-- a client's connection are cut into messages and heart beats. What is done with a message, with a
-- heart beat and with a bad mark is a parameter here; Smartlink/Session supplies them.
pub mod Total
pub mod Relay
use zpserver.Common.{
  ℕ, zero, suc, ◌+◌, ◌-◌, ◌%◌, ◌^◌, Bool, ◌&&◌, Option, none, some, List, [], ◌∷◌, ◌++◌, ltb, ◌==◌,
  if◌then◌else◌, length, is_empty, take, drop, word,
}

-- EXAMPLE_TRANS_MSG, without its data
pub record TransHeader : Type 0 where
  pub mark : ℕ
  pub source_id : ℕ
  pub destin_id : ℕ
  pub data_length : ℕ

-- The members of st_clientNode_baseTrans that the reader works on; `user` is the rest of the state.
pub record Reader {ℓ} (S : Type ℓ) : Type ℓ where
  pub current_message_size : ℕ
  pub current_block : List ℕ
  pub current_header : TransHeader
  pub user : S

-- sizeof(EXAMPLE_TRANS_MSG)-1, sizeof(EXAMPLE_HEARTBEATING)
abbrev pub header_size : ℕ
header_size = 12

abbrev pub heart_beat_size : ℕ
heart_beat_size = 8

abbrev pub heart_beat_mark : ℕ
heart_beat_mark = 0xBEBE

abbrev pub trans_mark : ℕ
trans_mark = 0x55AA

-- `n > 0` for the 32 bits of a signed number.
abbrev pub is_positive : ℕ → Bool
is_positive n = ltb 0 n && ltb n (2 ^ 31)

-- if (n > available) n = available;
abbrev pub cap_to : ℕ → ℕ → ℕ
cap_to n available = if ltb available n then available else n

-- EXAMPLE_TRANS_MSG in the first 12 bytes
unfoldable pub header_of : List ℕ → TransHeader
header_of bs = record {
  mark = word 2 bs;
  source_id = word 4 (drop 2 bs);
  destin_id = word 4 (drop 6 bs);
  data_length = word 2 (drop 10 bs);
}

module _ {ℓ} {S : Type ℓ} where
  -- m_currentBlock.push_back of the next `n` bytes; the offset moves on and the size grows.
  unfoldable pub copy : ℕ → Reader S → List ℕ → Reader S × List ℕ
  copy n r rest = (
    record r {
      current_message_size = r.current_message_size + n;
      current_block = r.current_block ++ take n rest;
    },
    drop n rest,
  )

  -- while (m_currentMessageSize<2 && blocklen>offset)
  unfoldable pub receive_mark : Reader S → List ℕ → Reader S × List ℕ
  receive_mark r [] = (r, [])
  receive_mark r (b ∷ rest) =
      if ltb r.current_message_size 2
      then receive_mark
          (record r {
            current_message_size = r.current_message_size + 1;
            current_block = r.current_block ++ b ∷ [];
          })
          rest
      else (r, b ∷ rest)

  -- memcpy of the first 2 bytes into m_currentHeader
  unfoldable pub load_mark : Reader S → Reader S
  load_mark r = record r {
    current_header = record r.current_header { mark = word 2 r.current_block };
  }

  -- memcpy of the whole header
  unfoldable pub load_header : Reader S → Reader S
  load_header r = record r { current_header = header_of r.current_block }

  -- The 32 bits of bytesLeft(), and of `bitLeft` in filter_message
  unfoldable pub bytes_left : Reader S → ℕ
  bytes_left r =
      (r.current_header.data_length + header_size + 2 ^ 32 - r.current_message_size) % 2 ^ 32

  -- m_currentMessageSize = 0; m_currentBlock = QByteArray();
  unfoldable pub start_new : Reader S → Reader S
  start_new r = record r { current_message_size = 0; current_block = [] }

  -- if (m_currentMessageSize< sizeof(EXAMPLE_TRANS_MSG)-1 && blocklen>offset) …
  unfoldable pub fill_header : Reader S → List ℕ → Reader S × List ℕ
  fill_header r rest =
      if ltb r.current_message_size header_size && (ltb 0 (length rest))
      then copy (cap_to (header_size - r.current_message_size) (length rest)) r rest
      else (r, rest)

  -- The bytes of a heart beat. `int nCpy = offset - blocklen` is negative, and greater than what the
  -- heart beat lacks when both are compared as unsigned: what it lacks is copied, from past the
  -- block's end when the block has less, for which this is `none`.
  unfoldable pub fill_heart_beat : Reader S → List ℕ → Option (Reader S × List ℕ)
  fill_heart_beat r rest =
      let lacking = heart_beat_size - r.current_message_size in
      if ltb r.current_message_size heart_beat_size && (ltb 0 (length rest))
      then (if ltb (length rest) lacking then none else some (copy lacking r rest))
      else some (r, rest)

-- Rounds that are always enough.
unfoldable pub rounds : List ℕ → ℕ
rounds rest = length rest + length rest + 2

-- How the reading of a block ends: at its end, with a copy from past its end, or with the fuel.
pub data Outcome {ℓ} (S : Type ℓ) : Type ℓ where
  finished : Reader S → List ℕ → Outcome S
  read_past : Outcome S
  out_of_fuel : Outcome S

module _ {ℓ} {S : Type ℓ} (deal heart_beat reject : Reader S → Reader S) where
  -- The part that both branches on the size share: take what belongs to the message, deal, and
  -- start anew when nothing is left.
  unfoldable pub payload : Reader S → List ℕ → Reader S × List ℕ
  unfolding bytes_left
  payload r rest =
      let left = bytes_left r in
      if is_positive left
      then (let n = cap_to left (length rest) in
          let (r', rest') = copy n r rest in
          if ltb n left then (deal r', rest') else (start_new (deal r'), rest'))
      else (start_new (deal r), rest)

  -- The branch of a message's mark, after the header's bytes have been taken.
  unfoldable pub trans_message : Reader S × List ℕ → Reader S × List ℕ
  trans_message (r, rest) =
      if ltb r.current_message_size header_size
      then (r, rest)
      else if r.current_message_size == header_size
      then (if is_empty rest then (load_header r, rest) else payload (load_header r) rest)
      else if is_empty rest
      then (r, rest)
      else payload r rest

  -- The branch of a heart beat's mark, after its bytes have been taken.
  unfoldable pub heart_beating : Reader S × List ℕ → Reader S × List ℕ
  heart_beating (r, rest) =
      if ltb r.current_message_size heart_beat_size
      then (r, rest)
      else (start_new (heart_beat r), rest)

  unfoldable pub dispatch : Reader S → List ℕ → Option (Reader S × List ℕ)
  dispatch r rest =
      if r.current_header.mark == heart_beat_mark
      then (elim (fill_heart_beat r rest) [ none ↦ none | some p ↦ some (heart_beating p) ])
      else if r.current_header.mark == trans_mark
      then some (trans_message (fill_header r rest))
      else some (start_new (reject r), [])

  -- The loop's body after the first two bytes.
  unfoldable pub after_mark : Reader S × List ℕ → Option (Reader S × List ℕ)
  after_mark (r, rest) =
      if ltb r.current_message_size 2
      then some (r, rest)
      else dispatch (if r.current_message_size == 2 then load_mark r else r) rest

  -- One round of `while (blocklen>offset)`: the reader, and the bytes from the new offset on.
  unfoldable pub round : Reader S → List ℕ → Option (Reader S × List ℕ)
  round r rest = after_mark (receive_mark r rest)

  -- The loop, on fuel.
  unfoldable pub loop : ℕ → Reader S → List ℕ → Outcome S
  loop zero r rest = out_of_fuel
  loop (suc fuel) r [] = finished r []
  loop (suc fuel) r (b ∷ rest) = elim (round r (b ∷ rest)) [
    | none ↦ read_past
    | some (r', rest') ↦ loop fuel r' rest'
  ]

  -- filter_message(block, offset): the loop from the offset on. What a finished one returns is the
  -- block's length less what is left of it.
  unfoldable pub filter_message : List ℕ → ℕ → Reader S → Outcome S
  unfolding rounds
  filter_message block offset r = loop (rounds (drop offset block)) r (drop offset block)

  -- Blocks that `run` takes from the queue one after the other, each from its beginning.
  unfoldable pub read_blocks : Reader S → List (List ℕ) → Outcome S
  read_blocks r [] = finished r []
  read_blocks r (block ∷ blocks) = elim (filter_message block 0 r) [
    | finished r' rest ↦ read_blocks r' blocks
    | read_past ↦ read_past
    | out_of_fuel ↦ out_of_fuel
  ]
