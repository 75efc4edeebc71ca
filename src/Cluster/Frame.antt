-- ===== src/Cluster/Frame.antt =====
-- cluster/zp_clusternode.cpp, `zp_ClusterNode::filter_message`: how the bytes of a server-to-server
-- connection are cut into messages. What is done with a message (`deal_current_message_block`) and
-- with a bad mark (the two signals) is a parameter here; Cluster/Node supplies them.
pub mod Total
pub mod Stream
use zpserver.Common.{
  ℕ, zero, suc, ◌+◌, ◌-◌, ◌%◌, ◌^◌, Bool, ◌&&◌, Option, none, some, List, [], ◌∷◌, ◌++◌, ltb, ◌==◌,
  if◌then◌else◌, length, is_empty, take, drop, word,
}

-- CROSS_SVR_MSG::tag_header
pub record Header : Type 0 where
  pub mark : ℕ
  pub messagetype : ℕ
  pub data_length : ℕ

-- The members of zp_ClusterNode that the reader works on; `user` is all the rest of the state.
-- m_currentMessageSize is an `int`, and the sizes here are those below 2^31: a message of 2^31 bytes or
-- more, header included, which no QByteArray holds and with which the `int` overflows, is not modelled.
pub record Reader {ℓ} (S : Type ℓ) : Type ℓ where
  pub current_message_size : ℕ
  pub current_block : List ℕ
  pub current_header : Header
  pub user : S

-- sizeof(CROSS_SVR_MSG::tag_header), packed
abbrev pub header_size : ℕ
header_size = 7

-- The `Mark` of every cross-server message.
abbrev pub mark_value : ℕ
mark_value = 0x1234

module _ {ℓ} {S : Type ℓ} where
  -- m_currentBlock.push_back of the next `n` bytes; the offset moves on and the size grows.
  unfoldable pub copy : ℕ → Reader S → List ℕ → Reader S × List ℕ
  copy n r rest = (
    record r {
      current_message_size = r.current_message_size + n;
      current_block = r.current_block ++ take n rest;
    },
    drop n rest,
  )

  -- while (m_currentMessageSize<2 && blocklen>offset)
  unfoldable pub receive_mark : Reader S → List ℕ → Reader S × List ℕ
  receive_mark r [] = (r, [])
  receive_mark r (b ∷ rest) =
      if ltb r.current_message_size 2
      then receive_mark
          (record r {
            current_message_size = r.current_message_size + 1;
            current_block = r.current_block ++ b ∷ [];
          })
          rest
      else (r, b ∷ rest)

  -- memcpy of the first 2 bytes into m_currentHeader
  unfoldable pub load_mark : Reader S → Reader S
  load_mark r = record r {
    current_header = record r.current_header { mark = word 2 r.current_block };
  }

  -- memcpy of the whole header
  unfoldable pub load_header : Reader S → Reader S
  load_header r = record r {
    current_header = record {
      mark = word 2 r.current_block;
      messagetype = word 1 (drop 2 r.current_block);
      data_length = word 4 (drop 3 r.current_block);
    };
  }

  -- The 32 bits of `qint32 bitLeft = data_length + sizeof(tag_header) - m_currentMessageSize`.
  unfoldable pub bit_left : Reader S → ℕ
  bit_left r =
      (r.current_header.data_length + header_size + 2 ^ 32 - r.current_message_size) % 2 ^ 32

  -- m_currentMessageSize = 0; m_currentBlock = QByteArray();
  unfoldable pub start_new : Reader S → Reader S
  start_new r = record r { current_message_size = 0; current_block = [] }

-- `bitLeft > 0` for the 32 bits of a signed number.
abbrev pub is_positive : ℕ → Bool
is_positive n = ltb 0 n && ltb n (2 ^ 31)

-- if (n > available) n = available;
abbrev pub cap_to : ℕ → ℕ → ℕ
cap_to n available = if ltb available n then available else n

module _ {ℓ} {S : Type ℓ} where
  -- if (m_currentMessageSize< sizeof(tag_header) && blocklen>offset) …
  unfoldable pub fill_header : Reader S → List ℕ → Reader S × List ℕ
  fill_header r rest =
      if ltb r.current_message_size header_size && (ltb 0 (length rest))
      then copy (cap_to (header_size - r.current_message_size) (length rest)) r rest
      else (r, rest)

-- Rounds that are always enough.
unfoldable pub rounds : List ℕ → ℕ
rounds rest = length rest + length rest + 2

module _ {ℓ} {S : Type ℓ} (deal reject : Reader S → Reader S) where
  -- The part that both branches on the size share: take what belongs to the message, deal, and
  -- start anew when nothing is left.
  unfoldable pub payload : Reader S → List ℕ → Reader S × List ℕ
  unfolding bit_left
  payload r rest =
      let left = bit_left r in
      if is_positive left
      then (let n = cap_to left (length rest) in
          let (r', rest') = copy n r rest in
          if ltb n left then (deal r', rest') else (start_new (deal r'), rest'))
      else (start_new (deal r), rest)

  -- The branch of a valid mark, after the header's bytes have been taken.
  unfoldable pub valid_message : Reader S × List ℕ → Reader S × List ℕ
  valid_message (r, rest) =
      if ltb r.current_message_size header_size
      then (r, rest)
      else if r.current_message_size == header_size
      then (if is_empty rest then (load_header r, rest) else payload (load_header r) rest)
      else if is_empty rest
      then (r, rest)
      else payload r rest

  unfoldable pub dispatch : Reader S → List ℕ → Reader S × List ℕ
  dispatch r rest =
      if r.current_header.mark == mark_value
      then valid_message (fill_header r rest)
      else (start_new (reject r), [])

  -- The loop's body after the first two bytes.
  unfoldable pub after_mark : Reader S × List ℕ → Reader S × List ℕ
  after_mark (r, rest) =
      if ltb r.current_message_size 2
      then (r, rest)
      else dispatch (if r.current_message_size == 2 then load_mark r else r) rest

  -- One round of `while (blocklen>offset)`: the reader, and the bytes from the new offset on.
  unfoldable pub round : Reader S → List ℕ → Reader S × List ℕ
  round r rest = after_mark (receive_mark r rest)

  -- The loop, on fuel.
  unfoldable pub loop : ℕ → Reader S → List ℕ → Option (Reader S × List ℕ)
  loop zero r rest = none
  loop (suc fuel) r [] = some (r, [])
  loop (suc fuel) r (b ∷ rest) = let (r', rest') = round r (b ∷ rest) in loop fuel r' rest'

  -- filter_message(block, offset): the reader, and the offset returned.
  unfoldable pub filter_message : List ℕ → ℕ → Reader S → Option (Reader S × ℕ)
  unfolding rounds
  filter_message block offset r = elim (loop (rounds (drop offset block)) r (drop offset block)) [
    | none ↦ none
    | some (r', rest) ↦ some (r', offset + length (drop offset block) - length rest)
  ]
