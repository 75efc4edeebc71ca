-- ===== src/Smartlink/Run.antt =====
-- smartlink/st_clientnode_basetrans.cpp, `st_clientNode_baseTrans::run`: a task's turn takes at most
-- eight blocks from the queue of a client's node. No block arrives during the turn here.
pub mod Turn
use zpserver.Common.{
  ℕ, zero, suc, ◌-◌, Bool, true, false, List, [], ◌∷◌, leb, if◌then◌else◌, length, is_empty,
}
use zpserver.Cluster.Run.{RunResult, done, again, pop_front, front}
use zpserver.Smartlink.Frame.{Reader, Outcome, finished, read_past, out_of_fuel, filter_message}

-- m_list_RawData, m_currentReadOffset, and the reader
pub record Inbox (S : Type 0) : Type 0 where
  pub list_raw_data : List (List ℕ)
  pub current_read_offset : ℕ
  pub reader : Reader S

-- m_nMessageBlockSize
abbrev pub message_block_size : ℕ
message_block_size = 8

-- What a turn comes to: the queue and what `run` returns, or what ended the reading of a block.
pub data TurnEnd (S : Type 0) : Type 0 where
  ended : Inbox S → RunResult → TurnEnd S
  past_block : TurnEnd S
  no_fuel : TurnEnd S

-- The same within the turn.
pub data Taken (S : Type 0) : Type 0 where
  taken : Inbox S → Taken S
  past_block : Taken S
  no_fuel : Taken S

module _ {S : Type 0} where
  -- A block that was read to its end is dropped.
  unfoldable pub after_block : List ℕ → Inbox S → Reader S → ℕ → Inbox S
  after_block block s r offset =
      if leb (length block) offset
      then record { list_raw_data = pop_front s.list_raw_data; current_read_offset = 0; reader = r }
      else record s { current_read_offset = offset; reader = r }

module _ {S : Type 0} (deal heart_beat reject : Reader S → Reader S) where
  -- The loop's body
  unfoldable pub take_block : Inbox S → Taken S
  take_block s =
      let block = front s.list_raw_data in
      if is_empty block
      then taken (record s { list_raw_data = pop_front s.list_raw_data })
      else (elim (filter_message deal heart_beat reject block s.current_read_offset s.reader) [
        | finished r rest ↦ taken (after_block block s r (length block - length rest))
        | read_past ↦ Taken.past_block
        | out_of_fuel ↦ Taken.no_fuel
      ])

  -- while (--nMessage>=0 && nCurrSz!=0)
  unfoldable pub take_blocks : ℕ → Inbox S → Taken S
  take_blocks zero s = taken s
  take_blocks (suc n) s = elim (take_block s) [
    | taken s' ↦ let rest = take_blocks n s' in if is_empty s'.list_raw_data then taken s' else rest
    | Taken.past_block ↦ Taken.past_block
    | Taken.no_fuel ↦ Taken.no_fuel
  ]

  unfoldable pub run : Bool → Inbox S → TurnEnd S
  run term_set s = if term_set then ended s done else (elim (take_blocks message_block_size s) [
    | taken s' ↦ ended s' (if is_empty s'.list_raw_data then done else again)
    | Taken.past_block ↦ TurnEnd.past_block
    | Taken.no_fuel ↦ TurnEnd.no_fuel
  ])
