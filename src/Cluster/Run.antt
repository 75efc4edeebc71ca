-- ===== src/Cluster/Run.antt =====
-- cluster/zp_clusternode.cpp, `zp_ClusterNode::run`: a task's turn takes at most eight blocks from
-- the node's queue. No block arrives during the turn here.
pub mod Turn
use zpserver.Common.{
  ℕ, zero, suc, Bool, true, false, Option, none, some, List, [], ◌∷◌, leb, if◌then◌else◌, length,
  is_empty,
}
use zpserver.Cluster.Frame.{Reader, filter_message}

-- The queue, the offset in its first block, and the reader.
pub record Inbox (S : Type 0) : Type 0 where
  pub list_raw_data : List (List ℕ)
  pub current_read_offset : ℕ
  pub reader : Reader S

-- m_nMessageBlockSize
abbrev pub message_block_size : ℕ
message_block_size = 8

-- What `run` returns: 0, or -1 to be put in the queue again.
pub data RunResult : Type 0 where
  done again : RunResult

unfoldable pub pop_front {ℓ} : {A : Type ℓ} → List A → List A
pop_front [] = []
pop_front (x ∷ xs) = xs

-- *m_list_RawData.begin(), or an empty block
unfoldable pub front : List (List ℕ) → List ℕ
front [] = []
front (x ∷ xs) = x

module _ {S : Type 0} (deal reject : Reader S → Reader S) where
  -- After filter_message: a block that was read to its end is dropped.
  pub after_block : List ℕ → Inbox S → Reader S × ℕ → Inbox S
  unfolding pop_front
  after_block block s (r, offset) =
      if leb (length block) offset
      then record { list_raw_data = pop_front s.list_raw_data; current_read_offset = 0; reader = r }
      else record s { current_read_offset = offset; reader = r }

  -- The loop's body.
  pub take_block : Inbox S → Option (Inbox S)
  unfolding front pop_front after_block
  take_block s =
      let block = front s.list_raw_data in
      if is_empty block
      then some (record s { list_raw_data = pop_front s.list_raw_data })
      else (elim (filter_message deal reject block s.current_read_offset s.reader) [
        | none ↦ none
        | some (r, offset) ↦ some (after_block block s (r, offset))
      ])

  -- while (--nMessage>=0 && nCurrSz!=0)
  pub take_blocks : ℕ → Inbox S → Option (Inbox S)
  take_blocks zero s = some s
  take_blocks (suc n) s = elim (take_block s) [
    | none ↦ none
    | some s' ↦ let rest = take_blocks n s' in if is_empty s'.list_raw_data then some s' else rest
  ]

  pub run : Bool → Inbox S → Option (Inbox S × RunResult)
  run term_set s = if term_set then some (s, done) else (elim (take_blocks message_block_size s) [
    | none ↦ none
    | some s' ↦ some (s', if is_empty s'.list_raw_data then done else again)
  ])
