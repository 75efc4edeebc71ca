-- ===== src/Smartlink/Run/Turn.antt =====
-- What one turn of st_clientNode_baseTrans::run does with the queue.
use zpserver.Common.{
  ℕ, zero, suc, ◌-◌, ◌⊎◌, inl, inr, ◌≡◌, refl, ap, ◌∙◌, false, List, [], ◌∷◌, arith, if◌then◌else◌,
  length, is_empty, take, drop,
}
use zpserver.Cluster.Run.{done, again, pop_front, front}
use zpserver.Smartlink.Frame.{
  Reader, finished, read_past, filter_message, read_blocks, loop, rounds,
}
use zpserver.Smartlink.Frame.Total.{filter_message_ends}
use zpserver.Smartlink.Run.{
  Inbox, TurnEnd, ended, Taken, taken, message_block_size, after_block, take_block, take_blocks,
  run,
}

module _ {S : Type 0} (deal heart_beat reject : Reader S → Reader S) where
  abbrev pub inbox : List (List ℕ) → Reader S → Inbox S
  inbox blocks r = record { list_raw_data = blocks; current_read_offset = 0; reader = r }

  filter_message-nil : (r : Reader S) → filter_message deal heart_beat reject [] 0 r ≡ finished r []
  unfolding filter_message rounds loop
  filter_message-nil r = refl

  after_whole_block :
      (block : List ℕ) (blocks : List (List ℕ)) (r r' : Reader S)
      → after_block block (inbox (block ∷ blocks) r) r' (length block - 0) ≡ inbox blocks r'
  unfolding after_block pop_front
  after_whole_block block blocks r r' = ground arith

  -- A block read from its beginning: the reader that comes back, and the shorter queue.
  take_block-cons :
      (block : List ℕ) (blocks : List (List ℕ)) (r r' : Reader S)
      → filter_message deal heart_beat reject block 0 r ≡ finished r' []
      → take_block deal heart_beat reject (inbox (block ∷ blocks) r) ≡ taken (inbox blocks r')
  unfolding take_block front pop_front
  take_block-cons [] blocks r r' e = ground (arith, filter_message-nil r, e)
  take_block-cons (b ∷ bs) blocks r r' e =
      rw (e, take_block) (ap taken (after_whole_block (b ∷ bs) blocks r r'))

  take_block-nil :
      (r : Reader S) → take_block deal heart_beat reject (inbox [] r) ≡ taken (inbox [] r)
  unfolding take_block front pop_front
  take_block-nil r = refl

  -- Reading that finishes did so at the end of its first block.
  first_finished :
      (block : List ℕ) (blocks : List (List ℕ)) (r r' : Reader S) (rest : List ℕ)
      → read_blocks deal heart_beat reject r (block ∷ blocks) ≡ finished r' rest
      → (m : Reader S) × (filter_message deal heart_beat reject block 0 r ≡ finished m [])
        × (read_blocks deal heart_beat reject m blocks ≡ finished r' rest)
  unfolding read_blocks
  first_finished block blocks r r' rest e =
      elim (filter_message_ends deal heart_beat reject block 0 r) [
        | inl (m, f) ↦ (m, f, rw (f, read_blocks) at e)
        | inr past ↦ absurd (ground (arith, rw (past, read_blocks) at e))
      ]

  take_blocks-step :
      (n : ℕ) (s s' : Inbox S)
      → take_block deal heart_beat reject s ≡ taken s'
      → take_blocks deal heart_beat reject (suc n) s
        ≡ (if is_empty s'.list_raw_data then taken s' else take_blocks deal heart_beat reject n s')
  unfolding take_blocks
  take_blocks-step n s s' e = rw (e, take_blocks) refl

  read_blocks-nil :
      (n : ℕ) (r : Reader S) → read_blocks deal heart_beat reject r (take n []) ≡ finished r []
  unfolding read_blocks
  read_blocks-nil zero r = refl
  read_blocks-nil (suc n) r = refl

  drop-nil : (n : ℕ) → ◌≡◌ {A = List (List ℕ)} (drop n []) []
  drop-nil zero = refl
  drop-nil (suc n) = refl

  -- The turn ends with its queue, or goes on.
  last_step :
      (n : ℕ) (blocks : List (List ℕ)) (m r' : Reader S) (rest : List ℕ)
      → read_blocks deal heart_beat reject m (take n blocks) ≡ finished r' rest
      → take_blocks deal heart_beat reject n (inbox blocks m) ≡ taken (inbox (drop n blocks) r')
      → (if is_empty blocks
          then taken (inbox blocks m)
          else take_blocks deal heart_beat reject n (inbox blocks m))
        ≡ taken (inbox (drop n blocks) r')
  last_step n [] m r' rest e next = ground (arith, e, read_blocks-nil n m, drop-nil n)
  last_step n (b ∷ bs) m r' rest e next = next

  take_blocks-read :
      (n : ℕ) (blocks : List (List ℕ)) (r r' : Reader S) (rest : List ℕ)
      → read_blocks deal heart_beat reject r (take n blocks) ≡ finished r' rest
      → take_blocks deal heart_beat reject n (inbox blocks r) ≡ taken (inbox (drop n blocks) r')
  unfolding take_blocks read_blocks
  take_blocks-read zero blocks r r' rest e = ground (arith, e)
  take_blocks-read (suc n) [] r r' rest e =
      take_blocks-step n (inbox [] r) (inbox [] r) (take_block-nil r) ∙ ground (arith, e)
  take_blocks-read (suc n) (block ∷ blocks) r r' rest e =
      let (m, f, g) = first_finished block (take n blocks) r r' rest e in
      take_blocks-step n (inbox (block ∷ blocks) r) (inbox blocks m)
        (take_block-cons block blocks r m f)
      ∙ last_step n blocks m r' rest g (take_blocks-read n blocks m r' rest g)

  read_blocks_ends :
      (blocks : List (List ℕ)) (r : Reader S)
      → ((r' : Reader S) × (read_blocks deal heart_beat reject r blocks ≡ finished r' []))
        ⊎ (read_blocks deal heart_beat reject r blocks ≡ read_past)
  unfolding read_blocks
  read_blocks_ends [] r = inl (r, refl)
  read_blocks_ends (block ∷ blocks) r =
      elim (filter_message_ends deal heart_beat reject block 0 r) [
        | inl (m, f) ↦ rw (f, read_blocks) (read_blocks_ends blocks m)
        | inr past ↦ inr (rw (past, read_blocks) refl)
      ]

  take_block-past :
      (block : List ℕ) (blocks : List (List ℕ)) (r : Reader S)
      → filter_message deal heart_beat reject block 0 r ≡ read_past
      → take_block deal heart_beat reject (inbox (block ∷ blocks) r) ≡ Taken.past_block
  unfolding take_block front
  take_block-past [] blocks r e = absurd (ground (arith, e, filter_message-nil r))
  take_block-past (b ∷ bs) blocks r e = rw (e, take_block) refl

  past_step :
      (n : ℕ) (blocks : List (List ℕ)) (m : Reader S)
      → read_blocks deal heart_beat reject m (take n blocks) ≡ read_past
      → take_blocks deal heart_beat reject n (inbox blocks m) ≡ Taken.past_block
      → (if is_empty blocks
          then taken (inbox blocks m)
          else take_blocks deal heart_beat reject n (inbox blocks m))
        ≡ Taken.past_block
  past_step n [] m e next = absurd (ground (arith, e, read_blocks-nil n m))
  past_step n (b ∷ bs) m e next = next

  take_blocks-past :
      (n : ℕ) (blocks : List (List ℕ)) (r : Reader S)
      → read_blocks deal heart_beat reject r (take n blocks) ≡ read_past
      → take_blocks deal heart_beat reject n (inbox blocks r) ≡ Taken.past_block
  unfolding take_blocks read_blocks
  take_blocks-past zero blocks r e = absurd (ground (arith, e))
  take_blocks-past (suc n) [] r e = absurd (ground (arith, e))
  take_blocks-past (suc n) (block ∷ blocks) r e =
      elim (filter_message_ends deal heart_beat reject block 0 r) [
        | inr past ↦ rw (take_block-past block blocks r past, take_blocks) refl
        | inl (m, f) ↦
            let g = rw (f, read_blocks) at e in
            take_blocks-step n (inbox (block ∷ blocks) r) (inbox blocks m)
              (take_block-cons block blocks r m f)
            ∙ past_step n blocks m g (take_blocks-past n blocks m g)
      ]

  -- One turn of a node that is not given up, from the start of a block: it reads the first eight
  -- blocks, each to its end, leaves the others in the queue and asks for another turn exactly when
  -- some are left; or one of the eight makes the reader copy from past the block's end.
  pub client_turn :
      (blocks : List (List ℕ)) (r : Reader S)
      → ((r' : Reader S) × (read_blocks deal heart_beat reject r (take message_block_size blocks)
            ≡ finished r' [])
          × (run deal heart_beat reject false (inbox blocks r)
              ≡ ended
                  (inbox (drop message_block_size blocks) r')
                  (if is_empty (drop message_block_size blocks) then done else again)))
        ⊎ ((read_blocks deal heart_beat reject r (take message_block_size blocks) ≡ read_past)
            × (run deal heart_beat reject false (inbox blocks r) ≡ TurnEnd.past_block))
  unfolding run
  client_turn blocks r = elim (read_blocks_ends (take message_block_size blocks) r) [
    | inl (r', e) ↦ inl (r', e, rw (take_blocks-read message_block_size blocks r r' [] e, run) refl)
    | inr past ↦ inr (past, rw (take_blocks-past message_block_size blocks r past, run) refl)
  ]
