-- ===== src/Cluster/Run/Turn.antt =====
-- What one turn of zp_ClusterNode::run does with the queue.
use zpserver.Common.{
  ℕ, zero, suc, ◌≡◌, refl, ◌∙◌, false, some, List, [], ◌∷◌, arith, if◌then◌else◌, length, is_empty,
  take, drop,
}
use zpserver.Cluster.Frame.{Reader, filter_message, loop, rounds}
use zpserver.Cluster.Frame.Total.{whole_total}
use zpserver.Cluster.Frame.Stream.Fragments.{feed}
use zpserver.Cluster.Run.{Inbox, done, again, message_block_size, take_block, take_blocks, run}

module _ {S : Type 0} (deal reject : Reader S → Reader S) where
  abbrev pub inbox : List (List ℕ) → Reader S → Inbox S
  inbox blocks r = record { list_raw_data = blocks; current_read_offset = 0; reader = r }

  filter_message-nil : (r : Reader S) → filter_message deal reject [] 0 r ≡ some (r, 0)
  unfolding filter_message rounds loop
  filter_message-nil r = refl

  -- A block read from its beginning: the reader that comes back, and the shorter queue.
  take_block-cons :
      (block : List ℕ) (blocks : List (List ℕ)) (r r' : Reader S)
      → filter_message deal reject block 0 r ≡ some (r', length block)
      → take_block deal reject (inbox (block ∷ blocks) r) ≡ some (inbox blocks r')
  unfolding take_block
  take_block-cons [] blocks r r' e = ground (arith, filter_message-nil r)
  take_block-cons (b ∷ bs) blocks r r' e = ground arith

  take_block-nil : (r : Reader S) → take_block deal reject (inbox [] r) ≡ some (inbox [] r)
  unfolding take_block
  take_block-nil r = refl

  feed-nil : (n : ℕ) (r : Reader S) → feed deal reject r (take n []) ≡ some r
  unfolding feed
  feed-nil zero r = refl
  feed-nil (suc n) r = refl

  feed_total :
      (blocks : List (List ℕ)) (r : Reader S)
      → (r' : Reader S) × (feed deal reject r blocks ≡ some r')
  unfolding feed
  feed_total [] r = (r, refl)
  feed_total (block ∷ blocks) r =
      let (m, e) = whole_total deal reject block r in
      let (r', f) = feed_total blocks m in (r', rw (e, feed) f)

  drop-nil : (n : ℕ) → ◌≡◌ {A = List (List ℕ)} (drop n []) []
  drop-nil zero = refl
  drop-nil (suc n) = refl

  take_blocks-step :
      (n : ℕ) (s s' : Inbox S)
      → take_block deal reject s ≡ some s'
      → take_blocks deal reject (suc n) s
        ≡ (if is_empty s'.list_raw_data then some s' else take_blocks deal reject n s')
  unfolding take_blocks
  take_blocks-step n s s' e = ground arith

  last_step :
      (n : ℕ) (blocks : List (List ℕ)) (m r' : Reader S)
      → feed deal reject m (take n blocks) ≡ some r'
      → take_blocks deal reject n (inbox blocks m) ≡ some (inbox (drop n blocks) r')
      → (if is_empty blocks
          then some (inbox blocks m)
          else take_blocks deal reject n (inbox blocks m))
        ≡ some (inbox (drop n blocks) r')
  last_step n [] m r' e rest = ground (arith, feed-nil n m, drop-nil n)
  last_step n (b ∷ bs) m r' e rest = rest

  turn_result :
      (blocks : List (List ℕ)) (r r' : Reader S)
      → take_blocks deal reject message_block_size (inbox blocks r)
        ≡ some (inbox (drop message_block_size blocks) r')
      → run deal reject false (inbox blocks r)
        ≡ some (
          inbox (drop message_block_size blocks) r',
          if is_empty (drop message_block_size blocks) then done else again,
        )
  unfolding run
  turn_result blocks r r' e = rw (e, run)

  take_blocks-feed :
      (n : ℕ) (blocks : List (List ℕ)) (r r' : Reader S)
      → feed deal reject r (take n blocks) ≡ some r'
      → take_blocks deal reject n (inbox blocks r) ≡ some (inbox (drop n blocks) r')
  unfolding take_blocks feed
  take_blocks-feed zero blocks r r' e = ground arith
  take_blocks-feed (suc n) [] r r' e =
      take_blocks-step n (inbox [] r) (inbox [] r) (take_block-nil r) ∙ ground arith
  take_blocks-feed (suc n) (block ∷ blocks) r r' e =
      let (m, f) = whole_total deal reject block r in
      let rest = take_blocks-feed n blocks m r' (rw (f, feed) at e) in
      take_blocks-step n (inbox (block ∷ blocks) r) (inbox blocks m)
        (take_block-cons block blocks r m f)
      ∙ last_step n blocks m r' (rw (f, feed) at e) rest

  -- One turn of a node that is not given up, from the start of a block, reads the first eight blocks, each to its end, and leaves the others in the queue; it
  -- asks for another turn exactly when some are left. It always ends.
  pub run_turn :
      (blocks : List (List ℕ)) (r : Reader S)
      → (r' : Reader S) × (feed deal reject r (take message_block_size blocks) ≡ some r')
        × (run deal reject false (inbox blocks r)
            ≡ some (
              inbox (drop message_block_size blocks) r',
              if is_empty (drop message_block_size blocks) then done else again,
            ))
  unfolding run
  run_turn blocks r =
      let (r', e) = feed_total (take message_block_size blocks) r in
      (r', e, turn_result blocks r r' (take_blocks-feed message_block_size blocks r r' e))
