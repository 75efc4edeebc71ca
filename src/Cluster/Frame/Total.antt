-- ===== src/Cluster/Frame/Total.antt =====
-- The reading loop of zp_ClusterNode::filter_message ends, and takes the whole block.
use zpserver.Common.{
  ℕ, zero, suc, ◌+◌, ◌-◌, ◌≤◌, ◌<◌, ◌≡◌, refl, ap, ◌∙◌, ◌⊎◌, inl, inr, some, List, [], ◌∷◌, ◌++◌,
  arith, ltb, ◌==◌, if◌then◌else◌, length, length-drop, drop, Bool-cases,
}
use zpserver.Cluster.Frame.{
  Reader, copy, receive_mark, load_mark, load_header, bit_left, start_new, payload, fill_header,
  valid_message, dispatch, after_mark, round, loop, rounds, filter_message,
}

-- What a round makes smaller: the bytes left, or a message that is over with nothing read.
abbrev measure {ℓ} : {S : Type ℓ} → Reader S × List ℕ → ℕ
measure (r, rest) = length rest + length rest + (if r.current_message_size == 0 then 0 else 1)

module _ {ℓ} {S : Type ℓ} where
  copy_shrinks : (n : ℕ) (r : Reader S) (rest : List ℕ) → length (copy n r rest).1 ≡ length rest - n
  unfolding copy
  copy_shrinks n r rest = length-drop n rest

  receive_mark-le : (r : Reader S) (rest : List ℕ) → length (receive_mark r rest).1 ≤ length rest
  unfolding receive_mark
  receive_mark-le r [] = omega arith
  receive_mark-le r (b ∷ rest) = ground (
    arith,
    receive_mark-le
        (record r {
          current_message_size = r.current_message_size + 1;
          current_block = r.current_block ++ b ∷ [];
        })
        rest,
  )

module _ {ℓ} {S : Type ℓ} where
  fill_header-le : (r : Reader S) (rest : List ℕ) → length (fill_header r rest).1 ≤ length rest
  unfolding fill_header copy
  fill_header-le r rest =
      ground (arith, length-drop (7 - r.current_message_size) rest, length-drop (length rest) rest)

  fill_header-lt :
      (r : Reader S) (b : ℕ) (rest : List ℕ)
      → r.current_message_size < 7
      → length (fill_header r (b ∷ rest)).1 < length (b ∷ rest)
  unfolding fill_header copy
  fill_header-lt r b rest h = ground (
    arith,
    length-drop (7 - r.current_message_size) (b ∷ rest),
    length-drop (length (b ∷ rest)) (b ∷ rest),
  )

  pub fill_header_skip :
      (r : Reader S) (rest : List ℕ) → 7 ≤ r.current_message_size → fill_header r rest ≡ (r, rest)
  unfolding fill_header
  fill_header_skip r rest h = ground arith

  -- Either a byte is taken, or the first two are there already.
  receive_mark_progress :
      (r : Reader S) (b : ℕ) (rest : List ℕ)
      → (length (receive_mark r (b ∷ rest)).1 < length (b ∷ rest))
        ⊎ ((2 ≤ r.current_message_size) × (receive_mark r (b ∷ rest) ≡ (r, b ∷ rest)))
  unfolding receive_mark
  receive_mark_progress r b rest = elim (Bool-cases (ltb r.current_message_size 2)) [
    | inl one_more ↦ inl (
        rw one_more (
          omega (
            arith,
            receive_mark-le
                (record r {
                  current_message_size = r.current_message_size + 1;
                  current_block = r.current_block ++ b ∷ [];
                })
                rest,
          )))
    | inr two ↦ inr (ground arith, rw two refl)
  ]

module _ {ℓ} {S : Type ℓ} (deal reject : Reader S → Reader S) where
  payload-measure :
      (r : Reader S) (b : ℕ) (rest : List ℕ)
      → 0 < r.current_message_size
      → measure (payload deal reject r (b ∷ rest)) < measure (r, b ∷ rest)
  unfolding payload start_new copy
  payload-measure r b rest h =
      ground
        (arith, length-drop (bit_left r) (b ∷ rest), length-drop (length (b ∷ rest)) (b ∷ rest))

  payload-le : (r : Reader S) (rest : List ℕ) → length (payload deal reject r rest).1 ≤ length rest
  unfolding payload start_new copy
  payload-le r rest = ground (arith, length-drop (bit_left r) rest, length-drop (length rest) rest)

  valid_message-le :
      (r : Reader S) (rest : List ℕ) → length (valid_message deal reject (r, rest)).1 ≤ length rest
  unfolding valid_message
  valid_message-le r rest = ground (arith, payload-le r rest, payload-le (load_header r) rest)

  dispatch-le :
      (r : Reader S) (rest : List ℕ) → length (dispatch deal reject r rest).1 ≤ length rest
  unfolding dispatch
  dispatch-le r rest =
      ground (
        arith,
        fill_header-le r rest,
        valid_message-le (fill_header r rest).0 (fill_header r rest).1,
      )

  valid_message-measure :
      (r : Reader S) (b : ℕ) (rest : List ℕ)
      → 7 ≤ r.current_message_size
      → measure (valid_message deal reject (r, b ∷ rest)) < measure (r, b ∷ rest)
  unfolding valid_message load_header
  valid_message-measure r b rest h =
      ground (arith, payload-measure r b rest, payload-measure (load_header r) b rest)

  -- With two bytes read and more at hand, the round makes progress.
  dispatch-measure :
      (r : Reader S) (b : ℕ) (rest : List ℕ)
      → 2 ≤ r.current_message_size
      → measure (dispatch deal reject r (b ∷ rest)) < measure (r, b ∷ rest)
  unfolding dispatch start_new
  dispatch-measure r b rest h = elim (Bool-cases (ltb r.current_message_size 7)) [
    | inl short ↦ ground (
      arith,
      fill_header-lt r b rest,
      valid_message-le (fill_header r (b ∷ rest)).0 (fill_header r (b ∷ rest)).1,
    )
    | inr long ↦ ground (arith, fill_header_skip r (b ∷ rest), valid_message-measure r b rest)
  ]

  after_mark-le : (p : Reader S × List ℕ) → length (after_mark deal reject p).1 ≤ length p.1
  unfolding after_mark
  after_mark-le (r, rest) = elim (Bool-cases (ltb r.current_message_size 2)) [
    | inl short ↦ rw short (omega arith)
    | inr two ↦ rw two (dispatch-le (if r.current_message_size == 2 then load_mark r else r) rest)
  ]

  round-measure :
      (r : Reader S) (b : ℕ) (rest : List ℕ)
      → measure (round deal reject r (b ∷ rest)) < measure (r, b ∷ rest)
  unfolding round after_mark load_mark
  round-measure r b rest = elim (receive_mark_progress r b rest) [
    | inl shorter ↦ ground (arith, after_mark-le (receive_mark r (b ∷ rest)))
    | inr (two, same) ↦
        rw same (ground (arith, dispatch-measure r b rest, dispatch-measure (load_mark r) b rest))
  ]

  pub loop_total :
      (fuel : ℕ) (r : Reader S) (rest : List ℕ)
      → measure (r, rest) < fuel
      → (r' : Reader S) × (loop deal reject fuel r rest ≡ some (r', []))
  unfolding loop
  loop_total zero r rest h = absurd (omega arith)
  loop_total (suc fuel) r [] h = (r, refl)
  loop_total (suc fuel) r (b ∷ rest) h =
      loop_total fuel (round deal reject r (b ∷ rest)).0 (round deal reject r (b ∷ rest)).1
        (omega (arith, round-measure r b rest))

  pub filter_message-loop :
      (block : List ℕ) (offset : ℕ) (r r' : Reader S)
      → loop deal reject (rounds (drop offset block)) r (drop offset block) ≡ some (r', [])
      → filter_message deal reject block offset r ≡ some (r', offset + length (drop offset block))
  unfolding filter_message
  filter_message-loop block offset r r' e = ground arith

  pub filter_message-whole :
      (block : List ℕ) (r r' : Reader S)
      → loop deal reject (rounds block) r block ≡ some (r', [])
      → filter_message deal reject block 0 r ≡ some (r', length block)
  filter_message-whole block r r' e =
      filter_message-loop block 0 r r' e ∙ ap (λ n. some (r', n)) (omega arith)

  pub whole_total :
      (block : List ℕ) (r : Reader S)
      → (r' : Reader S) × (filter_message deal reject block 0 r ≡ some (r', length block))
  unfolding rounds
  whole_total block r =
      let (r', e) = loop_total (rounds block) r block (ground arith) in
      (r', filter_message-whole block r r' e)

  -- Whatever the state, the block and the handlers, reading a block ends, and the offset that
  -- comes back is the block's length, or the offset before if that is past it: `run` drops each block
  -- after one call.
  pub filter_message_total :
      (block : List ℕ) (offset : ℕ) (r : Reader S)
      → (r' : Reader S) × (filter_message deal reject block offset r
          ≡ some (r', offset + length (drop offset block)))
  unfolding rounds
  filter_message_total block offset r =
      let (r', e) = loop_total (rounds (drop offset block)) r (drop offset block) (ground arith) in
      (r', filter_message-loop block offset r r' e)
