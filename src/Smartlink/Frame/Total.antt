-- ===== src/Smartlink/Frame/Total.antt =====
-- The reading loop of st_clientNode_baseTrans::filter_message ends.
use zpserver.Common.{
  ℕ, zero, suc, ◌+◌, ◌-◌, ◌≤◌, ◌<◌, ◌≡◌, refl, ◌⊎◌, inl, inr, some, Option, List, [], ◌∷◌, ◌++◌,
  arith, ltb, ◌==◌, if◌then◌else◌, length, length-drop, drop, Bool-cases, Option-cases,
}
use zpserver.Smartlink.Frame.{
  Reader, finished, read_past, copy, receive_mark, load_mark, load_header, bytes_left, start_new,
  payload, fill_header, fill_heart_beat, heart_beating, trans_message, dispatch, after_mark, round,
  loop, rounds, filter_message,
}

-- What a round makes smaller: the bytes left, or a message that is over with nothing read.
abbrev measure {ℓ} : {S : Type ℓ} → Reader S × List ℕ → ℕ
measure (r, rest) = length rest + length rest + (if r.current_message_size == 0 then 0 else 1)

-- The round reads past the block, or it makes the measure less than `m`.
abbrev IsLess {ℓ} : {S : Type ℓ} → ℕ → Option (Reader S × List ℕ) → Type ℓ
IsLess m o = (p : _) → o ≡ some p → measure p < m

module _ {ℓ} {S : Type ℓ} where
  receive_mark-le : (r : Reader S) (rest : List ℕ) → length (receive_mark r rest).1 ≤ length rest
  unfolding receive_mark
  receive_mark-le r [] = omega arith
  receive_mark-le r (b ∷ rest) = ground (
    arith,
    receive_mark-le
        (record r {
          current_message_size = r.current_message_size + 1;
          current_block = r.current_block ++ b ∷ [];
        })
        rest,
  )

  -- Either a byte is taken, or the first two are there already.
  receive_mark_progress :
      (r : Reader S) (b : ℕ) (rest : List ℕ)
      → (length (receive_mark r (b ∷ rest)).1 < length (b ∷ rest))
        ⊎ ((2 ≤ r.current_message_size) × (receive_mark r (b ∷ rest) ≡ (r, b ∷ rest)))
  unfolding receive_mark
  receive_mark_progress r b rest = elim (Bool-cases (ltb r.current_message_size 2)) [
    | inl one_more ↦ inl (
        rw one_more (
          omega (
            arith,
            receive_mark-le
                (record r {
                  current_message_size = r.current_message_size + 1;
                  current_block = r.current_block ++ b ∷ [];
                })
                rest,
          )))
    | inr two ↦ inr (ground arith, rw two refl)
  ]

module _ {ℓ} {S : Type ℓ} where
  fill_header-le : (r : Reader S) (rest : List ℕ) → length (fill_header r rest).1 ≤ length rest
  unfolding fill_header copy
  fill_header-le r rest =
      ground (arith, length-drop (12 - r.current_message_size) rest, length-drop (length rest) rest)

  fill_header-lt :
      (r : Reader S) (b : ℕ) (rest : List ℕ)
      → r.current_message_size < 12
      → length (fill_header r (b ∷ rest)).1 < length (b ∷ rest)
  unfolding fill_header copy
  fill_header-lt r b rest h = ground (
    arith,
    length-drop (12 - r.current_message_size) (b ∷ rest),
    length-drop (length (b ∷ rest)) (b ∷ rest),
  )

  pub fill_header_skip :
      (r : Reader S) (rest : List ℕ) → 12 ≤ r.current_message_size → fill_header r rest ≡ (r, rest)
  unfolding fill_header
  fill_header_skip r rest h = ground arith

  fill_heart_beat-le :
      (r : Reader S) (rest : List ℕ) (p : Reader S × List ℕ)
      → fill_heart_beat r rest ≡ some p
      → length p.1 ≤ length rest
  unfolding fill_heart_beat copy
  fill_heart_beat-le r rest p e = ground (arith, e, length-drop (8 - r.current_message_size) rest)

module _ {ℓ} {S : Type ℓ} (deal heart_beat reject : Reader S → Reader S) where
  payload-measure :
      (r : Reader S) (b : ℕ) (rest : List ℕ)
      → 0 < r.current_message_size
      → measure (payload deal heart_beat reject r (b ∷ rest)) < measure (r, b ∷ rest)
  unfolding payload start_new copy
  payload-measure r b rest h =
      ground
        (arith, length-drop (bytes_left r) (b ∷ rest), length-drop (length (b ∷ rest)) (b ∷ rest))

  payload-le :
      (r : Reader S) (rest : List ℕ)
      → length (payload deal heart_beat reject r rest).1 ≤ length rest
  unfolding payload start_new copy
  payload-le r rest =
      ground (arith, length-drop (bytes_left r) rest, length-drop (length rest) rest)

  trans_message-le :
      (r : Reader S) (rest : List ℕ)
      → length (trans_message deal heart_beat reject (r, rest)).1 ≤ length rest
  unfolding trans_message
  trans_message-le r rest = ground (arith, payload-le r rest, payload-le (load_header r) rest)

  trans_message-measure :
      (r : Reader S) (b : ℕ) (rest : List ℕ)
      → 12 ≤ r.current_message_size
      → measure (trans_message deal heart_beat reject (r, b ∷ rest)) < measure (r, b ∷ rest)
  unfolding trans_message load_header
  trans_message-measure r b rest h =
      ground (arith, payload-measure r b rest, payload-measure (load_header r) b rest)

  trans-measure :
      (r : Reader S) (b : ℕ) (rest : List ℕ)
      → 2 ≤ r.current_message_size
      → measure (trans_message deal heart_beat reject (fill_header r (b ∷ rest)))
        < measure (r, b ∷ rest)
  trans-measure r b rest h = elim (Bool-cases (ltb r.current_message_size 12)) [
    | inl short ↦ ground (
      arith,
      fill_header-lt r b rest,
      trans_message-le (fill_header r (b ∷ rest)).0 (fill_header r (b ∷ rest)).1,
    )
    | inr long ↦ ground (arith, fill_header_skip r (b ∷ rest), trans_message-measure r b rest)
  ]

  heart_beat-measure :
      (r : Reader S) (b : ℕ) (rest : List ℕ) (p : Reader S × List ℕ)
      → 2 ≤ r.current_message_size
      → fill_heart_beat r (b ∷ rest) ≡ some p
      → measure (heart_beating deal heart_beat reject p) < measure (r, b ∷ rest)
  unfolding heart_beating fill_heart_beat start_new copy
  heart_beat-measure r b rest p h e =
      ground (arith, length-drop (8 - r.current_message_size) (b ∷ rest))

  -- With two bytes read and more at hand, the round makes progress.
  dispatch-measure :
      (r : Reader S) (b : ℕ) (rest : List ℕ)
      → 2 ≤ r.current_message_size
      → IsLess (measure (r, b ∷ rest)) (dispatch deal heart_beat reject r (b ∷ rest))
  unfolding dispatch start_new
  dispatch-measure r b rest h p = elim (Bool-cases (r.current_header.mark == 0xBEBE)) [
    | inl beat ↦ elim (Option-cases (fill_heart_beat r (b ∷ rest))) [
      | inl past ↦ λ e. ground (arith, beat, past, e)
      | inr (q, filled) ↦ λ e. ground (arith, beat, filled, e, heart_beat-measure r b rest q)
    ]
    | inr other ↦ λ e. ground (arith, other, e, trans-measure r b rest)
  ]

  dispatch-le :
      (r : Reader S) (rest : List ℕ) (p : Reader S × List ℕ)
      → dispatch deal heart_beat reject r rest ≡ some p
      → length p.1 ≤ length rest
  unfolding dispatch heart_beating
  dispatch-le r rest p = elim (Bool-cases (r.current_header.mark == 0xBEBE)) [
    | inl beat ↦ elim (Option-cases (fill_heart_beat r rest)) [
      | inl past ↦ λ e. ground (arith, beat, past, e)
      | inr (q, filled) ↦ λ e. ground (arith, beat, filled, e, fill_heart_beat-le r rest q)
    ]
    | inr other ↦ λ e. ground (
      arith,
      other,
      e,
      fill_header-le r rest,
      trans_message-le (fill_header r rest).0 (fill_header r rest).1,
    )
  ]

  after_mark-le :
      (q p : Reader S × List ℕ)
      → after_mark deal heart_beat reject q ≡ some p
      → length p.1 ≤ length q.1
  unfolding after_mark
  after_mark-le (r, rest) p e =
      ground (arith, e, dispatch-le r rest p, dispatch-le (load_mark r) rest p)

  round-measure :
      (r : Reader S) (b : ℕ) (rest : List ℕ)
      → IsLess (measure (r, b ∷ rest)) (round deal heart_beat reject r (b ∷ rest))
  unfolding round after_mark load_mark
  round-measure r b rest p = elim (receive_mark_progress r b rest) [
    | inl shorter ↦ λ e. ground (arith, after_mark-le (receive_mark r (b ∷ rest)) p)
    | inr (two, same) ↦ λ e. ground (
      arith,
      rw same at e,
      dispatch-measure r b rest two p,
      dispatch-measure (load_mark r) b rest two p,
    )
  ]

  loop_total :
      (fuel : ℕ) (r : Reader S) (rest : List ℕ)
      → measure (r, rest) < fuel
      → ((r' : Reader S) × (loop deal heart_beat reject fuel r rest ≡ finished r' []))
        ⊎ (loop deal heart_beat reject fuel r rest ≡ read_past)
  unfolding loop
  loop_total zero r rest h = absurd (omega arith)
  loop_total (suc fuel) r [] h = inl (r, refl)
  loop_total (suc fuel) r (b ∷ rest) h =
      elim (Option-cases (round deal heart_beat reject r (b ∷ rest))) [
        | inl past ↦ inr (rw (past, loop) refl)
        | inr (p, e) ↦
            rw (e, loop) (loop_total fuel p.0 p.1 (omega (arith, round-measure r b rest p e)))
      ]

  -- Whatever the state, the block and the handlers, reading a block from an offset comes to an end:
  -- at the end of the block, so that `run` drops it, or with a copy of bytes from past its end.
  pub filter_message_ends :
      (block : List ℕ) (offset : ℕ) (r : Reader S)
      → ((r' : Reader S) × (filter_message deal heart_beat reject block offset r ≡ finished r' []))
        ⊎ (filter_message deal heart_beat reject block offset r ≡ read_past)
  unfolding filter_message rounds
  filter_message_ends block offset r =
      loop_total (rounds (drop offset block)) r (drop offset block) (ground arith)
