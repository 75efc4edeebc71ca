-- ===== src/Cluster/Frame/Stream/Peel.antt =====
-- One byte at a time: a round of zp_ClusterNode::filter_message on `b ∷ rest` is a step of the
-- byte machine on `b`, and then a round on `rest`.
use zpserver.Common.{
  ℕ, zero, suc, ◌+◌, ◌-◌, ◌≤◌, ◌<◌, ◌≡◌, refl, ap, sym, ◌∙◌, ◌⊎◌, inl, inr, true, false, List, [],
  ◌∷◌, append_assoc, append-nil, arith, ltb, ◌==◌, ==→eq, length, take, is_empty, Bool-cases,
}
use zpserver.Cluster.Frame.{
  Reader, copy, receive_mark, load_mark, load_header, bit_left, start_new, payload, fill_header,
  valid_message, dispatch, after_mark, round, is_positive, mark_value, cap_to,
}
use zpserver.Cluster.Frame.Total.{fill_header_skip}
use zpserver.Cluster.Frame.Stream.{push}

cap_to_done : (size n : ℕ) → 7 ≤ size → cap_to (7 - size) n ≡ 0
cap_to_done size n h = ground arith

module _ {S : Type 0} where
  copy-push :
      (n b : ℕ) (r : Reader S) (rest : List ℕ) → copy (suc n) r (b ∷ rest) ≡ copy n (push r b) rest
  unfolding copy push
  copy-push n b r rest = ground (arith, append_assoc r.current_block (b ∷ []) (take n rest))

  copy-push_pred :
      (n b : ℕ) (r : Reader S) (rest : List ℕ)
      → 0 < n
      → copy n r (b ∷ rest) ≡ copy (n - 1) (push r b) rest
  copy-push_pred zero b r rest h = absurd (omega arith)
  copy-push_pred (suc n) b r rest h =
      let e : suc n - 1 ≡ n = omega arith in rw e (copy-push n b r rest)

  pub copy-zero : (r : Reader S) (rest : List ℕ) → copy 0 r rest ≡ (r, rest)
  unfolding copy
  copy-zero r rest = ground (arith, append-nil r.current_block)

  fill_header-eq :
      (r : Reader S) (rest : List ℕ)
      → r.current_message_size < 7
      → fill_header r rest ≡ copy (cap_to (7 - r.current_message_size) (length rest)) r rest
  unfolding fill_header
  fill_header-eq r [] h = ground (arith, copy-zero r [])
  fill_header-eq r (b ∷ rest) h = ground arith

  fill_header-nil : (r : Reader S) → fill_header r [] ≡ (r, [])
  unfolding fill_header
  fill_header-nil r = ground arith

  cap_to-pred :
      (r : Reader S) (b : ℕ) (rest : List ℕ)
      → r.current_message_size < 7
      → cap_to (7 - r.current_message_size) (length (b ∷ rest)) - 1
        ≡ cap_to (7 - (push r b).current_message_size) (length rest)
  unfolding push
  cap_to-pred r b rest h = ground arith

  receive_mark-push :
      (b : ℕ) (r : Reader S) (rest : List ℕ)
      → ltb r.current_message_size 2 ≡ true
      → receive_mark r (b ∷ rest) ≡ receive_mark (push r b) rest
  unfolding receive_mark push
  receive_mark-push b r rest h = rw h

  receive_mark_done :
      (r : Reader S) (rest : List ℕ)
      → ltb r.current_message_size 2 ≡ false
      → receive_mark r rest ≡ (r, rest)
  unfolding receive_mark
  receive_mark_done r [] h = refl
  receive_mark_done r (b ∷ rest) h = rw h

  pub bit_left-push :
      (b : ℕ) (r : Reader S)
      → is_positive (bit_left r) ≡ true
      → bit_left (push r b) + 1 ≡ bit_left r
  unfolding bit_left push
  bit_left-push b r h = ground arith

module _ {S : Type 0} (deal reject : Reader S → Reader S) where
  -- Two bytes or more, and a good mark: the round is the branch of the valid message.
  round_valid :
      (r : Reader S) (rest : List ℕ)
      → ltb r.current_message_size 2 ≡ false
      → (r.current_message_size ≡ 2 → load_mark r ≡ r)
      → (r.current_header.mark == mark_value) ≡ true
      → round deal reject r rest ≡ valid_message deal reject (fill_header r rest)
  unfolding round after_mark dispatch
  round_valid r rest two m good = elim (Bool-cases (r.current_message_size == 2)) [
    | inl e ↦ rw (receive_mark_done r rest two, two, e, m (ground arith), good) refl
    | inr e ↦ rw (receive_mark_done r rest two, two, e, good) refl
  ]

  -- With the header there, it is the payload's part.
  pub round-payload :
      (r : Reader S) (b : ℕ) (rest : List ℕ)
      → 7 ≤ r.current_message_size
      → (r.current_message_size ≡ 7 → load_header r ≡ r)
      → (r.current_header.mark == mark_value) ≡ true
      → round deal reject r (b ∷ rest) ≡ payload deal reject r (b ∷ rest)
  unfolding valid_message
  round-payload r b rest long h good =
      rw
        (
          round_valid r (b ∷ rest) (ground arith) (λ e. absurd (omega arith)) good,
          fill_header_skip r (b ∷ rest) long,
        )
        (elim (Bool-cases (r.current_message_size == 7)) [
          | inl e ↦ ground (arith, h (==→eq _ _ e))
          | inr e ↦ ground arith
        ])

  -- The last byte of a message.
  payload_last :
      (r : Reader S) (b : ℕ) (rest : List ℕ)
      → bit_left r ≡ 1
      → payload deal reject r (b ∷ rest) ≡ (start_new (deal (push r b)), rest)
  unfolding payload copy push
  payload_last r b rest h = ground arith

  payload_more :
      (r : Reader S) (b c : ℕ) (rest : List ℕ)
      → 2 ≤ bit_left r
      → is_positive (bit_left r) ≡ true
      → payload deal reject r (b ∷ c ∷ rest) ≡ payload deal reject (push r b) (c ∷ rest)
  unfolding payload
  payload_more r b c rest two h = ground (
    arith,
    bit_left-push b r h,
    copy-push_pred (bit_left r) b r (c ∷ rest),
    copy-push_pred (length (b ∷ c ∷ rest)) b r (c ∷ rest),
  )

-- How a round on `b ∷ rest` goes on after the byte: it ends with it, or it is a round on the rest.
abbrev pub Peels :
    {S : Type 0}
    → (Reader S → Reader S)
    → (Reader S → Reader S)
    → Reader S
    → ℕ
    → List ℕ
    → Reader S
    → Type 0
Peels deal reject r b rest r' =
    (round deal reject r (b ∷ rest) ≡ (r', rest))
    ⊎ ((is_empty rest ≡ false) × (round deal reject r (b ∷ rest) ≡ round deal reject r' rest))

module _ {S : Type 0} (deal reject : Reader S → Reader S) where
  after_mark_short :
      (r : Reader S) (rest : List ℕ)
      → ltb r.current_message_size 2 ≡ true
      → after_mark deal reject (r, rest) ≡ (r, rest)
  unfolding after_mark
  after_mark_short r rest h = rw h

  valid_message_short :
      (r : Reader S) (rest : List ℕ)
      → r.current_message_size < 7
      → valid_message deal reject (r, rest) ≡ (r, rest)
  unfolding valid_message
  valid_message_short r rest h = ground arith

  round-push :
      (r : Reader S) (b : ℕ) (rest : List ℕ)
      → r.current_message_size < 2
      → round deal reject r (b ∷ rest) ≡ after_mark deal reject (receive_mark (push r b) rest)
  unfolding round
  round-push r b rest h = ap (after_mark deal reject) (receive_mark-push b r rest (ground arith))

  pub peel_first :
      (r : Reader S) (b : ℕ) (rest : List ℕ)
      → r.current_message_size ≡ 0
      → Peels deal reject r b rest (push r b)
  unfolding push receive_mark round after_mark
  peel_first r b [] z =
      inl (round-push r b [] (omega arith) ∙ after_mark_short (push r b) [] (ground arith))
  peel_first r b (c ∷ rest) z = inr (refl, round-push r b (c ∷ rest) (omega arith))

  -- The second byte completes the mark.
  round_mark :
      (r : Reader S) (b : ℕ) (rest : List ℕ)
      → r.current_message_size ≡ 1
      → ((load_mark (push r b)).current_header.mark == mark_value) ≡ true
      → round deal reject r (b ∷ rest)
        ≡ valid_message deal reject (fill_header (load_mark (push r b)) rest)
  unfolding after_mark dispatch push
  round_mark r b rest one good =
      rw (round-push r b rest (omega arith), receive_mark_done (push r b) rest (ground arith))
        (ground arith)

  pub peel_mark :
      (r : Reader S) (b : ℕ) (rest : List ℕ)
      → r.current_message_size ≡ 1
      → ((load_mark (push r b)).current_header.mark == mark_value) ≡ true
      → Peels deal reject r b rest (load_mark (push r b))
  unfolding push load_mark
  peel_mark r b [] one good = inl (
      rw (round_mark r b [] one good, fill_header-nil (load_mark (push r b)))
        (valid_message_short (load_mark (push r b)) [] (omega arith)))
  peel_mark r b (c ∷ rest) one good = inr (
    refl,
    round_mark r b (c ∷ rest) one good
        ∙ sym (
            round_valid deal reject (load_mark (push r b)) (c ∷ rest) (ground arith) (λ _. refl)
              good),
  )

  -- Up to the end of the header.
  round_header :
      (r : Reader S) (b : ℕ) (rest : List ℕ)
      → 2 ≤ r.current_message_size
      → r.current_message_size < 7
      → (r.current_message_size ≡ 2 → load_mark r ≡ r)
      → (r.current_header.mark == mark_value) ≡ true
      → round deal reject r (b ∷ rest)
        ≡ valid_message deal reject
            (copy (cap_to (7 - (push r b).current_message_size) (length rest)) (push r b) rest)
  round_header r b rest two seven m good = rw (
    round_valid deal reject r (b ∷ rest) (ground arith) m good,
    fill_header-eq r (b ∷ rest) seven,
    copy-push_pred (cap_to (7 - r.current_message_size) (length (b ∷ rest))) b r rest
        (ground arith),
    cap_to-pred r b rest seven,
  )

  pub peel_header :
      (r : Reader S) (b : ℕ) (rest : List ℕ)
      → 2 ≤ r.current_message_size
      → r.current_message_size < 6
      → (r.current_message_size ≡ 2 → load_mark r ≡ r)
      → (r.current_header.mark == mark_value) ≡ true
      → Peels deal reject r b rest (push r b)
  unfolding push
  peel_header r b rest two six m good = elim rest as (λ rs. Peels deal reject r b rs (push r b)) [
    | [] ↦ inl (
        rw
          (
            round_header r b [] two (omega arith) m good,
            ← fill_header-eq (push r b) [] (omega arith),
            fill_header-nil (push r b),
          )
          (valid_message_short (push r b) [] (omega arith)))
    | c ∷ cs ↦ inr (
      refl,
      rw (
        round_header r b (c ∷ cs) two (omega arith) m good,
        round_valid deal reject (push r b) (c ∷ cs) (ground arith) (λ e. absurd (omega arith)) good,
        fill_header-eq (push r b) (c ∷ cs) (omega arith),
      ),
    )
  ]

  -- The last byte of the header.
  round_header_end :
      (r : Reader S) (b : ℕ) (rest : List ℕ)
      → r.current_message_size ≡ 6
      → (r.current_header.mark == mark_value) ≡ true
      → round deal reject r (b ∷ rest) ≡ valid_message deal reject (push r b, rest)
  round_header_end r b rest six good = rw (
    round_header r b rest (omega arith) (omega arith) (λ e. absurd (omega arith)) good,
    cap_to_done (push r b).current_message_size (length rest) (unfold push in omega arith),
    copy-zero (push r b) rest,
  )

  payload_short :
      (r : Reader S) (b : ℕ)
      → 2 ≤ bit_left r
      → is_positive (bit_left r) ≡ true
      → deal (push r b) ≡ push r b
      → payload deal reject r (b ∷ []) ≡ (push r b, [])
  unfolding payload
  payload_short r b two left quiet = ground (arith, copy-push 0 b r [], copy-zero (push r b) [])

  pub peel_header_end :
      (r : Reader S) (b : ℕ) (rest : List ℕ)
      → r.current_message_size ≡ 6
      → (r.current_header.mark == mark_value) ≡ true
      → ((load_header (push r b)).current_header.mark == mark_value) ≡ true
      → Peels deal reject r b rest (load_header (push r b))
  unfolding push load_header valid_message
  peel_header_end r b rest six good good' =
      elim rest as (λ rs. Peels deal reject r b rs (load_header (push r b))) [
        | [] ↦ inl (round_header_end r b [] six good ∙ ground arith)
        | c ∷ cs ↦ inr (
          refl,
          rw
              (
                round_header_end r b (c ∷ cs) six good,
                round-payload deal reject (load_header (push r b)) c cs (omega arith) (λ _. refl)
                    good',
              )
              (ground arith),
        )
      ]

  -- A byte of the payload that is not the last.
  pub peel_payload :
      (r : Reader S) (b : ℕ) (rest : List ℕ)
      → 7 ≤ r.current_message_size
      → (r.current_message_size ≡ 7 → load_header r ≡ r)
      → (r.current_header.mark == mark_value) ≡ true
      → 2 ≤ bit_left r
      → is_positive (bit_left r) ≡ true
      → deal (push r b) ≡ push r b
      → Peels deal reject r b rest (push r b)
  unfolding push
  peel_payload r b rest long h good two left quiet =
      elim rest as (λ rs. Peels deal reject r b rs (push r b)) [
        | [] ↦
            inl
              (rw (round-payload deal reject r b [] long h good) (payload_short r b two left quiet))
        | c ∷ cs ↦ inr (
          refl,
          rw
              (
                round-payload deal reject r b (c ∷ cs) long h good,
                round-payload deal reject (push r b) c cs (omega arith) (λ e. absurd (omega arith))
                    good,
              )
              (payload_more deal reject r b c cs two left),
        )
      ]

  -- The last byte of a message: it is dealt, and the reader starts anew.
  pub peel_last :
      (r : Reader S) (b : ℕ) (rest : List ℕ)
      → 7 ≤ r.current_message_size
      → (r.current_message_size ≡ 7 → load_header r ≡ r)
      → (r.current_header.mark == mark_value) ≡ true
      → bit_left r ≡ 1
      → Peels deal reject r b rest (start_new (deal (push r b)))
  peel_last r b rest long h good one =
      inl (round-payload deal reject r b rest long h good ∙ payload_last deal reject r b rest one)
