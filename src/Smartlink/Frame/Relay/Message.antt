-- ===== src/Smartlink/Frame/Relay/Message.antt =====
-- How a round of filter_message ends within a message that is handed on in pieces.
use zpserver.Common.{
  ℕ, ◌+◌, ◌-◌, ◌≤◌, ◌<◌, ◌≡◌, refl, ap, sym, ◌∙◌, inl, inr, true, false, List, [], ◌∷◌, subst,
  arith, ltb, ◌==◌, length, take, drop, Bool-cases,
}
use zpserver.Smartlink.Frame.{
  Reader, header_of, copy, load_header, is_positive, cap_to, payload, trans_message,
}
use zpserver.Smartlink.Frame.Relay.{IsMessage, IsRelay, Held, copy-Held, header-Held}
use zpserver.Smartlink.Frame.Relay.Rounds.{Mid, Filled, word_in, copy_header}
use zpserver.Smartlink.Frame.Relay.Payload.{
  Within, IsRoundEnd, deal-Dealt, Dealt-Within, Dealt-Over, bytes_left-Held,
}

-- The header in the first bytes.
header_in :
    (m : List ℕ) (n : ℕ) (block : List ℕ)
    → 12 ≤ n
    → n ≤ length m
    → block ≡ take n m
    → header_of block ≡ header_of m
unfolding header_of
header_in m n block long fits e =
    rw
      (
        e,
        word_in 2 0 n m (omega arith) fits,
        word_in 4 2 n m (omega arith) fits,
        word_in 4 6 n m (omega arith) fits,
        word_in 2 10 n m (omega arith) fits,
      )
      refl

module _ {S : Type 0} where
  -- The header is loaded when its bytes are there.
  pub load_header-Mid :
      (m tail later : List ℕ) (user : S) (s n : ℕ) (r : Reader S) (rest : List ℕ)
      → IsMessage m
      → n ≡ 12
      → Mid m tail later user s n r rest
      → Mid m tail later user s n (load_header r) rest
        × ((load_header r).current_header ≡ header_of m)
  unfolding load_header header_of
  load_header-Mid m tail later user s n r rest v at h =
      let loaded =
        header_in m n r.current_block (omega (arith, at)) h.held.fits
          (h.held.block ∙ ap (λ i. drop i (take n m)) (h.in_header (omega (arith, at)))) in
      (
        record {
          held = header-Held m tail later user s n r rest _ h.held;
          unfinished = h.unfinished;
          in_header = h.in_header;
          passed_on = h.passed_on;
          mark = λ e. ap (λ g. g.mark) loaded ∙ v.marked;
          header = λ e. loaded;
        },
        loaded,
      )

module _ {S : Type 0} (deal heart_beat reject : Reader S → Reader S) (IsGood : S → Type 0)
    (IsFor : List ℕ → Type 0) (to : List ℕ → ℕ) (out : ℕ → S → List ℕ)
    (relay : IsRelay S deal IsGood IsFor to out) where
  payload-IsRoundEnd :
      (m tail later : List ℕ) (user : S) (s n : ℕ) (r : Reader S) (b : ℕ) (rest : List ℕ)
      → IsMessage m
      → IsFor m
      → IsGood user
      → 12 ≤ n
      → n < length m
      → r.current_header ≡ header_of m
      → Held m tail later user s n r (b ∷ rest)
      → IsRoundEnd deal heart_beat reject IsGood IsFor to out relay m tail later user s
          (payload deal heart_beat reject r (b ∷ rest))
  unfolding payload
  payload-IsRoundEnd m tail later user s n r b rest v for good past more header h =
      let left = bytes_left-Held m tail later user s n r (b ∷ rest) v header h in
      let k = cap_to (length m - n) (length (b ∷ rest)) in
      let some_left : is_positive (length m - n) ≡ true = ground (arith, v.short) in
      let there : k ≤ length (b ∷ rest) = ground arith in
      let one : 0 < k = ground arith in
      let fits : n + k ≤ length m = ground arith in
      let h1 = copy-Held m tail later user s n k r (b ∷ rest) there fits h in
      let dealt =
        deal-Dealt deal heart_beat reject IsGood IsFor to out relay m tail later user s (n + k)
          (copy k r (b ∷ rest)).0 (copy k r (b ∷ rest)).1 for good
          (copy_header k r (b ∷ rest) ∙ header) h1 in
      rw (left, some_left)
        (elim (Bool-cases (ltb k (length m - n))) [
          | inl goes_on ↦ rw goes_on (
              inl (
                Dealt-Within deal heart_beat reject IsGood IsFor to out relay m tail later user s
                  (n + k) _ _ (omega arith) (ground (arith, goes_on)) v (omega (arith, h.from))
                  dealt))
          | inr over ↦ rw over (
              inr (
                Dealt-Over deal heart_beat reject IsGood IsFor to out relay m tail later user s
                  (n + k) _ _ (ground (arith, over)) (omega (arith, h.from)) dealt))
        ])

  -- Nothing was dealt.
  pub Mid-Within :
      (m tail later : List ℕ) (user : S) (s n : ℕ) (r : Reader S) (rest : List ℕ)
      → IsGood user
      → Mid m tail later user s n r rest
      → Within deal heart_beat reject IsGood IsFor to out relay m tail later user s r rest
  Mid-Within m tail later user s n r rest good h = record {
    start = s;
    size = n;
    mid = subst (λ x. Mid m tail later x s n r rest) (sym h.held.same_user) h;
    good = rw h.held.same_user good;
    sent = λ k. rw h.held.same_user refl;
  }

  -- The branch of a message's mark, with the header's bytes taken as far as they are there.
  pub trans_message-IsRoundEnd :
      (m tail later : List ℕ) (user : S) (s n : ℕ) (r : Reader S) (rest : List ℕ)
      → IsMessage m
      → IsFor m
      → IsGood user
      → Filled m tail later user s n r rest
      → IsRoundEnd deal heart_beat reject IsGood IsFor to out relay m tail later user s
          (trans_message deal heart_beat reject (r, rest))
  unfolding trans_message
  trans_message-IsRoundEnd m tail later user s n r [] v for good h =
      elim (Bool-cases (ltb r.current_message_size 12)) [
        | inl short ↦ rw short (inl (Mid-Within m tail later user s n r [] good h.mid))
        | inr long ↦ elim (Bool-cases (r.current_message_size == 12)) [
          | inr beyond ↦ rw (long, beyond) (inl (Mid-Within m tail later user s n r [] good h.mid))
          | inl at ↦
              rw (long, at)
                (inl (
                  Mid-Within m tail later user s n (load_header r) [] good
                    (load_header-Mid m tail later user s n r [] v
                      (ground (arith, at, h.mid.held.size)) h.mid).0))
        ]
      ]
  trans_message-IsRoundEnd m tail later user s n r (b ∷ rest) v for good h =
      let full : 12 ≤ n = ground (arith, h.complete) in
      let long : ltb r.current_message_size 12 ≡ false = ground (arith, h.mid.held.size) in
      elim (Bool-cases (r.current_message_size == 12)) [
        | inr beyond ↦
            let past : 12 < n = ground (arith, beyond, h.mid.held.size) in
            rw (long, beyond)
              (payload-IsRoundEnd m tail later user s n r b rest v for good full h.mid.unfinished
                (h.mid.header past) h.mid.held)
        | inl at ↦
            let loaded =
              load_header-Mid m tail later user s n r (b ∷ rest) v
                (ground (arith, at, h.mid.held.size)) h.mid in
            rw (long, at)
              (payload-IsRoundEnd m tail later user s n (load_header r) b rest v for good full
                h.mid.unfinished loaded.1 loaded.0.held)
      ]
