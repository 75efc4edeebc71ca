-- ===== src/Smartlink/Frame/Relay/RoundEnd.antt =====
-- A whole round of filter_message within a message that is handed on in pieces.
use zpserver.Common.{
  ℕ, ◌≤◌, ◌<◌, ◌≡◌, refl, ap, ◌∙◌, ◌⊎◌, inl, inr, some, List, [], arith, ltb, length, Bool-cases,
}
use zpserver.Smartlink.Frame.{
  Reader, receive_mark, fill_header, trans_message, dispatch, after_mark, round,
}
use zpserver.Smartlink.Frame.Relay.{IsMessage, IsRelay}
use zpserver.Smartlink.Frame.Relay.Rounds.{
  Mid, Marked, receive_mark-Held, load_mark-Marked, fill_header-Filled,
}
use zpserver.Smartlink.Frame.Relay.Payload.{IsRoundEnd}
use zpserver.Smartlink.Frame.Relay.Message.{Mid-Within, trans_message-IsRoundEnd}

pub receive_mark-Mid :
    {S : Type 0} (m tail later : List ℕ) (user : S) (s n : ℕ) (r : Reader S) (rest : List ℕ)
    → 12 < length m
    → Mid m tail later user s n r rest
    → (n' : ℕ) × Mid m tail later user s n' (receive_mark r rest).0 (receive_mark r rest).1
      × ((2 ≤ n') ⊎ ((receive_mark r rest).1 ≡ []))
receive_mark-Mid m tail later user s n r rest long h =
    let (n', held, g, grown, ends) = receive_mark-Held m tail later user s n r rest long h.held in
    (
      n',
      record {
        held = held;
        unfinished = ground (arith, grown, h.unfinished);
        in_header = λ e. h.in_header (ground (arith, grown));
        passed_on = λ e. ground (arith, grown, h.passed_on);
        mark = λ e. ap (λ x. x.mark) g ∙ h.mark (ground (arith, grown));
        header = λ e. g ∙ h.header (ground (arith, grown));
      },
      ends,
    )

module _ {S : Type 0} (deal heart_beat reject : Reader S → Reader S) (IsGood : S → Type 0)
    (IsFor : List ℕ → Type 0) (to : List ℕ → ℕ) (out : ℕ → S → List ℕ)
    (relay : IsRelay S deal IsGood IsFor to out) where
  abbrev pub IsEnd : List ℕ → List ℕ → List ℕ → S → ℕ → Reader S × List ℕ → Type 0
  IsEnd = IsRoundEnd deal heart_beat reject IsGood IsFor to out relay

  dispatch-IsEnd :
      (m tail later : List ℕ) (user : S) (s n : ℕ) (r : Reader S) (rest : List ℕ)
      → IsMessage m
      → IsFor m
      → IsGood user
      → Marked m tail later user s n r rest
      → (p : Reader S × List ℕ) × (dispatch deal heart_beat reject r rest ≡ some p)
        × IsEnd m tail later user s p
  unfolding dispatch
  dispatch-IsEnd m tail later user s n r rest v for good h =
      let (n', filled) = fill_header-Filled m tail later user s n r rest v h in
      (
        trans_message deal heart_beat reject (fill_header r rest),
        rw h.marked refl,
        trans_message-IsRoundEnd deal heart_beat reject IsGood IsFor to out relay m tail later user
            s n' (fill_header r rest).0 (fill_header r rest).1 v for good filled,
      )

  after_mark-IsEnd :
      (m tail later : List ℕ) (user : S) (s n : ℕ) (r : Reader S) (rest : List ℕ)
      → IsMessage m
      → IsFor m
      → IsGood user
      → (2 ≤ n) ⊎ (rest ≡ [])
      → Mid m tail later user s n r rest
      → (p : Reader S × List ℕ) × (after_mark deal heart_beat reject (r, rest) ≡ some p)
        × IsEnd m tail later user s p
  unfolding after_mark
  after_mark-IsEnd m tail later user s n r rest v for good ends h =
      elim (Bool-cases (ltb r.current_message_size 2)) [
        | inl short ↦ (
          (r, rest),
          rw short refl,
          inl (
              Mid-Within deal heart_beat reject IsGood IsFor to out relay m tail later user s n r
                rest good h),
        )
        | inr two ↦
            let at : 2 ≤ n = ground (arith, two, h.held.size) in
            let (p, e, end) =
              dispatch-IsEnd m tail later user s n _ rest v for good
                (load_mark-Marked m tail later user s n r rest v at h) in
            (p, rw two e, end)
      ]

  pub round-IsEnd :
      (m tail later : List ℕ) (user : S) (s n : ℕ) (r : Reader S) (rest : List ℕ)
      → IsMessage m
      → IsFor m
      → IsGood user
      → Mid m tail later user s n r rest
      → (p : Reader S × List ℕ) × (round deal heart_beat reject r rest ≡ some p)
        × IsEnd m tail later user s p
  unfolding round
  round-IsEnd m tail later user s n r rest v for good h =
      let (n', mid, ends) = receive_mark-Mid m tail later user s n r rest v.has_data h in
      after_mark-IsEnd m tail later user s n' (receive_mark r rest).0 (receive_mark r rest).1 v for
        good ends mid
