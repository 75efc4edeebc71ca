-- ===== src/Smartlink/Frame/Relay/Payload.antt =====
-- The part of a round of filter_message that deals the bytes of a message after its header.
use zpserver.Common.{
  ℕ, ◌-◌, ◌≤◌, ◌<◌, ◌≡◌, refl, ap, sym, ◌∙◌, ◌⊎◌, inl, inr, List, [], ◌++◌, arith, ◌==◌,
  if◌then◌else◌, length, take, drop, Bool-cases, held_all, held-append-drop, drop_at_end,
  append_assoc, append-nil,
}
use zpserver.Smartlink.Frame.{Reader, header_of, bytes_left, start_new}
use zpserver.Smartlink.Frame.Relay.{IsMessage, IsRelay, Held}
use zpserver.Smartlink.Frame.Relay.Rounds.{Mid}

-- What of the message is for the place `k`.
abbrev pub part : (List ℕ → ℕ) → ℕ → List ℕ → List ℕ → List ℕ
part to k m xs = if to m == k then xs else []

part-append :
    (to : List ℕ → ℕ) (k : ℕ) (m xs ys zs : List ℕ)
    → xs ++ ys ≡ zs
    → part to k m xs ++ part to k m ys ≡ part to k m zs
part-append to k m xs ys zs e = elim (Bool-cases (to m == k)) [
  | inl here ↦ rw here e
  | inr elsewhere ↦ rw elsewhere refl
]

module _ {S : Type 0} where
  -- What is left of the message, as the code computes it.
  pub bytes_left-Held :
      (m tail later : List ℕ) (user : S) (s n : ℕ) (r : Reader S) (rest : List ℕ)
      → IsMessage m
      → r.current_header ≡ header_of m
      → Held m tail later user s n r rest
      → bytes_left r ≡ length m - n
  unfolding bytes_left header_of
  bytes_left-Held m tail later user s n r rest v header h =
      rw (header, h.size) (omega (arith, v.whole, v.short, h.fits))

module _ {S : Type 0} (deal heart_beat reject : Reader S → Reader S) (IsGood : S → Type 0)
    (IsFor : List ℕ → Type 0) (to : List ℕ → ℕ) (out : ℕ → S → List ℕ)
    (relay : IsRelay S deal IsGood IsFor to out) where
  -- The round ended within the message.
  pub record Within (m tail later : List ℕ) (user : S) (s : ℕ) (r : Reader S) (rest : List ℕ)
      : Type 0 where
    pub start : ℕ
    pub size : ℕ
    pub mid : Mid m tail later r.user start size r rest
    pub good : IsGood r.user
    pub sent :
        (k : ℕ) → out k r.user ++ part to k m (drop start m) ≡ out k user ++ part to k m (drop s m)

  -- The round ended with the message.
  pub record Over (m tail later : List ℕ) (user : S) (s : ℕ) (r : Reader S) (rest : List ℕ)
      : Type 0 where
    pub size : r.current_message_size ≡ 0
    pub block : r.current_block ≡ []
    pub stream : rest ++ later ≡ tail
    pub good : IsGood r.user
    pub sent : (k : ℕ) → out k r.user ≡ out k user ++ part to k m (drop s m)

  -- What dealing leaves.
  pub record Dealt (m tail later : List ℕ) (user : S) (s n : ℕ) (r : Reader S) (rest : List ℕ)
      : Type 0 where
    pub held : Held m tail later r.user n n r rest
    pub header : r.current_header ≡ header_of m
    pub good : IsGood r.user
    pub sent : (k : ℕ) → out k r.user ≡ out k user ++ part to k m (drop s (take n m))

  pub deal-Dealt :
      (m tail later : List ℕ) (user : S) (s n : ℕ) (r : Reader S) (rest : List ℕ)
      → IsFor m
      → IsGood user
      → r.current_header ≡ header_of m
      → Held m tail later user s n r rest
      → Dealt m tail later user s n (deal r) rest
  deal-Dealt m tail later user s n r rest for good header h =
      let still : IsGood r.user = rw h.same_user good in
      let (size, same, empty, good') = relay.size_kept m r for still header in
      record {
        held = record {
          size = size ∙ h.size;
          block = empty ∙ sym (held_all n m);
          fits = h.fits;
          from = omega arith;
          stream = h.stream;
          same_user = refl;
        };
        header = same ∙ header;
        good = good';
        sent = λ k. relay.sent m r k for still header ∙ rw (h.same_user, h.block) refl;
      }

  -- The message goes on after what was dealt, or it is over with it.
  pub Dealt-Within :
      (m tail later : List ℕ) (user : S) (s n : ℕ) (r : Reader S) (rest : List ℕ)
      → 12 < n
      → n < length m
      → IsMessage m
      → s ≤ n
      → Dealt m tail later user s n r rest
      → Within m tail later user s r rest
  unfolding header_of
  Dealt-Within m tail later user s n r rest past more v from h = record {
    start = n;
    size = n;
    mid = record {
      held = h.held;
      unfinished = more;
      in_header = λ e. absurd (omega arith);
      passed_on = λ e. refl;
      mark = λ e. rw h.header v.marked;
      header = λ e. h.header;
    };
    good = h.good;
    sent = λ k. rw (h.sent k) (
        append_assoc (out k user) (part to k m (drop s (take n m))) (part to k m (drop n m))
        ∙ ap (λ x. out k user ++ x) (part-append to k m _ _ _ (held-append-drop s n m from)));
  }

  pub Dealt-Over :
      (m tail later : List ℕ) (user : S) (s n : ℕ) (r : Reader S) (rest : List ℕ)
      → n ≡ length m
      → s ≤ n
      → Dealt m tail later user s n r rest
      → Over m tail later user s (start_new r) rest
  unfolding start_new
  Dealt-Over m tail later user s n r rest end from h = record {
    size = refl;
    block = refl;
    stream = h.held.stream ∙ ap (λ x. x ++ tail) (ap (λ i. drop i m) end ∙ drop_at_end m);
    good = h.good;
    sent = λ k.
        h.sent k
        ∙ ap (λ x. out k user ++ part to k m x)
            (sym (append-nil _)
              ∙ ap (λ x. drop s (take n m) ++ x) (sym (ap (λ i. drop i m) end ∙ drop_at_end m))
              ∙ held-append-drop s n m from);
  }

  -- The round's end, in either case.
  abbrev pub IsRoundEnd : List ℕ → List ℕ → List ℕ → S → ℕ → Reader S × List ℕ → Type 0
  IsRoundEnd m tail later user s (r, rest) =
      Within m tail later user s r rest ⊎ Over m tail later user s r rest
