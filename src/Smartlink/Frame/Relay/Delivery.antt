-- ===== src/Smartlink/Frame/Relay/Delivery.antt =====
-- The loop of filter_message over a stream of messages that are handed on in pieces.
use zpserver.Common.{
  ℕ, zero, suc, ◌≡◌, refl, ap, sym, ◌∙◌, ◌⊎◌, inl, inr, some, List, [], ◌∷◌, ◌++◌, arith, length,
  drop, concat, append_assoc, append-nil, length-drop, length-append,
}
use zpserver.Smartlink.Frame.{
  Reader, finished, out_of_fuel, round, loop, rounds, filter_message, read_blocks,
}
use zpserver.Smartlink.Frame.Total.{filter_message_ends}
use zpserver.Smartlink.Frame.Relay.{IsMessage, IsRelay}
use zpserver.Smartlink.Frame.Relay.Rounds.{Mid}
use zpserver.Smartlink.Frame.Relay.Payload.{part}
use zpserver.Smartlink.Frame.Relay.RoundEnd.{round-IsEnd}

-- What of the messages is for the place `k`, in their order.
abbrev pub parts : (List ℕ → ℕ) → ℕ → List (List ℕ) → List ℕ
parts to k [] = []
parts to k (m ∷ ms) = part to k m m ++ parts to k ms

-- Messages that can be handed on.
abbrev pub AreFor : (List ℕ → Type 0) → List (List ℕ) → Type 0
AreFor IsFor [] = Unit {0}
AreFor IsFor (m ∷ ms) = IsMessage m × IsFor m × AreFor IsFor ms

module _ {S : Type 0} (deal heart_beat reject : Reader S → Reader S) (IsGood : S → Type 0)
    (IsFor : List ℕ → Type 0) (to : List ℕ → ℕ) (out : ℕ → S → List ℕ)
    (relay : IsRelay S deal IsGood IsFor to out) where
  -- The reader is within the first of the messages that are left, or between two messages.
  abbrev IsAt : (ℕ → List ℕ) → List (List ℕ) → List ℕ → Reader S → List ℕ → Type 0
  IsAt all [] later r rest =
      (r.current_message_size ≡ 0)
      × (r.current_block ≡ [])
      × (rest ++ later ≡ [])
      × IsGood r.user
      × ((k : ℕ) → out k r.user ≡ all k)
  IsAt all (m ∷ ms) later r rest =
      (s n : ℕ) × Mid m (concat ms) later r.user s n r rest
      × IsGood r.user
      × ((k : ℕ) → out k r.user ++ (part to k m (drop s m) ++ parts to k ms) ≡ all k)

  -- Between two messages.
  between-IsAt :
      (all : ℕ → List ℕ) (ms : List (List ℕ)) (later : List ℕ) (r : Reader S) (rest : List ℕ)
      → AreFor IsFor ms
      → r.current_message_size ≡ 0
      → r.current_block ≡ []
      → rest ++ later ≡ concat ms
      → IsGood r.user
      → ((k : ℕ) → out k r.user ++ parts to k ms ≡ all k)
      → IsAt all ms later r rest
  between-IsAt all [] later r rest v size block stream good sent =
      (size, block, stream, good, λ k. sym (append-nil (out k r.user)) ∙ sent k)
  between-IsAt all (m ∷ ms) later r rest v size block stream good sent = (
    0,
    0,
    record {
      held = record {
        size = size;
        block = block;
        fits = omega arith;
        from = omega arith;
        stream = stream;
        same_user = refl;
      };
      unfinished = omega (arith, v.0.has_data);
      in_header = λ e. refl;
      passed_on = λ e. absurd (omega arith);
      mark = λ e. absurd (omega arith);
      header = λ e. absurd (omega arith);
    },
    good,
    sent,
  )

  -- A round of the loop, which needs bytes that are left.
  round-IsAt :
      (all : ℕ → List ℕ) (ms : List (List ℕ)) (later : List ℕ) (r : Reader S) (b : ℕ)
      (rest : List ℕ)
      → AreFor IsFor ms
      → IsAt all ms later r (b ∷ rest)
      → (p : Reader S × List ℕ) × (ms' : List (List ℕ)) × (round deal heart_beat reject r (b ∷ rest)
          ≡ some p)
        × AreFor IsFor ms'
        × IsAt all ms' later p.0 p.1
  round-IsAt all [] later r b rest v (size, block, stream, good, sent) =
      absurd (ground (arith, stream))
  round-IsAt all (m ∷ ms) later r b rest (v, for, vs) (s, n, mid, good, sent) =
      let ((r', rest'), e, end) =
        round-IsEnd deal heart_beat reject IsGood IsFor to out relay m (concat ms) later r.user s n
          r (b ∷ rest) v for good mid in
      elim end [
        | inl w ↦ (
          (r', rest'),
          m ∷ ms,
          e,
          (v, for, vs),
          (
            w.start,
            w.size,
            w.mid,
            w.good,
            λ k.
                sym (append_assoc (out k r'.user) _ _)
                ∙ ap (λ x. x ++ parts to k ms) (w.sent k)
                ∙ append_assoc (out k r.user) _ _
                ∙ sent k,
          ),
        )
        | inr o ↦ (
          (r', rest'),
          ms,
          e,
          vs,
          between-IsAt all ms later r' rest' vs o.size o.block o.stream o.good (λ k.
              ap (λ x. x ++ parts to k ms) (o.sent k) ∙ append_assoc (out k r.user) _ _ ∙ sent k),
        )
      ]

  loop-IsAt :
      (fuel : ℕ) (all : ℕ → List ℕ) (ms : List (List ℕ)) (later : List ℕ) (r : Reader S)
      (rest : List ℕ)
      → AreFor IsFor ms
      → IsAt all ms later r rest
      → (loop deal heart_beat reject fuel r rest ≡ out_of_fuel)
        ⊎ ((r' : Reader S) × (ms' : List (List ℕ)) × (loop deal heart_beat reject fuel r rest
              ≡ finished r' [])
            × AreFor IsFor ms'
            × IsAt all ms' later r' [])
  unfolding loop
  loop-IsAt zero all ms later r rest v h = inl refl
  loop-IsAt (suc fuel) all ms later r [] v h = inr (r, ms, refl, v, h)
  loop-IsAt (suc fuel) all ms later r (b ∷ rest) v h =
      let (p, ms', e, v', h') = round-IsAt all ms later r b rest v h in
      rw (e, loop) (loop-IsAt fuel all ms' later p.0 p.1 v' h')

  -- A block, read from its beginning.
  block-IsAt :
      (all : ℕ → List ℕ) (ms : List (List ℕ)) (block later : List ℕ) (r : Reader S)
      → AreFor IsFor ms
      → IsAt all ms later r block
      → (r' : Reader S) × (ms' : List (List ℕ)) × (filter_message deal heart_beat reject block 0 r
          ≡ finished r' [])
        × AreFor IsFor ms'
        × IsAt all ms' later r' []
  unfolding filter_message
  block-IsAt all ms block later r v h = elim (loop-IsAt (rounds block) all ms later r block v h) [
    | inr done ↦ done
    | inl stuck ↦
        absurd (ground (arith, stuck, filter_message_ends deal heart_beat reject block 0 r))
  ]

  -- The next block.
  next_block :
      (all : ℕ → List ℕ) (ms : List (List ℕ)) (block later : List ℕ) (r : Reader S)
      → IsAt all ms (block ++ later) r []
      → IsAt all ms later r block
  next_block all [] block later r (size, empty, stream, good, sent) =
      (size, empty, stream, good, sent)
  next_block all (m ∷ ms) block later r (s, n, mid, good, sent) = (
    s,
    n,
    record {
      held = record {
        size = mid.held.size;
        block = mid.held.block;
        fits = mid.held.fits;
        from = mid.held.from;
        stream = mid.held.stream;
        same_user = mid.held.same_user;
      };
      unfinished = mid.unfinished;
      in_header = mid.in_header;
      passed_on = mid.passed_on;
      mark = mid.mark;
      header = mid.header;
    },
    good,
    sent,
  )

  nothing_left :
      (all : ℕ → List ℕ) (ms : List (List ℕ)) (r : Reader S)
      → IsAt all ms [] r []
      → (r.current_message_size ≡ 0)
        × (r.current_block ≡ [])
        × IsGood r.user
        × ((k : ℕ) → out k r.user ≡ all k)
  nothing_left all [] r (size, block, stream, good, sent) = (size, block, good, sent)
  nothing_left all (m ∷ ms) r (s, n, mid, good, sent) = absurd (
      ground (
        arith,
        mid.unfinished,
        length-drop n m,
        length-append (drop n m) (concat ms),
        ap length mid.held.stream,
      ))

  read_all :
      (all : ℕ → List ℕ) (ms blocks : List (List ℕ)) (r : Reader S)
      → AreFor IsFor ms
      → IsAt all ms (concat blocks) r []
      → (r' : Reader S) × (read_blocks deal heart_beat reject r blocks ≡ finished r' [])
        × (r'.current_message_size ≡ 0)
        × (r'.current_block ≡ [])
        × IsGood r'.user
        × ((k : ℕ) → out k r'.user ≡ all k)
  unfolding read_blocks
  read_all all ms [] r v h =
      let (size, block, good, sent) = nothing_left all ms r h in (r, refl, size, block, good, sent)
  read_all all ms (block ∷ blocks) r v h =
      let (m, ms', e, v', h') =
        block-IsAt all ms block (concat blocks) r v (next_block all ms block (concat blocks) r h) in
      let (r', f, size, block, good, sent) = read_all all ms' blocks m v' h' in
      (r', rw (e, read_blocks) f, size, block, good, sent)

  -- From between two messages, a stream of messages that the handler hands on, cut into blocks in
  -- any way: reading the blocks ends between two messages, and each place has got the messages that
  -- are for it, whole and in their order.
  pub read_blocks_delivers :
      (ms blocks : List (List ℕ)) (r : Reader S)
      → AreFor IsFor ms
      → concat blocks ≡ concat ms
      → r.current_message_size ≡ 0
      → r.current_block ≡ []
      → IsGood r.user
      → (r' : Reader S) × (read_blocks deal heart_beat reject r blocks ≡ finished r' [])
        × (r'.current_message_size ≡ 0)
        × (r'.current_block ≡ [])
        × IsGood r'.user
        × ((k : ℕ) → out k r'.user ≡ out k r.user ++ parts to k ms)
  read_blocks_delivers ms blocks r v cut size block good =
      read_all (λ k. out k r.user ++ parts to k ms) ms blocks r v
        (between-IsAt _ ms (concat blocks) r [] v size block cut good (λ k. refl))
