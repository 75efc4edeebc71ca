-- ===== src/Smartlink/Frame/Relay/Whole.antt =====
-- A message that is a block of its own, for st_clientNode_baseTrans::filter_message.
use zpserver.Common.{
  ℕ, suc, ◌+◌, ◌-◌, ◌≤◌, ◌<◌, ◌≡◌, refl, ap, sym, ◌∙◌, ◌⊎◌, inl, inr, true, false, some, List, [],
  ◌∷◌, arith, ltb, ◌==◌, length, take, drop, is_empty, append-nil, length-drop, take_full,
  drop_at_end, subst,
}
use zpserver.Smartlink.Frame.{
  TransHeader, Reader, finished, header_of, cap_to, is_positive, copy, receive_mark, load_header,
  start_new, fill_header, payload, trans_message, dispatch, after_mark, round, loop, rounds,
  filter_message,
}
use zpserver.Smartlink.Frame.Relay.{IsMessage, Held, copy-Held}
use zpserver.Smartlink.Frame.Relay.Rounds.{
  Mid, Marked, Filled, load_mark-Marked, fill_header-Filled, copy_header,
}
use zpserver.Smartlink.Frame.Relay.Payload.{bytes_left-Held}
use zpserver.Smartlink.Frame.Relay.Message.{load_header-Mid}
use zpserver.Smartlink.Frame.Relay.RoundEnd.{receive_mark-Mid}

module _ {S : Type 0} where
  -- The reader with all of the message, and the reader between two messages.
  abbrev pub whole : List ℕ → S → Reader S
  whole m u = record {
    current_message_size = length m;
    current_block = m;
    current_header = header_of m;
    user = u;
  }

  abbrev pub idle_reader : TransHeader → S → Reader S
  idle_reader h u = record {
    current_message_size = 0;
    current_block = [];
    current_header = h;
    user = u;
  }

  -- Within the message, its rest is there.
  rest_is :
      (m : List ℕ) (u : S) (s n : ℕ) (r : Reader S) (rest : List ℕ)
      → Held m [] [] u s n r rest
      → rest ≡ drop n m
  rest_is m u s n r rest h = sym (append-nil rest) ∙ h.stream ∙ append-nil (drop n m)

  some_rest :
      (m : List ℕ) (u : S) (s n : ℕ) (r : Reader S) (rest : List ℕ)
      → Mid m [] [] u s n r rest
      → length rest ≡ length m - n
  some_rest m u s n r rest h = ap length (rest_is m u s n r rest h.held) ∙ length-drop n m

  whole_is :
      (m : List ℕ) (u : S) (n : ℕ) (r : Reader S) (rest : List ℕ)
      → n ≡ length m
      → r.current_header ≡ header_of m
      → Held m [] [] u 0 n r rest
      → r ≡ whole m u
  whole_is m u n r rest e header h =
      let size : r.current_message_size ≡ length m = h.size ∙ e in
      let block : r.current_block ≡ m =
        h.block ∙ ap (λ i. take i m) e ∙ take_full (length m) m (omega arith) in
      rw (size, block, header, h.same_user) refl

not_empty : (rest : List ℕ) → 0 < length rest → is_empty rest ≡ false
not_empty [] h = absurd (omega arith)
not_empty (b ∷ rest) h = refl

complete_header :
    {l : ℕ} (n : ℕ) (rest : List ℕ) → length rest ≡ l - n → n < l → (12 ≤ n) ⊎ (rest ≡ []) → 12 ≤ n
complete_header n rest there more (inl long) = long
complete_header n rest there more (inr none) = absurd (omega (arith, there, more, ap length none))

complete_mark :
    {l : ℕ} (n : ℕ) (rest : List ℕ) → length rest ≡ l - n → n < l → (2 ≤ n) ⊎ (rest ≡ []) → 2 ≤ n
complete_mark n rest there more (inl two) = two
complete_mark n rest there more (inr none) = absurd (omega (arith, there, more, ap length none))

module _ {S : Type 0} (deal heart_beat reject : Reader S → Reader S) where
  -- The header is there, and the rest of the message.
  payload_whole :
      (m : List ℕ) (u : S) (r : Reader S) (rest : List ℕ)
      → IsMessage m
      → r.current_header ≡ header_of m
      → Mid m [] [] u 0 12 r rest
      → payload deal heart_beat reject r rest ≡ (start_new (deal (whole m u)), [])
  unfolding payload
  payload_whole m u r rest v header h =
      let k = length m - 12 in
      let left = bytes_left-Held m [] [] u 0 12 r rest v header h.held in
      let there : length rest ≡ k = some_rest m u 0 12 r rest h in
      let some_left : is_positive k ≡ true = ground (arith, v.short, v.has_data) in
      let all : cap_to k (length rest) ≡ k = ground (arith, there) in
      let over : ltb k k ≡ false = ground arith in
      let end : 12 + k ≡ length m = omega (arith, v.has_data) in
      let h1 =
        copy-Held m [] [] u 0 12 k r rest (omega (arith, there)) (omega (arith, end)) h.held in
      let is = whole_is m u (12 + k) _ _ end (copy_header k r rest ∙ header) h1 in
      let empty : (copy k r rest).1 ≡ [] =
        rest_is m u 0 (12 + k) _ _ h1 ∙ ap (λ i. drop i m) end ∙ drop_at_end m in
      rw (left, some_left, all, over, is, empty) refl

  trans_message_whole :
      (m : List ℕ) (u : S) (n : ℕ) (r : Reader S) (rest : List ℕ)
      → IsMessage m
      → Filled m [] [] u 0 n r rest
      → trans_message deal heart_beat reject (r, rest) ≡ (start_new (deal (whole m u)), [])
  unfolding trans_message
  trans_message_whole m u n r rest v h =
      let there : length rest ≡ length m - n = some_rest m u 0 n r rest h.mid in
      let long : 12 ≤ n = complete_header n rest there h.mid.unfinished h.complete in
      let n_is : n ≡ 12 = ground (arith, long, h.mid.passed_on) in
      let size : r.current_message_size ≡ 12 = h.mid.held.size ∙ n_is in
      let more : is_empty rest ≡ false = not_empty rest (omega (arith, there, h.mid.unfinished)) in
      let (mid, header) = load_header-Mid m [] [] u 0 n r rest v n_is h.mid in
      let read =
        payload_whole m u (load_header r) rest v header
          (subst (λ i. Mid m [] [] u 0 i (load_header r) rest) n_is mid) in
      let short : ltb r.current_message_size 12 ≡ false = ground (arith, size) in
      let at : (r.current_message_size == 12) ≡ true = ground (arith, size) in
      rw (short, at, more) read

  dispatch_whole :
      (m : List ℕ) (u : S) (n : ℕ) (r : Reader S) (rest : List ℕ)
      → IsMessage m
      → Marked m [] [] u 0 n r rest
      → dispatch deal heart_beat reject r rest ≡ some (start_new (deal (whole m u)), [])
  unfolding dispatch
  dispatch_whole m u n r rest v h =
      let (n', filled) = fill_header-Filled m [] [] u 0 n r rest v h in
      let no_beat : (r.current_header.mark == 0xBEBE) ≡ false = rw h.marked refl in
      let trans : (r.current_header.mark == 0x55AA) ≡ true = rw h.marked refl in
      rw (no_beat, trans)
        (ap some
          (trans_message_whole m u n' (fill_header r rest).0 (fill_header r rest).1 v filled))

  after_mark_whole :
      (m : List ℕ) (u : S) (n : ℕ) (r : Reader S) (rest : List ℕ)
      → IsMessage m
      → 2 ≤ n
      → Mid m [] [] u 0 n r rest
      → after_mark deal heart_beat reject (r, rest) ≡ some (start_new (deal (whole m u)), [])
  unfolding after_mark
  after_mark_whole m u n r rest v two h =
      let past : ltb r.current_message_size 2 ≡ false = ground (arith, two, h.held.size) in
      rw past (dispatch_whole m u n _ rest v (load_mark-Marked m [] [] u 0 n r rest v two h))

  round_whole :
      (m : List ℕ) (h : TransHeader) (u : S)
      → IsMessage m
      → round deal heart_beat reject (idle_reader h u) m ≡ some (start_new (deal (whole m u)), [])
  unfolding round
  round_whole m h u v =
      let r = idle_reader h u in
      let start : Mid m [] [] u 0 0 r m = record {
        held = record {
          size = refl;
          block = refl;
          fits = omega arith;
          from = omega arith;
          stream = refl;
          same_user = refl;
        };
        unfinished = omega (arith, v.has_data);
        in_header = λ e. refl;
        passed_on = λ e. absurd (omega arith);
        mark = λ e. absurd (omega arith);
        header = λ e. absurd (omega arith);
      } in
      let (n, mid, ends) = receive_mark-Mid m [] [] u 0 0 r m v.has_data start in
      let there = some_rest m u 0 n (receive_mark r m).0 (receive_mark r m).1 mid in
      let two : 2 ≤ n = complete_mark n (receive_mark r m).1 there mid.unfinished ends in
      after_mark_whole m u n (receive_mark r m).0 (receive_mark r m).1 v two mid

  -- A message that is a block of its own, read between two messages: it is dealt with once, whole,
  -- and then the reader is where it starts.
  pub whole_message_dealt :
      (m : List ℕ) (h : TransHeader) (u : S)
      → IsMessage m
      → filter_message deal heart_beat reject m 0 (idle_reader h u)
        ≡ finished (start_new (deal (whole m u))) []
  unfolding filter_message rounds loop
  whole_message_dealt [] h u v = absurd (omega (arith, v.has_data))
  whole_message_dealt (b ∷ m) h u v =
      let n = length m in
      let fuel : suc n + suc n + 2 ≡ suc (suc (n + n + 2)) = omega arith in
      rw (fuel, loop, round_whole (b ∷ m) h u v) refl
