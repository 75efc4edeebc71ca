-- ===== src/Client/Reader/Same.antt =====
-- The client's reader (FunctionalClientTest/maindialog.cpp) against the server's
-- (smartlink/st_clientnode_basetrans.cpp).
use zpserver.Common.{
  ℕ, zero, suc, ◌+◌, ◌-◌, ◌≡◌, refl, ap, ◌∙◌, ◌&&◌, some, List, [], ◌∷◌, arith, ltb, ◌==◌, length,
  take, drop, append_assoc, append-nil, inl, inr, Bool-cases, Option-cases,
}
use zpserver.Smartlink.Frame.{
  Reader, Outcome, finished, read_past, out_of_fuel, cap_to, is_positive, copy, receive_mark,
  load_mark, load_header, bytes_left, start_new, fill_header, fill_heart_beat, rounds,
}
use zpserver.Smartlink.Frame
use zpserver.Client.Reader.{
  push_back, receive_until, receive_left, payload, trans_message, heart_beating, dispatch,
  after_mark, round, loop, filter_message,
}

module _ {S : Type 0} where
  copy-zero : (r : Reader S) (rest : List ℕ) → copy 0 r rest ≡ (r, rest)
  unfolding copy
  copy-zero r rest =
      let size : r.current_message_size + 0 ≡ r.current_message_size = omega arith in
      rw (size, append-nil r.current_block) refl

  copy-push_back :
      (k : ℕ) (b : ℕ) (r : Reader S) (rest : List ℕ)
      → copy k (push_back b r) rest ≡ copy (suc k) r (b ∷ rest)
  unfolding copy push_back
  copy-push_back k b r rest =
      let size : r.current_message_size + 1 + k ≡ r.current_message_size + suc k = omega arith in
      rw (size, append_assoc r.current_block (b ∷ []) (take k rest)) refl

  receive_left-copy :
      (left : ℕ) (r : Reader S) (rest : List ℕ)
      → receive_left left r rest
        ≡ (copy (cap_to left (length rest)) r rest, left - cap_to left (length rest))
  unfolding receive_left
  receive_left-copy zero r rest =
      let none_more : cap_to 0 (length rest) ≡ 0 = ground arith in
      rw (none_more, copy-zero r rest) refl
  receive_left-copy (suc left) r [] =
      let none_there : cap_to (suc left) 0 ≡ 0 = ground arith in
      let all_left : suc left - 0 ≡ suc left = omega arith in
      rw (none_there, all_left, copy-zero r []) refl
  receive_left-copy (suc left) r (b ∷ rest) =
      let one_more : cap_to (suc left) (suc (length rest)) ≡ suc (cap_to left (length rest)) =
        ground arith in
      let same : suc left - suc (cap_to left (length rest)) ≡ left - cap_to left (length rest) =
        omega arith in
      receive_left-copy left (push_back b r) rest
      ∙ rw (one_more, same, copy-push_back (cap_to left (length rest)) b r rest) refl

  push_back_size :
      (b : ℕ) (r : Reader S) → (push_back b r).current_message_size ≡ r.current_message_size + 1
  unfolding push_back
  push_back_size b r = refl

  receive_until-copy :
      (n : ℕ) (r : Reader S) (rest : List ℕ)
      → receive_until n r rest ≡ copy (cap_to (n - r.current_message_size) (length rest)) r rest
  unfolding receive_until
  receive_until-copy n r [] =
      let none_there : cap_to (n - r.current_message_size) 0 ≡ 0 = ground arith in
      rw (none_there, copy-zero r []) refl
  receive_until-copy n r (b ∷ rest) = elim (Bool-cases (ltb r.current_message_size n)) [
    | inr full ↦
        let none_more : cap_to (n - r.current_message_size) (suc (length rest)) ≡ 0 =
          ground (arith, full) in
        rw (full, none_more, copy-zero r (b ∷ rest)) refl
    | inl less ↦
        let k = cap_to (n - (r.current_message_size + 1)) (length rest) in
        let one_more : suc k ≡ cap_to (n - r.current_message_size) (suc (length rest)) =
          ground (arith, less) in
        rw less (
          receive_until-copy n (push_back b r) rest
          ∙ ap (λ i. copy (cap_to (n - i) (length rest)) (push_back b r) rest) (push_back_size b r)
          ∙ copy-push_back k b r rest
          ∙ ap (λ i. copy i r (b ∷ rest)) one_more)
  ]

  receive_until_mark : (r : Reader S) (rest : List ℕ) → receive_until 2 r rest ≡ receive_mark r rest
  unfolding receive_until receive_mark push_back
  receive_until_mark r [] = refl
  receive_until_mark r (b ∷ rest) = rw (receive_until_mark (push_back b r) rest) refl

  receive_until_header :
      (r : Reader S) (rest : List ℕ) → receive_until 12 r rest ≡ fill_header r rest
  unfolding fill_header
  receive_until_header r rest =
      receive_until-copy 12 r rest
      ∙ (elim (Bool-cases (ltb r.current_message_size 12 && (ltb 0 (length rest)))) [
        | inl some_there ↦ rw some_there refl
        | inr nothing ↦
            let none_more : cap_to (12 - r.current_message_size) (length rest) ≡ 0 =
              ground (arith, nothing) in
            rw (none_more, copy-zero r rest, nothing) refl
      ])

  -- A heart beat whose bytes are not copied from past the block's end.
  receive_until_heart_beat :
      (r : Reader S) (rest : List ℕ) (p : Reader S × List ℕ)
      → fill_heart_beat r rest ≡ some p
      → receive_until 8 r rest ≡ p
  unfolding fill_heart_beat
  receive_until_heart_beat r rest p e =
      elim (Bool-cases (ltb r.current_message_size 8 && (ltb 0 (length rest)))) [
        | inr nothing ↦
            let none_more : cap_to (8 - r.current_message_size) (length rest) ≡ 0 =
              ground (arith, nothing) in
            let as_it_is : receive_until 8 r rest ≡ (r, rest) =
              rw (receive_until-copy 8 r rest, none_more) (copy-zero r rest) in
            as_it_is ∙ ground (arith, nothing, e)
        | inl some_there ↦ elim (Bool-cases (ltb (length rest) (8 - r.current_message_size))) [
          | inl past ↦ absurd (ground (arith, some_there, past, e))
          | inr enough ↦ receive_until-copy 8 r rest ∙ ground (arith, some_there, enough, e)
        ]
      ]

module _ {S : Type 0} (deal heart_beat reject : Reader S → Reader S) where
  payload_same :
      (r : Reader S) (rest : List ℕ)
      → payload deal heart_beat reject r rest ≡ Frame.payload deal heart_beat reject r rest
  unfolding payload Frame.payload
  payload_same r rest =
      let left = bytes_left r in
      let more : ltb 0 (left - cap_to left (length rest)) ≡ ltb (cap_to left (length rest)) left =
        ground arith in
      rw (receive_left-copy left r rest, more) refl

  trans_message_same :
      (p : Reader S × List ℕ)
      → trans_message deal heart_beat reject p ≡ Frame.trans_message deal heart_beat reject p
  unfolding trans_message Frame.trans_message
  trans_message_same (r, rest) = rw (payload_same r rest, payload_same (load_header r) rest) refl

  heart_beating_same :
      (p : Reader S × List ℕ)
      → heart_beating deal heart_beat reject p ≡ Frame.heart_beating deal heart_beat reject p
  unfolding heart_beating Frame.heart_beating
  heart_beating_same (r, rest) = refl

  dispatch_same :
      (r : Reader S) (rest : List ℕ) (p : Reader S × List ℕ)
      → Frame.dispatch deal heart_beat reject r rest ≡ some p
      → dispatch deal heart_beat reject r rest ≡ p
  unfolding dispatch Frame.dispatch
  dispatch_same r rest p = elim (Bool-cases (r.current_header.mark == 0xBEBE)) [
    | inl beat ↦ elim (Option-cases (fill_heart_beat r rest)) [
      | inl past ↦ λ e. absurd (ground (arith, beat, past, e))
      | inr (q, filled) ↦ λ e.
          let same = receive_until_heart_beat r rest q filled in
          let beaten : Frame.heart_beating deal heart_beat reject q ≡ p =
            ground (arith, beat, filled, e) in
          rw (beat, same, heart_beating_same q) beaten
    ]
    | inr other ↦ λ e. elim (Bool-cases (r.current_header.mark == 0x55AA)) [
      | inl trans ↦
          let read : Frame.trans_message deal heart_beat reject (fill_header r rest) ≡ p =
            ground (arith, other, trans, e) in
          rw (other, trans, receive_until_header r rest, trans_message_same (fill_header r rest))
            read
      | inr bad ↦ rw (other, bad) (ground (arith, other, bad, e))
    ]
  ]

  after_mark_same :
      (q p : Reader S × List ℕ)
      → Frame.after_mark deal heart_beat reject q ≡ some p
      → after_mark deal heart_beat reject q ≡ p
  unfolding after_mark Frame.after_mark
  after_mark_same (r, rest) p = elim (Bool-cases (ltb r.current_message_size 2)) [
    | inl short ↦ λ e. rw short (ground (arith, short, e))
    | inr two ↦ λ e. rw two (dispatch_same _ rest p (rw two at e))
  ]

  round_same :
      (r : Reader S) (rest : List ℕ) (p : Reader S × List ℕ)
      → Frame.round deal heart_beat reject r rest ≡ some p
      → round deal heart_beat reject r rest ≡ p
  unfolding round Frame.round
  round_same r rest p e = rw (receive_until_mark r rest) (after_mark_same (receive_mark r rest) p e)

  loop_same :
      (fuel : ℕ) (r r' : Reader S) (rest rest' : List ℕ)
      → Frame.loop deal heart_beat reject fuel r rest ≡ finished r' rest'
      → loop deal heart_beat reject fuel r rest ≡ some (r', rest')
  unfolding loop Frame.loop
  loop_same zero r r' rest rest' e = absurd (ground (arith, e))
  loop_same (suc fuel) r r' [] rest' e = ground (arith, e)
  loop_same (suc fuel) r r' (b ∷ rest) rest' e =
      elim (Option-cases (Frame.round deal heart_beat reject r (b ∷ rest))) [
        | inl past ↦ absurd (ground (arith, rw (past, Frame.loop) at e))
        | inr (p, q) ↦
            rw (round_same r (b ∷ rest) p q)
              (loop_same fuel p.0 r' p.1 rest' (rw (q, Frame.loop) at e))
      ]

  -- With the same handlers and from the same state, the reader of the client program does with a
  -- block what the server's reader does, whenever this one does not read past the end of the block.
  pub filter_message_same :
      (block : List ℕ) (offset : ℕ) (r r' : Reader S) (rest : List ℕ)
      → Frame.filter_message deal heart_beat reject block offset r ≡ finished r' rest
      → filter_message deal heart_beat reject block offset r ≡ some (r', rest)
  unfolding filter_message Frame.filter_message
  filter_message_same block offset r r' rest e =
      loop_same (rounds (drop offset block)) r r' (drop offset block) rest e
