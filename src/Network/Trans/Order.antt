-- ===== src/Network/Trans/Order.antt =====
-- The send queues of zp_netTransThread: what SendDataToClient is given reaches the socket in order.
use zpserver.Common.{
  ℕ, zero, suc, ◌+◌, ◌-◌, ◌≤◌, ◌<◌, ◌≡◌, refl, sym, ap, ◌∙◌, true, false, List, [], ◌∷◌, ◌++◌,
  append_assoc, append-nil, arith, ltb, leb, eq→==, if◌then◌else◌, length, is_empty, take, drop,
  min, Bool-cases, inl, inr,
}
use zpserver.Network.Trans.{
  Buffer, TransThread, Write, no_buffer, emit, member, set_buffer, add_written, send_data_to_client,
  send_queue, some_data_sended,
}

-- The bytes that wait: of each array what lies past its offset.
unfoldable pub waiting : List (List ℕ) → List ℕ → List ℕ
waiting [] offsets = []
waiting (array ∷ arrays) [] = []
waiting (array ∷ arrays) (offset ∷ offsets) = drop offset array ++ waiting arrays offsets

-- Every array has its offset, and something of it waits.
abbrev pub IsQueue : List (List ℕ) → List ℕ → Type 0
IsQueue [] [] = Unit {0}
IsQueue [] (offset ∷ offsets) = ⊥
IsQueue (array ∷ arrays) [] = ⊥
IsQueue (array ∷ arrays) (offset ∷ offsets) = (offset < length array) × IsQueue arrays offsets

abbrev pub IsQueued : ℕ → TransThread → Type 0
IsQueued sock t = IsQueue (t.buffer_sending sock).list_sock_data (t.buffer_sending sock).list_offset

-- What a socket got so far, and what waits for it.
unfoldable pub stream : ℕ → TransThread → List ℕ
stream sock t =
    t.written sock
    ++ waiting (t.buffer_sending sock).list_sock_data (t.buffer_sending sock).list_offset

pub take_then_drop :
    (n m : ℕ) (xs : List ℕ) → n ≤ length (take m xs) → take n (take m xs) ++ drop n xs ≡ xs
take_then_drop zero m xs h = refl
take_then_drop (suc n) zero xs h = absurd (omega arith)
take_then_drop (suc n) (suc m) [] h = refl
take_then_drop (suc n) (suc m) (x ∷ xs) h = rw (take_then_drop n m xs (omega arith))

pub drop_past : (n : ℕ) (xs : List ℕ) → length xs ≤ n → drop n xs ≡ []
drop_past zero [] h = refl
drop_past zero (x ∷ xs) h = absurd (omega arith)
drop_past (suc n) [] h = refl
drop_past (suc n) (x ∷ xs) h = drop_past n xs (omega arith)

pub drop-drop : (n m : ℕ) (xs : List ℕ) → drop n (drop m xs) ≡ drop (m + n) xs
drop-drop n zero xs = ground arith
drop-drop zero (suc m) xs = ground arith
drop-drop (suc n) (suc m) [] = sym (drop_past (suc m + suc n) [] (omega arith))
drop-drop (suc n) (suc m) (x ∷ xs) =
    let one_more : suc (m + suc n) ≡ suc m + suc n = omega arith in
    drop-drop (suc n) m xs ∙ ap (λ k. drop k (x ∷ xs)) one_more

-- A write that reaches the end takes all that was left.
all_taken :
    (n m o : ℕ) (a : List ℕ)
    → n ≤ length (take m (drop o a))
    → length a ≤ o + n
    → take n (take m (drop o a)) ≡ drop o a
all_taken n m o a h whole =
    sym (append-nil _)
    ∙ ap (λ k. take n (take m (drop o a)) ++ k) (sym (drop-drop n o a ∙ drop_past (o + n) a whole))
    ∙ take_then_drop n m (drop o a) h

waiting-append :
    (arrays : List (List ℕ)) (offsets : List ℕ) (array : List ℕ) (offset : ℕ)
    → IsQueue arrays offsets
    → waiting (arrays ++ array ∷ []) (offsets ++ offset ∷ [])
      ≡ waiting arrays offsets ++ drop offset array
unfolding waiting
waiting-append [] [] array offset q = rw append-nil refl
waiting-append [] (o ∷ offsets) array offset q = absurd q
waiting-append (a ∷ arrays) [] array offset q = absurd q
waiting-append (a ∷ arrays) (o ∷ offsets) array offset q =
    rw
      (
        waiting-append arrays offsets array offset q.1,
        append_assoc (drop o a) (waiting arrays offsets) (drop offset array),
      )
      refl

IsQueue-append :
    (arrays : List (List ℕ)) (offsets : List ℕ) (array : List ℕ) (offset : ℕ)
    → IsQueue arrays offsets
    → offset < length array
    → IsQueue (arrays ++ array ∷ []) (offsets ++ offset ∷ [])
IsQueue-append [] [] array offset q h = (h, tt)
IsQueue-append [] (o ∷ offsets) array offset q h = absurd q
IsQueue-append (a ∷ arrays) [] array offset q h = absurd q
IsQueue-append (a ∷ arrays) (o ∷ offsets) array offset q h =
    (q.0, IsQueue-append arrays offsets array offset q.1 h)

nothing_queued :
    (arrays : List (List ℕ)) (offsets : List ℕ)
    → IsQueue arrays offsets
    → is_empty arrays ≡ true
    → (arrays ≡ []) × (offsets ≡ [])
nothing_queued [] [] q e = (refl, refl)
nothing_queued [] (o ∷ offsets) q e = absurd q
nothing_queued (a ∷ arrays) offsets q e = cc

-- The three ways in which SendDataToClient leaves a socket.
all_sent :
    (w s a : List ℕ) (b : Buffer)
    → b ≡ no_buffer
    → s ≡ a
    → (w ++ s) ++ waiting b.list_sock_data b.list_offset
      ≡ (w ++ waiting b.list_sock_data b.list_offset) ++ a
unfolding waiting
all_sent w s a b none_there e =
    rw (none_there, e) (append-nil (w ++ a) ∙ ap (λ k. k ++ a) (sym (append-nil w)))

part_sent :
    (w s a : List ℕ) (n : ℕ) (b : Buffer)
    → b ≡ no_buffer
    → s ++ drop n a ≡ a
    → (w ++ s) ++ waiting (b.list_sock_data ++ a ∷ []) (b.list_offset ++ n ∷ [])
      ≡ (w ++ waiting b.list_sock_data b.list_offset) ++ a
unfolding waiting
part_sent w s a n b none_there e = rw none_there (
    ap (λ k. (w ++ s) ++ k) (append-nil (drop n a))
    ∙ append_assoc w s (drop n a)
    ∙ ap (λ k. w ++ k) e
    ∙ ap (λ k. k ++ a) (sym (append-nil w)))

none_sent :
    (w a : List ℕ) (b : Buffer)
    → IsQueue b.list_sock_data b.list_offset
    → w ++ waiting (b.list_sock_data ++ a ∷ []) (b.list_offset ++ 0 ∷ [])
      ≡ (w ++ waiting b.list_sock_data b.list_offset) ++ a
none_sent w a b q =
    ap (λ k. w ++ k) (waiting-append b.list_sock_data b.list_offset a 0 q)
    ∙ sym (append_assoc w (waiting b.list_sock_data b.list_offset) a)

some_bytes : (a : List ℕ) → is_empty a ≡ false → 0 < length a
some_bytes [] h = cc
some_bytes (x ∷ a) h = omega arith

no_bytes : (a : List ℕ) → is_empty a ≡ true → a ≡ []
no_bytes [] h = refl
no_bytes (x ∷ a) h = cc

module _ (write : Write) (honest : (out xs : List ℕ) → write out xs ≤ length xs) where
  send_queue_keeps :
      (pay_load : ℕ) (out : List ℕ) (arrays : List (List ℕ)) (offsets : List ℕ)
      → IsQueue arrays offsets
      → let (b, sent) = send_queue write pay_load out arrays offsets in
        (sent ++ waiting b.list_sock_data b.list_offset ≡ waiting arrays offsets)
        × IsQueue b.list_sock_data b.list_offset
  unfolding send_queue waiting
  send_queue_keeps pay_load out [] [] q = (refl, tt)
  send_queue_keeps pay_load out [] (o ∷ offsets) q = absurd q
  send_queue_keeps pay_load out (a ∷ arrays) [] q = absurd q
  send_queue_keeps pay_load out (a ∷ arrays) (o ∷ offsets) q =
      let offered = take (min (length a - o) pay_load) (drop o a) in
      let n = write out offered in
      let (same, q') = send_queue_keeps pay_load (out ++ take n offered) arrays offsets q.1 in
      let cut = take_then_drop n (min (length a - o) pay_load) (drop o a) (honest out offered) in
      elim (Bool-cases (leb (length a) (o + n))) [
        | inl whole ↦ rw whole (
          append_assoc (take n offered) _ _
              ∙ ap (λ k. take n offered ++ k) same
              ∙ ap (λ k. k ++ waiting arrays offsets)
                  (all_taken n (min (length a - o) pay_load) o a (honest out offered)
                    (ground arith)),
          q',
        )
        | inr part ↦ rw part (
          sym (append_assoc (take n offered) (drop (o + n) a) (waiting arrays offsets))
              ∙ ap (λ k. k ++ waiting arrays offsets) (rw (drop-drop n o a) at cut),
          (ground arith, q.1),
        )
      ]

  pub send_keeps :
      (sock : ℕ) (array : List ℕ) (t : TransThread)
      → IsQueued sock t
      → (stream sock (send_data_to_client write sock array t)
          ≡ (if member sock t.client_list then stream sock t ++ array else stream sock t))
        × IsQueued sock (send_data_to_client write sock array t)
  unfolding send_data_to_client stream set_buffer add_written
  send_keeps sock array t q =
      let b = t.buffer_sending sock in
      let m = min (length array) t.pay_load in
      let n = write (t.written sock) (take m array) in
      let cut = take_then_drop n m array (honest (t.written sock) (take m array)) in
      elim (Bool-cases (member sock t.client_list)) [
        | inr stranger ↦ rw (stranger, send_data_to_client) (refl, q)
        | inl client ↦ elim (Bool-cases (is_empty array)) [
          | inl nothing ↦
              rw (client, send_data_to_client, nothing, no_bytes array nothing)
                (sym (append-nil _), q)
          | inr something ↦ elim (Bool-cases (is_empty b.list_sock_data)) [
            | inl idle ↦
                let (no_data, no_offset) = nothing_queued b.list_sock_data b.list_offset q idle in
                let none_there : b ≡ no_buffer = ground arith in
                elim (Bool-cases (ltb n (length array))) [
                  | inl part ↦
                      rw (client, something, idle, part, eq→== sock sock refl)
                        (
                          part_sent (t.written sock) (take n (take m array)) array n b none_there
                              cut,
                          IsQueue-append b.list_sock_data b.list_offset array n q (ground arith),
                        )
                  | inr whole ↦
                      rw (client, something, idle, whole, eq→== sock sock refl)
                        (
                          all_sent (t.written sock) (take n (take m array)) array b none_there (
                              all_taken n m 0 array (honest (t.written sock) (take m array))
                                (ground arith)),
                          q,
                        )
                ]
            | inr busy ↦
                rw (client, something, busy, eq→== sock sock refl)
                  (
                    none_sent (t.written sock) array b q,
                    IsQueue-append b.list_sock_data b.list_offset array 0 q
                        (some_bytes array something),
                  )
          ]
        ]
      ]

  pub sended_keeps :
      (sock wsended : ℕ) (t : TransThread)
      → IsQueued sock t
      → (stream sock (some_data_sended write sock wsended t) ≡ stream sock t)
        × IsQueued sock (some_data_sended write sock wsended t)
  unfolding some_data_sended stream set_buffer add_written emit
  sended_keeps sock wsended t q =
      let b = t.buffer_sending sock in
      let (same, q') =
        send_queue_keeps t.pay_load (t.written sock) b.list_sock_data b.list_offset q in
      rw (eq→== sock sock refl)
        (append_assoc (t.written sock) _ _ ∙ ap (λ k. t.written sock ++ k) same, q')
