-- ===== src/Network/Trans/Delivery.antt =====
-- Sequences of SendDataToClient and some_data_sended, for the clients of one zp_netTransThread.
use zpserver.Common.{
  ℕ, zero, suc, ◌+◌, ◌-◌, ◌≤◌, ◌<◌, ◌≡◌, refl, sym, ap, ◌∙◌, true, false, List, [], ◌∷◌, ◌++◌,
  append_assoc, append-nil, arith, ltb, leb, ◌==◌, eq→==, ==→eq, if◌then◌else◌, length, is_empty,
  take, drop, min, length-append, length-take, length-drop, Bool-cases, inl, inr,
}
use zpserver.Network.Trans.{
  TransThread, Write, emit, member, set_buffer, add_written, send_data_to_client, send_queue,
  some_data_sended,
}
use zpserver.Network.Trans.Order.{waiting, IsQueue, IsQueued, stream, send_keeps, sended_keeps}

-- A call of one of the two slots, with the socket.
pub data SendCall : Type 0 where
  send : ℕ → List ℕ → SendCall
  sended : ℕ → ℕ → SendCall

-- The bytes that the calls give for a socket.
pub given : ℕ → List SendCall → List ℕ
given s [] = []
given s (send sock array ∷ cs) = if sock == s then array ++ given s cs else given s cs
given s (sended sock n ∷ cs) = given s cs

-- The signals that a socket sent some bytes, one after the other.
pub signals : ℕ → ℕ → List SendCall
signals s zero = []
signals s (suc k) = sended s 0 ∷ signals s k

module _ (write : Write) where
  pub call : TransThread → SendCall → TransThread
  call t (send sock array) = send_data_to_client write sock array t
  call t (sended sock n) = some_data_sended write sock n t

  pub calls : TransThread → List SendCall → TransThread
  calls t [] = t
  calls t (c ∷ cs) = calls (call t c) cs

  -- A call changes neither the list of clients nor the payload, nor anything of another socket.
  send_elsewhere :
      (sock : ℕ) (array : List ℕ) (t : TransThread)
      → ((send_data_to_client write sock array t).client_list ≡ t.client_list)
        × ((send_data_to_client write sock array t).pay_load ≡ t.pay_load)
        × ((s : ℕ)
            → (sock == s) ≡ false
            → ((send_data_to_client write sock array t).written s ≡ t.written s)
              × ((send_data_to_client write sock array t).buffer_sending s ≡ t.buffer_sending s))
  unfolding send_data_to_client set_buffer add_written
  send_elsewhere sock array t = elim (Bool-cases (member sock t.client_list)) [
    | inr stranger ↦ rw (stranger, send_data_to_client) (refl, refl, λ s ne. (refl, refl))
    | inl client ↦ elim (Bool-cases (is_empty array)) [
      | inl nothing ↦ rw (client, nothing) (refl, refl, λ s ne. (refl, refl))
      | inr something ↦ elim (Bool-cases (is_empty (t.buffer_sending sock).list_sock_data)) [
        | inr busy ↦ rw (client, something, busy) (refl, refl, λ s ne. (refl, ground arith))
        | inl idle ↦
            elim (Bool-cases (
              ltb (write (t.written sock) (take (min (length array) t.pay_load) array))
                (length array))) [
                  | inl part ↦
                      rw (client, something, idle, part)
                        (refl, refl, λ s ne. (ground arith, ground arith))
                  | inr whole ↦
                      rw (client, something, idle, whole) (refl, refl, λ s ne. (ground arith, refl))
                ]
      ]
    ]
  ]

  sended_elsewhere :
      (sock n s : ℕ) (t : TransThread)
      → (sock == s) ≡ false
      → ((some_data_sended write sock n t).written s ≡ t.written s)
        × ((some_data_sended write sock n t).buffer_sending s ≡ t.buffer_sending s)
  unfolding some_data_sended set_buffer add_written emit
  sended_elsewhere sock n s t ne = (ground arith, ground arith)

  sended_clients :
      (sock n : ℕ) (t : TransThread)
      → ((some_data_sended write sock n t).client_list ≡ t.client_list)
        × ((some_data_sended write sock n t).pay_load ≡ t.pay_load)
  unfolding some_data_sended set_buffer add_written emit
  sended_clients sock n t = (refl, refl)

same_stream :
    (s : ℕ) (t u : TransThread)
    → (u.written s ≡ t.written s) × (u.buffer_sending s ≡ t.buffer_sending s)
    → IsQueued s t
    → (stream s u ≡ stream s t ++ []) × IsQueued s u
unfolding stream
same_stream s t u (same, same_buffer) q =
    (rw (same, same_buffer) (sym (append-nil _)), rw same_buffer q)

module _ (write : Write) (honest : (out xs : List ℕ) → write out xs ≤ length xs) where
  call_keeps :
      (s : ℕ) (c : SendCall) (t : TransThread)
      → member s t.client_list ≡ true
      → IsQueued s t
      → (stream s (call write t c) ≡ stream s t ++ given s (c ∷ []))
        × IsQueued s (call write t c)
        × ((call write t c).client_list ≡ t.client_list)
  unfolding call given
  call_keeps s (send sock array) t client q = elim (Bool-cases (sock == s)) [
    | inl here ↦
        let (same, q') = send_keeps write honest s array t q in
        rw (here, append-nil array, ==→eq sock s here)
          ((rw client at same), q', (send_elsewhere write s array t).0)
    | inr there ↦
        let (clients, load, other) = send_elsewhere write sock array t in
        let (same, q') =
          same_stream s t (send_data_to_client write sock array t) (other s there) q in
        rw there (same, q', clients)
  ]
  call_keeps s (sended sock n) t client q = elim (Bool-cases (sock == s)) [
    | inl here ↦
        let (same, q') = sended_keeps write honest s n t q in
        rw (==→eq sock s here)
          (same ∙ sym (append-nil (stream s t)), q', (sended_clients write s n t).0)
    | inr there ↦
        let (same, q') =
          same_stream s t (some_data_sended write sock n t)
            (sended_elsewhere write sock n s t there) q in
        (same, q', (sended_clients write sock n t).0)
  ]

  given-cons :
      (s : ℕ) (c : SendCall) (cs : List SendCall)
      → given s (c ∷ cs) ≡ given s (c ∷ []) ++ given s cs
  unfolding given
  given-cons s (send sock array) cs = elim (Bool-cases (sock == s)) [
    | inl here ↦ rw (here, append-nil array) refl
    | inr there ↦ rw there refl
  ]
  given-cons s (sended sock n) cs = refl

  -- If sockets take at most what they are offered, the client is in the list of clients, and its two
  -- queues match: whatever the other clients do, what the client's socket got, followed by what
  -- waits for it, is what it was before, followed by all the arrays given for the client, in their
  -- order; and its queues match again.
  pub sent_in_order :
      (s : ℕ) (cs : List SendCall) (t : TransThread)
      → member s t.client_list ≡ true
      → IsQueued s t
      → (stream s (calls write t cs) ≡ stream s t ++ given s cs) × IsQueued s (calls write t cs)
  unfolding calls given
  sent_in_order s [] t client q = (sym (append-nil (stream s t)), q)
  sent_in_order s (c ∷ cs) t client q =
      let (same, q1, clients) = call_keeps s c t client q in
      let (later, q2) = sent_in_order s cs (call write t c) (rw clients client) q1 in
      (
        later
            ∙ ap (λ k. k ++ given s cs) same
            ∙ append_assoc (stream s t) (given s (c ∷ [])) (given s cs)
            ∙ ap (λ k. stream s t ++ k) (sym (given-cons s c cs)),
        q2,
      )

module _ (write : Write) (honest : (out xs : List ℕ) → write out xs ≤ length xs)
    (willing : (out xs : List ℕ) → 0 < length xs → 0 < write out xs) where
  send_queue_progress :
      (pay_load : ℕ) (out : List ℕ) (arrays : List (List ℕ)) (offsets : List ℕ)
      → 0 < pay_load
      → IsQueue arrays offsets
      → let b = (send_queue write pay_load out arrays offsets).0 in
        length (waiting b.list_sock_data b.list_offset) ≤ length (waiting arrays offsets) - 1
  unfolding send_queue waiting
  send_queue_progress pay_load out [] offsets some q = omega arith
  send_queue_progress pay_load out (a ∷ arrays) [] some q = absurd q
  send_queue_progress pay_load out (a ∷ arrays) (o ∷ offsets) some q =
      let offered = take (min (length a - o) pay_load) (drop o a) in
      let n = write out offered in
      let later = send_queue_progress pay_load (out ++ take n offered) arrays offsets some q.1 in
      let offered_some : 0 < length offered =
        omega (arith, length-take (min (length a - o) pay_load) (drop o a), length-drop o a, q.0) in
      elim (Bool-cases (leb (length a) (o + n))) [
        | inl whole ↦ rw whole (
            omega (
              arith,
              later,
              length-append (drop o a) (waiting arrays offsets),
              length-drop o a,
              q.0,
            ))
        | inr part ↦ rw part (
            omega (
              arith,
              willing out offered offered_some,
              length-append (drop o a) (waiting arrays offsets),
              length-drop o a,
              length-append (drop (o + n) a) (waiting arrays offsets),
              length-drop (o + n) a,
              q.0,
            ))
      ]

  sended_progress :
      (s n : ℕ) (t : TransThread)
      → 0 < t.pay_load
      → IsQueued s t
      → let b = (some_data_sended write s n t).buffer_sending s in
        length (waiting b.list_sock_data b.list_offset)
        ≤ length (waiting (t.buffer_sending s).list_sock_data (t.buffer_sending s).list_offset) - 1
  unfolding some_data_sended set_buffer add_written emit
  sended_progress s n t some q = rw (eq→== s s refl) (
      send_queue_progress t.pay_load (t.written s) (t.buffer_sending s).list_sock_data
        (t.buffer_sending s).list_offset some q)

  nothing_waits :
      (arrays : List (List ℕ)) (offsets : List ℕ)
      → IsQueue arrays offsets
      → length (waiting arrays offsets) ≤ 0
      → (arrays ≡ []) × (waiting arrays offsets ≡ [])
  unfolding waiting
  nothing_waits [] [] q h = (refl, refl)
  nothing_waits [] (o ∷ offsets) q h = absurd q
  nothing_waits (a ∷ arrays) [] q h = absurd q
  nothing_waits (a ∷ arrays) (o ∷ offsets) q h =
      absurd
        (omega (arith, q.0, length-append (drop o a) (waiting arrays offsets), length-drop o a))

  -- If sockets take at least a byte of what they are offered and at most all of it, the payload is not
  -- zero, the client is in the list of clients, and its two queues match: after at least as many
  -- signals as bytes wait, everything that was given has been written, and the queue is empty.
  pub all_sent_at_last :
      (s k : ℕ) (t : TransThread)
      → 0 < t.pay_load
      → member s t.client_list ≡ true
      → IsQueued s t
      → length (waiting (t.buffer_sending s).list_sock_data (t.buffer_sending s).list_offset) ≤ k
      → let u = calls write t (signals s k) in
        (u.written s ≡ stream s t) × ((u.buffer_sending s).list_sock_data ≡ [])
  unfolding calls signals call stream
  all_sent_at_last s zero t some client q h =
      let (no_data, none) =
        nothing_waits (t.buffer_sending s).list_sock_data (t.buffer_sending s).list_offset q h in
      (rw none (sym (append-nil (t.written s))), no_data)
  all_sent_at_last s (suc k) t some client q h =
      let u = some_data_sended write s 0 t in
      let (same, q') = sended_keeps write honest s 0 t q in
      let (clients, load) = sended_clients write s 0 t in
      let progress = sended_progress s 0 t some q in
      let (done, no_data) =
        all_sent_at_last s k u (rw load some) (rw clients client) q' (omega (arith, progress, h)) in
      (done ∙ same, no_data)
