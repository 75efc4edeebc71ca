-- ===== src/Network/Pool/Least.antt =====
-- Which trans thread a new connection goes to, when all the trans threads are active.
use zpserver.Common.{
  ℕ, zero, suc, ◌+◌, ◌≤◌, ◌<◌, ◌≡◌, refl, ap, ◌∙◌, ◌⊎◌, inl, inr, Bool, true, false, ◌&&◌, Option,
  none, some, List, [], ◌∷◌, arith, ltb, ◌==◌, length, get_elem?, Text, Bool-cases,
}
use zpserver.Network.Pool.{
  Worker, Engine, returned, out_of_range, establish_connection, fire_connection, message, emit,
  bool_same, max_pay, least_loaded, remove_old, choose_thread, on_new_arrived_client, connect_to,
}

-- A thread that may take a connection of the kind.
abbrev pub takes : Worker → Bool → Bool
takes w ssl = w.active && bool_same w.ssl ssl

-- Every thread of the list that may take the connection has at least `n` clients.
abbrev pub AllAtLeast : (ℕ → Worker) → Bool → List ℕ → ℕ → Type 0
AllAtLeast worker ssl [] n = Unit {0}
AllAtLeast worker ssl (w ∷ ws) n =
    (takes (worker w) ssl ≡ true → n ≤ (worker w).clients) × AllAtLeast worker ssl ws n

abbrev pub AllActive : (ℕ → Worker) → List ℕ → Type 0
AllActive worker [] = Unit {0}
AllActive worker (w ∷ ws) = ((worker w).active ≡ true) × AllActive worker ws

AllAtLeast-zero : (worker : ℕ → Worker) (ssl : Bool) (ws : List ℕ) → AllAtLeast worker ssl ws 0
AllAtLeast-zero worker ssl [] = tt
AllAtLeast-zero worker ssl (w ∷ ws) = (λ e. omega arith, AllAtLeast-zero worker ssl ws)

-- What the loop finds from round `i` on.
abbrev Found : (ℕ → Worker) → Bool → List ℕ → ℕ → ℕ → Option ℕ → Option ℕ → Type 0
Found worker ssl ws i min_pay found result =
    ((result ≡ found) × AllAtLeast worker ssl ws min_pay)
    ⊎ ((k w : ℕ) × (result ≡ some (k + i))
        × (get_elem? ws k ≡ some w)
        × (takes (worker w) ssl ≡ true)
        × ((worker w).clients < min_pay)
        × AllAtLeast worker ssl ws (worker w).clients)

some_later : (k i : ℕ) → ◌≡◌ {A = Option ℕ} (some (k + suc i)) (some (suc k + i))
some_later k i = ap some (omega arith)

least_loaded-Found :
    (worker : ℕ → Worker) (ssl : Bool) (ws : List ℕ) (i min_pay : ℕ) (found : Option ℕ)
    → Found worker ssl ws i min_pay found (least_loaded worker ssl ws i min_pay found)
unfolding least_loaded
least_loaded-Found worker ssl [] i min_pay found = inl (refl, tt)
least_loaded-Found worker ssl (w ∷ ws) i min_pay found = elim (Bool-cases (min_pay == 0)) [
  | inl zero_pay ↦
      inl (rw zero_pay refl, (λ e. ground arith, ground (arith, AllAtLeast-zero worker ssl ws)))
  | inr pay ↦ elim (Bool-cases (takes (worker w) ssl)) [
    | inr passed ↦ elim (least_loaded-Found worker ssl ws (suc i) min_pay found) [
      | inl (e, all) ↦ inl (ground arith, (λ t. ground arith, all))
      | inr (k, v, e, at, t, less, all) ↦
          inr (suc k, v, ground (arith, some_later k i), at, t, less, (λ t'. ground arith, all))
    ]
    | inl fits ↦ elim (Bool-cases (ltb (worker w).clients min_pay)) [
      | inl better ↦ elim (least_loaded-Found worker ssl ws (suc i) (worker w).clients (some i)) [
        | inl (e, all) ↦ inr (0, w, ground arith, refl, fits, ground arith, (λ t. omega arith, all))
        | inr (k, v, e, at, t, less, all) ↦ inr (
          suc k,
          v,
          ground (arith, some_later k i),
          at,
          t,
          ground arith,
          (λ t'. omega arith, all),
        )
      ]
      | inr worse ↦ elim (least_loaded-Found worker ssl ws (suc i) min_pay found) [
        | inl (e, all) ↦ inl (ground arith, (λ t. ground arith, all))
        | inr (k, v, e, at, t, less, all) ↦
            inr (suc k, v, ground (arith, some_later k i), at, t, less, (λ t'. ground arith, all))
      ]
    ]
  ]
]

active_at :
    (worker : ℕ → Worker) (ws : List ℕ) (i : ℕ)
    → AllActive worker ws
    → i < length ws
    → (w : ℕ) × (get_elem? ws i ≡ some w) × ((worker w).active ≡ true)
active_at worker [] i all h = absurd (omega arith)
active_at worker (w ∷ ws) zero all h = (w, refl, all.0)
active_at worker (w ∷ ws) (suc i) all h = active_at worker ws i all.1 (omega arith)

nothing_removed :
    (n i : ℕ) (e : Engine)
    → AllActive e.worker e.trans_threads
    → n + i ≡ length e.trans_threads
    → remove_old n i e ≡ returned e
unfolding remove_old
nothing_removed zero i e all h = refl
nothing_removed (suc n) i e all h =
    let (w, at, active) = active_at e.worker e.trans_threads i all (omega arith) in
    rw (at, remove_old, active) (nothing_removed n (suc i) e all (omega arith))

choose_when_active :
    (ssl : Bool) (e : Engine) (r : Option ℕ)
    → AllActive e.worker e.trans_threads
    → least_loaded e.worker ssl e.trans_threads 0 max_pay none ≡ r
    → choose_thread ssl e ≡ (elim r [
      | none ↦ returned (e, none)
      | some i ↦ elim (get_elem? e.trans_threads i) [
        | none ↦ out_of_range
        | some w ↦ returned (e, some w)
      ]
    ])
unfolding choose_thread
choose_when_active ssl e r all h =
    rw (nothing_removed (length e.trans_threads) 0 e all (omega arith), choose_thread, h) refl

-- If all trans threads are active, a new connection goes to one that is of its kind, has less than
-- 0x7fffffff clients, and at most as many as any of that kind; so does a connection that is to be
-- made. Or else no thread of the kind has less than 0x7fffffff clients, there is a message, and
-- connectTo returns false.
pub least_loaded_thread :
    (ssl : Bool) (descriptor : ℕ) (address : Text) (port extra : ℕ) (e : Engine)
    → AllActive e.worker e.trans_threads
    → ((i w : ℕ) × (get_elem? e.trans_threads i ≡ some w)
        × (takes (e.worker w) ssl ≡ true)
        × ((e.worker w).clients < max_pay)
        × AllAtLeast e.worker ssl e.trans_threads (e.worker w).clients
        × (on_new_arrived_client descriptor ssl e
            ≡ returned (emit (establish_connection w descriptor) e))
        × (connect_to address port ssl extra e
            ≡ returned (emit (fire_connection w address port extra) e, true)))
      ⊎ (AllAtLeast e.worker ssl e.trans_threads max_pay
          × (on_new_arrived_client descriptor ssl e ≡ returned (emit message e))
          × (connect_to address port ssl extra e ≡ returned (emit message e, false)))
unfolding on_new_arrived_client connect_to
least_loaded_thread ssl descriptor address port extra e all =
    elim (least_loaded-Found e.worker ssl e.trans_threads 0 max_pay none) [
      | inl (r, least) ↦
          let chosen = choose_when_active ssl e none all r in
          inr (least, rw (chosen, on_new_arrived_client) refl, rw (chosen, connect_to) refl)
      | inr (k, w, r, at, fits, less, least) ↦
          let chosen : choose_thread ssl e ≡ returned (e, some w) =
            choose_when_active ssl e (some k) all (r ∙ ap some (omega arith))
            ∙ ground (arith, at) in
          inl (
            k,
            w,
            at,
            fits,
            less,
            least,
            rw (chosen, on_new_arrived_client) refl,
            rw (chosen, connect_to) refl,
          )
    ]
