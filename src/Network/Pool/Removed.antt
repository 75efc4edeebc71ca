-- ===== src/Network/Pool/Removed.antt =====
-- The clean-up of trans threads before a connection is handed out: its loop counts up to the number
-- of threads there were before it, while TransThreadDel takes threads out of the vector.
use zpserver.Common.{
  ℕ, zero, suc, ◌+◌, ◌≤◌, ◌<◌, ◌≡◌, refl, inl, inr, Bool, true, false, some, List, [], ◌∷◌, arith,
  if◌then◌else◌, length, get_elem?, Text, Bool-cases, Option-cases,
}
use zpserver.Network.Pool.{
  Worker, Engine, out_of_range, emit, can_exit_thread, remove_first, stands_in, trans_thread_del,
  remove_old, choose_thread, on_new_arrived_client, connect_to,
}

get_elem?-length : (ws : List ℕ) (i w : ℕ) → get_elem? ws i ≡ some w → i < length ws
get_elem?-length [] i w h = ground arith
get_elem?-length (v ∷ ws) zero w h = omega arith
get_elem?-length (v ∷ ws) (suc i) w h = omega (arith, get_elem?-length ws i w h)

get_elem?-stands_in : (ws : List ℕ) (i w : ℕ) → get_elem? ws i ≡ some w → stands_in w ws ≡ true
unfolding stands_in
get_elem?-stands_in [] i w h = ground arith
get_elem?-stands_in (v ∷ ws) zero w h = ground arith
get_elem?-stands_in (v ∷ ws) (suc i) w h = ground (arith, get_elem?-stands_in ws i w h)

remove_first-length :
    (w : ℕ) (ws : List ℕ) → stands_in w ws ≡ true → suc (length (remove_first w ws)) ≡ length ws
unfolding stands_in remove_first
remove_first-length w [] h = ground arith
remove_first-length w (v ∷ ws) h = ground (arith, remove_first-length w ws)

-- TransThreadDel leaves the engine as it is, or takes out one thread.
trans_thread_del-length :
    (w : ℕ) (e : Engine) → length (trans_thread_del w e).0.trans_threads ≤ length e.trans_threads
unfolding trans_thread_del emit
trans_thread_del-length w e = ground (arith, remove_first-length w e.trans_threads)

deleted :
    (w : ℕ) (e : Engine)
    → can_exit_thread (e.worker w) ≡ true
    → stands_in w e.trans_threads ≡ true
    → suc (length (trans_thread_del w e).0.trans_threads) ≡ length e.trans_threads
unfolding trans_thread_del emit
deleted w e can there = ground (arith, remove_first-length w e.trans_threads)

kept : (w : ℕ) (e : Engine) → can_exit_thread (e.worker w) ≡ false → (trans_thread_del w e).0 ≡ e
unfolding trans_thread_del
kept w e can = ground arith

-- One round.
abbrev round : ℕ → Engine → Engine
round w e = if (e.worker w).active then e else (trans_thread_del w e).0

round-length : (w : ℕ) (e : Engine) → length (round w e).trans_threads ≤ length e.trans_threads
round-length w e = elim (Bool-cases (e.worker w).active) [
  | inl a ↦ rw a (omega arith)
  | inr a ↦ rw a (trans_thread_del-length w e)
]

-- Once a thread is missing, the last round reads past the end.
past_the_end :
    (n i : ℕ) (e : Engine)
    → 0 < n
    → length e.trans_threads < n + i
    → remove_old n i e ≡ out_of_range
unfolding remove_old
past_the_end zero i e some_left h = absurd (omega arith)
past_the_end (suc n) i e some_left h = elim (Option-cases (get_elem? e.trans_threads i)) [
  | inl at ↦ rw (at, remove_old) refl
  | inr (w, at) ↦
      rw (at, remove_old)
        (past_the_end n (suc i) (round w e) (omega (arith, get_elem?-length e.trans_threads i w at))
          (omega (arith, round-length w e)))
]

thread_at : (ws : List ℕ) (i : ℕ) → i < length ws → (w : ℕ) × (get_elem? ws i ≡ some w)
thread_at [] i h = absurd (omega arith)
thread_at (w ∷ ws) zero h = (w, refl)
thread_at (w ∷ ws) (suc i) h = thread_at ws i (omega arith)

inactive : (w : Worker) → can_exit_thread w ≡ true → w.active ≡ false
unfolding can_exit_thread
inactive w h = ground arith

-- A round that takes a thread out, with rounds left.
round_removes :
    (n i w : ℕ) (e : Engine)
    → get_elem? e.trans_threads i ≡ some w
    → can_exit_thread (e.worker w) ≡ true
    → 0 < n
    → suc n + i ≡ length e.trans_threads
    → remove_old (suc n) i e ≡ out_of_range
unfolding remove_old
round_removes n i w e at can some_left h =
    rw (at, remove_old, inactive (e.worker w) can)
      (past_the_end n (suc i) (trans_thread_del w e).0 some_left
        (omega (arith, deleted w e can (get_elem?-stands_in e.trans_threads i w at))))

removed_before_end :
    (n k i w : ℕ) (e : Engine)
    → get_elem? e.trans_threads (k + i) ≡ some w
    → can_exit_thread (e.worker w) ≡ true
    → suc k < n
    → n + i ≡ length e.trans_threads
    → remove_old n i e ≡ out_of_range
unfolding remove_old
removed_before_end zero k i w e at can before h = absurd (omega arith)
removed_before_end (suc n) zero i w e at can before h =
    round_removes n i w e (ground arith) can (omega arith) h
removed_before_end (suc n) (suc k) i w e at can before h =
    let (v, here) = thread_at e.trans_threads i (omega arith) in
    elim (Bool-cases (can_exit_thread (e.worker v))) [
      | inl goes ↦ round_removes n i v e here goes (omega arith) h
      | inr stays ↦
          let same : round v e ≡ e = ground (arith, kept v e stays) in
          rw (here, remove_old, same)
            (removed_before_end n k (suc i) w e (ground arith) can (omega arith) (omega arith))
    ]

no_choice :
    (ssl : Bool) (k w : ℕ) (e : Engine)
    → get_elem? e.trans_threads k ≡ some w
    → suc k < length e.trans_threads
    → can_exit_thread (e.worker w) ≡ true
    → choose_thread ssl e ≡ out_of_range
unfolding choose_thread
no_choice ssl k w e at before can =
    rw
      (
        removed_before_end (length e.trans_threads) k 0 w e (ground arith) can before (omega arith),
        choose_thread,
      )
      refl

-- If a trans thread that is not the last one of the vector is inactive and has no clients, then a
-- new connection, and one that is to be made, reads past the end of the vector.
pub removed_out_of_range :
    (ssl : Bool) (descriptor : ℕ) (address : Text) (port extra k w : ℕ) (e : Engine)
    → get_elem? e.trans_threads k ≡ some w
    → suc k < length e.trans_threads
    → can_exit_thread (e.worker w) ≡ true
    → (on_new_arrived_client descriptor ssl e ≡ out_of_range)
      × (connect_to address port ssl extra e ≡ out_of_range)
unfolding on_new_arrived_client connect_to
removed_out_of_range ssl descriptor address port extra k w e at before can =
    let chosen = no_choice ssl k w e at before can in
    (rw (chosen, on_new_arrived_client) refl, rw (chosen, connect_to) refl)
