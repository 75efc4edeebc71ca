-- ===== src/Pipeline/References.antt =====
-- The lock under which a task runs, and the references that keep it from being deleted.
use zpserver.Common.{
  ℕ, zero, suc, ◌≤◌, ◌<◌, ◌≡◌, refl, ap, Bool, true, false, some, List, [], ◌∷◌, arith, eq→==,
  if◌then◌else◌, length, get_elem?, replicate,
}
use zpserver.Pipeline.{
  Phase, idle, popped, ready, running_task, ran, released, Pipeline, add_ref, del_ref, set_lock,
  set_at, set_phase, push_quietly, push_task, on_finished_task, first_idle, fire, member,
  remove_one, fetch_new_task, work, pushes, fires, fetches, works, Steps, start, then_step,
  new_pipeline,
}
use zpserver.Pipeline.Schedule.{holds, locks, total, occurs, IsValid, Steps-IsValid, total-at}

total_idle : (f : Phase → ℕ) (n : ℕ) → f idle ≡ 0 → total f (replicate n idle) ≡ 0
total_idle f zero h = refl
total_idle f (suc n) h = omega (arith, total_idle f n h, h)

length_idle : (n : ℕ) → length (replicate n idle) ≡ n
length_idle zero = refl
length_idle (suc n) = ap suc (length_idle n)

pub new_pipeline-IsValid : (n : ℕ) → 0 < n → IsValid (new_pipeline n)
unfolding new_pipeline
new_pipeline-IsValid n h = record {
  threads = rw (length_idle n) h;
  counted = λ q. rw (total_idle (holds q) n refl) refl;
  exclusive = λ q. total_idle (locks q) n refl;
  awake = λ some_left. absurd (omega arith);
}

-- Two threads with the lock count twice.
two_locks :
    (q : ℕ) (v w : ℕ) (a b : Phase) (xs : List Phase)
    → get_elem? xs v ≡ some a
    → get_elem? xs w ≡ some b
    → locks q a ≡ 1
    → locks q b ≡ 1
    → v < w
    → 2 ≤ total (locks q) xs
two_locks q v w a b [] hv hw la lb lt = ground arith
two_locks q zero zero a b (x ∷ xs) hv hw la lb lt = absurd (omega arith)
two_locks q zero (suc w) a b (x ∷ xs) hv hw la lb lt = ground (arith, total-at (locks q) w b xs hw)
two_locks q (suc v) zero a b (x ∷ xs) hv hw la lb lt = absurd (omega arith)
two_locks q (suc v) (suc w) a b (x ∷ xs) hv hw la lb lt =
    omega (arith, two_locks q v w a b xs hv hw la lb (omega arith))

at_most_one : (b : Bool) → (if b then 1 else 0) ≤ 1
at_most_one true = omega arith
at_most_one false = omega arith

-- In no order of the threads' actions do two threads run the same task at a time.
pub runs_alone :
    (n p v w : ℕ) (s : Pipeline)
    → 0 < n
    → Steps (new_pipeline n) s
    → get_elem? s.phases v ≡ some (running_task p)
    → get_elem? s.phases w ≡ some (running_task p)
    → v ≡ w
runs_alone n p v w s some_threads path hv hw =
    let valid = Steps-IsValid (new_pipeline-IsValid n some_threads) path in
    let one = at_most_one (s.locked p) in
    let here : locks p (running_task p) ≡ 1 = rw (eq→== p p refl) refl in
    let lt = two_locks p v w (running_task p) (running_task p) s.phases hv hw here here in
    let gt = two_locks p w v (running_task p) (running_task p) s.phases hw hv here here in
    ground (arith, valid.exclusive p, one, lt, gt)

-- A task that the engine has put aside: not in the queue and not between popTask and delRef.
pub unreferenced_not_waiting :
    (n p : ℕ) (s : Pipeline)
    → 0 < n
    → Steps (new_pipeline n) s
    → s.ref_count p ≡ 0
    → (occurs p s.tasks ≡ 0) × (total (holds p) s.phases ≡ 0)
unreferenced_not_waiting n p s some_threads path zero_ref =
    let valid = Steps-IsValid (new_pipeline-IsValid n some_threads) path in
    (omega (arith, valid.counted p, zero_ref), omega (arith, valid.counted p, zero_ref))

-- With any number of threads, and for any task that asks for another turn, a state comes about in
-- which a thread has yet to put the task back into the queue and the task's reference count is
-- zero: code that deletes the tasks without references would then delete it.
pub released_without_reference :
    (n p : ℕ)
    → (s : Pipeline) × Steps (new_pipeline (suc n)) s
      × (get_elem? s.phases 0 ≡ some (released p true))
      × (s.ref_count p ≡ 0)
unfolding new_pipeline push_task push_quietly add_ref del_ref fire first_idle on_finished_task
    fetch_new_task member remove_one set_phase set_at set_lock work
released_without_reference n p = (
  _,
  then_step
      (then_step
        (then_step
          (then_step
            (then_step (then_step (then_step start (pushes p)) (fires (omega arith)))
              (fetches 0 refl refl))
            (works 0 (popped p) true refl (λ e. cc)))
          (works 0 (ready p) true refl (λ e. cc)))
        (works 0 (running_task p) true refl (λ e. cc)))
      (works 0 (ran p true) true refl (λ e. cc)),
  refl,
  ground (arith, eq→== p p refl),
)
