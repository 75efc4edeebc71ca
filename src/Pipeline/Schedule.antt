-- ===== src/Pipeline/Schedule.antt =====
-- What holds of the task engine in every order of its actions.
use zpserver.Common.{
  ℕ, zero, suc, ◌+◌, ◌-◌, ◌≤◌, ◌<◌, ◌≡◌, refl, ap, inl, inr, Bool, true, false, none, some, List,
  [], ◌∷◌, ◌++◌, arith, ◌==◌, if◌then◌else◌, length, is_empty, get_elem?, Bool-cases, Option-cases,
  length-append,
}
use zpserver.Pipeline.{
  Phase, idle, leaving, finishing, popped, ready, running_task, unlocking, refused,
  refused_released, ran, released, Pipeline, add_ref, del_ref, set_lock, set_at, set_phase, is_busy,
  push_quietly, push_task, on_finished_task, first_idle, fire, remove_one, fetch_new_task, work,
  hear_finished, Step, pushes, fires, fetches, works, hears, Steps, start, then_step,
}

-- The references that a thread has to a task: one from popTask to delRef.
abbrev pub holds : ℕ → Phase → ℕ
holds q (popped p) = if p == q then 1 else 0
holds q (ready p) = if p == q then 1 else 0
holds q (running_task p) = if p == q then 1 else 0
holds q (ran p b) = if p == q then 1 else 0
holds q (refused p) = if p == q then 1 else 0
holds q _ = 0

-- Whether a thread has the lock of a task: from LockRun to UnlockRun.
abbrev pub locks : ℕ → Phase → ℕ
locks q (running_task p) = if p == q then 1 else 0
locks q (ran p b) = if p == q then 1 else 0
locks q (released p b) = if p == q then 1 else 0
locks q (unlocking p) = if p == q then 1 else 0
locks q _ = 0

-- A thread is in FetchNewTask.
abbrev pub works_on : Phase → ℕ
works_on idle = 0
works_on _ = 1

abbrev pub total : (Phase → ℕ) → List Phase → ℕ
total f [] = 0
total f (x ∷ xs) = f x + total f xs

abbrev pub occurs : ℕ → List ℕ → ℕ
occurs q [] = 0
occurs q (p ∷ ps) = (if p == q then 1 else 0) + occurs q ps

-- Something is under way: a signal, a call that will look for a thread, or a thread at work.
abbrev pub under_way : Pipeline → ℕ
under_way s = length s.start_work + length s.finished + s.firing + total works_on s.phases

pub record IsValid (s : Pipeline) : Type 0 where
  pub threads : 0 < length s.phases
  pub counted : (q : ℕ) → s.ref_count q ≡ occurs q s.tasks + total (holds q) s.phases
  pub exclusive : (q : ℕ) → total (locks q) s.phases ≡ (if s.locked q then 1 else 0)
  pub awake : 0 < length s.tasks → 0 < under_way s

pub occurs-append : (q : ℕ) (ps qs : List ℕ) → occurs q (ps ++ qs) ≡ occurs q ps + occurs q qs
occurs-append q [] qs = omega arith
occurs-append q (p ∷ ps) qs = ground (arith, occurs-append q ps qs)

pub total-set_at :
    (f : Phase → ℕ) (w : ℕ) (a b : Phase) (xs : List Phase)
    → get_elem? xs w ≡ some a
    → total f (set_at w b xs) + f a ≡ total f xs + f b
unfolding set_at
total-set_at f w a b [] h = ground arith
total-set_at f zero a b (x ∷ xs) h = ground arith
total-set_at f (suc w) a b (x ∷ xs) h = omega (arith, total-set_at f w a b xs h)

pub total-at :
    (f : Phase → ℕ) (w : ℕ) (a : Phase) (xs : List Phase)
    → get_elem? xs w ≡ some a
    → f a ≤ total f xs
total-at f w a [] h = ground arith
total-at f zero a (x ∷ xs) h = ground arith
total-at f (suc w) a (x ∷ xs) h = omega (arith, total-at f w a xs h)

length-set_at : (w : ℕ) (b : Phase) (xs : List Phase) → length (set_at w b xs) ≡ length xs
unfolding set_at
length-set_at w b [] = refl
length-set_at zero b (x ∷ xs) = refl
length-set_at (suc w) b (x ∷ xs) = ap suc (length-set_at w b xs)

push-IsValid : (p : ℕ) (s : Pipeline) → IsValid s → IsValid (push_task p s)
unfolding push_task push_quietly add_ref
push-IsValid p s v = record {
  threads = v.threads;
  counted = λ q. ground (arith, v.counted q, occurs-append q s.tasks (p ∷ []));
  exclusive = λ q. v.exclusive q;
  awake = λ h. omega arith;
}

no_length : (xs : List ℕ) → is_empty xs ≡ true → length xs ≡ 0
no_length [] h = refl
no_length (x ∷ xs) h = cc

-- What on_finished_task needs: all but the last field, before it.
on_finished_task-IsValid :
    (w : ℕ) (s : Pipeline)
    → 0 < length s.phases
    → ((q : ℕ) → s.ref_count q ≡ occurs q s.tasks + total (holds q) s.phases)
    → ((q : ℕ) → total (locks q) s.phases ≡ (if s.locked q then 1 else 0))
    → IsValid (on_finished_task w s)
unfolding on_finished_task
on_finished_task-IsValid w s threads counted exclusive = elim (Bool-cases (is_empty s.tasks)) [
  | inl none_left ↦ rw none_left (record {
    threads = threads;
    counted = counted;
    exclusive = exclusive;
    awake = λ h. absurd (omega (arith, no_length s.tasks none_left));
  })
  | inr some_left ↦ rw some_left (record {
    threads = threads;
    counted = counted;
    exclusive = exclusive;
    awake = λ h. omega (arith, length-append s.start_work (w ∷ []));
  })
]

busy_works : (x : Phase) → is_busy x ≡ true → works_on x ≡ 1
busy_works idle h = cc
busy_works leaving h = refl
busy_works finishing h = cc
busy_works (popped p) h = refl
busy_works (ready p) h = refl
busy_works (running_task p) h = refl
busy_works (unlocking p) h = refl
busy_works (refused p) h = refl
busy_works (refused_released p) h = refl
busy_works (ran p b) h = refl
busy_works (released p b) h = refl

-- If every thread is busy, some thread is at work.
none_idle :
    (xs : List Phase) (i : ℕ) → first_idle xs i ≡ none → 0 < length xs → 0 < total works_on xs
unfolding first_idle
none_idle [] i h there = absurd (omega arith)
none_idle (x ∷ xs) i h there = ground (arith, busy_works x)

fire-IsValid : (s : Pipeline) → IsValid s → IsValid (fire s)
unfolding fire
fire-IsValid s v = elim (Option-cases (first_idle s.phases 0)) [
  | inl all_busy ↦
      rw (all_busy, fire)
        (record {
          threads = v.threads;
          counted = v.counted;
          exclusive = v.exclusive;
          awake = λ h. omega (arith, none_idle s.phases 0 all_busy v.threads);
        })
  | inr (w, free) ↦
      rw (free, fire)
        (on_finished_task-IsValid w (record s { firing = s.firing - 1 }) v.threads v.counted
          v.exclusive)
]

hear-IsValid : (w : ℕ) (s : Pipeline) → IsValid s → IsValid (hear_finished w s)
unfolding hear_finished
hear-IsValid w s v =
    on_finished_task-IsValid w (record s { finished = remove_one w s.finished }) v.threads v.counted
      v.exclusive

-- A state whose phases changed at one place, with the new counts.
moved :
    (w : ℕ) (a b : Phase) (s u : Pipeline)
    → get_elem? s.phases w ≡ some a
    → u.phases ≡ set_at w b s.phases
    → ((q : ℕ)
        → s.ref_count q ≡ occurs q s.tasks + total (holds q) s.phases
        → holds q a ≤ total (holds q) s.phases
        → u.ref_count q + holds q a ≡ occurs q u.tasks + total (holds q) s.phases + holds q b)
    → ((q : ℕ)
        → total (locks q) s.phases ≡ (if s.locked q then 1 else 0)
        → locks q a ≤ total (locks q) s.phases
        → total (locks q) s.phases + locks q b ≡ (if u.locked q then 1 else 0) + locks q a)
    → 0 < length u.finished + works_on b
    → IsValid s
    → IsValid u
moved w a b s u at same counts keeps going v = record {
  threads = rw (same, length-set_at w b s.phases) v.threads;
  counted = λ q. rw same (
      omega (
        arith,
        counts q (v.counted q) (total-at (holds q) w a s.phases at),
        total-set_at (holds q) w a b s.phases at,
      ));
  exclusive = λ q. rw same (
      omega (
        arith,
        keeps q (v.exclusive q) (total-at (locks q) w a s.phases at),
        total-set_at (locks q) w a b s.phases at,
      ));
  awake = λ h. rw same (
      omega
        (arith, going, total-set_at works_on w a b s.phases at, total-at works_on w a s.phases at));
}

fetch-IsValid :
    (w : ℕ) (s : Pipeline)
    → get_elem? s.phases w ≡ some idle
    → IsValid s
    → IsValid (fetch_new_task w s)
unfolding fetch_new_task set_phase
fetch-IsValid w s at v = go s.tasks refl
  where
    go : (ps : List ℕ) → s.tasks ≡ ps → IsValid (fetch_new_task w s)
    go [] e =
        rw (e, fetch_new_task)
          (moved w idle finishing s _ at refl (λ q h l. ground arith) (λ q h l. ground arith)
            (omega arith) v)
    go (p ∷ ps) e =
        rw (e, fetch_new_task)
          (moved w idle (popped p) s _ at refl (λ q h l. ground (arith, e)) (λ q h l. ground arith)
            (omega arith) v)

work-IsValid :
    (again : Bool) (w : ℕ) (phase : Phase) (s : Pipeline)
    → get_elem? s.phases w ≡ some phase
    → IsValid s
    → IsValid (work again w phase s)
unfolding work set_phase set_lock push_quietly add_ref del_ref
work-IsValid again w idle s at v = v
work-IsValid again w (popped p) s at v =
    moved w (popped p) (ready p) s _ at refl (λ q h l. ground arith) (λ q h l. ground arith)
      (omega arith) v
work-IsValid again w (ready p) s at v = elim (Bool-cases (s.locked p)) [
  | inl taken ↦ rw taken (
      moved w (ready p) (refused p) s _ at refl (λ q h l. ground arith) (λ q h l. ground arith)
        (omega arith) v)
  | inr free ↦ rw free (
      moved w (ready p) (running_task p) s _ at refl (λ q h l. ground arith) (λ q h l. ground arith)
        (omega arith) v)
]
work-IsValid again w (running_task p) s at v =
    moved w (running_task p) (ran p again) s _ at refl (λ q h l. ground arith)
      (λ q h l. ground arith) (omega arith) v
work-IsValid again w (ran p b) s at v =
    moved w (ran p b) (released p b) s _ at refl (λ q h l. ground arith) (λ q h l. ground arith)
      (omega arith) v
work-IsValid again w (released p true) s at v =
    moved w (released p true) (unlocking p) s _ at refl
      (λ q h l. ground (arith, occurs-append q s.tasks (p ∷ []))) (λ q h l. ground arith)
      (omega arith) v
work-IsValid again w (released p false) s at v =
    moved w (released p false) (unlocking p) s _ at refl (λ q h l. ground arith)
      (λ q h l. ground arith) (omega arith) v
work-IsValid again w (unlocking p) s at v =
    moved w (unlocking p) leaving s _ at refl (λ q h l. ground arith) (λ q h l. ground arith)
      (omega arith) v
work-IsValid again w (refused p) s at v =
    moved w (refused p) (refused_released p) s _ at refl (λ q h l. ground arith)
      (λ q h l. ground arith) (omega arith) v
work-IsValid again w (refused_released p) s at v =
    moved w (refused_released p) leaving s _ at refl
      (λ q h l. ground (arith, occurs-append q s.tasks (p ∷ []))) (λ q h l. ground arith)
      (omega arith) v
work-IsValid again w leaving s at v =
    moved w leaving finishing s _ at refl (λ q h l. ground arith) (λ q h l. ground arith)
      (omega arith) v
work-IsValid again w finishing s at v =
    moved w finishing idle s _ at refl (λ q h l. ground arith) (λ q h l. ground arith)
      (omega (arith, length-append s.finished (w ∷ []))) v

pub Step-IsValid : {s u : Pipeline} → Step s u → IsValid s → IsValid u
Step-IsValid {s} (pushes p) v = push-IsValid p s v
Step-IsValid {s} (fires h) v = fire-IsValid s v
Step-IsValid {s} (fetches w h at) v = fetch-IsValid w s at v
Step-IsValid {s} (works w phase again at h) v = work-IsValid again w phase s at v
Step-IsValid {s} (hears w h) v = hear-IsValid w s v

-- Whatever the order of the threads' actions, at every point: a task's reference count is the number
-- of its places in the queue and of the threads between popTask and delRef with it; at most one
-- thread is inside a task's lock, one exactly when it is locked; and while a task waits in the
-- queue, a signal, a call of pushTask or a thread at work is on the way that will look at the queue.
pub Steps-IsValid : {s u : Pipeline} → IsValid s → Steps s u → IsValid u
Steps-IsValid v start = v
Steps-IsValid v (then_step before last) = Step-IsValid last (Steps-IsValid v before)
