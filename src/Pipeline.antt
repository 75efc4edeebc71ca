-- ===== src/Pipeline.antt =====
-- The task engine (pipeline/): zp_pipeline keeps a queue of tasks, zp_plWorkingThread takes tasks from
-- it and runs them, zp_plTaskBase counts references and has the lock under which a task runs. A task
-- and a working thread are numbers, a thread's number being its index in m_vec_workingThreads. What
-- is under a mutex is one action; FetchNewTask is cut into its actions, and `Phase` says where in it
-- a thread is. What a task's virtual `run` returns is an argument.
pub mod Schedule
pub mod References
mod Examples
use zpserver.Common.{
  ℕ, zero, suc, ◌+◌, ◌-◌, ◌<◌, ◌≡◌, ◌≢◌, Bool, true, false, not, ◌&&◌, Option, none, some, List, [],
  ◌∷◌, ◌++◌, ltb, leb, ◌==◌, if◌then◌else◌, length, is_empty, get_elem?, replicate,
}

-- Where a thread is in FetchNewTask: not in it; with a task that was popped; with m_bBusy set; in
-- `run` under the task's lock; after `run`, before delRef; after delRef, before pushTask; before
-- UnlockRun; without the lock, before and after delRef; before m_bBusy = false; before taskFinished.
pub data Phase : Type 0 where
  idle leaving finishing : Phase
  popped ready running_task unlocking refused refused_released : ℕ → Phase
  ran released : ℕ → Bool → Phase

-- zp_pipeline, its tasks and its threads. `start_work` and `finished` hold the signals evt_start_work
-- and taskFinished that were not delivered yet, `firing` counts the calls of pushTask that have put
-- their task into the queue and have not looked for a thread yet.
pub record Pipeline : Type 0 where
  pub tasks : List ℕ
  pub ref_count : ℕ → ℕ
  pub locked : ℕ → Bool
  pub phases : List Phase
  pub start_work : List ℕ
  pub finished : List ℕ
  pub firing : ℕ

-- addRef, delRef
unfoldable pub add_ref : ℕ → Pipeline → Pipeline
add_ref p s = record s { ref_count = λ q. if p == q then s.ref_count q + 1 else s.ref_count q }

unfoldable pub del_ref : ℕ → Pipeline → Pipeline
del_ref p s = record s { ref_count = λ q. if p == q then s.ref_count q - 1 else s.ref_count q }

unfoldable pub set_lock : ℕ → Bool → Pipeline → Pipeline
set_lock p b s = record s { locked = λ q. if p == q then b else s.locked q }

unfoldable pub set_at {ℓ} : {A : Type ℓ} → ℕ → A → List A → List A
set_at i a [] = []
set_at zero a (x ∷ xs) = a ∷ xs
set_at (suc i) a (x ∷ xs) = x ∷ set_at i a xs

unfoldable pub set_phase : ℕ → Phase → Pipeline → Pipeline
set_phase w phase s = record s { phases = set_at w phase s.phases }

-- m_bBusy
abbrev pub is_busy : Phase → Bool
is_busy idle = false
is_busy finishing = false
is_busy (popped p) = false
is_busy _ = true

-- pushTask(task, false)
unfoldable pub push_quietly : ℕ → Pipeline → Pipeline
push_quietly p s = add_ref p (record s { tasks = s.tasks ++ p ∷ [] })

-- pushTask(task, true), up to the end of the mutex
unfoldable pub push_task : ℕ → Pipeline → Pipeline
push_task p s = record (push_quietly p s) { firing = suc s.firing }

-- on_finished_task
unfoldable pub on_finished_task : ℕ → Pipeline → Pipeline
on_finished_task w s =
    if is_empty s.tasks then s else record s { start_work = s.start_work ++ w ∷ [] }

unfoldable pub first_idle : List Phase → ℕ → Option ℕ
first_idle [] i = none
first_idle (phase ∷ phases) i =
    let rest = first_idle phases (suc i) in if is_busy phase then rest else some i

-- pushTask(task, true), after the mutex: the first thread that is not busy is told.
unfoldable pub fire : Pipeline → Pipeline
fire s = elim (first_idle s.phases 0) [
  | none ↦ record s { firing = s.firing - 1 }
  | some w ↦ on_finished_task w (record s { firing = s.firing - 1 })
]

unfoldable pub count_idle : List Phase → ℕ
count_idle [] = 0
count_idle (phase ∷ phases) =
    let rest = count_idle phases in if is_busy phase then rest else suc rest

-- idleThreads, threadsCount, payload
unfoldable pub idle_threads : Pipeline → ℕ
idle_threads s = count_idle s.phases

unfoldable pub threads_count : Pipeline → ℕ
threads_count s = length s.phases

unfoldable pub payload : Pipeline → ℕ
payload s = length s.tasks

-- addThreads
unfoldable pub add_threads : ℕ → Pipeline → Pipeline
add_threads n s =
    if leb 1 n && leb n 128 then record s { phases = s.phases ++ replicate n idle } else s

unfoldable pub member : ℕ → List ℕ → Bool
member x [] = false
member x (y ∷ ys) = if y == x then true else member x ys

-- One delivered signal of a list.
unfoldable pub remove_one : ℕ → List ℕ → List ℕ
remove_one x [] = []
remove_one x (y ∷ ys) = let rest = remove_one x ys in if y == x then ys else y ∷ rest

-- The start of FetchNewTask, with popTask.
unfoldable pub fetch_new_task : ℕ → Pipeline → Pipeline
fetch_new_task w s =
    let s' = record s { start_work = remove_one w s.start_work } in
    elim s.tasks [
      | [] ↦ set_phase w finishing s'
      | p ∷ ps ↦ set_phase w (popped p) (record s' { tasks = ps })
    ]

-- The next action of FetchNewTask; `again` says that `run` does not return 0.
unfoldable pub work : Bool → ℕ → Phase → Pipeline → Pipeline
work again w idle s = s
work again w (popped p) s = set_phase w (ready p) s
work again w (ready p) s =
    if s.locked p
    then set_phase w (refused p) s
    else set_phase w (running_task p) (set_lock p true s)
work again w (running_task p) s = set_phase w (ran p again) s
work again w (ran p b) s = set_phase w (released p b) (del_ref p s)
work again w (released p true) s = set_phase w (unlocking p) (push_quietly p s)
work again w (released p false) s = set_phase w (unlocking p) s
work again w (unlocking p) s = set_phase w leaving (set_lock p false s)
work again w (refused p) s = set_phase w (refused_released p) (del_ref p s)
work again w (refused_released p) s = set_phase w leaving (push_quietly p s)
work again w leaving s = set_phase w finishing s
work again w finishing s = set_phase w idle (record s { finished = s.finished ++ w ∷ [] })

-- The delivery of a taskFinished signal.
unfoldable pub hear_finished : ℕ → Pipeline → Pipeline
hear_finished w s = on_finished_task w (record s { finished = remove_one w s.finished })

-- The actions of the threads in whatever order: a call of pushTask from outside, its second half, a
-- delivered signal, or the next action of a thread.
pub data Step (s : Pipeline) : Pipeline → Type 0 where
  pushes : (p : ℕ) → Step s (push_task p s)
  fires : 0 < s.firing → Step s (fire s)
  fetches :
      (w : ℕ)
      → member w s.start_work ≡ true
      → get_elem? s.phases w ≡ some idle
      → Step s (fetch_new_task w s)
  works :
      (w : ℕ) (phase : Phase) (again : Bool)
      → get_elem? s.phases w ≡ some phase
      → phase ≢ idle
      → Step s (work again w phase s)
  hears : (w : ℕ) → member w s.finished ≡ true → Step s (hear_finished w s)

pub data Steps (s : Pipeline) : Pipeline → Type 0 where
  start : Steps s s
  then_step : {t u : Pipeline} → Steps s t → Step t u → Steps s u

-- A task engine with `n` threads, before anything happens.
unfoldable pub new_pipeline : ℕ → Pipeline
new_pipeline n = record {
  tasks = [];
  ref_count = λ p. 0;
  locked = λ p. false;
  phases = replicate n idle;
  start_work = [];
  finished = [];
  firing = 0;
}
