-- ===== src/Network/Pool.antt =====
-- network/zp_net_threadpool.cpp: zp_net_Engine, which hands connections to the trans threads. A
-- listening or trans thread is a number; of a trans thread, the engine reads whether it is active,
-- whether it is for SSL, and how many clients it has. The run of a thread's event loop that
-- QThread::wait waits for is not modelled.
pub mod Least
pub mod Removed
use zpserver.Common.{
  ℕ, zero, suc, ◌+◌, ◌-◌, Bool, true, false, not, ◌&&◌, ◌||◌, Option, none, some, List, [], ◌∷◌,
  ◌++◌, ltb, leb, ◌==◌, if◌then◌else◌, length, is_empty, get_elem?, Text, text_key, lookup, insert,
  remove, contains, replicate,
}

-- What the engine sees of a zp_netTransThread.
pub record Worker : Type 0 where
  pub active : Bool
  pub ssl : Bool
  pub clients : ℕ

pub data Event : Type 0 where
  start_listen stop_listen : Text → Event
  establish_connection : ℕ → ℕ → Event
  fire_connection : ℕ → Text → ℕ → ℕ → Event
  kick_all deactivate : ℕ → Event
  send_data : ℕ → List ℕ → Event
  kick_client : ℕ → Event
  delete_trans delete_listen : ℕ → Event
  message : Event

pub record Engine : Type 0 where
  pub trans_threads : List ℕ
  pub worker : ℕ → Worker
  pub next_thread : ℕ
  pub listen_threads : List (Text × ℕ)
  pub events : List Event

-- What a call does: it returns, or it reads past the end of the vector of threads.
pub data Outcome (A : Type 0) : Type 0 where
  returned : A → Outcome A
  out_of_range : Outcome A

unfoldable pub emit : Event → Engine → Engine
emit x e = record e { events = e.events ++ x ∷ [] }

abbrev pub bool_same : Bool → Bool → Bool
bool_same true b = b
bool_same false b = not b

-- TransThreadNum
unfoldable pub count_threads : (ℕ → Worker) → List ℕ → Bool → ℕ
count_threads worker [] ssl = 0
count_threads worker (w ∷ ws) ssl =
    let rest = count_threads worker ws ssl in
    if bool_same (worker w).ssl ssl then suc rest else rest

unfoldable pub trans_thread_num : Bool → Engine → ℕ
trans_thread_num ssl e = count_threads e.worker e.trans_threads ssl

-- totalClients
unfoldable pub total_clients : ℕ → Engine → ℕ
total_clients idx e = elim (get_elem? e.trans_threads idx) [
  | none ↦ 0
  | some w ↦ (e.worker w).clients
]

-- AddListeningAddress, RemoveListeningAddress, RemoveAllAddresses, on_ListenClosed
unfoldable pub add_listening_address : Text → Engine → Engine
add_listening_address id e =
    if contains id e.listen_threads
    then emit message e
    else emit (start_listen id) (record e {
      listen_threads = insert id e.next_thread e.listen_threads;
      next_thread = suc e.next_thread;
    })

unfoldable pub remove_listening_address : Text → Engine → Engine
remove_listening_address id e = if contains id e.listen_threads then emit (stop_listen id) e else e

unfoldable pub stop_all : List (Text × ℕ) → Engine → Engine
stop_all [] e = e
stop_all ((id, l) ∷ m) e = stop_all m (emit (stop_listen id) e)

unfoldable pub remove_all_addresses : Engine → Engine
remove_all_addresses e = stop_all e.listen_threads e

unfoldable pub on_listen_closed : Text → Engine → Engine
on_listen_closed id e = elim (lookup id e.listen_threads) [
  | none ↦ e
  | some l ↦ emit (delete_listen l) (record e { listen_threads = remove id e.listen_threads })
]

-- nMinPay before any thread is seen
abbrev pub max_pay : ℕ
max_pay = 0x7fffffff

-- for (int i=0;i<nsz && nMinPay!=0;i++): the index of the thread found, if any.
unfoldable pub least_loaded : (ℕ → Worker) → Bool → List ℕ → ℕ → ℕ → Option ℕ → Option ℕ
least_loaded worker ssl [] i min_pay found = found
least_loaded worker ssl (w ∷ ws) i min_pay found =
    let pat = (worker w).clients in
    let passed = least_loaded worker ssl ws (suc i) min_pay found in
    let better = least_loaded worker ssl ws (suc i) pat (some i) in
    if min_pay == 0
    then found
    else if not (worker w).active || not (bool_same (worker w).ssl ssl)
    then passed
    else if ltb pat min_pay
    then better
    else passed

-- zp_netTransThread::CanExit
unfoldable pub can_exit_thread : Worker → Bool
can_exit_thread w = not w.active && (w.clients == 0)

-- m_vec_NetTransThreads.remove(idx), for the index at which the thread stands first
unfoldable pub remove_first : ℕ → List ℕ → List ℕ
remove_first w [] = []
remove_first w (v ∷ vs) = let rest = remove_first w vs in if v == w then vs else v ∷ rest

-- The index loop of TransThreadDel finds something.
unfoldable pub stands_in : ℕ → List ℕ → Bool
stands_in w [] = false
stands_in w (v ∷ vs) = if v == w then true else stands_in w vs

-- TransThreadDel
unfoldable pub trans_thread_del : ℕ → Engine → Engine × Bool
trans_thread_del w e =
    if can_exit_thread (e.worker w)
    then (if stands_in w e.trans_threads
        then (
          emit (delete_trans w) (record e { trans_threads = remove_first w e.trans_threads }),
          true,
        )
        else (e, true))
    else (e, false)

-- for (int i=0;i<nsz;i++) if (!isActive()) TransThreadDel: `n` rounds are left, the next is round `i`.
unfoldable pub remove_old : ℕ → ℕ → Engine → Outcome Engine
remove_old zero i e = returned e
remove_old (suc n) i e = elim (get_elem? e.trans_threads i) [
  | none ↦ out_of_range
  | some w ↦ remove_old n (suc i) (if (e.worker w).active then e else (trans_thread_del w e).0)
]

-- The choice and the clean-up that on_New_Arrived_Client and connectTo share. After the clean-up the
-- thread is read at the index that was found before.
unfoldable pub choose_thread : Bool → Engine → Outcome (Engine × Option ℕ)
choose_thread ssl e =
    let found = least_loaded e.worker ssl e.trans_threads 0 max_pay none in
    elim (remove_old (length e.trans_threads) 0 e) [
      | out_of_range ↦ out_of_range
      | returned e' ↦ elim found [
        | none ↦ returned (e', none)
        | some i ↦ elim (get_elem? e'.trans_threads i) [
          | none ↦ out_of_range
          | some w ↦ returned (e', some w)
        ]
      ]
    ]

-- on_New_Arrived_Client, from a listening thread
unfoldable pub on_new_arrived_client : ℕ → Bool → Engine → Outcome Engine
on_new_arrived_client descriptor ssl e = elim (choose_thread ssl e) [
  | out_of_range ↦ out_of_range
  | returned (e', none) ↦ returned (emit message e')
  | returned (e', some w) ↦ returned (emit (establish_connection w descriptor) e')
]

-- connectTo
unfoldable pub connect_to : Text → ℕ → Bool → ℕ → Engine → Outcome (Engine × Bool)
connect_to address port ssl extra e = elim (choose_thread ssl e) [
  | out_of_range ↦ out_of_range
  | returned (e', none) ↦ returned (emit message e', false)
  | returned (e', some w) ↦ returned (emit (fire_connection w address port extra) e', true)
]

-- AddClientTransThreads
unfoldable pub add_threads : ℕ → Bool → Engine → Engine
add_threads zero ssl e = e
add_threads (suc n) ssl e = add_threads n ssl (record e {
  trans_threads = e.trans_threads ++ e.next_thread ∷ [];
  worker = λ w.
      if e.next_thread == w then record { active = true; ssl = ssl; clients = 0 } else e.worker w;
  next_thread = suc e.next_thread;
})

unfoldable pub add_client_trans_threads : ℕ → Bool → Engine → Engine
add_client_trans_threads n ssl e = if ltb 0 n && ltb n 256 then add_threads n ssl e else e

-- KickAllClients, DeactiveImmediately, SendDataToClient, KickClients
unfoldable pub emit_for : (ℕ → Event) → List ℕ → Engine → Engine
emit_for f [] e = e
emit_for f (w ∷ ws) e = emit_for f ws (emit (f w) e)

unfoldable pub kick_all_clients : Engine → Engine
kick_all_clients e = emit_for kick_all e.trans_threads e

unfoldable pub deactive_immediately : Engine → Engine
deactive_immediately e = emit_for deactivate e.trans_threads e

unfoldable pub send_data_to_client : ℕ → List ℕ → Engine → Engine
send_data_to_client sock array e = emit (send_data sock array) e

unfoldable pub kick_clients : ℕ → Engine → Engine
kick_clients sock e = emit (kick_client sock) e

-- for (int i=nsz-1;i>=0 && res==true;i--): the threads are given from the last to the first.
unfoldable pub delete_from_end : List ℕ → Engine → Engine × Bool
delete_from_end [] e = (e, true)
delete_from_end (w ∷ ws) e =
    let (e', res) = trans_thread_del w e in
    let rest = delete_from_end ws e' in if res then rest else (e', false)

unfoldable pub reverse_onto : List ℕ → List ℕ → List ℕ
reverse_onto [] ys = ys
reverse_onto (x ∷ xs) ys = reverse_onto xs (x ∷ ys)

-- CanExit
unfoldable pub can_exit : Engine → Engine × Bool
can_exit e =
    let (e', res) = delete_from_end (reverse_onto e.trans_threads []) e in
    (e', res && is_empty e'.listen_threads)

-- RemoveClientTransThreads: `n` threads of the kind are deactivated; a negative number is `none`.
unfoldable pub deactivate_first : ℕ → Bool → List ℕ → (ℕ → Worker) → ℕ → Worker
deactivate_first n ssl [] worker = worker
deactivate_first zero ssl (w ∷ ws) worker = worker
deactivate_first (suc n) ssl (w ∷ ws) worker =
    let passed = deactivate_first (suc n) ssl ws worker in
    let next =
      deactivate_first n ssl ws
        (λ v. if w == v then record (worker v) { active = false } else worker v) in
    if bool_same (worker w).ssl ssl then next else passed

unfoldable pub thread_count : Option ℕ → Engine → ℕ
thread_count none e = length e.trans_threads
thread_count (some n) e = n

unfoldable pub remove_client_trans_threads : Option ℕ → Bool → Engine → Engine
remove_client_trans_threads n ssl e =
    (can_exit
      (record e { worker = deactivate_first (thread_count n e) ssl e.trans_threads e.worker })).0
