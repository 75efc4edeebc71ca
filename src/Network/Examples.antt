-- ===== src/Network/Examples.antt =====
-- Concrete inputs for the theorems on the network engine.
use zpserver.Common.{
  ℕ, ◌≤◌, ◌<◌, ◌≡◌, refl, ◌⊎◌, true, false, some, List, [], ◌∷◌, ◌++◌, arith, map, ◌==◌,
  if◌then◌else◌, length, get_elem?, min,
}
use zpserver.Network.Trans.{TransThread, Write, no_buffer, member, push_to_rabish_can, delete_later}
use zpserver.Network.Trans.Order.{waiting, IsQueued, stream}
use zpserver.Network.Trans.Delivery.{
  SendCall, send, sended, given, calls, signals, sent_in_order, all_sent_at_last,
}
use zpserver.Network.Trans.Rubbish.{put_in, push_to_rabish_can_bounds}
use zpserver.Network.Pool.{
  Worker, Engine, returned, out_of_range, establish_connection, fire_connection, message, emit,
  max_pay, can_exit_thread, on_new_arrived_client, connect_to,
}
use zpserver.Network.Pool.Least.{takes, AllAtLeast, least_loaded_thread}
use zpserver.Network.Pool.Removed.{removed_out_of_range}

-- A socket that takes two bytes at a time.
abbrev two_at_a_time : Write
two_at_a_time out xs = min (length xs) 2

two_honest : (out xs : List ℕ) → two_at_a_time out xs ≤ length xs
two_honest out xs = omega arith

two_willing : (out xs : List ℕ) → 0 < length xs → 0 < two_at_a_time out xs
two_willing out xs h = omega arith

-- Two clients; for client 7, one byte of three was taken.
abbrev example_thread : TransThread
example_thread = record {
  activated = true;
  ssl_connection = false;
  pay_load = 256;
  client_list = 7 ∷ 8 ∷ [];
  buffer_sending = λ s.
      if s == 7
      then record { list_sock_data = (1 ∷ 2 ∷ 3 ∷ []) ∷ []; list_offset = 1 ∷ [] }
      else no_buffer;
  extra_data = [];
  rabish_can = 5 ∷ [];
  set_rabish = 5 ∷ [];
  rubbish_can_size = 2;
  written = λ s. if s == 7 then 1 ∷ [] else [];
  events = [];
}

seven_is_client : member 7 example_thread.client_list ≡ true
unfolding member
seven_is_client = refl

seven-IsQueued : IsQueued 7 example_thread
seven-IsQueued = (omega arith, tt)

abbrev example_calls : List SendCall
example_calls = send 7 (4 ∷ 5 ∷ []) ∷ send 8 (6 ∷ []) ∷ sended 7 1 ∷ []

sent_in_order_example :
    (stream 7 (calls two_at_a_time example_thread example_calls)
      ≡ stream 7 example_thread ++ given 7 example_calls)
    × IsQueued 7 (calls two_at_a_time example_thread example_calls)
sent_in_order_example =
    sent_in_order two_at_a_time two_honest 7 example_calls example_thread seven_is_client
      seven-IsQueued

two_bytes_wait : length (waiting ((1 ∷ 2 ∷ 3 ∷ []) ∷ []) (1 ∷ [])) ≤ 2
unfolding waiting
two_bytes_wait = omega arith

all_sent_at_last_example :
    let u = calls two_at_a_time example_thread (signals 7 2) in
    (u.written 7 ≡ stream 7 example_thread) × ((u.buffer_sending 7).list_sock_data ≡ [])
all_sent_at_last_example =
    all_sent_at_last two_at_a_time two_honest two_willing 7 2 example_thread (omega arith)
      seven_is_client seven-IsQueued two_bytes_wait

push_to_rabish_can_bounds_example :
    let u = push_to_rabish_can 9 example_thread in
    (length u.rabish_can < u.rubbish_can_size)
    × (16 ≤ u.rubbish_can_size)
    × (u.rubbish_can_size ≤ 65536)
    × ((gone : List ℕ) × (gone ++ u.rabish_can ≡ put_in 9 example_thread)
        × (u.events ≡ [] ++ map delete_later gone))
push_to_rabish_can_bounds_example = push_to_rabish_can_bounds 9 example_thread

-- Three trans threads with 4, 2 and 3 clients; one without clients, which is inactive.
abbrev example_worker : ℕ → Worker
example_worker w =
    if w == 0
    then record { active = true; ssl = false; clients = 4 }
    else if w == 1
    then record { active = true; ssl = false; clients = 2 }
    else if w == 2
    then record { active = true; ssl = true; clients = 3 }
    else record { active = false; ssl = false; clients = 0 }

abbrev example_engine : List ℕ → Engine
example_engine threads = record {
  trans_threads = threads;
  worker = example_worker;
  next_thread = 9;
  listen_threads = [];
  events = [];
}

least_loaded_thread_example :
    let e = example_engine (0 ∷ 1 ∷ 2 ∷ []) in
    ((i w : ℕ) × (get_elem? e.trans_threads i ≡ some w)
      × (takes (e.worker w) false ≡ true)
      × ((e.worker w).clients < max_pay)
      × AllAtLeast e.worker false e.trans_threads (e.worker w).clients
      × (on_new_arrived_client 77 false e ≡ returned (emit (establish_connection w 77) e))
      × (connect_to [] 80 false 0 e ≡ returned (emit (fire_connection w [] 80 0) e, true)))
    ⊎ (AllAtLeast e.worker false e.trans_threads max_pay
        × (on_new_arrived_client 77 false e ≡ returned (emit message e))
        × (connect_to [] 80 false 0 e ≡ returned (emit message e, false)))
least_loaded_thread_example =
    least_loaded_thread false 77 [] 80 0 (example_engine (0 ∷ 1 ∷ 2 ∷ []))
      (refl, (refl, (refl, tt)))

exits : can_exit_thread (example_worker 3) ≡ true
unfolding can_exit_thread
exits = refl

removed_out_of_range_example :
    (on_new_arrived_client 77 false (example_engine (0 ∷ 3 ∷ 1 ∷ [])) ≡ out_of_range)
    × (connect_to [] 80 false 0 (example_engine (0 ∷ 3 ∷ 1 ∷ [])) ≡ out_of_range)
removed_out_of_range_example =
    removed_out_of_range false 77 [] 80 0 1 3 (example_engine (0 ∷ 3 ∷ 1 ∷ [])) refl (omega arith)
      exits
