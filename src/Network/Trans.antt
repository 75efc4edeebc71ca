-- ===== src/Network/Trans.antt =====
-- network/zp_nettransthread.cpp: a zp_netTransThread, which owns the sockets of its clients. A socket
-- is a number. The body of a Qt slot is a function of the thread's state; what a slot emits or calls
-- of Qt goes to `events`, the bytes that a socket took to `written`. How many of the bytes that
-- QTcpSocket::write is offered it takes is the argument `write`, which may depend on what it took
-- before; the -1 that it returns for a socket that is not open is not modelled.
pub mod Order
pub mod Rubbish
pub mod Delivery
use zpserver.Common.{
  ℕ, zero, suc, ◌+◌, ◌-◌, ◌≡◌, Bool, true, false, not, ◌&&◌, Option, none, some, List, [], ◌∷◌,
  ◌++◌, ltb, leb, ◌==◌, if◌then◌else◌, length, is_empty, take, drop, nat_key, lookup, insert,
  remove, contains, min,
}

pub data Event : Type 0 where
  new_client_connected client_encrypted client_disconnected : ℕ → ℕ → Event
  data_recieved : ℕ → List ℕ → ℕ → Event
  data_transferred : ℕ → ℕ → ℕ → Event
  socket_error : ℕ → ℕ → ℕ → Event
  disconnect_from_host abort delete_later : ℕ → Event
  message : ℕ → Event

-- m_buffer_sending[sock] and m_buffer_sending_offset[sock]
pub record Buffer : Type 0 where
  pub list_sock_data : List (List ℕ)
  pub list_offset : List ℕ

pub record TransThread : Type 0 where
  pub activated : Bool
  pub ssl_connection : Bool
  pub pay_load : ℕ
  pub client_list : List ℕ
  pub buffer_sending : ℕ → Buffer
  pub extra_data : List (ℕ × ℕ)
  pub rabish_can : List ℕ
  pub set_rabish : List ℕ
  pub rubbish_can_size : ℕ
  pub written : ℕ → List ℕ
  pub events : List Event

unfoldable pub emit : Event → TransThread → TransThread
emit e t = record t { events = t.events ++ e ∷ [] }

-- A set of objects: contains, insert, remove.
unfoldable pub member : ℕ → List ℕ → Bool
member x [] = false
member x (y ∷ ys) = if y == x then true else member x ys

unfoldable pub include : ℕ → List ℕ → List ℕ
include x ys = if member x ys then ys else ys ++ x ∷ []

unfoldable pub exclude : ℕ → List ℕ → List ℕ
exclude x [] = []
exclude x (y ∷ ys) = let rest = exclude x ys in if y == x then rest else y ∷ rest

-- m_extraData[sock], 0 if there is none
unfoldable pub extra_of : ℕ → TransThread → ℕ
extra_of sock t = elim (lookup sock t.extra_data) [ none ↦ 0 | some x ↦ x ]

abbrev pub no_buffer : Buffer
no_buffer = record { list_sock_data = []; list_offset = [] }

unfoldable pub set_buffer : ℕ → Buffer → TransThread → TransThread
set_buffer sock b t = record t { buffer_sending = λ s. if sock == s then b else t.buffer_sending s }

unfoldable pub add_written : ℕ → List ℕ → TransThread → TransThread
add_written sock bs t = record t {
  written = λ s. if sock == s then t.written s ++ bs else t.written s;
}

-- QTcpSocket::write: the number of bytes taken, of those offered after what was taken before.
abbrev pub Write : Type 0
Write = List ℕ → List ℕ → ℕ

module _ (write : Write) where
  -- SendDataToClient
  unfoldable pub send_data_to_client : ℕ → List ℕ → TransThread → TransThread
  send_data_to_client sock array t =
      let b = t.buffer_sending sock in
      let offered = take (min (length array) t.pay_load) array in
      let bytes_written = write (t.written sock) offered in
      let t' = add_written sock (take bytes_written offered) t in
      if not (member sock t.client_list)
      then t
      else if is_empty array
      then t
      else if is_empty b.list_sock_data
      then (if ltb bytes_written (length array)
          then set_buffer sock
              (record {
                list_sock_data = b.list_sock_data ++ array ∷ [];
                list_offset = b.list_offset ++ bytes_written ∷ [];
              })
              t'
          else t')
      else set_buffer sock
          (record {
            list_sock_data = b.list_sock_data ++ array ∷ [];
            list_offset = b.list_offset ++ 0 ∷ [];
          })
          t

  -- The loop of some_data_sended on the two queues of a socket: what was written so far, what is
  -- left in the queues, and the bytes that the socket took.
  unfoldable pub send_queue : ℕ → List ℕ → List (List ℕ) → List ℕ → Buffer × List ℕ
  send_queue pay_load out [] offsets = (record { list_sock_data = []; list_offset = offsets }, [])
  send_queue pay_load out (array ∷ arrays) [] =
      (record { list_sock_data = array ∷ arrays; list_offset = [] }, [])
  send_queue pay_load out (array ∷ arrays) (offset ∷ offsets) =
      let offered = take (min (length array - offset) pay_load) (drop offset array) in
      let bytes_written = write out offered in
      let sent = take bytes_written offered in
      let (b, later) = send_queue pay_load (out ++ sent) arrays offsets in
      if leb (length array) (offset + bytes_written) then (b, sent ++ later) else (
        record {
          list_sock_data = array ∷ arrays;
          list_offset = (offset + bytes_written) ∷ offsets;
        },
        sent,
      )

  -- some_data_sended
  unfoldable pub some_data_sended : ℕ → ℕ → TransThread → TransThread
  some_data_sended sock wsended t =
      let t1 = emit (data_transferred sock wsended (extra_of sock t)) t in
      let b = t.buffer_sending sock in
      let (b', sent) = send_queue t.pay_load (t.written sock) b.list_sock_data b.list_offset in
      add_written sock sent (set_buffer sock b' t1)

-- The clamps of RUBBISH_CAN_SIZE
unfoldable pub clamp_size : ℕ → ℕ
clamp_size n = if ltb n 16 then 16 else if ltb 65536 n then 65536 else n

-- One round of `while (m_rabish_can.size()>=RUBBISH_CAN_SIZE)`, and the loop, over the objects.
unfoldable pub drop_oldest : List ℕ → TransThread → TransThread
drop_oldest [] t = t
drop_oldest (x ∷ can) t =
    let t' = emit (delete_later x) (record t {
      extra_data = remove x t.extra_data;
      set_rabish = exclude x t.set_rabish;
      rabish_can = can;
    }) in
    let rest = drop_oldest can t' in if leb t.rubbish_can_size (length (x ∷ can)) then rest else t

-- push_to_rabish_can
unfoldable pub push_to_rabish_can : ℕ → TransThread → TransThread
push_to_rabish_can x t =
    let t1 =
      if member x t.set_rabish
      then t
      else record t { rabish_can = t.rabish_can ++ x ∷ []; set_rabish = include x t.set_rabish } in
    let t2 = record t1 { rubbish_can_size = clamp_size t1.rubbish_can_size } in
    drop_oldest t2.rabish_can t2

-- The part that client_closed and displayError share.
unfoldable pub forget_client : ℕ → TransThread → TransThread
forget_client sock t = record (set_buffer sock no_buffer t) {
  client_list = exclude sock t.client_list;
}

-- client_closed
unfoldable pub client_closed : ℕ → TransThread → TransThread
client_closed sock t =
    push_to_rabish_can sock (
      emit (message sock)
        (emit (client_disconnected sock (extra_of sock t)) (forget_client sock t)))

-- displayError
unfoldable pub display_error : ℕ → ℕ → TransThread → TransThread
display_error sock error t = push_to_rabish_can sock (
    emit (message sock) (
      emit (client_disconnected sock (extra_of sock t)) (
        emit (abort sock)
          (forget_client sock (emit (socket_error sock error (extra_of sock t)) t)))))

-- incomingConnection, after the socket object was made: whether it took the descriptor is an argument.
unfoldable pub incoming_connection : ℕ → Bool → TransThread → TransThread
incoming_connection sock taken t =
    if taken
    then emit (new_client_connected sock (extra_of sock t))
        (record t { client_list = include sock t.client_list })
    else push_to_rabish_can sock t

-- startConnection, after the socket object was made
unfoldable pub start_connection : ℕ → ℕ → TransThread → TransThread
start_connection sock extra t = record t {
  extra_data = insert sock extra t.extra_data;
  client_list = include sock t.client_list;
}

-- on_connected, on_encrypted, new_data_recieved
unfoldable pub on_connected : ℕ → TransThread → TransThread
on_connected sock t = emit (message sock) (emit (new_client_connected sock (extra_of sock t)) t)

unfoldable pub on_encrypted : ℕ → TransThread → TransThread
on_encrypted sock t = emit (client_encrypted sock (extra_of sock t)) t

unfoldable pub new_data_recieved : ℕ → List ℕ → TransThread → TransThread
new_data_recieved sock array t = emit (data_recieved sock array (extra_of sock t)) t

unfoldable pub disconnect_all : List ℕ → TransThread → TransThread
disconnect_all [] t = t
disconnect_all (sock ∷ socks) t = disconnect_all socks (emit (disconnect_from_host sock) t)

-- KickAllClients, KickClient, DeactivateImmediately, Empty_RabishCan, CanExit
unfoldable pub kick_all_clients : TransThread → TransThread
kick_all_clients t = disconnect_all t.client_list t

unfoldable pub kick_client : ℕ → TransThread → TransThread
kick_client sock t = if member sock t.client_list then emit (disconnect_from_host sock) t else t

unfoldable pub deactivate_immediately : TransThread → TransThread
deactivate_immediately t = kick_all_clients (record t { activated = false })

unfoldable pub delete_all : List ℕ → TransThread → TransThread
delete_all [] t = t
delete_all (x ∷ xs) t = delete_all xs (emit (delete_later x) t)

unfoldable pub empty_rabish_can : TransThread → TransThread
empty_rabish_can t = record (delete_all t.rabish_can t) { rabish_can = []; set_rabish = [] }

unfoldable pub can_exit : TransThread → Bool
can_exit t = if t.activated then false else is_empty t.client_list
