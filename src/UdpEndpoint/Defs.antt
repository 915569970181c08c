-- ===== src/UdpEndpoint/Defs.antt =====
-- The methods of common/endpoint/UdpEndpointBase.cpp. A method of one thread is one function; what
-- the listener does while the sender sleeps is an argument of the sender's loop. `none` is a read or
-- write outside a buffer.
use simple_messenger.Prelude.{
  ℕ, zero, suc, ◌+◌, ◌%◌, Bool, true, false, Option, none, some, List, [], ◌∷◌, ltb, ◌==◌,
  if◌then◌else◌,
}
use mathlib.Core.Option
use simple_messenger.CircularBuffer
use simple_messenger.CircularBuffer.{CircularBuffer}
use simple_messenger.Message.{
  Envelope, MessageType, SocketInfo, zero_envelope, get_message_type, set_message_type,
  get_time_stamp, set_time_stamp, create_time_stamp,
}
use simple_messenger.Message.Proto
use simple_messenger.Endpoint.{
  Wire, RxTxBuffer, put_env_to_proto_buffer_out, get_env_from_proto_buffer_in,
}

pub record AddressedEnvelope : Type 0 where
  pub sock_info : SocketInfo
  pub env : Envelope

pub record ExpiringAck : Type 0 where
  pub counter : ℕ
  pub t_stamp : ℕ

abbrev pub message_queue_size : ℕ
message_queue_size = 4

pub record UdpEndpointBase : Type 0 where
  pub in_queue : CircularBuffer AddressedEnvelope message_queue_size
  pub out_queue : CircularBuffer AddressedEnvelope message_queue_size
  pub ack_queue : CircularBuffer ExpiringAck message_queue_size
  pub proto_message_buffer_out : Proto.Envelope
  pub buffer_in : RxTxBuffer
  pub buffer_out : RxTxBuffer

-- What `sendto` is given, and what `recvfrom` gives: the whole buffer, and the other address.
pub record Datagram : Type 0 where
  pub peer : SocketInfo
  pub buffer : RxTxBuffer

-- `while (not queue.push(item)) { queue.pop(); }`, with fuel; `none` means that it ran out.
unfoldable pub store_in :
    {A : Type 0} {n : ℕ} → ℕ → CircularBuffer A n → A → Option (CircularBuffer A n)
store_in zero b item = none
store_in (suc f) b item =
    let (done, b') = CircularBuffer.push b item in
    let rest = store_in f (CircularBuffer.pop b').1 item in if done then some b' else rest

-- Two rounds are enough: see `Store`.
abbrev pub store_rounds : ℕ
store_rounds = 2

unfoldable pub store_env_to_in_queue : UdpEndpointBase → AddressedEnvelope → Option UdpEndpointBase
store_env_to_in_queue e a_env =
    Option.map (λ q. record e { in_queue = q }) (store_in store_rounds e.in_queue a_env)

-- A new `ExpiringAck` has the counter 3.
unfoldable pub store_tstamp_to_ack_queue : UdpEndpointBase → ℕ → Option UdpEndpointBase
store_tstamp_to_ack_queue e t_stamp =
    Option.map (λ q. record e { ack_queue = q })
      (store_in store_rounds e.ack_queue (record { counter = 3; t_stamp = t_stamp }))

abbrev pub is_ack : MessageType → Bool
is_ack MessageType.ack_message = true
is_ack _ = false

unfoldable pub dispatch_incoming_env : UdpEndpointBase → AddressedEnvelope → Option UdpEndpointBase
dispatch_incoming_env e a_env =
    if is_ack (get_message_type a_env.env)
    then store_tstamp_to_ack_queue e (get_time_stamp a_env.env)
    else store_env_to_in_queue e a_env

-- `pendingAck->counter--` on a `uint8_t`, and back to the end of the queue while it is above 0.
unfoldable pub put_back :
    CircularBuffer ExpiringAck message_queue_size
    → ExpiringAck
    → CircularBuffer ExpiringAck message_queue_size
put_back q ack =
    let counter = (ack.counter + 255) % 256 in
    if ltb 0 counter then (CircularBuffer.push q (record ack { counter = counter })).1 else q

unfoldable pub check_popped :
    ℕ
    → Option ExpiringAck × CircularBuffer ExpiringAck message_queue_size
    → Bool × CircularBuffer ExpiringAck message_queue_size
check_popped t_stamp (none, q) = (false, q)
check_popped t_stamp (some ack, q) =
    if ack.t_stamp == t_stamp then (true, q) else (false, put_back q ack)

-- What the listener calls on the queue of acknowledgements while it stores one: a `push` of a new one
-- for a time, which fails if the queue is full, and a `pop` that makes room.
pub data AckCall : Type 0 where
  pushes : ℕ → AckCall
  drops : AckCall

unfoldable pub run_ack_calls :
    CircularBuffer ExpiringAck message_queue_size
    → List AckCall
    → CircularBuffer ExpiringAck message_queue_size
run_ack_calls q [] = q
run_ack_calls q (pushes t_stamp ∷ more) =
    run_ack_calls (CircularBuffer.push q (record { counter = 3; t_stamp = t_stamp })).1 more
run_ack_calls q (drops ∷ more) = run_ack_calls (CircularBuffer.pop q).1 more

-- `checkAckQueue` locks the queue for its `pop` and again for its `push`. `calls` are what the listener
-- calls between the two.
unfoldable pub check_ack_queue_around :
    List AckCall
    → CircularBuffer ExpiringAck message_queue_size
    → ℕ
    → Bool × CircularBuffer ExpiringAck message_queue_size
check_ack_queue_around calls q t_stamp =
    let (item, rest) = CircularBuffer.pop q in check_popped t_stamp (item, run_ack_calls rest calls)

-- `checkAckQueue` where the listener does nothing to the queue between the two.
unfoldable pub check_ack_queue :
    CircularBuffer ExpiringAck message_queue_size
    → ℕ
    → Bool × CircularBuffer ExpiringAck message_queue_size
check_ack_queue q t_stamp = check_popped t_stamp (CircularBuffer.pop q)

-- `sendEnvelope`, at the clock's time `now_us`. What `push` returns is only logged.
unfoldable pub send_envelope : UdpEndpointBase → ℕ → Envelope → SocketInfo → UdpEndpointBase
send_envelope e now_us envelope receiver_info =
    let stamped = set_time_stamp envelope (create_time_stamp now_us) in
    record e {
      out_queue =
          (CircularBuffer.push e.out_queue (record { sock_info = receiver_info; env = stamped })).1;
    }

module _ (W : Wire) where
  -- `recvDataGram`, for the buffer that `recvfrom` has filled.
  unfoldable pub recv_datagram :
      UdpEndpointBase → Datagram → Option (AddressedEnvelope × UdpEndpointBase)
  recv_datagram e d =
      Option.map
        (λ env. (record { sock_info = d.peer; env = env }, record e { buffer_in = d.buffer }))
        (get_env_from_proto_buffer_in W d.buffer)

  -- A round of `repeatingListen` in which the socket is ready.
  unfoldable pub listen_round : UdpEndpointBase → Datagram → Option UdpEndpointBase
  unfolding Option.bind
  listen_round e d = Option.bind (recv_datagram e d) (λ r. dispatch_incoming_env r.1 r.0)

  unfoldable pub send_datagram :
      UdpEndpointBase → AddressedEnvelope → Option (Datagram × UdpEndpointBase)
  send_datagram e a_env =
      Option.map
        (λ r. (
          record { peer = a_env.sock_info; buffer = r.1 },
          record e { proto_message_buffer_out = r.0; buffer_out = r.1 },
        ))
        (put_env_to_proto_buffer_out W a_env.env e.proto_message_buffer_out e.buffer_out)

  -- `tryReceiveEnvelope`: the message, and the acknowledgement that is sent for it.
  unfoldable pub receive_popped :
      UdpEndpointBase
      → Option AddressedEnvelope
      → Option (Option (Envelope × Datagram) × UdpEndpointBase)
  receive_popped e none = some (none, e)
  receive_popped e (some a_env) =
      let ack_env =
        set_time_stamp (set_message_type zero_envelope MessageType.ack_message)
          (get_time_stamp a_env.env) in
      Option.map (λ r. (some (a_env.env, r.0), r.1))
        (send_datagram e (record { sock_info = a_env.sock_info; env = ack_env }))

  unfoldable pub try_receive_envelope :
      UdpEndpointBase → Option (Option (Envelope × Datagram) × UdpEndpointBase)
  try_receive_envelope e =
      let (item, q) = CircularBuffer.pop e.in_queue in
      receive_popped (record e { in_queue = q }) item
