-- ===== src/UdpEndpoint/Network.antt =====
-- Two UDP endpoints, common/endpoint/UdpEndpointBase.cpp on both sides, over a network that may lose,
-- repeat and reorder datagrams. `sendEnvFromOutQueue` is the program of the sender's thread, cut at
-- its accesses to the queues and its calls of `sendDataGram`. A `Step` is one access or call, with
-- what stands behind it and touches nothing that the other threads touch; `takes` is the `pop` of
-- `tryReceiveEnvelope` with its call of `sendDataGram`, and `hears` what the listener does with a
-- datagram. The program and the sender's thread send from one pair of buffers with no lock: a `Move` is
-- a step, or two calls of `sendDataGram` at once, which may send any bytes. `Sends` has what a step
-- sends, `Queues` what it does to the queues, `Takes` what tryReceiveEnvelope does, `Invariant` what
-- every step keeps, `Growth`, `Moves`, `Arrivals` and `Histories` that it does, `Delivery` what follows
-- for the two programs, and `Tests` a run.
pub mod Sends
pub mod Queues
pub mod Invariant
pub mod Growth
pub mod Takes
pub mod Moves
pub mod Arrivals
pub mod Histories
pub mod Delivery
mod Tests
use simple_messenger.Prelude.{
  ℕ, zero, suc, ◌≡◌, Bool, true, false, Option, none, some, List, [], ◌∷◌, ◌++◌, length, In, ◌==◌,
}
use simple_messenger.CircularBuffer
use simple_messenger.CircularBuffer.{CircularBuffer}
use simple_messenger.Message.{
  Envelope, SocketInfo, payload_capacity, get_message_type, get_time_stamp, set_time_stamp,
  create_time_stamp,
}
use simple_messenger.Message.Convert.RoundTrip.{IsNamed}
use simple_messenger.Message.Proto
use simple_messenger.Endpoint.{Wire, RxTxBuffer}
use simple_messenger.UdpEndpoint.Defs.{
  UdpEndpointBase, AddressedEnvelope, Datagram, ExpiringAck, is_ack, send_envelope, send_datagram,
  listen_round, put_back, try_receive_envelope,
}
use simple_messenger.UdpEndpoint.RoundTrip.{delivered}

-- Where the sender's thread stands in `sendEnvFromOutQueue`: outside, before a datagram of the
-- message with so many attempts left, asleep after one, before the `pop` of `checkAckQueue`, or before
-- its `push` of an acknowledgement for another time.
pub data Sender : Type 0 where
  idle : Sender
  holds : AddressedEnvelope → ℕ → Sender
  waits : AddressedEnvelope → ℕ → Sender
  returns : AddressedEnvelope → ℕ → ExpiringAck → Sender

-- An endpoint, and what has happened there so far: the datagrams that left, the messages that its
-- program posted, stamped, the messages that its program took, and the messages for which its sender
-- found an acknowledgement.
pub record Side : Type 0 where
  pub endpoint : UdpEndpointBase
  pub sender : Sender
  pub sent : List Datagram
  pub posted : List Envelope
  pub taken : List Envelope
  pub confirmed : List Envelope

-- A message that a program may send: no acknowledgement, and of the type `Envelope`, whose
-- enumerations hold named values and whose payload is an array of this size.
pub record IsProper (env : Envelope) : Type 0 where
  pub named : IsNamed env
  pub sized : length env.payload ≡ payload_capacity
  pub message : is_ack (get_message_type env) ≡ false

unfoldable pub stamped : ℕ → Envelope → Envelope
stamped now_us env = set_time_stamp env (create_time_stamp now_us)

-- The loop of `sendEnvFromOutQueue` makes five attempts.
abbrev pub send_attempts : ℕ
send_attempts = 5

-- What one of the threads of an endpoint does, where `incoming` are the datagrams that its peer has
-- sent so far. A step that would read or write outside a buffer does not exist.
pub data Step (W : Wire) (incoming : List Datagram) : Side → Side → Type 0 where
  posts :
      {s : Side} (now_us : ℕ) (env : Envelope) (receiver : SocketInfo)
      → IsProper env
      → Step W incoming s (record s {
        endpoint = send_envelope s.endpoint now_us env receiver;
        posted = s.posted ++ (stamped now_us env ∷ []);
      })
  picks :
      {s : Side} (a_env : AddressedEnvelope)
      → s.sender ≡ idle
      → (CircularBuffer.pop s.endpoint.out_queue).0 ≡ some a_env
      → Step W incoming s (record s {
        endpoint = record (s.endpoint) { out_queue = (CircularBuffer.pop s.endpoint.out_queue).1 };
        sender = holds a_env send_attempts;
      })
  transmits :
      {s : Side} (a_env : AddressedEnvelope) (k : ℕ) (d : Datagram) (e : UdpEndpointBase)
      → s.sender ≡ holds a_env (suc k)
      → send_datagram W s.endpoint a_env ≡ some (d, e)
      → Step W incoming s
          (record s { endpoint = e; sender = waits a_env k; sent = s.sent ++ (d ∷ []) })
  gives_up :
      {s : Side} (a_env : AddressedEnvelope)
      → s.sender ≡ holds a_env zero
      → Step W incoming s (record s { sender = idle })
  finds :
      {s : Side} (a_env : AddressedEnvelope) (k : ℕ) (ack : ExpiringAck)
      → s.sender ≡ waits a_env k
      → (CircularBuffer.pop s.endpoint.ack_queue).0 ≡ some ack
      → (ack.t_stamp == get_time_stamp a_env.env) ≡ true
      → Step W incoming s (record s {
        endpoint = record (s.endpoint) { ack_queue = (CircularBuffer.pop s.endpoint.ack_queue).1 };
        sender = idle;
        confirmed = s.confirmed ++ (a_env.env ∷ []);
      })
  finds_no_ack :
      {s : Side} (a_env : AddressedEnvelope) (k : ℕ)
      → s.sender ≡ waits a_env k
      → (CircularBuffer.pop s.endpoint.ack_queue).0 ≡ none
      → Step W incoming s (record s {
        endpoint = record (s.endpoint) { ack_queue = (CircularBuffer.pop s.endpoint.ack_queue).1 };
        sender = holds a_env k;
      })
  finds_other :
      {s : Side} (a_env : AddressedEnvelope) (k : ℕ) (ack : ExpiringAck)
      → s.sender ≡ waits a_env k
      → (CircularBuffer.pop s.endpoint.ack_queue).0 ≡ some ack
      → (ack.t_stamp == get_time_stamp a_env.env) ≡ false
      → Step W incoming s (record s {
        endpoint = record (s.endpoint) { ack_queue = (CircularBuffer.pop s.endpoint.ack_queue).1 };
        sender = returns a_env k ack;
      })
  puts_back :
      {s : Side} (a_env : AddressedEnvelope) (k : ℕ) (ack : ExpiringAck)
      → s.sender ≡ returns a_env k ack
      → Step W incoming s (record s {
        endpoint = record (s.endpoint) { ack_queue = put_back s.endpoint.ack_queue ack };
        sender = holds a_env k;
      })
  hears :
      {s : Side} (from : SocketInfo) (d : Datagram) (e : UdpEndpointBase)
      → In d incoming
      → listen_round W s.endpoint (delivered from d) ≡ some e
      → Step W incoming s (record s { endpoint = e })
  -- The loops of the listener that make room: their last `push` is part of `hears`, and each `pop`
  -- before it is a step, at any time, since the other threads may use the queues between the two.
  drops_ack :
      {s : Side}
      → Step W incoming s (record s {
        endpoint = record (s.endpoint) { ack_queue = (CircularBuffer.pop s.endpoint.ack_queue).1 };
      })
  drops_message :
      {s : Side}
      → Step W incoming s (record s {
        endpoint = record (s.endpoint) { in_queue = (CircularBuffer.pop s.endpoint.in_queue).1 };
      })
  takes :
      {s : Side} (env : Envelope) (ack : Datagram) (e : UdpEndpointBase)
      → try_receive_envelope W s.endpoint ≡ some (some (env, ack), e)
      → Step W incoming s
          (record s { endpoint = e; sent = s.sent ++ (ack ∷ []); taken = s.taken ++ (env ∷ []) })
  takes_nothing :
      {s : Side} (e : UdpEndpointBase)
      → try_receive_envelope W s.endpoint ≡ some (none, e)
      → Step W incoming s (record s { endpoint = e })

-- A step, or `sendDataGram` of the sender's thread and of `tryReceiveEnvelope` at once: each sends to
-- its receiver, but what they send and what is left in the two buffers may be anything.
pub data Move (W : Wire) (incoming : List Datagram) : Side → Side → Type 0 where
  alone : {s s' : Side} → Step W incoming s s' → Move W incoming s s'
  overlap :
      {s : Side} (a_env got : AddressedEnvelope) (k : ℕ) (d ack : Datagram) (p : Proto.Envelope)
      (b : RxTxBuffer)
      → s.sender ≡ holds a_env (suc k)
      → (CircularBuffer.pop s.endpoint.in_queue).0 ≡ some got
      → d.peer ≡ a_env.sock_info
      → ack.peer ≡ got.sock_info
      → Move W incoming s (record s {
        endpoint = record (s.endpoint) {
          in_queue = (CircularBuffer.pop s.endpoint.in_queue).1;
          proto_message_buffer_out = p;
          buffer_out = b;
        };
        sender = waits a_env k;
        sent = s.sent ++ (d ∷ ack ∷ []);
        taken = s.taken ++ (got.env ∷ []);
      })

-- Both sides. A side hears what the other has sent.
pub record World : Type 0 where
  pub left : Side
  pub right : Side

pub data Runs (W : Wire) : World → World → Type 0 where
  done : {w : World} → Runs W w w
  left_step :
      {w w' : World} {s : Side}
      → Step W w.right.sent w.left s
      → Runs W (record w { left = s }) w'
      → Runs W w w'
  right_step :
      {w w' : World} {s : Side}
      → Step W w.left.sent w.right s
      → Runs W (record w { right = s }) w'
      → Runs W w w'

-- A side at which nothing has happened.
abbrev pub fresh : UdpEndpointBase → Side
fresh e = record { endpoint = e; sender = idle; sent = []; posted = []; taken = []; confirmed = [] }

-- The moves of both sides.
pub data Course (W : Wire) : World → World → Type 0 where
  rests : {w : World} → Course W w w
  left_move :
      {w w' : World} {s : Side}
      → Move W w.right.sent w.left s
      → Course W (record w { left = s }) w'
      → Course W w w'
  right_move :
      {w w' : World} {s : Side}
      → Move W w.left.sent w.right s
      → Course W (record w { right = s }) w'
      → Course W w w'

-- Two calls of `sendDataGram` of one endpoint never overlap.
abbrev pub NoOverlap : {W : Wire} {w w' : World} → Course W w w' → Type 0
NoOverlap rests = Unit
NoOverlap (left_move (alone step) more) = NoOverlap more
NoOverlap (left_move (overlap a got k d ack p b h item to back) more) = ⊥
NoOverlap (right_move (alone step) more) = NoOverlap more
NoOverlap (right_move (overlap a got k d ack p b h item to back) more) = ⊥

pub run_of : (W : Wire) {w w' : World} (moves : Course W w w') → NoOverlap moves → Runs W w w'
run_of W rests apart = done
run_of W (left_move (alone step) more) apart = left_step step (run_of W more apart)
run_of W (left_move (overlap a got k d ack p b h item to back) more) apart = absurd apart
run_of W (right_move (alone step) more) apart = right_step step (run_of W more apart)
run_of W (right_move (overlap a got k d ack p b h item to back) more) apart = absurd apart
