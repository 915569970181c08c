-- ===== src/UdpEndpoint/Threads.antt =====
-- The life of an endpoint, common/endpoint/UdpEndpointBase.cpp: the constructor starts the threads of
-- `repeatingSend` and `repeatingListen`, and the destructor clears `isRunning` and joins them, the
-- sender first. A sleep, an access to a queue by the sender, a call of `sendDataGram`, a test of
-- `isRunning` or what the listener does with a datagram is one step. `Invariant` is what
-- the steps keep, `Ends` the end of the destructor, and `Dropped` what it leaves unsent.
pub mod Invariant
pub mod Ends
pub mod Dropped
mod Tests
use simple_messenger.Prelude.{
  ℕ, zero, suc, ◌≡◌, Bool, true, false, none, some, List, [], ◌∷◌, ◌++◌, ◌==◌,
}
use simple_messenger.CircularBuffer
use simple_messenger.Message.{Envelope, SocketInfo, get_time_stamp}
use simple_messenger.Endpoint.{Wire, Polled, poll_socket}
use simple_messenger.UdpEndpoint.Defs.{
  UdpEndpointBase, AddressedEnvelope, ExpiringAck, Datagram, send_envelope, send_datagram,
  listen_round, put_back,
}

-- The thread of the sender: before the test of `isRunning`, before `sendEnvFromOutQueue`, in it before
-- a datagram with so many attempts left, in it before the `pop` of `checkAckQueue` or before its `push`
-- of an acknowledgement for another time, or returned.
pub data Sender : Type 0 where
  testing resting ended : Sender
  holds : AddressedEnvelope → ℕ → Sender
  waits : AddressedEnvelope → ℕ → Sender
  returns : AddressedEnvelope → ℕ → ExpiringAck → Sender

-- The thread of the listener: before the test of `isRunning`, in `pollSocket`, or returned.
pub data Listener : Type 0 where
  testing polling ended : Listener

-- Who owns the endpoint: has not begun the destructor, waits for a thread in it, or has left it.
pub data Owner : Type 0 where
  alive joining_sender joining_listener gone : Owner

pub record Threads : Type 0 where
  pub endpoint : UdpEndpointBase
  pub is_running : Bool
  pub sender : Sender
  pub listener : Listener
  pub owner : Owner
  pub sent : List Datagram

-- After the constructor.
unfoldable pub construct : UdpEndpointBase → Threads
construct e = record {
  endpoint = e;
  is_running = true;
  sender = Sender.testing;
  listener = Listener.testing;
  owner = alive;
  sent = [];
}

abbrev pub attempts_of_send : ℕ
attempts_of_send = 5

-- The endpoint after the `pop` of `checkAckQueue`.
abbrev pub after_pop : UdpEndpointBase → UdpEndpointBase
after_pop e = record e { ack_queue = (CircularBuffer.pop e.ack_queue).1 }

-- What the destructor does before it waits.
unfoldable pub begin_destructor : Threads → Threads
begin_destructor s = record s { is_running = false; owner = joining_sender }

pub data Step (W : Wire) (s : Threads) : Threads → Type 0 where
  -- The program, while it may still use the endpoint.
  posts :
      (now_us : ℕ) (env : Envelope) (receiver : SocketInfo)
      → s.owner ≡ alive
      → Step W s (record s { endpoint = send_envelope s.endpoint now_us env receiver })
  destroys : s.owner ≡ alive → Step W s (begin_destructor s)
  joins_sender :
      s.owner ≡ joining_sender
      → s.sender ≡ Sender.ended
      → Step W s (record s { owner = joining_listener })
  joins_listener :
      s.owner ≡ joining_listener
      → s.listener ≡ Listener.ended
      → Step W s (record s { owner = gone })
  -- `repeatingSend`
  sender_ends :
      s.sender ≡ Sender.testing
      → s.is_running ≡ false
      → Step W s (record s { sender = Sender.ended })
  sender_rests :
      s.sender ≡ Sender.testing → s.is_running ≡ true → Step W s (record s { sender = resting })
  finds_nothing :
      s.sender ≡ resting
      → (CircularBuffer.pop s.endpoint.out_queue).0 ≡ none
      → Step W s (record s { sender = Sender.testing })
  picks :
      (a_env : AddressedEnvelope)
      → s.sender ≡ resting
      → (CircularBuffer.pop s.endpoint.out_queue).0 ≡ some a_env
      → Step W s (record s {
        endpoint = record (s.endpoint) { out_queue = (CircularBuffer.pop s.endpoint.out_queue).1 };
        sender = holds a_env attempts_of_send;
      })
  transmits :
      (a_env : AddressedEnvelope) (k : ℕ) (d : Datagram) (e : UdpEndpointBase)
      → s.sender ≡ holds a_env (suc k)
      → send_datagram W s.endpoint a_env ≡ some (d, e)
      → Step W s (record s { endpoint = e; sender = waits a_env k; sent = s.sent ++ (d ∷ []) })
  gives_up :
      (a_env : AddressedEnvelope)
      → s.sender ≡ holds a_env zero
      → Step W s (record s { sender = Sender.testing })
  finds_ack :
      (a_env : AddressedEnvelope) (k : ℕ) (ack : ExpiringAck)
      → s.sender ≡ waits a_env k
      → (CircularBuffer.pop s.endpoint.ack_queue).0 ≡ some ack
      → (ack.t_stamp == get_time_stamp a_env.env) ≡ true
      → Step W s (record s { endpoint = after_pop s.endpoint; sender = Sender.testing })
  finds_no_ack :
      (a_env : AddressedEnvelope) (k : ℕ)
      → s.sender ≡ waits a_env k
      → (CircularBuffer.pop s.endpoint.ack_queue).0 ≡ none
      → Step W s (record s { endpoint = after_pop s.endpoint; sender = holds a_env k })
  finds_other :
      (a_env : AddressedEnvelope) (k : ℕ) (ack : ExpiringAck)
      → s.sender ≡ waits a_env k
      → (CircularBuffer.pop s.endpoint.ack_queue).0 ≡ some ack
      → (ack.t_stamp == get_time_stamp a_env.env) ≡ false
      → Step W s (record s { endpoint = after_pop s.endpoint; sender = returns a_env k ack })
  puts_back :
      (a_env : AddressedEnvelope) (k : ℕ) (ack : ExpiringAck)
      → s.sender ≡ returns a_env k ack
      → Step W s (record s {
        endpoint = record (s.endpoint) { ack_queue = put_back s.endpoint.ack_queue ack };
        sender = holds a_env k;
      })
  -- `repeatingListen`
  listener_ends :
      s.listener ≡ Listener.testing
      → s.is_running ≡ false
      → Step W s (record s { listener = Listener.ended })
  listener_polls :
      s.listener ≡ Listener.testing
      → s.is_running ≡ true
      → Step W s (record s { listener = polling })
  nothing_comes :
      (p : Polled)
      → s.listener ≡ polling
      → (poll_socket p).0 ≡ false
      → Step W s (record s { listener = Listener.testing })
  hears :
      (p : Polled) (d : Datagram) (e : UdpEndpointBase)
      → s.listener ≡ polling
      → (poll_socket p).0 ≡ true
      → listen_round W s.endpoint d ≡ some e
      → Step W s (record s { endpoint = e; listener = Listener.testing })

pub data Steps (W : Wire) (s : Threads) : Threads → Type 0 where
  start : Steps W s s
  next : {t u : Threads} → Steps W s t → Step W t u → Steps W s u
