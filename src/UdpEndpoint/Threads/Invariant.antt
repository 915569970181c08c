-- ===== src/UdpEndpoint/Threads/Invariant.antt =====
-- What the threads of an endpoint keep once its destructor has begun.
use simple_messenger.CircularBuffer.Refine.{contents}
use simple_messenger.Prelude.{
  ℕ, suc, ◌<◌, ◌≤◌, ◌≡◌, ◌≢◌, refl, ◌∙◌, subst, false, none, some, List, arith, length,
  Option-cases, inl, inr, All,
}
use mathlib.Core.Option
use simple_messenger.CircularBuffer.Invariant.{pop-IsValid}
use simple_messenger.Memory.{c_string}
use simple_messenger.Message.{Envelope}
use simple_messenger.Message.Proto
use simple_messenger.Message.Convert.{put_fields}
use simple_messenger.Endpoint.{Wire, get_env_from_proto_buffer_in}
use simple_messenger.UdpEndpoint.Defs.{
  UdpEndpointBase, AddressedEnvelope, Datagram, listen_round, recv_datagram, ExpiringAck, put_back,
  message_queue_size,
}
use simple_messenger.UdpEndpoint.Send.{InOrder, dispatch_one_lem}
use simple_messenger.UdpEndpoint.Retransmit.{Sendable}
use simple_messenger.UdpEndpoint.Network.Moves.{InOrder-SameQueues}
use simple_messenger.UdpEndpoint.Network.Sends.{sent-SameQueues}
use simple_messenger.UdpEndpoint.Interrupted.{put_back_full, AllCounters-returned_to}
use simple_messenger.UdpEndpoint.Network.Queues.{AllCounters-pop, All-pop}
use simple_messenger.CircularBuffer
use simple_messenger.CircularBuffer.{CircularBuffer}
use simple_messenger.UdpEndpoint.Network.Arrivals.{listen_dispatches}
use simple_messenger.UdpEndpoint.Threads.{
  Sender, Listener, Owner, joining_listener, gone, polling, resting, holds, waits, returns, alive,
  Threads, begin_destructor, after_pop, Step, posts, destroys, joins_sender, joins_listener,
  sender_ends, sender_rests, finds_nothing, picks, transmits, gives_up, finds_ack, finds_no_ack,
  finds_other, puts_back, listener_ends, listener_polls, nothing_comes, hears,
}

-- The text of the message ends in its payload, and its bytes fit a buffer of this size.
pub record Fits (W : Wire) (capacity : ℕ) (env : Envelope) : Type 0 where
  pub text : List ℕ
  pub ends : c_string env.payload ≡ some text
  pub short : (p : Proto.Envelope) → length (W.serialize (put_fields env p text)) ≤ capacity

abbrev pub Busy : Wire → ℕ → Sender → Type 0
Busy W capacity (holds a_env k) = Fits W capacity a_env.env × (k ≤ 5)
Busy W capacity (waits a_env k) = Fits W capacity a_env.env × (k ≤ 4)
Busy W capacity (returns a_env k ack) =
    Fits W capacity a_env.env × (k ≤ 4) × ((0 < ack.counter) × (ack.counter < 256))
Busy W capacity Sender.testing = Unit
Busy W capacity resting = Unit
Busy W capacity Sender.ended = Unit

-- The queues are in order, every message that is still to be sent fits the buffer, and `isRunning` is
-- cleared if the destructor has begun.
pub record IsReady (W : Wire) (capacity : ℕ) (s : Threads) : Type 0 where
  pub order : InOrder s.endpoint
  pub fits : All (λ a. Fits W capacity a.env) (contents s.endpoint.out_queue)
  pub busy : Busy W capacity s.sender
  pub room : length s.endpoint.buffer_out.payload ≡ capacity
  pub stopped : s.owner ≢ alive → s.is_running ≡ false

-- The same of an endpoint that its owner still uses.
pub record InUse (W : Wire) (capacity : ℕ) (s : Threads) : Type 0 where
  pub order : InOrder s.endpoint
  pub fits : All (λ a. Fits W capacity a.env) (contents s.endpoint.out_queue)
  pub busy : Busy W capacity s.sender
  pub room : length s.endpoint.buffer_out.payload ≡ capacity
  pub used : s.owner ≡ alive

-- The destructor clears `isRunning` before it waits.
pub begin-IsReady :
    (W : Wire) (capacity : ℕ) {s : Threads}
    → InUse W capacity s
    → ((begin_destructor s).owner ≢ alive) × IsReady W capacity (begin_destructor s)
unfolding begin_destructor
begin-IsReady W capacity v = (
  λ x. cc x,
  record { order = v.order; fits = v.fits; busy = v.busy; room = v.room; stopped = λ _. refl },
)

listen_failed :
    (W : Wire) (e : UdpEndpointBase) (d : Datagram)
    → get_env_from_proto_buffer_in W d.buffer ≡ none
    → listen_round W e d ≡ none
unfolding listen_round recv_datagram Option.bind
listen_failed W e d failed = rw failed

-- What a datagram leaves alone, whatever it holds.
pub listen-InOrder :
    (W : Wire) (e : UdpEndpointBase) (d : Datagram) (e' : UdpEndpointBase)
    → InOrder e
    → listen_round W e d ≡ some e'
    → InOrder e' × (e'.out_queue ≡ e.out_queue) × (e'.buffer_out ≡ e.buffer_out)
listen-InOrder W e d e' v heard = elim (Option-cases (get_env_from_proto_buffer_in W d.buffer)) [
  | inl failed ↦ cc (heard, listen_failed W e d failed)
  | inr (got, read) ↦
      let e₀ : UdpEndpointBase = record e { buffer_in = d.buffer } in
      let a_env : AddressedEnvelope = record { sock_info = d.peer; env = got } in
      let order₀ =
        InOrder-SameQueues e e₀ (record { same_in = refl; same_out = refl; same_ack = refl }) v in
      let (e₁, done, order, _, _, out, _, bytes) = dispatch_one_lem e₀ a_env order₀ in
      let same : e₁ ≡ e' = cc (heard, listen_dispatches W e d.peer d got read, done) in
      subst
        (λ (r : UdpEndpointBase).
          InOrder r × (r.out_queue ≡ e.out_queue) × (r.buffer_out ≡ e.buffer_out))
        same (order, out, bytes)
]

module _ (W : Wire) (capacity : ℕ) where
  pub Sendable_of_fits :
      (e : UdpEndpointBase) (env : Envelope)
      → length e.buffer_out.payload ≡ capacity
      → Fits W capacity env
      → Sendable W e env
  Sendable_of_fits e env room f = record {
    text = f.text;
    ends = f.ends;
    fits = rw room (f.short e.proto_message_buffer_out);
  }

  -- What a `pop` of the acknowledgements leaves.
  popped_order : (e : UdpEndpointBase) → InOrder e → InOrder (after_pop e)
  popped_order e v = record {
    sound = record {
      in_valid = v.sound.in_valid;
      out_valid = v.sound.out_valid;
      ack_valid = pop-IsValid v.sound.ack_valid;
    };
    counters = (AllCounters-pop e.ack_queue v.sound.ack_valid v.counters).0;
  }

  put_back_order :
      (e : UdpEndpointBase) (ack : ExpiringAck)
      → InOrder e
      → 0 < ack.counter
      → ack.counter < 256
      → InOrder (record e { ack_queue = put_back e.ack_queue ack })
  put_back_order e ack v low high =
      let after = put_back_full e.ack_queue ack v.sound.ack_valid low high in
      record {
        sound = record {
          in_valid = v.sound.in_valid;
          out_valid = v.sound.out_valid;
          ack_valid = after.valid;
        };
        counters =
            rw (after.items) (AllCounters-returned_to (contents e.ack_queue) ack v.counters high);
      }

  -- A step that leaves the outgoing messages alone.
  acks_move :
      {s : Threads} (v : IsReady W capacity s) (q : CircularBuffer ExpiringAck message_queue_size)
      (r : Sender)
      → InOrder (record (s.endpoint) { ack_queue = q })
      → Busy W capacity r
      → IsReady W capacity
          (record s { endpoint = record (s.endpoint) { ack_queue = q }; sender = r })
  acks_move v q r order b = record {
    order = order;
    fits = v.fits;
    busy = b;
    room = v.room;
    stopped = v.stopped;
  }

  -- A step that leaves the endpoint alone.
  moves_on :
      {s : Threads} (v : IsReady W capacity s) (r : Sender) (l : Listener) (w : Owner)
      → Busy W capacity r
      → (w ≢ alive → s.is_running ≡ false)
      → IsReady W capacity (record s { sender = r; listener = l; owner = w })
  moves_on v r l w b stopped = record {
    order = v.order;
    fits = v.fits;
    busy = b;
    room = v.room;
    stopped = stopped;
  }

  -- Once the destructor has begun, every step of a thread keeps the endpoint ready.
  pub Step-IsReady :
      {s t : Threads}
      → Step W s t
      → s.owner ≢ alive
      → IsReady W capacity s
      → (t.owner ≢ alive) × IsReady W capacity t
  Step-IsReady (posts now env receiver h) o v = absurd (o h)
  Step-IsReady (destroys h) o v = absurd (o h)
  Step-IsReady {s} (joins_sender h e) o v =
      (λ x. cc x, moves_on v s.sender s.listener joining_listener v.busy (λ _. v.stopped o))
  Step-IsReady {s} (joins_listener h e) o v =
      (λ x. cc x, moves_on v s.sender s.listener gone v.busy (λ _. v.stopped o))
  Step-IsReady {s} (sender_ends h r) o v =
      (o, moves_on v Sender.ended s.listener s.owner tt v.stopped)
  Step-IsReady {s} (sender_rests h r) o v = (o, moves_on v resting s.listener s.owner tt v.stopped)
  Step-IsReady {s} (finds_nothing h e) o v =
      (o, moves_on v Sender.testing s.listener s.owner tt v.stopped)
  Step-IsReady {s} (picks a h item) o v =
      let (rest, was) =
        All-pop (λ (a : AddressedEnvelope). Fits W capacity a.env) v.order.sound.out_valid v.fits in
      (
        o,
        record {
          order = record {
            sound = record {
              in_valid = v.order.sound.in_valid;
              out_valid = pop-IsValid v.order.sound.out_valid;
              ack_valid = v.order.sound.ack_valid;
            };
            counters = v.order.counters;
          };
          fits = rest;
          busy = (was a item, omega arith);
          room = v.room;
          stopped = v.stopped;
        },
      )
  Step-IsReady {s} (transmits a k d e h left) o v =
      let (fit, few) : Busy W capacity (holds a (suc k)) = subst (Busy W capacity) h v.busy in
      let (same, size) = sent-SameQueues W s.endpoint a d e left in
      (
        o,
        record {
          order = InOrder-SameQueues s.endpoint e same v.order;
          fits = rw (same.same_out) (v.fits);
          busy = (fit, omega arith);
          room = size ∙ v.room;
          stopped = v.stopped;
        },
      )
  Step-IsReady {s} (gives_up a h) o v =
      (o, moves_on v Sender.testing s.listener s.owner tt v.stopped)
  Step-IsReady {s} (finds_ack a k ack h item found) o v =
      let q = (CircularBuffer.pop s.endpoint.ack_queue).1 in
      (o, acks_move v q Sender.testing (popped_order s.endpoint v.order) tt)
  Step-IsReady {s} (finds_no_ack a k h item) o v =
      let (fit, few) : Busy W capacity (waits a k) = subst (Busy W capacity) h v.busy in
      let q = (CircularBuffer.pop s.endpoint.ack_queue).1 in
      (o, acks_move v q (holds a k) (popped_order s.endpoint v.order) (fit, omega arith))
  Step-IsReady {s} (finds_other a k ack h item other) o v =
      let (fit, few) : Busy W capacity (waits a k) = subst (Busy W capacity) h v.busy in
      let q = (CircularBuffer.pop s.endpoint.ack_queue).1 in
      let range =
        (AllCounters-pop s.endpoint.ack_queue v.order.sound.ack_valid v.order.counters).1 ack
          item in
      (o, acks_move v q (returns a k ack) (popped_order s.endpoint v.order) (fit, few, range))
  Step-IsReady {s} (puts_back a k ack h) o v =
      let (fit, few, range) : Busy W capacity (returns a k ack) =
        subst (Busy W capacity) h v.busy in
      let (low, high) = range in
      let q = put_back s.endpoint.ack_queue ack in
      let order = put_back_order s.endpoint ack v.order low high in
      (o, acks_move v q (holds a k) order (fit, omega arith))
  Step-IsReady {s} (listener_ends h r) o v =
      (o, moves_on v s.sender Listener.ended s.owner v.busy v.stopped)
  Step-IsReady {s} (listener_polls h r) o v =
      (o, moves_on v s.sender polling s.owner v.busy v.stopped)
  Step-IsReady {s} (nothing_comes p h r) o v =
      (o, moves_on v s.sender Listener.testing s.owner v.busy v.stopped)
  Step-IsReady {s} (hears p d e h r heard) o v =
      let (order, out, bytes) = listen-InOrder W s.endpoint d e v.order heard in
      (
        o,
        record {
          order = order;
          fits = rw out (v.fits);
          busy = v.busy;
          room = rw bytes (v.room);
          stopped = v.stopped;
        },
      )
