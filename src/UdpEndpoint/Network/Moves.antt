-- ===== src/UdpEndpoint/Network/Moves.antt =====
-- The steps of the program that posts a message and of the sender's thread keep what is known of a
-- side.
use simple_messenger.UdpEndpoint.Network.Invariant.{
  CopyOf, InHand, IsCounter, TimeOf, Outgoing, Genuine, Busy, Inv,
}
use simple_messenger.UdpEndpoint.Defs.{
  ExpiringAck, message_queue_size, put_back, UdpEndpointBase, AddressedEnvelope, Datagram,
  send_envelope, send_datagram,
}
use simple_messenger.UdpEndpoint.Ack.{AllCounters}
use simple_messenger.UdpEndpoint.Interrupted.{put_back_full, AllCounters-returned_to}
use simple_messenger.UdpEndpoint.Network.{
  returns, Side, Sender, idle, holds, waits, IsProper, stamped, send_attempts,
}
use simple_messenger.CircularBuffer.{CircularBuffer}
use simple_messenger.CircularBuffer.Invariant.{IsValid, push-IsValid, pop-IsValid}
use simple_messenger.UdpEndpoint.Network.Queues.{
  AllCounters-pop, All-returned_to, AllTimes, All-push, All-pop,
}
use simple_messenger.Prelude.{
  ◌==◌, arith, ℕ, suc, ◌≡◌, ap, subst, true, some, List, [], ◌∷◌, ◌++◌, In, In-append_last,
  All-append, All-map,
}
use simple_messenger.CircularBuffer
use simple_messenger.CircularBuffer.Refine.{contents}
use simple_messenger.Message.{
  Envelope, SocketInfo, get_message_type, get_time_stamp, set_time_stamp,
}
use simple_messenger.Endpoint.{Wire}
use simple_messenger.UdpEndpoint.Send.{InOrder}
use simple_messenger.UdpEndpoint.Network.Sends.{IsCopy, SameQueues, sent-IsCopy, sent-SameQueues}
use simple_messenger.UdpEndpoint.Network.Growth.{
  Within-append, Outgoing-Within, Busy-Within, Genuine-Within,
}

IsProper-stamped : (now_us : ℕ) (env : Envelope) → IsProper env → IsProper (stamped now_us env)
unfolding stamped set_time_stamp get_message_type
IsProper-stamped now_us env h = record {
  named = record { message_type = h.named.message_type; data_type = h.named.data_type };
  sized = h.sized;
  message = h.message;
}

-- The queues of an endpoint decide whether it is in order.
pub InOrder-SameQueues : (e e' : UdpEndpointBase) → SameQueues e e' → InOrder e → InOrder e'
InOrder-SameQueues e e' same v = record {
  sound = record {
    in_valid = rw (same.same_in) (v.sound.in_valid);
    out_valid = rw (same.same_out) (v.sound.out_valid);
    ack_valid = rw (same.same_ack) (v.sound.ack_valid);
  };
  counters = rw (same.same_ack) (v.counters);
}

-- A copy keeps the type and the time of the message.
pub IsCopy-fields :
    (env got : Envelope)
    → IsCopy env got
    → (get_message_type got ≡ get_message_type env) × (get_time_stamp got ≡ get_time_stamp env)
unfolding get_message_type get_time_stamp
IsCopy-fields env got (text, ends, e) =
    (ap (λ (m : Envelope). get_message_type m) e, ap (λ (m : Envelope). get_time_stamp m) e)

module _ (W : Wire) (peer_posted peer_taken : List Envelope) (s : Side)
    (v : Inv W s peer_posted peer_taken) where
  pub posts-Inv :
      (now_us : ℕ) (env : Envelope) (receiver : SocketInfo)
      → IsProper env
      → let s' : Side = record s {
        endpoint = send_envelope s.endpoint now_us env receiver;
        posted = s.posted ++ (stamped now_us env ∷ []);
      } in
        Inv W s' peer_posted peer_taken
  unfolding send_envelope stamped
  posts-Inv now_us env receiver proper =
      let new = stamped now_us env in
      let posted' : List Envelope = s.posted ++ (new ∷ []) in
      let p = Within-append s.posted new in
      let a_env : AddressedEnvelope = record { sock_info = receiver; env = new } in
      record {
        order = record {
          sound = record {
            in_valid = v.order.sound.in_valid;
            out_valid = push-IsValid a_env v.order.sound.out_valid;
            ack_valid = v.order.sound.ack_valid;
          };
          counters = v.order.counters;
        };
        outgoing =
            All-push (λ (a : AddressedEnvelope). Outgoing posted' a.env) a_env
              v.order.sound.out_valid
              (All-map (λ (a : AddressedEnvelope). Outgoing s.posted a.env)
                (λ a. Outgoing posted' a.env) (λ a h. Outgoing-Within s.posted posted' p a.env h)
                (contents s.endpoint.out_queue) v.outgoing)
              (In-append_last s.posted new, IsProper-stamped now_us env proper);
        busy = Busy-Within s.posted posted' p s.sender v.busy;
        in_hand = v.in_hand;
        genuine =
            All-map (Genuine W s.posted s.taken) (Genuine W posted' s.taken)
              (Genuine-Within W s.posted posted' s.taken s.taken p (λ m i. i)) s.sent v.genuine;
        incoming = v.incoming;
        copies = v.copies;
        acks = v.acks;
        known = v.known;
        own = All-map (λ (m : Envelope). In m s.posted) (λ m. In m posted') p s.confirmed v.own;
      }

  pub picks-Inv :
      (a_env : AddressedEnvelope)
      → (CircularBuffer.pop s.endpoint.out_queue).0 ≡ some a_env
      → let s' : Side = record s {
        endpoint = record (s.endpoint) { out_queue = (CircularBuffer.pop s.endpoint.out_queue).1 };
        sender = holds a_env send_attempts;
      } in
        Inv W s' peer_posted peer_taken
  picks-Inv a_env item =
      let (rest, was) =
        All-pop (λ (a : AddressedEnvelope). Outgoing s.posted a.env) v.order.sound.out_valid
          v.outgoing in
      record {
        order = record {
          sound = record {
            in_valid = v.order.sound.in_valid;
            out_valid = pop-IsValid v.order.sound.out_valid;
            ack_valid = v.order.sound.ack_valid;
          };
          counters = v.order.counters;
        };
        outgoing = rest;
        busy = was a_env item;
        in_hand = tt;
        genuine = v.genuine;
        incoming = v.incoming;
        copies = v.copies;
        acks = v.acks;
        known = v.known;
        own = v.own;
      }

  pub transmits-Inv :
      (a_env : AddressedEnvelope) (k : ℕ) (d : Datagram) (e : UdpEndpointBase)
      → s.sender ≡ holds a_env (suc k)
      → send_datagram W s.endpoint a_env ≡ some (d, e)
      → let s' : Side = record s {
        endpoint = e;
        sender = waits a_env k;
        sent = s.sent ++ (d ∷ []);
      } in
        Inv W s' peer_posted peer_taken
  transmits-Inv a_env k d e held left =
      let (i, proper) : Outgoing s.posted a_env.env = subst (Busy s.posted) held v.busy in
      let (got, copy, read) = sent-IsCopy W s.endpoint a_env d e left proper.named proper.sized in
      let (same, _) = sent-SameQueues W s.endpoint a_env d e left in
      let (type, _) = IsCopy-fields a_env.env got copy in
      record {
        order = InOrder-SameQueues s.endpoint e same v.order;
        outgoing = rw (same.same_out) (v.outgoing);
        busy = (i, proper);
        in_hand = tt;
        genuine = All-append (Genuine W s.posted s.taken) s.sent (d ∷ []) v.genuine (
          (got, read, λ _. (a_env.env, i, proper, copy), λ ack. cc (ack, proper.message, type)),
          tt,
        );
        incoming = rw (same.same_in) (v.incoming);
        copies = v.copies;
        acks = rw (same.same_ack) (v.acks);
        known = v.known;
        own = v.own;
      }

  pub gives_up-Inv : Inv W (record s { sender = idle }) peer_posted peer_taken
  gives_up-Inv = record {
    order = v.order;
    outgoing = v.outgoing;
    busy = tt;
    in_hand = tt;
    genuine = v.genuine;
    incoming = v.incoming;
    copies = v.copies;
    acks = v.acks;
    known = v.known;
    own = v.own;
  }

  -- The endpoint with another queue of acknowledgements, as `checkAckQueue` leaves it.
  acks-Inv :
      (q : CircularBuffer ExpiringAck message_queue_size) (r : Sender)
      → IsValid q
      → AllCounters (contents q)
      → AllTimes (TimeOf peer_taken) (contents q)
      → Busy s.posted r
      → InHand peer_taken r
      → let s' : Side = record s { endpoint = record (s.endpoint) { ack_queue = q }; sender = r } in
        Inv W s' peer_posted peer_taken
  acks-Inv q r valid counters times b h = record {
    order = record {
      sound = record {
        in_valid = v.order.sound.in_valid;
        out_valid = v.order.sound.out_valid;
        ack_valid = valid;
      };
      counters = counters;
    };
    outgoing = v.outgoing;
    busy = b;
    in_hand = h;
    genuine = v.genuine;
    incoming = v.incoming;
    copies = v.copies;
    acks = times;
    known = v.known;
    own = v.own;
  }

  abbrev popped_acks : CircularBuffer ExpiringAck message_queue_size
  popped_acks = (CircularBuffer.pop s.endpoint.ack_queue).1

  -- What a `pop` of the acknowledgements leaves and gives.
  popped_lem :
      IsValid popped_acks
      × AllCounters (contents popped_acks)
      × AllTimes (TimeOf peer_taken) (contents popped_acks)
      × ((ack : ExpiringAck)
          → (CircularBuffer.pop s.endpoint.ack_queue).0 ≡ some ack
          → TimeOf peer_taken ack.t_stamp × IsCounter ack.counter)
  popped_lem =
      let valid = v.order.sound.ack_valid in
      let (times, time) = All-pop (λ (a : ExpiringAck). TimeOf peer_taken a.t_stamp) valid v.acks in
      let (counters, counter) = AllCounters-pop s.endpoint.ack_queue valid v.order.counters in
      (pop-IsValid valid, counters, times, λ ack e. (time ack e, counter ack e))

  pub drops_ack-Inv :
      let s' : Side = record s { endpoint = record (s.endpoint) { ack_queue = popped_acks } } in
      Inv W s' peer_posted peer_taken
  drops_ack-Inv =
      let (valid, counters, times, _) = popped_lem in
      acks-Inv popped_acks s.sender valid counters times v.busy v.in_hand

  pub drops_message-Inv :
      let s' : Side = record s {
        endpoint = record (s.endpoint) { in_queue = (CircularBuffer.pop s.endpoint.in_queue).1 };
      } in
      Inv W s' peer_posted peer_taken
  drops_message-Inv = record {
    order = record {
      sound = record {
        in_valid = pop-IsValid v.order.sound.in_valid;
        out_valid = v.order.sound.out_valid;
        ack_valid = v.order.sound.ack_valid;
      };
      counters = v.order.counters;
    };
    outgoing = v.outgoing;
    busy = v.busy;
    in_hand = v.in_hand;
    genuine = v.genuine;
    incoming =
        (All-pop (λ (a : AddressedEnvelope). CopyOf peer_posted a.env) v.order.sound.in_valid
          v.incoming).0;
    copies = v.copies;
    acks = v.acks;
    known = v.known;
    own = v.own;
  }

  pub finds_no_ack-Inv :
      (a_env : AddressedEnvelope) (k : ℕ)
      → s.sender ≡ waits a_env k
      → let s' : Side = record s {
        endpoint = record (s.endpoint) { ack_queue = popped_acks };
        sender = holds a_env k;
      } in
        Inv W s' peer_posted peer_taken
  finds_no_ack-Inv a_env k held =
      let (valid, counters, times, _) = popped_lem in
      let b : Outgoing s.posted a_env.env = subst (Busy s.posted) held v.busy in
      acks-Inv popped_acks (holds a_env k) valid counters times b tt

  pub finds_other-Inv :
      (a_env : AddressedEnvelope) (k : ℕ) (ack : ExpiringAck)
      → s.sender ≡ waits a_env k
      → (CircularBuffer.pop s.endpoint.ack_queue).0 ≡ some ack
      → let s' : Side = record s {
        endpoint = record (s.endpoint) { ack_queue = popped_acks };
        sender = returns a_env k ack;
      } in
        Inv W s' peer_posted peer_taken
  finds_other-Inv a_env k ack held item =
      let (valid, counters, times, was) = popped_lem in
      let b : Outgoing s.posted a_env.env = subst (Busy s.posted) held v.busy in
      acks-Inv popped_acks (returns a_env k ack) valid counters times b (was ack item)

  pub puts_back-Inv :
      (a_env : AddressedEnvelope) (k : ℕ) (ack : ExpiringAck)
      → s.sender ≡ returns a_env k ack
      → let s' : Side = record s {
        endpoint = record (s.endpoint) { ack_queue = put_back s.endpoint.ack_queue ack };
        sender = holds a_env k;
      } in
        Inv W s' peer_posted peer_taken
  puts_back-Inv a_env k ack held =
      let b : Outgoing s.posted a_env.env = subst (Busy s.posted) held v.busy in
      let hand : TimeOf peer_taken ack.t_stamp × IsCounter ack.counter =
        subst (InHand peer_taken) held v.in_hand in
      let (time, range) = hand in
      let (low, high) = range in
      let valid = v.order.sound.ack_valid in
      let after = put_back_full s.endpoint.ack_queue ack valid low high in
      let waiting = contents s.endpoint.ack_queue in
      acks-Inv (put_back s.endpoint.ack_queue ack) (holds a_env k) after.valid
        (rw (after.items) (AllCounters-returned_to waiting ack v.order.counters high))
        (rw (after.items) (All-returned_to (TimeOf peer_taken) waiting ack v.acks time)) b tt

  pub finds-Inv :
      (a_env : AddressedEnvelope) (k : ℕ) (ack : ExpiringAck)
      → s.sender ≡ waits a_env k
      → (CircularBuffer.pop s.endpoint.ack_queue).0 ≡ some ack
      → (ack.t_stamp == get_time_stamp a_env.env) ≡ true
      → let s' : Side = record s {
        endpoint = record (s.endpoint) { ack_queue = popped_acks };
        sender = idle;
        confirmed = s.confirmed ++ (a_env.env ∷ []);
      } in
        Inv W s' peer_posted peer_taken
  finds-Inv a_env k ack held item found =
      let t = get_time_stamp a_env.env in
      let (i, _) : Outgoing s.posted a_env.env = subst (Busy s.posted) held v.busy in
      let (valid, counters, times, was) = popped_lem in
      let (time, _) = was ack item in
      let same : ack.t_stamp ≡ t = ground arith in
      let after = acks-Inv popped_acks idle valid counters times tt tt in
      record {
        order = after.order;
        outgoing = after.outgoing;
        busy = after.busy;
        in_hand = tt;
        genuine = after.genuine;
        incoming = after.incoming;
        copies = after.copies;
        acks = after.acks;
        known =
            All-append (λ (m : Envelope). TimeOf peer_taken (get_time_stamp m)) s.confirmed
              (a_env.env ∷ []) v.known (subst (TimeOf peer_taken) same time, tt);
        own =
            All-append (λ (m : Envelope). In m s.posted) s.confirmed (a_env.env ∷ []) v.own (i, tt);
      }
