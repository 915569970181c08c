-- ===== src/UdpEndpoint/Threads/Dropped.antt =====
-- The messages that an endpoint still holds when it is destroyed.
use simple_messenger.Prelude.{ℕ, suc, ◌+◌, ◌≤◌, ◌≡◌, ◌≢◌, ap, List, length, arith}
use simple_messenger.CircularBuffer.Queue
use simple_messenger.CircularBuffer.Refine.{contents, pop_refines}
use simple_messenger.Endpoint.{Wire}
use simple_messenger.UdpEndpoint.Defs.{AddressedEnvelope}
use simple_messenger.UdpEndpoint.Network.Sends.{sent-SameQueues}
use simple_messenger.UdpEndpoint.Threads.{
  Sender, resting, holds, waits, returns, alive, Threads, begin_destructor, Step, posts, destroys,
  joins_sender, joins_listener, sender_ends, sender_rests, finds_nothing, picks, transmits,
  gives_up, finds_ack, finds_no_ack, finds_other, puts_back, listener_ends, listener_polls,
  nothing_comes, hears, Steps, start, next,
}
use simple_messenger.UdpEndpoint.Threads.Invariant.{
  IsReady, InUse, begin-IsReady, listen-InOrder, Step-IsReady,
}

-- The messages that wait to be sent.
abbrev pub unsent : Threads → ℕ
unsent s = length (contents s.endpoint.out_queue)

-- A sender that has passed its test may still pick one message.
unfoldable may_pick : Sender → ℕ
may_pick resting = 1
may_pick Sender.testing = 0
may_pick Sender.ended = 0
may_pick (holds a k) = 0
may_pick (waits a k) = 0
may_pick (returns a k ack) = 0

may_pick_le : (r : Sender) → may_pick r ≤ 1
unfolding may_pick
may_pick_le resting = omega arith
may_pick_le Sender.testing = omega arith
may_pick_le Sender.ended = omega arith
may_pick_le (holds a k) = omega arith
may_pick_le (waits a k) = omega arith
may_pick_le (returns a k ack) = omega arith

length-Queue_pop : (q : List AddressedEnvelope) → length q ≤ suc (length (Queue.pop q).1)
unfolding Queue.pop
length-Queue_pop q = ground arith

module _ (W : Wire) (capacity : ℕ) where
  Step-unsent :
      {s t : Threads}
      → Step W s t
      → s.owner ≢ alive
      → IsReady W capacity s
      → unsent s + may_pick t.sender ≤ unsent t + may_pick s.sender
  unfolding may_pick
  Step-unsent (posts now env receiver h) o v = absurd (o h)
  Step-unsent (destroys h) o v = absurd (o h)
  Step-unsent (joins_sender h e) o v = omega arith
  Step-unsent (joins_listener h e) o v = omega arith
  Step-unsent (sender_ends h e) o v = omega arith
  Step-unsent (sender_rests h e) o v = cc (e, v.stopped o)
  Step-unsent (finds_nothing h e) o v = omega arith
  Step-unsent {s} (picks a h item) o v = omega (
    arith,
    ap may_pick h,
    length-Queue_pop (contents s.endpoint.out_queue),
    ap (λ r. length r.1) (pop_refines v.order.sound.out_valid),
  )
  Step-unsent {s} (transmits a k d e h left) o v =
      let (same, _) = sent-SameQueues W s.endpoint a d e left in
      let kept : length (contents e.out_queue) ≡ unsent s =
        ap (λ q. length (contents q)) same.same_out in
      omega arith
  Step-unsent (gives_up a h) o v = omega arith
  Step-unsent (finds_ack a k ack h item found) o v = omega arith
  Step-unsent (finds_no_ack a k h item) o v = omega arith
  Step-unsent (finds_other a k ack h item other) o v = omega arith
  Step-unsent (puts_back a k ack h) o v = omega arith
  Step-unsent (listener_ends h e) o v = omega arith
  Step-unsent (listener_polls h e) o v = omega arith
  Step-unsent (nothing_comes p h e) o v = omega arith
  Step-unsent {s} (hears p d e h ready heard) o v =
      let (_, out, _) = listen-InOrder W s.endpoint d e v.order heard in
      let kept : length (contents e.out_queue) ≡ unsent s = ap (λ q. length (contents q)) out in
      omega arith

  Steps-unsent :
      {s t : Threads}
      → Steps W s t
      → s.owner ≢ alive
      → IsReady W capacity s
      → (t.owner ≢ alive)
        × IsReady W capacity t
        × (unsent s + may_pick t.sender ≤ unsent t + may_pick s.sender)
  Steps-unsent start o v = (o, v, omega arith)
  Steps-unsent (next steps step) o v =
      let (o', v', h) = Steps-unsent steps o v in
      let (o'', v'') = Step-IsReady W capacity step o' v' in
      (o'', v'', omega (arith, Step-unsent step o' v'))

  -- From the moment at which the destructor of an endpoint in use begins, at most one more message
  -- leaves the outgoing queue, however long the threads go on: the others that `sendEnvelope` has put
  -- there are never sent. The queues are in order, the messages that are still to be sent fit the
  -- buffer, and a message that the sender is busy with has at most five attempts left.
  pub destructor_drops :
      (s t : Threads)
      → InUse W capacity s
      → Steps W (begin_destructor s) t
      → unsent s ≤ suc (unsent t)
  unfolding begin_destructor
  destructor_drops s t u steps =
      let (o, v) = begin-IsReady W capacity u in
      let (_, _, h) = Steps-unsent steps o v in omega (arith, may_pick_le s.sender)
