-- ===== src/UdpEndpoint/Threads/Ends.antt =====
-- The destructor of an endpoint returns.
use simple_messenger.Prelude.{
  ℕ, zero, suc, ◌+◌, ◌*◌, ◌≤◌, ◌<◌, ◌≡◌, ◌≢◌, ◌⊎◌, refl, ap, subst, false, arith, Option-cases,
  Bool-cases, inl, inr, ◌==◌,
}
use simple_messenger.CircularBuffer
use simple_messenger.Message.{get_time_stamp}
use simple_messenger.Endpoint.{Wire, failed, poll_socket}
use simple_messenger.UdpEndpoint.Retransmit.{send_datagram_lem}
use simple_messenger.UdpEndpoint.Threads.{
  Sender, Listener, Owner, resting, holds, waits, returns, polling, alive, joining_sender,
  joining_listener, gone, Threads, begin_destructor, Step, posts, destroys, joins_sender,
  joins_listener, sender_ends, sender_rests, finds_nothing, picks, transmits, gives_up, finds_ack,
  finds_no_ack, finds_other, puts_back, listener_ends, listener_polls, nothing_comes, hears,
}
use simple_messenger.UdpEndpoint.Threads.Invariant.{
  Busy, IsReady, InUse, begin-IsReady, Sendable_of_fits, Step-IsReady,
}

-- The steps that are left to each thread.
unfoldable sender_left : Sender → ℕ
sender_left Sender.ended = 0
sender_left Sender.testing = 1
sender_left (holds a k) = 3 * k + 2
sender_left (returns a k ack) = 3 * k + 3
sender_left (waits a k) = 3 * k + 4
sender_left resting = 18

unfoldable listener_left : Listener → ℕ
listener_left Listener.ended = 0
listener_left Listener.testing = 1
listener_left polling = 2

unfoldable owner_left : Owner → ℕ
owner_left gone = 0
owner_left joining_listener = 1
owner_left joining_sender = 2
owner_left alive = 3

unfoldable measure : Threads → ℕ
measure s = sender_left s.sender + listener_left s.listener + owner_left s.owner

listener_left_le : (l : Listener) → listener_left l ≤ 2
unfolding listener_left
listener_left_le Listener.ended = omega arith
listener_left_le Listener.testing = omega arith
listener_left_le polling = omega arith

owner_left_le : (w : Owner) → w ≢ alive → owner_left w ≤ 2
unfolding owner_left
owner_left_le gone o = omega arith
owner_left_le joining_listener o = omega arith
owner_left_le joining_sender o = omega arith
owner_left_le alive o = absurd (o refl)

module _ (W : Wire) where
  -- The destructor has returned after at most so many steps of the threads, in whatever order they are
  -- made, and until then one of them can make a step.
  unfoldable pub Ends : ℕ → Threads → Type 0
  Ends zero s = s.owner ≡ gone
  Ends (suc k) s =
      (s.owner ≡ gone) ⊎ (((t : Threads) × Step W s t) × ((t : Threads) → Step W s t → Ends k t))

  Step-measure :
      {s t : Threads} → Step W s t → s.owner ≢ alive → s.is_running ≡ false → measure t < measure s
  unfolding measure sender_left listener_left owner_left
  Step-measure (posts now env receiver h) o r = absurd (o h)
  Step-measure (destroys h) o r = absurd (o h)
  Step-measure (joins_sender h e) o r = omega (arith, ap owner_left h)
  Step-measure (joins_listener h e) o r = omega (arith, ap owner_left h)
  Step-measure (sender_ends h e) o r = omega (arith, ap sender_left h)
  Step-measure (sender_rests h e) o r = cc (e, r)
  Step-measure (finds_nothing h e) o r = omega (arith, ap sender_left h)
  Step-measure (picks a h e) o r = omega (arith, ap sender_left h)
  Step-measure (transmits a k d e h left) o r = omega (arith, ap sender_left h)
  Step-measure (gives_up a h) o r = omega (arith, ap sender_left h)
  Step-measure (finds_ack a k ack h item found) o r = omega (arith, ap sender_left h)
  Step-measure (finds_no_ack a k h item) o r = omega (arith, ap sender_left h)
  Step-measure (finds_other a k ack h item other) o r = omega (arith, ap sender_left h)
  Step-measure (puts_back a k ack h) o r = omega (arith, ap sender_left h)
  Step-measure (listener_ends h e) o r = omega (arith, ap listener_left h)
  Step-measure (listener_polls h e) o r = cc (e, r)
  Step-measure (nothing_comes p h e) o r = omega (arith, ap listener_left h)
  Step-measure (hears p d e h ready heard) o r = omega (arith, ap listener_left h)

  -- A thread of the sender that has not returned can make a step.
  sender_step :
      (capacity : ℕ) (s : Threads)
      → IsReady W capacity s
      → s.is_running ≡ false
      → (s.sender ≡ Sender.ended) ⊎ ((t : Threads) × Step W s t)
  sender_step capacity s v stopped = go s.sender refl
    where
      go : (r : Sender) → s.sender ≡ r → (s.sender ≡ Sender.ended) ⊎ ((t : Threads) × Step W s t)
      go Sender.ended h = inl h
      go Sender.testing h = inr (_, sender_ends h stopped)
      go resting h = elim (Option-cases (CircularBuffer.pop s.endpoint.out_queue).0) [
        | inl empty ↦ inr (_, finds_nothing h empty)
        | inr (a, item) ↦ inr (_, picks a h item)
      ]
      go (holds a zero) h = inr (_, gives_up a h)
      go (holds a (suc k)) h =
          let (fit, few) : Busy W capacity (holds a (suc k)) = subst (Busy W capacity) h v.busy in
          let can = Sendable_of_fits W capacity s.endpoint a.env v.room fit in
          inr (_, transmits a k _ _ h (send_datagram_lem W s.endpoint a can))
      go (waits a k) h = elim (Option-cases (CircularBuffer.pop s.endpoint.ack_queue).0) [
        | inl empty ↦ inr (_, finds_no_ack a k h empty)
        | inr (ack, item) ↦ elim (Bool-cases (ack.t_stamp == get_time_stamp a.env)) [
          | inl found ↦ inr (_, finds_ack a k ack h item found)
          | inr other ↦ inr (_, finds_other a k ack h item other)
        ]
      ]
      go (returns a k ack) h = inr (_, puts_back a k ack h)

  -- So can a thread of the listener: `poll` comes back after 100 milliseconds.
  listener_step :
      (s : Threads)
      → s.is_running ≡ false
      → (s.listener ≡ Listener.ended) ⊎ ((t : Threads) × Step W s t)
  unfolding poll_socket
  listener_step s stopped = go s.listener refl
    where
      go :
          (l : Listener)
          → s.listener ≡ l
          → (s.listener ≡ Listener.ended) ⊎ ((t : Threads) × Step W s t)
      go Listener.ended h = inl h
      go Listener.testing h = inr (_, listener_ends h stopped)
      go polling h = inr (_, nothing_comes failed h refl)

  progress :
      (capacity : ℕ) (s : Threads)
      → IsReady W capacity s
      → s.owner ≢ alive
      → (s.owner ≡ gone) ⊎ ((t : Threads) × Step W s t)
  progress capacity s v o = go s.owner refl
    where
      go : (w : Owner) → s.owner ≡ w → (s.owner ≡ gone) ⊎ ((t : Threads) × Step W s t)
      go alive h = absurd (o h)
      go joining_sender h = elim (sender_step capacity s v (v.stopped o)) [
        | inl over ↦ inr (_, joins_sender h over)
        | inr step ↦ inr step
      ]
      go joining_listener h = elim (listener_step s (v.stopped o)) [
        | inl over ↦ inr (_, joins_listener h over)
        | inr step ↦ inr step
      ]
      go gone h = inl h

  -- No step is left only to an owner that has gone.
  measure_zero : (s : Threads) → measure s ≤ 0 → s.owner ≡ gone
  unfolding measure owner_left
  measure_zero s h = go s.owner refl
    where
      go : (w : Owner) → s.owner ≡ w → s.owner ≡ gone
      go gone e = e
      go joining_listener e = absurd (omega (arith, ap owner_left e))
      go joining_sender e = absurd (omega (arith, ap owner_left e))
      go alive e = absurd (omega (arith, ap owner_left e))

  Ends-within :
      (capacity k : ℕ) (s : Threads)
      → IsReady W capacity s
      → s.owner ≢ alive
      → measure s ≤ k
      → Ends k s
  unfolding Ends
  Ends-within capacity zero s v o h = measure_zero s h
  Ends-within capacity (suc k) s v o h = elim (progress capacity s v o) [
    | inl over ↦ inl over
    | inr step ↦ inr (
      step,
      λ t move.
          let less = Step-measure move o (v.stopped o) in
          let (o', v') = Step-IsReady W capacity move o v in
          Ends-within capacity k t v' o' (omega arith),
    )
  ]

  sender_left_le : (capacity : ℕ) (r : Sender) → Busy W capacity r → sender_left r ≤ 18
  unfolding sender_left
  sender_left_le capacity Sender.ended b = omega arith
  sender_left_le capacity Sender.testing b = omega arith
  sender_left_le capacity resting b = omega arith
  sender_left_le capacity (holds a k) (fit, few) = omega arith
  sender_left_le capacity (waits a k) (fit, few) = omega arith
  sender_left_le capacity (returns a k ack) (fit, few, range) = omega arith

  measure_le :
      (capacity : ℕ) (s : Threads) → IsReady W capacity s → s.owner ≢ alive → measure s ≤ 22
  unfolding measure
  measure_le capacity s v o = omega (
    arith,
    sender_left_le capacity s.sender v.busy,
    listener_left_le s.listener,
    owner_left_le s.owner o,
  )

  -- The destructor of an endpoint in use returns, wherever its threads are when it begins: it clears
  -- `isRunning`, and has returned after at most 22 further steps of the two threads and its own, in
  -- whatever order they are made, and until then one of them can make a step. A sleep, a poll, a
  -- datagram or an access to a queue is a step. The queues are in order, the messages that are still to be sent fit
  -- the buffer, and a message that the sender is busy with has at most five attempts left.
  pub endpoint_destructor_returns :
      (capacity : ℕ) (s : Threads) → InUse W capacity s → Ends 22 (begin_destructor s)
  endpoint_destructor_returns capacity s u =
      let t = begin_destructor s in
      let (o, v) = begin-IsReady W capacity u in
      Ends-within capacity 22 t v o (measure_le capacity t v o)
