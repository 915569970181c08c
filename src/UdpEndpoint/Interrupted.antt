-- ===== src/UdpEndpoint/Interrupted.antt =====
-- `checkAckQueue` of common/endpoint/UdpEndpointBase.cpp, while the listener uses the queue
-- between its `pop` and its `push`.
use simple_messenger.Prelude.{
  ◌%◌, ◌+◌, ℕ, ◌-◌, ◌<◌, ◌≡◌, refl, ap, ◌∙◌, Bool, true, false, List, [], ◌∷◌, arith, length, ltb,
  ◌==◌, if◌then◌else◌, Bool-cases, inl, inr,
}
use simple_messenger.CircularBuffer
use simple_messenger.CircularBuffer.{CircularBuffer}
use simple_messenger.CircularBuffer.Queue
use simple_messenger.CircularBuffer.Invariant.{IsValid, push-IsValid, pop-IsValid}
use simple_messenger.CircularBuffer.Refine.{
  contents, is_empty_of_nil, push_refines, pop_refines, pop_of_cons,
}
use simple_messenger.UdpEndpoint.Defs.{
  ExpiringAck, message_queue_size, put_back, check_popped, AckCall, pushes, drops, run_ack_calls,
  check_ack_queue_around,
}
use simple_messenger.UdpEndpoint.Store.{Holds}
use simple_messenger.UdpEndpoint.Ack.{AllCounters, pop_of_empty, AllCounters-append}

abbrev pub AckQueue : Type 0
AckQueue = CircularBuffer ExpiringAck message_queue_size

-- What the listener's calls make of the list of waiting acknowledgements.
unfoldable pub acks_run : List ExpiringAck → List AckCall → List ExpiringAck
acks_run q [] = q
acks_run q (pushes t ∷ more) =
    acks_run (Queue.push 4 q (record { counter = 3; t_stamp = t })).1 more
acks_run q (drops ∷ more) = acks_run (Queue.pop q).1 more

-- An acknowledgement goes back with one less, unless it is used up or four others wait.
unfoldable pub returned_to : List ExpiringAck → ExpiringAck → List ExpiringAck
returned_to q a =
    if ltb 1 a.counter then (Queue.push 4 q (record a { counter = a.counter - 1 })).1 else q

-- The specification: the oldest acknowledgement is taken, the listener makes its calls, and it goes
-- back if it is for another time.
unfoldable pub check_around : List ExpiringAck → List AckCall → ℕ → Bool × List ExpiringAck
check_around [] calls t = (false, acks_run [] calls)
check_around (a ∷ q) calls t =
    if a.t_stamp == t then (true, acks_run q calls) else (false, returned_to (acks_run q calls) a)

run_ack_calls_lem :
    (b : AckQueue) (calls : List AckCall)
    → IsValid b
    → Holds (run_ack_calls b calls) (acks_run (contents b) calls)
unfolding run_ack_calls acks_run
run_ack_calls_lem b [] v = record { valid = v; items = refl }
run_ack_calls_lem b (pushes t ∷ more) v =
    let a : ExpiringAck = record { counter = 3; t_stamp = t } in
    let held = run_ack_calls_lem (CircularBuffer.push b a).1 more (push-IsValid a v) in
    record {
      valid = held.valid;
      items = held.items ∙ ap (λ r. acks_run r.1 more) (push_refines a v);
    }
run_ack_calls_lem b (drops ∷ more) v =
    let held = run_ack_calls_lem (CircularBuffer.pop b).1 more (pop-IsValid v) in
    record { valid = held.valid; items = held.items ∙ ap (λ r. acks_run r.1 more) (pop_refines v) }

pub put_back_full :
    (b : AckQueue) (a : ExpiringAck)
    → IsValid b
    → 0 < a.counter
    → a.counter < 256
    → Holds (put_back b a) (returned_to (contents b) a)
unfolding put_back returned_to
put_back_full b a v low high =
    let less : (a.counter + 255) % 256 ≡ a.counter - 1 = omega arith in
    let back : ExpiringAck = record a { counter = a.counter - 1 } in
    elim (Bool-cases (ltb 1 a.counter)) [
      | inl more ↦
          let left : ltb 0 (a.counter - 1) ≡ true = ground arith in
          rw (less, left, more)
            (record { valid = push-IsValid back v; items = ap (λ r. r.1) (push_refines back v) })
      | inr last ↦
          let gone : ltb 0 (a.counter - 1) ≡ false = ground arith in
          rw (less, gone, last) (record { valid = v; items = refl })
    ]

-- Whatever calls of `push` and `pop` the listener makes on the queue of acknowledgements between the
-- `pop` and the `push` of `checkAckQueue`, the answer is whether the oldest acknowledgement was for the
-- time that is asked for. The queue is valid afterwards and holds what these calls make of those that
-- waited behind the oldest one; and behind these the oldest one with one less, if it was for another
-- time, was not used up, and fewer than four wait by then: otherwise it is lost. The queue is valid at
-- the start, and its counters are from 1 to 255.
pub check_ack_queue_interrupted :
    (b : AckQueue) (calls : List AckCall) (t : ℕ)
    → IsValid b
    → AllCounters (contents b)
    → ((check_ack_queue_around calls b t).0 ≡ (check_around (contents b) calls t).0)
      × Holds (check_ack_queue_around calls b t).1 (check_around (contents b) calls t).1
unfolding check_ack_queue_around check_popped check_around
check_ack_queue_interrupted b calls t v c = go (contents b) refl c
  where
    go :
        (q : List ExpiringAck)
        → contents b ≡ q
        → AllCounters q
        → ((check_ack_queue_around calls b t).0 ≡ (check_around q calls t).0)
          × Holds (check_ack_queue_around calls b t).1 (check_around q calls t).1
    go [] e _ =
        let held = run_ack_calls_lem b calls v in
        let items : contents (run_ack_calls b calls) ≡ acks_run [] calls =
          held.items ∙ ap (λ q. acks_run q calls) e in
        rw (pop_of_empty b (is_empty_of_nil v e))
          (refl, record { valid = held.valid; items = items })
    go (a ∷ q) e ((low, high), _) =
        let (_, item, rest) = pop_of_cons v a q e in
        let b₁ = (CircularBuffer.pop b).1 in
        let held = run_ack_calls_lem b₁ calls (pop-IsValid v) in
        let items : contents (run_ack_calls b₁ calls) ≡ acks_run q calls =
          held.items ∙ ap (λ q. acks_run q calls) rest in
        elim (Bool-cases (a.t_stamp == t)) [
          | inl found ↦ rw (item, found) (refl, record { valid = held.valid; items = items })
          | inr other ↦
              rw (item, other)
                (refl, rw (← items) (put_back_full (run_ack_calls b₁ calls) a held.valid low high))
        ]

AllCounters-Queue_push :
    (q : List ExpiringAck) (a : ExpiringAck)
    → AllCounters q
    → (0 < a.counter) × (a.counter < 256)
    → AllCounters (Queue.push 4 q a).1
unfolding Queue.push
AllCounters-Queue_push q a c h = elim (Bool-cases (length q == 4)) [
  | inl full ↦ rw full c
  | inr room ↦ rw room (AllCounters-append q a c h)
]

-- The counters stay in their range.
pub AllCounters-returned_to :
    (q : List ExpiringAck) (a : ExpiringAck)
    → AllCounters q
    → a.counter < 256
    → AllCounters (returned_to q a)
unfolding returned_to
AllCounters-returned_to q a c h = elim (Bool-cases (ltb 1 a.counter)) [
  | inl more ↦ rw more (
      AllCounters-Queue_push q (record a { counter = a.counter - 1 }) c
        ((ground arith, omega arith)))
  | inr last ↦ rw last c
]
