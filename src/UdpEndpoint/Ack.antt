-- ===== src/UdpEndpoint/Ack.antt =====
-- The search of `checkAckQueue` for an acknowledgement.
use simple_messenger.Prelude.{
  ℕ, suc, ◌+◌, ◌-◌, ◌%◌, ◌≤◌, ◌<◌, ◌≡◌, refl, sym, ap, ◌∙◌, Bool, true, false, none, some, List, [],
  ◌∷◌, ◌++◌, arith, length, ltb, ◌==◌, if◌then◌else◌, Bool-cases, inl, inr,
}
use simple_messenger.CircularBuffer
use simple_messenger.CircularBuffer.{CircularBuffer}
use simple_messenger.CircularBuffer.Invariant.{IsValid, push-IsValid, pop-IsValid}
use simple_messenger.CircularBuffer.Refine.{
  contents, length-contents, is_empty_of_nil, push_of_room, pop_of_cons,
}
use simple_messenger.UdpEndpoint.Defs.{
  ExpiringAck, message_queue_size, put_back, check_popped, check_ack_queue,
}
use simple_messenger.UdpEndpoint.Store.{Holds}

-- A counter is at least 1 while it is in the queue, and fits a `uint8_t`.
abbrev pub AllCounters : List ExpiringAck → Type 0
AllCounters [] = Unit
AllCounters (a ∷ q) = ((0 < a.counter) × (a.counter < 256)) × AllCounters q

-- An acknowledgement that did not fit is put back with one less, or is given up.
abbrev pub put_back_list : List ExpiringAck → ExpiringAck → List ExpiringAck
put_back_list q a = if ltb 1 a.counter then q ++ (record a { counter = a.counter - 1 } ∷ []) else q

-- The specification of a check, on the list of the acknowledgements that wait.
unfoldable pub check : List ExpiringAck → ℕ → Bool × List ExpiringAck
check [] t = (false, [])
check (a ∷ q) t = if a.t_stamp == t then (true, q) else (false, put_back_list q a)

-- The checks that are left to the acknowledgements in the queue.
unfoldable pub budget : List ExpiringAck → ℕ
budget [] = 0
budget (a ∷ q) = a.counter + budget q

pub AllCounters-append :
    (q : List ExpiringAck) (a : ExpiringAck)
    → AllCounters q
    → (0 < a.counter) × (a.counter < 256)
    → AllCounters (q ++ (a ∷ []))
AllCounters-append [] a _ h = (h, tt)
AllCounters-append (x ∷ q) a (hx, c) h = (hx, AllCounters-append q a c h)

budget-append :
    (q : List ExpiringAck) (a : ExpiringAck) → budget (q ++ (a ∷ [])) ≡ budget q + a.counter
unfolding budget
budget-append [] a = omega arith
budget-append (x ∷ q) a = ground (arith, budget-append q a)

abbrev AckQueue : Type 0
AckQueue = CircularBuffer ExpiringAck message_queue_size

put_back_lem :
    (b : AckQueue) (a : ExpiringAck)
    → IsValid b
    → CircularBuffer.is_full b ≡ false
    → 0 < a.counter
    → a.counter < 256
    → Holds (put_back b a) (put_back_list (contents b) a)
unfolding put_back
put_back_lem b a v room low high =
    let less : (a.counter + 255) % 256 ≡ a.counter - 1 = omega arith in
    elim (Bool-cases (ltb 1 a.counter)) [
      | inl more ↦
          let left : ltb 0 (a.counter - 1) ≡ true = ground arith in
          rw (less, left, more)
            (record {
              valid = push-IsValid (record a { counter = a.counter - 1 }) v;
              items = (push_of_room v (record a { counter = a.counter - 1 }) room).1;
            })
      | inr last ↦
          let gone : ltb 0 (a.counter - 1) ≡ false = ground arith in
          rw (less, gone, last) (record { valid = v; items = refl })
    ]

pub pop_of_empty :
    (b : AckQueue) → CircularBuffer.is_empty b ≡ true → CircularBuffer.pop b ≡ (none, b)
unfolding CircularBuffer.pop
pop_of_empty b e = rw e

check_popped_empty :
    (b : AckQueue) (t : ℕ) → CircularBuffer.is_empty b ≡ true → check_ack_queue b t ≡ (false, b)
unfolding check_ack_queue check_popped
check_popped_empty b t e = rw (pop_of_empty b e)

check_popped_cons :
    (b : AckQueue) (t : ℕ) (a : ExpiringAck)
    → (CircularBuffer.pop b).0 ≡ some a
    → check_ack_queue b t ≡ (
        if a.t_stamp == t
        then (true, (CircularBuffer.pop b).1)
        else (false, put_back (CircularBuffer.pop b).1 a))
unfolding check_ack_queue check_popped
check_popped_cons b t a e = ap (λ i. check_popped t (i, (CircularBuffer.pop b).1)) e

room_of_pop :
    (b : AckQueue) (a : ExpiringAck) (q : List ExpiringAck)
    → IsValid b
    → contents b ≡ a ∷ q
    → CircularBuffer.is_full (CircularBuffer.pop b).1 ≡ false
unfolding CircularBuffer.is_full
room_of_pop b a q v e =
    let b₁ = (CircularBuffer.pop b).1 in
    let (_, _, rest) = pop_of_cons v a q e in
    let sized : suc (length q) ≡ b.size = sym (ap length e) ∙ length-contents v in
    let sized₁ : length q ≡ b₁.size = sym (ap length rest) ∙ length-contents (pop-IsValid v) in
    let small : b.size ≤ 4 = v.size_in in ground arith

-- `checkAckQueue`, where the listener stores nothing between its `pop` and its `push`, answers as the
-- specification does, and leaves a valid queue that holds what the specification leaves.
pub check_ack_queue_refines :
    (b : AckQueue) (t : ℕ)
    → IsValid b
    → AllCounters (contents b)
    → ((check_ack_queue b t).0 ≡ (check (contents b) t).0)
      × Holds (check_ack_queue b t).1 (check (contents b) t).1
unfolding check
check_ack_queue_refines b t v c = go (contents b) refl c
  where
    go :
        (q : List ExpiringAck)
        → contents b ≡ q
        → AllCounters q
        → ((check_ack_queue b t).0 ≡ (check q t).0) × Holds (check_ack_queue b t).1 (check q t).1
    go [] e _ =
        rw (check_popped_empty b t (is_empty_of_nil v e)) (refl, record { valid = v; items = e })
    go (a ∷ q) e ((low, high), _) =
        let (_, item, rest) = pop_of_cons v a q e in
        let v₁ = pop-IsValid v in
        let room = room_of_pop b a q v e in
        elim (Bool-cases (a.t_stamp == t)) [
          | inl found ↦
              rw (check_popped_cons b t a item, found) (refl, record { valid = v₁; items = rest })
          | inr other ↦
              rw (check_popped_cons b t a item, other)
                (refl, rw (← rest) (put_back_lem (CircularBuffer.pop b).1 a v₁ room low high))
        ]

-- A check that finds nothing uses up one unit of the budget, so that an acknowledgement that nobody
-- waits for leaves the queue; and one that finds something leaves the others as they are.
pub budget-check :
    (q : List ExpiringAck) (t : ℕ)
    → AllCounters q
    → AllCounters (check q t).1 × ((check q t).0 ≡ false → budget (check q t).1 ≡ budget q - 1)
unfolding check budget
budget-check [] t c = (tt, λ _. refl)
budget-check (a ∷ q) t ((low, high), c) = elim (Bool-cases (a.t_stamp == t)) [
  | inl found ↦ rw found (c, λ h. let clash : true ≡ false = h in absurd (ground arith))
  | inr other ↦ elim (Bool-cases (ltb 1 a.counter)) [
    | inl more ↦
        let less : ExpiringAck = record a { counter = a.counter - 1 } in
        rw (other, more)
          (
            AllCounters-append q less c ((ground arith, omega arith)),
            λ _. budget-append q less ∙ ground arith,
          )
    | inr last ↦ rw (other, last) (c, λ _. ground arith)
  ]
]
