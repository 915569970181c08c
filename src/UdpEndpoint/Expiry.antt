-- ===== src/UdpEndpoint/Expiry.antt =====
-- Acknowledgements for which nobody waits leave the queue of
-- common/endpoint/UdpEndpointBase.cpp.
use simple_messenger.Prelude.{ℕ, zero, suc, ◌*◌, ◌≤◌, ◌≡◌, refl, ap, List, [], ◌∷◌, arith, length}
use simple_messenger.CircularBuffer.{CircularBuffer}
use simple_messenger.CircularBuffer.Invariant.{IsValid}
use simple_messenger.CircularBuffer.Refine.{contents, length-contents}
use simple_messenger.UdpEndpoint.Defs.{ExpiringAck, message_queue_size, check_ack_queue}
use simple_messenger.UdpEndpoint.Ack.{AllCounters, budget, check_ack_queue_refines, budget-check}
use simple_messenger.UdpEndpoint.Unacknowledged.{AllOther, AllOther-check}

-- The queue after `n` checks for the timestamp `t`.
unfoldable pub checks :
    ℕ
    → CircularBuffer ExpiringAck message_queue_size
    → ℕ
    → CircularBuffer ExpiringAck message_queue_size
checks zero b t = b
checks (suc n) b t = checks n (check_ack_queue b t).1 t

-- Counters as the listener stores them, or lowered.
abbrev pub AllFresh : List ExpiringAck → Type 0
AllFresh [] = Unit
AllFresh (a ∷ q) = (a.counter ≤ 3) × AllFresh q

budget-le : (q : List ExpiringAck) → AllFresh q → budget q ≤ 3 * length q
unfolding budget
budget-le [] f = omega arith
budget-le (a ∷ q) f = omega (arith, budget-le q f.1)

nothing_left : (q : List ExpiringAck) → AllCounters q → budget q ≤ 0 → q ≡ []
unfolding budget
nothing_left [] c h = refl
nothing_left (a ∷ q) c h = absurd (omega arith)

checks_lem :
    (n : ℕ) (b : CircularBuffer ExpiringAck message_queue_size) (t : ℕ)
    → IsValid b
    → AllCounters (contents b)
    → AllOther t (contents b)
    → budget (contents b) ≤ n
    → contents (checks n b t) ≡ []
unfolding checks
checks_lem zero b t v c o h = nothing_left (contents b) c h
checks_lem (suc n) b t v c o h =
    let (_, held) = check_ack_queue_refines b t v c in
    let (counters, lowered) = budget-check (contents b) t c in
    let (missed, others) = AllOther-check t (contents b) o in
    let less = lowered missed in
    checks_lem n (check_ack_queue b t).1 t (held.valid) (rw (held.items) counters)
      (rw (held.items) others) (omega (arith, ap budget (held.items)))

-- Four acknowledgements at most with counters from 1 to 3, none of them for the timestamp `t`: after
-- twelve checks for it none is left, so that no acknowledgement blocks the queue for ever.
pub acks_expire :
    (b : CircularBuffer ExpiringAck message_queue_size) (t : ℕ)
    → IsValid b
    → AllCounters (contents b)
    → AllFresh (contents b)
    → AllOther t (contents b)
    → contents (checks 12 b t) ≡ []
acks_expire b t v c f o =
    let few : b.size ≤ message_queue_size = v.size_in in
    checks_lem 12 b t v c o (omega (arith, budget-le (contents b) f, length-contents v))
