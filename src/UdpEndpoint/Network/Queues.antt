-- ===== src/UdpEndpoint/Network/Queues.antt =====
-- What holds of every item of a queue, after an operation on it.
use simple_messenger.UdpEndpoint.Interrupted.{returned_to}
use simple_messenger.Prelude.{
  ◌<◌, ℕ, ◌-◌, ◌≡◌, sym, ap, ◌∙◌, subst, some, List, [], ◌∷◌, length, ltb, ◌==◌, Bool-cases, inl,
  inr, All, All-append,
}
use simple_messenger.CircularBuffer
use simple_messenger.CircularBuffer.{CircularBuffer}
use simple_messenger.CircularBuffer.Queue
use simple_messenger.CircularBuffer.Invariant.{IsValid}
use simple_messenger.CircularBuffer.Refine.{contents, push_refines, pop_refines}
use simple_messenger.UdpEndpoint.Defs.{ExpiringAck, message_queue_size}
use simple_messenger.UdpEndpoint.Store.{keep_last}
use simple_messenger.UdpEndpoint.Ack.{AllCounters}

module _ {A : Type 0} (P : A → Type 0) where
  All-Queue_push : (n : ℕ) (q : List A) (x : A) → All P q → P x → All P (Queue.push n q x).1
  unfolding Queue.push
  All-Queue_push n q x h hx = elim (Bool-cases (length q == n)) [
    | inl full ↦ rw full h
    | inr room ↦ rw room (All-append P q (x ∷ []) h (hx, tt))
  ]

  All-Queue_pop :
      (q : List A) → All P q → All P (Queue.pop q).1 × ((x : A) → (Queue.pop q).0 ≡ some x → P x)
  unfolding Queue.pop
  All-Queue_pop [] h = (tt, λ x e. cc e)
  All-Queue_pop (y ∷ q) (hy, h) = (h, λ x e. let same : y ≡ x = cc in subst P same hy)

  pub All-push :
      {n : ℕ} {b : CircularBuffer A n} (x : A)
      → IsValid b
      → All P (contents b)
      → P x
      → All P (contents (CircularBuffer.push b x).1)
  All-push {n} {b} x v h hx =
      rw (ap (λ r. r.1) (push_refines x v)) (All-Queue_push n (contents b) x h hx)

  pub All-pop :
      {n : ℕ} {b : CircularBuffer A n}
      → IsValid b
      → All P (contents b)
      → All P (contents (CircularBuffer.pop b).1)
        × ((x : A) → (CircularBuffer.pop b).0 ≡ some x → P x)
  All-pop {n} {b} v h =
      let (rest, item) = All-Queue_pop (contents b) h in
      (
        rw (ap (λ r. r.1) (pop_refines v)) rest,
        λ x e. item x (sym (ap (λ r. r.0) (pop_refines v)) ∙ e),
      )

  pub All-keep_last : (n : ℕ) (q : List A) (x : A) → All P q → P x → All P (keep_last n q x)
  unfolding keep_last
  All-keep_last n [] x h hx = elim (Bool-cases (length {A = A} [] == n)) [
    | inl full ↦ rw full (hx, tt)
    | inr room ↦ rw room (hx, tt)
  ]
  All-keep_last n (y ∷ q) x (hy, h) hx = elim (Bool-cases (length (y ∷ q) == n)) [
    | inl full ↦ rw full (All-append P q (x ∷ []) h (hx, tt))
    | inr room ↦ rw room (All-append P (y ∷ q) (x ∷ []) (hy, h) (hx, tt))
  ]

-- A property of the times in a queue of acknowledgements.
module _ (P : ℕ → Type 0) where
  abbrev pub AllTimes : List ExpiringAck → Type 0
  AllTimes = All (λ a. P a.t_stamp)

  -- An acknowledgement that is put back keeps its time.
  pub All-returned_to :
      (q : List ExpiringAck) (a : ExpiringAck)
      → AllTimes q
      → P a.t_stamp
      → AllTimes (returned_to q a)
  unfolding returned_to
  All-returned_to q a h ha = elim (Bool-cases (ltb 1 a.counter)) [
    | inl more ↦ rw more (
        All-Queue_push (λ (b : ExpiringAck). P b.t_stamp) 4 q (record a { counter = a.counter - 1 })
          h ha)
    | inr last ↦ rw last h
  ]

AllCounters-Queue_pop :
    (q : List ExpiringAck)
    → AllCounters q
    → AllCounters (Queue.pop q).1
      × ((a : ExpiringAck) → (Queue.pop q).0 ≡ some a → (0 < a.counter) × (a.counter < 256))
unfolding Queue.pop
AllCounters-Queue_pop [] c = (tt, λ a e. cc e)
AllCounters-Queue_pop (x ∷ q) (hx, c) = (
  c,
  λ a e.
      let same : x ≡ a = cc in
      subst (λ (b : ExpiringAck). (0 < b.counter) × (b.counter < 256)) same hx,
)

pub AllCounters-pop :
    (b : CircularBuffer ExpiringAck message_queue_size)
    → IsValid b
    → AllCounters (contents b)
    → AllCounters (contents (CircularBuffer.pop b).1)
      × ((a : ExpiringAck)
          → (CircularBuffer.pop b).0 ≡ some a
          → (0 < a.counter) × (a.counter < 256))
AllCounters-pop b v c =
    let (rest, item) = AllCounters-Queue_pop (contents b) c in
    (
      rw (ap (λ r. r.1) (pop_refines v)) rest,
      λ a e. item a (sym (ap (λ r. r.0) (pop_refines v)) ∙ e),
    )
