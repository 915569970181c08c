-- ===== src/UdpEndpoint/Unacknowledged.antt =====
-- `sendEnvFromOutQueue` when no acknowledgement of the message comes.
use simple_messenger.Prelude.{
  ℕ, zero, suc, ◌≡◌, ◌≢◌, refl, ap, ◌∙◌, true, false, some, List, [], ◌∷◌, ◌++◌, ◌-◌, arith, length,
  ◌==◌, ltb, Bool-cases, inl, inr, replicate,
}
use simple_messenger.CircularBuffer.Refine.{contents}
use simple_messenger.Message.{get_time_stamp, get_message_type}
use simple_messenger.Endpoint.{Wire}
use simple_messenger.UdpEndpoint.Defs.{UdpEndpointBase, AddressedEnvelope, ExpiringAck, is_ack}
use simple_messenger.UdpEndpoint.Store.{keep_last}
use simple_messenger.UdpEndpoint.Ack.{check}
use simple_messenger.UdpEndpoint.Send.{InOrder, needed, acks_after, send_env_from_out_queue}
use simple_messenger.UdpEndpoint.Retransmit.{Sendable, datagram_of, send_env_from_out_queue_lem}

-- No acknowledgement in the queue is for `t`.
abbrev pub AllOther : ℕ → List ExpiringAck → Type 0
AllOther t [] = Unit
AllOther t (a ∷ q) = (a.t_stamp ≢ t) × AllOther t q

-- No message is an acknowledgement for `t`.
abbrev pub Silent : ℕ → List AddressedEnvelope → Type 0
Silent t [] = Unit
Silent t (a_env ∷ l) =
    (is_ack (get_message_type (a_env.env)) ≡ true → get_time_stamp (a_env.env) ≢ t) × Silent t l

AllOther-append :
    (t : ℕ) (q : List ExpiringAck) (a : ExpiringAck)
    → AllOther t q
    → a.t_stamp ≢ t
    → AllOther t (q ++ (a ∷ []))
AllOther-append t [] a _ h = (h, tt)
AllOther-append t (x ∷ q) a (hx, c) h = (hx, AllOther-append t q a c h)

AllOther-keep_last :
    (t : ℕ) (q : List ExpiringAck) (a : ExpiringAck)
    → AllOther t q
    → a.t_stamp ≢ t
    → AllOther t (keep_last 4 q a)
unfolding keep_last
AllOther-keep_last t [] a c h = AllOther-append t [] a c h
AllOther-keep_last t (x ∷ q) a c h = elim (Bool-cases (length (x ∷ q) == 4)) [
  | inl full ↦ rw full (AllOther-append t q a (c.1) h)
  | inr room ↦ rw room (AllOther-append t (x ∷ q) a c h)
]

AllOther-acks_after :
    (t : ℕ) (q : List ExpiringAck) (l : List AddressedEnvelope)
    → AllOther t q
    → Silent t l
    → AllOther t (acks_after q l)
unfolding acks_after
AllOther-acks_after t q [] c s = c
AllOther-acks_after t q (a ∷ l) c (h, s) = elim (Bool-cases (is_ack (get_message_type (a.env)))) [
  | inl ack ↦
      let eAck : ExpiringAck = record { counter = 3; t_stamp = get_time_stamp (a.env) } in
      rw ack
        (AllOther-acks_after t (keep_last 4 q eAck) l (AllOther-keep_last t q eAck c (h ack)) s)
  | inr other ↦ rw other (AllOther-acks_after t q l c s)
]

pub AllOther-check :
    (t : ℕ) (q : List ExpiringAck)
    → AllOther t q
    → ((check q t).0 ≡ false) × AllOther t (check q t).1
unfolding check
AllOther-check t [] c = (refl, tt)
AllOther-check t (a ∷ q) (h, c) =
    let differs : (a.t_stamp == t) ≡ false = ground arith in
    elim (Bool-cases (ltb 1 a.counter)) [
      | inl more ↦
          rw (differs, more) (refl, AllOther-append t q (record a { counter = a.counter - 1 }) c h)
      | inr last ↦ rw (differs, last) (refl, c)
    ]

needed_unacknowledged :
    (arrivals : ℕ → List AddressedEnvelope) (k t : ℕ) (acks : List ExpiringAck)
    → ((i : ℕ) → Silent t (arrivals i))
    → AllOther t acks
    → needed arrivals k t acks ≡ k
unfolding needed
needed_unacknowledged arrivals zero t acks s c = refl
needed_unacknowledged arrivals (suc k) t acks s c =
    let (missed, others) =
      AllOther-check t (acks_after acks (arrivals k))
        (AllOther-acks_after t acks (arrivals k) c (s k)) in
    rw (missed, needed_unacknowledged arrivals k t _ s others)

-- A message for which no acknowledgement waits and none arrives is sent five times, as one and the
-- same datagram, and then given up: it is no longer in the outgoing queue. The endpoint is in order,
-- the text of the message ends in its payload, and its message fits the buffer.
pub send_unacknowledged :
    (W : Wire) (arrivals : ℕ → List AddressedEnvelope) (e : UdpEndpointBase)
    (a_env : AddressedEnvelope) (waiting : List AddressedEnvelope) (can : Sendable W e (a_env.env))
    → InOrder e
    → contents e.out_queue ≡ a_env ∷ waiting
    → ((i : ℕ) → Silent (get_time_stamp (a_env.env)) (arrivals i))
    → AllOther (get_time_stamp (a_env.env)) (contents e.ack_queue)
    → (e' : UdpEndpointBase) × (send_env_from_out_queue W arrivals e
        ≡ some (replicate 5 (datagram_of W e a_env can), e'))
      × (contents e'.out_queue ≡ waiting)
send_unacknowledged W arrivals e a waiting can v held silent others =
    let (e', sent, _, _, rest, _) = send_env_from_out_queue_lem W arrivals e a waiting can v held in
    let t = get_time_stamp (a.env) in
    let five = needed_unacknowledged arrivals 5 t (contents e.ack_queue) silent others in
    (e', sent ∙ ap (λ n. some (replicate n (datagram_of W e a can), e')) five, rest)
