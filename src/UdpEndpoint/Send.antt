-- ===== src/UdpEndpoint/Send.antt =====
-- `sendEnvFromOutQueue`: a message is sent up to five times until its acknowledgement is found.
use simple_messenger.Prelude.{
  ℕ, zero, suc, ◌≡◌, refl, ap, ◌∙◌, Bool, true, false, Option, none, some, List, [], ◌∷◌, ◌++◌,
  arith, length, ◌==◌, if◌then◌else◌, Bool-cases, inl, inr,
}
use mathlib.Core.Option
use simple_messenger.CircularBuffer
use simple_messenger.CircularBuffer.{CircularBuffer}
use simple_messenger.CircularBuffer.Refine.{contents}
use simple_messenger.Message.{get_time_stamp, get_message_type}
use simple_messenger.Endpoint.{Wire}
use simple_messenger.UdpEndpoint.Defs.{
  UdpEndpointBase, AddressedEnvelope, ExpiringAck, Datagram, send_datagram, dispatch_incoming_env,
  check_ack_queue, is_ack,
}
use simple_messenger.UdpEndpoint.Store.{IsSound, keep_last, dispatch_incoming_env_lem}
use simple_messenger.UdpEndpoint.Ack.{AllCounters, check}

-- The rounds of `repeatingListen` that run while the sender sleeps, each with what it received.
unfoldable pub dispatch_all : UdpEndpointBase → List AddressedEnvelope → Option UdpEndpointBase
unfolding Option.bind
dispatch_all e [] = some e
dispatch_all e (a_env ∷ more) =
    Option.bind (dispatch_incoming_env e a_env) (λ e'. dispatch_all e' more)

-- An attempt waits for `100 * (attempt + 1)` milliseconds; `arrivals k` is what the listener
-- receives meanwhile, where `k` attempts are left after this one.
module _ (W : Wire) (arrivals : ℕ → List AddressedEnvelope) where
  -- After a datagram: the listener, the check, and the further attempts if the check finds nothing.
  unfoldable pub after_check :
      Datagram
      → UdpEndpointBase
      → Bool
      → Option (List Datagram × UdpEndpointBase)
      → Option (List Datagram × UdpEndpointBase)
  after_check d e true rest = some (d ∷ [], e)
  after_check d e false rest = Option.map (λ r. (d ∷ r.0, r.1)) rest

  unfoldable pub attempts :
      ℕ → UdpEndpointBase → AddressedEnvelope → Option (List Datagram × UdpEndpointBase)
  unfolding Option.bind
  attempts zero e a_env = some ([], e)
  attempts (suc k) e a_env = Option.bind (send_datagram W e a_env) (λ s.
      Option.bind (dispatch_all s.1 (arrivals k)) (λ e'.
        let (found, q) = check_ack_queue e'.ack_queue (get_time_stamp a_env.env) in
        let checked = record e' { ack_queue = q } in
        after_check s.0 checked found (attempts k checked a_env)))

  unfoldable pub send_popped :
      UdpEndpointBase → Option AddressedEnvelope → Option (List Datagram × UdpEndpointBase)
  send_popped e none = some ([], e)
  send_popped e (some a_env) = attempts 5 e a_env

  -- The datagrams that are sent, and the new state.
  unfoldable pub send_env_from_out_queue :
      UdpEndpointBase → Option (List Datagram × UdpEndpointBase)
  send_env_from_out_queue e =
      let (item, q) = CircularBuffer.pop e.out_queue in
      send_popped (record e { out_queue = q }) item

-- What the listener makes of the waiting acknowledgements.
unfoldable pub acks_after : List ExpiringAck → List AddressedEnvelope → List ExpiringAck
acks_after acks [] = acks
acks_after acks (a_env ∷ more) =
    acks_after
      (if is_ack (get_message_type a_env.env)
        then keep_last 4 acks (record { counter = 3; t_stamp = get_time_stamp a_env.env })
        else acks)
      more

-- The number of datagrams that `k` attempts need, by the acknowledgements that wait and arrive.
unfoldable pub needed : (ℕ → List AddressedEnvelope) → ℕ → ℕ → List ExpiringAck → ℕ
needed arrivals zero t acks = 0
needed arrivals (suc k) t acks =
    let (found, acks') = check (acks_after acks (arrivals k)) t in
    let more = needed arrivals k t acks' in if found then 1 else suc more

-- The endpoint is in order: three valid queues, and counters that are at least 1.
pub record InOrder (e : UdpEndpointBase) : Type 0 where
  pub sound : IsSound e
  pub counters : AllCounters (contents e.ack_queue)

AllCounters-append :
    (q : List ExpiringAck) (t : ℕ)
    → AllCounters q
    → AllCounters (q ++ (record { counter = 3; t_stamp = t } ∷ []))
AllCounters-append [] t _ = ((omega arith, omega arith), tt)
AllCounters-append (x ∷ q) t (hx, c) = (hx, AllCounters-append q t c)

AllCounters-keep_last :
    (q : List ExpiringAck) (t : ℕ)
    → AllCounters q
    → AllCounters (keep_last 4 q (record { counter = 3; t_stamp = t }))
unfolding keep_last
AllCounters-keep_last [] t c = AllCounters-append [] t c
AllCounters-keep_last (x ∷ q) t c = elim (Bool-cases (length (x ∷ q) == 4)) [
  | inl full ↦ rw full (AllCounters-append q t (c.1))
  | inr room ↦ rw room (AllCounters-append (x ∷ q) t c)
]

-- What the listener receives is always stored, and the endpoint stays in order.
pub dispatch_one_lem :
    (e : UdpEndpointBase) (a_env : AddressedEnvelope)
    → InOrder e
    → (e' : UdpEndpointBase) × (dispatch_incoming_env e a_env ≡ some e')
      × InOrder e'
      × (contents e'.ack_queue ≡ (
          if is_ack (get_message_type a_env.env)
          then keep_last 4
              (contents e.ack_queue)
              (record { counter = 3; t_stamp = get_time_stamp a_env.env })
          else contents e.ack_queue))
      × (contents e'.in_queue ≡ (
          if is_ack (get_message_type a_env.env)
          then contents e.in_queue
          else keep_last 4 (contents e.in_queue) a_env))
      × (e'.out_queue ≡ e.out_queue)
      × (e'.proto_message_buffer_out ≡ e.proto_message_buffer_out)
      × (e'.buffer_out ≡ e.buffer_out)
dispatch_one_lem e a v =
    let (e₁, done, sound, acks, ins, out, proto, bytes) = dispatch_incoming_env_lem e a (v.sound) in
    let counters : AllCounters (contents e₁.ack_queue) =
      rw acks (elim (Bool-cases (is_ack (get_message_type a.env))) [
        | inl ack ↦
            rw ack
              (AllCounters-keep_last (contents e.ack_queue) (get_time_stamp a.env) (v.counters))
        | inr other ↦ rw other (v.counters)
      ]) in
    (e₁, done, record { sound = sound; counters = counters }, acks, ins, out, proto, bytes)

-- The listener never fails, keeps the endpoint in order and leaves what is to be sent alone.
pub dispatch_all_lem :
    (e : UdpEndpointBase) (l : List AddressedEnvelope)
    → InOrder e
    → (e' : UdpEndpointBase) × (dispatch_all e l ≡ some e')
      × InOrder e'
      × (contents e'.ack_queue ≡ acks_after (contents e.ack_queue) l)
      × (e'.out_queue ≡ e.out_queue)
      × (e'.proto_message_buffer_out ≡ e.proto_message_buffer_out)
      × (e'.buffer_out ≡ e.buffer_out)
unfolding dispatch_all acks_after
dispatch_all_lem e [] v = (e, refl, v, refl, refl, refl, refl)
dispatch_all_lem e (a ∷ l) v =
    let (e₁, done, v₁, acks, _, out, proto, bytes) = dispatch_one_lem e a v in
    let (e₂, rest, order, acks₂, out₂, proto₂, bytes₂) = dispatch_all_lem e₁ l v₁ in
    (
      e₂,
      rw done rest,
      order,
      acks₂ ∙ ap (λ q. acks_after q l) acks,
      out₂ ∙ out,
      proto₂ ∙ proto,
      bytes₂ ∙ bytes,
    )
