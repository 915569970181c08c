-- ===== src/UdpEndpoint/Network/Takes.antt =====
-- What is known of a call of `tryReceiveEnvelope` that did not fail.
use simple_messenger.Prelude.{◌≡◌, refl, Option, none, some, inl, inr, Option-cases}
use simple_messenger.CircularBuffer
use simple_messenger.Message.{Envelope, get_time_stamp}
use simple_messenger.Endpoint.{Wire}
use simple_messenger.UdpEndpoint.Defs.{
  UdpEndpointBase, AddressedEnvelope, Datagram, send_datagram, try_receive_envelope, receive_popped,
}
use simple_messenger.UdpEndpoint.RoundTrip.{ack_for}

-- What `tryReceiveEnvelope` has done when it has handed over a message.
pub record Handed (W : Wire) (e : UdpEndpointBase) (env : Envelope) (ack : Datagram)
    (e' : UdpEndpointBase) : Type 0 where
  pub item : AddressedEnvelope
  pub popped : (CircularBuffer.pop e.in_queue).0 ≡ some item
  pub handed : item.env ≡ env
  pub left :
      send_datagram W
        (record e { in_queue = (CircularBuffer.pop e.in_queue).1 })
        (record { sock_info = item.sock_info; env = ack_for (get_time_stamp item.env) })
      ≡ some (ack, e')

module _ (W : Wire) (e : UdpEndpointBase) where
  abbrev pub rest : UdpEndpointBase
  rest = record e { in_queue = (CircularBuffer.pop e.in_queue).1 }

  receive_of_pop :
      (item : Option AddressedEnvelope)
      → (CircularBuffer.pop e.in_queue).0 ≡ item
      → try_receive_envelope W e ≡ receive_popped W rest item
  unfolding try_receive_envelope
  receive_of_pop item h = rw h

  receive_failed :
      (item : AddressedEnvelope)
      → send_datagram W rest
          (record { sock_info = item.sock_info; env = ack_for (get_time_stamp item.env) })
        ≡ none
      → receive_popped W rest (some item) ≡ none
  unfolding receive_popped
  receive_failed item h = rw h

  receive_acknowledged :
      (item : AddressedEnvelope) (ack : Datagram) (e' : UdpEndpointBase)
      → send_datagram W rest
          (record { sock_info = item.sock_info; env = ack_for (get_time_stamp item.env) })
        ≡ some (ack, e')
      → receive_popped W rest (some item) ≡ some (some (item.env, ack), e')
  unfolding receive_popped
  receive_acknowledged item ack e' h = rw h

  receive_nothing : receive_popped W rest none ≡ some (none, rest)
  unfolding receive_popped
  receive_nothing = refl

  pub handed_lem :
      (env : Envelope) (ack : Datagram) (e' : UdpEndpointBase)
      → try_receive_envelope W e ≡ some (some (env, ack), e')
      → Handed W e env ack e'
  handed_lem env ack e' took = elim (Option-cases (CircularBuffer.pop e.in_queue).0) [
    | inl empty ↦ cc (took, receive_of_pop none empty, receive_nothing)
    | inr (item, found) ↦
        elim (Option-cases (
          send_datagram W rest
            (record { sock_info = item.sock_info; env = ack_for (get_time_stamp item.env) }))) [
              | inl failed ↦ cc (took, receive_of_pop (some item) found, receive_failed item failed)
              | inr ((d, e₁), sent) ↦
                  let same : ◌≡◌ {A = Option (Option (Envelope × Datagram) × UdpEndpointBase)}
                      (some (some (item.env, d), e₁)) (some (some (env, ack), e')) =
                    cc (
                      took,
                      receive_of_pop (some item) found,
                      receive_acknowledged item d e₁ sent,
                    ) in
                  record { item = item; popped = found; handed = cc same; left = cc (sent, same) }
            ]
  ]

  pub nothing_lem : (e' : UdpEndpointBase) → try_receive_envelope W e ≡ some (none, e') → e' ≡ rest
  nothing_lem e' took = elim (Option-cases (CircularBuffer.pop e.in_queue).0) [
    | inl empty ↦ cc (took, receive_of_pop none empty, receive_nothing)
    | inr (item, found) ↦
        elim (Option-cases (
          send_datagram W rest
            (record { sock_info = item.sock_info; env = ack_for (get_time_stamp item.env) }))) [
              | inl failed ↦ cc (took, receive_of_pop (some item) found, receive_failed item failed)
              | inr ((d, e₁), sent) ↦
                  cc (took, receive_of_pop (some item) found, receive_acknowledged item d e₁ sent)
            ]
  ]
