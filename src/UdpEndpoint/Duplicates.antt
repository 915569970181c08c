-- ===== src/UdpEndpoint/Duplicates.antt =====
-- What a message that is sent again and again does at an endpoint whose program does not ask for it.
use simple_messenger.Prelude.{
  ℕ, zero, suc, ◌≤◌, ◌≡◌, refl, ap, ◌∙◌, false, Option, some, List, [], ◌∷◌, map, replicate, arith,
  length,
}
use mathlib.Core.Option
use simple_messenger.CircularBuffer.Refine.{contents, length-contents}
use simple_messenger.Message.{SocketInfo, payload_capacity, get_time_stamp, get_message_type}
use simple_messenger.Message.Convert.RoundTrip.{IsNamed, carried}
use simple_messenger.Endpoint.{Wire}
use simple_messenger.UdpEndpoint.Defs.{
  UdpEndpointBase, AddressedEnvelope, Datagram, listen_round, is_ack,
}
use simple_messenger.UdpEndpoint.Store.{IsSound, keep_last}
use simple_messenger.UdpEndpoint.Send.{InOrder, send_env_from_out_queue}
use simple_messenger.UdpEndpoint.Retransmit.{Sendable, datagram_of}
use simple_messenger.UdpEndpoint.Unacknowledged.{AllOther, Silent, send_unacknowledged}
use simple_messenger.UdpEndpoint.RoundTrip.{delivered, listen_lem}

-- `repeatingListen`, for the datagrams that come.
unfoldable pub repeating_listen : Wire → UdpEndpointBase → List Datagram → Option UdpEndpointBase
unfolding Option.bind
repeating_listen W e [] = some e
repeating_listen W e (d ∷ ds) = Option.bind (listen_round W e d) (λ e'. repeating_listen W e' ds)

-- An item that is stored `n` times.
unfoldable stored : {A : Type 0} → ℕ → List A → A → List A
stored zero q x = q
stored (suc n) q x = stored n (keep_last 4 q x) x

stored-five : {A : Type 0} (q : List A) (x : A) → length q ≤ 4 → stored 5 q x ≡ replicate 4 x
unfolding stored keep_last replicate
stored-five [] x h = refl
stored-five (a ∷ []) x h = refl
stored-five (a ∷ b ∷ []) x h = refl
stored-five (a ∷ b ∷ c ∷ []) x h = refl
stored-five (a ∷ b ∷ c ∷ d ∷ []) x h = refl
stored-five (a ∷ b ∷ c ∷ d ∷ e ∷ q) x h = absurd (omega arith)

module _ (W : Wire) where
  repeating_listen_lem :
      (n : ℕ) (e r : UdpEndpointBase) (sender : SocketInfo) (a_env : AddressedEnvelope)
      (can : Sendable W e a_env.env)
      → IsNamed (a_env.env)
      → length (a_env.env.payload) ≡ payload_capacity
      → is_ack (get_message_type (a_env.env)) ≡ false
      → IsSound r
      → let got : AddressedEnvelope = record {
        sock_info = sender;
        env = carried (a_env.env) (can.text);
      } in
        (r' : UdpEndpointBase) × (repeating_listen W r
            (map (delivered sender) (replicate n (datagram_of W e a_env can)))
          ≡ some r')
        × (contents r'.in_queue ≡ stored n (contents r.in_queue) got)
  unfolding Option.bind repeating_listen stored replicate
  repeating_listen_lem zero e r sender a can named sized message v = (r, refl, refl)
  repeating_listen_lem (suc n) e r sender a can named sized message v =
      let (r₁, heard, v₁, _, ins, _, _) = listen_lem W e r sender a can named sized v in
      let (r₂, more, held) = repeating_listen_lem n e r₁ sender a can named sized message v₁ in
      let got : AddressedEnvelope = record { sock_info = sender; env = carried a.env can.text } in
      let kept : contents r₁.in_queue ≡ keep_last 4 (contents r.in_queue) got =
        rw (ins, message) refl in
      (r₂, rw heard more, held ∙ ap (λ q. stored n q got) kept)

-- A message that is no acknowledgement, for which none waits and none arrives, is sent as one datagram
-- five times. If all of them come through, and the program at the receiver does not ask for messages
-- meanwhile, that endpoint holds the message four times and nothing else: whatever messages waited
-- there are lost. Both endpoints are in order, the enumerations of the message hold named values, its
-- payload has its full size, its text ends in the payload, and the datagram fits its buffer.
pub duplicates_displace :
    (W : Wire) (arrivals : ℕ → List AddressedEnvelope) (e r : UdpEndpointBase) (sender : SocketInfo)
    (a_env : AddressedEnvelope) (waiting : List AddressedEnvelope) (can : Sendable W e (a_env.env))
    → InOrder e
    → contents e.out_queue ≡ a_env ∷ waiting
    → ((i : ℕ) → Silent (get_time_stamp (a_env.env)) (arrivals i))
    → AllOther (get_time_stamp (a_env.env)) (contents e.ack_queue)
    → IsNamed (a_env.env)
    → length (a_env.env.payload) ≡ payload_capacity
    → is_ack (get_message_type (a_env.env)) ≡ false
    → IsSound r
    → (d : Datagram) × (e' r' : UdpEndpointBase) × (send_env_from_out_queue W arrivals e
        ≡ some (replicate 5 d, e'))
      × (repeating_listen W r (map (delivered sender) (replicate 5 d)) ≡ some r')
      × (contents r'.in_queue
          ≡ replicate 4 (record { sock_info = sender; env = carried (a_env.env) (can.text) }))
duplicates_displace W arrivals e r sender a waiting can v held silent others named sized message
      vr =
    let (e', sent, _) = send_unacknowledged W arrivals e a waiting can v held silent others in
    let (r', heard, items) = repeating_listen_lem W 5 e r sender a can named sized message vr in
    let few : length (contents r.in_queue) ≤ 4 =
      omega (arith, length-contents vr.in_valid, vr.in_valid.size_in) in
    (
      datagram_of W e a can,
      e',
      r',
      sent,
      heard,
      items
          ∙ stored-five (contents r.in_queue)
              (record { sock_info = sender; env = carried (a.env) (can.text) }) few,
    )
