-- ===== src/UdpEndpoint/Network/Sends.antt =====
-- What is known of a datagram that has left: `sendDataGram` has not failed.
use simple_messenger.Prelude.{
  ◌<◌, ◌≡◌, refl, ap, arith, drop, length-append, length-drop, ◌++◌, ◌∙◌, Option-cases, none, some,
  List, length, ℕ, inl, inr,
}
use mathlib.Core.Option
use native.Mathlib.Decide.{dec_le}
use simple_messenger.Memory.{c_string, copy_into-none}
use simple_messenger.Message.{Envelope, payload_capacity}
use simple_messenger.Message.Convert.{put_fields, put_env_to_proto_buf}
use simple_messenger.Message.Convert.RoundTrip.{IsNamed, carried}
use simple_messenger.Endpoint.{Wire, put_env_to_proto_buffer_out, get_env_from_proto_buffer_in}
use simple_messenger.UdpEndpoint.Defs.{UdpEndpointBase, AddressedEnvelope, Datagram, send_datagram}
use simple_messenger.UdpEndpoint.Retransmit.{Sendable, datagram_of, send_datagram_lem}
use simple_messenger.UdpEndpoint.RoundTrip.{read_datagram}

-- `got` is what a receiver makes of `env`: the text before the first NUL, and zeroed sizes.
abbrev pub IsCopy : Envelope → Envelope → Type 0
IsCopy env got = (text : List ℕ) × (c_string env.payload ≡ some text) × (got ≡ carried env text)

pub record SameQueues (e e' : UdpEndpointBase) : Type 0 where
  pub same_in : e'.in_queue ≡ e.in_queue
  pub same_out : e'.out_queue ≡ e.out_queue
  pub same_ack : e'.ack_queue ≡ e.ack_queue

module _ (W : Wire) (e : UdpEndpointBase) (a_env : AddressedEnvelope) where
  -- Without a NUL in the payload, or with a message that is longer than the buffer, nothing is sent.
  unterminated : c_string a_env.env.payload ≡ none → send_datagram W e a_env ≡ none
  unfolding send_datagram put_env_to_proto_buffer_out put_env_to_proto_buf Option.bind
  unterminated none_found = rw none_found

  oversized :
      (text : List ℕ)
      → c_string a_env.env.payload ≡ some text
      → length e.buffer_out.payload
        < length (W.serialize (put_fields a_env.env e.proto_message_buffer_out text))
      → send_datagram W e a_env ≡ none
  unfolding send_datagram put_env_to_proto_buffer_out put_env_to_proto_buf Option.bind
  oversized text ends over =
      let bytes = W.serialize (put_fields a_env.env e.proto_message_buffer_out text) in
      rw (ends, copy_into-none e.buffer_out.payload bytes over)

  module _ (d : Datagram) (e' : UdpEndpointBase)
      (left : send_datagram W e a_env ≡ some (d, e')) where
    Sendable_of_sent : Sendable W e a_env.env
    Sendable_of_sent = elim (Option-cases (c_string a_env.env.payload)) [
      | inl none_found ↦ cc (left, unterminated none_found)
      | inr (text, ends) ↦
          let bytes = W.serialize (put_fields a_env.env e.proto_message_buffer_out text) in
          elim (dec_le (length bytes) (length e.buffer_out.payload)) [
            | yes fits ↦ record { text = text; ends = ends; fits = fits }
            | no over ↦ cc (left, oversized text ends (omega arith))
          ]
    ]

    -- What `sendDataGram` leaves.
    abbrev after : UdpEndpointBase
    after =
        let can = Sendable_of_sent in
        record e {
          proto_message_buffer_out = put_fields a_env.env e.proto_message_buffer_out can.text;
          buffer_out = (datagram_of W e a_env can).buffer;
        }

    sent_pair :
        ◌≡◌ {A = Datagram × UdpEndpointBase} (d, e') (datagram_of W e a_env Sendable_of_sent, after)
    sent_pair = cc (left, send_datagram_lem W e a_env Sendable_of_sent)

    -- The queues and the size of the buffer are as before.
    pub sent-SameQueues :
        SameQueues e e' × (length e'.buffer_out.payload ≡ length e.buffer_out.payload)
    unfolding datagram_of
    sent-SameQueues =
        let can = Sendable_of_sent in
        let bytes = W.serialize (put_fields a_env.env e.proto_message_buffer_out can.text) in
        let whole : length (bytes ++ drop (length bytes) e.buffer_out.payload)
            ≡ length e.buffer_out.payload =
          ground (
            arith,
            can.fits,
            length-append bytes (drop (length bytes) e.buffer_out.payload),
            length-drop (length bytes) e.buffer_out.payload,
          ) in
        (
          record {
            same_in = ap (λ r. (r.1).in_queue) sent_pair;
            same_out = ap (λ r. (r.1).out_queue) sent_pair;
            same_ack = ap (λ r. (r.1).ack_queue) sent_pair;
          },
          ap (λ r. length (r.1).buffer_out.payload) sent_pair ∙ whole,
        )

    -- A datagram that has left holds a copy of its message.
    pub sent-IsCopy :
        IsNamed a_env.env
        → length a_env.env.payload ≡ payload_capacity
        → (got : Envelope) × IsCopy a_env.env got
          × (get_env_from_proto_buffer_in W d.buffer ≡ some got)
    sent-IsCopy named sized =
        let can = Sendable_of_sent in
        (
          carried a_env.env can.text,
          (can.text, can.ends, refl),
          ap (λ r. get_env_from_proto_buffer_in W (r.0).buffer) sent_pair
              ∙ read_datagram W e a_env can named sized,
        )
