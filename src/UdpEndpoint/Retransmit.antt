-- ===== src/UdpEndpoint/Retransmit.antt =====
-- The datagrams of a message are the same ones, as many as the acknowledgements ask for.
use simple_messenger.Prelude.{
  ℕ, zero, suc, ◌≤◌, ◌<◌, ◌≡◌, refl, sym, ap, ◌∙◌, some, List, ◌∷◌, ◌++◌, arith, length, Bool-cases,
  inl, inr, drop, drop-append, length-append, replicate,
}
use mathlib.Core.Option
use simple_messenger.CircularBuffer
use simple_messenger.CircularBuffer.Invariant.{pop-IsValid}
use simple_messenger.CircularBuffer.Refine.{contents, pop_of_cons}
use simple_messenger.Memory.{c_string, copy_into, copy_into-some}
use simple_messenger.Message.{Envelope, EnvelopeMeta, Header, MessageType, DataType, get_time_stamp}
use simple_messenger.Message.Proto
use simple_messenger.Message.Convert.{put_fields, put_env_to_proto_buf}
use simple_messenger.Endpoint.{Wire, put_env_to_proto_buffer_out}
use simple_messenger.UdpEndpoint.Defs.{
  UdpEndpointBase, AddressedEnvelope, ExpiringAck, Datagram, send_datagram, check_ack_queue,
}
use simple_messenger.UdpEndpoint.Ack.{check, check_ack_queue_refines, budget-check}
use simple_messenger.UdpEndpoint.Send.{
  InOrder, needed, attempts, after_check, send_popped, send_env_from_out_queue, dispatch_all_lem,
  acks_after,
}

-- A second conversion of an envelope into the same message changes nothing.
fields_twice :
    (h : Header) (m : EnvelopeMeta) (mt : MessageType) (dt : DataType) (p : Proto.Envelope)
    (payload text : List ℕ)
    → let meta : EnvelopeMeta = record m { header = record h { message_type = mt }; type = dt } in
      let env : Envelope = record { meta_data = meta; payload = payload } in
      put_fields env (put_fields env p text) text ≡ put_fields env p text
unfolding put_fields
fields_twice h m MessageType.user_message DataType.text_message p t text = refl
fields_twice h m MessageType.user_message DataType.file_message p t text = refl
fields_twice h m MessageType.user_message (DataType.unnamed _) p t text = refl
fields_twice h m MessageType.service_message DataType.text_message p t text = refl
fields_twice h m MessageType.service_message DataType.file_message p t text = refl
fields_twice h m MessageType.service_message (DataType.unnamed _) p t text = refl
fields_twice h m MessageType.ack_message DataType.text_message p t text = refl
fields_twice h m MessageType.ack_message DataType.file_message p t text = refl
fields_twice h m MessageType.ack_message (DataType.unnamed _) p t text = refl
fields_twice h m (MessageType.unnamed _) DataType.text_message p t text = refl
fields_twice h m (MessageType.unnamed _) DataType.file_message p t text = refl
fields_twice h m (MessageType.unnamed _) (DataType.unnamed _) p t text = refl

put_fields_twice :
    (env : Envelope) (p : Proto.Envelope) (text : List ℕ)
    → put_fields env (put_fields env p text) text ≡ put_fields env p text
put_fields_twice env p text =
    fields_twice env.meta_data.header env.meta_data env.meta_data.header.message_type
      env.meta_data.type p env.payload text

copy_twice :
    (src dst : List ℕ)
    → length src ≤ length dst
    → copy_into (src ++ drop (length src) dst) src ≡ some (src ++ drop (length src) dst)
copy_twice src dst h =
    let longer : length src ≤ length (src ++ drop (length src) dst) =
      ground (arith, length-append src (drop (length src) dst)) in
    copy_into-some (src ++ drop (length src) dst) src longer
    ∙ ap (λ l. some (src ++ l)) (drop-append src (drop (length src) dst))

-- The text of the envelope ends in the payload, and its message fits the buffer.
pub record Sendable (W : Wire) (e : UdpEndpointBase) (env : Envelope) : Type 0 where
  pub text : List ℕ
  pub ends : c_string env.payload ≡ some text
  pub fits :
      length (W.serialize (put_fields env e.proto_message_buffer_out text))
      ≤ length e.buffer_out.payload

module _ (W : Wire) where
  -- The datagram of a message.
  unfoldable pub datagram_of :
      (e : UdpEndpointBase) (a_env : AddressedEnvelope) → Sendable W e a_env.env → Datagram
  datagram_of e a_env can =
      let bytes = W.serialize (put_fields a_env.env e.proto_message_buffer_out can.text) in
      record {
        peer = a_env.sock_info;
        buffer = record {
          message_size = length bytes;
          payload = bytes ++ drop (length bytes) e.buffer_out.payload;
        };
      }

  pub send_datagram_lem :
      (e : UdpEndpointBase) (a_env : AddressedEnvelope) (can : Sendable W e a_env.env)
      → send_datagram W e a_env
        ≡ some (
          datagram_of e a_env can,
          record e {
            proto_message_buffer_out = put_fields a_env.env e.proto_message_buffer_out can.text;
            buffer_out = (datagram_of e a_env can).buffer;
          },
        )
  unfolding send_datagram datagram_of put_env_to_proto_buffer_out put_env_to_proto_buf
  send_datagram_lem e a_env can =
      let bytes = W.serialize (put_fields a_env.env e.proto_message_buffer_out can.text) in
      rw (can.ends, copy_into-some e.buffer_out.payload bytes (can.fits))

  -- Once sent, a message is sent again as the same datagram.
  same_datagram :
      (e e₃ : UdpEndpointBase) (a_env : AddressedEnvelope) (can : Sendable W e a_env.env)
      → e₃.proto_message_buffer_out ≡ put_fields a_env.env e.proto_message_buffer_out can.text
      → e₃.buffer_out ≡ (datagram_of e a_env can).buffer
      → (can₃ : Sendable W e₃ a_env.env) × (datagram_of e₃ a_env can₃ ≡ datagram_of e a_env can)
  unfolding datagram_of
  same_datagram e e₃ a can proto buf =
      let p = e.proto_message_buffer_out in
      let bytes = W.serialize (put_fields a.env p can.text) in
      let old = e.buffer_out.payload in
      let again : put_fields a.env e₃.proto_message_buffer_out can.text
          ≡ put_fields a.env p can.text =
        ap (λ m. put_fields a.env m can.text) proto ∙ put_fields_twice a.env p can.text in
      let longer : length bytes ≤ length (bytes ++ drop (length bytes) old) =
        ground (arith, length-append bytes (drop (length bytes) old)) in
      (
        record { text = can.text; ends = can.ends; fits = rw (again, buf) longer },
        rw (again, buf, drop-append bytes (drop (length bytes) old)),
      )

  attempts_lem :
      (arrivals : ℕ → List AddressedEnvelope) (k : ℕ) (e : UdpEndpointBase)
      (a_env : AddressedEnvelope) (can : Sendable W e a_env.env)
      → InOrder e
      → (e' : UdpEndpointBase) × (attempts W arrivals k e a_env
          ≡ some (
            replicate
                (needed arrivals k (get_time_stamp a_env.env) (contents e.ack_queue))
                (datagram_of e a_env can),
            e',
          ))
        × InOrder e'
        × (e'.out_queue ≡ e.out_queue)
  unfolding Option.bind attempts after_check needed replicate
  attempts_lem arrivals zero e a can v = (e, refl, v, refl)
  attempts_lem arrivals (suc k) e a can v =
      let t = get_time_stamp a.env in
      let e₁ : UdpEndpointBase = record e {
        proto_message_buffer_out = put_fields a.env e.proto_message_buffer_out can.text;
        buffer_out = (datagram_of e a can).buffer;
      } in
      let v₁ : InOrder e₁ = record {
        sound = record {
          in_valid = v.sound.in_valid;
          out_valid = v.sound.out_valid;
          ack_valid = v.sound.ack_valid;
        };
        counters = v.counters;
      } in
      let (e₂, heard, v₂, acks, out, proto, buf) = dispatch_all_lem e₁ (arrivals k) v₁ in
      let e₃ : UdpEndpointBase = record e₂ { ack_queue = (check_ack_queue e₂.ack_queue t).1 } in
      let (answer, held) = check_ack_queue_refines e₂.ack_queue t v₂.sound.ack_valid v₂.counters in
      let v₃ : InOrder e₃ = record {
        sound = record {
          in_valid = v₂.sound.in_valid;
          out_valid = v₂.sound.out_valid;
          ack_valid = held.valid;
        };
        counters = rw (held.items) (budget-check (contents e₂.ack_queue) t v₂.counters).0;
      } in
      let (can₃, same) = same_datagram e e₃ a can proto buf in
      let (e₄, rest, v₄, out₄) = attempts_lem arrivals k e₃ a can₃ v₃ in
      let spec : ((check (acks_after (contents e.ack_queue) (arrivals k)) t).0
          ≡ (check_ack_queue e₂.ack_queue t).0) =
        ap (λ q. (check q t).0) (sym acks) ∙ sym answer in
      let kept : contents e₃.ack_queue
          ≡ (check (acks_after (contents e.ack_queue) (arrivals k)) t).1 =
        held.items ∙ ap (λ q. (check q t).1) acks in
      elim (Bool-cases (check_ack_queue e₂.ack_queue t).0) [
        | inl found ↦ (e₃, rw (send_datagram_lem e a can, heard, spec, found), v₃, out)
        | inr missed ↦ (
          e₄,
          rw (send_datagram_lem e a can, heard, spec, missed, ← kept, rest, same),
          v₄,
          out₄ ∙ out,
        )
      ]

-- `needed` is at least 1 and at most the number of attempts.
needed_bounds :
    (arrivals : ℕ → List AddressedEnvelope) (k t : ℕ) (acks : List ExpiringAck)
    → (needed arrivals k t acks ≤ k) × (0 < k → 0 < needed arrivals k t acks)
unfolding needed
needed_bounds arrivals zero t acks = (omega arith, λ h. h)
needed_bounds arrivals (suc k) t acks =
    let rest = check (acks_after acks (arrivals k)) t in
    elim (Bool-cases rest.0) [
      | inl found ↦ rw found (omega arith, λ _. omega arith)
      | inr missed ↦
          rw missed (omega (arith, (needed_bounds arrivals k t rest.1).0), λ _. omega arith)
    ]

-- `sendEnvFromOutQueue` takes the oldest message of the outgoing queue, and sends one and the same
-- datagram as often as `needed` says for the acknowledgements that wait at the start and those that
-- arrive while the sender sleeps, which is at least once and at most five times. The messages behind
-- it stay in the queue in their order, and the endpoint stays in order. The endpoint is in order at
-- the start, the text of the message ends in its payload, and its message fits the buffer.
pub send_env_from_out_queue_lem :
    (W : Wire) (arrivals : ℕ → List AddressedEnvelope) (e : UdpEndpointBase)
    (a_env : AddressedEnvelope) (waiting : List AddressedEnvelope) (can : Sendable W e a_env.env)
    → InOrder e
    → contents e.out_queue ≡ a_env ∷ waiting
    → let n = needed arrivals 5 (get_time_stamp a_env.env) (contents e.ack_queue) in
      (e' : UdpEndpointBase) × (send_env_from_out_queue W arrivals e
        ≡ some (replicate n (datagram_of W e a_env can), e'))
      × (0 < n)
      × (n ≤ 5)
      × (contents e'.out_queue ≡ waiting)
      × InOrder e'
unfolding send_env_from_out_queue send_popped datagram_of
send_env_from_out_queue_lem W arrivals e a waiting can v held =
    let (_, item, rest) = pop_of_cons v.sound.out_valid a waiting held in
    let e₁ : UdpEndpointBase = record e { out_queue = (CircularBuffer.pop e.out_queue).1 } in
    let can₁ : Sendable W e₁ a.env = record { text = can.text; ends = can.ends; fits = can.fits } in
    let v₁ : InOrder e₁ = record {
      sound = record {
        in_valid = v.sound.in_valid;
        out_valid = pop-IsValid v.sound.out_valid;
        ack_valid = v.sound.ack_valid;
      };
      counters = v.counters;
    } in
    let (e', sent, v', out) = attempts_lem W arrivals 5 e₁ a can₁ v₁ in
    let bounds = needed_bounds arrivals 5 (get_time_stamp a.env) (contents e.ack_queue) in
    (e', rw item sent, bounds.1 (omega arith), bounds.0, ap (λ q. contents q) out ∙ rest, v')
