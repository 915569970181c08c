-- ===== src/UdpEndpoint/RoundTrip.antt =====
-- A message goes from one endpoint to another, and its acknowledgement comes back.
use simple_messenger.UdpEndpoint.Retransmit.{send_datagram_lem, Sendable, datagram_of}
use simple_messenger.CircularBuffer
use simple_messenger.CircularBuffer.Refine.{pop_of_cons, contents}
use simple_messenger.UdpEndpoint.Defs.{
  check_ack_queue, receive_popped, try_receive_envelope, UdpEndpointBase, AddressedEnvelope,
  Datagram, recv_datagram, listen_round, is_ack,
}
use simple_messenger.Prelude.{
  ℕ, ◌≡◌, refl, sym, ap, ◌∙◌, true, false, some, [], ◌∷◌, ◌==◌, arith, length, drop,
  length-replicate, if◌then◌else◌,
}
use mathlib.Core.Option
use simple_messenger.Memory.{read_from-append}
use simple_messenger.Message.{
  Envelope, MessageType, SocketInfo, zero_envelope, payload_capacity, get_time_stamp,
  get_message_type, set_time_stamp, set_message_type,
}
use simple_messenger.Message.Convert.{put_fields, put_env_to_proto_buf, get_env_from_proto_buf}
use simple_messenger.Message.Convert.RoundTrip.{IsNamed, carried, get_env-put_env}
use simple_messenger.Endpoint.{Wire, get_env_from_proto_buffer_in}
use simple_messenger.UdpEndpoint.Store.{IsSound, keep_last, dispatch_incoming_env_lem}
use simple_messenger.UdpEndpoint.Ack.{AllCounters, check, check_ack_queue_refines}

-- The network gives the receiver the sender's address in place of its own.
abbrev pub delivered : SocketInfo → Datagram → Datagram
delivered sender d = record { peer = sender; buffer = d.buffer }

abbrev pub ack_for : ℕ → Envelope
ack_for t = set_time_stamp (set_message_type zero_envelope MessageType.ack_message) t

module _ (W : Wire) where
  -- What the buffer of a datagram holds for its receiver.
  pub read_datagram :
      (e : UdpEndpointBase) (a_env : AddressedEnvelope) (can : Sendable W e a_env.env)
      → IsNamed (a_env.env)
      → length (a_env.env.payload) ≡ payload_capacity
      → get_env_from_proto_buffer_in W (datagram_of W e a_env can).buffer
        ≡ some (carried (a_env.env) (can.text))
  unfolding Option.bind datagram_of get_env_from_proto_buffer_in put_env_to_proto_buf
  read_datagram e a can named sized =
      let p = e.proto_message_buffer_out in
      let q = put_fields (a.env) p (can.text) in
      let bytes = W.serialize q in
      let (_, put, get) = get_env-put_env (a.env) p (can.text) named sized (can.ends) in
      let through : Option.bind (put_env_to_proto_buf (a.env) p) get_env_from_proto_buf
          ≡ some (carried (a.env) (can.text)) =
        rw (put, get) in
      let direct : Option.bind (put_env_to_proto_buf (a.env) p) get_env_from_proto_buf
          ≡ get_env_from_proto_buf q =
        rw (can.ends) in
      rw (read_from-append bytes (drop (length bytes) e.buffer_out.payload), W.parse-serialize q)
        (sym direct ∙ through)

  -- A round of the listener with a datagram of a peer.
  pub listen_lem :
      (e r : UdpEndpointBase) (sender : SocketInfo) (a_env : AddressedEnvelope)
      (can : Sendable W e a_env.env)
      → IsNamed (a_env.env)
      → length (a_env.env.payload) ≡ payload_capacity
      → IsSound r
      → let got : AddressedEnvelope = record {
        sock_info = sender;
        env = carried (a_env.env) (can.text);
      } in
        (r' : UdpEndpointBase) × (listen_round W r (delivered sender (datagram_of W e a_env can))
          ≡ some r')
        × IsSound r'
        × (contents r'.ack_queue ≡ (
            if is_ack (get_message_type (a_env.env))
            then keep_last 4
                (contents r.ack_queue)
                (record { counter = 3; t_stamp = get_time_stamp (a_env.env) })
            else contents r.ack_queue))
        × (contents r'.in_queue ≡ (
            if is_ack (get_message_type (a_env.env))
            then contents r.in_queue
            else keep_last 4 (contents r.in_queue) got))
        × (r'.proto_message_buffer_out ≡ r.proto_message_buffer_out)
        × (r'.buffer_out ≡ r.buffer_out)
  unfolding Option.bind listen_round recv_datagram get_message_type get_time_stamp
  listen_lem e r sender a can named sized v =
      let d = datagram_of W e a can in
      let got : AddressedEnvelope = record { sock_info = sender; env = carried a.env can.text } in
      let r₁ : UdpEndpointBase = record r { buffer_in = d.buffer } in
      let v₁ : IsSound r₁ = record {
        in_valid = v.in_valid;
        out_valid = v.out_valid;
        ack_valid = v.ack_valid;
      } in
      let (r₂, done, v₂, acks, ins, _, proto, bytes) = dispatch_incoming_env_lem r₁ got v₁ in
      (r₂, rw (read_datagram e a can named sized) done, v₂, acks, ins, proto, bytes)

  -- A program that asks for a message when exactly one waits.
  receive_lem :
      (r : UdpEndpointBase) (got : AddressedEnvelope)
      (can : Sendable W r (ack_for (get_time_stamp (got.env))))
      → IsSound r
      → contents r.in_queue ≡ got ∷ []
      → (r' : UdpEndpointBase) × (can' : Sendable W r' (ack_for (get_time_stamp (got.env))))
        × (r'' : UdpEndpointBase) × (try_receive_envelope W r
            ≡ some (
              some (
                got.env,
                datagram_of W r'
                    (record { sock_info = got.sock_info; env = ack_for (get_time_stamp (got.env)) })
                    can',
              ),
              r'',
            ))
  unfolding try_receive_envelope receive_popped
  receive_lem r got can v one =
      let (_, item, _) = pop_of_cons v.in_valid got [] one in
      let r' : UdpEndpointBase = record r { in_queue = (CircularBuffer.pop r.in_queue).1 } in
      let can' : Sendable W r' (ack_for (get_time_stamp (got.env))) = record {
        text = can.text;
        ends = can.ends;
        fits = can.fits;
      } in
      let ack : AddressedEnvelope = record {
        sock_info = got.sock_info;
        env = ack_for (get_time_stamp (got.env));
      } in
      let r'' : UdpEndpointBase = record r' {
        proto_message_buffer_out =
            put_fields (ack_for (get_time_stamp (got.env))) r'.proto_message_buffer_out can'.text;
        buffer_out = (datagram_of W r' ack can').buffer;
      } in
      (r', can', r'', rw (item, send_datagram_lem W r' ack can'))

found_alone : (t : ℕ) → (check (record { counter = 3; t_stamp = t } ∷ []) t).0 ≡ true
unfolding check
found_alone t = let same : (t == t) ≡ true = ground arith in rw same

-- The endpoint at `from` sends the datagram of a message that is no acknowledgement. The endpoint at
-- `to`, whose queue of messages is empty, hears it, and the program there is handed the message with
-- the text, the type and the timestamp that were sent. The datagram that this sends goes to `from`,
-- and once the sender hears it with no acknowledgement waiting, its check for the message's timestamp
-- succeeds. The enumerations of the message hold named values, its payload has its full size, its
-- text ends in the payload, and both datagrams fit their buffers; the queues of both are valid.
pub acknowledged_round_trip :
    (W : Wire) (a a₁ b : UdpEndpointBase) (from to : SocketInfo) (a_env : AddressedEnvelope)
    (can : Sendable W a a_env.env)
    → IsNamed (a_env.env)
    → length (a_env.env.payload) ≡ payload_capacity
    → is_ack (get_message_type (a_env.env)) ≡ false
    → IsSound a₁
    → contents a₁.ack_queue ≡ []
    → IsSound b
    → contents b.in_queue ≡ []
    → Sendable W b (ack_for (get_time_stamp (a_env.env)))
    → (b₁ b₂ a₂ : UdpEndpointBase) × (ack : Datagram) × (listen_round W b
          (delivered from (datagram_of W a a_env can))
        ≡ some b₁)
      × (try_receive_envelope W b₁ ≡ some (some (carried (a_env.env) (can.text), ack), b₂))
      × (ack.peer ≡ from)
      × (listen_round W a₁ (delivered to ack) ≡ some a₂)
      × ((check_ack_queue a₂.ack_queue (get_time_stamp (a_env.env))).0 ≡ true)
unfolding get_message_type set_message_type get_time_stamp set_time_stamp keep_last datagram_of
acknowledged_round_trip W a a₁ b from to a_env can named sized message va ackless vb idle can_ack =
    let t = get_time_stamp (a_env.env) in
    let (b₁, heard, vb₁, _, ins, proto, bytes) = listen_lem W a b from a_env can named sized vb in
    let got : AddressedEnvelope = record {
      sock_info = from;
      env = carried (a_env.env) (can.text);
    } in
    let one : contents b₁.in_queue ≡ got ∷ [] = rw (ins, message, idle) in
    let can₁ : Sendable W b₁ (ack_for t) = record {
      text = can_ack.text;
      ends = can_ack.ends;
      fits = rw (proto, bytes) can_ack.fits;
    } in
    let (b', can', b₂, received) = receive_lem W b₁ got can₁ vb₁ one in
    let ack_env : AddressedEnvelope = record { sock_info = from; env = ack_for t } in
    let (a₂, back, va₂, acks, _, _, _) =
      listen_lem W b' a₁ to ack_env can' (record { message_type = tt; data_type = tt })
        (length-replicate {A = ℕ} payload_capacity 0) va in
    let alone : contents a₂.ack_queue ≡ record { counter = 3; t_stamp = t } ∷ [] =
      rw (acks, ackless) in
    let counters : AllCounters (contents a₂.ack_queue) =
      rw alone ((omega arith, omega arith), tt) in
    (
      b₁,
      b₂,
      a₂,
      datagram_of W b' ack_env can',
      heard,
      received,
      refl,
      back,
      (check_ack_queue_refines a₂.ack_queue t va₂.ack_valid counters).0
          ∙ ap (λ q. (check q t).0) alone
          ∙ found_alone t,
    )
