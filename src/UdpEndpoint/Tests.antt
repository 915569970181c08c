-- ===== src/UdpEndpoint/Tests.antt =====
-- An endpoint with a message to send, and the theorems about it.
use simple_messenger.UdpEndpoint.Interrupted.{
  check_ack_queue_interrupted, check_around, acks_run, returned_to,
}
use simple_messenger.UdpEndpoint.Store.{keep_last, IsSound, Holds, dispatch_incoming_env_lem}
use simple_messenger.CircularBuffer.Queue
use simple_messenger.UdpEndpoint.Defs.{
  check_ack_queue_around, AckCall, pushes, UdpEndpointBase, AddressedEnvelope, ExpiringAck,
  Datagram, listen_round, dispatch_incoming_env, try_receive_envelope, check_ack_queue,
  message_queue_size,
}
use simple_messenger.Prelude.{
  some, map, ◌==◌, ℕ, ◌≤◌, ◌<◌, ◌≡◌, refl, true, List, [], ◌∷◌, ◌++◌, arith, replicate,
  length-replicate, if◌then◌else◌,
}
use simple_messenger.UdpEndpoint.Expiry.{acks_expire, checks}
use simple_messenger.CircularBuffer.{CircularBuffer}
use simple_messenger.CircularBuffer.Refine.{contents}
use simple_messenger.Memory.{c_string, c_string-append}
use simple_messenger.Message.{
  Envelope, MessageType, DataType, SocketInfo, zero_envelope, get_time_stamp, get_message_type,
  set_time_stamp, set_message_type,
}
use simple_messenger.Message.Proto
use simple_messenger.Message.Convert.{put_fields, put_env_to_proto_buf, get_env_from_proto_buf}
use simple_messenger.Message.Convert.RoundTrip.{carried}
use simple_messenger.Endpoint.{
  RxTxBuffer, put_env_to_proto_buffer_out, get_env_from_proto_buffer_in, get_env-put_env_buffer,
}
use simple_messenger.UdpEndpoint.PlainWire.{wire}
use simple_messenger.UdpEndpoint.Ack.{check}
use simple_messenger.UdpEndpoint.Send.{InOrder, needed, acks_after, send_env_from_out_queue}
use simple_messenger.UdpEndpoint.Retransmit.{Sendable, datagram_of, send_env_from_out_queue_lem}
use simple_messenger.UdpEndpoint.Unacknowledged.{send_unacknowledged}
use simple_messenger.UdpEndpoint.Duplicates.{repeating_listen, duplicates_displace}
use simple_messenger.UdpEndpoint.RoundTrip.{ack_for, delivered, acknowledged_round_trip}

abbrev hi : List ℕ
hi = 104 ∷ 105 ∷ []

-- A text message from 7 to 9 at the time 5.
abbrev greeting : Envelope
greeting = record {
  meta_data = record {
    header = record {
      payload_size = 0;
      total_size = 0;
      message_type = MessageType.user_message;
      timestamp = 5;
    };
    type = DataType.text_message;
    sender_id = 7;
    recepient_id = 9;
  };
  payload = hi ++ (0 ∷ replicate 973 0);
}

abbrev alice : SocketInfo
alice = record { addr = 1 ∷ []; addrlen = 1 }

abbrev bob : SocketInfo
bob = record { addr = 2 ∷ []; addrlen = 1 }

abbrev to_bob : AddressedEnvelope
to_bob = record { sock_info = bob; env = greeting }

abbrev no_message : AddressedEnvelope
no_message = record { sock_info = bob; env = zero_envelope }

abbrev no_ack : ExpiringAck
no_ack = record { counter = 3; t_stamp = 0 }

abbrev empty_queue : CircularBuffer AddressedEnvelope message_queue_size
empty_queue = record {
  circ_buffer = no_message ∷ no_message ∷ no_message ∷ no_message ∷ [];
  begin_pos = 0;
  end_pos = 0;
  size = 0;
}

abbrev no_acks : CircularBuffer ExpiringAck message_queue_size
no_acks = record {
  circ_buffer = no_ack ∷ no_ack ∷ no_ack ∷ no_ack ∷ [];
  begin_pos = 2;
  end_pos = 2;
  size = 0;
}

-- An acknowledgement for the time 4, which is found no more after three checks.
abbrev one_ack : CircularBuffer ExpiringAck message_queue_size
one_ack = record {
  circ_buffer = record { counter = 3; t_stamp = 4 } ∷ no_ack ∷ no_ack ∷ no_ack ∷ [];
  begin_pos = 0;
  end_pos = 1;
  size = 1;
}

abbrev zero_buffer : RxTxBuffer
zero_buffer = record { message_size = 0; payload = replicate 1008 0 }

abbrev endpoint : UdpEndpointBase
endpoint = record {
  in_queue = empty_queue;
  out_queue = record {
    circ_buffer = to_bob ∷ no_message ∷ no_message ∷ no_message ∷ [];
    begin_pos = 0;
    end_pos = 1;
    size = 1;
  };
  ack_queue = no_acks;
  proto_message_buffer_out = Proto.empty_envelope;
  buffer_in = zero_buffer;
  buffer_out = zero_buffer;
}

endpoint-IsSound : IsSound endpoint
endpoint-IsSound = record {
  in_valid = omega arith;
  out_valid = omega arith;
  ack_valid = omega arith;
}

endpoint-InOrder : InOrder endpoint
endpoint-InOrder = record { sound = endpoint-IsSound; counters = tt }

can_send : Sendable wire endpoint greeting
unfolding put_fields
can_send = record {
  text = hi;
  ends = c_string-append hi (replicate 973 0) (omega arith);
  fits = rw (length-replicate {A = ℕ} 1008 0) (omega arith);
}

can_acknowledge : Sendable wire endpoint (ack_for 5)
unfolding put_fields set_time_stamp set_message_type c_string replicate
can_acknowledge = record {
  text = [];
  ends = refl;
  fits = rw (length-replicate {A = ℕ} 1008 0) (omega arith);
}

dispatch_incoming_env_lem_example :
    (e : UdpEndpointBase) × (dispatch_incoming_env endpoint to_bob ≡ some e)
    × IsSound e
    × (contents e.ack_queue ≡ [])
    × (contents e.in_queue ≡ keep_last 4 [] to_bob)
    × (e.out_queue ≡ endpoint.out_queue)
    × (e.proto_message_buffer_out ≡ endpoint.proto_message_buffer_out)
    × (e.buffer_out ≡ endpoint.buffer_out)
unfolding get_message_type
dispatch_incoming_env_lem_example = dispatch_incoming_env_lem endpoint to_bob endpoint-IsSound

-- The listener fills the queue meanwhile, and the acknowledgement for the time 4 has no room to go
-- back.
abbrev filling : List AckCall
filling = pushes 6 ∷ pushes 7 ∷ pushes 8 ∷ pushes 9 ∷ []

check_ack_queue_interrupted_example :
    let r = check_ack_queue_around filling one_ack 5 in
    let spec = check_around (record { counter = 3; t_stamp = 4 } ∷ []) filling 5 in
    (r.0 ≡ spec.0) × Holds r.1 spec.1
check_ack_queue_interrupted_example =
    check_ack_queue_interrupted one_ack filling 5 (omega arith) ((omega arith, omega arith), tt)

lost_on_return :
    (check_around (record { counter = 3; t_stamp = 4 } ∷ []) filling 5).1 ≡ acks_run [] filling
unfolding check_around returned_to acks_run Queue.push
lost_on_return = refl

-- The acknowledgement arrives in the second wait.
abbrev answered : ℕ → List AddressedEnvelope
answered k = if k == 3 then record { sock_info = bob; env = ack_for 5 } ∷ [] else []

needed-answered : needed answered 5 5 [] ≡ 2
unfolding needed acks_after keep_last check get_message_type get_time_stamp set_time_stamp
    set_message_type
needed-answered = refl

send_env_from_out_queue_lem_example :
    (e : UdpEndpointBase) × (send_env_from_out_queue wire answered endpoint
      ≡ some (
        replicate
            (needed answered 5 (get_time_stamp greeting) [])
            (datagram_of wire endpoint to_bob can_send),
        e,
      ))
    × (0 < needed answered 5 (get_time_stamp greeting) [])
    × (needed answered 5 (get_time_stamp greeting) [] ≤ 5)
    × (contents e.out_queue ≡ [])
    × InOrder e
send_env_from_out_queue_lem_example =
    send_env_from_out_queue_lem wire answered endpoint to_bob [] can_send endpoint-InOrder refl

-- Nothing arrives.
send_unacknowledged_example :
    (e : UdpEndpointBase) × (send_env_from_out_queue wire (λ _. []) endpoint
      ≡ some (replicate 5 (datagram_of wire endpoint to_bob can_send), e))
    × (contents e.out_queue ≡ [])
send_unacknowledged_example =
    send_unacknowledged wire (λ _. []) endpoint to_bob [] can_send endpoint-InOrder refl (λ _. tt)
      tt

acknowledged_round_trip_example :
    (b₁ b₂ a₂ : UdpEndpointBase) × (ack : Datagram) × (listen_round wire endpoint
        (delivered alice (datagram_of wire endpoint to_bob can_send))
      ≡ some b₁)
    × (try_receive_envelope wire b₁ ≡ some (some (carried greeting hi, ack), b₂))
    × (ack.peer ≡ alice)
    × (listen_round wire endpoint (delivered bob ack) ≡ some a₂)
    × ((check_ack_queue a₂.ack_queue (get_time_stamp greeting)).0 ≡ true)
unfolding get_message_type get_time_stamp can_send
acknowledged_round_trip_example =
    acknowledged_round_trip wire endpoint endpoint endpoint alice bob to_bob can_send
      (record { message_type = tt; data_type = tt }) (omega (arith, length-replicate {A = ℕ} 973 0))
      refl endpoint-IsSound refl endpoint-IsSound refl can_acknowledge

get_env-put_env_buffer_example :
    (out : RxTxBuffer) × (put_env_to_proto_buffer_out wire greeting Proto.empty_envelope zero_buffer
      ≡ some (put_fields greeting Proto.empty_envelope hi, out))
    × (get_env_from_proto_buffer_in wire out
        ≡ get_env_from_proto_buf (put_fields greeting Proto.empty_envelope hi))
unfolding put_fields put_env_to_proto_buf
get_env-put_env_buffer_example =
    get_env-put_env_buffer wire greeting Proto.empty_envelope
      (put_fields greeting Proto.empty_envelope hi) zero_buffer
      (rw (c_string-append hi (replicate 973 0) (omega arith)))
      (rw (length-replicate {A = ℕ} 1008 0) (omega arith))

-- The acknowledgement for the time 4, while the message of the time 5 is waited for.
acks_expire_example : contents (checks 12 one_ack 5) ≡ []
acks_expire_example =
    acks_expire one_ack 5 (omega arith) ((omega arith, omega arith), tt) (omega arith, tt)
      (omega arith, tt)

-- Bob's program does not ask for the message.
duplicates_displace_example :
    (d : Datagram) × (e r : UdpEndpointBase) × (send_env_from_out_queue wire (λ _. []) endpoint
      ≡ some (replicate 5 d, e))
    × (repeating_listen wire endpoint (map (delivered alice) (replicate 5 d)) ≡ some r)
    × (contents r.in_queue ≡ replicate 4 (record { sock_info = alice; env = carried greeting hi }))
unfolding get_message_type can_send
duplicates_displace_example =
    duplicates_displace wire (λ _. []) endpoint endpoint alice to_bob [] can_send endpoint-InOrder
      refl (λ _. tt) tt (record { message_type = tt; data_type = tt })
      (omega (arith, length-replicate {A = ℕ} 973 0)) refl endpoint-IsSound
