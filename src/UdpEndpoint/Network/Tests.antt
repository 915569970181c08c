-- ===== src/UdpEndpoint/Network/Tests.antt =====
-- A run of two endpoints: a message, lost once, and its acknowledgement.
use simple_messenger.Prelude.{
  ℕ, refl, Option, none, some, [], ◌∷◌, arith, replicate, length-replicate, inl, inr, All,
}
use mathlib.Core.Option
use simple_messenger.CircularBuffer
use simple_messenger.CircularBuffer.{CircularBuffer}
use simple_messenger.Memory.{c_string, copy_into, read_from}
use simple_messenger.Message.{
  Envelope, zero_envelope, get_time_stamp, get_message_type, set_time_stamp, set_message_type,
  create_time_stamp, get_sender_id, get_recepient_id, set_sender_id, set_recepient_id,
}
use simple_messenger.Message.Convert.{
  put_fields, put_env_to_proto_buf, get_env_from_proto_buf, read_payload, read_fields,
  put_message_type, put_data_type, read_message_type, read_data_type,
}
use simple_messenger.Endpoint.{put_env_to_proto_buffer_out, get_env_from_proto_buffer_in}
use simple_messenger.UdpEndpoint.PlainWire.{wire}
use simple_messenger.UdpEndpoint.Samples.{greeting, here, endpoint, zero_buffer}
use simple_messenger.UdpEndpoint.Defs.{
  UdpEndpointBase, AddressedEnvelope, Datagram, send_envelope, send_datagram, listen_round,
  recv_datagram, dispatch_incoming_env, store_env_to_in_queue, store_tstamp_to_ack_queue, store_in,
  try_receive_envelope, receive_popped, ExpiringAck,
}
use simple_messenger.UdpEndpoint.RoundTrip.{delivered}
use simple_messenger.UdpEndpoint.Network.{
  posts, picks, transmits, finds, finds_no_ack, hears, takes, World, Course, NoOverlap, rests,
  left_move, right_move, alone, stamped, idle, IsProper,
}
use simple_messenger.UdpEndpoint.Network.Invariant.{CopyOf}
use simple_messenger.UdpEndpoint.Network.Delivery.{
  IsIdle, start, DistinctTimes, AllTaken, taken_genuine, confirmed_delivered,
}

abbrev or : {A : Type 0} → Option A → A → A
or none x = x
or (some y) x = y

abbrev no_datagram : Datagram
no_datagram = record { peer = here; buffer = zero_buffer }

abbrev message : AddressedEnvelope
message = record { sock_info = here; env = stamped 5 greeting }

abbrev posted_left : UdpEndpointBase
posted_left = send_envelope endpoint 5 greeting here

abbrev picked_left : UdpEndpointBase
picked_left = record posted_left { out_queue = (CircularBuffer.pop posted_left.out_queue).1 }

-- The first datagram is lost, and the message is sent again.
abbrev first : Datagram × UdpEndpointBase
first = or (send_datagram wire picked_left message) (no_datagram, endpoint)

abbrev missed_left : UdpEndpointBase
missed_left = record (first.1) { ack_queue = (CircularBuffer.pop (first.1).ack_queue).1 }

abbrev second : Datagram × UdpEndpointBase
second = or (send_datagram wire missed_left message) (no_datagram, endpoint)

abbrev heard_right : UdpEndpointBase
heard_right = or (listen_round wire endpoint (delivered here second.0)) endpoint

abbrev answer : Option (Envelope × Datagram) × UdpEndpointBase
answer = or (try_receive_envelope wire heard_right) (none, endpoint)

abbrev taken : Envelope × Datagram
taken = or (answer.0) (zero_envelope, no_datagram)

abbrev heard_left : UdpEndpointBase
heard_left = or (listen_round wire (second.1) (delivered here taken.1)) endpoint

abbrev the_ack : ExpiringAck
the_ack = record { counter = 3; t_stamp = 5 }

abbrev final : World
final = record {
  left = record {
    endpoint = record heard_left { ack_queue = (CircularBuffer.pop heard_left.ack_queue).1 };
    sender = idle;
    sent = first.0 ∷ second.0 ∷ [];
    posted = message.env ∷ [];
    taken = [];
    confirmed = message.env ∷ [];
  };
  right = record {
    endpoint = answer.1;
    sender = idle;
    sent = taken.1 ∷ [];
    posted = [];
    taken = taken.0 ∷ [];
    confirmed = [];
  };
}

greeting-IsProper : IsProper greeting
unfolding get_message_type
greeting-IsProper = record {
  named = record { message_type = tt; data_type = tt };
  sized = omega (arith, length-replicate {A = ℕ} 973 0);
  message = refl;
}

endpoint-IsIdle : IsIdle endpoint
endpoint-IsIdle = record {
  order = record {
    sound = record { in_valid = omega arith; out_valid = omega arith; ack_valid = omega arith };
    counters = tt;
  };
  no_out = refl;
  no_in = refl;
  no_ack = refl;
}

run : Course wire (start endpoint endpoint) final
unfolding send_datagram put_env_to_proto_buffer_out put_env_to_proto_buf Option.bind c_string
    copy_into read_from replicate send_envelope put_fields stamped set_time_stamp create_time_stamp
    get_time_stamp get_message_type set_message_type put_message_type put_data_type get_sender_id
    get_recepient_id read_message_type read_data_type read_payload read_fields
    get_env_from_proto_buf get_env_from_proto_buffer_in set_sender_id set_recepient_id listen_round
    recv_datagram dispatch_incoming_env store_env_to_in_queue store_tstamp_to_ack_queue store_in
    try_receive_envelope receive_popped CircularBuffer.push CircularBuffer.pop
    CircularBuffer.is_full CircularBuffer.is_empty
run = left_move (alone (posts 5 greeting here greeting-IsProper)) (
    left_move (alone (picks message refl refl)) (
      left_move (alone (transmits message 4 (first.0) (first.1) refl refl)) (
        left_move (alone (finds_no_ack message 4 refl refl)) (
          left_move (alone (transmits message 3 (second.0) (second.1) refl refl)) (
            right_move (alone (hears here (second.0) heard_right (inr (inl refl)) refl)) (
              right_move (alone (takes (taken.0) (taken.1) (answer.1) refl)) (
                left_move (alone (hears here (taken.1) heard_left (inl refl) refl))
                  (left_move (alone (finds message 3 the_ack refl refl refl)) rests))))))))

run-NoOverlap : NoOverlap run
unfolding run
run-NoOverlap = tt

only_message : DistinctTimes (message.env ∷ [])
only_message m m' (inl e) (inl e') _ = cc (e, e')
only_message m m' (inl e) (inr i) _ = absurd i
only_message m m' (inr i) _ _ = absurd i

taken_genuine_example : All (CopyOf (message.env ∷ [])) (taken.0 ∷ []) × All (CopyOf []) []
taken_genuine_example =
    taken_genuine wire endpoint endpoint final endpoint-IsIdle endpoint-IsIdle run run-NoOverlap

confirmed_delivered_example : AllTaken (message.env ∷ []) (taken.0 ∷ []) × AllTaken [] []
confirmed_delivered_example =
    confirmed_delivered wire endpoint endpoint final endpoint-IsIdle endpoint-IsIdle run
      run-NoOverlap only_message (λ m m' i. absurd i)
