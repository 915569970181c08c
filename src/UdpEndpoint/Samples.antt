-- ===== src/UdpEndpoint/Samples.antt =====
-- An endpoint at which nothing has happened and a message, for tests.
use simple_messenger.Prelude.{[], ◌∷◌, replicate}
use simple_messenger.CircularBuffer.{CircularBuffer}
use simple_messenger.Message.{Envelope, MessageType, DataType, SocketInfo, zero_envelope}
use simple_messenger.Message.Proto
use simple_messenger.Endpoint.{RxTxBuffer}
use simple_messenger.UdpEndpoint.Defs.{
  UdpEndpointBase, AddressedEnvelope, ExpiringAck, message_queue_size,
}

abbrev pub greeting : Envelope
greeting = record {
  meta_data = record {
    header = record {
      payload_size = 0;
      total_size = 0;
      message_type = MessageType.user_message;
      timestamp = 0;
    };
    type = DataType.text_message;
    sender_id = 7;
    recepient_id = 9;
  };
  payload = 104 ∷ 105 ∷ 0 ∷ replicate 973 0;
}

abbrev pub here : SocketInfo
here = record { addr = 1 ∷ []; addrlen = 1 }

abbrev pub empty_queue : CircularBuffer AddressedEnvelope message_queue_size
empty_queue =
    let blank : AddressedEnvelope = record { sock_info = here; env = zero_envelope } in
    record {
      circ_buffer = blank ∷ blank ∷ blank ∷ blank ∷ [];
      begin_pos = 0;
      end_pos = 0;
      size = 0;
    }

abbrev pub no_acks : CircularBuffer ExpiringAck message_queue_size
no_acks =
    let blank : ExpiringAck = record { counter = 3; t_stamp = 0 } in
    record {
      circ_buffer = blank ∷ blank ∷ blank ∷ blank ∷ [];
      begin_pos = 0;
      end_pos = 0;
      size = 0;
    }

abbrev pub zero_buffer : RxTxBuffer
zero_buffer = record {
  message_size = 0;
  payload = 0 ∷ 0 ∷ 0 ∷ 0 ∷ 0 ∷ 0 ∷ 0 ∷ 0 ∷ 0 ∷ 0 ∷ 0 ∷ 0 ∷ [];
}

abbrev pub endpoint : UdpEndpointBase
endpoint = record {
  in_queue = empty_queue;
  out_queue = empty_queue;
  ack_queue = no_acks;
  proto_message_buffer_out = Proto.empty_envelope;
  buffer_in = zero_buffer;
  buffer_out = zero_buffer;
}
