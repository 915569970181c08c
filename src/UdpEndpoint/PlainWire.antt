-- ===== src/UdpEndpoint/PlainWire.antt =====
-- A wire format for the tests of UdpEndpoint, in place of the one of the generated classes.
use simple_messenger.Prelude.{ℕ, zero, suc, ◌≡◌, refl, List, ◌∷◌}
use simple_messenger.Message.Proto
use simple_messenger.Endpoint.{Wire}

-- A wire format: the numbers of the enumerations and the fields, one after the other.
abbrev message_type_number : Proto.MessageType → ℕ
message_type_number Proto.MessageType.user_message = 0
message_type_number Proto.MessageType.service_message = 1
message_type_number Proto.MessageType.ack_message = 2
message_type_number (Proto.MessageType.unnamed n) = suc (suc (suc n))

abbrev message_type_of : ℕ → Proto.MessageType
message_type_of zero = Proto.MessageType.user_message
message_type_of (suc zero) = Proto.MessageType.service_message
message_type_of (suc (suc zero)) = Proto.MessageType.ack_message
message_type_of (suc (suc (suc n))) = Proto.MessageType.unnamed n

abbrev data_type_number : Proto.DataType → ℕ
data_type_number Proto.DataType.text_message = 0
data_type_number Proto.DataType.file_message = 1
data_type_number (Proto.DataType.unnamed n) = suc (suc n)

abbrev data_type_of : ℕ → Proto.DataType
data_type_of zero = Proto.DataType.text_message
data_type_of (suc zero) = Proto.DataType.file_message
data_type_of (suc (suc n)) = Proto.DataType.unnamed n

abbrev to_bytes : Proto.Envelope → List ℕ
to_bytes p =
    p.meta_data.header.payload_size
    ∷ p.meta_data.header.total_size
    ∷ message_type_number p.meta_data.header.message_type
    ∷ p.meta_data.header.timestamp
    ∷ data_type_number p.meta_data.type
    ∷ p.meta_data.sender_id
    ∷ p.meta_data.recepient_id
    ∷ p.payload

abbrev of_bytes : List ℕ → Proto.Envelope
of_bytes (ps ∷ ts ∷ mt ∷ t ∷ dt ∷ s ∷ r ∷ payload) = record {
  meta_data = record {
    header = record {
      payload_size = ps;
      total_size = ts;
      message_type = message_type_of mt;
      timestamp = t;
    };
    type = data_type_of dt;
    sender_id = s;
    recepient_id = r;
  };
  payload = payload;
}
of_bytes _ = Proto.empty_envelope

message_type_back : (mt : Proto.MessageType) → message_type_of (message_type_number mt) ≡ mt
message_type_back Proto.MessageType.user_message = refl
message_type_back Proto.MessageType.service_message = refl
message_type_back Proto.MessageType.ack_message = refl
message_type_back (Proto.MessageType.unnamed n) = refl

data_type_back : (dt : Proto.DataType) → data_type_of (data_type_number dt) ≡ dt
data_type_back Proto.DataType.text_message = refl
data_type_back Proto.DataType.file_message = refl
data_type_back (Proto.DataType.unnamed n) = refl

pub of_bytes-to_bytes : (p : Proto.Envelope) → of_bytes (to_bytes p) ≡ p
of_bytes-to_bytes p =
    rw (message_type_back p.meta_data.header.message_type, data_type_back p.meta_data.type)

abbrev pub wire : Wire
wire = record { serialize = to_bytes; parse = of_bytes; parse-serialize = of_bytes-to_bytes }
