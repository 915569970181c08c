-- ===== src/Message/Struct.antt =====
-- The object representation of the `Envelope` of common/interfaces/defines.hpp, which
-- `TcpEndpointBase` sends as it stands, with 8-byte alignment. Padding is zero.
use simple_messenger.Prelude.{
  ℕ, zero, suc, ◌^◌, ◌<◌, ◌≡◌, refl, List, [], ◌∷◌, ◌++◌, arith, length, drop, take,
}
use simple_messenger.Memory.{to_le, of_le, of_le-to_le}
use simple_messenger.Message.{Envelope, EnvelopeMeta, Header, MessageType, DataType, meta_size}
use simple_messenger.Message.Layouts.{head_or_zero}

unfoldable pub message_type_byte : MessageType → ℕ
message_type_byte MessageType.user_message = 0
message_type_byte MessageType.service_message = 1
message_type_byte MessageType.ack_message = 2
message_type_byte (MessageType.unnamed n) = n

unfoldable pub message_type_of : ℕ → MessageType
message_type_of zero = MessageType.user_message
message_type_of (suc zero) = MessageType.service_message
message_type_of (suc (suc zero)) = MessageType.ack_message
message_type_of (suc (suc (suc n))) = MessageType.unnamed (suc (suc (suc n)))

unfoldable pub data_type_byte : DataType → ℕ
data_type_byte DataType.text_message = 0
data_type_byte DataType.file_message = 1
data_type_byte (DataType.unnamed n) = n

unfoldable pub data_type_of : ℕ → DataType
data_type_of zero = DataType.text_message
data_type_of (suc zero) = DataType.file_message
data_type_of (suc (suc n)) = DataType.unnamed (suc (suc n))

-- An `unnamed` value is a byte that has no name.
abbrev pub IsMessageType : MessageType → Type 0
IsMessageType (MessageType.unnamed n) = (2 < n) × (n < 256)
IsMessageType _ = Unit

abbrev pub IsDataType : DataType → Type 0
IsDataType (DataType.unnamed n) = (1 < n) × (n < 256)
IsDataType _ = Unit

pub record IsMeta (m : EnvelopeMeta) : Type 0 where
  pub payload_size_fits : m.header.payload_size < 256 ^ 8
  pub total_size_fits : m.header.total_size < 256 ^ 8
  pub is_message_type : IsMessageType m.header.message_type
  pub timestamp_fits : m.header.timestamp < 256 ^ 4
  pub is_data_type : IsDataType m.type
  pub sender_fits : m.sender_id < 256 ^ 8
  pub recepient_fits : m.recepient_id < 256 ^ 8

unfoldable pub header_bytes : Header → List ℕ
header_bytes h =
    to_le 8 h.payload_size
    ++ (to_le 8 h.total_size
        ++ ((message_type_byte h.message_type ∷ 0 ∷ 0 ∷ 0 ∷ []) ++ to_le 4 h.timestamp))

unfoldable pub meta_bytes : EnvelopeMeta → List ℕ
meta_bytes m =
    header_bytes m.header
    ++ ((data_type_byte m.type ∷ 0 ∷ 0 ∷ 0 ∷ 0 ∷ 0 ∷ 0 ∷ 0 ∷ [])
        ++ (to_le 8 m.sender_id ++ to_le 8 m.recepient_id))

unfoldable pub envelope_bytes : Envelope → List ℕ
envelope_bytes env = meta_bytes env.meta_data ++ env.payload

unfoldable pub meta_of : List ℕ → EnvelopeMeta
meta_of bytes = record {
  header = record {
    payload_size = of_le (take 8 bytes);
    total_size = of_le (take 8 (drop 8 bytes));
    message_type = message_type_of (head_or_zero (drop 16 bytes));
    timestamp = of_le (take 4 (drop 20 bytes));
  };
  type = data_type_of (head_or_zero (drop 24 bytes));
  sender_id = of_le (take 8 (drop 32 bytes));
  recepient_id = of_le (take 8 (drop 40 bytes));
}

unfoldable pub envelope_of : List ℕ → Envelope
envelope_of bytes = record { meta_data = meta_of bytes; payload = drop meta_size bytes }

message_type_of-byte :
    (t : MessageType) → IsMessageType t → message_type_of (message_type_byte t) ≡ t
unfolding message_type_of message_type_byte
message_type_of-byte MessageType.user_message v = refl
message_type_of-byte MessageType.service_message v = refl
message_type_of-byte MessageType.ack_message v = refl
message_type_of-byte (MessageType.unnamed zero) v = absurd (omega (arith, v.0))
message_type_of-byte (MessageType.unnamed (suc zero)) v = absurd (omega (arith, v.0))
message_type_of-byte (MessageType.unnamed (suc (suc zero))) v = absurd (omega (arith, v.0))
message_type_of-byte (MessageType.unnamed (suc (suc (suc n)))) v = refl

data_type_of-byte : (t : DataType) → IsDataType t → data_type_of (data_type_byte t) ≡ t
unfolding data_type_of data_type_byte
data_type_of-byte DataType.text_message v = refl
data_type_of-byte DataType.file_message v = refl
data_type_of-byte (DataType.unnamed zero) v = absurd (omega (arith, v.0))
data_type_of-byte (DataType.unnamed (suc zero)) v = absurd (omega (arith, v.0))
data_type_of-byte (DataType.unnamed (suc (suc n))) v = refl

pub length-meta_bytes : (m : EnvelopeMeta) → length (meta_bytes m) ≡ meta_size
unfolding meta_bytes header_bytes to_le
length-meta_bytes m = refl

-- The metadata is read back whatever stands behind it.
pub envelope_of-bytes :
    (m : EnvelopeMeta) (payload : List ℕ)
    → IsMeta m
    → envelope_of (meta_bytes m ++ payload) ≡ record { meta_data = m; payload = payload }
unfolding envelope_of meta_of meta_bytes header_bytes head_or_zero to_le
envelope_of-bytes m payload v = λ i. record {
  meta_data = record {
    header = record {
      payload_size = of_le-to_le 8 m.header.payload_size v.payload_size_fits i;
      total_size = of_le-to_le 8 m.header.total_size v.total_size_fits i;
      message_type = message_type_of-byte m.header.message_type v.is_message_type i;
      timestamp = of_le-to_le 4 m.header.timestamp v.timestamp_fits i;
    };
    type = data_type_of-byte m.type v.is_data_type i;
    sender_id = of_le-to_le 8 m.sender_id v.sender_fits i;
    recepient_id = of_le-to_le 8 m.recepient_id v.recepient_fits i;
  };
  payload = payload;
}
