-- ===== src/Message.antt =====
-- common/interfaces/defines.hpp and the accessors of
-- common/message_processor/MessageProcessing.hpp. The children hold the protobuf messages
-- (`Proto`), the copies through the payload (`Payload`), the bytes of objects (`Layouts`, `Struct`),
-- and the conversion (`Convert`).
pub mod Proto
pub mod Payload
pub mod Layouts
pub mod Struct
pub mod Convert
mod Tests
use simple_messenger.Prelude.{ℕ, ◌-◌, ◌%◌, ◌^◌, List, replicate}

-- `enum DataType : uint8_t`. Any byte is a value of the type.
pub data DataType : Type 0 where
  text_message file_message : DataType
  unnamed : ℕ → DataType

-- `enum MessageType : uint8_t`
pub data MessageType : Type 0 where
  user_message service_message ack_message : MessageType
  unnamed : ℕ → MessageType

pub record Header : Type 0 where
  pub payload_size : ℕ
  pub total_size : ℕ
  pub message_type : MessageType
  pub timestamp : ℕ

pub record EnvelopeMeta : Type 0 where
  pub header : Header
  pub type : DataType
  pub sender_id : ℕ
  pub recepient_id : ℕ

pub record Envelope : Type 0 where
  pub meta_data : EnvelopeMeta
  pub payload : List ℕ

-- `Envelope::size`, `sizeof(EnvelopeMeta)` with 8-byte alignment, and the size of the payload.
abbrev pub envelope_size : ℕ
envelope_size = 1024

abbrev pub meta_size : ℕ
meta_size = 48

abbrev pub payload_capacity : ℕ
payload_capacity = envelope_size - meta_size

pub record PhoneBookRecord : Type 0 where
  pub user_id : ℕ
  pub nickname : List ℕ

pub record AuthResponse : Type 0 where
  pub is_accepted : ℕ
  pub user_id : ℕ

pub record UserCredentials : Type 0 where
  pub email : List ℕ
  pub password : List ℕ

-- `char email[256]`, `char password[256]`
abbrev pub credential_capacity : ℕ
credential_capacity = 256

-- An address is the bytes of its `sockaddr`.
pub record SocketInfo : Type 0 where
  pub addr : List ℕ
  pub addrlen : ℕ

pub record ClientInfo : Type 0 where
  pub user_id : ℕ
  pub socket_info : SocketInfo

-- `Envelope raw_env{}`
abbrev pub zero_envelope : Envelope
zero_envelope = record {
  meta_data = record {
    header = record {
      payload_size = 0;
      total_size = 0;
      message_type = MessageType.user_message;
      timestamp = 0;
    };
    type = DataType.text_message;
    sender_id = 0;
    recepient_id = 0;
  };
  payload = replicate payload_capacity 0;
}

unfoldable pub get_message_type : Envelope → MessageType
get_message_type env = env.meta_data.header.message_type

unfoldable pub set_message_type : Envelope → MessageType → Envelope
set_message_type env type = record env {
  meta_data = record (env.meta_data) {
    header = record (env.meta_data.header) { message_type = type };
  };
}

unfoldable pub get_time_stamp : Envelope → ℕ
get_time_stamp env = env.meta_data.header.timestamp

unfoldable pub set_time_stamp : Envelope → ℕ → Envelope
set_time_stamp env t_stamp = record env {
  meta_data = record (env.meta_data) {
    header = record (env.meta_data.header) { timestamp = t_stamp };
  };
}

-- The clock's microseconds since the epoch, cut to the 32 bits of a `Timestamp`.
unfoldable pub create_time_stamp : ℕ → ℕ
create_time_stamp now_us = now_us % 2 ^ 32

unfoldable pub get_sender_id : Envelope → ℕ
get_sender_id env = env.meta_data.sender_id

unfoldable pub set_sender_id : Envelope → ℕ → Envelope
set_sender_id env id = record env { meta_data = record (env.meta_data) { sender_id = id } }

unfoldable pub get_recepient_id : Envelope → ℕ
get_recepient_id env = env.meta_data.recepient_id

unfoldable pub set_recepient_id : Envelope → ℕ → Envelope
set_recepient_id env id = record env { meta_data = record (env.meta_data) { recepient_id = id } }
