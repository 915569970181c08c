-- ===== src/Message/Proto.antt =====
-- common/interfaces/proto_defines.proto: the messages, with the accessors of the generated classes
-- as reads and updates of fields. A field that is not set reads as its default.
use simple_messenger.Prelude.{ℕ, List, []}

-- Enumerations of proto3 are open: a number without a name is kept.
pub data DataType : Type 0 where
  text_message file_message : DataType
  unnamed : ℕ → DataType

pub data MessageType : Type 0 where
  user_message service_message ack_message : MessageType
  unnamed : ℕ → MessageType

pub record Header : Type 0 where
  pub payload_size : ℕ
  pub total_size : ℕ
  pub message_type : MessageType
  pub timestamp : ℕ

pub record EnvelopeMeta : Type 0 where
  pub header : Header
  pub type : DataType
  pub sender_id : ℕ
  pub recepient_id : ℕ

pub record Envelope : Type 0 where
  pub meta_data : EnvelopeMeta
  pub payload : List ℕ

pub record UserCredentials : Type 0 where
  pub email : List ℕ
  pub password : List ℕ

-- A message on which no setter has been called.
abbrev pub empty_envelope : Envelope
empty_envelope = record {
  meta_data = record {
    header = record {
      payload_size = 0;
      total_size = 0;
      message_type = MessageType.user_message;
      timestamp = 0;
    };
    type = DataType.text_message;
    sender_id = 0;
    recepient_id = 0;
  };
  payload = [];
}
