-- ===== src/Message/Convert.antt =====
-- `putEnvToProtoBuf` and `getEnvFromProtoBuf` of
-- common/message_processor/MessageProcessing.hpp. Both end in the same state whether the size of
-- the protobuf message passes the test against `Envelope::size` or not, so the test is left out.
pub mod RoundTrip
use simple_messenger.Prelude.{ℕ, Option, none, some, List, [], ◌∷◌, ◌++◌, replicate}
use mathlib.Core.Option
use simple_messenger.Memory.{c_string, copy_into}
use simple_messenger.Message.{
  DataType, MessageType, Header, EnvelopeMeta, Envelope, payload_capacity, zero_envelope,
  get_message_type, set_message_type, get_time_stamp, set_time_stamp, get_sender_id, set_sender_id,
  get_recepient_id, set_recepient_id,
}
use simple_messenger.Message.Proto

-- The first `switch` of `putEnvToProtoBuf`: with no `default`, an unnamed type sets nothing.
unfoldable pub put_message_type : MessageType → Proto.Header → Proto.Header
put_message_type MessageType.user_message h = record h {
  message_type = Proto.MessageType.user_message;
}
put_message_type MessageType.service_message h = record h {
  message_type = Proto.MessageType.service_message;
}
put_message_type MessageType.ack_message h = record h {
  message_type = Proto.MessageType.ack_message;
}
put_message_type (MessageType.unnamed _) h = h

unfoldable pub put_data_type : DataType → Proto.EnvelopeMeta → Proto.EnvelopeMeta
put_data_type DataType.text_message m = record m { type = Proto.DataType.text_message }
put_data_type DataType.file_message m = record m { type = Proto.DataType.file_message }
put_data_type (DataType.unnamed _) m = m

-- All that `putEnvToProtoBuf` sets, for the text that it finds in the payload.
unfoldable pub put_fields : Envelope → Proto.Envelope → List ℕ → Proto.Envelope
unfolding put_message_type put_data_type get_message_type get_time_stamp get_sender_id
    get_recepient_id
put_fields raw_env proto_env text =
    let header = put_message_type (get_message_type raw_env) proto_env.meta_data.header in
    let stamped = record header { timestamp = get_time_stamp raw_env } in
    let meta_data =
      put_data_type raw_env.meta_data.type (record (proto_env.meta_data) { header = stamped }) in
    record proto_env {
      meta_data = record meta_data {
        sender_id = get_sender_id raw_env;
        recepient_id = get_recepient_id raw_env;
      };
      payload = text;
    }

-- `set_payload` takes the array for a C string: `none` if it has no NUL, where the code reads on
-- past the array.
unfoldable pub put_env_to_proto_buf : Envelope → Proto.Envelope → Option Proto.Envelope
put_env_to_proto_buf raw_env proto_env =
    Option.map (put_fields raw_env proto_env) (c_string raw_env.payload)

unfoldable pub read_message_type : Proto.MessageType → Envelope → Envelope
unfolding set_message_type
read_message_type Proto.MessageType.user_message env = set_message_type env MessageType.user_message
read_message_type Proto.MessageType.service_message env =
    set_message_type env MessageType.service_message
read_message_type Proto.MessageType.ack_message env = set_message_type env MessageType.ack_message
read_message_type (Proto.MessageType.unnamed _) env = env

abbrev set_data_type : Envelope → DataType → Envelope
set_data_type env type = record env { meta_data = record (env.meta_data) { type = type } }

unfoldable pub read_data_type : Proto.DataType → Envelope → Envelope
read_data_type Proto.DataType.text_message env = set_data_type env DataType.text_message
read_data_type Proto.DataType.file_message env = set_data_type env DataType.file_message
read_data_type (Proto.DataType.unnamed _) env = env

-- The `memset` and the `memcpy` of `strlen(c_payload)` bytes: `none` if they do not fit the payload.
unfoldable pub read_payload : List ℕ → Envelope → Option Envelope
unfolding Option.bind
read_payload proto_payload env = Option.bind (c_string (proto_payload ++ (0 ∷ []))) (λ text.
    Option.map (λ payload. record env { payload = payload })
      (copy_into (replicate payload_capacity 0) text))

-- What `getEnvFromProtoBuf` has set before it comes to the payload.
unfoldable pub read_fields : Proto.Envelope → Envelope
unfolding read_message_type read_data_type set_time_stamp set_sender_id set_recepient_id
read_fields proto_env =
    let proto_meta_data = proto_env.meta_data in
    let proto_header = proto_meta_data.header in
    let typed = read_message_type proto_header.message_type zero_envelope in
    let stamped = set_time_stamp typed proto_header.timestamp in
    let described = read_data_type proto_meta_data.type stamped in
    set_recepient_id (set_sender_id described proto_meta_data.sender_id)
      proto_meta_data.recepient_id

unfoldable pub get_env_from_proto_buf : Proto.Envelope → Option Envelope
get_env_from_proto_buf proto_env = read_payload proto_env.payload (read_fields proto_env)
