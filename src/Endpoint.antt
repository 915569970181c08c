-- ===== src/Endpoint.antt =====
-- common/endpoint/EndpointBase.{hpp,cpp}: the state of a socket's readiness, and the buffers in which
-- an envelope travels as a protobuf message. The sockets themselves are in `Sockets`.
-- `none` is a read or write outside a buffer.
use simple_messenger.Prelude.{
  ℕ, ◌≤◌, ◌≡◌, Bool, true, false, ◌||◌, Option, some, List, ◌++◌, length, drop,
}
use mathlib.Core.Option
use simple_messenger.Memory.{copy_into, read_from, copy_into-some, read_from-append}
use simple_messenger.Message.{Envelope}
use simple_messenger.Message.Proto
use simple_messenger.Message.Convert.{put_env_to_proto_buf, get_env_from_proto_buf}

-- What `poll` reports: a failure, or the flags POLLHUP, POLLERR, POLLIN and POLLPRI.
pub data Polled : Type 0 where
  failed : Polled
  flags : Bool → Bool → Bool → Bool → Polled

-- `pollSocket`: whether the socket is ready to handle, and whether it is in error or closed.
unfoldable pub poll_socket : Polled → Bool × Bool
poll_socket failed = (false, true)
poll_socket (flags hup error input urgent) = closed_or (hup || error) (input || urgent)
  where
    closed_or : Bool → Bool → Bool × Bool
    closed_or true ready = (false, true)
    closed_or false ready = (ready, false)

-- The wire format of the messages, which the generated classes implement: what `SerializeToArray`
-- writes is read back by `ParseFromArray`.
pub record Wire : Type 0 where
  pub serialize : Proto.Envelope → List ℕ
  pub parse : List ℕ → Proto.Envelope
  pub parse-serialize : (p : Proto.Envelope) → parse (serialize p) ≡ p

pub record RxTxBuffer : Type 0 where
  pub message_size : ℕ
  pub payload : List ℕ

module _ (W : Wire) where
  open W use {serialize, parse, parse-serialize}

  -- `putEnvToProtoBufferOut`: the new message and buffer.
  unfoldable pub put_env_to_proto_buffer_out :
      Envelope → Proto.Envelope → RxTxBuffer → Option (Proto.Envelope × RxTxBuffer)
  unfolding Option.bind
  put_env_to_proto_buffer_out raw_env proto_env buffer =
      Option.bind (put_env_to_proto_buf raw_env proto_env) (λ p.
        Option.map (λ bytes. (p, record { message_size = length (serialize p); payload = bytes }))
          (copy_into buffer.payload (serialize p)))

  -- `getEnvFromProtoBufferIn`, which reads as many bytes as the buffer says.
  unfoldable pub get_env_from_proto_buffer_in : RxTxBuffer → Option Envelope
  unfolding Option.bind
  get_env_from_proto_buffer_in buffer =
      Option.bind (read_from buffer.payload buffer.message_size)
        (λ bytes. get_env_from_proto_buf (parse bytes))

  -- A message that fits the buffer is received as it was put there.
  pub get_env-put_env_buffer :
      (raw_env : Envelope) (p q : Proto.Envelope) (buffer : RxTxBuffer)
      → put_env_to_proto_buf raw_env p ≡ some q
      → length (serialize q) ≤ length buffer.payload
      → (out : RxTxBuffer) × (put_env_to_proto_buffer_out raw_env p buffer ≡ some (q, out))
        × (get_env_from_proto_buffer_in out ≡ get_env_from_proto_buf q)
  unfolding put_env_to_proto_buffer_out get_env_from_proto_buffer_in
  get_env-put_env_buffer raw_env p q buffer e fits =
      let bytes = serialize q in
      let stored = copy_into-some buffer.payload bytes fits in
      (
        record {
          message_size = length bytes;
          payload = bytes ++ drop (length bytes) buffer.payload;
        },
        rw (e, stored),
        rw (read_from-append bytes (drop (length bytes) buffer.payload), parse-serialize q),
      )
