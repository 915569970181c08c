-- ===== src/Client/Defs.antt =====
-- What the client sends and shows. `none` is a read or write outside an array.
use simple_messenger.GrpcServer.Defs.{
  receive_message, Status, ok, cancelled, user_id_key, exit_text, GrpcEndpointServer, PostBoxCell,
  Accepted, accept_connection,
}
use simple_messenger.Prelude.{
  ℕ, Bool, true, false, Option, some, List, [], ◌∷◌, ◌++◌, codes, bytes_eq, replicate,
  if◌then◌else◌,
}
use mathlib.Core.Option
use simple_messenger.Memory.{c_string, copy_into}
use simple_messenger.Decimal.{to_string}
use simple_messenger.Message.{
  Envelope, MessageType, DataType, UserCredentials, payload_capacity, set_message_type,
}
use simple_messenger.Message.Proto
use simple_messenger.Message.Convert.{put_env_to_proto_buf, get_env_from_proto_buf}
use simple_messenger.Psql.Defs.{Libpq, PsqlManager}

-- `stub_` is the connection, and not modelled.
pub record GrpcEndpointClient : Type 0 where
  pub user_name : List ℕ
  pub user_id : ℕ

-- What `connectToServer` sends: both arrays are taken for C strings.
unfoldable pub proto_user_creds : UserCredentials → Option Proto.UserCredentials
unfolding Option.bind
proto_user_creds user_creds = Option.bind (c_string user_creds.email) (λ email.
    Option.map (λ password. record { email = email; password = password })
      (c_string user_creds.password))

-- What `connectToServer` makes of the status and the reply.
unfoldable pub connected : GrpcEndpointClient → Status → ℕ → Bool × GrpcEndpointClient
connected c ok id = (true, record c { user_id = id })
connected c cancelled id = (false, c)

-- The metadata that `listenOthers` sends.
unfoldable pub metadata : GrpcEndpointClient → List (List ℕ × List ℕ)
metadata c = (codes "username", c.user_name) ∷ (user_id_key, to_string c.user_id) ∷ []

-- A round of the loop of `listenOthers`: the text that is printed.
unfoldable pub shown : Proto.Envelope → Option (List ℕ)
unfolding Option.bind
shown received_message =
    Option.bind (get_env_from_proto_buf received_message) (λ env. c_string env.payload)

-- The timestamp and the payload are not named in the initializer, and zero.
unfoldable pub create_text_envelope : ℕ → ℕ → Envelope
create_text_envelope sender_id recepient_id = record {
  meta_data = record {
    header = record {
      payload_size = 234;
      total_size = 400;
      message_type = MessageType.user_message;
      timestamp = 0;
    };
    type = DataType.text_message;
    sender_id = sender_id;
    recepient_id = recepient_id;
  };
  payload = replicate payload_capacity 0;
}

unfoldable pub create_auth_envelope : Envelope
create_auth_envelope = set_message_type (create_text_envelope 0 0) MessageType.service_message

-- Both arrays have the size of the payload.
unfoldable pub embed_text : Envelope → List ℕ → Option Envelope
embed_text env text_buffer =
    Option.map (λ payload. record env { payload = payload }) (copy_into env.payload text_buffer)

-- `scanf` writes the word that it reads, and a NUL.
unfoldable pub write_message : List ℕ → Option (List ℕ)
write_message word = copy_into (replicate payload_capacity 0) (word ++ (0 ∷ []))

-- A round of the sending loop: the buffer, and the message that is sent.
unfoldable pub send_round : ℕ → ℕ → List ℕ → Proto.Envelope → Option (List ℕ × Proto.Envelope)
unfolding Option.bind
send_round my_id recepient_id word proto_env = Option.bind (write_message word) (λ buffer.
    Option.bind (embed_text (create_text_envelope my_id recepient_id) buffer)
      (λ env. Option.map (λ p. (buffer, p)) (put_env_to_proto_buf env proto_env)))

-- The sending loop, for the words that are typed: the messages that are sent. It ends behind the
-- word `exit`, which is sent too.
unfoldable pub send_loop : ℕ → ℕ → List (List ℕ) → Proto.Envelope → Option (List Proto.Envelope)
unfolding Option.bind
send_loop my_id recepient_id [] proto_env = some []
send_loop my_id recepient_id (word ∷ words) proto_env =
    Option.bind (send_round my_id recepient_id word proto_env) (λ r.
      let more = Option.map (λ sent. r.1 ∷ sent) (send_loop my_id recepient_id words r.1) in
      Option.bind (c_string r.0)
        (λ text. if bytes_eq text exit_text then some (r.1 ∷ []) else more))

-- `connectToServer` on a server: `acceptConnection` runs with the reply `UserID`, whose `id` is 0 if
-- it is not set.
module _ (storage : List Envelope) (L : Libpq) where
  pub record Connected : Type 0 where
    pub admitted : Bool
    pub client : GrpcEndpointClient
    pub server : GrpcEndpointServer
    pub psql : PsqlManager L

  unfoldable pub answered : GrpcEndpointClient → Accepted storage L → Connected
  answered c a =
      let (admitted, c') = connected c a.status a.user_id in
      record { admitted = admitted; client = c'; server = a.server; psql = a.psql }

  unfoldable pub connect_to_server :
      GrpcEndpointClient
      → GrpcEndpointServer
      → PsqlManager L
      → PostBoxCell
      → UserCredentials
      → Option Connected
  unfolding Option.bind
  connect_to_server c s m raw user_creds =
      Option.bind (proto_user_creds user_creds)
        (λ creds. Option.map (answered c) (accept_connection storage L s m raw creds))

-- `listenOthers`, for the messages that the reader gives: the texts that are printed.
unfoldable pub listen_others : List Proto.Envelope → Option (List (List ℕ))
unfolding Option.bind
listen_others [] = some []
listen_others (received_message ∷ rest) =
    Option.bind (shown received_message)
      (λ text. Option.map (λ texts. text ∷ texts) (listen_others rest))

-- `sendEnvelope`, on a server. The result is whether the status is OK.
unfoldable pub send_envelope :
    List Envelope → GrpcEndpointServer → Proto.Envelope → Option (Bool × GrpcEndpointServer)
send_envelope storage s env = Option.map answer (receive_message storage s env)
  where
    answer : Status × GrpcEndpointServer → Bool × GrpcEndpointServer
    answer (ok, s') = (true, s')
    answer (cancelled, s') = (false, s')
