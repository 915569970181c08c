-- ===== src/GrpcServer/Defs.antt =====
-- The handlers of server_app/endpoint/GrpcServer.cpp. `none` is a read or write outside an array,
-- or an exception that leaves the handler.
use simple_messenger.Prelude.{
  ℕ, Bool, not, Option, none, some, List, [], ◌∷◌, codes, bytes_eq, is_some, replicate,
  if◌then◌else◌,
}
use mathlib.Core.Option
use simple_messenger.CircularBuffer
use simple_messenger.CircularBuffer.{CircularBuffer}
use simple_messenger.Memory.{c_string, copy_into}
use simple_messenger.Decimal.{stoul}
use simple_messenger.UserMap.{lookup, assign, emplace, erase}
use simple_messenger.Message.{Envelope, credential_capacity, get_sender_id, get_recepient_id}
use simple_messenger.Message.Proto
use simple_messenger.Message.Convert.{put_env_to_proto_buf, get_env_from_proto_buf}
use simple_messenger.Psql.Defs.{Libpq, PsqlManager, check_if_registered}

-- `grpc::Status::OK` and `grpc::Status::CANCELLED`
pub data Status : Type 0 where
  ok cancelled : Status

abbrev pub post_box_size : ℕ
post_box_size = 32

abbrev pub PostBoxCell : Type 0
PostBoxCell = CircularBuffer Envelope post_box_size

pub record GrpcEndpointServer : Type 0 where
  pub post_box : List (ℕ × PostBoxCell)

abbrev pub exit_text : List ℕ
exit_text = codes "exit"

abbrev pub user_id_key : List ℕ
user_id_key = codes "user_id"

unfoldable pub is_online : GrpcEndpointServer → ℕ → Bool
is_online s user = is_some (lookup user s.post_box)

unfoldable pub disconnect_user : GrpcEndpointServer → ℕ → GrpcEndpointServer
disconnect_user s user = record s { post_box = erase user s.post_box }

-- The lookup of the key `user_id` among the client's metadata.
unfoldable pub user_of_metadata : List (List ℕ × List ℕ) → Option ℕ
user_of_metadata [] = some 0
user_of_metadata ((key, value) ∷ rest) =
    if bytes_eq key user_id_key then stoul value else user_of_metadata rest

-- One round of the loop of `streamIncomingMessages`.
pub data Round : Type 0 where
  finished : Round
  idle : GrpcEndpointServer → Round
  wrote : Proto.Envelope → GrpcEndpointServer → Round
  fault : Round

unfoldable pub forward : Option Envelope → Proto.Envelope → GrpcEndpointServer → Round
forward none forwarded_env s = idle s
forward (some env) forwarded_env s = elim (put_env_to_proto_buf env forwarded_env) [
  | none ↦ fault
  | some p ↦ wrote p s
]

-- `storage` is what the array of a new cell holds before anything is written to it.
module _ (storage : List Envelope) where
  -- `post_box.emplace(new_user, PostBoxCell())`: the cell in the map is built by the move
  -- constructor, in the memory `raw`.
  unfoldable pub add_user_to_connected : GrpcEndpointServer → PostBoxCell → ℕ → GrpcEndpointServer
  add_user_to_connected s raw new_user = record s {
    post_box =
        emplace new_user (CircularBuffer.move_into raw (CircularBuffer.make storage)) s.post_box;
  }

  -- `post_box[user]`: a user that is not there is given a new, empty cell.
  unfoldable pub cell : GrpcEndpointServer → ℕ → PostBoxCell
  cell s user = Option.get_or (lookup user s.post_box) (CircularBuffer.make storage)

  -- `post_box[recipient_id].push(received_env)`
  unfoldable pub push_mail : GrpcEndpointServer → ℕ → Envelope → Bool × GrpcEndpointServer
  push_mail s user env =
      let (done, box) = CircularBuffer.push (cell s user) env in
      (done, record s { post_box = assign user box s.post_box })

  -- `post_box[user_id].pop()`
  unfoldable pub pop_mail : GrpcEndpointServer → ℕ → Option Envelope × GrpcEndpointServer
  pop_mail s user =
      let (item, box) = CircularBuffer.pop (cell s user) in
      (item, record s { post_box = assign user box s.post_box })

  -- `receiveMessage` from the envelope on, whose payload is the C string `text`.
  unfoldable pub receive_text : GrpcEndpointServer → Envelope → List ℕ → Status × GrpcEndpointServer
  receive_text s env text =
      if bytes_eq text exit_text
      then (ok, disconnect_user s (get_sender_id env))
      else if not (is_online s (get_recepient_id env))
      then (cancelled, s)
      else let (done, s') = push_mail s (get_recepient_id env) env in
        (if done then ok else cancelled, s')

  unfoldable pub receive_message :
      GrpcEndpointServer → Proto.Envelope → Option (Status × GrpcEndpointServer)
  unfolding Option.bind
  receive_message s p_env =
      Option.bind (get_env_from_proto_buf p_env)
        (λ env. Option.map (receive_text s env) (c_string env.payload))

  unfoldable pub stream_round : GrpcEndpointServer → ℕ → Proto.Envelope → Round
  stream_round s user_id forwarded_env =
      if not (is_online s user_id)
      then finished
      else let (item, s') = pop_mail s user_id in forward item forwarded_env s'

  module _ (L : Libpq) where
    pub record Accepted : Type 0 where
      pub status : Status
      pub user_id : ℕ
      pub server : GrpcEndpointServer
      pub psql : PsqlManager L

    -- The end of `acceptConnection`; `user_id` of the reply is 0 if it is not set.
    unfoldable pub admit : GrpcEndpointServer → PostBoxCell → Option ℕ × PsqlManager L → Accepted
    admit s raw (none, m) = record { status = cancelled; user_id = 0; server = s; psql = m }
    admit s raw (some id, m) = record {
      status = ok;
      user_id = id;
      server = add_user_to_connected s raw id;
      psql = m;
    }

    -- The two `memcpy` into arrays of 256 `char` take the sizes of the texts received.
    unfoldable pub accept_connection :
        GrpcEndpointServer → PsqlManager L → PostBoxCell → Proto.UserCredentials → Option Accepted
    unfolding Option.bind
    accept_connection s m raw user_creds =
        Option.bind (copy_into (replicate credential_capacity 0) user_creds.email) (λ email.
          Option.bind (copy_into (replicate credential_capacity 0) user_creds.password) (λ password.
            Option.map (admit s raw)
              (check_if_registered L m (record { email = email; password = password }))))
