-- ===== src/Client/TcpLogin.antt =====
-- A client logs in over TCP: create_auth_envelope of client_app/client_app_main.cpp,
-- common/endpoint/TcpEndpointBase.cpp and authentifyClient of server_app/endpoint/ServerTcpEndpoint.cpp.
use simple_messenger.Server.Tcp.{
  receive_own, sent_bytes, receive_tcp, authentify_over_tcp, arrived_on, receive_tcp_lem,
}
use simple_messenger.Server.Defs.{
  send_tcp, ServerTcpEndpoint, Sent, auth_response, find_online_client,
}
use simple_messenger.Prelude.{
  subst, Option, ℕ, ◌+◌, ◌-◌, ◌≤◌, ◌≡◌, refl, some, none, List, ◌++◌, arith, length, take,
  replicate, ◌==◌, if◌then◌else◌, false, length-replicate, length-append, length-take,
  take-take_append, ap, sym, ◌∙◌,
}
use simple_messenger.Message.{
  zero_envelope, set_message_type, Envelope, MessageType, ClientInfo, UserCredentials, AuthResponse,
  get_message_type, meta_size, payload_capacity,
}
use simple_messenger.Psql.Defs.{handle_auth_req, Libpq, PsqlManager}
use simple_messenger.Client.Defs.{create_text_envelope, create_auth_envelope}
use mathlib.Core.Option
use simple_messenger.Memory.{c_string, read_from, Layout}
use simple_messenger.Message.Struct.{envelope_bytes, IsMeta}
use simple_messenger.Message.Payload.{get_payload, set_payload, get_payload-set_payload}
use simple_messenger.Message.Layouts.{credentials_layout, response_layout, IsCredentials}
use simple_messenger.Psql.Lookup.{AnswersSelect, WorksIfUp, IsPlain, handle_service}
use simple_messenger.Server.Login.{or_else, logged_in, FitsUserId, authentify_client_sized}

-- An envelope of which the metadata and `k` bytes of the payload have come.
abbrev pub cut_at : ℕ → Envelope → Envelope
cut_at k env = record env { payload = take k env.payload ++ replicate (payload_capacity - k) 0 }

read_from-le : (src : List ℕ) (n : ℕ) → n ≤ length src → read_from src n ≡ some (take n src)
unfolding read_from
read_from-le src n h = ground arith

-- An object that lies before the cut is read as it was.
get_payload-cut :
    {A : Type 0} (T : Layout A) (env : Envelope) (message : A) (k : ℕ)
    → length env.payload ≡ payload_capacity
    → k ≤ payload_capacity
    → T.sizeof ≤ k
    → get_payload T env ≡ some message
    → get_payload T (cut_at k env) ≡ some message
unfolding get_payload
get_payload-cut T env message k sized le before read =
    let zeros : List ℕ = replicate (payload_capacity - k) 0 in
    let longer : T.sizeof ≤ length (take k env.payload ++ zeros) =
      omega (
        arith,
        length-append (take k env.payload) zeros,
        length-take k env.payload (omega arith),
      ) in
    let same = take-take_append T.sizeof k env.payload zeros before (omega arith) in
    ap (Option.map T.of_bytes) (
      read_from-le (take k env.payload ++ zeros) T.sizeof longer
      ∙ ap some same
      ∙ sym (read_from-le env.payload T.sizeof (omega arith)))
    ∙ read

IsMeta-auth : IsMeta create_auth_envelope.meta_data
unfolding create_auth_envelope create_text_envelope set_message_type
IsMeta-auth = record {
  payload_size_fits = omega arith;
  total_size_fits = omega arith;
  is_message_type = tt;
  timestamp_fits = omega arith;
  is_data_type = tt;
  sender_fits = omega arith;
  recepient_fits = omega arith;
}

IsMeta-notification : IsMeta (set_message_type zero_envelope MessageType.service_message).meta_data
unfolding set_message_type
IsMeta-notification = record {
  payload_size_fits = omega arith;
  total_size_fits = omega arith;
  is_message_type = tt;
  timestamp_fits = omega arith;
  is_data_type = tt;
  sender_fits = omega arith;
  recepient_fits = omega arith;
}

length-auth_payload : length create_auth_envelope.payload ≡ payload_capacity
unfolding create_auth_envelope create_text_envelope set_message_type
length-auth_payload = length-replicate {A = ℕ} payload_capacity 0

is_service :
    (env : Envelope)
    → env.meta_data ≡ create_auth_envelope.meta_data
    → get_message_type env ≡ MessageType.service_message
unfolding create_auth_envelope create_text_envelope set_message_type get_message_type
is_service env e = ap (λ m. m.header.message_type) e

auth_response-none : (a : Option ℕ) → a ≡ none → (auth_response a).is_accepted ≡ 0
unfolding auth_response
auth_response-none a e = rw e

auth_response-some :
    (a : Option ℕ) (id : ℕ)
    → a ≡ some id
    → ((auth_response a).is_accepted ≡ 1) × ((auth_response a).user_id ≡ id)
unfolding auth_response
auth_response-some a id e = rw e (refl, refl)

module _ (L : Libpq) (S : AnswersSelect L) where
  -- What the server makes of a request of which enough has come.
  request_lem :
      (m : PsqlManager L) (socket_id handle k : ℕ) (creds : UserCredentials)
      (email password : List ℕ)
      → WorksIfUp L S m
      → IsCredentials creds
      → c_string creds.email ≡ some email
      → c_string creds.password ≡ some password
      → IsPlain email
      → IsPlain password
      → (handle == 0) ≡ false
      → credentials_layout.sizeof ≤ k
      → k ≤ payload_capacity
      → (req : Envelope) × (set_payload credentials_layout create_auth_envelope creds ≡ some req)
        × (receive_tcp socket_id
              (arrived_on handle (take (meta_size + k) (envelope_bytes req)))
              handle
            ≡ some (cut_at k req))
        × (handle_auth_req L m (cut_at k req)
            ≡ some
                (if m.is_connected then S.registered m.pg_connection email password else none, m))
  request_lem m socket_id handle k creds e p up valid he hp pe pp nonzero most le =
      let (req, stored, read, meta, size) =
        get_payload-set_payload credentials_layout create_auth_envelope creds valid
          (omega (arith, length-auth_payload)) in
      let sized = size ∙ length-auth_payload in
      (
        req,
        stored,
        receive_tcp_lem socket_id handle k req nonzero (subst IsMeta (sym meta) IsMeta-auth) sized
            le,
        handle_service L S m (cut_at k req) creds e p up (is_service (cut_at k req) meta)
            (get_payload-cut credentials_layout req creds k sized le most read) he hp pe pp,
      )

  -- Credentials in printable ASCII without a quote travel in a service message over TCP, and the
  -- answer comes back: the client is told 1 and the id of its row if the database is connected and has a
  -- row with them, and 0 otherwise. The server then finds the client under this id,
  -- unless one that logged in before with it, and others as before. This holds where `recv` has
  -- delivered the metadata and at least 512 bytes of the payload of the request, and the metadata and
  -- at least 16 bytes of the answer. The handle of the connection and the socket of the client
  -- are not 0, the id fits 64 bits, and a manager that is connected has a connection that works.
  pub tcp_login_round_trip :
      (e : ServerTcpEndpoint) (m : PsqlManager L) (client_info : ClientInfo)
      (client_socket sock_id k j : ℕ) (creds : UserCredentials) (email password : List ℕ)
      → WorksIfUp L S m
      → IsCredentials creds
      → c_string creds.email ≡ some email
      → c_string creds.password ≡ some password
      → IsPlain email
      → IsPlain password
      → (sock_id == 0) ≡ false
      → (client_socket == 0) ≡ false
      → credentials_layout.sizeof ≤ k
      → k ≤ payload_capacity
      → response_layout.sizeof ≤ j
      → j ≤ payload_capacity
      → let found = if m.is_connected then S.registered m.pg_connection email password else none in
        FitsUserId found
        → (req : Envelope) × (sent : Sent) × (e' : ServerTcpEndpoint) × (reply : Envelope)
          × (response : AuthResponse) × (set_payload credentials_layout create_auth_envelope creds
              ≡ some req)
          × (authentify_over_tcp L e m client_info sock_id
                (arrived_on sock_id (take (meta_size + k) (envelope_bytes req)))
              ≡ some (sent, e', m))
          × (sent.handle ≡ sock_id)
          × (receive_tcp client_socket
                (arrived_on client_socket (take (meta_size + j) (sent_bytes sent)))
                0
              ≡ some reply)
          × (get_payload response_layout reply ≡ some response)
          × (found ≡ none → response.is_accepted ≡ 0)
          × ((id : ℕ) → found ≡ some id → (response.is_accepted ≡ 1) × (response.user_id ≡ id))
          × ((u : ℕ)
              → find_online_client e'.client_info_storage u
                ≡ or_else
                    (find_online_client e.client_info_storage u)
                    (logged_in found client_info u))
  unfolding Option.bind authentify_over_tcp sent_bytes send_tcp
  tcp_login_round_trip e m client_info client_socket sock_id k j creds email password up valid he hp
        pe pp server_handle client_handle most le most' le' fits =
      let found = if m.is_connected then S.registered m.pg_connection email password else none in
      let (req, stored, received, asked) =
        request_lem m e.socket_id sock_id k creds email password up valid he hp pe pp server_handle
          most le in
      let (env, e', done, answer, size, meta, _, online) =
        authentify_client_sized L e m m client_info sock_id (cut_at k req) found asked fits in
      (
        req,
        send_tcp e env sock_id,
        e',
        cut_at j env,
        auth_response found,
        stored,
        rw received done,
        rw server_handle refl,
        receive_own client_socket _
            ∙ receive_tcp_lem client_socket client_socket j env client_handle
                (subst IsMeta (sym meta) IsMeta-notification) size le',
        get_payload-cut response_layout env (auth_response found) j size le' most' answer,
        auth_response-none found,
        auth_response-some found,
        online,
      )
