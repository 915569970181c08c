-- ===== src/Client/Start.antt =====
-- The start of `main` and `grpc_client` in client_app/client_app_main.cpp, with the predefined users.
use simple_messenger.Prelude.{
  ℕ, ◌-◌, ◌≡◌, refl, ap, ◌∙◌, true, false, Option, none, some, List, [], ◌∷◌, ◌++◌, codes, length,
  get_elem?, replicate, arith, if◌then◌else◌,
}
use mathlib.Core.Option
use simple_messenger.Memory.{c_string, c_string-NoNul}
use simple_messenger.Server.SetUp.{user1_email, user1_password, user2_email, user2_password}
use simple_messenger.Decimal.{atoi}
use simple_messenger.Message.{Envelope, UserCredentials, credential_capacity}
use simple_messenger.Psql.Defs.{Libpq, PsqlManager}
use simple_messenger.Psql.Lookup.{AnswersSelect, WorksIfUp, IsPlain}
use simple_messenger.GrpcServer.Defs.{GrpcEndpointServer, PostBoxCell, admit, add_user_to_connected}
use simple_messenger.GrpcServer.Login.{accept_connection_found}
use simple_messenger.Client.Defs.{
  GrpcEndpointClient, Connected, answered, connected, connect_to_server, proto_user_creds,
}

-- An array of 256 `char` that is initialized by a literal.
unfoldable pub char_array : List ℕ → List ℕ
char_array text = text ++ (0 ∷ replicate (credential_capacity - 1 - length text) 0)

abbrev pub user3_email : List ℕ
user3_email = codes "user3@mail.com"

abbrev pub user3_password : List ℕ
user3_password = codes "user3_pass"

abbrev creds_of : List ℕ → List ℕ → UserCredentials
creds_of email password = record { email = char_array email; password = char_array password }

unfoldable pub user_cred : List UserCredentials
user_cred =
    creds_of user1_email user1_password
    ∷ creds_of user2_email user2_password
    ∷ creds_of user3_email user3_password
    ∷ []

abbrev pub new_client : GrpcEndpointClient
new_client = record { user_name = codes "adsfadsf"; user_id = 0 }

-- What `connectToServer` makes of the row that the database has, or has not.
unfoldable pub outcome :
    (storage : List Envelope) (L : Libpq)
    → GrpcEndpointClient
    → GrpcEndpointServer
    → PsqlManager L
    → PostBoxCell
    → Option ℕ
    → Connected storage L
outcome storage L c s m raw none = record { admitted = false; client = c; server = s; psql = m }
outcome storage L c s m raw (some id) = record {
  admitted = true;
  client = record c { user_id = id };
  server = add_user_to_connected storage s raw id;
  psql = m;
}

module _ (storage : List Envelope) (L : Libpq) where
  -- `grpc_client` up to the test of `is_connected`. `none` is also a read outside `user_cred`: the
  -- number is an `int` that nothing checks, and stands here by its 64-bit pattern.
  unfoldable pub grpc_client :
      GrpcEndpointServer → PsqlManager L → PostBoxCell → ℕ → Option (Connected storage L)
  unfolding Option.bind
  grpc_client s m raw user_num =
      Option.bind (get_elem? user_cred user_num) (connect_to_server storage L new_client s m raw)

  -- `main`, on the arguments behind the name of the program. `none` inside is a wrong number of them.
  unfoldable pub main :
      GrpcEndpointServer
      → PsqlManager L
      → PostBoxCell
      → List (List ℕ)
      → Option (Option (Connected storage L))
  main s m raw (ip ∷ user_num ∷ []) = Option.map some (grpc_client s m raw (atoi user_num))
  main s m raw _ = some none

  answered-admit :
      (c : GrpcEndpointClient) (s : GrpcEndpointServer) (m : PsqlManager L) (raw : PostBoxCell)
      (found : Option ℕ)
      → answered storage L c (admit storage L s raw (found, m)) ≡ outcome storage L c s m raw found
  unfolding answered admit connected outcome
  answered-admit c s m raw none = refl
  answered-admit c s m raw (some id) = refl

  module _ (S : AnswersSelect L) where
    -- Credentials in printable ASCII without a quote, in arrays of 256 bytes: `connectToServer`
    -- returns `true` exactly if the database is connected and has a row with them; then the client
    -- has the id of that row and is online at the server, and otherwise neither changes. A manager that
    -- is connected has a connection that works.
    pub connect_to_server_lem :
        (c : GrpcEndpointClient) (s : GrpcEndpointServer) (m : PsqlManager L) (raw : PostBoxCell)
        (creds : UserCredentials) (email password : List ℕ)
        → WorksIfUp L S m
        → c_string creds.email ≡ some email
        → c_string creds.password ≡ some password
        → length creds.email ≡ credential_capacity
        → length creds.password ≡ credential_capacity
        → IsPlain email
        → IsPlain password
        → connect_to_server storage L c s m raw creds
          ≡ some (
              outcome storage L c s m raw
                (if m.is_connected then S.registered m.pg_connection email password else none))
    unfolding Option.bind connect_to_server proto_user_creds
    connect_to_server_lem c s m raw creds email password up he hp le lp pe pp =
        let (_, short) = c_string-NoNul creds.email email he in
        let (_, short') = c_string-NoNul creds.password password hp in
        let found : Option ℕ =
          if m.is_connected then S.registered m.pg_connection email password else none in
        let accepted =
          accept_connection_found storage L S s m raw
            (record { email = email; password = password }) up pe pp (omega arith) (omega arith) in
        rw (he, hp)
          (ap (λ a. Option.map (answered storage L c) a) accepted
            ∙ ap some (answered-admit c s m raw found))
