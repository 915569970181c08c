-- ===== src/Psql/Defs.antt =====
-- server_app/psql_manager/PsqlManager.{hpp,cpp} and
-- server_app/authentification_service/AuthentificationService.cpp.
use simple_messenger.Prelude.{
  ℕ, Bool, true, false, not, Option, none, some, List, ◌∷◌, [], ◌++◌, codes, ltb, if◌then◌else◌,
}
use mathlib.Core.Option
use simple_messenger.Memory.{c_string}
use simple_messenger.Decimal.{atoi}
use simple_messenger.Message.{Envelope, MessageType, UserCredentials, get_message_type}
use simple_messenger.Message.Payload.{get_payload}
use simple_messenger.Message.Layouts.{credentials_layout}

pub data ExecStatus : Type 0 where
  command_ok tuples_ok : ExecStatus
  failed : ℕ → ExecStatus

-- The functions of libpq that the code calls. A `Connection` comes with the database behind it.
pub record Libpq : Type 1 where
  pub Connection : Type 0
  pub Result : Type 0
  pub connect_db : List ℕ → Connection
  pub status_is_ok : Connection → Bool
  pub exec : Connection → List ℕ → Connection × Result
  pub result_status : Result → ExecStatus
  pub ntuples : Result → ℕ
  pub get_value : Result → ℕ → ℕ → List ℕ
  pub finish : Connection → Connection

abbrev pub is_tuples_ok : ExecStatus → Bool
is_tuples_ok ExecStatus.tuples_ok = true
is_tuples_ok _ = false

abbrev pub is_command_ok : ExecStatus → Bool
is_command_ok ExecStatus.command_ok = true
is_command_ok _ = false

-- The pieces of the statements that the code writes.
unfoldable pub select_head : List ℕ
select_head = codes "SELECT id FROM users WHERE email='"

unfoldable pub select_middle : List ℕ
select_middle = codes "' AND password='"

unfoldable pub insert_head : List ℕ
insert_head = codes "INSERT INTO users (name, password, email) VALUES ('"

unfoldable pub create_table_sql : List ℕ
create_table_sql =
    codes
      "CREATE TABLE IF NOT EXISTS users (id SERIAL PRIMARY KEY, name VARCHAR(100) NOT NULL, password VARCHAR(50) NOT NULL, email VARCHAR(255) NOT NULL UNIQUE)"

abbrev pub quote : ℕ
quote = 39

unfoldable pub select_req : List ℕ → List ℕ → List ℕ
select_req email password = select_head ++ (email ++ (select_middle ++ (password ++ (quote ∷ []))))

unfoldable pub insert_req : List ℕ → List ℕ → List ℕ → List ℕ
insert_req name password email =
    insert_head
    ++ (name
        ++ (codes "', '" ++ (password ++ (codes "', '" ++ (email ++ codes "') RETURNING id")))))

unfoldable pub connection_string : List ℕ → List ℕ → List ℕ → List ℕ → List ℕ
connection_string username password hostaddr port =
    codes "dbname=postgres user="
    ++ (username
        ++ (codes " password="
            ++ (password ++ (codes " hostaddr=" ++ (hostaddr ++ (codes " port=" ++ port))))))

module _ (L : Libpq) where
  open L use {
    Connection, Result, connect_db, status_is_ok, exec, result_status, ntuples, get_value, finish,
  }

  -- `pg_result` is set by each query; it is not read after a call has returned.
  pub record PsqlManager : Type 0 where
    pub pg_connection : Connection
    pub is_connected : Bool

  unfoldable pub try_connect : PsqlManager → List ℕ → List ℕ → List ℕ → List ℕ → Bool × PsqlManager
  try_connect m username password hostaddr port =
      let c = connect_db (connection_string username password hostaddr port) in
      if not (status_is_ok c)
      then (false, record { pg_connection = finish c; is_connected = false })
      else (true, record { pg_connection = c; is_connected = true })

  unfoldable pub create_users_table_if_not_exist : PsqlManager → Bool × PsqlManager
  create_users_table_if_not_exist m =
      let (c, r) = exec m.pg_connection create_table_sql in
      (is_command_ok (result_status r), record m { pg_connection = c })

  unfoldable pub register_new_user : PsqlManager → List ℕ → List ℕ → List ℕ → Option ℕ × PsqlManager
  register_new_user m name password email =
      let (c, r) = exec m.pg_connection (insert_req name password email) in
      (
        if not (is_tuples_ok (result_status r)) then none else some (atoi (get_value r 0 0)),
        record m { pg_connection = c },
      )

  -- The lookup for the texts of the two credentials.
  unfoldable pub find_user : PsqlManager → List ℕ → List ℕ → Option ℕ × PsqlManager
  find_user m email password =
      let (c, r) = exec m.pg_connection (select_req email password) in
      (
        if not (is_tuples_ok (result_status r))
            then none
            else if ltb (ntuples r) 1
            then none
            else some (atoi (get_value r 0 0)),
        record m { pg_connection = c },
      )

  -- `none` if a credential has no NUL, where `std::string(creds.email)` reads past its array.
  unfoldable pub find_user_by_creds :
      PsqlManager → UserCredentials → Option (Option ℕ × PsqlManager)
  unfolding Option.bind
  find_user_by_creds m creds =
      Option.bind (c_string creds.email)
        (λ email. Option.map (find_user m email) (c_string creds.password))

  unfoldable pub close_connection : PsqlManager → PsqlManager
  close_connection m = record m { pg_connection = finish m.pg_connection }

  -- The destructor. `closeConnection` has left `is_connected` as it was.
  unfoldable pub destroy : PsqlManager → PsqlManager
  destroy m = if m.is_connected then close_connection m else m

  -- `removeUser`, which does nothing yet.
  unfoldable pub remove_user : ℕ → Option ℕ
  remove_user user_id = none

  -- AuthentificationService::checkIfRegistered
  unfoldable pub check_if_registered :
      PsqlManager → UserCredentials → Option (Option ℕ × PsqlManager)
  check_if_registered m creds =
      if not m.is_connected then some (none, m) else find_user_by_creds m creds

  abbrev service_request : MessageType → Bool
  service_request MessageType.service_message = true
  service_request _ = false

  -- AuthentificationService::handleAuthReq. The log line before the lookup reads both credentials
  -- as C strings too.
  unfoldable pub handle_auth_req : PsqlManager → Envelope → Option (Option ℕ × PsqlManager)
  unfolding Option.bind
  handle_auth_req m auth_req_env =
      if service_request (get_message_type auth_req_env)
      then Option.bind (get_payload credentials_layout auth_req_env) (λ credentials.
        Option.bind (c_string credentials.email) (λ _.
          Option.bind (c_string credentials.password) (λ _. check_if_registered m credentials)))
      else some (none, m)
