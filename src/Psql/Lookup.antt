-- ===== src/Psql/Lookup.antt =====
-- What the authentification answers, given what libpq documents of a `SELECT`.
use simple_messenger.Prelude.{
  ℕ, ◌^◌, true, ◌≤◌, ◌<◌, ◌≡◌, ◌≢◌, Option, none, some, List, [], ◌∷◌, arith, Option-cases,
  Bool-cases, inl, inr, if◌then◌else◌,
}
use simple_messenger.Memory.{c_string}
use simple_messenger.Decimal.{to_string, atoi-to_string}
use simple_messenger.Message.{Envelope, MessageType, UserCredentials, get_message_type}
use simple_messenger.Message.Payload.{get_payload}
use simple_messenger.Message.Layouts.{credentials_layout}
use simple_messenger.Psql.Defs.{
  Libpq, ExecStatus, PsqlManager, select_req, quote, find_user, find_user_by_creds,
  check_if_registered, handle_auth_req,
}

-- Printable ASCII with no quote: such a text stands for itself between quotes.
abbrev pub IsPlain : List ℕ → Type 0
IsPlain [] = Unit
IsPlain (c ∷ cs) = ((32 ≤ c) × (c < 127) × (c ≢ quote)) × IsPlain cs

-- The server answers the `SELECT` of `findUserByCreds` from its table, and changes nothing, over a
-- connection that works. `registered` is the id of the row with these credentials; the column is a
-- `SERIAL`, so the id is positive as a 32-bit `int`.
pub record AnswersSelect (L : Libpq) : Type 1 where
  pub Works : L.Connection → Type 0
  pub registered : L.Connection → List ℕ → List ℕ → Option ℕ
  pub unchanged :
      (c : L.Connection) (email password : List ℕ)
      → Works c
      → IsPlain email
      → IsPlain password
      → (L.exec c (select_req email password)).0 ≡ c
  pub accepted :
      (c : L.Connection) (email password : List ℕ)
      → Works c
      → IsPlain email
      → IsPlain password
      → L.result_status (L.exec c (select_req email password)).1 ≡ ExecStatus.tuples_ok
  pub no_row :
      (c : L.Connection) (email password : List ℕ)
      → Works c
      → IsPlain email
      → IsPlain password
      → registered c email password ≡ none
      → L.ntuples (L.exec c (select_req email password)).1 ≡ 0
  pub row :
      (c : L.Connection) (email password : List ℕ) (id : ℕ)
      → Works c
      → IsPlain email
      → IsPlain password
      → registered c email password ≡ some id
      → (0 < L.ntuples (L.exec c (select_req email password)).1)
        × (L.get_value (L.exec c (select_req email password)).1 0 0 ≡ to_string id)
        × (id < 2 ^ 31)

module _ (L : Libpq) (S : AnswersSelect L) where
  open S use {registered, Works}

  -- As long as the manager is connected its connection works.
  abbrev pub WorksIfUp : PsqlManager L → Type 0
  WorksIfUp m = m.is_connected ≡ true → Works m.pg_connection

  find_user_lem :
      (m : PsqlManager L) (email password : List ℕ)
      → Works m.pg_connection
      → IsPlain email
      → IsPlain password
      → find_user L m email password ≡ (registered m.pg_connection email password, m)
  unfolding find_user
  find_user_lem m e p w pe pp = elim (Option-cases (registered m.pg_connection e p)) [
    | inl missing ↦ rw (
      S.accepted m.pg_connection e p w pe pp,
      S.unchanged m.pg_connection e p w pe pp,
      S.no_row m.pg_connection e p w pe pp missing,
      missing,
    )
    | inr (id, found) ↦
        let (rows, value, fits) = S.row m.pg_connection e p id w pe pp found in
        rw
          (
            S.accepted m.pg_connection e p w pe pp,
            S.unchanged m.pg_connection e p w pe pp,
            value,
            atoi-to_string id fits,
            found,
          )
          (ground arith)
  ]

  -- While the database is connected, `checkIfRegistered` answers the id of the row with these
  -- credentials, and nothing if there is no such row; without a connection it answers nothing. The
  -- manager stays as it was. A manager that is connected has a connection that works.
  pub check_if_registered_lem :
      (m : PsqlManager L) (creds : UserCredentials) (email password : List ℕ)
      → WorksIfUp m
      → c_string creds.email ≡ some email
      → c_string creds.password ≡ some password
      → IsPlain email
      → IsPlain password
      → check_if_registered L m creds
        ≡ some (if m.is_connected then registered m.pg_connection email password else none, m)
  unfolding check_if_registered find_user_by_creds
  check_if_registered_lem m creds e p up he hp pe pp = elim (Bool-cases m.is_connected) [
    | inl on ↦ simp (on, he, hp, find_user_lem m e p (up on) pe pp)
    | inr down ↦ rw down
  ]

  -- A service message from which credentials can be read.
  pub handle_service :
      (m : PsqlManager L) (env : Envelope) (creds : UserCredentials) (email password : List ℕ)
      → WorksIfUp m
      → get_message_type env ≡ MessageType.service_message
      → get_payload credentials_layout env ≡ some creds
      → c_string creds.email ≡ some email
      → c_string creds.password ≡ some password
      → IsPlain email
      → IsPlain password
      → handle_auth_req L m env
        ≡ some (if m.is_connected then registered m.pg_connection email password else none, m)
  unfolding handle_auth_req
  handle_service m env creds e p up service read he hp pe pp =
      simp (service, read, he, hp) (check_if_registered_lem m creds e p up he hp pe pp)
