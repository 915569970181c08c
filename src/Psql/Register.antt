-- ===== src/Psql/Register.antt =====
-- What `createUsersTableIfNotExist` and `registerNewUser` leave in the database, given what
-- PostgreSQL documents of their statements over a connection that works.
use simple_messenger.Prelude.{
  ℕ, ◌^◌, ◌<◌, ◌≡◌, ◌⊎◌, inl, inr, refl, false, ◌∙◌, Option, none, some, List, bytes_eq,
}
use simple_messenger.Decimal.{to_string, atoi-to_string}
use simple_messenger.Psql.Defs.{
  Libpq, ExecStatus, PsqlManager, is_tuples_ok, create_table_sql, insert_req, register_new_user,
}
use simple_messenger.Psql.Lookup.{AnswersSelect, IsPlain}

-- `email_id` is the id of the row with an e-mail address. `CREATE TABLE IF NOT EXISTS` leaves a table
-- that is there as it is, and no row is found before the table is there.
pub record HasTable (L : Libpq) (S : AnswersSelect L) : Type 0 where
  pub email_id : L.Connection → List ℕ → Option ℕ
  pub works_kept : (c : L.Connection) → S.Works c → S.Works (L.exec c create_table_sql).0
  pub rows_kept :
      (c : L.Connection) (email password : List ℕ)
      → S.Works c
      → S.registered (L.exec c create_table_sql).0 email password ≡ S.registered c email password
  pub emails_kept :
      (c : L.Connection) (email : List ℕ)
      → S.Works c
      → email_id (L.exec c create_table_sql).0 email ≡ email_id c email

-- The `INSERT` of one user: a row with a new id if the e-mail address is new, an error that changes
-- nothing if it is taken, since the column is `UNIQUE`, and in both cases no other address is touched.
pub record StoresUser (L : Libpq) (S : AnswersSelect L) (T : HasTable L S)
    (name password email : List ℕ) : Type 0 where
  pub still_works :
      (c : L.Connection) → S.Works c → S.Works (L.exec c (insert_req name password email)).0
  pub fresh :
      (c : L.Connection)
      → S.Works c
      → T.email_id c email ≡ none
      → let r = L.exec c (insert_req name password email) in
        (id : ℕ) × (L.result_status r.1 ≡ ExecStatus.tuples_ok)
        × (L.get_value r.1 0 0 ≡ to_string id)
        × (id < 2 ^ 31)
        × (S.registered r.0 email password ≡ some id)
        × (T.email_id r.0 email ≡ some id)
  pub taken :
      (c : L.Connection) (id : ℕ)
      → S.Works c
      → T.email_id c email ≡ some id
      → let r = L.exec c (insert_req name password email) in
        (is_tuples_ok (L.result_status r.1) ≡ false)
        × (S.registered r.0 email password ≡ S.registered c email password)
        × (T.email_id r.0 email ≡ some id)
  pub others :
      (c : L.Connection) (e p : List ℕ)
      → S.Works c
      → IsPlain e
      → IsPlain p
      → bytes_eq e email ≡ false
      → let r = L.exec c (insert_req name password email) in
        (S.registered r.0 e p ≡ S.registered c e p) × (T.email_id r.0 e ≡ T.email_id c e)

module _ (L : Libpq) (S : AnswersSelect L) (T : HasTable L S) where
  -- The user is there with this password.
  pub record IsStored (c : L.Connection) (email password : List ℕ) (id : ℕ) : Type 0 where
    pub found : S.registered c email password ≡ some id
    pub by_email : T.email_id c email ≡ some id

  -- The e-mail address is free, or the user is there already.
  abbrev pub IsOpen : L.Connection → List ℕ → List ℕ → Type 0
  IsOpen c email password = (T.email_id c email ≡ none) ⊎ ((id : ℕ) × IsStored c email password id)

  -- After `registerNewUser` the user is there, with the id that it returns if the user is new; it
  -- returns nothing if the user was there before.
  pub register_new_user_lem :
      (m : PsqlManager L) (name password email : List ℕ)
      → S.Works m.pg_connection
      → StoresUser L S T name password email
      → IsOpen m.pg_connection email password
      → let r = register_new_user L m name password email in
        (id : ℕ) × IsStored r.1.pg_connection email password id
        × ((r.0 ≡ some id) ⊎ ((r.0 ≡ none) × IsStored m.pg_connection email password id))
        × (r.1.is_connected ≡ m.is_connected)
        × S.Works r.1.pg_connection
  unfolding register_new_user
  register_new_user_lem m name password email w U (inl free) =
      let (id, status, value, fits, found, by_email) = U.fresh m.pg_connection w free in
      (
        id,
        record { found = found; by_email = by_email },
        inl (rw (status, value, atoi-to_string id fits)),
        refl,
        U.still_works m.pg_connection w,
      )
  register_new_user_lem m name password email w U (inr (id, stored)) =
      let (status, found, by_email) = U.taken m.pg_connection id w stored.by_email in
      (
        id,
        record { found = found ∙ stored.found; by_email = by_email },
        inr (rw status, stored),
        refl,
        U.still_works m.pg_connection w,
      )

  -- Other users stay as they were.
  pub register_new_user_others :
      (m : PsqlManager L) (name password email e p : List ℕ)
      → S.Works m.pg_connection
      → StoresUser L S T name password email
      → IsPlain e
      → IsPlain p
      → bytes_eq e email ≡ false
      → let c = (register_new_user L m name password email).1.pg_connection in
        (S.registered c e p ≡ S.registered m.pg_connection e p)
        × (T.email_id c e ≡ T.email_id m.pg_connection e)
  unfolding register_new_user
  register_new_user_others m name password email e p w U pe pp other =
      U.others m.pg_connection e p w pe pp other
