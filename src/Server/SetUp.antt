-- ===== src/Server/SetUp.antt =====
-- What the constructor of server_app/server_manager/ServerManager.cpp does with the database.
use simple_messenger.Prelude.{
  true, ℕ, ◌≡◌, inl, inr, refl, ◌∙◌, false, List, codes, bytes_eq, arith, if◌then◌else◌,
}
use simple_messenger.Psql.Defs.{
  Libpq, PsqlManager, connection_string, try_connect, create_users_table_if_not_exist,
  register_new_user,
}
use simple_messenger.Psql.Lookup.{AnswersSelect, IsPlain}
use simple_messenger.Psql.Register.{
  HasTable, StoresUser, IsStored, IsOpen, register_new_user_lem, register_new_user_others,
}

abbrev pub user1_email : List ℕ
user1_email = codes "user1@mail.com"

abbrev pub user1_password : List ℕ
user1_password = codes "user1_pass"

abbrev pub user2_email : List ℕ
user2_email = codes "user2@mail.com"

abbrev pub user2_password : List ℕ
user2_password = codes "user2_pass"

unfoldable pub server_connection : List ℕ
unfolding connection_string
server_connection =
    connection_string (codes "postgres") (codes "admin") (codes "11.0.0.3") (codes "5432")

module _ (L : Libpq) where
  unfoldable pub register_predefined : PsqlManager L → PsqlManager L
  register_predefined m =
      let m₁ = (create_users_table_if_not_exist L m).1 in
      let m₂ = (register_new_user L m₁ (codes "user1") user1_password user1_email).1 in
      (register_new_user L m₂ (codes "user2") user2_password user2_email).1

  -- The constructor, for the database. What each call returns is not looked at.
  unfoldable pub set_up : PsqlManager L → PsqlManager L
  set_up psql_db =
      let (_, m) =
        try_connect L psql_db (codes "postgres") (codes "admin") (codes "11.0.0.3")
          (codes "5432") in
      if m.is_connected then register_predefined m else m

module _ (L : Libpq) (S : AnswersSelect L) (T : HasTable L S)
    (user1 : StoresUser L S T (codes "user1") user1_password user1_email)
    (user2 : StoresUser L S T (codes "user2") user2_password user2_email) where
  IsOpen-same :
      (c c' : L.Connection) (email password : List ℕ)
      → S.registered c' email password ≡ S.registered c email password
      → T.email_id c' email ≡ T.email_id c email
      → IsOpen L S T c email password
      → IsOpen L S T c' email password
  IsOpen-same c c' email password rows emails (inl free) = inl (emails ∙ free)
  IsOpen-same c c' email password rows emails (inr (id, stored)) =
      inr (id, record { found = rows ∙ stored.found; by_email = emails ∙ stored.by_email })

  register_predefined_lem :
      (m : PsqlManager L)
      → S.Works m.pg_connection
      → IsOpen L S T m.pg_connection user1_email user1_password
      → IsOpen L S T m.pg_connection user2_email user2_password
      → let m' = register_predefined L m in
        (id1 id2 : ℕ) × IsStored L S T m'.pg_connection user1_email user1_password id1
        × IsStored L S T m'.pg_connection user2_email user2_password id2
        × ((e p : List ℕ)
            → IsPlain e
            → IsPlain p
            → bytes_eq e user1_email ≡ false
            → bytes_eq e user2_email ≡ false
            → S.registered m'.pg_connection e p ≡ S.registered m.pg_connection e p)
        × (m'.is_connected ≡ m.is_connected)
        × S.Works m'.pg_connection
  unfolding register_predefined create_users_table_if_not_exist bytes_eq
  register_predefined_lem m w open1 open2 =
      let m₁ = (create_users_table_if_not_exist L m).1 in
      let c₁ = m₁.pg_connection in
      let w₁ = T.works_kept m.pg_connection w in
      let m₂ = (register_new_user L m₁ (codes "user1") user1_password user1_email).1 in
      let now1 =
        IsOpen-same m.pg_connection c₁ user1_email user1_password
          (T.rows_kept m.pg_connection user1_email user1_password w)
          (T.emails_kept m.pg_connection user1_email w) open1 in
      let now2 =
        IsOpen-same m.pg_connection c₁ user2_email user2_password
          (T.rows_kept m.pg_connection user2_email user2_password w)
          (T.emails_kept m.pg_connection user2_email w) open2 in
      let (id1, stored1, _, up1, w₂) =
        register_new_user_lem L S T m₁ (codes "user1") user1_password user1_email w₁ user1 now1 in
      let (rows2, emails2) =
        register_new_user_others L S T m₁ (codes "user1") user1_password user1_email user2_email
          user2_password w₁ user1 (omega arith) (omega arith) refl in
      let (id2, stored2, _, up2, w₃) =
        register_new_user_lem L S T m₂ (codes "user2") user2_password user2_email w₂ user2
          (IsOpen-same c₁ m₂.pg_connection user2_email user2_password rows2 emails2 now2) in
      let (rows1, emails1) =
        register_new_user_others L S T m₂ (codes "user2") user2_password user2_email user1_email
          user1_password w₂ user2 (omega arith) (omega arith) refl in
      (
        id1,
        id2,
        record { found = rows1 ∙ stored1.found; by_email = emails1 ∙ stored1.by_email },
        stored2,
        λ e p pe pp ne1 ne2.
            (register_new_user_others L S T m₂ (codes "user2") user2_password user2_email e p w₂
              user2 pe pp ne2).0
            ∙ (register_new_user_others L S T m₁ (codes "user1") user1_password user1_email e p w₁
                user1 pe pp ne1).0
            ∙ T.rows_kept m.pg_connection e p w,
        up2 ∙ up1,
        w₃,
      )

  -- The constructor, where the database can be reached, its connection works, and each of the two predefined e-mail addresses
  -- is free or has the predefined password already: afterwards the manager is connected, both users
  -- can be found with their passwords, and what is found for any other e-mail address is as before.
  -- The next start finds the database so again. The texts are in printable ASCII without a quote.
  pub predefined_users :
      (m : PsqlManager L)
      → L.status_is_ok (L.connect_db server_connection) ≡ true
      → S.Works (L.connect_db server_connection)
      → IsOpen L S T (L.connect_db server_connection) user1_email user1_password
      → IsOpen L S T (L.connect_db server_connection) user2_email user2_password
      → let m' = set_up L m in
        (id1 id2 : ℕ) × IsStored L S T m'.pg_connection user1_email user1_password id1
        × IsStored L S T m'.pg_connection user2_email user2_password id2
        × ((e p : List ℕ)
            → IsPlain e
            → IsPlain p
            → bytes_eq e user1_email ≡ false
            → bytes_eq e user2_email ≡ false
            → S.registered m'.pg_connection e p ≡ S.registered (L.connect_db server_connection) e p)
        × (m'.is_connected ≡ true)
        × S.Works m'.pg_connection
  unfolding set_up try_connect server_connection
  predefined_users m up w open1 open2 = rw up (
      register_predefined_lem
        (record { pg_connection = L.connect_db server_connection; is_connected = true }) w open1
        open2)

-- Where the database cannot be reached, the manager is not connected, and no query is sent.
pub set_up_disconnected :
    (L : Libpq) (m : PsqlManager L)
    → L.status_is_ok (L.connect_db server_connection) ≡ false
    → set_up L m
      ≡ record { pg_connection = L.finish (L.connect_db server_connection); is_connected = false }
unfolding set_up try_connect server_connection
set_up_disconnected L m down = rw down
