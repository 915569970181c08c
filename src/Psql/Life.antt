-- ===== src/Psql/Life.antt =====
-- The connection of PsqlManager at the end of its life.
use simple_messenger.Prelude.{ℕ, ◌≡◌, refl, true, List, Bool-cases, inl, inr}
use simple_messenger.Psql.Defs.{
  Libpq, PsqlManager, connection_string, try_connect, close_connection, destroy,
}

module _ (L : Libpq) where
  -- A manager that has tried to connect, with success or without, and is destroyed then, has finished
  -- its connection once.
  pub destroy-try_connect :
      (m : PsqlManager L) (username password hostaddr port : List ℕ)
      → (destroy L (try_connect L m username password hostaddr port).1).pg_connection
        ≡ L.finish (L.connect_db (connection_string username password hostaddr port))
  unfolding destroy try_connect close_connection
  destroy-try_connect m username password hostaddr port =
      elim (Bool-cases
        (L.status_is_ok (L.connect_db (connection_string username password hostaddr port)))) [
          | inl up ↦ rw up refl
          | inr down ↦ rw down refl
        ]

  -- One whose connection has been closed by `closeConnection` finishes it again.
  pub destroy-close_connection :
      (m : PsqlManager L)
      → m.is_connected ≡ true
      → (destroy L (close_connection L m)).pg_connection ≡ L.finish (L.finish m.pg_connection)
  unfolding destroy close_connection
  destroy-close_connection m up = rw up refl
