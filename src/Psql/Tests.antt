-- ===== src/Psql/Tests.antt =====
-- The authentification on concrete credentials.
use simple_messenger.Prelude.{◌≡◌, refl, some, arith, bytes_eq}
use simple_messenger.Memory.{c_string}
use simple_messenger.Psql.Defs.{select_req, select_middle, select_head, check_if_registered}
use simple_messenger.Psql.Query.{select_req-injective}
use simple_messenger.Psql.Lookup.{check_if_registered_lem}
use simple_messenger.Psql.Table.{
  find_row, table_libpq, table_answers, email, password, connected, creds,
}

select_req-injective_example : (email ≡ email) × (password ≡ password)
select_req-injective_example =
    select_req-injective email password email password (omega arith) (omega arith) (omega arith)
      (omega arith) refl

check_if_registered_example :
    check_if_registered table_libpq connected creds ≡ some (some 5, connected)
unfolding find_row bytes_eq select_req c_string select_head select_middle
check_if_registered_example =
    check_if_registered_lem table_libpq table_answers connected creds email password
      (λ _. (omega arith, tt)) refl refl (omega arith) (omega arith)
