-- ===== src/Psql/Table.antt =====
-- An example of libpq: a table given by the statements that find a row, and their ids.
use simple_messenger.Prelude.{
  ℕ, ◌^◌, Bool-cases, inl, inr, ◌<◌, ◌≡◌, refl, Option, none, some, true, List, [], ◌∷◌, ◌++◌,
  arith, replicate, codes, bytes_eq, if◌then◌else◌,
}
use simple_messenger.Decimal.{to_string}
use simple_messenger.Message.{UserCredentials}
use simple_messenger.Psql.Defs.{Libpq, ExecStatus, PsqlManager, select_req}
use simple_messenger.Psql.Lookup.{AnswersSelect}

unfoldable pub find_row : List ℕ → List (List ℕ × ℕ) → Option ℕ
find_row q [] = none
find_row q ((k, id) ∷ rows) = if bytes_eq k q then some id else find_row q rows

abbrev pub row_count : Option ℕ → ℕ
row_count none = 0
row_count (some id) = 1

unfoldable pub row_text : Option ℕ → List ℕ
row_text none = []
row_text (some id) = to_string id

-- The table is the list of the statements that find a row.
abbrev pub table_libpq : Libpq
table_libpq = record {
  Connection = List (List ℕ × ℕ);
  Result = Option ℕ;
  connect_db = λ _. [];
  status_is_ok = λ _. true;
  exec = λ c q. (c, find_row q c);
  result_status = λ _. ExecStatus.tuples_ok;
  ntuples = row_count;
  get_value = λ r _ _. row_text r;
  finish = λ c. c;
}

pub no_row_counted : (o : Option ℕ) → o ≡ none → row_count o ≡ 0
no_row_counted o e = rw e

pub row_counted :
    (o : Option ℕ) (id : ℕ) → o ≡ some id → (0 < row_count o) × (row_text o ≡ to_string id)
unfolding row_text
row_counted o id e = rw e (omega arith, refl)

-- The ids of the rows are those of a `SERIAL` column.
abbrev pub SmallIds : List (List ℕ × ℕ) → Type 0
SmallIds [] = Unit
SmallIds ((k, id) ∷ rows) = (id < 2 ^ 31) × SmallIds rows

pub find_row-small :
    (q : List ℕ) (rows : List (List ℕ × ℕ)) (id : ℕ)
    → SmallIds rows
    → find_row q rows ≡ some id
    → id < 2 ^ 31
unfolding find_row
find_row-small q [] id small e = cc
find_row-small q ((k, i) ∷ rows) id (fits, small) e = elim (Bool-cases (bytes_eq k q)) [
  | inl here ↦ ground (arith, here)
  | inr there ↦ find_row-small q rows id small (ground (arith, there))
]

abbrev pub table_answers : AnswersSelect table_libpq
table_answers = record {
  Works = SmallIds;
  registered = λ c email password. find_row (select_req email password) c;
  unchanged = λ c email password _ _ _. refl;
  accepted = λ c email password _ _ _. refl;
  no_row = λ c email password _ _ _ e. no_row_counted (find_row (select_req email password) c) e;
  row = λ c email password id w _ _ e.
      let (rows, text) = row_counted (find_row (select_req email password) c) id e in
      (rows, text, find_row-small (select_req email password) c id w e);
}

abbrev pub email : List ℕ
email = codes "u@m"

abbrev pub password : List ℕ
password = codes "pw"

abbrev pub connected : PsqlManager table_libpq
connected = record { pg_connection = (select_req email password, 5) ∷ []; is_connected = true }

abbrev pub creds : UserCredentials
creds = record {
  email = email ++ (0 ∷ replicate 252 0);
  password = password ++ (0 ∷ replicate 253 0);
}
