-- ===== src/Psql/Store.antt =====
-- An example of libpq that stores the two users whom the server registers.
use simple_messenger.Prelude.{
  ℕ, ◌^◌, ◌<◌, ◌≡◌, refl, sym, ap, ◌∙◌, subst, true, false, Option, none, some, List, [], ◌∷◌,
  arith, codes, bytes_eq, bytes_eq_refl, bytes_eq_sound, Bool-cases, inl, inr, if◌then◌else◌,
}
use simple_messenger.Decimal.{to_string}
use simple_messenger.Psql.Defs.{
  Libpq, ExecStatus, select_req, insert_req, create_table_sql, select_head, insert_head,
  is_tuples_ok,
}
use simple_messenger.Psql.Query.{NoQuote, select_req-injective}
use simple_messenger.Psql.Lookup.{AnswersSelect, IsPlain}
use simple_messenger.Psql.Register.{HasTable, StoresUser}
use simple_messenger.Psql.Table.{
  SmallIds, find_row-small, find_row, row_count, row_text, no_row_counted, row_counted,
}

-- The rows, by the statement that finds them and by their e-mail address.
pub record Users : Type 0 where
  pub rows : List (List ℕ × ℕ)
  pub emails : List (List ℕ × ℕ)

pub data Reply : Type 0 where
  created refused : Reply
  inserted : ℕ → Reply
  selected : Option ℕ → Reply

abbrev pub status_of : Reply → ExecStatus
status_of created = ExecStatus.command_ok
status_of refused = ExecStatus.failed 7
status_of (inserted id) = ExecStatus.tuples_ok
status_of (selected o) = ExecStatus.tuples_ok

abbrev pub count_of : Reply → ℕ
count_of (selected o) = row_count o
count_of (inserted id) = 1
count_of _ = 0

abbrev pub text_of : Reply → List ℕ
text_of (selected o) = row_text o
text_of (inserted id) = to_string id
text_of _ = []

-- The new row has the id `new`.
unfoldable pub insert_row : Users → List ℕ → List ℕ → ℕ → Option ℕ → Users × Reply
insert_row u email password new (some id) = (u, refused)
insert_row u email password new none = (
  record { rows = (select_req email password, new) ∷ u.rows; emails = (email, new) ∷ u.emails },
  inserted new,
)

abbrev pub first_insert : List ℕ
first_insert = insert_req (codes "user1") (codes "user1_pass") (codes "user1@mail.com")

abbrev pub second_insert : List ℕ
second_insert = insert_req (codes "user2") (codes "user2_pass") (codes "user2@mail.com")

unfoldable pub run_sql : Users → List ℕ → Users × Reply
run_sql u q =
    if bytes_eq q create_table_sql
    then (u, created)
    else if bytes_eq q first_insert
    then insert_row u (codes "user1@mail.com") (codes "user1_pass") 1
        (find_row (codes "user1@mail.com") u.emails)
    else if bytes_eq q second_insert
    then insert_row u (codes "user2@mail.com") (codes "user2_pass") 2
        (find_row (codes "user2@mail.com") u.emails)
    else (u, selected (find_row q u.rows))

abbrev pub store_libpq : Libpq
store_libpq = record {
  Connection = Users;
  Result = Reply;
  connect_db = λ _. record { rows = []; emails = [] };
  status_is_ok = λ _. true;
  exec = run_sql;
  result_status = status_of;
  ntuples = count_of;
  get_value = λ r _ _. text_of r;
  finish = λ c. c;
}

pub run_select :
    (u : Users) (e p : List ℕ)
    → run_sql u (select_req e p) ≡ (u, selected (find_row (select_req e p) u.rows))
unfolding run_sql bytes_eq select_req select_head insert_req insert_head create_table_sql
run_select u e p = refl

pub run_create : (u : Users) → run_sql u create_table_sql ≡ (u, created)
unfolding run_sql
run_create u = rw (bytes_eq_refl create_table_sql)

run_first :
    (u : Users)
    → run_sql u first_insert
      ≡ insert_row u
          (codes "user1@mail.com")
          (codes "user1_pass")
          1
          (find_row (codes "user1@mail.com") u.emails)
unfolding run_sql bytes_eq insert_req insert_head create_table_sql
run_first u = refl

run_second :
    (u : Users)
    → run_sql u second_insert
      ≡ insert_row u
          (codes "user2@mail.com")
          (codes "user2_pass")
          2
          (find_row (codes "user2@mail.com") u.emails)
unfolding run_sql bytes_eq insert_req insert_head create_table_sql
run_second u = refl

pub row_selected :
    (u : Users) (email password : List ℕ) (id : ℕ)
    → find_row (select_req email password) u.rows ≡ some id
    → (0 < count_of (run_sql u (select_req email password)).1)
      × (text_of (run_sql u (select_req email password)).1 ≡ to_string id)
row_selected u email password id e =
    subst (λ (r : Users × Reply). (0 < count_of r.1) × (text_of r.1 ≡ to_string id))
      (sym (run_select u email password))
      (row_counted (find_row (select_req email password) u.rows) id e)

abbrev pub store_answers : AnswersSelect store_libpq
store_answers = record {
  Works = λ u. SmallIds u.rows;
  registered = λ u email password. find_row (select_req email password) u.rows;
  unchanged = λ u email password _ _ _. ap (λ r. r.0) (run_select u email password);
  accepted = λ u email password _ _ _. ap (λ r. status_of r.1) (run_select u email password);
  no_row = λ u email password _ _ _ e.
      ap (λ r. count_of r.1) (run_select u email password)
      ∙ no_row_counted (find_row (select_req email password) u.rows) e;
  row = λ u email password id w _ _ e.
      let (rows, text) = row_selected u email password id e in
      (rows, text, find_row-small (select_req email password) u.rows id w e);
}

abbrev pub store_table : HasTable store_libpq store_answers
store_table = record {
  email_id = λ u email. find_row email u.emails;
  works_kept = λ u w. subst (λ (r : Users × Reply). SmallIds r.0.rows) (sym (run_create u)) w;
  rows_kept = λ u email password _.
      ap (λ (r : Users × Reply). find_row (select_req email password) r.0.rows) (run_create u);
  emails_kept = λ u email _. ap (λ (r : Users × Reply). find_row email r.0.emails) (run_create u);
}

IsPlain-NoQuote : (text : List ℕ) → IsPlain text → NoQuote text
IsPlain-NoQuote [] p = tt
IsPlain-NoQuote (c ∷ text) p = (p.0.2, IsPlain-NoQuote text p.1)

other_bytes : (e x : List ℕ) → bytes_eq e x ≡ false → bytes_eq x e ≡ false
other_bytes e x h = elim (Bool-cases (bytes_eq x e)) [
  | inr no_match ↦ no_match
  | inl same ↦
      let again : bytes_eq e e ≡ false =
        subst (λ y. bytes_eq e y ≡ false) (bytes_eq_sound x e same) h in
      absurd (cc (bytes_eq_refl e))
]

other_select :
    (e p email password : List ℕ)
    → IsPlain e
    → IsPlain p
    → IsPlain email
    → IsPlain password
    → bytes_eq e email ≡ false
    → bytes_eq (select_req email password) (select_req e p) ≡ false
other_select e p email password pe pp pm pw h =
    elim (Bool-cases (bytes_eq (select_req email password) (select_req e p))) [
      | inr no_match ↦ no_match
      | inl same ↦
          let (emails, _) =
            select_req-injective email password e p (IsPlain-NoQuote email pm)
              (IsPlain-NoQuote e pe) (IsPlain-NoQuote password pw) (IsPlain-NoQuote p pp)
              (bytes_eq_sound _ _ same) in
          let again : bytes_eq e e ≡ false = subst (λ y. bytes_eq e y ≡ false) emails h in
          absurd (cc (bytes_eq_refl e))
    ]

insert_others :
    (u : Users) (email password e p : List ℕ) (new : ℕ) (old : Option ℕ)
    → IsPlain e
    → IsPlain p
    → IsPlain email
    → IsPlain password
    → bytes_eq e email ≡ false
    → let u' = (insert_row u email password new old).0 in
      (find_row (select_req e p) u'.rows ≡ find_row (select_req e p) u.rows)
      × (find_row e u'.emails ≡ find_row e u.emails)
unfolding insert_row find_row
insert_others u email password e p new (some id) pe pp pm pw h = (refl, refl)
insert_others u email password e p new none pe pp pm pw h =
    (rw (other_select e p email password pe pp pm pw h), rw (other_bytes e email h))

insert-SmallIds :
    (u : Users) (email password : List ℕ) (new : ℕ) (old : Option ℕ)
    → new < 2 ^ 31
    → SmallIds u.rows
    → SmallIds (insert_row u email password new old).0.rows
unfolding insert_row
insert-SmallIds u email password new (some id) fits w = w
insert-SmallIds u email password new none fits w = (fits, w)

-- A user whose `INSERT` is answered by `insert_row`.
pub stores_user :
    (name password email : List ℕ) (new : ℕ)
    → new < 2 ^ 31
    → IsPlain email
    → IsPlain password
    → ((u : Users)
        → run_sql u (insert_req name password email)
          ≡ insert_row u email password new (find_row email u.emails))
    → StoresUser store_libpq store_answers store_table name password email
unfolding insert_row find_row
stores_user name password email new small pm pw run = record {
  still_works = λ u w.
      subst (λ (r : Users × Reply). SmallIds r.0.rows) (sym (run u))
        (insert-SmallIds u email password new (find_row email u.emails) small w);
  fresh = λ u _ free.
      let step = run u ∙ ap (insert_row u email password new) free in
      (
        new,
        ap (λ r. status_of r.1) step,
        ap (λ r. text_of r.1) step,
        small,
        ap (λ r. find_row (select_req email password) r.0.rows) step
            ∙ (rw (bytes_eq_refl (select_req email password))),
        ap (λ r. find_row email r.0.emails) step ∙ (rw (bytes_eq_refl email)),
      );
  taken = λ u id _ there.
      let step = run u ∙ ap (insert_row u email password new) there in
      (
        ap (λ r. is_tuples_ok (status_of r.1)) step,
        ap (λ r. find_row (select_req email password) r.0.rows) step,
        ap (λ r. find_row email r.0.emails) step ∙ there,
      );
  others = λ u e p _ pe pp other.
      let (rows, emails) =
        insert_others u email password e p new (find_row email u.emails) pe pp pm pw other in
      (
        ap (λ r. find_row (select_req e p) r.0.rows) (run u) ∙ rows,
        ap (λ r. find_row e r.0.emails) (run u) ∙ emails,
      );
}

pub stores_first :
    StoresUser store_libpq store_answers store_table
      (codes "user1")
      (codes "user1_pass")
      (codes "user1@mail.com")
stores_first =
    stores_user (codes "user1") (codes "user1_pass") (codes "user1@mail.com") 1 (omega arith)
      (omega arith) (omega arith) run_first

pub stores_second :
    StoresUser store_libpq store_answers store_table
      (codes "user2")
      (codes "user2_pass")
      (codes "user2@mail.com")
stores_second =
    stores_user (codes "user2") (codes "user2_pass") (codes "user2@mail.com") 2 (omega arith)
      (omega arith) (omega arith) run_second
