-- ===== src/GrpcServer/Login.antt =====
-- `acceptConnection`: who comes online, and what the moved-to post box holds.
use simple_messenger.Prelude.{
  ℕ, zero, suc, ◌-◌, drop, ◌<◌, ◌≡◌, ◌≢◌, refl, Option, subst, ◌∙◌, true, false, none, some, List,
  [], ◌∷◌, ◌++◌, arith, length, replicate, length-replicate, Bool-cases, Option-cases, inl, inr,
  bytes_eq, ◌==◌, if◌then◌else◌, ==_refl,
}
use mathlib.Core.Path.{fun_ext}
use simple_messenger.CircularBuffer
use simple_messenger.CircularBuffer.Invariant.{IsValid}
use simple_messenger.CircularBuffer.Refine.{contents}
use simple_messenger.Memory.{
  c_string, copy_into, copy_into-some, NoNul, c_string-append, drop-replicate,
}
use simple_messenger.UserMap.{lookup, emplace, lookup-emplace}
use simple_messenger.Message.{Envelope, credential_capacity, get_recepient_id}
use simple_messenger.Message.Proto
use simple_messenger.Psql.Defs.{Libpq, PsqlManager}
use simple_messenger.Psql.Lookup.{AnswersSelect, WorksIfUp, IsPlain, check_if_registered_lem}
use simple_messenger.GrpcServer.Defs.{
  ok, cancelled, Accepted, GrpcEndpointServer, PostBoxCell, post_box_size, exit_text, is_online,
  add_user_to_connected, accept_connection, admit, receive_text, push_mail, cell,
}
use simple_messenger.GrpcServer.Mail
use simple_messenger.GrpcServer.Refine.{IsSound, IsZeroed}

module _ (storage : List Envelope) (full : length storage ≡ post_box_size) where
  new_cell-IsValid :
      (raw : PostBoxCell)
      → IsZeroed raw
      → IsValid (CircularBuffer.move_into raw (CircularBuffer.make storage))
  unfolding CircularBuffer.move_into CircularBuffer.make
  new_cell-IsValid raw z = ground arith

  contents-new_cell :
      (raw : PostBoxCell)
      → IsZeroed raw
      → contents (CircularBuffer.move_into raw (CircularBuffer.make storage)) ≡ []
  unfolding CircularBuffer.move_into CircularBuffer.make
  contents-new_cell raw z = rw z.size_zero

  -- Where the memory of the new cell was zero, `addUserToConnected` brings a user online with no
  -- mail, keeps the mail of one who is online already, changes nobody else's, and keeps every post
  -- box a valid circular buffer.
  pub add_user_to_connected_refines :
      (s : GrpcEndpointServer) (raw : PostBoxCell) (user : ℕ)
      → IsZeroed raw
      → IsSound s
      → (Mail.mail (add_user_to_connected storage s raw user) ≡ Mail.log_in user (Mail.mail s))
        × IsSound (add_user_to_connected storage s raw user)
  unfolding add_user_to_connected Mail.log_in
  add_user_to_connected_refines s raw user z sound =
      let new = CircularBuffer.move_into raw (CircularBuffer.make storage) in
      (
        fun_ext (λ v.
            rw (lookup-emplace user v new s.post_box) (ground (arith, contents-new_cell raw z))),
        λ v b e. elim (Bool-cases (user == v)) [
          | inl same ↦ elim (Option-cases (lookup user s.post_box)) [
            | inl offline ↦
                let equal : new ≡ b = ground (arith, lookup-emplace user v new s.post_box) in
                subst IsValid equal (new_cell-IsValid raw z)
            | inr (c, online) ↦ sound v b (ground (arith, lookup-emplace user v new s.post_box))
          ]
          | inr other ↦ sound v b (ground (arith, lookup-emplace user v new s.post_box))
        ],
      )

module _ (storage : List Envelope) where
  push_mail_full :
      (s : GrpcEndpointServer) (user : ℕ) (env : Envelope) (b : PostBoxCell)
      → lookup user s.post_box ≡ some b
      → b.size ≡ post_box_size
      → (push_mail storage s user env).0 ≡ false
  unfolding push_mail cell CircularBuffer.push
  push_mail_full s user env b found full = rw (found, full)

  -- The constructor that moves a cell into the map sets neither its positions nor its size. Where
  -- the memory held 32 in place of the size, the new user is online, has no message, and is refused
  -- the first one.
  pub first_message_refused :
      (s : GrpcEndpointServer) (raw : PostBoxCell) (user : ℕ) (env : Envelope) (text : List ℕ)
      → is_online s user ≡ false
      → raw.size ≡ post_box_size
      → get_recepient_id env ≡ user
      → bytes_eq text exit_text ≡ false
      → let s' = add_user_to_connected storage s raw user in
        (is_online s' user ≡ true) × ((receive_text storage s' env text).0 ≡ cancelled)
  unfolding add_user_to_connected is_online receive_text CircularBuffer.move_into
  first_message_refused s raw user env text offline junk to plain =
      let new = CircularBuffer.move_into raw (CircularBuffer.make storage) in
      let found : lookup user (emplace user new s.post_box) ≡ some new =
        rw (lookup-emplace user user new s.post_box, ==_refl user) (ground arith) in
      (rw found, rw (plain, to, found) (rw (push_mail_full _ user env new found (ground arith))))

replicate_pos : (n a : ℕ) → 0 < n → replicate n a ≡ a ∷ replicate (n - 1) a
unfolding replicate
replicate_pos zero a h = absurd (omega arith)
replicate_pos (suc n) a h = let e : suc n - 1 ≡ n = omega arith in rw e

-- A text of the protobuf message copied into an array of 256 zeros is read back as it is.
copied :
    (text : List ℕ)
    → NoNul text
    → length text < credential_capacity
    → (array : List ℕ) × (copy_into (replicate credential_capacity 0) text ≡ some array)
      × (c_string array ≡ some text)
copied text clean short =
    let rest = replicate (credential_capacity - length text - 1) 0 in
    let left : drop (length text) (replicate credential_capacity 0) ≡ 0 ∷ rest =
      drop-replicate (length text) credential_capacity 0 ∙ replicate_pos _ 0 (omega arith) in
    (
      text ++ (0 ∷ rest),
      rw (
        copy_into-some (replicate credential_capacity 0) text
            (rw (length-replicate {A = ℕ} credential_capacity 0) (omega arith)),
        left,
      ),
      c_string-append text rest clean,
    )

IsPlain-NoNul : (text : List ℕ) → IsPlain text → NoNul text
IsPlain-NoNul [] p = tt
IsPlain-NoNul (c ∷ text) p = (omega arith, IsPlain-NoNul text p.1)

module _ (storage : List Envelope) (L : Libpq) where
  -- What the database has found, as the client is told it and as the server keeps it.
  pub record IsAnswer (s : GrpcEndpointServer) (m : PsqlManager L) (found : Option ℕ)
      (r : Accepted storage L) : Type 0 where
    pub same_psql : r.psql ≡ m
    pub refused : found ≡ none → (r.status ≡ cancelled) × (r.user_id ≡ 0) × (r.server ≡ s)
    pub admitted :
        (id : ℕ)
        → found ≡ some id
        → (r.status ≡ ok)
          × (r.user_id ≡ id)
          × (is_online r.server id ≡ true)
          × ((u : ℕ) → u ≢ id → lookup u r.server.post_box ≡ lookup u s.post_box)

  admit-IsAnswer :
      (s : GrpcEndpointServer) (m : PsqlManager L) (raw : PostBoxCell) (found : Option ℕ)
      → IsAnswer s m found (admit storage L s raw (found, m))
  unfolding admit add_user_to_connected is_online
  admit-IsAnswer s m raw none = record {
    same_psql = refl;
    refused = λ _. (refl, refl, refl);
    admitted = λ id e. absurd (ground arith);
  }
  admit-IsAnswer s m raw (some id) =
      let new = CircularBuffer.move_into raw (CircularBuffer.make storage) in
      record {
        same_psql = refl;
        refused = λ e. absurd (ground arith);
        admitted = λ i e.
            let same : id ≡ i = ground arith in
            (
              refl,
              same,
              rw (← same, lookup-emplace id id new s.post_box, ==_refl id) refl,
              λ u other. ground (arith, lookup-emplace id u new s.post_box),
            );
      }

module _ (storage : List Envelope) (L : Libpq) (S : AnswersSelect L) where
  open S use {registered}

  pub accept_connection_found :
      (s : GrpcEndpointServer) (m : PsqlManager L) (raw : PostBoxCell)
      (creds : Proto.UserCredentials)
      → WorksIfUp L S m
      → IsPlain creds.email
      → IsPlain creds.password
      → length creds.email < credential_capacity
      → length creds.password < credential_capacity
      → accept_connection storage L s m raw creds
        ≡ some (
            admit storage L s raw (
              if m.is_connected
                  then registered m.pg_connection creds.email creds.password
                  else none,
              m,
            ))
  unfolding accept_connection
  accept_connection_found s m raw creds up pe pp le lp =
      let (email, stored, read) = copied creds.email (IsPlain-NoNul creds.email pe) le in
      let (password, stored', read') = copied creds.password (IsPlain-NoNul creds.password pp) lp in
      simp (
        stored,
        stored',
        check_if_registered_lem L S m (record { email = email; password = password }) creds.email
            creds.password up read read' pe pp,
      )

  -- Credentials in printable ASCII, without a quote and of at most 255 characters each: if the
  -- database is connected and has a row with them, the answer is `OK` with the id of that row, and the
  -- user with this id is online and every other user's post box is as it was. Otherwise the answer is
  -- `CANCELLED` with the id 0, and nobody's post box changes. A manager that is connected has a
  -- connection that works.
  pub accept_connection_lem :
      (s : GrpcEndpointServer) (m : PsqlManager L) (raw : PostBoxCell)
      (creds : Proto.UserCredentials)
      → WorksIfUp L S m
      → IsPlain creds.email
      → IsPlain creds.password
      → length creds.email < credential_capacity
      → length creds.password < credential_capacity
      → let found =
          if m.is_connected then registered m.pg_connection creds.email creds.password else none in
        (r : Accepted storage L) × (accept_connection storage L s m raw creds ≡ some r)
        × IsAnswer storage L s m found r
  accept_connection_lem s m raw creds up pe pp le lp =
      let found =
        if m.is_connected then registered m.pg_connection creds.email creds.password else none in
      (
        admit storage L s raw (found, m),
        accept_connection_found s m raw creds up pe pp le lp,
        admit-IsAnswer storage L s m raw found,
      )
