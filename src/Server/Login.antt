-- ===== src/Server/Login.antt =====
-- What a login over TCP does, and whom the server finds after it.
use simple_messenger.Prelude.{
  ℕ, ◌^◌, ◌<◌, ◌≡◌, refl, Option, none, some, List, [], ◌∷◌, ◌++◌, arith, length, ◌∙◌,
  length-replicate, ◌==◌, if◌then◌else◌, Bool-cases, inl, inr,
}
use mathlib.Core.Option
use simple_messenger.Message.{
  Envelope, MessageType, ClientInfo, zero_envelope, payload_capacity, set_message_type,
}
use simple_messenger.Message.Payload.{get_payload, get_payload-set_payload}
use simple_messenger.Message.Layouts.{response_layout, IsAuthResponse}
use simple_messenger.Psql.Defs.{Libpq, PsqlManager, handle_auth_req}
use simple_messenger.Server.Defs.{
  ServerTcpEndpoint, Sent, send_tcp, auth_response, send_accept_notification, log_in,
  authentify_client, find_online_client,
}

-- The first of two answers that there is.
unfoldable pub or_else : Option ClientInfo → Option ClientInfo → Option ClientInfo
or_else none b = b
or_else (some a) b = some a

find-append :
    (l : List ClientInfo) (c : ClientInfo) (u : ℕ)
    → find_online_client (l ++ (c ∷ [])) u
      ≡ or_else (find_online_client l u) (if c.user_id == u then some c else none)
unfolding find_online_client or_else
find-append [] c u = refl
find-append (x ∷ l) c u = elim (Bool-cases (x.user_id == u)) [
  | inl here ↦ rw here
  | inr there ↦ rw there (find-append l c u)
]

-- The user that a login adds to those who can be found.
abbrev pub logged_in : Option ℕ → ClientInfo → ℕ → Option ClientInfo
logged_in none client_info u = none
logged_in (some id) client_info u =
    if id == u then some (record client_info { user_id = id }) else none

-- An id fits a `UserID`.
abbrev pub FitsUserId : Option ℕ → Type 0
FitsUserId none = Unit
FitsUserId (some id) = id < 256 ^ 8

response-IsAuthResponse : (a : Option ℕ) → FitsUserId a → IsAuthResponse (auth_response a)
unfolding auth_response
response-IsAuthResponse none _ = record { accepted_byte = omega arith; id_fits = omega arith }
response-IsAuthResponse (some id) fits = record { accepted_byte = omega arith; id_fits = fits }

find-log_in :
    (e : ServerTcpEndpoint) (client_info : ClientInfo) (a : Option ℕ) (u : ℕ)
    → find_online_client (log_in e client_info a).client_info_storage u
      ≡ or_else (find_online_client e.client_info_storage u) (logged_in a client_info u)
unfolding log_in or_else
find-log_in e c none u = none_last (find_online_client e.client_info_storage u)
  where
    none_last : (a : Option ClientInfo) → a ≡ or_else a none
    none_last none = refl
    none_last (some _) = refl
find-log_in e c (some id) u = find-append e.client_info_storage (record c { user_id = id }) u

log_in-none : (e : ServerTcpEndpoint) (c : ClientInfo) (a : Option ℕ) → a ≡ none → log_in e c a ≡ e
unfolding log_in
log_in-none e c a h = rw h

-- A login, with the size of the answer.
pub authentify_client_sized :
    (L : Libpq) (e : ServerTcpEndpoint) (m m' : PsqlManager L) (client_info : ClientInfo)
    (sock_id : ℕ) (auth_req_env : Envelope) (answer : Option ℕ)
    → handle_auth_req L m auth_req_env ≡ some (answer, m')
    → FitsUserId answer
    → (env : Envelope) × (e' : ServerTcpEndpoint) × (authentify_client L e m client_info sock_id
          auth_req_env
        ≡ some (send_tcp e env sock_id, e', m'))
      × (get_payload response_layout env ≡ some (auth_response answer))
      × (length env.payload ≡ payload_capacity)
      × (env.meta_data ≡ (set_message_type zero_envelope MessageType.service_message).meta_data)
      × (answer ≡ none → e' ≡ e)
      × ((u : ℕ)
          → find_online_client e'.client_info_storage u
            ≡ or_else (find_online_client e.client_info_storage u) (logged_in answer client_info u))
unfolding Option.bind authentify_client send_accept_notification set_message_type
authentify_client_sized L e m m' c sock req answer asked fits =
    let notification = set_message_type zero_envelope MessageType.service_message in
    let (env, stored, read, meta, size) =
      get_payload-set_payload response_layout notification (auth_response answer)
        (response-IsAuthResponse answer fits)
        (omega (arith, length-replicate {A = ℕ} payload_capacity 0)) in
    (
      env,
      log_in e c answer,
      rw (asked, stored),
      read,
      size ∙ length-replicate {A = ℕ} payload_capacity 0,
      meta,
      log_in-none e c answer,
      find-log_in e c answer,
    )

-- `authentifyClient` tells the client on its connection whether it is accepted and its id, by an
-- envelope that is a service message, whatever the answer of the authentification is. A client that
-- is not accepted changes nothing. One that is can be found under its id from then on, unless a
-- client with that id had logged in before, who is still found in its place; for other ids the same
-- clients are found. The id fits 64 bits.
pub authentify_client_lem :
    (L : Libpq) (e : ServerTcpEndpoint) (m m' : PsqlManager L) (client_info : ClientInfo)
    (sock_id : ℕ) (auth_req_env : Envelope) (answer : Option ℕ)
    → handle_auth_req L m auth_req_env ≡ some (answer, m')
    → FitsUserId answer
    → (env : Envelope) × (e' : ServerTcpEndpoint) × (authentify_client L e m client_info sock_id
          auth_req_env
        ≡ some (send_tcp e env sock_id, e', m'))
      × (get_payload response_layout env ≡ some (auth_response answer))
      × (env.meta_data ≡ (set_message_type zero_envelope MessageType.service_message).meta_data)
      × (answer ≡ none → e' ≡ e)
      × ((u : ℕ)
          → find_online_client e'.client_info_storage u
            ≡ or_else (find_online_client e.client_info_storage u) (logged_in answer client_info u))
authentify_client_lem L e m m' c sock req answer asked fits =
    let (env, e', done, read, _, meta, unchanged, found) =
      authentify_client_sized L e m m' c sock req answer asked fits in
    (env, e', done, read, meta, unchanged, found)

-- Whoever logs in again, from wherever it is, is still found where it was first.
pub first_login_stays :
    (L : Libpq) (e : ServerTcpEndpoint) (m m' : PsqlManager L) (client_info old : ClientInfo)
    (sock_id id : ℕ) (auth_req_env : Envelope)
    → handle_auth_req L m auth_req_env ≡ some (some id, m')
    → id < 256 ^ 8
    → find_online_client e.client_info_storage id ≡ some old
    → (sent : Sent) × (e' : ServerTcpEndpoint) × (authentify_client L e m client_info sock_id
          auth_req_env
        ≡ some (sent, e', m'))
      × (find_online_client e'.client_info_storage id ≡ some old)
unfolding or_else
first_login_stays L e m m' c old sock id req asked fits was =
    let (env, e', done, _, _, _, found) =
      authentify_client_lem L e m m' c sock req (some id) asked fits in
    (send_tcp e env sock, e', done, rw (found id, was))
