-- ===== src/Client/Tests.antt =====
-- A word on its way, and what the client sends.
use simple_messenger.Message.{
  AuthResponse, Envelope, payload_capacity, get_recepient_id, zero_envelope, ClientInfo,
}
use simple_messenger.Message.Layouts.{IsCredentials, credentials_layout, response_layout}
use simple_messenger.Prelude.{
  Bool, true, take, ◌<◌, ◌++◌, map, length, ℕ, ◌≡◌, refl, ap, subst, Option, none, some, List, [],
  ◌∷◌, arith, codes, replicate, length-replicate, bytes_eq, Bool-cases, inl, inr, ◌==◌,
}
use simple_messenger.Memory.{NoNul, c_string}
use simple_messenger.GrpcServer.Defs.{
  receive_text, push_mail, pop_mail, cell, is_online, ok, GrpcEndpointServer, PostBoxCell, wrote,
  receive_message, stream_round,
}
use simple_messenger.UserMap.{assign, lookup}
use simple_messenger.GrpcServer.Stream.{Event, arrives, round, run, step, stream_pop}
use simple_messenger.Client.Texts.{arrived, c_string-padded, length-padded}
use simple_messenger.Client.Defs.{
  create_text_envelope, listen_others, send_round, send_loop, shown, create_auth_envelope,
}
use simple_messenger.Client.Printed.{IsText, text_of, printed_in_order}
use simple_messenger.GrpcServer.StreamCall.{forward_all}
use simple_messenger.Psql.Table.{
  find_row, table_libpq, table_answers, email, password, connected, creds,
}
use simple_messenger.Psql.Defs.{select_req, select_head, select_middle}
use simple_messenger.Message.Payload.{get_payload, set_payload}
use simple_messenger.Message.Struct.{envelope_bytes}
use simple_messenger.Server.Defs.{ServerTcpEndpoint, Sent, find_online_client}
use simple_messenger.Server.Login.{or_else, logged_in}
use simple_messenger.Server.Tcp.{sent_bytes, receive_tcp, authentify_over_tcp, arrived_on}
use simple_messenger.Client.TcpLogin.{tcp_login_round_trip}
use simple_messenger.CircularBuffer
use simple_messenger.CircularBuffer.Invariant.{IsValid, make-IsValid}
use mathlib.Core.Option
use simple_messenger.Message.Proto
use simple_messenger.GrpcServer.Mail
use simple_messenger.GrpcServer.Refine.{IsSound}
use simple_messenger.Client.SendLoop.{Carries, send_loop_lem}
use simple_messenger.Client.Session.{session, session_delivers}
use simple_messenger.Client.EndToEnd.{typed_text_is_shown}

abbrev empty_box : PostBoxCell
empty_box = record {
  circ_buffer = replicate 32 zero_envelope;
  begin_pos = 0;
  end_pos = 0;
  size = 0;
}

-- The user 9 is online.
abbrev nine_online : GrpcEndpointServer
nine_online = record { post_box = (9, empty_box) ∷ [] }

empty_box-IsValid : IsValid empty_box
unfolding CircularBuffer.make
empty_box-IsValid =
    make-IsValid (replicate 32 zero_envelope) (omega arith) (omega arith)
      (length-replicate 32 zero_envelope)

nine_online-IsSound : IsSound nine_online
unfolding lookup
nine_online-IsSound user b e = elim (Bool-cases (9 == user)) [
  | inl same ↦
      let found : ◌≡◌ {A = Option PostBoxCell} (some empty_box) (some b) = rw same at e in
      subst IsValid (ap (λ o. Option.get_or o b) found) empty_box-IsValid
  | inr other ↦
      let missing : ◌≡◌ {A = Option PostBoxCell} none (some b) = rw other at e in
      absurd (ground arith)
]

typed_text_is_shown_example :
    (buffer : List ℕ) × (q p : Proto.Envelope) × (s₁ s₂ : GrpcEndpointServer) × (send_round 7 9
        (codes "hi")
        Proto.empty_envelope
      ≡ some (buffer, q))
    × (receive_message (replicate 32 zero_envelope) nine_online q ≡ some (ok, s₁))
    × (stream_round (replicate 32 zero_envelope) s₁ 9 Proto.empty_envelope ≡ wrote p s₂)
    × (shown p ≡ some (codes "hi"))
    × (Mail.mail s₂ 9 ≡ some [])
unfolding lookup bytes_eq
typed_text_is_shown_example =
    typed_text_is_shown (replicate 32 zero_envelope) nine_online 7 9 (codes "hi")
      Proto.empty_envelope Proto.empty_envelope (omega arith) (omega arith) refl nine_online-IsSound
      refl

abbrev words : List (List ℕ)
words = codes "hi" ∷ codes "ho" ∷ []

send_loop_lem_example :
    (qs : List Proto.Envelope) × (send_loop 7 9
        (codes "hi" ∷ codes "ho" ∷ codes "exit" ∷ codes "more" ∷ [])
        Proto.empty_envelope
      ≡ some qs)
    × Carries 7 9 (codes "hi" ∷ codes "ho" ∷ codes "exit" ∷ []) qs
unfolding bytes_eq
send_loop_lem_example =
    send_loop_lem 7 9 words (codes "more" ∷ []) Proto.empty_envelope
      (omega arith, omega arith, refl, (omega arith, omega arith, refl, tt))

abbrev greeting : Envelope
greeting = arrived 7 9 (codes "hi")

abbrev answer : Envelope
answer = arrived 8 9 (codes "ho")

arrived-IsText :
    (id : ℕ) (word : List ℕ)
    → NoNul word
    → length word < payload_capacity
    → IsText (arrived id 9 word)
unfolding create_text_envelope
arrived-IsText id word clean short = record {
  text = word;
  named = record { message_type = tt; data_type = tt };
  sized = length-padded word short;
  ends = c_string-padded word clean short;
}

-- Two texts arrive, and the stream makes a round.
abbrev events : List Event
events = arrives greeting (codes "hi") ∷ arrives answer (codes "ho") ∷ round ∷ []

printed_in_order_example :
    let h =
      run
        (replicate 32 zero_envelope)
        9
        (record { server = nine_online; accepted = []; streamed = [] })
        events in
    (ps : List Proto.Envelope) × (texts : List (List ℕ)) × (forward_all Proto.empty_envelope
        h.streamed
      ≡ some ps)
    × (listen_others ps ≡ some texts)
    × (texts ++ text_of answer ∷ [] ≡ map text_of h.accepted)
unfolding replicate lookup assign run step stream_pop receive_text push_mail pop_mail cell is_online
    bytes_eq get_recepient_id create_text_envelope CircularBuffer.push CircularBuffer.pop
printed_in_order_example =
    printed_in_order (replicate 32 zero_envelope) 9 nine_online [] (answer ∷ []) events
      Proto.empty_envelope nine_online-IsSound refl tt
      (
        arrived-IsText 7 (codes "hi") (omega arith) (omega arith),
        c_string-padded (codes "hi") (omega arith) (omega arith),
        (
          arrived-IsText 8 (codes "ho") (omega arith) (omega arith),
          c_string-padded (codes "ho") (omega arith) (omega arith),
          tt,
        ),
      )
      refl

creds-IsCredentials : IsCredentials creds
unfolding replicate
creds-IsCredentials = record { email_size = refl; password_size = refl }

abbrev tcp_server : ServerTcpEndpoint
tcp_server = record { socket_id = 3; client_info_storage = [] }

abbrev tcp_client : ClientInfo
tcp_client = record { user_id = 0; socket_info = record { addr = 2 ∷ []; addrlen = 1 } }

-- A client with the credentials of the row 5, which reads the whole answer of a server that has read
-- 600 bytes of the payload.
tcp_login_round_trip_example :
    (req : Envelope) × (sent : Sent) × (e' : ServerTcpEndpoint) × (reply : Envelope)
    × (response : AuthResponse) × (set_payload credentials_layout create_auth_envelope creds
        ≡ some req)
    × (authentify_over_tcp table_libpq tcp_server connected tcp_client 4
          (arrived_on 4 (take 648 (envelope_bytes req)))
        ≡ some (sent, e', connected))
    × (sent.handle ≡ 4)
    × (receive_tcp 6 (arrived_on 6 (take 1024 (sent_bytes sent))) 0 ≡ some reply)
    × (get_payload response_layout reply ≡ some response)
    × (◌≡◌ {A = Option ℕ} (some 5) none → response.is_accepted ≡ 0)
    × ((id : ℕ)
        → ◌≡◌ {A = Option ℕ} (some 5) (some id)
        → (response.is_accepted ≡ 1) × (response.user_id ≡ id))
    × ((u : ℕ)
        → find_online_client e'.client_info_storage u
          ≡ or_else none (logged_in (some 5) tcp_client u))
unfolding find_row bytes_eq select_req c_string select_head select_middle find_online_client
tcp_login_round_trip_example =
    tcp_login_round_trip table_libpq table_answers tcp_server connected tcp_client 6 4 600 976 creds
      email password (λ _. (omega arith, tt)) creds-IsCredentials refl refl (omega arith)
      (omega arith) refl refl (omega arith) (omega arith) (omega arith) (omega arith) (omega arith)

-- Two words for the user 9, who has no mail.
session_delivers_example :
    (answers : List Bool) × (s : GrpcEndpointServer) × (session
        (replicate 32 zero_envelope)
        nine_online
        7
        9
        (codes "hi" ∷ codes "ho" ∷ codes "exit" ∷ codes "more" ∷ [])
        Proto.empty_envelope
      ≡ some (answers, s))
    × (answers ≡ true ∷ true ∷ true ∷ [])
    × (Mail.mail s 9 ≡ some (arrived 7 9 (codes "hi") ∷ arrived 7 9 (codes "ho") ∷ []))
    × (Mail.mail s 7 ≡ none)
    × IsSound s
unfolding bytes_eq lookup
session_delivers_example =
    session_delivers (replicate 32 zero_envelope) nine_online 7 9 words (codes "more" ∷ [])
      Proto.empty_envelope [] (omega arith, omega arith, refl, (omega arith, omega arith, refl, tt))
      refl nine_online-IsSound refl (omega arith)
