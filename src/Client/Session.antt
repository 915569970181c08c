-- ===== src/Client/Session.antt =====
-- All that a user types until `exit`, at the server: the sending loop of
-- client_app/client_app_main.cpp with receiveMessage of server_app/endpoint/GrpcServer.cpp.
use simple_messenger.Client.EndToEnd.{put_mail_same, receive_message_lem}
use simple_messenger.Prelude.{
  append-nil, ==_refl, ℕ, ◌+◌, ◌<◌, ◌≤◌, ◌≡◌, refl, sym, ap, ◌∙◌, Bool, true, false, Option, none,
  some, List, [], ◌∷◌, ◌++◌, map, arith, length, bytes_eq, bytes_eq_refl, ◌==◌, append_assoc,
  length-append,
}
use simple_messenger.Client.Defs.{create_text_envelope, send_loop, send_envelope}
use mathlib.Core.Option
use simple_messenger.CircularBuffer.Queue
use simple_messenger.Memory.{NoNul}
use simple_messenger.Message.{Envelope, payload_capacity, get_sender_id, get_recepient_id}
use simple_messenger.Message.Proto
use simple_messenger.GrpcServer.Defs.{
  Status, ok, cancelled, GrpcEndpointServer, exit_text, receive_text, receive_message,
}
use simple_messenger.GrpcServer.Mail
use simple_messenger.GrpcServer.Refine.{IsSound, receive_text_refines}
use simple_messenger.Client.Texts.{arrived, c_string-padded}
use simple_messenger.Client.SendLoop.{AllTexts, Carries, send_loop_lem}

abbrev pub is_ok : Status → Bool
is_ok ok = true
is_ok cancelled = false

-- `sendEnvelope` for one message after the other, with what it returns.
unfoldable pub send_all :
    List Envelope
    → GrpcEndpointServer
    → List Proto.Envelope
    → Option (List Bool × GrpcEndpointServer)
unfolding Option.bind
send_all storage s [] = some ([], s)
send_all storage s (q ∷ qs) =
    Option.bind (send_envelope storage s q)
      (λ r. Option.map (λ rest. (r.0 ∷ rest.0, rest.1)) (send_all storage r.1 qs))

-- The loop on a server, for the words that are typed.
unfoldable pub session :
    List Envelope
    → GrpcEndpointServer
    → ℕ
    → ℕ
    → List (List ℕ)
    → Proto.Envelope
    → Option (List Bool × GrpcEndpointServer)
unfolding Option.bind
session storage s my_id recepient_id words proto_env =
    Option.bind (send_loop my_id recepient_id words proto_env) (send_all storage s)

-- The post office for these words.
unfoldable spec_all : Mail.Mail → ℕ → ℕ → List (List ℕ) → List Bool × Mail.Mail
spec_all m my_id recepient_id [] = ([], m)
spec_all m my_id recepient_id (w ∷ ws) =
    let r = Mail.receive m (arrived my_id recepient_id w) w in
    let rest = spec_all r.1 my_id recepient_id ws in (is_ok r.0 ∷ rest.0, rest.1)

-- Words that reach the server as they are.
abbrev AllFit : List (List ℕ) → Type 0
AllFit [] = Unit
AllFit (w ∷ ws) = NoNul w × (length w < payload_capacity) × AllFit ws

send_envelope_lem :
    (storage : List Envelope) (s : GrpcEndpointServer) (q : Proto.Envelope)
    (r : Status × GrpcEndpointServer)
    → receive_message storage s q ≡ some r
    → send_envelope storage s q ≡ some (is_ok r.0, r.1)
unfolding send_envelope
send_envelope_lem storage s q (ok, s') e = rw e
send_envelope_lem storage s q (cancelled, s') e = rw e

send_all_refines :
    (storage : List Envelope) (s : GrpcEndpointServer) (my_id rec : ℕ) (ws : List (List ℕ))
    (qs : List Proto.Envelope)
    → IsSound s
    → AllFit ws
    → Carries my_id rec ws qs
    → (answers : List Bool) × (s' : GrpcEndpointServer) × (send_all storage s qs
        ≡ some (answers, s'))
      × (answers ≡ (spec_all (Mail.mail s) my_id rec ws).0)
      × (Mail.mail s' ≡ (spec_all (Mail.mail s) my_id rec ws).1)
      × IsSound s'
unfolding Option.bind send_all spec_all
send_all_refines storage s my_id rec [] [] sound fit c = ([], s, refl, refl, refl, sound)
send_all_refines storage s my_id rec [] (q ∷ qs) sound fit c = absurd c
send_all_refines storage s my_id rec (w ∷ ws) [] sound fit c = absurd c
send_all_refines storage s my_id rec (w ∷ ws) (q ∷ qs) sound (clean, short, fit) (get, c) =
    let e = arrived my_id rec w in
    let r = receive_text storage s e w in
    let (status, after, sound₁) = receive_text_refines storage s e w sound in
    let received = receive_message_lem storage s q e w get (c_string-padded w clean short) in
    let (answers, s', more, same, left, sound') =
      send_all_refines storage r.1 my_id rec ws qs sound₁ fit c in
    (
      is_ok r.0 ∷ answers,
      s',
      rw (send_envelope_lem storage s q r received, more),
      λ i. is_ok (status i) ∷ (same ∙ ap (λ m. (spec_all m my_id rec ws).0) after) i,
      left ∙ ap (λ m. (spec_all m my_id rec ws).1) after,
      sound',
    )

-- A word goes behind the mail of a recipient who has room for it.
receive_word :
    (m : Mail.Mail) (my_id rec : ℕ) (w : List ℕ) (q : List Envelope)
    → bytes_eq w exit_text ≡ false
    → m rec ≡ some q
    → length q < 32
    → Mail.receive m (arrived my_id rec w) w
      ≡ (ok, Mail.put_mail rec (q ++ (arrived my_id rec w ∷ [])) m)
unfolding Mail.receive Mail.deliver Queue.push get_recepient_id create_text_envelope
receive_word m my_id rec w q text held room =
    let short : (length q == 32) ≡ false = ground arith in rw (text, held, short) refl

receive_exit :
    (m : Mail.Mail) (my_id rec : ℕ)
    → Mail.receive m (arrived my_id rec exit_text) exit_text ≡ (ok, Mail.log_out my_id m)
unfolding Mail.receive get_sender_id create_text_envelope
receive_exit m my_id rec = rw (bytes_eq_refl exit_text) refl

spec_delivers :
    (m : Mail.Mail) (my_id rec : ℕ) (ws : List (List ℕ)) (q : List Envelope)
    → AllTexts ws
    → (my_id == rec) ≡ false
    → m rec ≡ some q
    → length q + length ws ≤ 32
    → let r = spec_all m my_id rec (ws ++ (exit_text ∷ [])) in
      (r.0 ≡ map (λ _. true) (ws ++ (exit_text ∷ [])))
      × (r.1 rec ≡ some (q ++ map (arrived my_id rec) ws))
      × (r.1 my_id ≡ none)
unfolding spec_all Mail.log_out
spec_delivers m my_id rec [] q texts other held room =
    rw (receive_exit m my_id rec, other, ==_refl my_id)
      (refl, held ∙ ap some (sym (append-nil q)), refl)
spec_delivers m my_id rec (w ∷ ws) q (_, _, text, texts) other held room =
    let e = arrived my_id rec w in
    let m' = Mail.put_mail rec (q ++ (e ∷ [])) m in
    let (answers, mail, gone) =
      spec_delivers m' my_id rec ws (q ++ (e ∷ [])) texts other
        (put_mail_same rec (q ++ (e ∷ [])) m) (omega (arith, length-append q (e ∷ []))) in
    let rest = ws ++ (exit_text ∷ []) in
    let got = receive_word m my_id rec w q text held (omega arith) in
    (
      ap (λ (r : Status × Mail.Mail). is_ok r.0 ∷ (spec_all r.1 my_id rec rest).0) got
          ∙ ap (λ l. true ∷ l) answers,
      ap (λ (r : Status × Mail.Mail). (spec_all r.1 my_id rec rest).1 rec) got
          ∙ mail
          ∙ ap some (append_assoc q (e ∷ []) (map (arrived my_id rec) ws)),
      ap (λ (r : Status × Mail.Mail). (spec_all r.1 my_id rec rest).1 my_id) got ∙ gone,
    )

AllFit-exit : (ws : List (List ℕ)) → AllTexts ws → AllFit (ws ++ (exit_text ∷ []))
AllFit-exit [] texts = (omega arith, omega arith, tt)
AllFit-exit (w ∷ ws) (clean, short, _, texts) = (clean, short, AllFit-exit ws texts)

-- A user types words, `exit`, and maybe more, for a recipient who is online and has room for them:
-- every message is answered with `OK`, the recipient's mail grows by the words before `exit`, in the
-- order in which they were typed, and the user is offline after it. The recipient is another user,
-- the words have no NUL and leave room for one in a payload, and the post boxes are valid, and stay so.
pub session_delivers :
    (storage : List Envelope) (s : GrpcEndpointServer) (my_id recepient_id : ℕ)
    (words later : List (List ℕ)) (proto_env : Proto.Envelope) (q : List Envelope)
    → AllTexts words
    → (my_id == recepient_id) ≡ false
    → IsSound s
    → Mail.mail s recepient_id ≡ some q
    → length q + length words ≤ 32
    → (answers : List Bool) × (s' : GrpcEndpointServer) × (session storage s my_id recepient_id
          (words ++ (exit_text ∷ later))
          proto_env
        ≡ some (answers, s'))
      × (answers ≡ map (λ _. true) (words ++ (exit_text ∷ [])))
      × (Mail.mail s' recepient_id ≡ some (q ++ map (arrived my_id recepient_id) words))
      × (Mail.mail s' my_id ≡ none)
      × IsSound s'
unfolding Option.bind session
session_delivers storage s my_id rec words later p q texts other sound held room =
    let (qs, sent, carries) = send_loop_lem my_id rec words later p texts in
    let (answers, s', done, same, left, sound') =
      send_all_refines storage s my_id rec (words ++ (exit_text ∷ [])) qs sound
        (AllFit-exit words texts) carries in
    let (all_ok, mail, gone) =
      spec_delivers (Mail.mail s) my_id rec words q texts other held room in
    (
      answers,
      s',
      rw sent done,
      same ∙ all_ok,
      ap (λ (m : Mail.Mail). m rec) left ∙ mail,
      ap (λ (m : Mail.Mail). m my_id) left ∙ gone,
      sound',
    )
