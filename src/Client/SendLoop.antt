-- ===== src/Client/SendLoop.antt =====
-- The sending loop of client_app/client_app_main.cpp on a list of words.
use simple_messenger.Prelude.{
  ℕ, ◌<◌, ◌≡◌, false, some, List, [], ◌∷◌, ◌++◌, arith, length, bytes_eq, bytes_eq_refl,
}
use mathlib.Core.Option
use simple_messenger.Memory.{NoNul}
use simple_messenger.Message.{payload_capacity}
use simple_messenger.Message.Proto
use simple_messenger.Message.Convert.{get_env_from_proto_buf}
use simple_messenger.GrpcServer.Defs.{exit_text}
use simple_messenger.Client.Defs.{send_loop}
use simple_messenger.Client.Texts.{arrived}
use simple_messenger.Client.EndToEnd.{send_round_lem}

-- Words that fit a payload, with no NUL, none of which is `exit`.
abbrev pub AllTexts : List (List ℕ) → Type 0
AllTexts [] = Unit
AllTexts (w ∷ ws) =
    NoNul w × (length w < payload_capacity) × (bytes_eq w exit_text ≡ false) × AllTexts ws

-- One message for each word, from which the server takes the envelope with that word.
abbrev pub Carries : ℕ → ℕ → List (List ℕ) → List Proto.Envelope → Type 0
Carries my_id recepient_id [] [] = Unit
Carries my_id recepient_id (w ∷ ws) (q ∷ qs) =
    (get_env_from_proto_buf q ≡ some (arrived my_id recepient_id w))
    × Carries my_id recepient_id ws qs
Carries my_id recepient_id _ _ = ⊥

-- The loop sends one message for each word up to the first `exit` and for that one, in the order in
-- which they are typed, and stops there, whatever is typed behind it: the server takes each word out
-- of its message. The words before `exit` have no NUL and leave room for one in a payload.
pub send_loop_lem :
    (my_id recepient_id : ℕ) (words later : List (List ℕ)) (p : Proto.Envelope)
    → AllTexts words
    → (qs : List Proto.Envelope) × (send_loop my_id recepient_id (words ++ (exit_text ∷ later)) p
        ≡ some qs)
      × Carries my_id recepient_id (words ++ (exit_text ∷ [])) qs
unfolding Option.bind send_loop
send_loop_lem my_id rec [] later p _ =
    let (buffer, q, sent, read, get) =
      send_round_lem my_id rec exit_text p (omega arith) (omega arith) in
    (q ∷ [], rw (sent, read, bytes_eq_refl exit_text), (get, tt))
send_loop_lem my_id rec (w ∷ words) later p (clean, short, text, rest) =
    let (buffer, q, sent, read, get) = send_round_lem my_id rec w p clean short in
    let (qs, more, carries) = send_loop_lem my_id rec words later q rest in
    (q ∷ qs, rw (sent, read, text, more), (get, carries))
