-- ===== src/Client/EndToEnd.antt =====
-- A text typed at one client is printed at another.
use simple_messenger.Prelude.{
  ℕ, ◌<◌, ◌≡◌, refl, ap, ◌∙◌, false, Option, none, some, List, [], ◌∷◌, arith, length, bytes_eq,
  ==_refl,
}
use mathlib.Core.Option
use simple_messenger.CircularBuffer.Queue
use simple_messenger.CircularBuffer.Refine.{contents}
use simple_messenger.Memory.{c_string, NoNul}
use simple_messenger.UserMap.{lookup}
use simple_messenger.Message.{Envelope, payload_capacity, get_recepient_id}
use simple_messenger.Message.Proto
use simple_messenger.Message.Convert.{put_env_to_proto_buf, get_env_from_proto_buf}
use simple_messenger.Message.Convert.RoundTrip.{get_env-put_env}
use simple_messenger.GrpcServer.Defs.{
  ok, GrpcEndpointServer, PostBoxCell, wrote, exit_text, is_online, receive_text, receive_message,
  pop_mail, forward, stream_round,
}
use simple_messenger.GrpcServer.Mail
use simple_messenger.GrpcServer.Refine.{IsSound, receive_text_refines, pop_mail_refines}
use simple_messenger.Client.Texts.{
  write_message_lem, c_string-padded, length-padded, arrived, embed_text_lem,
}
use simple_messenger.Client.Defs.{create_text_envelope, send_round, shown}

-- The text fits, so the client sends it and the server takes it out of the message.
pub send_round_lem :
    (my_id recepient_id : ℕ) (word : List ℕ) (p : Proto.Envelope)
    → NoNul word
    → length word < payload_capacity
    → (buffer : List ℕ) × (q : Proto.Envelope) × (send_round my_id recepient_id word p
        ≡ some (buffer, q))
      × (c_string buffer ≡ some word)
      × (get_env_from_proto_buf q ≡ some (arrived my_id recepient_id word))
unfolding Option.bind send_round create_text_envelope
send_round_lem my_id recepient_id word p clean short =
    let (buffer, written, read, full) = write_message_lem word clean short in
    let blank = create_text_envelope my_id recepient_id in
    let env : Envelope = record blank { payload = buffer } in
    let (q, put, get) =
      get_env-put_env env p word (record { message_type = tt; data_type = tt }) full read in
    (buffer, q, rw (written, embed_text_lem blank buffer refl full, put), read, get)

receive_one :
    (m : Mail.Mail) (my_id recepient_id : ℕ) (word : List ℕ)
    → bytes_eq word exit_text ≡ false
    → m recepient_id ≡ some []
    → let e = arrived my_id recepient_id word in
      Mail.receive m e word ≡ (ok, Mail.put_mail recepient_id (e ∷ []) m)
unfolding Mail.receive Mail.deliver Queue.push get_recepient_id create_text_envelope
receive_one m my_id recepient_id word text idle = rw (text, idle)

pub put_mail_same :
    (user : ℕ) (q : List Envelope) (m : Mail.Mail) → Mail.put_mail user q m user ≡ some q
unfolding Mail.put_mail
put_mail_same user q m = rw (==_refl user)

online_of_mail :
    (o : Option PostBoxCell) (q : List Envelope)
    → Mail.waiting o ≡ some q
    → (b : PostBoxCell) × (o ≡ some b) × (contents b ≡ q)
online_of_mail none q e = absurd (ground arith)
online_of_mail (some b) q e = (b, refl, ap (λ o. Option.get_or o q) e)

forward_lem :
    (env : Envelope) (fwd p : Proto.Envelope) (s : GrpcEndpointServer)
    → put_env_to_proto_buf env fwd ≡ some p
    → forward (some env) fwd s ≡ wrote p s
unfolding forward
forward_lem env fwd p s e = rw (e, forward)

stream_round_lem :
    (storage : List Envelope) (s : GrpcEndpointServer) (user : ℕ) (env : Envelope)
    (fwd p : Proto.Envelope) (b : PostBoxCell)
    → lookup user s.post_box ≡ some b
    → (pop_mail storage s user).0 ≡ some env
    → put_env_to_proto_buf env fwd ≡ some p
    → stream_round storage s user fwd ≡ wrote p (pop_mail storage s user).1
unfolding stream_round is_online
stream_round_lem storage s user env fwd p b online popped put =
    rw (online, popped) (forward_lem env fwd p (pop_mail storage s user).1 put)

pub receive_message_lem :
    (storage : List Envelope) (s : GrpcEndpointServer) (q : Proto.Envelope) (env : Envelope)
    (text : List ℕ)
    → get_env_from_proto_buf q ≡ some env
    → c_string env.payload ≡ some text
    → receive_message storage s q ≡ some (receive_text storage s env text)
unfolding Option.bind receive_message
receive_message_lem storage s q env text get read = rw (get, read)

-- The server takes a message of the client and streams it to a recipient with no other mail.
receive_round_lem :
    (storage : List Envelope) (s : GrpcEndpointServer) (my_id recepient_id : ℕ) (word : List ℕ)
    (q forwarded_env : Proto.Envelope)
    → NoNul word
    → length word < payload_capacity
    → bytes_eq word exit_text ≡ false
    → IsSound s
    → Mail.mail s recepient_id ≡ some []
    → get_env_from_proto_buf q ≡ some (arrived my_id recepient_id word)
    → (s₁ s₂ : GrpcEndpointServer) × (p : Proto.Envelope) × (receive_message storage s q
        ≡ some (ok, s₁))
      × (stream_round storage s₁ recepient_id forwarded_env ≡ wrote p s₂)
      × (get_env_from_proto_buf p ≡ some (arrived my_id recepient_id word))
      × (Mail.mail s₂ recepient_id ≡ some [])
unfolding Queue.pop create_text_envelope
receive_round_lem storage s my_id rec word q fwd clean short text sound idle get =
    let e = arrived my_id rec word in
    let r = receive_text storage s e word in
    let read = c_string-padded word clean short in
    let (status, after, sound₁) = receive_text_refines storage s e word sound in
    let one = receive_one (Mail.mail s) my_id rec word text idle in
    let held : Mail.mail r.1 rec ≡ some (e ∷ []) =
      ap (λ (f : Mail.Mail). f rec) (after ∙ ap (λ x. x.1) one)
      ∙ put_mail_same rec (e ∷ []) (Mail.mail s) in
    let (p, put, get₂) =
      get_env-put_env e fwd word (record { message_type = tt; data_type = tt })
        (length-padded word short) read in
    let (b, online, inside) = online_of_mail (lookup rec r.1.post_box) (e ∷ []) held in
    let (item, left, _) = pop_mail_refines storage r.1 rec sound₁ online in
    (
      r.1,
      (pop_mail storage r.1 rec).1,
      p,
      receive_message_lem storage s q e word get read
          ∙ ap (λ st. some (st, r.1)) (status ∙ ap (λ x. x.0) one),
      stream_round_lem storage r.1 rec e fwd p b online (item ∙ ap (λ l. (Queue.pop l).0) inside)
          put,
      get₂,
      ap (λ (f : Mail.Mail). f rec) left
          ∙ put_mail_same rec (Queue.pop (contents b)).1 (Mail.mail r.1)
          ∙ ap (λ l. some (Queue.pop l).1) inside,
    )

-- A word that is typed at the client of the user `my_id` for a recipient who is online with no mail
-- is sent in one message. The server answers it with `OK`, and the next round of the recipient's
-- stream writes a message of which the recipient's client prints that word; no mail is left. The word
-- has no NUL, leaves room for one in a payload, and is not `exit`, and the post boxes are valid.
pub typed_text_is_shown :
    (storage : List Envelope) (s : GrpcEndpointServer) (my_id recepient_id : ℕ) (word : List ℕ)
    (proto_env forwarded_env : Proto.Envelope)
    → NoNul word
    → length word < payload_capacity
    → bytes_eq word exit_text ≡ false
    → IsSound s
    → Mail.mail s recepient_id ≡ some []
    → (buffer : List ℕ) × (q p : Proto.Envelope) × (s₁ s₂ : GrpcEndpointServer) × (send_round my_id
          recepient_id word proto_env
        ≡ some (buffer, q))
      × (receive_message storage s q ≡ some (ok, s₁))
      × (stream_round storage s₁ recepient_id forwarded_env ≡ wrote p s₂)
      × (shown p ≡ some word)
      × (Mail.mail s₂ recepient_id ≡ some [])
unfolding Option.bind shown
typed_text_is_shown storage s my_id rec word pe fwd clean short text sound idle =
    let (buffer, q, sent, _, get) = send_round_lem my_id rec word pe clean short in
    let (s₁, s₂, p, received, streamed, get₂, none_left) =
      receive_round_lem storage s my_id rec word q fwd clean short text sound idle get in
    (
      buffer,
      q,
      p,
      s₁,
      s₂,
      sent,
      received,
      streamed,
      rw get₂ (c_string-padded word clean short),
      none_left,
    )
