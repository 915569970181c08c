-- ===== src/GrpcServer/Stream.antt =====
-- The order in which the messages for one user come out of `streamIncomingMessages`.
use simple_messenger.Prelude.{
  ℕ, ◌≡◌, refl, sym, ap, ◌∙◌, Option, none, some, List, [], ◌∷◌, ◌++◌, append_assoc, append-nil,
  arith, Option-cases, inl, inr, bytes_eq, ◌==◌, if◌then◌else◌, ==_refl,
}
use mathlib.Core.Option
use simple_messenger.CircularBuffer.Queue
use simple_messenger.CircularBuffer.Refine.{contents}
use simple_messenger.UserMap.{lookup}
use simple_messenger.Message.{Envelope, get_recepient_id}
use simple_messenger.GrpcServer.Defs.{
  Status, ok, cancelled, GrpcEndpointServer, exit_text, is_online, pop_mail, receive_text,
}
use simple_messenger.GrpcServer.Mail
use simple_messenger.GrpcServer.Refine.{IsSound, receive_text_refines, pop_mail_refines}

-- What happens at the server while the stream of a user is open: a message arrives, from anybody
-- and for anybody, or the stream makes a round.
pub data Event : Type 0 where
  arrives : Envelope → List ℕ → Event
  round : Event

pub record History : Type 0 where
  pub server : GrpcEndpointServer
  pub accepted : List Envelope
  pub streamed : List Envelope

abbrev option_list : Option Envelope → List Envelope
option_list none = []
option_list (some e) = e ∷ []

-- The messages for `user` that a call of `receiveMessage` has answered with `OK`.
abbrev pub taken : ℕ → Envelope → List ℕ → Status → List Envelope
taken user env text cancelled = []
taken user env text ok =
    if bytes_eq text exit_text then [] else if get_recepient_id env == user then env ∷ [] else []

pop_order : (q : List Envelope) → option_list (Queue.pop q).0 ++ (Queue.pop q).1 ≡ q
unfolding Queue.pop
pop_order [] = refl
pop_order (x ∷ q) = refl

module _ (storage : List Envelope) (user : ℕ) where
  -- The stream pops a message, and hands it to the client, while the user is online.
  unfoldable pub stream_pop : GrpcEndpointServer → Option Envelope × GrpcEndpointServer
  stream_pop s = if is_online s user then pop_mail storage s user else (none, s)

  unfoldable pub step : History → Event → History
  step h (arrives env text) =
      let (status, s) = receive_text storage h.server env text in
      record h { server = s; accepted = h.accepted ++ taken user env text status }
  step h round =
      let (item, s) = stream_pop h.server in
      record h { server = s; streamed = h.streamed ++ option_list item }

  unfoldable pub run : History → List Event → History
  run h [] = h
  run h (e ∷ es) = run (step h e) es

  -- What has been streamed, and then what waits, is what waited before and was accepted since.
  pub record InOrder (before : List Envelope) (h : History) : Type 0 where
    pub sound : IsSound h.server
    pub order :
        (q : List Envelope)
        → Mail.mail h.server user ≡ some q
        → h.streamed ++ q ≡ before ++ h.accepted

  -- Where a user is online after a call of `receiveMessage`, the post box has grown by what it took.
  receive_mail :
      (m : Mail.Mail) (env : Envelope) (text : List ℕ) (q' : List Envelope)
      → (Mail.receive m env text).1 user ≡ some q'
      → (m user ≡ some (Option.get_or (m user) []))
        × (q' ≡ Option.get_or (m user) [] ++ taken user env text (Mail.receive m env text).0)
  unfolding Mail.receive Mail.deliver Mail.log_out Mail.put_mail Queue.push
  receive_mail m env text q' e = ground (arith, append-nil (Option.get_or (m user) []))

  arrives-InOrder :
      (before : List Envelope) (h : History) (env : Envelope) (text : List ℕ)
      → InOrder before h
      → InOrder before (step h (arrives env text))
  unfolding step
  arrives-InOrder before h env text i =
      let (status, after, sound) = receive_text_refines storage h.server env text i.sound in
      record {
        sound = sound;
        order = λ q' e.
            let m = Mail.mail h.server in
            let (held, grown) =
              receive_mail m env text q' (sym (ap (λ (f : Mail.Mail). f user) after) ∙ e) in
            rw (grown, status, ← append_assoc, i.order _ held, append_assoc);
      }

  round-InOrder :
      (before : List Envelope) (h : History) → InOrder before h → InOrder before (step h round)
  unfolding step stream_pop is_online Mail.put_mail
  round-InOrder before h i = elim (Option-cases (lookup user h.server.post_box)) [
    | inl offline ↦ rw offline (record {
      sound = i.sound;
      order = λ q e. absurd (ground (arith, ap Mail.waiting offline));
    })
    | inr (b, online) ↦
        let (item, after, sound) = pop_mail_refines storage h.server user i.sound online in
        rw online (record {
          sound = sound;
          order = λ q e.
              let rest : q ≡ (Queue.pop (contents b)).1 =
                ground (arith, ap (λ (f : Mail.Mail). f user) after, ==_refl user) in
              rw (rest, item, append_assoc, pop_order (contents b))
                (i.order (contents b) (ap Mail.waiting online));
        })
  ]

  -- Every event keeps the order.
  step-InOrder :
      (before : List Envelope) (h : History) (e : Event)
      → InOrder before h
      → InOrder before (step h e)
  step-InOrder before h (arrives env text) i = arrives-InOrder before h env text i
  step-InOrder before h round i = round-InOrder before h i

  run-InOrder :
      (before : List Envelope) (h : History) (es : List Event)
      → InOrder before h
      → InOrder before (run h es)
  unfolding run
  run-InOrder before h [] i = i
  run-InOrder before h (e ∷ es) i = run-InOrder before (step h e) es (step-InOrder before h e i)

  -- While a user stays online, the stream loses no message, repeats none and reorders none: what it
  -- has popped, followed by what still waits, is what waited at the start followed by the messages
  -- for that user that `receiveMessage` has answered with `OK`, in the order of arrival.
  pub run_streams_in_order :
      (s : GrpcEndpointServer) (before after : List Envelope) (es : List Event)
      → IsSound s
      → Mail.mail s user ≡ some before
      → let h = run (record { server = s; accepted = []; streamed = [] }) es in
        Mail.mail h.server user ≡ some after → h.streamed ++ after ≡ before ++ h.accepted
  run_streams_in_order s before after es sound e e' = (run-InOrder before _ es start).order after e'
    where
      start : InOrder before (record { server = s; accepted = []; streamed = [] })
      start = record {
        sound = sound;
        order = λ q h.
            rw append-nil (
              let same : ◌≡◌ {A = Option (List Envelope)} (some q) (some before) = sym h ∙ e in cc);
      }
