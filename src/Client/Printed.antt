-- ===== src/Client/Printed.antt =====
-- The texts that a client prints, over all that happens at the server while it listens.
use simple_messenger.Prelude.{
  ℕ, ◌≡◌, refl, some, List, [], ◌∷◌, ◌++◌, map, length, arith, bytes_eq, ◌==◌, Bool-cases, inl, inr,
  sym, subst, ap, ◌∙◌,
}
use mathlib.Core.Option
use mathlib.Core.List.{map-append}
use simple_messenger.Message.{get_recepient_id, Envelope, payload_capacity}
use simple_messenger.GrpcServer.Defs.{
  exit_text, Status, ok, cancelled, GrpcEndpointServer, receive_text,
}
use simple_messenger.GrpcServer.Refine.{IsSound}
use simple_messenger.GrpcServer.Mail
use simple_messenger.GrpcServer.Stream.{
  taken, History, step, run, run_streams_in_order, Event, arrives, round,
}
use simple_messenger.GrpcServer.StreamCall.{forward_all}
use simple_messenger.Memory.{c_string, c_string-NoNul}
use simple_messenger.Message.Proto
use simple_messenger.Message.Convert.{put_env_to_proto_buf}
use simple_messenger.Message.Convert.RoundTrip.{IsNamed, get_env-put_env}
use simple_messenger.Client.Defs.{shown, listen_others}
use simple_messenger.Client.Texts.{c_string-padded}

-- An envelope as `getEnvFromProtoBuf` makes it of a text that fits.
pub record IsText (env : Envelope) : Type 0 where
  pub text : List ℕ
  pub named : IsNamed env
  pub sized : length env.payload ≡ payload_capacity
  pub ends : c_string env.payload ≡ some text

abbrev pub text_of : Envelope → List ℕ
text_of env = Option.get_or (c_string env.payload) []

abbrev pub AllTexts : List Envelope → Type 0
AllTexts [] = Unit
AllTexts (e ∷ es) = IsText e × AllTexts es

-- What a client prints of one message.
shown_lem :
    (env : Envelope) (p : Proto.Envelope)
    → IsText env
    → (q : Proto.Envelope) × (put_env_to_proto_buf env p ≡ some q) × (shown q ≡ some (text_of env))
unfolding Option.bind shown
shown_lem env p t =
    let (q, put, get) = get_env-put_env env p (t.text) (t.named) (t.sized) (t.ends) in
    let (clean, short) = c_string-NoNul env.payload (t.text) (t.ends) in
    (q, put, rw (get, t.ends) (c_string-padded (t.text) clean (omega arith)))

-- What is written for a list of texts is printed as these texts, in order.
pub listen_others-forward_all :
    (es : List Envelope) (p : Proto.Envelope)
    → AllTexts es
    → (ps : List Proto.Envelope) × (forward_all p es ≡ some ps)
      × (listen_others ps ≡ some (map text_of es))
unfolding Option.bind forward_all listen_others
listen_others-forward_all [] p t = ([], refl, refl)
listen_others-forward_all (e ∷ es) p (t, ts) =
    let (q, put, show) = shown_lem e p t in
    let (qs, more, texts) = listen_others-forward_all es q ts in
    (q ∷ qs, rw (put, more), rw (show, texts))

AllTexts-left : (xs ys : List Envelope) → AllTexts (xs ++ ys) → AllTexts xs
AllTexts-left [] ys t = tt
AllTexts-left (x ∷ xs) ys (t, ts) = (t, AllTexts-left xs ys ts)

AllTexts-append : (xs ys : List Envelope) → AllTexts xs → AllTexts ys → AllTexts (xs ++ ys)
AllTexts-append [] ys tx ty = ty
AllTexts-append (x ∷ xs) ys (t, tx) ty = (t, AllTexts-append xs ys tx ty)

-- Every message that arrives holds a text.
abbrev pub AllArrive : List Event → Type 0
AllArrive [] = Unit
AllArrive (arrives env text ∷ es) = IsText env × (c_string env.payload ≡ some text) × AllArrive es
AllArrive (round ∷ es) = AllArrive es

taken-AllTexts :
    (user : ℕ) (env : Envelope) (text : List ℕ) (status : Status)
    → IsText env
    → AllTexts (taken user env text status)
taken-AllTexts user env text cancelled t = tt
taken-AllTexts user env text ok t = elim (Bool-cases (bytes_eq text exit_text)) [
  | inl leaving ↦ rw leaving tt
  | inr staying ↦ elim (Bool-cases (get_recepient_id env == user)) [
    | inl mine ↦ rw (staying, mine) (t, tt)
    | inr other ↦ rw (staying, other) tt
  ]
]

module _ (storage : List Envelope) (user : ℕ) where
  run-AllTexts :
      (h : History) (es : List Event)
      → AllTexts h.accepted
      → AllArrive es
      → AllTexts (run storage user h es).accepted
  unfolding run step
  run-AllTexts h [] t a = t
  run-AllTexts h (arrives env text ∷ es) t (good, _, a) =
      let status = (receive_text storage h.server env text).0 in
      run-AllTexts (step storage user h (arrives env text)) es
        (AllTexts-append h.accepted (taken user env text status) t
          (taken-AllTexts user env text status good))
        a
  run-AllTexts h (round ∷ es) t a = run-AllTexts (step storage user h round) es t a

  -- While a user stays online and every message that arrives holds a text in an envelope of the right
  -- size, whatever messages arrive and however the rounds of the user's stream fall between them: the
  -- stream writes messages of which the user's client prints texts, and these, followed by the texts
  -- that still wait at the server, are the texts that waited at the start followed by those that
  -- `receiveMessage` has accepted for the user, in order. The post boxes are valid.
  pub printed_in_order :
      (s : GrpcEndpointServer) (before after : List Envelope) (es : List Event)
      (forwarded_env : Proto.Envelope)
      → IsSound s
      → Mail.mail s user ≡ some before
      → AllTexts before
      → AllArrive es
      → let h = run storage user (record { server = s; accepted = []; streamed = [] }) es in
        Mail.mail h.server user ≡ some after
        → (ps : List Proto.Envelope) × (texts : List (List ℕ)) × (forward_all forwarded_env
              h.streamed
            ≡ some ps)
          × (listen_others ps ≡ some texts)
          × (texts ++ map text_of after ≡ map text_of (before ++ h.accepted))
  printed_in_order s before after es fwd sound waits tb arriving online =
      let h = run storage user (record { server = s; accepted = []; streamed = [] }) es in
      let order = run_streams_in_order storage user s before after es sound waits online in
      let accepted =
        run-AllTexts (record { server = s; accepted = []; streamed = [] }) es tt arriving in
      let all = subst AllTexts (sym order) (AllTexts-append before h.accepted tb accepted) in
      let (ps, written, printed) =
        listen_others-forward_all h.streamed fwd (AllTexts-left h.streamed after all) in
      (
        ps,
        map text_of h.streamed,
        written,
        printed,
        sym (map-append text_of h.streamed after) ∙ ap (map text_of) order,
      )
