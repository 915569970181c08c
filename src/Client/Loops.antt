-- ===== src/Client/Loops.antt =====
-- The two threads of `grpc_client` in client_app/client_app_main.cpp, `listen` and `send`, and the
-- joins behind them, against a server.
use simple_messenger.Prelude.{
  ℕ, ◌+◌, ◌^◌, ◌≤◌, ◌<◌, ◌≡◌, refl, ap, ◌∙◌, false, Option, none, some, List, [], ◌∷◌, ◌++◌, map,
  length, replicate, ◌==◌, codes, bytes_eq, Option-cases, inl, inr,
}
use mathlib.Core.Option
use simple_messenger.Message.{Envelope}
use simple_messenger.Message.Proto
use simple_messenger.UserMap.{lookup}
use simple_messenger.GrpcServer.Defs.{GrpcEndpointServer, is_online, exit_text, user_of_metadata}
use simple_messenger.GrpcServer.Mail
use simple_messenger.GrpcServer.Metadata.{user_of_metadata-append}
use simple_messenger.GrpcServer.Refine.{IsSound}
use simple_messenger.GrpcServer.StreamCall.{
  Call, returned, running, faulted, stream_incoming_messages, stream_loop_drains, loop_finished,
  round_offline,
}
use simple_messenger.Client.Defs.{GrpcEndpointClient, metadata, listen_others}
use simple_messenger.Client.Texts.{arrived}
use simple_messenger.Client.SendLoop
use simple_messenger.Client.Session.{session, session_delivers}
use simple_messenger.Client.Printed

-- The thread of `listen` has ended with these texts printed, or still reads.
pub data Listening : Type 0 where
  joined : List (List ℕ) → GrpcEndpointServer → Listening
  reading : List (List ℕ) → GrpcEndpointServer → Listening

-- `Read` gives what the stream has written, and fails when the call has returned.
unfoldable pub read_call : Call → Option Listening
read_call (returned status ps s) = Option.map (λ texts. joined texts s) (listen_others ps)
read_call (running ps s) = Option.map (λ texts. reading texts s) (listen_others ps)
read_call faulted = none

module _ (storage : List Envelope) where
  -- `listenOthers`, while others do this to the server in the sleeps of its stream.
  unfoldable pub listen :
      List (GrpcEndpointServer → GrpcEndpointServer)
      → GrpcEndpointClient
      → GrpcEndpointServer
      → Option Listening
  unfolding Option.bind
  listen others c s = Option.bind (stream_incoming_messages storage others (metadata c) s) read_call

  -- The server after the thread of `send`, for the words that are typed; the thread does nothing more
  -- to the server if it reads outside an array.
  unfoldable pub send_effect : ℕ → ℕ → List (List ℕ) → GrpcEndpointServer → GrpcEndpointServer
  send_effect my_id recepient_id words s =
      Option.get_or
        (Option.map (λ r. r.1) (session storage s my_id recepient_id words Proto.empty_envelope)) s

  -- The two threads: the stream makes some rounds, the user types everything in one of its sleeps, and
  -- the stream makes its next rounds. `none` is a read outside an array.
  unfoldable pub grpc_client_loops :
      GrpcEndpointClient → ℕ → List (List ℕ) → ℕ → ℕ → GrpcEndpointServer → Option Listening
  grpc_client_loops c recepient_id words before behind s =
      listen
        (replicate before (λ m. m)
          ++ (send_effect c.user_id recepient_id words ∷ replicate behind (λ m. m)))
        c s

  metadata_names :
      (c : GrpcEndpointClient) → c.user_id < 2 ^ 64 → user_of_metadata (metadata c) ≡ some c.user_id
  unfolding metadata bytes_eq
  metadata_names c h =
      user_of_metadata-append ((codes "username", c.user_name) ∷ []) [] c.user_id (refl, tt) h

  offline_of_mail :
      (s : GrpcEndpointServer) (user : ℕ) → Mail.mail s user ≡ none → is_online s user ≡ false
  unfolding is_online
  offline_of_mail s user h = elim (Option-cases (lookup user s.post_box)) [
    | inl missing ↦ rw missing
    | inr (b, there) ↦ cc (h, ap Mail.waiting there)
  ]

  -- A client with mail waiting reads it, and its user types words, `exit`, and maybe more, for another
  -- user who is online and has room for them: the client prints the texts of the mail in order, both of
  -- its threads end, so that the joins return, the recipient's mail has grown by the words before
  -- `exit`, and the user is offline. The stream makes as many rounds before the user types as messages
  -- wait, everything is typed in one of its sleeps, and nobody else uses the server meanwhile. The
  -- messages that wait hold texts, the words have no NUL and leave room for one in a payload, the id has
  -- 64 bits, and the post boxes are valid.
  pub grpc_client_returns :
      (c : GrpcEndpointClient) (recepient_id behind : ℕ) (words later : List (List ℕ))
      (s : GrpcEndpointServer) (waiting q : List Envelope)
      → c.user_id < 2 ^ 64
      → (c.user_id == recepient_id) ≡ false
      → IsSound s
      → Mail.mail s c.user_id ≡ some waiting
      → Mail.mail s recepient_id ≡ some q
      → Printed.AllTexts waiting
      → SendLoop.AllTexts words
      → length q + length words ≤ 32
      → (s' : GrpcEndpointServer) × (grpc_client_loops c recepient_id
            (words ++ (exit_text ∷ later))
            (length waiting)
            behind
            s
          ≡ some (joined (map Printed.text_of waiting) s'))
        × (Mail.mail s' recepient_id ≡ some (q ++ map (arrived c.user_id recepient_id) words))
        × (Mail.mail s' c.user_id ≡ none)
  unfolding grpc_client_loops listen send_effect read_call stream_incoming_messages Option.bind
  grpc_client_returns c rec behind words later s waiting q small other sound held held_rec texts fit
        room =
      let typed = words ++ (exit_text ∷ later) in
      let after = send_effect c.user_id rec typed in
      let (ps, all, shown) = Printed.listen_others-forward_all waiting Proto.empty_envelope texts in
      let (s₁, p₁, loop, sound₁, empty, same) =
        stream_loop_drains storage waiting (after ∷ replicate behind (λ m. m)) s c.user_id
          Proto.empty_envelope [] ps sound held all in
      let (answers, s₂, done, _, mail, gone, _) =
        session_delivers storage s₁ c.user_id rec words later Proto.empty_envelope q fit other
          sound₁ (same rec other ∙ held_rec) room in
      let left : after s₁ ≡ s₂ = ap (λ r. Option.get_or (Option.map (λ a. a.1) r) s₁) done in
      let offline : is_online (after s₁) c.user_id ≡ false =
        ap (λ m. is_online m c.user_id) left ∙ offline_of_mail s₂ c.user_id gone in
      let ended =
        loop_finished storage after (replicate behind (λ m. m)) s₁ c.user_id p₁ ps
          (round_offline storage (after s₁) c.user_id p₁ offline) in
      (s₂, rw (metadata_names c small, loop, ended, shown, left), mail, gone)
