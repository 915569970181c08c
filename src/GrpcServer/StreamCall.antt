-- ===== src/GrpcServer/StreamCall.antt =====
-- A whole call of `streamIncomingMessages` of server_app/endpoint/GrpcServer.cpp: its user, and its
-- loop, which ends when the user is offline.
use simple_messenger.Prelude.{
  refl, ℕ, ◌≡◌, sym, ap, ◌∙◌, Option, none, some, List, [], ◌∷◌, ◌++◌, append_assoc, append-nil,
  length, replicate, ==_refl, ◌==◌, false, Option-cases, inl, inr,
}
use mathlib.Core.Option
use simple_messenger.CircularBuffer.Queue
use simple_messenger.CircularBuffer.Refine.{contents}
use simple_messenger.UserMap.{lookup, lookup-erase}
use simple_messenger.Message.{Envelope}
use simple_messenger.Message.Proto
use simple_messenger.Message.Convert.{put_env_to_proto_buf}
use simple_messenger.GrpcServer.Defs.{
  Status, ok, GrpcEndpointServer, finished, idle, wrote, fault, is_online, disconnect_user,
  user_of_metadata, forward, stream_round, pop_mail,
}
use simple_messenger.GrpcServer.Mail
use simple_messenger.GrpcServer.Refine.{IsSound, pop_mail_refines}

-- How far a call has come: it has returned, or it runs on, in each case with the messages that it has
-- written and the server; or it has read outside an array.
pub data Call : Type 0 where
  returned : Status → List Proto.Envelope → GrpcEndpointServer → Call
  running : List Proto.Envelope → GrpcEndpointServer → Call
  faulted : Call

-- The messages that the loop writes for what it pops, into one message that is used again and again.
unfoldable pub forward_all : Proto.Envelope → List Envelope → Option (List Proto.Envelope)
unfolding Option.bind
forward_all forwarded_env [] = some []
forward_all forwarded_env (env ∷ rest) =
    Option.bind (put_env_to_proto_buf env forwarded_env)
      (λ p. Option.map (λ ps. p ∷ ps) (forward_all p rest))

forwards_convertible :
    (s : GrpcEndpointServer) (p p' : Proto.Envelope) (env : Envelope)
    → put_env_to_proto_buf env p ≡ some p'
    → forward (some env) p s ≡ wrote p' s
unfolding forward
forwards_convertible s p p' env put = rw (put, forward)

-- If a list is written, so is each of its messages.
record Written (p : Proto.Envelope) (env : Envelope) (q : List Envelope) (ps : List Proto.Envelope)
    : Type 0 where
  first : Proto.Envelope
  later : List Proto.Envelope
  put : put_env_to_proto_buf env p ≡ some first
  more : forward_all first q ≡ some later
  split : ps ≡ first ∷ later

forward_all_cons :
    (p : Proto.Envelope) (env : Envelope) (q : List Envelope) (ps : List Proto.Envelope)
    → forward_all p (env ∷ q) ≡ some ps
    → Written p env q ps
unfolding forward_all Option.bind
forward_all_cons p env q ps all = elim (Option-cases (put_env_to_proto_buf env p)) [
  | inl failed ↦ let broken : forward_all p (env ∷ q) ≡ none = rw failed in cc (all, broken)
  | inr (p₁, put) ↦ elim (Option-cases (forward_all p₁ q)) [
    | inl failed ↦
        let broken : forward_all p (env ∷ q) ≡ none = rw (put, failed) in cc (all, broken)
    | inr (ps₁, more) ↦
        let whole : forward_all p (env ∷ q) ≡ some (p₁ ∷ ps₁) = rw (put, more) in
        record { first = p₁; later = ps₁; put = put; more = more; split = cc (all, whole) }
  ]
]

module _ (storage : List Envelope) where
  -- The loop, a round for each sleep of 200 milliseconds; `others` says what the other handlers do to
  -- the server in each of them.
  unfoldable pub stream_loop :
      List (GrpcEndpointServer → GrpcEndpointServer)
      → ℕ
      → Proto.Envelope
      → List Proto.Envelope
      → GrpcEndpointServer
      → Call
  stream_loop [] user_id forwarded_env written s = running written s
  stream_loop (meanwhile ∷ others) user_id forwarded_env written s =
      elim (stream_round storage (meanwhile s) user_id forwarded_env) [
        | finished ↦ returned ok written (meanwhile s)
        | idle s' ↦ stream_loop others user_id forwarded_env written s'
        | wrote p s' ↦ stream_loop others user_id p (written ++ (p ∷ [])) s'
        | fault ↦ faulted
      ]

  -- `none` is an exception of `std::stoul`.
  unfoldable pub stream_incoming_messages :
      List (GrpcEndpointServer → GrpcEndpointServer)
      → List (List ℕ × List ℕ)
      → GrpcEndpointServer
      → Option Call
  stream_incoming_messages others metadata s =
      Option.map (λ user_id. stream_loop others user_id Proto.empty_envelope [] s)
        (user_of_metadata metadata)

  -- A round in which a message waits that can be converted.
  round_writes :
      (s : GrpcEndpointServer) (user : ℕ) (p p' : Proto.Envelope) (env : Envelope)
      (q : List Envelope)
      → IsSound s
      → Mail.mail s user ≡ some (env ∷ q)
      → put_env_to_proto_buf env p ≡ some p'
      → (s' : GrpcEndpointServer) × (stream_round storage s user p ≡ wrote p' s')
        × IsSound s'
        × (Mail.mail s' user ≡ some q)
        × ((v : ℕ) → (user == v) ≡ false → Mail.mail s' v ≡ Mail.mail s v)
  unfolding stream_round is_online Mail.put_mail Queue.pop
  round_writes s user p p' env q sound held put = elim (Option-cases (lookup user s.post_box)) [
    | inl offline ↦ cc (held, ap Mail.waiting offline)
    | inr (b, online) ↦
        let (item, after, sound') = pop_mail_refines storage s user sound online in
        let items : contents b ≡ env ∷ q = cc (held, ap Mail.waiting online) in
        let found : (pop_mail storage s user).0 ≡ some env =
          item ∙ ap (λ l. (Queue.pop l).0) items in
        (
          (pop_mail storage s user).1,
          rw (online, found) (forwards_convertible (pop_mail storage s user).1 p p' env put),
          sound',
          ap (λ (m : Mail.Mail). m user) after ∙ rw (==_refl user, items),
          λ v other. ap (λ (m : Mail.Mail). m v) after ∙ rw other refl,
        )
  ]

  loop_wrote :
      (meanwhile : GrpcEndpointServer → GrpcEndpointServer)
      (others : List (GrpcEndpointServer → GrpcEndpointServer)) (s s' : GrpcEndpointServer)
      (user : ℕ) (p p' : Proto.Envelope) (written : List Proto.Envelope)
      → stream_round storage (meanwhile s) user p ≡ wrote p' s'
      → stream_loop (meanwhile ∷ others) user p written s
        ≡ stream_loop others user p' (written ++ (p' ∷ [])) s'
  unfolding stream_loop
  loop_wrote meanwhile others s s' user p p' written h = rw (h, stream_loop)

  pub loop_finished :
      (meanwhile : GrpcEndpointServer → GrpcEndpointServer)
      (others : List (GrpcEndpointServer → GrpcEndpointServer)) (s : GrpcEndpointServer) (user : ℕ)
      (p : Proto.Envelope) (written : List Proto.Envelope)
      → stream_round storage (meanwhile s) user p ≡ finished
      → stream_loop (meanwhile ∷ others) user p written s ≡ returned ok written (meanwhile s)
  unfolding stream_loop
  loop_finished meanwhile others s user p written h = rw (h, stream_loop)

  pub round_offline :
      (s : GrpcEndpointServer) (user : ℕ) (p : Proto.Envelope)
      → is_online s user ≡ false
      → stream_round storage s user p ≡ finished
  unfolding stream_round
  round_offline s user p offline = rw offline

  offline_after_log_out :
      (s : GrpcEndpointServer) (user : ℕ) → is_online (disconnect_user s user) user ≡ false
  unfolding is_online disconnect_user
  offline_after_log_out s user = rw (lookup-erase user user s.post_box, ==_refl user)

  -- As many rounds as messages wait, with nothing else going on, and then the rounds of `rest`.
  pub stream_loop_drains :
      (q : List Envelope) (rest : List (GrpcEndpointServer → GrpcEndpointServer))
      (s : GrpcEndpointServer) (user : ℕ) (p : Proto.Envelope) (written ps : List Proto.Envelope)
      → IsSound s
      → Mail.mail s user ≡ some q
      → forward_all p q ≡ some ps
      → (s' : GrpcEndpointServer) × (p' : Proto.Envelope) × (stream_loop
            (replicate (length q) (λ m. m) ++ rest)
            user
            p
            written
            s
          ≡ stream_loop rest user p' (written ++ ps) s')
        × IsSound s'
        × (Mail.mail s' user ≡ some [])
        × ((v : ℕ) → (user == v) ≡ false → Mail.mail s' v ≡ Mail.mail s v)
  unfolding stream_loop forward_all replicate Option.bind
  stream_loop_drains [] rest s user p written ps sound held all =
      let nothing : ps ≡ [] = cc all in
      (s, p, rw (nothing, append-nil written), sound, held, λ v other. refl)
  stream_loop_drains (env ∷ q) rest s user p written ps sound held all =
      let w = forward_all_cons p env q ps all in
      let (s₁, wrote_one, sound₁, held₁, same₁) =
        round_writes s user p w.first env q sound held w.put in
      let (s', p', loop, sound', held', same') =
        stream_loop_drains q rest s₁ user w.first (written ++ (w.first ∷ [])) w.later sound₁ held₁
          w.more in
      (
        s',
        p',
        loop_wrote (λ m. m) (replicate (length q) (λ m. m) ++ rest) s s₁ user p w.first written
              wrote_one
            ∙ loop
            ∙ ap (λ l. stream_loop rest user p' l s')
                (append_assoc written (w.first ∷ []) w.later
                  ∙ ap (λ l. written ++ l) (sym w.split)),
        sound',
        held',
        λ v other. same' v other ∙ same₁ v other,
      )

  -- A call of `streamIncomingMessages` by a user who is online, whose id stands in the metadata and
  -- whose mail can be converted, writes the messages that wait, in order, in as many rounds, which
  -- leaves no mail, and returns OK in the next round if the user is logged out before it. The post boxes
  -- are valid, and the other handlers do nothing before that.
  pub stream_incoming_messages_lem :
      (metadata : List (List ℕ × List ℕ)) (s : GrpcEndpointServer) (user : ℕ) (q : List Envelope)
      (ps : List Proto.Envelope)
      → user_of_metadata metadata ≡ some user
      → IsSound s
      → Mail.mail s user ≡ some q
      → forward_all Proto.empty_envelope q ≡ some ps
      → (s' : GrpcEndpointServer) × (Mail.mail s' user ≡ some [])
        × (stream_incoming_messages
              (replicate (length q) (λ m. m) ++ ((λ m. disconnect_user m user) ∷ []))
              metadata
              s
            ≡ some (returned ok ps (disconnect_user s' user)))
  unfolding stream_incoming_messages
  stream_incoming_messages_lem metadata s user q ps named sound held all =
      let logout : GrpcEndpointServer → GrpcEndpointServer = λ m. disconnect_user m user in
      let (s', p', loop, _, empty, _) =
        stream_loop_drains q (logout ∷ []) s user Proto.empty_envelope [] ps sound held all in
      let ended =
        loop_finished logout [] s' user p' ps
          (round_offline (disconnect_user s' user) user p' (offline_after_log_out s' user)) in
      rw named (s', empty, ap some (loop ∙ ended))
