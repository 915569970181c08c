-- ===== src/GrpcServer/Handlers/Admitted.antt =====
-- Who has a post box: the users that `acceptConnection` has admitted.
use simple_messenger.Prelude.{
  Bool, Option, ℕ, ◌≡◌, sym, ap, ◌∙◌, true, ◌⊎◌, List, [], ◌∷◌, ◌++◌, arith, inl, inr, In, subst,
  update, moved,
}
use simple_messenger.CircularBuffer
use simple_messenger.UserMap.{lookup, lookup-assign, lookup-erase, lookup-emplace}
use simple_messenger.Message.Proto
use simple_messenger.Message.{Envelope, get_recepient_id, get_sender_id}
use simple_messenger.GrpcServer.Defs.{
  ok, cancelled, GrpcEndpointServer, PostBoxCell, is_online, disconnect_user, add_user_to_connected,
  push_mail, pop_mail, cell,
}
use simple_messenger.GrpcServer.Handlers.{
  Receiver, Stream, testing, pushing, answered, asking, popping, returned, Handlers, start,
  status_of, Step, arrives, logs_out, refuses, passes, pushes, opens, ends, goes_on, finds_none,
  writes, admits, Steps, done, next, Moves, NoOverlap, steps_of,
}

module _ (storage : List Envelope) (user : ℕ) where
  -- The ids that a step, and a run, admits; the last one first.
  unfoldable pub admitted_by : {h h' : Handlers} → Step storage user h h' → List ℕ
  admitted_by (admits id raw) = id ∷ []
  admitted_by (arrives i p env text at_rest read ends_there) = []
  admitted_by (logs_out i env text at_test is_exit) = []
  admitted_by (refuses i env text at_test no_exit offline) = []
  admitted_by (passes i env text at_test no_exit online) = []
  admitted_by (pushes i env answer s at_push push inside) = []
  admitted_by (opens j id before) = []
  admitted_by (ends j id p at_test offline) = []
  admitted_by (goes_on j id p at_test online) = []
  admitted_by (finds_none j id p s at_pop pop empty) = []
  admitted_by (writes j id p p' env s at_pop pop put) = []

  unfoldable pub admitted_in : {h h' : Handlers} → List ℕ → Steps storage user h h' → List ℕ
  admitted_in ids done = ids
  admitted_in ids (next step more) = admitted_in (admitted_by step ++ ids) more

-- The server knows the users that are online, and those for whom a handler has passed its test.
record Known (ids : List ℕ) (h : Handlers) : Type 0 where
  online : (u : ℕ) → is_online h.server u ≡ true → In u ids
  pushing_known :
      (i : ℕ) (env : Envelope) → h.receivers i ≡ pushing env → In (get_recepient_id env) ids
  popping_known : (j u : ℕ) (p : Proto.Envelope) → h.streams j ≡ popping u p → In u ids

module _ (storage : List Envelope) where
  online_of_log_out :
      (s : GrpcEndpointServer) (v u : ℕ)
      → is_online (disconnect_user s v) u ≡ true
      → is_online s u ≡ true
  unfolding is_online disconnect_user
  online_of_log_out s v u h = ground (arith, lookup-erase v u s.post_box)

  online_of_push :
      (s : GrpcEndpointServer) (v u : ℕ) (env : Envelope)
      → is_online (push_mail storage s v env).1 u ≡ true
      → (v ≡ u) ⊎ (is_online s u ≡ true)
  unfolding is_online push_mail
  online_of_push s v u env h =
      ground (arith, lookup-assign v u (CircularBuffer.push (cell storage s v) env).1 s.post_box)

  online_of_pop :
      (s : GrpcEndpointServer) (v u : ℕ)
      → is_online (pop_mail storage s v).1 u ≡ true
      → (v ≡ u) ⊎ (is_online s u ≡ true)
  unfolding is_online pop_mail
  online_of_pop s v u h =
      ground (arith, lookup-assign v u (CircularBuffer.pop (cell storage s v)).1 s.post_box)

  online_of_admit :
      (s : GrpcEndpointServer) (raw : PostBoxCell) (v u : ℕ)
      → is_online (add_user_to_connected storage s raw v) u ≡ true
      → (v ≡ u) ⊎ (is_online s u ≡ true)
  unfolding is_online add_user_to_connected
  online_of_admit s raw v u h =
      let c : PostBoxCell = CircularBuffer.move_into raw (CircularBuffer.make storage) in
      ground (arith, lookup-emplace v u c s.post_box)

  -- One call of `receiveMessage`, or one of `streamIncomingMessages`, has moved on.
  receiver_moves :
      (ids : List ℕ) (h : Handlers) (s : GrpcEndpointServer) (i : ℕ) (r : Receiver)
      (accepted : List Envelope) (left : Bool)
      → Known ids h
      → ((u : ℕ) → is_online s u ≡ true → In u ids)
      → ((env : Envelope) → r ≡ pushing env → In (get_recepient_id env) ids)
      → Known ids (record h {
        server = s;
        receivers = update h.receivers i r;
        accepted = accepted;
        left = left;
      })
  receiver_moves ids h s i r accepted left k online here = record {
    online = online;
    pushing_known =
        λ j env e. moved h.receivers i r j (pushing env) e (here env) (k.pushing_known j env);
    popping_known = k.popping_known;
  }

  stream_moves :
      (ids : List ℕ) (h : Handlers) (s : GrpcEndpointServer) (j : ℕ) (r : Stream)
      (streamed : List Envelope)
      → Known ids h
      → ((u : ℕ) → is_online s u ≡ true → In u ids)
      → ((u : ℕ) (p : Proto.Envelope) → r ≡ popping u p → In u ids)
      → Known ids (record h { server = s; streams = update h.streams j r; streamed = streamed })
  stream_moves ids h s j r streamed k online here = record {
    online = online;
    pushing_known = k.pushing_known;
    popping_known =
        λ i u p e. moved h.streams j r i (popping u p) e (here u p) (k.popping_known i u p);
  }

  module _ (user : ℕ) where
    Step-Known :
        (ids : List ℕ) {h h' : Handlers} (step : Step storage user h h')
        → Known ids h
        → Known (admitted_by storage user step ++ ids) h'
    unfolding admitted_by
    Step-Known ids {h} (arrives i p env text at_rest read ends_there) k =
        receiver_moves ids h h.server i (testing env text) h.accepted h.left k k.online
          (λ m e. cc e)
    Step-Known ids {h} (logs_out i env text at_test is_exit) k =
        receiver_moves ids h (disconnect_user h.server (get_sender_id env)) i (answered ok)
          h.accepted _ k (λ u e. k.online u (online_of_log_out h.server (get_sender_id env) u e))
          (λ m e. cc e)
    Step-Known ids {h} (refuses i env text at_test no_exit offline) k =
        receiver_moves ids h h.server i (answered cancelled) h.accepted h.left k k.online
          (λ m e. cc e)
    Step-Known ids {h} (passes i env text at_test no_exit online) k =
        receiver_moves ids h h.server i (pushing env) h.accepted h.left k k.online (λ m e.
          let same : env ≡ m = cc e in
          subst (λ (x : Envelope). In (get_recepient_id x) ids) same
            (k.online (get_recepient_id env) online))
    Step-Known ids {h} (pushes i env answer s at_push push inside) k =
        receiver_moves ids h s i (answered (status_of answer)) _ h.left k
          (λ u e.
            elim (online_of_push h.server (get_recepient_id env) u env
              (ap (λ (r : Bool × GrpcEndpointServer). is_online r.1 u) push ∙ e)) [
                | inl mine ↦ subst (λ v. In v ids) mine (k.pushing_known i env at_push)
                | inr before ↦ k.online u before
              ])
          (λ m e. cc e)
    Step-Known ids {h} (opens j id before) k =
        stream_moves ids h h.server j (asking id Proto.empty_envelope) h.streamed k k.online
          (λ u p e. cc e)
    Step-Known ids {h} (ends j id p at_test offline) k =
        stream_moves ids h h.server j returned h.streamed k k.online (λ u p e. cc e)
    Step-Known ids {h} (goes_on j id p at_test online) k =
        stream_moves ids h h.server j (popping id p) h.streamed k k.online
          (λ u q e. let same : id ≡ u = cc e in subst (λ v. In v ids) same (k.online id online))
    Step-Known ids {h} (finds_none j id p s at_pop pop empty) k =
        stream_moves ids h s j (asking id p) h.streamed k
          (λ u e.
            elim (online_of_pop h.server id u
              (ap (λ (r : Option Envelope × GrpcEndpointServer). is_online r.1 u) pop ∙ e)) [
                | inl mine ↦ subst (λ v. In v ids) mine (k.popping_known j id p at_pop)
                | inr before ↦ k.online u before
              ])
          (λ u q e. cc e)
    Step-Known ids {h} (writes j id p p' env s at_pop pop put) k =
        stream_moves ids h s j (asking id p') _ k
          (λ u e.
            elim (online_of_pop h.server id u
              (ap (λ (r : Option Envelope × GrpcEndpointServer). is_online r.1 u) pop ∙ e)) [
                | inl mine ↦ subst (λ v. In v ids) mine (k.popping_known j id p at_pop)
                | inr before ↦ k.online u before
              ])
          (λ u q e. cc e)
    Step-Known ids {h} (admits id raw) k = record {
      online = λ u e. elim (online_of_admit h.server raw id u e) [
        | inl mine ↦ inl (sym mine)
        | inr before ↦ inr (k.online u before)
      ];
      pushing_known = λ i env e. inr (k.pushing_known i env e);
      popping_known = λ j u p e. inr (k.popping_known j u p e);
    }

    Steps-Known :
        (ids : List ℕ) {h h' : Handlers} (steps : Steps storage user h h')
        → Known ids h
        → Known (admitted_in storage user ids steps) h'
    unfolding admitted_in
    Steps-Known ids done k = k
    Steps-Known ids (next step more) k =
        Steps-Known (admitted_by storage user step ++ ids) more (Step-Known ids step k)

    nobody_Known : Known [] (start (record { post_box = [] }))
    unfolding is_online lookup
    nobody_Known = record {
      online = λ u e. cc e;
      pushing_known = λ i env e. cc e;
      popping_known = λ j u p e. cc e;
    }

    -- From the server with no post boxes, whatever handlers run and however they interleave, a user is
    -- online only if `acceptConnection` has admitted the user before: no message, stream or log-out makes
    -- a post box for anybody else. No access to the map without its lock overlaps another use of the map,
    -- and none is outside the array of a cell.
    pub online_was_admitted :
        {h : Handlers} (run : Moves storage user (start (record { post_box = [] })) h)
        (apart : NoOverlap storage user run) (u : ℕ)
        → is_online h.server u ≡ true
        → In u (admitted_in storage user [] (steps_of storage user run apart))
    online_was_admitted run apart u e =
        (Steps-Known [] (steps_of storage user run apart) nobody_Known).online u e
