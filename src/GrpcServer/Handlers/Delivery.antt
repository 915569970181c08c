-- ===== src/GrpcServer/Handlers/Delivery.antt =====
-- What the handlers keep of the messages for one user.
use simple_messenger.Prelude.{
  ℕ, ◌≡◌, refl, sym, ap, ◌∙◌, subst, Bool, false, none, some, List, [], ◌∷◌, ◌++◌, length,
  append_assoc, append-nil, arith, Bool-cases, inl, inr, ◌==◌, if◌then◌else◌,
}
use simple_messenger.CircularBuffer.Queue
use simple_messenger.Message.{Envelope, get_recepient_id, get_sender_id}
use simple_messenger.GrpcServer.Defs.{GrpcEndpointServer, post_box_size, push_mail, pop_mail}
use simple_messenger.GrpcServer.Handlers.{
  Handlers, start, log_for, Step, arrives, logs_out, refuses, passes, pushes, opens, ends, goes_on,
  finds_none, writes, admits, Steps, done, next, Moves, NoOverlap, steps_of,
}
use simple_messenger.GrpcServer.Handlers.Boxes.{
  Box, logged_out_other, admitted, pushed_other, pushed, popped_other, popped,
}

-- Where `push` and `pop` leave what went before.
push_order :
    (n : ℕ) (q streamed before accepted : List Envelope) (env : Envelope)
    → streamed ++ q ≡ before ++ accepted
    → streamed ++ (Queue.push n q env).1
      ≡ before ++ (if (Queue.push n q env).0 then accepted ++ (env ∷ []) else accepted)
unfolding Queue.push
push_order n q streamed before accepted env e = elim (Bool-cases (length q == n)) [
  | inl full ↦ rw full e
  | inr room ↦
      rw (room, ← append_assoc streamed q (env ∷ []), e, append_assoc before accepted (env ∷ []))
]

nothing_popped : (q : List Envelope) → (Queue.pop q).0 ≡ none → (Queue.pop q).1 ≡ q
unfolding Queue.pop
nothing_popped [] e = refl
nothing_popped (x ∷ q) e = cc e

pop_order :
    (q : List Envelope) (env : Envelope) → (Queue.pop q).0 ≡ some env → env ∷ (Queue.pop q).1 ≡ q
unfolding Queue.pop
pop_order [] env e = cc e
pop_order (x ∷ q) env e = cc e

module _ (storage : List Envelope) (user : ℕ) (before : List Envelope) where
  -- Until the user is logged out, what has been streamed and then what waits is what waited before
  -- and was accepted since.
  abbrev Order : GrpcEndpointServer → List Envelope → List Envelope → Type 0
  Order s accepted streamed =
      (q : List Envelope) × Box storage user s q × (streamed ++ q ≡ before ++ accepted)

  abbrev Kept : Handlers → Type 0
  Kept h = h.left ≡ false → Order h.server h.accepted h.streamed

  pushes-Order :
      (h : Handlers) (env : Envelope)
      → Order h.server h.accepted h.streamed
      → let r = push_mail storage h.server (get_recepient_id env) env in
        Order r.1
          (if r.0 then log_for (get_recepient_id env == user) env h.accepted else h.accepted)
          h.streamed
  unfolding log_for
  pushes-Order h env (q, box, order) =
      let r = push_mail storage h.server (get_recepient_id env) env in
      elim (Bool-cases (get_recepient_id env == user)) [
        | inl mine ↦
            let (answer, grown) =
              pushed storage user h.server (get_recepient_id env) env q mine box in
            (
              (Queue.push post_box_size q env).1,
              grown,
              rw (answer, mine) (push_order post_box_size q h.streamed before h.accepted env order),
            )
        | inr other ↦ (
          q,
          pushed_other storage user h.server (get_recepient_id env) env q other box,
          elim (Bool-cases r.0) [
            | inl yes_done ↦ rw (yes_done, other) order
            | inr not_done ↦ rw not_done order
          ],
        )
      ]

  pops-Order :
      (s : GrpcEndpointServer) (id : ℕ) (accepted streamed : List Envelope)
      → Order s accepted streamed
      → let r = pop_mail storage s id in
        (r.0 ≡ none → Order r.1 accepted streamed)
        × ((env : Envelope)
            → r.0 ≡ some env
            → Order r.1 accepted (log_for (id == user) env streamed))
  unfolding log_for
  pops-Order s id accepted streamed (q, box, order) = elim (Bool-cases (id == user)) [
    | inl mine ↦
        let (item, rest) = popped storage user s id q mine box in
        (
          λ empty. ((Queue.pop q).1, rest, rw (nothing_popped q (sym item ∙ empty)) order),
          λ env found. (
            (Queue.pop q).1,
            rest,
            rw
                (
                  mine,
                  append_assoc streamed (env ∷ []) (Queue.pop q).1,
                  pop_order q env (sym item ∙ found),
                )
                order,
          ),
        )
    | inr other ↦
        let after = popped_other storage user s id q other box in
        (λ empty. (q, after, order), λ env found. (q, after, rw other order))
  ]

  Step-Kept : {h h' : Handlers} → Step storage user h h' → Kept h → Kept h'
  unfolding log_for
  Step-Kept (arrives i p env text at_rest read ends_there) k = k
  Step-Kept {h} (logs_out i env text testing is_exit) k = λ stays.
      let (q, box, order) = k (ground arith) in
      let other : (get_sender_id env == user) ≡ false = ground arith in
      (q, logged_out_other storage user h.server (get_sender_id env) q other box, order)
  Step-Kept (refuses i env text testing no_exit offline) k = k
  Step-Kept (passes i env text testing no_exit online) k = k
  Step-Kept {h} (pushes i env answer s pushing push inside) k = λ stays.
      subst
        (λ (r : Bool × GrpcEndpointServer).
          Order r.1
            (if r.0 then log_for (get_recepient_id env == user) env h.accepted else h.accepted)
            h.streamed)
        push (pushes-Order h env (k stays))
  Step-Kept (opens j id closed_before) k = k
  Step-Kept (ends j id p asking offline) k = k
  Step-Kept (goes_on j id p asking online) k = k
  Step-Kept {h} (finds_none j id p s popping pop empty) k = λ stays.
      let after = (pops-Order h.server id h.accepted h.streamed (k stays)).0 in
      subst (λ (r : GrpcEndpointServer). Order r h.accepted h.streamed) (ap (λ r. r.1) pop)
        (after (ap (λ r. r.0) pop))
  Step-Kept {h} (writes j id p p' env s popping pop put) k = λ stays.
      let after = (pops-Order h.server id h.accepted h.streamed (k stays)).1 env in
      subst (λ (r : GrpcEndpointServer). Order r h.accepted (log_for (id == user) env h.streamed))
        (ap (λ r. r.1) pop) (after (ap (λ r. r.0) pop))
  Step-Kept {h} (admits id raw) k = λ stays.
      let (q, box, order) = k stays in (q, admitted storage user h.server id raw q box, order)

  Steps-Kept : {h h' : Handlers} → Steps storage user h h' → Kept h → Kept h'
  Steps-Kept done k = k
  Steps-Kept (next step more) k = Steps-Kept more (Step-Kept step k)

  -- However many calls of `receiveMessage` and `streamIncomingMessages` run at once, and wherever the
  -- others run between their tests and their accesses to the map, the messages for a user are
  -- streamed once each and in order until the user is logged out: those that the streams of the user
  -- have handed over, followed by those that wait, are those that waited before, followed by those that
  -- were pushed since. The user is online at the start, with a valid post box, no access to the map
  -- without its lock overlaps another use of the map, and none is outside the array of a cell.
  pub handlers_in_order :
      (s : GrpcEndpointServer) (h : Handlers)
      → Box storage user s before
      → (run : Moves storage user (start s) h) → NoOverlap storage user run
      → h.left ≡ false
      → (q : List Envelope) × Box storage user h.server q × (h.streamed ++ q ≡ before ++ h.accepted)
  handlers_in_order s h box run apart =
      Steps-Kept (steps_of storage user run apart) (λ _. (before, box, sym (append-nil before)))
