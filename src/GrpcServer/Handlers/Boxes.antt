-- ===== src/GrpcServer/Handlers/Boxes.antt =====
-- The post box of one user, after an operation on the map.
use simple_messenger.Prelude.{
  ℕ, ◌≡◌, ap, true, false, some, List, arith, Bool-cases, inl, inr, ◌==◌,
}
use simple_messenger.CircularBuffer
use simple_messenger.CircularBuffer.Queue
use simple_messenger.CircularBuffer.Invariant.{IsValid, push-IsValid, pop-IsValid}
use simple_messenger.CircularBuffer.Refine.{contents, push_refines, pop_refines}
use simple_messenger.UserMap.{lookup, lookup-assign, lookup-erase, lookup-emplace}
use simple_messenger.Message.{Envelope}
use simple_messenger.GrpcServer.Defs.{
  GrpcEndpointServer, PostBoxCell, post_box_size, disconnect_user, add_user_to_connected, push_mail,
  pop_mail, cell,
}

module _ (storage : List Envelope) (user : ℕ) where
  -- The user's cell is a valid buffer that holds `q`.
  pub record Box (s : GrpcEndpointServer) (q : List Envelope) : Type 0 where
    pub box : PostBoxCell
    pub there : lookup user s.post_box ≡ some box
    pub valid : IsValid box
    pub holds : contents box ≡ q

  pub logged_out_other :
      (s : GrpcEndpointServer) (sender : ℕ) (q : List Envelope)
      → (sender == user) ≡ false
      → Box s q
      → Box (disconnect_user s sender) q
  unfolding disconnect_user
  logged_out_other s sender q other b = record {
    box = b.box;
    there = rw (lookup-erase sender user s.post_box, other) (b.there);
    valid = b.valid;
    holds = b.holds;
  }

  pub admitted :
      (s : GrpcEndpointServer) (id : ℕ) (raw : PostBoxCell) (q : List Envelope)
      → Box s q
      → Box (add_user_to_connected storage s raw id) q
  unfolding add_user_to_connected
  admitted s id raw q b =
      let fresh_cell : PostBoxCell = CircularBuffer.move_into raw (CircularBuffer.make storage) in
      record {
        box = b.box;
        there = elim (Bool-cases (id == user)) [
          | inl mine ↦
              let same : id ≡ user = ground arith in
              rw (lookup-emplace id user fresh_cell s.post_box, mine, same, b.there)
          | inr other ↦ rw (lookup-emplace id user fresh_cell s.post_box, other) (b.there)
        ];
        valid = b.valid;
        holds = b.holds;
      }

  -- A message for somebody else.
  pub pushed_other :
      (s : GrpcEndpointServer) (r : ℕ) (env : Envelope) (q : List Envelope)
      → (r == user) ≡ false
      → Box s q
      → Box (push_mail storage s r env).1 q
  unfolding push_mail
  pushed_other s r env q other b = record {
    box = b.box;
    there =
        rw (lookup-assign r user (CircularBuffer.push (cell storage s r) env).1 s.post_box, other)
          (b.there);
    valid = b.valid;
    holds = b.holds;
  }

  pub pushed :
      (s : GrpcEndpointServer) (r : ℕ) (env : Envelope) (q : List Envelope)
      → (r == user) ≡ true
      → Box s q
      → ((push_mail storage s r env).0 ≡ (Queue.push post_box_size q env).0)
        × Box (push_mail storage s r env).1 (Queue.push post_box_size q env).1
  unfolding push_mail cell
  pushed s r env q mine b =
      let same : r ≡ user = ground arith in
      let here : cell storage s r ≡ b.box = rw (same, b.there) in
      let refines = push_refines env b.valid in
      (
        rw (here, ← b.holds) (ap (λ p. p.0) refines),
        record {
          box = (CircularBuffer.push b.box env).1;
          there =
              rw (here, lookup-assign r user (CircularBuffer.push b.box env).1 s.post_box, mine);
          valid = push-IsValid env b.valid;
          holds = rw (← b.holds) (ap (λ p. p.1) refines);
        },
      )

  pub popped_other :
      (s : GrpcEndpointServer) (r : ℕ) (q : List Envelope)
      → (r == user) ≡ false
      → Box s q
      → Box (pop_mail storage s r).1 q
  unfolding pop_mail
  popped_other s r q other b = record {
    box = b.box;
    there =
        rw (lookup-assign r user (CircularBuffer.pop (cell storage s r)).1 s.post_box, other)
          (b.there);
    valid = b.valid;
    holds = b.holds;
  }

  pub popped :
      (s : GrpcEndpointServer) (r : ℕ) (q : List Envelope)
      → (r == user) ≡ true
      → Box s q
      → ((pop_mail storage s r).0 ≡ (Queue.pop q).0) × Box (pop_mail storage s r).1 (Queue.pop q).1
  unfolding pop_mail cell
  popped s r q mine b =
      let same : r ≡ user = ground arith in
      let here : cell storage s r ≡ b.box = rw (same, b.there) in
      let refines = pop_refines b.valid in
      (
        rw (here, ← b.holds) (ap (λ p. p.0) refines),
        record {
          box = (CircularBuffer.pop b.box).1;
          there = rw (here, lookup-assign r user (CircularBuffer.pop b.box).1 s.post_box, mine);
          valid = pop-IsValid b.valid;
          holds = rw (← b.holds) (ap (λ p. p.1) refines);
        },
      )
