-- ===== src/GrpcServer/Refine.antt =====
-- The handlers implement the specification of `GrpcServer.Mail`.
use simple_messenger.Prelude.{
  ℕ, ◌≡◌, refl, ap, subst, ◌∙◌, Option, some, List, arith, Bool-cases, Option-cases, inl, inr,
  bytes_eq, ◌==◌, if◌then◌else◌,
}
use mathlib.Core.Path.{fun_ext}
use simple_messenger.CircularBuffer
use simple_messenger.CircularBuffer.Invariant.{IsValid, push-IsValid, pop-IsValid}
use simple_messenger.CircularBuffer.Queue
use simple_messenger.CircularBuffer.Refine.{contents, push_refines, pop_refines}
use simple_messenger.UserMap.{lookup, assign, lookup-assign, lookup-erase}
use simple_messenger.Message.{Envelope, get_sender_id, get_recepient_id}
use simple_messenger.GrpcServer.Defs.{
  ok, cancelled, GrpcEndpointServer, PostBoxCell, post_box_size, exit_text, is_online,
  disconnect_user, cell, push_mail, pop_mail, receive_text,
}
use simple_messenger.GrpcServer.Mail

-- Every post box is a valid circular buffer.
abbrev pub IsSound : GrpcEndpointServer → Type 0
IsSound s = (user : ℕ) (b : PostBoxCell) → lookup user s.post_box ≡ some b → IsValid b

-- The memory in which a cell is built is zero where the move constructor leaves it alone.
pub record IsZeroed (raw : PostBoxCell) : Type 0 where
  pub begin_zero : raw.begin_pos ≡ 0
  pub end_zero : raw.end_pos ≡ 0
  pub size_zero : raw.size ≡ 0

disconnect_user_refines :
    (s : GrpcEndpointServer) (user : ℕ)
    → Mail.mail (disconnect_user s user) ≡ Mail.log_out user (Mail.mail s)
unfolding disconnect_user Mail.log_out
disconnect_user_refines s user = fun_ext (λ v. rw (lookup-erase user v s.post_box) (ground arith))

pub disconnect_user-IsSound :
    (s : GrpcEndpointServer) (user : ℕ) → IsSound s → IsSound (disconnect_user s user)
unfolding disconnect_user
disconnect_user-IsSound s user sound v b e =
    sound v b (ground (arith, lookup-erase user v s.post_box))

module _ (storage : List Envelope) where
  -- Assigning one cell changes the mail of its user alone.
  mail-assign :
      (s : GrpcEndpointServer) (user : ℕ) (b : PostBoxCell)
      → Mail.mail (record s { post_box = assign user b s.post_box })
        ≡ Mail.put_mail user (contents b) (Mail.mail s)
  unfolding Mail.put_mail
  mail-assign s user b = fun_ext (λ v. rw (lookup-assign user v b s.post_box) (ground arith))

  assign-IsSound :
      (s : GrpcEndpointServer) (user : ℕ) (b : PostBoxCell)
      → IsValid b
      → IsSound s
      → IsSound (record s { post_box = assign user b s.post_box })
  assign-IsSound s user b valid sound v c e = elim (Bool-cases (user == v)) [
    | inl same ↦
        let hit : ◌≡◌ {A = Option PostBoxCell} (some b) (some c) =
          ground (arith, lookup-assign user v b s.post_box) in
        let equal : b ≡ c = cc in subst IsValid equal valid
    | inr other ↦ sound v c (ground (arith, lookup-assign user v b s.post_box))
  ]

  cell_lem :
      (s : GrpcEndpointServer) (user : ℕ) {b : PostBoxCell}
      → lookup user s.post_box ≡ some b
      → cell storage s user ≡ b
  unfolding cell
  cell_lem s user e = rw e

  -- `post_box[user].push(env)` for a user that is online.
  pub push_mail_refines :
      (s : GrpcEndpointServer) (user : ℕ) (env : Envelope) {b : PostBoxCell}
      → IsSound s
      → lookup user s.post_box ≡ some b
      → let r = push_mail storage s user env in
        let q = Queue.push post_box_size (contents b) env in
        (r.0 ≡ q.0) × (Mail.mail r.1 ≡ Mail.put_mail user q.1 (Mail.mail s)) × IsSound r.1
  unfolding push_mail
  push_mail_refines s user env {b} sound e =
      let pushed = push_refines env (sound user b e) in
      rw (cell_lem s user e) (
        ap (λ r. r.0) pushed,
        mail-assign s user (CircularBuffer.push b env).1
            ∙ ap (λ r. Mail.put_mail user r.1 (Mail.mail s)) pushed,
        assign-IsSound s user (CircularBuffer.push b env).1 (push-IsValid env (sound user b e))
            sound,
      )

  -- `post_box[user].pop()` for a user that is online.
  pub pop_mail_refines :
      (s : GrpcEndpointServer) (user : ℕ) {b : PostBoxCell}
      → IsSound s
      → lookup user s.post_box ≡ some b
      → let r = pop_mail storage s user in
        let q = Queue.pop (contents b) in
        (r.0 ≡ q.0) × (Mail.mail r.1 ≡ Mail.put_mail user q.1 (Mail.mail s)) × IsSound r.1
  unfolding pop_mail
  pop_mail_refines s user {b} sound e =
      let popped = pop_refines (sound user b e) in
      rw (cell_lem s user e) (
        ap (λ r. r.0) popped,
        mail-assign s user (CircularBuffer.pop b).1
            ∙ ap (λ r. Mail.put_mail user r.1 (Mail.mail s)) popped,
        assign-IsSound s user (CircularBuffer.pop b).1 (pop-IsValid (sound user b e)) sound,
      )

  -- `receiveMessage`, from the envelope on, answers as the specification does on every branch, and
  -- leaves the mail that it says; the post boxes stay valid circular buffers.
  pub receive_text_refines :
      (s : GrpcEndpointServer) (env : Envelope) (text : List ℕ)
      → IsSound s
      → let r = receive_text storage s env text in
        let spec = Mail.receive (Mail.mail s) env text in
        (r.0 ≡ spec.0) × (Mail.mail r.1 ≡ spec.1) × IsSound r.1
  unfolding receive_text Mail.receive is_online Mail.deliver
  receive_text_refines s env text sound = elim (Bool-cases (bytes_eq text exit_text)) [
    | inl leaving ↦ rw leaving (
      refl,
      disconnect_user_refines s (get_sender_id env),
      disconnect_user-IsSound s (get_sender_id env) sound,
    )
    | inr staying ↦ elim (Option-cases (lookup (get_recepient_id env) s.post_box)) [
      | inl offline ↦ rw (staying, offline) (refl, refl, sound)
      | inr (b, online) ↦
          let (done, left, sound') = push_mail_refines s (get_recepient_id env) env sound online in
          rw (staying, online) (ap (λ d. if d then ok else cancelled) done, left, sound')
    ]
  ]
