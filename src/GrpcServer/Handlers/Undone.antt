-- ===== src/GrpcServer/Handlers/Undone.antt =====
-- A user who has typed `exit` while the stream of the user was between its test and its `pop`.
use simple_messenger.Prelude.{ℕ, ◌≡◌, refl, ap, ◌∙◌, true, some, none, List, ==_refl, bytes_eq_refl}
use simple_messenger.CircularBuffer
use simple_messenger.Memory.{c_string}
use simple_messenger.UserMap.{erase, assign, lookup-erase, lookup-assign}
use simple_messenger.Message.{Envelope, get_sender_id}
use simple_messenger.Message.Proto
use simple_messenger.Message.Convert.{get_env_from_proto_buf}
use simple_messenger.GrpcServer.Defs.{
  ok, GrpcEndpointServer, exit_text, is_online, disconnect_user, pop_mail, cell,
}
use simple_messenger.GrpcServer.Handlers.{
  Handlers, start, asking, answered, arrives, logs_out, opens, goes_on, finds_none, Steps, done,
  next,
}

module _ (storage : List Envelope) (user : ℕ) where
  -- The `pop` makes a new cell, which is empty.
  pop_after_log_out :
      (s : GrpcEndpointServer)
      → pop_mail storage (disconnect_user s user) user ≡ (
        none,
        record { post_box = assign user (CircularBuffer.make storage) (erase user s.post_box) },
      )
  unfolding pop_mail disconnect_user cell CircularBuffer.pop CircularBuffer.make
  pop_after_log_out s = rw (lookup-erase user user s.post_box, ==_refl user)

  cell_after_log_out :
      (s : GrpcEndpointServer)
      → CircularBuffer.is_empty (cell storage (disconnect_user s user) user) ≡ true
  unfolding disconnect_user cell CircularBuffer.is_empty CircularBuffer.make
  cell_after_log_out s = rw (lookup-erase user user s.post_box, ==_refl user)

  -- A user who is online and whose message `exit` is answered with OK can be online afterwards, and the
  -- stream of the user goes on: if the stream has passed its test when the message is handled, its
  -- `pop` brings the user back.
  pub log_out_undone :
      (s : GrpcEndpointServer) (p_env : Proto.Envelope) (env : Envelope)
      → is_online s user ≡ true
      → get_env_from_proto_buf p_env ≡ some env
      → c_string env.payload ≡ some exit_text
      → get_sender_id env ≡ user
      → (h : Handlers) × Steps storage user (start s) h
        × (h.receivers 0 ≡ answered ok)
        × (h.left ≡ true)
        × (is_online h.server user ≡ true)
        × (h.streams 0 ≡ asking user Proto.empty_envelope)
  unfolding is_online disconnect_user
  log_out_undone s p_env env online read text own =
      let gone : disconnect_user s (get_sender_id env) ≡ disconnect_user s user =
        ap (disconnect_user s) own in
      let back : GrpcEndpointServer = record {
        post_box = assign user (CircularBuffer.make storage) (erase user s.post_box);
      } in
      let popped : pop_mail storage (disconnect_user s (get_sender_id env)) user ≡ (none, back) =
        ap (λ r. pop_mail storage r user) gone ∙ pop_after_log_out s in
      let bare : CircularBuffer.is_empty (cell storage (disconnect_user s (get_sender_id env)) user)
          ≡ true =
        ap (λ r. CircularBuffer.is_empty (cell storage r user)) gone ∙ cell_after_log_out s in
      (
        _,
        next (opens 0 user refl) (
            next (goes_on 0 user Proto.empty_envelope refl online) (
              next (arrives 0 p_env env exit_text refl read text) (
                next (logs_out 0 env exit_text refl (bytes_eq_refl exit_text))
                  (next (finds_none 0 user Proto.empty_envelope back refl popped bare) done)))),
        refl,
        rw (own, ==_refl user),
        rw (
          lookup-assign user user (CircularBuffer.make storage) (erase user s.post_box),
          ==_refl user,
        ),
        refl,
      )
