-- ===== src/GrpcServer/Mail.antt =====
-- The specification of the post boxes: who is online, and the messages that wait for each of them,
-- oldest first, 32 at most.
use simple_messenger.Prelude.{ℕ, Option, none, some, List, bytes_eq, ◌==◌, if◌then◌else◌}
use mathlib.Core.Option
use simple_messenger.CircularBuffer.Queue
use simple_messenger.CircularBuffer.Refine.{contents}
use simple_messenger.UserMap.{lookup}
use simple_messenger.Message.{Envelope, get_sender_id, get_recepient_id}
use simple_messenger.GrpcServer.Defs.{
  Status, ok, cancelled, GrpcEndpointServer, PostBoxCell, post_box_size, exit_text,
}

-- `none` for a user who is offline.
abbrev pub Mail : Type 0
Mail = ℕ → Option (List Envelope)

abbrev pub waiting : Option PostBoxCell → Option (List Envelope)
waiting none = none
waiting (some b) = some (contents b)

abbrev pub mail : GrpcEndpointServer → Mail
mail s user = waiting (lookup user s.post_box)

unfoldable pub log_in : ℕ → Mail → Mail
log_in user m v = if user == v then some (Option.get_or (m user) List.[]) else m v

unfoldable pub log_out : ℕ → Mail → Mail
log_out user m v = if user == v then none else m v

unfoldable pub put_mail : ℕ → List Envelope → Mail → Mail
put_mail user q m v = if user == v then some q else m v

-- A message for a recipient with the post box `box`.
unfoldable pub deliver : Mail → Envelope → Option (List Envelope) → Status × Mail
deliver m env none = (cancelled, m)
deliver m env (some q) =
    let (done, q') = Queue.push post_box_size q env in
    (if done then ok else cancelled, put_mail (get_recepient_id env) q' m)

-- A message with the text `exit` logs its sender out. Any other is refused if its recipient is
-- offline or has 32 messages waiting, and goes to the end of the recipient's post box otherwise.
unfoldable pub receive : Mail → Envelope → List ℕ → Status × Mail
receive m env text =
    if bytes_eq text exit_text
    then (ok, log_out (get_sender_id env) m)
    else deliver m env (m (get_recepient_id env))
