-- ===== src/GrpcServer/Handlers.antt =====
-- The handlers of server_app/endpoint/GrpcServer.cpp as gRPC runs them: any number at once, each in a
-- thread of its own. `isOnline`, `addUserToConnected` and `disconnectUser` hold the lock of the map;
-- `post_box[id].push` and `post_box[id].pop` do not. In a `Step` they overlap no other use of the map,
-- but the other handlers may run between a test and the access behind it. A `Move` is a step or an
-- access that overlaps another use of the map, of which the behaviour is undefined. `Delivery` is what
-- is kept, `Undone` a user who comes back, and `Admitted` who can be online at all.
pub mod Boxes
pub mod Delivery
pub mod Undone
pub mod Admitted
mod Tests
use simple_messenger.Prelude.{
  ℕ, ◌<◌, ◌≡◌, Bool, true, false, ◌||◌, none, some, List, [], ◌∷◌, ◌++◌, bytes_eq, ◌==◌,
  if◌then◌else◌, update,
}
use simple_messenger.CircularBuffer
use simple_messenger.Memory.{c_string}
use simple_messenger.Message.{Envelope, get_sender_id, get_recepient_id}
use simple_messenger.Message.Proto
use simple_messenger.Message.Convert.{put_env_to_proto_buf, get_env_from_proto_buf}
use simple_messenger.GrpcServer.Defs.{
  Status, ok, cancelled, GrpcEndpointServer, PostBoxCell, exit_text, is_online, disconnect_user,
  add_user_to_connected, push_mail, pop_mail, cell, post_box_size,
}

-- Where a call of `receiveMessage` stands: not begun, before its tests, before its `push`, answered.
pub data Receiver : Type 0 where
  absent : Receiver
  testing : Envelope → List ℕ → Receiver
  pushing : Envelope → Receiver
  answered : Status → Receiver

-- Where a call of `streamIncomingMessages` stands, with its user and its protobuf message: not begun,
-- before `isOnline`, before its `pop`, returned.
pub data Stream : Type 0 where
  closed : Stream
  asking : ℕ → Proto.Envelope → Stream
  popping : ℕ → Proto.Envelope → Stream
  returned : Stream

-- The last three fields record what happened to one user: the messages for which `push` succeeded,
-- the messages that streams have handed over, and whether the user was logged out.
pub record Handlers : Type 0 where
  pub server : GrpcEndpointServer
  pub receivers : ℕ → Receiver
  pub streams : ℕ → Stream
  pub accepted : List Envelope
  pub streamed : List Envelope
  pub left : Bool

-- Before any handler runs.
abbrev pub start : GrpcEndpointServer → Handlers
start s = record {
  server = s;
  receivers = λ _. absent;
  streams = λ _. closed;
  accepted = [];
  streamed = [];
  left = false;
}

-- A list that grows if its message is for the user.
unfoldable pub log_for : Bool → Envelope → List Envelope → List Envelope
log_for mine env log = if mine then log ++ (env ∷ []) else log

abbrev pub status_of : Bool → Status
status_of done = if done then ok else cancelled

-- `storage` is what the array of a new cell holds, and `raw` the memory that a cell is built in, whose
-- positions may lie outside the array. A step that would read or write outside an array does not exist:
-- a `push` that succeeds has its slot in the array, and a `pop` gives nothing only if the cell is empty.
module _ (storage : List Envelope) (user : ℕ) where
  pub data Step (h : Handlers) : Handlers → Type 0 where
    arrives :
        (i : ℕ) (p_env : Proto.Envelope) (env : Envelope) (text : List ℕ)
        → h.receivers i ≡ absent
        → get_env_from_proto_buf p_env ≡ some env
        → c_string env.payload ≡ some text
        → Step h (record h { receivers = update h.receivers i (testing env text) })
    logs_out :
        (i : ℕ) (env : Envelope) (text : List ℕ)
        → h.receivers i ≡ testing env text
        → bytes_eq text exit_text ≡ true
        → Step h (record h {
          server = disconnect_user h.server (get_sender_id env);
          receivers = update h.receivers i (answered ok);
          left = h.left || (get_sender_id env == user);
        })
    refuses :
        (i : ℕ) (env : Envelope) (text : List ℕ)
        → h.receivers i ≡ testing env text
        → bytes_eq text exit_text ≡ false
        → is_online h.server (get_recepient_id env) ≡ false
        → Step h (record h { receivers = update h.receivers i (answered cancelled) })
    passes :
        (i : ℕ) (env : Envelope) (text : List ℕ)
        → h.receivers i ≡ testing env text
        → bytes_eq text exit_text ≡ false
        → is_online h.server (get_recepient_id env) ≡ true
        → Step h (record h { receivers = update h.receivers i (pushing env) })
    pushes :
        (i : ℕ) (env : Envelope) (done : Bool) (s : GrpcEndpointServer)
        → h.receivers i ≡ pushing env
        → push_mail storage h.server (get_recepient_id env) env ≡ (done, s)
        → (done ≡ true → (cell storage h.server (get_recepient_id env)).end_pos < post_box_size)
        → Step h (record h {
          server = s;
          receivers = update h.receivers i (answered (status_of done));
          accepted =
              if done then log_for (get_recepient_id env == user) env h.accepted else h.accepted;
        })
    opens :
        (j user_id : ℕ)
        → h.streams j ≡ closed
        → Step h (record h { streams = update h.streams j (asking user_id Proto.empty_envelope) })
    ends :
        (j user_id : ℕ) (p : Proto.Envelope)
        → h.streams j ≡ asking user_id p
        → is_online h.server user_id ≡ false
        → Step h (record h { streams = update h.streams j returned })
    goes_on :
        (j user_id : ℕ) (p : Proto.Envelope)
        → h.streams j ≡ asking user_id p
        → is_online h.server user_id ≡ true
        → Step h (record h { streams = update h.streams j (popping user_id p) })
    finds_none :
        (j user_id : ℕ) (p : Proto.Envelope) (s : GrpcEndpointServer)
        → h.streams j ≡ popping user_id p
        → pop_mail storage h.server user_id ≡ (none, s)
        → CircularBuffer.is_empty (cell storage h.server user_id) ≡ true
        → Step h (record h { server = s; streams = update h.streams j (asking user_id p) })
    writes :
        (j user_id : ℕ) (p p' : Proto.Envelope) (env : Envelope) (s : GrpcEndpointServer)
        → h.streams j ≡ popping user_id p
        → pop_mail storage h.server user_id ≡ (some env, s)
        → put_env_to_proto_buf env p ≡ some p'
        → Step h (record h {
          server = s;
          streams = update h.streams j (asking user_id p');
          streamed = log_for (user_id == user) env h.streamed;
        })
    admits :
        (id : ℕ) (raw : PostBoxCell)
        → Step h (record h { server = add_user_to_connected storage h.server raw id })

  pub data Steps : Handlers → Handlers → Type 0 where
    done : {h : Handlers} → Steps h h
    next : {h h₁ h₂ : Handlers} → Step h h₁ → Steps h₁ h₂ → Steps h h₂

  -- A step, or an access without the lock that overlaps another use of the map: anything may follow.
  pub data Move (h : Handlers) : Handlers → Type 0 where
    alone : {h' : Handlers} → Step h h' → Move h h'
    push_overlaps :
        {h' : Handlers} (i : ℕ) (env : Envelope) → h.receivers i ≡ pushing env → Move h h'
    pop_overlaps :
        {h' : Handlers} (j user_id : ℕ) (p : Proto.Envelope)
        → h.streams j ≡ popping user_id p
        → Move h h'

  pub data Moves : Handlers → Handlers → Type 0 where
    rests : {h : Handlers} → Moves h h
    moves : {h h₁ h₂ : Handlers} → Move h h₁ → Moves h₁ h₂ → Moves h h₂

  -- No access without the lock overlaps another use of the map.
  abbrev pub NoOverlap : {h h' : Handlers} → Moves h h' → Type 0
  NoOverlap rests = Unit
  NoOverlap (moves (alone step) more) = NoOverlap more
  NoOverlap (moves (push_overlaps i env at_push) more) = ⊥
  NoOverlap (moves (pop_overlaps j u p at_pop) more) = ⊥

  unfoldable pub steps_of : {h h' : Handlers} (run : Moves h h') → NoOverlap run → Steps h h'
  steps_of rests apart = done
  steps_of (moves (alone step) more) apart = next step (steps_of more apart)
  steps_of (moves (push_overlaps i env at_push) more) apart = absurd apart
  steps_of (moves (pop_overlaps j u p at_pop) more) apart = absurd apart
