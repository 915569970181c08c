-- ===== src/GrpcServer/Handlers/Tests.antt =====
-- Two calls of `receiveMessage` and one of `streamIncomingMessages` at once.
use simple_messenger.GrpcServer.Handlers.{
  closed, popping, admits, Steps, Handlers, start, answered, asking, arrives, passes, pushes, opens,
  goes_on, writes, log_for, alone, moves, rests, Moves, steps_of,
}
use simple_messenger.Prelude.{
  update, In, ℕ, ◌≡◌, refl, some, true, List, [], ◌∷◌, ◌++◌, arith, replicate, length-replicate,
  codes, bytes_eq, Bool-cases, inl, inr, ◌==◌, subst,
}
use mathlib.Core.Option
use simple_messenger.CircularBuffer
use simple_messenger.CircularBuffer.Invariant.{IsValid}
use simple_messenger.Memory.{c_string, copy_into}
use simple_messenger.UserMap.{emplace, lookup, assign}
use simple_messenger.Message.{
  Envelope, zero_envelope, get_recepient_id, get_sender_id, get_time_stamp, get_message_type,
  set_message_type, set_time_stamp, set_sender_id, set_recepient_id,
}
use simple_messenger.Message.Proto
use simple_messenger.Message.Convert.{
  put_fields, put_env_to_proto_buf, get_env_from_proto_buf, read_payload, read_fields,
  put_message_type, put_data_type, read_message_type, read_data_type,
}
use simple_messenger.GrpcServer.Defs.{
  add_user_to_connected, exit_text, GrpcEndpointServer, PostBoxCell, is_online, push_mail, pop_mail,
  cell, ok, disconnect_user, user_of_metadata, user_id_key,
}
use simple_messenger.Decimal.{
  stoul, is_digit, is_space, read_digits, starts_with_digit, skip_spaces, take_sign,
}
use simple_messenger.GrpcServer.Mail
use simple_messenger.GrpcServer.Refine.{IsSound, push_mail_refines}
use simple_messenger.GrpcServer.StreamCall.{
  returned, forward_all, stream_incoming_messages, stream_incoming_messages_lem,
}
use simple_messenger.GrpcServer.Handlers.Undone.{log_out_undone}
use simple_messenger.GrpcServer.Handlers.Admitted.{admitted_by, admitted_in, online_was_admitted}
use simple_messenger.GrpcServer.Handlers.Boxes.{Box}
use simple_messenger.GrpcServer.Handlers.Delivery.{handlers_in_order}

-- The cell of user 9, who is online.
abbrev empty_cell : PostBoxCell
empty_cell = record {
  circ_buffer = replicate 32 zero_envelope;
  begin_pos = 0;
  end_pos = 0;
  size = 0;
}

abbrev server : GrpcEndpointServer
server = record { post_box = (9, empty_cell) ∷ [] }

abbrev message : List ℕ → Proto.Envelope
message text = record (Proto.empty_envelope) {
  meta_data = record (Proto.empty_envelope.meta_data) { sender_id = 7; recepient_id = 9 };
  payload = text;
}

abbrev read : List ℕ → Envelope
read text = Option.get_or (get_env_from_proto_buf (message text)) zero_envelope

abbrev hi : Envelope
hi = read (codes "hi")

abbrev ho : Envelope
ho = read (codes "ho")

abbrev pushed_ho : GrpcEndpointServer
pushed_ho = (push_mail [] server 9 ho).1

abbrev popped : GrpcEndpointServer
popped = (pop_mail [] pushed_ho 9).1

abbrev pushed_hi : GrpcEndpointServer
pushed_hi = (push_mail [] popped 9 hi).1

abbrev written : Proto.Envelope
written = Option.get_or (put_env_to_proto_buf ho Proto.empty_envelope) Proto.empty_envelope

server-Box : Box [] 9 server []
unfolding lookup
server-Box = record {
  box = empty_cell;
  there = refl;
  valid = omega (arith, length-replicate 32 zero_envelope);
  holds = refl;
}

-- Both messages pass the tests before either is pushed, and the second overtakes the first.
handlers_in_order_example :
    (q : List Envelope) × Box [] 9 pushed_hi q × ((ho ∷ []) ++ q ≡ [] ++ (ho ∷ hi ∷ []))
unfolding Option.bind c_string copy_into replicate put_fields set_time_stamp get_time_stamp
    get_message_type set_message_type put_message_type put_data_type get_sender_id get_recepient_id
    read_message_type read_data_type read_payload read_fields get_env_from_proto_buf
    put_env_to_proto_buf set_sender_id set_recepient_id push_mail pop_mail cell is_online lookup
    assign bytes_eq log_for CircularBuffer.push CircularBuffer.pop CircularBuffer.is_full
    CircularBuffer.is_empty
handlers_in_order_example =
    handlers_in_order [] 9 [] server _ server-Box
      (moves (alone (arrives 0 (message (codes "hi")) hi (codes "hi") refl refl refl)) (
        moves (alone (arrives 1 (message (codes "ho")) ho (codes "ho") refl refl refl)) (
          moves (alone (opens 0 9 refl)) (
            moves (alone (passes 0 hi (codes "hi") refl refl refl)) (
              moves (alone (passes 1 ho (codes "ho") refl refl refl)) (
                moves (alone (pushes 1 ho true pushed_ho refl refl (λ _. omega arith))) (
                  moves (alone (goes_on 0 9 Proto.empty_envelope refl refl)) (
                    moves (alone (writes 0 9 Proto.empty_envelope written ho popped refl refl refl))
                      (moves (alone (pushes 0 hi true pushed_hi refl refl (λ _. omega arith)))
                        rests)))))))))
      tt refl

-- The stream of user 9, for whom one message waits.
abbrev nine : List ℕ × List ℕ
nine = (user_id_key, codes "9")

server-IsSound : IsSound server
unfolding lookup
server-IsSound user b e = elim (Bool-cases (9 == user)) [
  | inl nine_is ↦
      let same : empty_cell ≡ b = ground arith in
      subst (λ (c : PostBoxCell). IsValid c) same (omega (arith, length-replicate 32 zero_envelope))
  | inr other ↦ absurd (ground arith)
]

pushed_ho-IsSound : IsSound pushed_ho
unfolding lookup
pushed_ho-IsSound = (push_mail_refines [] server 9 ho server-IsSound refl).2

stream_incoming_messages_lem_example :
    (s' : GrpcEndpointServer) × (Mail.mail s' 9 ≡ some [])
    × (stream_incoming_messages []
          ((λ m. m) ∷ (λ m. disconnect_user m 9) ∷ [])
          (nine ∷ [])
          pushed_ho
        ≡ some (returned ok (written ∷ []) (disconnect_user s' 9)))
unfolding Option.bind c_string copy_into replicate put_fields set_time_stamp get_time_stamp
    get_message_type set_message_type put_message_type put_data_type get_sender_id get_recepient_id
    read_message_type read_data_type read_payload read_fields get_env_from_proto_buf
    put_env_to_proto_buf set_sender_id set_recepient_id push_mail pop_mail cell is_online lookup
    assign bytes_eq log_for CircularBuffer.push CircularBuffer.pop CircularBuffer.is_full
    CircularBuffer.is_empty user_of_metadata stoul is_digit is_space read_digits starts_with_digit
    skip_spaces take_sign forward_all
stream_incoming_messages_lem_example =
    stream_incoming_messages_lem [] (nine ∷ []) pushed_ho 9 (ho ∷ []) (written ∷ []) refl
      pushed_ho-IsSound refl refl

-- User 7 is online, and logs out.
abbrev seven : GrpcEndpointServer
seven = record { post_box = (7, empty_cell) ∷ [] }

log_out_undone_example :
    (h : Handlers) × Steps [] 7 (start seven) h
    × (h.receivers 0 ≡ answered ok)
    × (h.left ≡ true)
    × (is_online h.server 7 ≡ true)
    × (h.streams 0 ≡ asking 7 Proto.empty_envelope)
unfolding Option.bind c_string copy_into replicate put_fields set_time_stamp get_time_stamp
    get_message_type set_message_type put_message_type put_data_type get_sender_id get_recepient_id
    read_message_type read_data_type read_payload read_fields get_env_from_proto_buf
    put_env_to_proto_buf set_sender_id set_recepient_id push_mail pop_mail cell is_online lookup
    assign bytes_eq log_for CircularBuffer.push CircularBuffer.pop CircularBuffer.is_full
    CircularBuffer.is_empty
log_out_undone_example =
    log_out_undone [] 7 seven (message exit_text) (read exit_text) refl refl refl refl

-- User 9 is admitted, and the stream of user 9 begins.
nine_streams :
    Moves (empty_cell.circ_buffer) 9 (start (record { post_box = [] })) (record (start server) {
      streams =
          update
            (update (λ _. closed) 0 (asking 9 Proto.empty_envelope))
            0
            (popping 9 Proto.empty_envelope);
    })
unfolding add_user_to_connected emplace lookup is_online CircularBuffer.move_into
    CircularBuffer.make
nine_streams = moves (alone (admits 9 empty_cell)) (
    moves (alone (opens 0 9 refl))
      (moves (alone (goes_on 0 9 Proto.empty_envelope refl refl)) rests))

online_was_admitted_example : In {A = ℕ} 9 (9 ∷ [])
unfolding admitted_in admitted_by steps_of nine_streams is_online lookup
online_was_admitted_example = online_was_admitted (empty_cell.circ_buffer) 9 nine_streams tt 9 refl
