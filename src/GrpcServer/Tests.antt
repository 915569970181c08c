-- ===== src/GrpcServer/Tests.antt =====
-- The gRPC server on concrete users and messages.
use simple_messenger.Prelude.{
  ◌≡◌, refl, none, some, true, false, List, [], ◌∷◌, ◌++◌, arith, length, replicate,
  length-replicate, codes, bytes_eq,
}
use simple_messenger.CircularBuffer
use simple_messenger.UserMap.{lookup, assign, emplace}
use simple_messenger.Message.{Envelope, zero_envelope, get_recepient_id}
use simple_messenger.Psql.Table.{find_row, table_libpq, table_answers, email, password, connected}
use simple_messenger.Psql.Defs.{select_req, select_head, select_middle}
use simple_messenger.GrpcServer.Defs.{
  Accepted, cancelled, GrpcEndpointServer, PostBoxCell, post_box_size, is_online,
  add_user_to_connected, receive_text, pop_mail, push_mail, cell, disconnect_user,
  accept_connection, user_of_metadata, user_id_key,
}
use simple_messenger.GrpcServer.Mail
use simple_messenger.GrpcServer.Metadata.{user_of_metadata-append}
use simple_messenger.Decimal.{
  to_string, stoul, is_digit, is_space, read_digits, starts_with_digit, skip_spaces, take_sign,
}
use simple_messenger.GrpcServer.Refine.{IsSound, IsZeroed, receive_text_refines}
use simple_messenger.GrpcServer.Stream.{
  Event, arrives, round, run, step, stream_pop, run_streams_in_order,
}
use simple_messenger.GrpcServer.Login.{
  add_user_to_connected_refines, first_message_refused, accept_connection_lem, IsAnswer,
}
use simple_messenger.GrpcServer.Race.{pop_mail_resurrects, push_mail_resurrects}

storage : List Envelope
storage = replicate 32 zero_envelope

storage_full : length storage ≡ post_box_size
unfolding storage
storage_full = length-replicate 32 zero_envelope

abbrev nobody : GrpcEndpointServer
nobody = record { post_box = [] }

nobody-IsSound : IsSound nobody
unfolding lookup
nobody-IsSound user b e = cc

-- Memory that is zero, and memory that holds 32 where the size goes.
abbrev zeroed : PostBoxCell
zeroed = record { circ_buffer = []; begin_pos = 0; end_pos = 0; size = 0 }

abbrev littered : PostBoxCell
littered = record zeroed { size = 32 }

zeroed-IsZeroed : IsZeroed zeroed
zeroed-IsZeroed = omega arith

abbrev nine_online : GrpcEndpointServer
nine_online = add_user_to_connected storage nobody zeroed 9

add_user_to_connected_refines_example :
    (Mail.mail nine_online ≡ Mail.log_in 9 (Mail.mail nobody)) × IsSound nine_online
add_user_to_connected_refines_example =
    add_user_to_connected_refines storage storage_full nobody zeroed 9 zeroed-IsZeroed
      nobody-IsSound

nine_online-IsSound : IsSound nine_online
nine_online-IsSound =
    (add_user_to_connected_refines storage storage_full nobody zeroed 9 zeroed-IsZeroed
      nobody-IsSound).1

-- A message from 7 to 9.
abbrev note : Envelope
note = record zero_envelope {
  meta_data = record (zero_envelope.meta_data) { sender_id = 7; recepient_id = 9 };
}

receive_text_refines_example :
    let r = receive_text storage nine_online note (codes "hi") in
    let spec = Mail.receive (Mail.mail nine_online) note (codes "hi") in
    (r.0 ≡ spec.0) × (Mail.mail r.1 ≡ spec.1) × IsSound r.1
receive_text_refines_example =
    receive_text_refines storage nine_online note (codes "hi") nine_online-IsSound

abbrev events : List Event
events = arrives note (codes "hi") ∷ arrives note (codes "ho") ∷ round ∷ []

run_streams_in_order_example :
    let h = run storage 9 (record { server = nine_online; accepted = []; streamed = [] }) events in
    h.streamed ++ note ∷ [] ≡ h.accepted
unfolding storage replicate add_user_to_connected lookup assign emplace run step stream_pop
    receive_text push_mail pop_mail cell is_online bytes_eq get_recepient_id CircularBuffer.push
    CircularBuffer.pop CircularBuffer.make CircularBuffer.move_into
run_streams_in_order_example =
    run_streams_in_order storage 9 nine_online [] (note ∷ []) events nine_online-IsSound refl refl

first_message_refused_example :
    let s' = add_user_to_connected storage nobody littered 9 in
    (is_online s' 9 ≡ true) × ((receive_text storage s' note (codes "hi")).0 ≡ cancelled)
unfolding is_online lookup bytes_eq get_recepient_id
first_message_refused_example =
    first_message_refused storage nobody littered 9 note (codes "hi") refl refl refl refl

accept_connection_lem_example :
    (r : Accepted storage table_libpq) × (accept_connection storage table_libpq nobody connected
        zeroed
        (record { email = email; password = password })
      ≡ some r)
    × IsAnswer storage table_libpq nobody connected (some 5) r
unfolding find_row bytes_eq select_req select_head select_middle
accept_connection_lem_example =
    accept_connection_lem storage table_libpq table_answers nobody connected zeroed
      (record { email = email; password = password }) (λ _. (omega arith, tt)) (omega arith)
      (omega arith) (omega arith) (omega arith)

pop_mail_resurrects_example :
    (is_online (disconnect_user nine_online 9) 9 ≡ false)
    × (is_online (pop_mail storage (disconnect_user nine_online 9) 9).1 9 ≡ true)
pop_mail_resurrects_example = pop_mail_resurrects storage nine_online 9

push_mail_resurrects_example :
    let r = push_mail storage (disconnect_user nine_online 9) 9 note in
    (r.0 ≡ true) × (is_online r.1 9 ≡ true)
push_mail_resurrects_example = push_mail_resurrects storage nine_online 9 note

user_of_metadata-append_example :
    user_of_metadata ((codes "username", codes "adsfadsf") ∷ (user_id_key, to_string 5) ∷ [])
    ≡ some 5
unfolding bytes_eq
user_of_metadata-append_example =
    user_of_metadata-append ((codes "username", codes "adsfadsf") ∷ []) [] 5 (refl, tt)
      (omega arith)

-- An id that is no number is an exception in the handler.
user_of_metadata_garbled : user_of_metadata ((user_id_key, codes "abc") ∷ []) ≡ none
unfolding user_of_metadata bytes_eq stoul is_digit is_space read_digits starts_with_digit
    skip_spaces take_sign
user_of_metadata_garbled = refl
