-- ===== src/Server/Relay.antt =====
-- `checkMail` passes on the oldest message that the UDP endpoint has received.
use simple_messenger.Prelude.{
  arith, ==_refl, ◌≢◌, ◌++◌, All, ℕ, ◌≡◌, refl, ap, ◌∙◌, Option, none, some, List, [], ◌∷◌,
}
use mathlib.Core.Option
use simple_messenger.CircularBuffer
use simple_messenger.CircularBuffer.{CircularBuffer}
use simple_messenger.CircularBuffer.Invariant.{push-IsValid, pop-IsValid}
use simple_messenger.CircularBuffer.Queue
use simple_messenger.CircularBuffer.Refine.{contents, pop_of_cons, is_empty_of_nil, push_refines}
use simple_messenger.Memory.{c_string}
use simple_messenger.Message.{
  Envelope, ClientInfo, get_time_stamp, set_time_stamp, create_time_stamp, get_recepient_id,
}
use simple_messenger.Message.Convert.{put_fields}
use simple_messenger.Endpoint.{Wire}
use simple_messenger.UdpEndpoint.Defs.{
  UdpEndpointBase, AddressedEnvelope, Datagram, receive_popped, send_envelope, try_receive_envelope,
}
use simple_messenger.UdpEndpoint.Store.{IsSound}
use simple_messenger.UdpEndpoint.Retransmit.{Sendable, datagram_of, send_datagram_lem}
use simple_messenger.UdpEndpoint.RoundTrip.{ack_for}
use simple_messenger.Server.Defs.{find_online_client, pass_on, mail_of, check_mail}

-- The outgoing queue after a message has been passed on to the recipient that was found.
unfoldable pub passed_on :
    List AddressedEnvelope → ℕ → Envelope → Option ClientInfo → List AddressedEnvelope
passed_on q now_us env none = q
passed_on q now_us env (some info) =
    let stamped = set_time_stamp env (create_time_stamp now_us) in
    (Queue.push 4 q (record { sock_info = info.socket_info; env = stamped })).1

pass_on_lem :
    (udp : UdpEndpointBase) (now_us : ℕ) (env : Envelope) (found : Option ClientInfo)
    → IsSound udp
    → IsSound (pass_on udp now_us env found)
      × (contents (pass_on udp now_us env found).in_queue ≡ contents udp.in_queue)
      × (contents (pass_on udp now_us env found).out_queue
          ≡ passed_on (contents udp.out_queue) now_us env found)
unfolding pass_on send_envelope passed_on
pass_on_lem udp now env none v = (v, refl, refl)
pass_on_lem udp now env (some info) v =
    let item : AddressedEnvelope = record {
      sock_info = info.socket_info;
      env = set_time_stamp env (create_time_stamp now);
    } in
    (
      record {
        in_valid = v.in_valid;
        out_valid = push-IsValid item v.out_valid;
        ack_valid = v.ack_valid;
      },
      refl,
      ap (λ r. r.1) (push_refines item v.out_valid),
    )

-- A round with a message, for whomever `findOnlineClient` finds.
pub check_mail_found :
    (W : Wire) (clients : List ClientInfo) (now_us : ℕ) (udp : UdpEndpointBase)
    (got : AddressedEnvelope) (waiting : List AddressedEnvelope) (text : List ℕ)
    → Sendable W udp (ack_for (get_time_stamp (got.env)))
    → IsSound udp
    → contents udp.in_queue ≡ got ∷ waiting
    → c_string (got.env.payload) ≡ some text
    → (ack : Datagram) × (udp' : UdpEndpointBase) × (check_mail W clients now_us udp
        ≡ some (some ack, udp'))
      × (ack.peer ≡ got.sock_info)
      × (contents udp'.in_queue ≡ waiting)
      × (contents udp'.out_queue
          ≡ passed_on
              (contents udp.out_queue)
              now_us
              (got.env)
              (find_online_client clients (get_recepient_id (got.env))))
      × IsSound udp'
unfolding Option.bind check_mail mail_of try_receive_envelope receive_popped datagram_of
check_mail_found W clients now udp got waiting text can v held ends =
    let (_, item, rest) = pop_of_cons v.in_valid got waiting held in
    let popped : UdpEndpointBase = record udp { in_queue = (CircularBuffer.pop udp.in_queue).1 } in
    let can' : Sendable W popped (ack_for (get_time_stamp (got.env))) = record {
      text = can.text;
      ends = can.ends;
      fits = can.fits;
    } in
    let ack : AddressedEnvelope = record {
      sock_info = got.sock_info;
      env = ack_for (get_time_stamp (got.env));
    } in
    let acked : UdpEndpointBase = record popped {
      proto_message_buffer_out =
          put_fields (ack_for (get_time_stamp (got.env))) popped.proto_message_buffer_out can'.text;
      buffer_out = (datagram_of W popped ack can').buffer;
    } in
    let found = find_online_client clients (get_recepient_id (got.env)) in
    let (sound, ins, out) = pass_on_lem acked now (got.env) found (record {
      in_valid = pop-IsValid v.in_valid;
      out_valid = v.out_valid;
      ack_valid = v.ack_valid;
    }) in
    (
      datagram_of W popped ack can',
      pass_on acked now (got.env) found,
      rw (item, send_datagram_lem W popped ack can', ends),
      refl,
      ins ∙ rest,
      out,
      sound,
    )

-- No client in the list has the id `user`.
abbrev pub NoneIs : ℕ → List ClientInfo → Type 0
NoneIs user clients = All (λ (c : ClientInfo). c.user_id ≢ user) clients

find_online_client-none :
    (clients : List ClientInfo) (user : ℕ)
    → NoneIs user clients
    → find_online_client clients user ≡ none
unfolding find_online_client
find_online_client-none [] user _ = refl
find_online_client-none (c ∷ rest) user (differs, others) =
    ground (arith, find_online_client-none rest user others)

find_online_client-first :
    (before after : List ClientInfo) (c : ClientInfo) (user : ℕ)
    → NoneIs user before
    → c.user_id ≡ user
    → find_online_client (before ++ (c ∷ after)) user ≡ some c
unfolding find_online_client
find_online_client-first [] after c user _ e = rw (e, ==_refl user)
find_online_client-first (d ∷ before) after c user (differs, others) e =
    ground (arith, find_online_client-first before after c user others e)

-- The outgoing queue after a message has been passed on to one of the clients of the server, or not.
pub record IsPassedOn (clients : List ClientInfo) (now_us : ℕ) (env : Envelope)
    (q q' : List AddressedEnvelope) : Type 0 where
  pub to_first :
      (before after : List ClientInfo) (c : ClientInfo)
      → clients ≡ before ++ (c ∷ after)
      → NoneIs (get_recepient_id env) before
      → c.user_id ≡ get_recepient_id env
      → q'
        ≡ (Queue.push 4 q (record {
          sock_info = c.socket_info;
          env = set_time_stamp env (create_time_stamp now_us);
        })).1
  pub lost : NoneIs (get_recepient_id env) clients → q' ≡ q

found-IsPassedOn :
    (clients : List ClientInfo) (now_us : ℕ) (env : Envelope) (q q' : List AddressedEnvelope)
    → q' ≡ passed_on q now_us env (find_online_client clients (get_recepient_id env))
    → IsPassedOn clients now_us env q q'
unfolding passed_on
found-IsPassedOn clients now env q q' out =
    let user = get_recepient_id env in
    record {
      to_first = λ before after c split others is.
          out
          ∙ ap (passed_on q now env) (
              ap (λ l. find_online_client l user) split
              ∙ find_online_client-first before after c user others is);
      lost = λ others. out ∙ ap (passed_on q now env) (find_online_client-none clients user others);
    }

-- `checkMail`, where a message waits, takes the oldest one and acknowledges it to the endpoint that
-- sent it. If clients with the id of its recipient have logged in, the message goes into the outgoing
-- queue for the address of the first of these, with the server's time, unless four messages are in
-- that queue, where it is lost; if there is no such client it is lost too. The messages behind it
-- still wait, in their order, and the queues stay valid. The queues are valid at the start, the text
-- of the message ends in its payload, and the acknowledgement fits the buffer.
pub check_mail_lem :
    (W : Wire) (clients : List ClientInfo) (now_us : ℕ) (udp : UdpEndpointBase)
    (got : AddressedEnvelope) (waiting : List AddressedEnvelope) (text : List ℕ)
    → Sendable W udp (ack_for (get_time_stamp (got.env)))
    → IsSound udp
    → contents udp.in_queue ≡ got ∷ waiting
    → c_string (got.env.payload) ≡ some text
    → (ack : Datagram) × (udp' : UdpEndpointBase) × (check_mail W clients now_us udp
        ≡ some (some ack, udp'))
      × (ack.peer ≡ got.sock_info)
      × (contents udp'.in_queue ≡ waiting)
      × IsPassedOn clients now_us (got.env) (contents udp.out_queue) (contents udp'.out_queue)
      × IsSound udp'
check_mail_lem W clients now udp got waiting text can v held ends =
    let (ack, udp', done, peer, ins, out, sound) =
      check_mail_found W clients now udp got waiting text can v held ends in
    let passed = found-IsPassedOn clients now (got.env) _ _ out in
    (ack, udp', done, peer, ins, passed, sound)

-- Where no message waits nothing happens.
pub check_mail_idle :
    (W : Wire) (clients : List ClientInfo) (now_us : ℕ) (udp : UdpEndpointBase)
    → IsSound udp
    → contents udp.in_queue ≡ []
    → check_mail W clients now_us udp ≡ some (none, udp)
unfolding Option.bind check_mail mail_of try_receive_envelope receive_popped CircularBuffer.pop
check_mail_idle W clients now udp v idle = rw (is_empty_of_nil v.in_valid idle)
