-- ===== src/Server/Tests.antt =====
-- Logins and mail of concrete clients.
use simple_messenger.Prelude.{
  drop, take, ◌++◌, length-append, ℕ, ◌≡◌, refl, Option, none, some, List, [], ◌∷◌, arith, length,
  replicate, length-replicate, bytes_eq,
}
use simple_messenger.Server.Defs.{
  accept_connection, ServerTcpEndpoint, Sent, send_tcp, auth_response, authentify_client,
  find_online_client, check_mail,
}
use simple_messenger.Message.{
  create_time_stamp, Envelope, MessageType, DataType, SocketInfo, ClientInfo, zero_envelope,
  set_message_type, get_message_type, get_time_stamp, set_time_stamp, get_recepient_id,
}
use simple_messenger.Psql.Defs.{handle_auth_req, select_req, select_middle, select_head}
use simple_messenger.Psql.Lookup.{check_if_registered_lem}
use mathlib.Core.Option
use simple_messenger.CircularBuffer.{CircularBuffer}
use simple_messenger.CircularBuffer.Refine.{contents}
use simple_messenger.Memory.{c_string, c_string-append, read_from-append}
use simple_messenger.Message.Proto
use simple_messenger.Message.Payload.{get_payload}
use simple_messenger.Message.Layouts.{
  credentials_layout, response_layout, IsCredentials, credentials_of-append,
}
use simple_messenger.Message.Convert.{put_fields}
use simple_messenger.Psql.Table.{
  find_row, table_libpq, table_answers, email, password, connected, creds,
}
use simple_messenger.Endpoint.{RxTxBuffer}
use simple_messenger.UdpEndpoint.Defs.{
  UdpEndpointBase, AddressedEnvelope, ExpiringAck, Datagram, message_queue_size,
}
use simple_messenger.UdpEndpoint.Store.{IsSound}
use simple_messenger.UdpEndpoint.Retransmit.{Sendable}
use simple_messenger.UdpEndpoint.RoundTrip.{ack_for}
use simple_messenger.UdpEndpoint.PlainWire.{wire}
use simple_messenger.Server.Login.{or_else, logged_in, authentify_client_lem, first_login_stays}
use simple_messenger.Message.Struct.{envelope_bytes}
use simple_messenger.Server.Tcp.{receive_tcp, arrived_on, receive_tcp_lem}
use simple_messenger.Server.Delivery.{mail_after_login}
use simple_messenger.Server.Relay.{IsPassedOn, check_mail_lem}

abbrev home : SocketInfo
home = record { addr = 1 ∷ []; addrlen = 1 }

abbrev away : SocketInfo
away = record {
  addr = 2 ∷ 0 ∷ 200 ∷ 1 ∷ 10 ∷ 0 ∷ 0 ∷ 2 ∷ 0 ∷ 0 ∷ 0 ∷ 0 ∷ 0 ∷ 0 ∷ 0 ∷ 0 ∷ [];
  addrlen = 16;
}

abbrev at_home : ClientInfo
at_home = record { user_id = 5; socket_info = home }

abbrev new_client : ClientInfo
new_client = record { user_id = 0; socket_info = away }

abbrev server : List ClientInfo → ServerTcpEndpoint
server clients = record { socket_id = 3; client_info_storage = clients }

-- The credentials of the row 5.
abbrev request : Envelope
request = record {
  meta_data = (set_message_type zero_envelope MessageType.service_message).meta_data;
  payload = (creds.email ++ creds.password) ++ replicate 464 0;
}

creds-IsCredentials : IsCredentials creds
unfolding replicate
creds-IsCredentials = record { email_size = refl; password_size = refl }

read_request : get_payload credentials_layout request ≡ some creds
unfolding get_payload replicate
read_request =
    let bytes = creds.email ++ creds.password in
    let sized : length bytes ≡ 512 = refl in
    rw (
      ← sized,
      read_from-append bytes (replicate 464 0),
      credentials_of-append creds creds-IsCredentials,
    )

asked : handle_auth_req table_libpq connected request ≡ some (some 5, connected)
unfolding Option.bind handle_auth_req get_message_type set_message_type find_row bytes_eq select_req
    c_string select_head select_middle
asked = simp read_request (
    check_if_registered_lem table_libpq table_answers connected creds email password
      (λ _. (omega arith, tt)) refl refl (omega arith) (omega arith))

authentify_client_lem_example :
    (env : Envelope) × (e : ServerTcpEndpoint) × (authentify_client table_libpq
        (server [])
        connected
        new_client
        4
        request
      ≡ some (send_tcp (server []) env 4, e, connected))
    × (get_payload response_layout env ≡ some (auth_response (some 5)))
    × (env.meta_data ≡ (set_message_type zero_envelope MessageType.service_message).meta_data)
    × (◌≡◌ {A = Option ℕ} (some 5) none → e ≡ server [])
    × ((u : ℕ)
        → find_online_client e.client_info_storage u
          ≡ or_else none (logged_in (some 5) new_client u))
unfolding find_online_client
authentify_client_lem_example =
    authentify_client_lem table_libpq (server []) connected connected new_client 4 request (some 5)
      asked (omega arith)

first_login_stays_example :
    (sent : Sent) × (e : ServerTcpEndpoint) × (authentify_client table_libpq
        (server (at_home ∷ []))
        connected
        new_client
        4
        request
      ≡ some (sent, e, connected))
    × (find_online_client e.client_info_storage 5 ≡ some at_home)
unfolding find_online_client
first_login_stays_example =
    first_login_stays table_libpq (server (at_home ∷ [])) connected connected new_client at_home 4 5
      request asked (omega arith) refl

abbrev hi : List ℕ
hi = 104 ∷ 105 ∷ []

-- A text message from 7 to 5 at the time 5.
abbrev greeting : Envelope
greeting = record {
  meta_data = record {
    header = record {
      payload_size = 0;
      total_size = 0;
      message_type = MessageType.user_message;
      timestamp = 5;
    };
    type = DataType.text_message;
    sender_id = 7;
    recepient_id = 5;
  };
  payload = hi ++ (0 ∷ replicate 973 0);
}

abbrev from_bob : AddressedEnvelope
from_bob = record { sock_info = away; env = greeting }

abbrev no_message : AddressedEnvelope
no_message = record { sock_info = away; env = zero_envelope }

abbrev no_ack : ExpiringAck
no_ack = record { counter = 3; t_stamp = 0 }

abbrev empty_queue : CircularBuffer AddressedEnvelope message_queue_size
empty_queue = record {
  circ_buffer = no_message ∷ no_message ∷ no_message ∷ no_message ∷ [];
  begin_pos = 0;
  end_pos = 0;
  size = 0;
}

abbrev no_acks : CircularBuffer ExpiringAck message_queue_size
no_acks = record {
  circ_buffer = no_ack ∷ no_ack ∷ no_ack ∷ no_ack ∷ [];
  begin_pos = 2;
  end_pos = 2;
  size = 0;
}

abbrev zero_buffer : RxTxBuffer
zero_buffer = record { message_size = 0; payload = replicate 1008 0 }

-- One message has been received.
abbrev udp : UdpEndpointBase
udp = record {
  in_queue = record {
    circ_buffer = from_bob ∷ no_message ∷ no_message ∷ no_message ∷ [];
    begin_pos = 0;
    end_pos = 1;
    size = 1;
  };
  out_queue = empty_queue;
  ack_queue = no_acks;
  proto_message_buffer_out = Proto.empty_envelope;
  buffer_in = zero_buffer;
  buffer_out = zero_buffer;
}

can_acknowledge : Sendable wire udp (ack_for 5)
unfolding put_fields set_time_stamp set_message_type c_string replicate
can_acknowledge = record {
  text = [];
  ends = refl;
  fits = rw (length-replicate {A = ℕ} 1008 0) (omega arith);
}

check_mail_lem_example :
    (ack : Datagram) × (udp' : UdpEndpointBase) × (check_mail wire (at_home ∷ []) 1000 udp
      ≡ some (some ack, udp'))
    × (ack.peer ≡ away)
    × (contents udp'.in_queue ≡ [])
    × IsPassedOn (at_home ∷ []) 1000 greeting [] (contents udp'.out_queue)
    × IsSound udp'
unfolding get_time_stamp get_recepient_id find_online_client
check_mail_lem_example =
    check_mail_lem wire (at_home ∷ []) 1000 udp from_bob [] hi can_acknowledge
      (record { in_valid = omega arith; out_valid = omega arith; ack_valid = omega arith }) refl
      (c_string-append hi (replicate 973 0) (omega arith))

-- A service message of which 2 bytes of the payload have come.
receive_tcp_lem_example :
    receive_tcp 3 (arrived_on 4 (take 50 (envelope_bytes request))) 4
    ≡ some (record request { payload = take 2 request.payload ++ replicate 974 0 })
unfolding set_message_type replicate
receive_tcp_lem_example =
    receive_tcp_lem 3 4 2 request refl
      (record {
        payload_size_fits = omega arith;
        total_size_fits = omega arith;
        is_message_type = tt;
        timestamp_fits = omega arith;
        is_data_type = tt;
        sender_fits = omega arith;
        recepient_fits = omega arith;
      })
      (omega (
        arith,
        length-append (creds.email ++ creds.password) (replicate 464 0),
        length-replicate {A = ℕ} 464 0,
      ))
      (omega arith)

-- The address `away` with the port 51111.
abbrev ported : SocketInfo
ported = record away { addr = take 2 away.addr ++ (199 ∷ 167 ∷ drop 4 away.addr) }

-- The row 5 logs in from `away`, and the message from bob goes there.
mail_after_login_example :
    (client : ClientInfo) × (sent : Sent) × (e : ServerTcpEndpoint) × (ack : Datagram)
    × (udp' : UdpEndpointBase) × (accept_connection (some (4, away)) ≡ some (client, 4))
    × (authentify_client table_libpq (server []) connected client 4 request
        ≡ some (sent, e, connected))
    × (check_mail wire e.client_info_storage 1000 udp ≡ some (some ack, udp'))
    × (ack.peer ≡ away)
    × (contents udp'.in_queue ≡ [])
    × (contents udp'.out_queue
        ≡ (record { sock_info = ported; env = set_time_stamp greeting 1000 }) ∷ [])
unfolding get_time_stamp get_recepient_id find_online_client create_time_stamp
    simple_messenger.CircularBuffer.Queue.push
mail_after_login_example =
    mail_after_login wire table_libpq (server []) connected connected 4 5 1000 away request udp
      from_bob [] hi asked (omega arith) (omega arith) refl can_acknowledge
      (record { in_valid = omega arith; out_valid = omega arith; ack_valid = omega arith }) refl
      (c_string-append hi (replicate 973 0) (omega arith)) refl
