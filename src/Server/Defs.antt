-- ===== src/Server/Defs.antt =====
-- The methods of ServerTcpEndpoint and ServerManager that do more than make sockets. `none` is an
-- access outside an array.
use simple_messenger.Prelude.{
  ℕ, ◌/◌, ◌%◌, Option, none, some, List, [], ◌∷◌, ◌++◌, set, get_elem?, length, ◌==◌, if◌then◌else◌,
}
use mathlib.Core.Option
use simple_messenger.Memory.{c_string}
use simple_messenger.Message.{
  Envelope, MessageType, SocketInfo, ClientInfo, AuthResponse, zero_envelope, get_recepient_id,
  set_message_type,
}
use simple_messenger.Message.Payload.{set_payload}
use simple_messenger.Message.Layouts.{response_layout}
use simple_messenger.Psql.Defs.{Libpq, PsqlManager, handle_auth_req}
use simple_messenger.Endpoint.{Wire}
use simple_messenger.UdpEndpoint.Defs.{
  UdpEndpointBase, Datagram, send_envelope, try_receive_envelope,
}

-- `socket_id` is set by the constructor, and the storage grows by one client for each login.
pub record ServerTcpEndpoint : Type 0 where
  pub socket_id : ℕ
  pub client_info_storage : List ClientInfo

-- What `send` is given.
pub record Sent : Type 0 where
  pub handle : ℕ
  pub env : Envelope

-- `TcpEndpointBase::sendEnvelope`: the handle 0 stands for the socket of the endpoint.
unfoldable pub send_tcp : ServerTcpEndpoint → Envelope → ℕ → Sent
send_tcp e envelope receiver_handle = record {
  handle = if receiver_handle == 0 then e.socket_id else receiver_handle;
  env = envelope;
}

abbrev pub default_tcp_port : ℕ
default_tcp_port = 51111

-- `htons` into the port of a `sockaddr_in`, which is at the bytes 2 and 3.
unfoldable pub set_port : SocketInfo → SocketInfo
set_port info = record info {
  addr = set (set info.addr 2 (default_tcp_port / 256)) 3 (default_tcp_port % 256);
}

-- `acceptConnection`, for what `accept4` gives: a failure, or a handle and the other address. The
-- result is the client and the handle of the task that is scheduled.
unfoldable pub accept_connection : Option (ℕ × SocketInfo) → Option (ClientInfo × ℕ)
accept_connection accepted =
    Option.map (λ a. (record { user_id = 0; socket_info = set_port a.1 }, a.0)) accepted

unfoldable pub auth_response : Option ℕ → AuthResponse
auth_response none = record { is_accepted = 0; user_id = 0 }
auth_response (some id) = record { is_accepted = 1; user_id = id }

-- `sendAcceptNotificaton`
unfoldable pub send_accept_notification : ServerTcpEndpoint → ℕ → Option ℕ → Option Sent
send_accept_notification e client_socket_id user_id_opt =
    let auth_notification = set_message_type zero_envelope MessageType.service_message in
    Option.map (λ env. send_tcp e env client_socket_id)
      (set_payload response_layout auth_notification (auth_response user_id_opt))

unfoldable pub log_in : ServerTcpEndpoint → ClientInfo → Option ℕ → ServerTcpEndpoint
log_in e client_info none = e
log_in e client_info (some id) = record e {
  client_info_storage = e.client_info_storage ++ (record client_info { user_id = id } ∷ []);
}

-- `authentifyClient`, for the envelope that `recv` has read. Both branches close the connection.
unfoldable pub authentify_client :
    (L : Libpq)
    → ServerTcpEndpoint
    → PsqlManager L
    → ClientInfo
    → ℕ
    → Envelope
    → Option (Sent × ServerTcpEndpoint × PsqlManager L)
unfolding Option.bind
authentify_client L e m client_info sock_id auth_req_env =
    Option.bind (handle_auth_req L m auth_req_env) (λ r.
      Option.map (λ sent. (sent, log_in e client_info r.0, r.1))
        (send_accept_notification e sock_id r.0))

-- ServerManager::findOnlineClient
unfoldable pub find_online_client : List ClientInfo → ℕ → Option ClientInfo
find_online_client [] user_id = none
find_online_client (connection ∷ rest) user_id =
    let later = find_online_client rest user_id in
    if connection.user_id == user_id then some connection else later

-- `checkMail` passes a message on, at the clock's time `now_us`.
unfoldable pub pass_on : UdpEndpointBase → ℕ → Envelope → Option ClientInfo → UdpEndpointBase
pass_on udp now_us result none = udp
pass_on udp now_us result (some rec_info) = send_envelope udp now_us result rec_info.socket_info

-- The acknowledgement that is sent, and the endpoint. `report_result` prints the payload as a C
-- string.
unfoldable pub mail_of :
    List ClientInfo
    → ℕ
    → Option (Envelope × Datagram)
    → UdpEndpointBase
    → Option (Option Datagram × UdpEndpointBase)
mail_of clients now_us none udp = some (none, udp)
mail_of clients now_us (some (result, ack)) udp =
    Option.map
      (λ _. (
        some ack,
        pass_on udp now_us result (find_online_client clients (get_recepient_id result)),
      ))
      (c_string result.payload)

-- ServerManager::checkMail
unfoldable pub check_mail :
    Wire → List ClientInfo → ℕ → UdpEndpointBase → Option (Option Datagram × UdpEndpointBase)
unfolding Option.bind
check_mail W clients now_us udp =
    Option.bind (try_receive_envelope W udp) (λ r. mail_of clients now_us r.0 r.1)

-- ServerTcpEndpoint::getClientUserID
unfoldable pub get_client_user_id : ServerTcpEndpoint → ℕ → Option ℕ
get_client_user_id e index = Option.map (λ c. c.user_id) (get_elem? e.client_info_storage index)

-- ServerTcpEndpoint::numOfConnections
unfoldable pub num_of_connections : ServerTcpEndpoint → ℕ
num_of_connections e = length e.client_info_storage

-- ServerTcpEndpoint::getConnectedClients
unfoldable pub get_connected_clients : ServerTcpEndpoint → List ClientInfo
get_connected_clients e = e.client_info_storage
