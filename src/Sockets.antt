-- ===== src/Sockets.antt =====
-- The sockets of common/endpoint/EndpointBase.cpp and of the endpoints in server_app/endpoint and
-- client_app/endpoint. What the operating system answers is an argument, and a list says what it was
-- asked for. `none` is the descriptor -1.
pub mod Calls
mod Tests
use simple_messenger.Prelude.{
  ℕ, ◌/◌, ◌%◌, Bool, true, false, not, Option, none, some, List, [], ◌∷◌, ◌++◌, if◌then◌else◌,
}
use mathlib.Core.Option

pub record SocketType : Type 0 where
  pub is_datagram : Bool
  pub is_nonblocking : Bool

-- A `sockaddr_in` of the family AF_INET: the port and the address as they stand in memory.
pub record Address : Type 0 where
  pub sin_port : List ℕ
  pub s_addr : List ℕ

pub data Call : Type 0 where
  opens : SocketType → Option ℕ → Call
  binds connects : Option ℕ → Address → Call
  listens : Option ℕ → ℕ → Call
  accepts : Option ℕ → Option ℕ → Call
  closes : Option ℕ → Call

-- The members of an endpoint that concern its socket. `status` is whether the last call succeeded.
pub record EndpointBase : Type 0 where
  pub address : Address
  pub socket_id : Option ℕ
  pub status : Bool
  pub valid_flag : Bool

-- `htons` of an `int`, which is cut to 16 bits.
unfoldable pub htons : ℕ → List ℕ
htons port = (port / 256) % 256 ∷ port % 256 ∷ []

abbrev pub inaddr_any : List ℕ
inaddr_any = 0 ∷ 0 ∷ 0 ∷ 0 ∷ []

unfoldable pub is_some : Option ℕ → Bool
is_some none = false
is_some (some fd) = true

-- The constructor, for the descriptor that `socket` returns. `type` has no SOCK_NONBLOCK.
unfoldable pub construct : ℕ → SocketType → Bool → Option ℕ → EndpointBase × List Call
construct port type blocking opened =
    let asked = if not blocking then record type { is_nonblocking = true } else type in
    (
      record {
        address = record { sin_port = htons port; s_addr = inaddr_any };
        socket_id = opened;
        status = true;
        valid_flag = is_some opened;
      },
      opens asked opened ∷ [],
    )

-- The destructor, and whether `close` succeeds.
unfoldable pub destroy : EndpointBase → Bool → EndpointBase × List Call
destroy e closed = (record e { status = closed }, closes e.socket_id ∷ [])

-- What the constructors of ServerTcpEndpoint, ServerUdpEndpoint and ClientUdpEndpoint do after that of
-- the base, and whether `bind` succeeds.
unfoldable pub bind_any : EndpointBase → Bool → EndpointBase × List Call
bind_any e bound =
    let e' = record e { address = record (e.address) { s_addr = inaddr_any }; status = bound } in
    (e', binds e'.socket_id e'.address ∷ [])

abbrev pub stream_type : SocketType
stream_type = record { is_datagram = false; is_nonblocking = false }

abbrev pub datagram_type : SocketType
datagram_type = record { is_datagram = true; is_nonblocking = false }

-- `ServerTcpEndpoint::ServerTcpEndpoint`
unfoldable pub server_tcp_endpoint : ℕ → Bool → Option ℕ → Bool → EndpointBase × List Call
server_tcp_endpoint port blocking opened bound =
    let (base, asked) = construct port stream_type blocking opened in
    let (e, more) = bind_any base bound in (e, asked ++ more)

-- `ServerUdpEndpoint::ServerUdpEndpoint`
unfoldable pub server_udp_endpoint : ℕ → Bool → Option ℕ → Bool → EndpointBase × List Call
server_udp_endpoint port blocking opened bound =
    let (base, asked) = construct port datagram_type blocking opened in
    let (e, more) = bind_any base bound in (e, asked ++ more)

-- `ClientUdpEndpoint::ClientUdpEndpoint`, which blocks.
unfoldable pub client_udp_endpoint : ℕ → Option ℕ → Bool → EndpointBase × List Call
client_udp_endpoint port opened bound = server_udp_endpoint port true opened bound

abbrev pub max_tcp_connections : ℕ
max_tcp_connections = 8

-- `listenConnections`
unfoldable pub listen_connections : EndpointBase → Bool → EndpointBase × List Call
listen_connections e listening =
    (record e { status = listening }, listens e.socket_id max_tcp_connections ∷ [])

-- `ClientTcpEndpoint::connectTo`. What `inet_pton` writes is an argument: a text that is no address
-- leaves zeros. The line that it prints at the end says that the connection is established, whatever
-- `connect` has answered.
unfoldable pub connect_to :
    (List ℕ → Option (List ℕ)) → EndpointBase → List ℕ → ℕ → Bool → EndpointBase × List Call
connect_to inet_pton e ip_address server_port connected =
    let server_addr : Address = record {
      sin_port = htons server_port;
      s_addr = Option.get_or (inet_pton ip_address) inaddr_any;
    } in
    (record e { status = connected }, connects e.socket_id server_addr ∷ [])
