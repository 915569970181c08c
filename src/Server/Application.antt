-- ===== src/Server/Application.antt =====
-- The server as a process: the sockets of server_app/server_manager/ServerManager.cpp, its event loop,
-- and server_app/server_app_main.cpp. What the operating system answers is an argument.
use simple_messenger.Prelude.{ℕ, ◌≡◌, refl, Bool, true, false, Option, List, [], ◌++◌, arith, codes}
use simple_messenger.Decimal.{to_string, print_digits}
use simple_messenger.Sockets.{
  EndpointBase, Call, construct, bind_any, destroy, server_tcp_endpoint, server_udp_endpoint,
}
use simple_messenger.Sockets.Calls.{handed_out, closed}
use simple_messenger.GrpcServer.Handlers.{Handlers, start}
use simple_messenger.Server.Defs.{default_tcp_port}

abbrev pub default_udp_port : ℕ
default_udp_port = 51112

abbrev pub default_grpc_port : ℕ
default_grpc_port = 51113

-- The two endpoints of the server manager.
pub record Endpoints : Type 0 where
  pub endpoint : EndpointBase
  pub udp_endpoint : EndpointBase

-- The initializers of the constructor, for the descriptors that `socket` returns and for whether
-- `bind` succeeds: the TCP socket does not block, the UDP socket does.
unfoldable pub construct_endpoints : Option ℕ → Bool → Option ℕ → Bool → Endpoints × List Call
construct_endpoints tcp_opened tcp_bound udp_opened udp_bound =
    let (tcp, asked) = server_tcp_endpoint default_tcp_port false tcp_opened tcp_bound in
    let (udp, more) = server_udp_endpoint default_udp_port true udp_opened udp_bound in
    (record { endpoint = tcp; udp_endpoint = udp }, asked ++ more)

-- The destructors of the two members, the last one first, and whether `close` succeeds.
unfoldable pub destroy_endpoints : Endpoints → Bool → Bool → List Call
destroy_endpoints m udp_closed tcp_closed =
    (destroy m.udp_endpoint udp_closed).1 ++ (destroy m.endpoint tcp_closed).1

-- `getTcpEndPoint` and `getUdpEndPoint`
abbrev pub get_tcp_end_point : Endpoints → EndpointBase
get_tcp_end_point m = m.endpoint

abbrev pub get_udp_end_point : Endpoints → EndpointBase
get_udp_end_point m = m.udp_endpoint

-- `runEventLoop`: the address that gRPC listens at, and the handlers before the first call.
unfoldable pub event_loop_address : List ℕ
event_loop_address = codes "0.0.0.0:" ++ to_string default_grpc_port

unfoldable pub run_event_loop : List ℕ × Handlers
run_event_loop = (event_loop_address, start (record { post_box = [] }))

-- The descriptors of the two sockets are closed as often as they were handed out, each one by the
-- destructor of its endpoint, whether `bind` and `close` succeed or not.
pub endpoints_balanced :
    (tcp_opened udp_opened : Option ℕ) (tcp_bound udp_bound udp_closed tcp_closed : Bool) (h : ℕ)
    → let (m, asked) = construct_endpoints tcp_opened tcp_bound udp_opened udp_bound in
      let calls = asked ++ destroy_endpoints m udp_closed tcp_closed in
      handed_out calls h ≡ closed calls h
unfolding construct_endpoints destroy_endpoints server_tcp_endpoint server_udp_endpoint construct
    bind_any destroy handed_out closed
endpoints_balanced tcp_opened udp_opened tcp_bound udp_bound udp_closed tcp_closed h = omega arith

-- The port of the event loop is the one that the clients are given.
event_loop_listens : event_loop_address ≡ codes "0.0.0.0:51113"
unfolding event_loop_address to_string print_digits
event_loop_listens = refl
