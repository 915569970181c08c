-- ===== src/Server/Delivery.antt =====
-- From a login over TCP to the mail that reaches the client over UDP.
use simple_messenger.Prelude.{
  [], ==_refl, ◌≤◌, ◌++◌, take, drop, length, set, arith, ℕ, ◌^◌, ◌<◌, ◌≡◌, refl, ap, ◌∙◌, none,
  some, List, ◌∷◌,
}
use simple_messenger.CircularBuffer.Queue
use simple_messenger.CircularBuffer.Refine.{contents}
use simple_messenger.Memory.{c_string}
use simple_messenger.Message.{
  Envelope, SocketInfo, ClientInfo, get_time_stamp, set_time_stamp, create_time_stamp,
  get_recepient_id,
}
use simple_messenger.Psql.Defs.{Libpq, PsqlManager, handle_auth_req}
use simple_messenger.Endpoint.{Wire}
use simple_messenger.UdpEndpoint.Defs.{UdpEndpointBase, AddressedEnvelope, Datagram}
use simple_messenger.UdpEndpoint.Store.{IsSound}
use simple_messenger.UdpEndpoint.Retransmit.{Sendable}
use simple_messenger.UdpEndpoint.RoundTrip.{ack_for}
use simple_messenger.Server.Defs.{
  ServerTcpEndpoint, Sent, set_port, send_tcp, accept_connection, authentify_client,
  find_online_client, check_mail,
}
use simple_messenger.Server.Login.{or_else, authentify_client_lem}
use simple_messenger.Server.Relay.{passed_on, check_mail_found}

set_bytes :
    (l : List ℕ) (a b : ℕ) → 4 ≤ length l → set (set l 2 a) 3 b ≡ take 2 l ++ (a ∷ b ∷ drop 4 l)
set_bytes (w ∷ x ∷ y ∷ z ∷ l) a b h = refl
set_bytes [] a b h = absurd (omega arith)
set_bytes (w ∷ []) a b h = absurd (omega arith)
set_bytes (w ∷ x ∷ []) a b h = absurd (omega arith)
set_bytes (w ∷ x ∷ y ∷ []) a b h = absurd (omega arith)

set_port_lem :
    (info : SocketInfo)
    → 4 ≤ length info.addr
    → set_port info ≡ record info { addr = take 2 info.addr ++ (199 ∷ 167 ∷ drop 4 info.addr) }
unfolding set_port
set_port_lem info h = ap (λ (l : List ℕ). record info { addr = l }) (set_bytes info.addr 199 167 h)

-- A client whose connection is accepted from the address `info` and who logs in over it, where no
-- client with that id was logged in: the oldest message that the UDP endpoint has received, if it is
-- for this id, goes into the outgoing queue for that address with the bytes 199 and 167 of the TCP port
-- 51111 of the server in place of the port, which the queue drops if four messages are in it, and is
-- acknowledged to its sender. The address has at least four bytes, the id fits 64 bits, the
-- queues are valid, the text ends in its payload, and the acknowledgement fits the buffer.
pub mail_after_login :
    (W : Wire) (L : Libpq) (e : ServerTcpEndpoint) (m m' : PsqlManager L) (handle id now_us : ℕ)
    (info : SocketInfo) (auth_req_env : Envelope) (udp : UdpEndpointBase) (got : AddressedEnvelope)
    (waiting : List AddressedEnvelope) (text : List ℕ)
    → handle_auth_req L m auth_req_env ≡ some (some id, m')
    → id < 256 ^ 8
    → 4 ≤ length info.addr
    → find_online_client e.client_info_storage id ≡ none
    → Sendable W udp (ack_for (get_time_stamp (got.env)))
    → IsSound udp
    → contents udp.in_queue ≡ got ∷ waiting
    → c_string (got.env.payload) ≡ some text
    → get_recepient_id (got.env) ≡ id
    → (client : ClientInfo) × (sent : Sent) × (e' : ServerTcpEndpoint) × (ack : Datagram)
      × (udp' : UdpEndpointBase) × (accept_connection (some (handle, info)) ≡ some (client, handle))
      × (authentify_client L e m client handle auth_req_env ≡ some (sent, e', m'))
      × (check_mail W e'.client_info_storage now_us udp ≡ some (some ack, udp'))
      × (ack.peer ≡ got.sock_info)
      × (contents udp'.in_queue ≡ waiting)
      × (contents udp'.out_queue
          ≡ (Queue.push 4 (contents udp.out_queue) (record {
            sock_info = record info { addr = take 2 info.addr ++ (199 ∷ 167 ∷ drop 4 info.addr) };
            env = set_time_stamp (got.env) (create_time_stamp now_us);
          })).1)
unfolding accept_connection or_else passed_on
mail_after_login W L e m m' handle id now info req udp got waiting text asked fits long free can v
      held ends mine =
    let client : ClientInfo = record { user_id = 0; socket_info = set_port info } in
    let (env, e', done, _, _, _, online) =
      authentify_client_lem L e m m' client handle req (some id) asked fits in
    let (ack, udp', checked, back, rest, queued, _) =
      check_mail_found W e'.client_info_storage now udp got waiting text can v held ends in
    let found : find_online_client e'.client_info_storage (get_recepient_id (got.env))
        ≡ some (record client { user_id = id }) =
      rw (mine, online id, free, ==_refl id) refl in
    (
      client,
      send_tcp e env handle,
      e',
      ack,
      udp',
      refl,
      done,
      checked,
      back,
      rest,
      queued
          ∙ ap (passed_on (contents udp.out_queue) now (got.env)) found
          ∙ ap
              (λ sock.
                (Queue.push 4 (contents udp.out_queue) (record {
                  sock_info = sock;
                  env = set_time_stamp (got.env) (create_time_stamp now);
                })).1)
              (set_port_lem info long),
    )
