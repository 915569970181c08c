-- ===== src/Sockets/Tests.antt =====
-- The calls of two concrete endpoints.
use simple_messenger.Prelude.{◌≡◌, refl, true, false, none, some, [], ◌∷◌}
use simple_messenger.Sockets.{
  binds, opens, connects, construct, stream_type, bind_any, client_udp_endpoint,
  server_udp_endpoint, connect_to, htons, is_some,
}

-- The port 51112 is 199 * 256 + 168.
udp_calls :
    (client_udp_endpoint 51112 (some 5) true).1
    ≡ opens (record { is_datagram = true; is_nonblocking = false }) (some 5)
      ∷ binds (some 5) (record { sin_port = 199 ∷ 168 ∷ []; s_addr = 0 ∷ 0 ∷ 0 ∷ 0 ∷ [] })
      ∷ []
unfolding client_udp_endpoint server_udp_endpoint construct bind_any htons is_some
udp_calls = refl

-- A text that is no address connects to 0.0.0.0.
connect_nowhere :
    (connect_to (λ _. none) (construct 0 stream_type true (some 5)).0 (1 ∷ []) 51111 false).1
    ≡ connects (some 5) (record { sin_port = 199 ∷ 167 ∷ []; s_addr = 0 ∷ 0 ∷ 0 ∷ 0 ∷ [] }) ∷ []
unfolding connect_to construct htons
connect_nowhere = refl
