-- ===== src/Server/Tcp.antt =====
-- common/endpoint/TcpEndpointBase.cpp: an envelope is sent as the bytes of its struct, and received
-- by one call of `recv`, whose count is only logged. What `recv` writes is a function of the handle.
use simple_messenger.Prelude.{
  inr, inl, Bool-cases, ℕ, ◌+◌, ◌-◌, ◌≤◌, ◌≡◌, refl, Option, some, none, List, [], ◌++◌, arith,
  length, take, replicate, ◌==◌, if◌then◌else◌, false, ==_refl, length-replicate, length-append,
  length-take, take-append_more, append_assoc, ap, sym, ◌∙◌,
}
use mathlib.Core.Option
use simple_messenger.Memory.{copy_into, copy_into-some, drop-replicate}
use simple_messenger.Message.{Envelope, ClientInfo, envelope_size, meta_size, payload_capacity}
use simple_messenger.Message.Struct.{
  meta_bytes, length-meta_bytes, envelope_bytes, envelope_of, IsMeta, envelope_of-bytes,
}
use simple_messenger.Psql.Defs.{Libpq, PsqlManager}
use simple_messenger.Endpoint.{Polled, poll_socket}
use simple_messenger.Server.Defs.{ServerTcpEndpoint, Sent, authentify_client}

-- The bytes that `send` is given.
unfoldable pub sent_bytes : Sent → List ℕ
sent_bytes s = envelope_bytes s.env

-- `TcpEndpointBase::receiveEnvelope` of the endpoint with the socket `socket_id`.
unfoldable pub receive_tcp : ℕ → (ℕ → List ℕ) → ℕ → Option Envelope
receive_tcp socket_id recv sender_handle =
    let handle = if sender_handle == 0 then socket_id else sender_handle in
    Option.map envelope_of (copy_into (replicate envelope_size 0) (recv handle))

-- `TcpEndpointBase::tryReceiveEnvelope`, where `polled` is what `poll` reports of a handle. The inner
-- `none` is no envelope.
unfoldable pub try_receive_tcp : ℕ → (ℕ → Polled) → (ℕ → List ℕ) → ℕ → Option (Option Envelope)
try_receive_tcp socket_id polled recv sender_handle =
    let (ready_to_read, _) = poll_socket (polled sender_handle) in
    if ready_to_read then Option.map some (receive_tcp socket_id recv sender_handle) else some none

-- `authentifyClient` with its `receiveEnvelope`.
unfoldable pub authentify_over_tcp :
    (L : Libpq)
    → ServerTcpEndpoint
    → PsqlManager L
    → ClientInfo
    → ℕ
    → (ℕ → List ℕ)
    → Option (Sent × ServerTcpEndpoint × PsqlManager L)
unfolding Option.bind
authentify_over_tcp L e m client_info sock_id recv =
    Option.bind (receive_tcp e.socket_id recv sock_id) (authentify_client L e m client_info sock_id)

-- What has come over a connection when `recv` is called on its handle.
unfoldable pub arrived_on : ℕ → List ℕ → ℕ → List ℕ
arrived_on handle bytes h = if h == handle then bytes else []

-- The handle 0 is the socket of the endpoint.
pub receive_own :
    (socket_id : ℕ) (recv : ℕ → List ℕ)
    → receive_tcp socket_id recv 0 ≡ receive_tcp socket_id recv socket_id
unfolding receive_tcp
receive_own socket_id recv = elim (Bool-cases (socket_id == 0)) [
  | inl zero_socket ↦ rw zero_socket refl
  | inr other ↦ rw other refl
]

-- What `receiveEnvelope` makes of bytes that fit an envelope.
received_bytes :
    (socket_id handle : ℕ) (bytes : List ℕ)
    → (handle == 0) ≡ false
    → length bytes ≤ envelope_size
    → receive_tcp socket_id (arrived_on handle bytes) handle
      ≡ some (envelope_of (bytes ++ replicate (envelope_size - length bytes) 0))
unfolding receive_tcp arrived_on
received_bytes socket_id handle bytes nonzero fits =
    let zeros = replicate envelope_size 0 in
    let stored =
      copy_into-some zeros bytes (omega (arith, length-replicate {A = ℕ} envelope_size 0)) in
    rw (nonzero, ==_refl handle, stored, drop-replicate (length bytes) envelope_size 0)

-- The start of an envelope, filled up with zeros.
cut_bytes :
    (env : Envelope) (k : ℕ)
    → length env.payload ≡ payload_capacity
    → k ≤ payload_capacity
    → let bytes = take (meta_size + k) (envelope_bytes env) in
      (length bytes ≤ envelope_size)
      × (bytes ++ replicate (envelope_size - length bytes) 0
          ≡ meta_bytes env.meta_data ++ (take k env.payload ++ replicate (payload_capacity - k) 0))
unfolding envelope_bytes
cut_bytes env k sized le =
    let m = meta_bytes env.meta_data in
    let m_sized : length m ≡ meta_size = length-meta_bytes env.meta_data in
    let cut : take (meta_size + k) (m ++ env.payload) ≡ m ++ take k env.payload =
      ap (λ n. take (n + k) (m ++ env.payload)) (sym m_sized) ∙ take-append_more m env.payload k in
    let cut_sized : length (m ++ take k env.payload) ≡ meta_size + k =
      omega
        (arith, length-append m (take k env.payload), length-take k env.payload (omega arith)) in
    let room : envelope_size - (meta_size + k) ≡ payload_capacity - k = omega arith in
    (
      rw (cut, cut_sized) (omega arith),
      rw (cut, cut_sized, room)
          (append_assoc m (take k env.payload) (replicate (payload_capacity - k) 0)),
    )

-- Where only the metadata and `k` bytes of the payload have come, `receiveEnvelope` returns the
-- envelope with a payload that is cut there and filled with zeros, and says nothing of it. The handle
-- is not 0, and the envelope is one that the struct can hold.
pub receive_tcp_lem :
    (socket_id handle k : ℕ) (env : Envelope)
    → (handle == 0) ≡ false
    → IsMeta env.meta_data
    → length env.payload ≡ payload_capacity
    → k ≤ payload_capacity
    → receive_tcp socket_id (arrived_on handle (take (meta_size + k) (envelope_bytes env))) handle
      ≡ some (record env { payload = take k env.payload ++ replicate (payload_capacity - k) 0 })
receive_tcp_lem socket_id handle k env nonzero value sized le =
    let (fits, filled) = cut_bytes env k sized le in
    received_bytes socket_id handle (take (meta_size + k) (envelope_bytes env)) nonzero fits
    ∙ ap (λ b. some (envelope_of b)) filled
    ∙ ap some (
        envelope_of-bytes env.meta_data (take k env.payload ++ replicate (payload_capacity - k) 0)
          value)
