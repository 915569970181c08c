-- ===== src/UdpEndpoint/Network/Invariant.antt =====
-- What every step of a side keeps, of itself and of its peer.
use simple_messenger.Prelude.{ℕ, ◌<◌, ◌≡◌, true, false, some, List, In, All}
use simple_messenger.CircularBuffer.Refine.{contents}
use simple_messenger.Message.{Envelope, get_message_type, get_time_stamp}
use simple_messenger.Endpoint.{Wire, get_env_from_proto_buffer_in}
use simple_messenger.UdpEndpoint.Defs.{Datagram, is_ack}
use simple_messenger.UdpEndpoint.Send.{InOrder}
use simple_messenger.UdpEndpoint.Network.{Side, Sender, idle, holds, waits, returns, IsProper}
use simple_messenger.UdpEndpoint.Network.Sends.{IsCopy}
use simple_messenger.UdpEndpoint.Network.Queues.{AllTimes}

-- A message of `log`, as a receiver reads it.
abbrev pub CopyOf : List Envelope → Envelope → Type 0
CopyOf log got = (env : Envelope) × In env log × IsProper env × IsCopy env got

-- The time of a message of `log`.
abbrev pub TimeOf : List Envelope → ℕ → Type 0
TimeOf log t = (env : Envelope) × In env log × (get_time_stamp env ≡ t)

-- A message that is on its way to the peer.
abbrev pub Outgoing : List Envelope → Envelope → Type 0
Outgoing posted env = In env posted × IsProper env

-- A datagram holds a message that was posted, or an acknowledgement of one that was taken.
abbrev pub Genuine : Wire → List Envelope → List Envelope → Datagram → Type 0
Genuine W posted taken d =
    (got : Envelope) × (get_env_from_proto_buffer_in W d.buffer ≡ some got)
    × (is_ack (get_message_type got) ≡ false → CopyOf posted got)
    × (is_ack (get_message_type got) ≡ true → TimeOf taken (get_time_stamp got))

-- The message that the sender's thread is busy with.
abbrev pub Busy : List Envelope → Sender → Type 0
Busy posted idle = Unit
Busy posted (holds a_env k) = Outgoing posted a_env.env
Busy posted (waits a_env k) = Outgoing posted a_env.env
Busy posted (returns a_env k ack) = Outgoing posted a_env.env

-- A counter of an acknowledgement that is not used up.
abbrev pub IsCounter : ℕ → Type 0
IsCounter n = (0 < n) × (n < 256)

-- The acknowledgement that the sender's thread has in its hand.
abbrev pub InHand : List Envelope → Sender → Type 0
InHand peer_taken idle = Unit
InHand peer_taken (holds a_env k) = Unit
InHand peer_taken (waits a_env k) = Unit
InHand peer_taken (returns a_env k ack) = TimeOf peer_taken ack.t_stamp × IsCounter ack.counter

-- What is known of a side, by the logs of its peer.
pub record Inv (W : Wire) (s : Side) (peer_posted peer_taken : List Envelope) : Type 0 where
  pub order : InOrder s.endpoint
  pub outgoing : All (λ a. Outgoing s.posted a.env) (contents s.endpoint.out_queue)
  pub busy : Busy s.posted s.sender
  pub in_hand : InHand peer_taken s.sender
  pub genuine : All (Genuine W s.posted s.taken) s.sent
  pub incoming : All (λ a. CopyOf peer_posted a.env) (contents s.endpoint.in_queue)
  pub copies : All (CopyOf peer_posted) s.taken
  pub acks : AllTimes (TimeOf peer_taken) (contents s.endpoint.ack_queue)
  pub known : All (λ env. TimeOf peer_taken (get_time_stamp env)) s.confirmed
  pub own : All (λ env. In env s.posted) s.confirmed
