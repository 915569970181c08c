-- ===== src/UdpEndpoint/Network/Delivery.antt =====
-- What two endpoints promise the programs that use them.
use simple_messenger.Prelude.{◌≡◌, sym, subst, ◌∙◌, List, [], In, All, All-In}
use simple_messenger.CircularBuffer.Refine.{contents}
use simple_messenger.Message.{Envelope, get_time_stamp}
use simple_messenger.Endpoint.{Wire}
use simple_messenger.UdpEndpoint.Defs.{UdpEndpointBase}
use simple_messenger.UdpEndpoint.Send.{InOrder}
use simple_messenger.UdpEndpoint.Network.{Side, World, Course, NoOverlap, run_of, fresh}
use simple_messenger.UdpEndpoint.Network.Sends.{IsCopy}
use simple_messenger.UdpEndpoint.Network.Invariant.{CopyOf, TimeOf, Inv}
use simple_messenger.UdpEndpoint.Network.Moves.{IsCopy-fields}
use simple_messenger.UdpEndpoint.Network.Histories.{Both, Runs-Both}

-- An endpoint whose queues are empty.
pub record IsIdle (e : UdpEndpointBase) : Type 0 where
  pub order : InOrder e
  pub no_out : contents e.out_queue ≡ []
  pub no_in : contents e.in_queue ≡ []
  pub no_ack : contents e.ack_queue ≡ []

fresh-Inv : (W : Wire) (e : UdpEndpointBase) → IsIdle e → Inv W (fresh e) [] []
fresh-Inv W e v = record {
  order = v.order;
  outgoing = rw (v.no_out) tt;
  busy = tt;
  in_hand = tt;
  genuine = tt;
  incoming = rw (v.no_in) tt;
  copies = tt;
  acks = rw (v.no_ack) tt;
  known = tt;
  own = tt;
}

-- Two idle endpoints.
abbrev pub start : UdpEndpointBase → UdpEndpointBase → World
start a b = record { left = fresh a; right = fresh b }

start-Both : (W : Wire) (a b : UdpEndpointBase) → IsIdle a → IsIdle b → Both W (start a b)
start-Both W a b va vb = record { left_inv = fresh-Inv W a va; right_inv = fresh-Inv W b vb }

-- Whatever is lost, repeated or reordered, every message that a program takes is one that the program
-- of the other side has posted, with its text, its type, its time and its addresses; acknowledgements
-- are never taken for messages. The two endpoints start idle, the programs post messages of the type
-- `Envelope` that are no acknowledgements, and no two calls of `sendDataGram` of one endpoint overlap,
-- which its code does not prevent.
pub taken_genuine :
    (W : Wire) (a b : UdpEndpointBase) (w : World)
    → IsIdle a
    → IsIdle b
    → (moves : Course W (start a b) w) → NoOverlap moves
    → All (CopyOf w.left.posted) w.right.taken × All (CopyOf w.right.posted) w.left.taken
taken_genuine W a b w va vb moves apart =
    let v = Runs-Both W (run_of W moves apart) (start-Both W a b va vb) in
    (v.right_inv.copies, v.left_inv.copies)

-- The clock has given each message of a log a time of its own.
abbrev pub DistinctTimes : List Envelope → Type 0
DistinctTimes log =
    (m m' : Envelope) → In m log → In m' log → get_time_stamp m ≡ get_time_stamp m' → m ≡ m'

-- Every message of the first log has been taken: a copy of it is in the second.
abbrev pub AllTaken : List Envelope → List Envelope → Type 0
AllTaken log taken = (m : Envelope) → In m log → (got : Envelope) × In got taken × IsCopy m got

confirmed_side :
    (W : Wire) (s r : Side)
    → Inv W s r.posted r.taken
    → Inv W r s.posted s.taken
    → DistinctTimes s.posted
    → AllTaken s.confirmed r.taken
confirmed_side W s r vs vr distinct m i =
    let (got, j, time) =
      All-In (λ (e : Envelope). TimeOf r.taken (get_time_stamp e)) s.confirmed m vs.known i in
    let posted_m = All-In (λ (e : Envelope). In e s.posted) s.confirmed m vs.own i in
    let (m', k, proper, copy) = All-In (CopyOf s.posted) r.taken got vr.copies j in
    let (_, times) = IsCopy-fields m' got copy in
    let same : m' ≡ m = distinct m' m k posted_m (sym times ∙ time) in
    (got, j, subst (λ (e : Envelope). IsCopy e got) same copy)

-- An acknowledged message has been delivered: if the sender's thread of a side has found an
-- acknowledgement of a message, then the program of the other side has taken that message, with its
-- text. The two endpoints start idle, the programs post messages of the type `Envelope` that are no
-- acknowledgements, the messages that a side posted have different times, and no two calls of
-- `sendDataGram` of one endpoint overlap, which its code does not prevent.
pub confirmed_delivered :
    (W : Wire) (a b : UdpEndpointBase) (w : World)
    → IsIdle a
    → IsIdle b
    → (moves : Course W (start a b) w) → NoOverlap moves
    → DistinctTimes w.left.posted
    → DistinctTimes w.right.posted
    → AllTaken w.left.confirmed w.right.taken × AllTaken w.right.confirmed w.left.taken
confirmed_delivered W a b w va vb moves apart dl dr =
    let v = Runs-Both W (run_of W moves apart) (start-Both W a b va vb) in
    (
      confirmed_side W w.left w.right v.left_inv v.right_inv dl,
      confirmed_side W w.right w.left v.right_inv v.left_inv dr,
    )
