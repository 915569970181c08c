-- ===== src/UdpEndpoint/Network/Histories.antt =====
-- What is known of two endpoints after any run.
use simple_messenger.Prelude.{List, All, All-In}
use simple_messenger.Message.{Envelope}
use simple_messenger.Endpoint.{Wire}
use simple_messenger.UdpEndpoint.Defs.{Datagram}
use simple_messenger.UdpEndpoint.Network.{
  Side, posts, picks, transmits, gives_up, finds, finds_no_ack, finds_other, puts_back, drops_ack,
  drops_message, hears, takes, takes_nothing, Step, World, Runs, done, left_step, right_step,
  stamped,
}
use simple_messenger.UdpEndpoint.Network.Invariant.{Genuine, Inv}
use simple_messenger.UdpEndpoint.Network.Growth.{Within, Within-append, Inv-Within}
use simple_messenger.UdpEndpoint.Network.Moves.{
  posts-Inv, picks-Inv, transmits-Inv, gives_up-Inv, finds-Inv, finds_no_ack-Inv, finds_other-Inv,
  puts_back-Inv, drops_ack-Inv, drops_message-Inv,
}
use simple_messenger.UdpEndpoint.Network.Arrivals.{hears-Inv, takes-Inv, takes_nothing-Inv}

module _ (W : Wire) (incoming : List Datagram) where
  Step-Inv :
      (peer_posted peer_taken : List Envelope) {s s' : Side}
      → All (Genuine W peer_posted peer_taken) incoming
      → Inv W s peer_posted peer_taken
      → Step W incoming s s'
      → Inv W s' peer_posted peer_taken
  Step-Inv p t {s} g v (posts now env receiver proper) = posts-Inv W p t s v now env receiver proper
  Step-Inv p t {s} g v (picks a h item) = picks-Inv W p t s v a item
  Step-Inv p t {s} g v (transmits a k d e h left) = transmits-Inv W p t s v a k d e h left
  Step-Inv p t {s} g v (gives_up a h) = gives_up-Inv W p t s v
  Step-Inv p t {s} g v (finds a k ack h item found) = finds-Inv W p t s v a k ack h item found
  Step-Inv p t {s} g v (finds_no_ack a k h empty) = finds_no_ack-Inv W p t s v a k h
  Step-Inv p t {s} g v (finds_other a k ack h item other) = finds_other-Inv W p t s v a k ack h item
  Step-Inv p t {s} g v (puts_back a k ack h) = puts_back-Inv W p t s v a k ack h
  Step-Inv p t {s} g v (hears from d e i heard) =
      hears-Inv W p t s v from d e (All-In (Genuine W p t) incoming d g i) heard
  Step-Inv p t {s} g v drops_ack = drops_ack-Inv W p t s v
  Step-Inv p t {s} g v drops_message = drops_message-Inv W p t s v
  Step-Inv p t {s} g v (takes env ack e took) = takes-Inv W p t s v env ack e took
  Step-Inv p t {s} g v (takes_nothing e took) = takes_nothing-Inv W p t s v e took

  -- The logs of a side only grow.
  Step-Within :
      {s s' : Side} → Step W incoming s s' → Within s.posted s'.posted × Within s.taken s'.taken
  Step-Within {s} (posts now env receiver proper) =
      (Within-append s.posted (stamped now env), λ m i. i)
  Step-Within (picks a h item) = (λ m i. i, λ m i. i)
  Step-Within (transmits a k d e h left) = (λ m i. i, λ m i. i)
  Step-Within (gives_up a h) = (λ m i. i, λ m i. i)
  Step-Within (finds a k ack h item found) = (λ m i. i, λ m i. i)
  Step-Within (finds_no_ack a k h empty) = (λ m i. i, λ m i. i)
  Step-Within (finds_other a k ack h item other) = (λ m i. i, λ m i. i)
  Step-Within (puts_back a k ack h) = (λ m i. i, λ m i. i)
  Step-Within (hears from d e i heard) = (λ m i. i, λ m i. i)
  Step-Within drops_ack = (λ m i. i, λ m i. i)
  Step-Within drops_message = (λ m i. i, λ m i. i)
  Step-Within {s} (takes env ack e took) = (λ m i. i, Within-append s.taken env)
  Step-Within (takes_nothing e took) = (λ m i. i, λ m i. i)

pub record Both (W : Wire) (w : World) : Type 0 where
  pub left_inv : Inv W w.left w.right.posted w.right.taken
  pub right_inv : Inv W w.right w.left.posted w.left.taken

pub Runs-Both : (W : Wire) {w w' : World} → Runs W w w' → Both W w → Both W w'
Runs-Both W done v = v
Runs-Both W {w} (left_step {s = s} step run) v =
    let (p, t) = Step-Within W w.right.sent step in
    Runs-Both W run (record {
      left_inv =
          Step-Inv W w.right.sent w.right.posted w.right.taken v.right_inv.genuine v.left_inv step;
      right_inv = Inv-Within W w.left.posted s.posted w.left.taken s.taken p t w.right v.right_inv;
    })
Runs-Both W {w} (right_step {s = s} step run) v =
    let (p, t) = Step-Within W w.left.sent step in
    Runs-Both W run (record {
      left_inv = Inv-Within W w.right.posted s.posted w.right.taken s.taken p t w.left v.left_inv;
      right_inv =
          Step-Inv W w.left.sent w.left.posted w.left.taken v.left_inv.genuine v.right_inv step;
    })
