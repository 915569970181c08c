-- ===== src/UdpEndpoint/Network/Growth.antt =====
-- What is known of a side stays known when the logs grow.
use simple_messenger.Prelude.{ℕ, List, [], ◌∷◌, ◌++◌, In, In-append_left, All-map}
use simple_messenger.CircularBuffer.Refine.{contents}
use simple_messenger.Message.{Envelope, get_time_stamp}
use simple_messenger.Endpoint.{Wire}
use simple_messenger.UdpEndpoint.Defs.{AddressedEnvelope, ExpiringAck, Datagram}
use simple_messenger.UdpEndpoint.Network.{Side, Sender, idle, holds, waits, returns}
use simple_messenger.UdpEndpoint.Network.Invariant.{
  CopyOf, TimeOf, Outgoing, Genuine, Busy, InHand, Inv,
}

-- Every message of a log is in the other.
abbrev pub Within : List Envelope → List Envelope → Type 0
Within log log' = (env : Envelope) → In env log → In env log'

pub Within-append : (log : List Envelope) (env : Envelope) → Within log (log ++ (env ∷ []))
Within-append log env m i = In-append_left log (env ∷ []) m i

module _ (log log' : List Envelope) (grows : Within log log') where
  pub CopyOf-Within : (got : Envelope) → CopyOf log got → CopyOf log' got
  CopyOf-Within got (env, i, proper, copy) = (env, grows env i, proper, copy)

  pub TimeOf-Within : (t : ℕ) → TimeOf log t → TimeOf log' t
  TimeOf-Within t (env, i, e) = (env, grows env i, e)

  pub Outgoing-Within : (env : Envelope) → Outgoing log env → Outgoing log' env
  Outgoing-Within env (i, proper) = (grows env i, proper)

  pub Busy-Within : (r : Sender) → Busy log r → Busy log' r
  Busy-Within idle b = b
  Busy-Within (holds a k) b = Outgoing-Within a.env b
  Busy-Within (waits a k) b = Outgoing-Within a.env b
  Busy-Within (returns a k ack) b = Outgoing-Within a.env b

  pub InHand-Within : (r : Sender) → InHand log r → InHand log' r
  InHand-Within idle h = h
  InHand-Within (holds a k) h = h
  InHand-Within (waits a k) h = h
  InHand-Within (returns a k ack) (time, range) = (TimeOf-Within ack.t_stamp time, range)

module _ (W : Wire) (posted posted' taken taken' : List Envelope) (p : Within posted posted')
    (t : Within taken taken') where
  pub Genuine-Within : (d : Datagram) → Genuine W posted taken d → Genuine W posted' taken' d
  Genuine-Within d (got, read, message, ack) = (
    got,
    read,
    λ h. CopyOf-Within posted posted' p got (message h),
    λ h. TimeOf-Within taken taken' t (get_time_stamp got) (ack h),
  )

  -- The logs of the peer grow.
  pub Inv-Within : (s : Side) → Inv W s posted taken → Inv W s posted' taken'
  Inv-Within s v = record {
    order = v.order;
    outgoing = v.outgoing;
    busy = v.busy;
    in_hand = InHand-Within taken taken' t s.sender v.in_hand;
    genuine = v.genuine;
    own = v.own;
    incoming =
        All-map (λ (a : AddressedEnvelope). CopyOf posted a.env) (λ a. CopyOf posted' a.env)
          (λ a h. CopyOf-Within posted posted' p a.env h) (contents s.endpoint.in_queue) v.incoming;
    copies =
        All-map (CopyOf posted) (CopyOf posted') (CopyOf-Within posted posted' p) s.taken v.copies;
    acks =
        All-map (λ (a : ExpiringAck). TimeOf taken a.t_stamp) (λ a. TimeOf taken' a.t_stamp)
          (λ a h. TimeOf-Within taken taken' t a.t_stamp h) (contents s.endpoint.ack_queue) v.acks;
    known =
        All-map (λ (env : Envelope). TimeOf taken (get_time_stamp env))
          (λ env. TimeOf taken' (get_time_stamp env))
          (λ env h. TimeOf-Within taken taken' t (get_time_stamp env) h) s.confirmed v.known;
  }
