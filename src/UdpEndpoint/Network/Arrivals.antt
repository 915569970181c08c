-- ===== src/UdpEndpoint/Network/Arrivals.antt =====
-- The steps of the listener and of the program that takes a message keep what is known of a side.
use simple_messenger.Prelude.{
  ℕ, ◌≡◌, refl, sym, ap, ◌∙◌, subst, true, false, none, some, List, [], ◌∷◌, ◌++◌, length-replicate,
  Bool-cases, inl, inr, In-append_last, All-append, All-map,
}
use mathlib.Core.Option
use simple_messenger.CircularBuffer.Invariant.{pop-IsValid}
use simple_messenger.CircularBuffer.Refine.{contents}
use simple_messenger.Message.{
  Envelope, SocketInfo, payload_capacity, get_message_type, get_time_stamp, set_time_stamp,
  set_message_type,
}
use simple_messenger.Endpoint.{Wire, get_env_from_proto_buffer_in}
use simple_messenger.UdpEndpoint.Defs.{
  UdpEndpointBase, AddressedEnvelope, ExpiringAck, Datagram, is_ack, listen_round,
  dispatch_incoming_env, recv_datagram, try_receive_envelope,
}
use simple_messenger.UdpEndpoint.Send.{InOrder, dispatch_one_lem}
use simple_messenger.UdpEndpoint.RoundTrip.{delivered, ack_for}
use simple_messenger.UdpEndpoint.Network.{Side}
use simple_messenger.UdpEndpoint.Network.Sends.{sent-IsCopy, sent-SameQueues}
use simple_messenger.UdpEndpoint.Network.Queues.{All-pop, All-keep_last}
use simple_messenger.UdpEndpoint.Network.Invariant.{CopyOf, TimeOf, Genuine, Inv}
use simple_messenger.UdpEndpoint.Network.Growth.{Within-append, Genuine-Within}
use simple_messenger.UdpEndpoint.Network.Moves.{IsCopy-fields, InOrder-SameQueues}
use simple_messenger.UdpEndpoint.Network.Takes.{rest, handed_lem, nothing_lem}

-- The listener dispatches what it reads.
pub listen_dispatches :
    (W : Wire) (e : UdpEndpointBase) (from : SocketInfo) (d : Datagram) (got : Envelope)
    → get_env_from_proto_buffer_in W d.buffer ≡ some got
    → listen_round W e (delivered from d)
      ≡ dispatch_incoming_env
          (record e { buffer_in = d.buffer })
          (record { sock_info = from; env = got })
unfolding listen_round recv_datagram Option.bind
listen_dispatches W e from d got read = rw read

module _ (W : Wire) (peer_posted peer_taken : List Envelope) (s : Side)
    (v : Inv W s peer_posted peer_taken) where
  pub hears-Inv :
      (from : SocketInfo) (d : Datagram) (e : UdpEndpointBase)
      → Genuine W peer_posted peer_taken d
      → listen_round W s.endpoint (delivered from d) ≡ some e
      → Inv W (record s { endpoint = e }) peer_posted peer_taken
  hears-Inv from d e (got, read, message, ack) heard =
      let e₀ : UdpEndpointBase = record (s.endpoint) { buffer_in = d.buffer } in
      let a_env : AddressedEnvelope = record { sock_info = from; env = got } in
      let order₀ =
        InOrder-SameQueues s.endpoint e₀
          (record { same_in = refl; same_out = refl; same_ack = refl }) v.order in
      let (e₁, done, order, acks, ins, out, _, _) = dispatch_one_lem e₀ a_env order₀ in
      let same : e₁ ≡ e = cc (heard, listen_dispatches W s.endpoint from d got read, done) in
      subst (λ (r : UdpEndpointBase). Inv W (record s { endpoint = r }) peer_posted peer_taken) same
        (record {
          order = order;
          outgoing = rw out (v.outgoing);
          busy = v.busy;
          in_hand = v.in_hand;
          genuine = v.genuine;
          incoming = rw ins (elim (Bool-cases (is_ack (get_message_type got))) [
            | inl told ↦ rw told (v.incoming)
            | inr plain ↦ rw plain (
                All-keep_last (λ (a : AddressedEnvelope). CopyOf peer_posted a.env) 4
                  (contents s.endpoint.in_queue) a_env v.incoming (message plain))
          ]);
          copies = v.copies;
          acks = rw acks (elim (Bool-cases (is_ack (get_message_type got))) [
            | inl told ↦ rw told (
                All-keep_last (λ (a : ExpiringAck). TimeOf peer_taken a.t_stamp) 4
                  (contents s.endpoint.ack_queue)
                  (record { counter = 3; t_stamp = get_time_stamp got }) v.acks (ack told))
            | inr plain ↦ rw plain (v.acks)
          ]);
          known = v.known;
          own = v.own;
        })

  pub takes-Inv :
      (env : Envelope) (ack : Datagram) (e : UdpEndpointBase)
      → try_receive_envelope W s.endpoint ≡ some (some (env, ack), e)
      → let s' : Side = record s {
        endpoint = e;
        sent = s.sent ++ (ack ∷ []);
        taken = s.taken ++ (env ∷ []);
      } in
        Inv W s' peer_posted peer_taken
  unfolding set_time_stamp set_message_type get_message_type get_time_stamp
  takes-Inv env ack e took =
      let h = handed_lem W s.endpoint env ack e took in
      let t = get_time_stamp h.item.env in
      let e₁ : UdpEndpointBase = rest W s.endpoint in
      let note : AddressedEnvelope = record { sock_info = h.item.sock_info; env = ack_for t } in
      let (remaining, was) =
        All-pop (λ (a : AddressedEnvelope). CopyOf peer_posted a.env) v.order.sound.in_valid
          v.incoming in
      let (same, _) = sent-SameQueues W e₁ note ack e h.left in
      let (got, copy, read) =
        sent-IsCopy W e₁ note ack e h.left (record { message_type = tt; data_type = tt })
          (length-replicate {A = ℕ} payload_capacity 0) in
      let (type, time) = IsCopy-fields (ack_for t) got copy in
      let taken' : List Envelope = s.taken ++ (env ∷ []) in
      let order₁ : InOrder e₁ = record {
        sound = record {
          in_valid = pop-IsValid v.order.sound.in_valid;
          out_valid = v.order.sound.out_valid;
          ack_valid = v.order.sound.ack_valid;
        };
        counters = v.order.counters;
      } in
      record {
        order = InOrder-SameQueues e₁ e same order₁;
        outgoing = rw (same.same_out) (v.outgoing);
        busy = v.busy;
        in_hand = v.in_hand;
        genuine =
            All-append (Genuine W s.posted taken') s.sent (ack ∷ [])
              (All-map (Genuine W s.posted s.taken) (Genuine W s.posted taken')
                (Genuine-Within W s.posted s.posted s.taken taken' (λ m i. i)
                  (Within-append s.taken env))
                s.sent v.genuine)
              (
                (
                  got,
                  read,
                  λ plain. let clash : true ≡ false = sym (ap is_ack type) ∙ plain in cc clash,
                  λ _. (
                    env,
                    In-append_last s.taken env,
                    ap get_time_stamp (sym h.handed) ∙ sym time,
                  ),
                ),
                tt,
              );
        incoming = rw (same.same_in) remaining;
        copies =
            All-append (CopyOf peer_posted) s.taken (env ∷ []) v.copies
              (subst (CopyOf peer_posted) h.handed (was h.item h.popped), tt);
        acks = rw (same.same_ack) (v.acks);
        known = v.known;
        own = v.own;
      }

  pub takes_nothing-Inv :
      (e : UdpEndpointBase)
      → try_receive_envelope W s.endpoint ≡ some (none, e)
      → Inv W (record s { endpoint = e }) peer_posted peer_taken
  takes_nothing-Inv e took =
      let (remaining, _) =
        All-pop (λ (a : AddressedEnvelope). CopyOf peer_posted a.env) v.order.sound.in_valid
          v.incoming in
      subst (λ (r : UdpEndpointBase). Inv W (record s { endpoint = r }) peer_posted peer_taken)
        (sym (nothing_lem W s.endpoint e took))
        (record {
          order = record {
            sound = record {
              in_valid = pop-IsValid v.order.sound.in_valid;
              out_valid = v.order.sound.out_valid;
              ack_valid = v.order.sound.ack_valid;
            };
            counters = v.order.counters;
          };
          outgoing = v.outgoing;
          busy = v.busy;
          in_hand = v.in_hand;
          genuine = v.genuine;
          incoming = remaining;
          copies = v.copies;
          acks = v.acks;
          known = v.known;
          own = v.own;
        })
