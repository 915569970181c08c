-- ===== src/UdpEndpoint/Store.antt =====
-- The loops that make room by dropping the oldest entry.
use simple_messenger.Message.{get_message_type, get_time_stamp}
use simple_messenger.Prelude.{
  ℕ, suc, ◌≡◌, refl, sym, ap, ◌∙◌, true, false, some, List, [], ◌∷◌, ◌++◌, arith, length, ◌==◌,
  if◌then◌else◌, Bool-cases, inl, inr,
}
use simple_messenger.CircularBuffer
use simple_messenger.CircularBuffer.{CircularBuffer}
use simple_messenger.CircularBuffer.Invariant.{IsValid, push-IsValid, pop-IsValid}
use simple_messenger.CircularBuffer.Refine.{contents, length-contents, push_of_room, pop_of_cons}
use simple_messenger.UdpEndpoint.Defs.{
  is_ack, store_in, store_rounds, UdpEndpointBase, AddressedEnvelope, dispatch_incoming_env,
  store_env_to_in_queue, store_tstamp_to_ack_queue,
}

-- A queue of capacity `n` after an item has been stored at any price: the oldest item makes room.
abbrev pub tail : {A : Type 0} → List A → List A
tail [] = []
tail (x ∷ xs) = xs

unfoldable pub keep_last : {A : Type 0} → ℕ → List A → A → List A
keep_last n q x = if length q == n then tail q ++ (x ∷ []) else q ++ (x ∷ [])

-- A buffer that is valid and holds `q`.
pub record Holds {A : Type 0} {n : ℕ} (b : CircularBuffer A n) (q : List A) : Type 0 where
  pub valid : IsValid b
  pub items : contents b ≡ q

module _ {A : Type 0} {n : ℕ} where
  push_of_full :
      (b : CircularBuffer A n) (x : A)
      → CircularBuffer.is_full b ≡ true
      → CircularBuffer.push b x ≡ (false, b)
  unfolding CircularBuffer.push
  push_of_full b x full = rw full

  -- With room, one round of the loop is enough.
  store_room :
      (f : ℕ) (b : CircularBuffer A n) (x : A)
      → IsValid b
      → CircularBuffer.is_full b ≡ false
      → (b' : CircularBuffer A n) × (store_in (suc f) b x ≡ some b')
        × Holds b' (contents b ++ (x ∷ []))
  unfolding store_in
  store_room f b x v room =
      let (done, grown) = push_of_room v x room in
      ((CircularBuffer.push b x).1, rw done, record { valid = push-IsValid x v; items = grown })

  -- The two rounds are enough for any valid buffer, and leave what the queue held followed by the
  -- new item, without the oldest item if the queue was full.
  pub store_in_lem :
      (b : CircularBuffer A n) (x : A)
      → IsValid b
      → (b' : CircularBuffer A n) × (store_in store_rounds b x ≡ some b')
        × Holds b' (keep_last n (contents b) x)
  unfolding store_in keep_last CircularBuffer.is_full
  store_in_lem b x v = elim (Bool-cases (CircularBuffer.is_full b)) [
    | inr room ↦
        let short : (length (contents b) == n) ≡ false = rw (length-contents v) room in
        rw short (store_room 1 b x v room)
    | inl full ↦ go full (contents b) refl
  ]
    where
      go :
          CircularBuffer.is_full b ≡ true
          → (q : List A) → contents b ≡ q
          → (b' : CircularBuffer A n) × (store_in store_rounds b x ≡ some b')
            × Holds b' (keep_last n (contents b) x)
      go full [] e = absurd (ground (arith, length-contents v, ap length e))
      go full (y ∷ q) e =
          let b₁ = (CircularBuffer.pop b).1 in
          let (_, _, rest) = pop_of_cons v y q e in
          let sized : suc (length q) ≡ b.size = sym (ap length e) ∙ length-contents v in
          let sized₁ : length q ≡ b₁.size =
            sym (ap length rest) ∙ length-contents (pop-IsValid v) in
          let room : (b₁.size == n) ≡ false = ground arith in
          let whole : (length (contents b) == n) ≡ true = rw (length-contents v) full in
          let (b₂, stored, held) = store_room 0 b₁ x (pop-IsValid v) room in
          (b₂, rw (push_of_full b x full) stored, rw (whole, e, ← rest) held)

-- All three queues are valid.
pub record IsSound (e : UdpEndpointBase) : Type 0 where
  pub in_valid : IsValid e.in_queue
  pub out_valid : IsValid e.out_queue
  pub ack_valid : IsValid e.ack_queue

-- The listener always stores what it receives. An acknowledgement goes to the end of the queue of
-- acknowledgements with the counter 3, and any other message to the end of the queue of incoming
-- messages, in each case in place of the oldest entry if four are there; the two other queues and what
-- was sent last stay as they were, and all queues stay valid.
pub dispatch_incoming_env_lem :
    (e : UdpEndpointBase) (a_env : AddressedEnvelope)
    → IsSound e
    → (e' : UdpEndpointBase) × (dispatch_incoming_env e a_env ≡ some e')
      × IsSound e'
      × (contents e'.ack_queue ≡ (
          if is_ack (get_message_type a_env.env)
          then keep_last 4
              (contents e.ack_queue)
              (record { counter = 3; t_stamp = get_time_stamp a_env.env })
          else contents e.ack_queue))
      × (contents e'.in_queue ≡ (
          if is_ack (get_message_type a_env.env)
          then contents e.in_queue
          else keep_last 4 (contents e.in_queue) a_env))
      × (e'.out_queue ≡ e.out_queue)
      × (e'.proto_message_buffer_out ≡ e.proto_message_buffer_out)
      × (e'.buffer_out ≡ e.buffer_out)
unfolding dispatch_incoming_env store_env_to_in_queue store_tstamp_to_ack_queue
dispatch_incoming_env_lem e a_env v = elim (Bool-cases (is_ack (get_message_type a_env.env))) [
  | inl ack ↦
      let (q, stored, held) =
        store_in_lem e.ack_queue (record { counter = 3; t_stamp = get_time_stamp a_env.env })
          v.ack_valid in
      (
        record e { ack_queue = q },
        rw (ack, stored),
        record { in_valid = v.in_valid; out_valid = v.out_valid; ack_valid = held.valid },
        rw ack (held.items),
        rw ack,
        refl,
        refl,
        refl,
      )
  | inr other ↦
      let (q, stored, held) = store_in_lem e.in_queue a_env v.in_valid in
      (
        record e { in_queue = q },
        rw (other, stored),
        record { in_valid = held.valid; out_valid = v.out_valid; ack_valid = v.ack_valid },
        rw other,
        rw other (held.items),
        refl,
        refl,
        refl,
      )
]
