-- ===== src/Message/Convert/RoundTrip.antt =====
-- What an envelope becomes when it is put into a protobuf message and taken out again.
use simple_messenger.Prelude.{
  ℕ, ◌-◌, ◌≤◌, ◌<◌, ◌≡◌, ◌↔◌, refl, ap, ◌∙◌, none, some, List, [], ◌∷◌, ◌++◌, arith, length,
  replicate, length-replicate, append-nil,
}
use native.Mathlib.Decide.{dec_le}
use simple_messenger.Memory.{
  c_string, c_string-NoNul, c_string-append, c_string_of_NoNul, copy_into-some, copy_into-none,
  drop-replicate,
}
use simple_messenger.Message.{
  DataType, MessageType, Header, EnvelopeMeta, Envelope, payload_capacity,
}
use simple_messenger.Message.Proto
use simple_messenger.Message.Convert.{
  put_env_to_proto_buf, get_env_from_proto_buf, read_payload, read_fields, put_fields,
}

-- The two enumerations hold one of their named values.
abbrev pub NamedMessageType : MessageType → Type 0
NamedMessageType (MessageType.unnamed _) = ⊥
NamedMessageType MessageType.user_message = Unit
NamedMessageType _ = Unit

abbrev pub NamedDataType : DataType → Type 0
NamedDataType (DataType.unnamed _) = ⊥
NamedDataType DataType.text_message = Unit
NamedDataType _ = Unit

pub record IsNamed (env : Envelope) : Type 0 where
  pub message_type : NamedMessageType env.meta_data.header.message_type
  pub data_type : NamedDataType env.meta_data.type

-- A text in a payload of which the rest is zero.
abbrev pub padded : List ℕ → List ℕ
padded text = text ++ replicate (payload_capacity - length text) 0

-- The two sizes in the header are not carried over, nor is what stands behind the text.
abbrev pub carried : Envelope → List ℕ → Envelope
carried env text = record env {
  meta_data = record (env.meta_data) {
    header = record (env.meta_data.header) { payload_size = 0; total_size = 0 };
  };
  payload = padded text;
}

-- `getEnvFromProtoBuf` finds the text before the first NUL, and stores it if it fits.
pub read_payload-text :
    (proto_payload text : List ℕ) (env : Envelope)
    → c_string (proto_payload ++ (0 ∷ [])) ≡ some text
    → length text ≤ payload_capacity
    → read_payload proto_payload env ≡ some (record env { payload = padded text })
unfolding read_payload
read_payload-text p text env e h = rw (
  e,
  copy_into-some (replicate payload_capacity 0) text
      (rw (length-replicate {A = ℕ} payload_capacity 0) h),
  drop-replicate (length text) payload_capacity 0,
)

-- The fields of the header and the addresses come through, but for the two sizes.
read_fields-put_fields :
    (ps ts t s r : ℕ) (payload text : List ℕ) (p : Proto.Envelope) (mt : MessageType)
    (dt : DataType)
    → NamedMessageType mt
    → NamedDataType dt
    → let header : Header = record {
      payload_size = ps;
      total_size = ts;
      message_type = mt;
      timestamp = t;
    } in
      let meta : EnvelopeMeta = record {
        header = header;
        type = dt;
        sender_id = s;
        recepient_id = r;
      } in
      (read_fields (put_fields (record { meta_data = meta; payload = payload }) p text)).meta_data
      ≡ record meta { header = record header { payload_size = 0; total_size = 0 } }
unfolding read_fields put_fields
read_fields-put_fields ps ts t s r payload text p MessageType.user_message DataType.text_message n
      m =
    refl
read_fields-put_fields ps ts t s r payload text p MessageType.user_message DataType.file_message n
      m =
    refl
read_fields-put_fields ps ts t s r payload text p MessageType.service_message DataType.text_message
      n m =
    refl
read_fields-put_fields ps ts t s r payload text p MessageType.service_message DataType.file_message
      n m =
    refl
read_fields-put_fields ps ts t s r payload text p MessageType.ack_message DataType.text_message n
      m =
    refl
read_fields-put_fields ps ts t s r payload text p MessageType.ack_message DataType.file_message n
      m =
    refl
read_fields-put_fields ps ts t s r payload text p (MessageType.unnamed _) _ n m = absurd n
read_fields-put_fields ps ts t s r payload text p _ (DataType.unnamed _) n m = absurd m

-- An envelope whose enumerations hold named values and whose payload ends in a NUL comes through
-- `putEnvToProtoBuf` and `getEnvFromProtoBuf`, whatever the message held before: the type, the
-- timestamp, the data type, the sender and the recipient are as they were, the payload is the text
-- before the first NUL with zeros behind it, and the two sizes of the header are zero.
pub get_env-put_env :
    (env : Envelope) (proto_env : Proto.Envelope) (text : List ℕ)
    → IsNamed env
    → length env.payload ≡ payload_capacity
    → c_string env.payload ≡ some text
    → (q : Proto.Envelope) × (put_env_to_proto_buf env proto_env ≡ some q)
      × (get_env_from_proto_buf q ≡ some (carried env text))
unfolding put_env_to_proto_buf get_env_from_proto_buf read_payload put_fields
get_env-put_env env p text named sized e =
    let clean = c_string-NoNul env.payload text e in
    (
      put_fields env p text,
      rw e,
      read_payload-text text text (read_fields (put_fields env p text))
            (c_string-append text [] clean.0) (omega arith)
          ∙ ap
              (λ (m : EnvelopeMeta).
                some (let e : Envelope = record { meta_data = m; payload = padded text } in e))
              (read_fields-put_fields env.meta_data.header.payload_size
                env.meta_data.header.total_size env.meta_data.header.timestamp
                env.meta_data.sender_id env.meta_data.recepient_id env.payload text p _ _
                named.message_type named.data_type),
    )

-- `getEnvFromProtoBuf` writes outside the payload exactly when the text is longer than it.
pub get_env_overflows :
    (p : Proto.Envelope) (text : List ℕ)
    → c_string (p.payload ++ (0 ∷ [])) ≡ some text
    → (get_env_from_proto_buf p ≡ none) ↔ (payload_capacity < length text)
unfolding get_env_from_proto_buf read_payload
get_env_overflows p text e = (
  λ fails. elim (dec_le (length text) payload_capacity) [
    | yes fits ↦ cc (read_payload-text p.payload text (read_fields p) e fits)
    | no over ↦ omega arith
  ],
  λ over. rw (
    e,
    copy_into-none (replicate payload_capacity 0) text
        (rw (length-replicate {A = ℕ} payload_capacity 0) over),
  ),
)

padded_of_full : (text : List ℕ) → length text ≡ payload_capacity → padded text ≡ text
unfolding replicate
padded_of_full text full =
    let none_left : payload_capacity - length text ≡ 0 = omega arith in
    rw none_left (append-nil text)

-- A text that fills the payload is taken out of a message without complaint, and the envelope then
-- holds no NUL, so that putting it into the next message reads past the payload.
pub put_env_of_full :
    (p next : Proto.Envelope) (text : List ℕ)
    → c_string (p.payload ++ (0 ∷ [])) ≡ some text
    → length text ≡ payload_capacity
    → (env : Envelope) × (get_env_from_proto_buf p ≡ some env)
      × (put_env_to_proto_buf env next ≡ none)
unfolding get_env_from_proto_buf put_env_to_proto_buf
put_env_of_full p next text e full = (
  record (read_fields p) { payload = padded text },
  read_payload-text p.payload text (read_fields p) e (omega arith),
  rw (
    padded_of_full text full,
    c_string_of_NoNul text (c_string-NoNul (p.payload ++ (0 ∷ [])) text e).0,
  ),
)
