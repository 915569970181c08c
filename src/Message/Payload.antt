-- ===== src/Message/Payload.antt =====
-- The templates `get_payload` and `set_payload` of
-- common/message_processor/MessageProcessing.hpp: objects copied through the payload of an
-- envelope. `none` is a copy outside the payload.
use simple_messenger.Prelude.{◌≤◌, ◌≡◌, refl, Option, some, ◌++◌, arith, length, drop}
use mathlib.Core.Option
use simple_messenger.Memory.{
  copy_into, read_from, Layout, copy_into-some, length-copy_into, read_from-append,
}
use simple_messenger.Message.{Envelope}

module _ {A : Type 0} (T : Layout A) where
  unfoldable pub get_payload : Envelope → Option A
  get_payload env = Option.map T.of_bytes (read_from env.payload T.sizeof)

  unfoldable pub set_payload : Envelope → A → Option Envelope
  set_payload env message =
      Option.map (λ payload. record env { payload = payload })
        (copy_into env.payload (T.to_bytes message))

  -- An object of a type that is no bigger than the payload can be stored in it, and is read back as
  -- it was. The rest of the envelope, and the size of its payload, stay as they are.
  pub get_payload-set_payload :
      (env : Envelope) (message : A)
      → T.IsValue message
      → T.sizeof ≤ length env.payload
      → (env' : Envelope) × (set_payload env message ≡ some env')
        × (get_payload env' ≡ some message)
        × (env'.meta_data ≡ env.meta_data)
        × (length env'.payload ≡ length env.payload)
  unfolding get_payload set_payload
  get_payload-set_payload env message value room =
      let bytes = T.to_bytes message in
      let sized : length bytes ≡ T.sizeof = T.length-to_bytes message value in
      let stored = copy_into-some env.payload bytes (omega arith) in
      (
        record env { payload = bytes ++ drop (length bytes) env.payload },
        rw stored,
        rw (
          ← sized,
          read_from-append bytes (drop (length bytes) env.payload),
          T.of_bytes-to_bytes message value,
        ),
        refl,
        length-copy_into env.payload bytes stored,
      )
