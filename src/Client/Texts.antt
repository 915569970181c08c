-- ===== src/Client/Texts.antt =====
-- The text that the client writes into an array and embeds into an envelope.
use simple_messenger.Prelude.{
  ℕ, zero, suc, ◌-◌, ◌+◌, append-nil, ◌<◌, ◌≤◌, ◌≡◌, ap, ◌∙◌, some, List, [], ◌∷◌, ◌++◌,
  append_assoc, arith, length, length-append, replicate, length-replicate, drop, length-drop,
}
use simple_messenger.Memory.{c_string, NoNul, c_string-append, copy_into-some, drop-replicate}
use simple_messenger.Message.{Envelope, payload_capacity}
use simple_messenger.Message.Convert.RoundTrip.{padded, carried}
use simple_messenger.Client.Defs.{create_text_envelope, embed_text, write_message}

-- A text with no NUL and room for one, in an array of the payload's size.
pub write_message_lem :
    (word : List ℕ)
    → NoNul word
    → length word < payload_capacity
    → (buffer : List ℕ) × (write_message word ≡ some buffer)
      × (c_string buffer ≡ some word)
      × (length buffer ≡ payload_capacity)
unfolding write_message
write_message_lem word clean short =
    let line = word ++ (0 ∷ []) in
    let zeros = replicate payload_capacity 0 in
    let one : length line ≡ length word + 1 = length-append word (0 ∷ []) in
    let all : length zeros ≡ payload_capacity = length-replicate {A = ℕ} payload_capacity 0 in
    let rest = drop (length line) zeros in
    (
      line ++ rest,
      copy_into-some zeros line (omega arith),
      rw append_assoc (c_string-append word rest clean),
      omega (arith, length-append line rest, length-drop (length line) zeros),
    )

replicate_pos : (n a : ℕ) → 0 < n → replicate n a ≡ a ∷ replicate (n - 1) a
unfolding replicate
replicate_pos zero a h = absurd (omega arith)
replicate_pos (suc n) a h = let e : suc n - 1 ≡ n = omega arith in rw e

pub c_string-padded :
    (word : List ℕ)
    → NoNul word
    → length word < payload_capacity
    → c_string (padded word) ≡ some word
c_string-padded word clean short =
    let n = payload_capacity - length word in
    ap (λ l. c_string (word ++ l)) (replicate_pos n 0 (omega arith))
    ∙ c_string-append word (replicate (n - 1) 0) clean

pub length-padded :
    (word : List ℕ) → length word < payload_capacity → length (padded word) ≡ payload_capacity
length-padded word short =
    let n = payload_capacity - length word in
    omega (arith, length-append word (replicate n 0), length-replicate {A = ℕ} n 0)

-- A typed text as the server and the recipient have it, whose sizes are not sent.
abbrev pub arrived : ℕ → ℕ → List ℕ → Envelope
arrived my_id recepient_id word = carried (create_text_envelope my_id recepient_id) word

nil_right : (l : List ℕ) → l ++ replicate 0 0 ≡ l
unfolding replicate
nil_right l = append-nil l

pub embed_text_lem :
    (env : Envelope) (buffer : List ℕ)
    → env.payload ≡ replicate payload_capacity 0
    → length buffer ≡ payload_capacity
    → embed_text env buffer ≡ some (record env { payload = buffer })
unfolding embed_text
embed_text_lem env buffer zeros full =
    let short : length buffer ≤ length (replicate {A = ℕ} payload_capacity 0) =
      omega (arith, length-replicate {A = ℕ} payload_capacity 0) in
    let none_left : payload_capacity - length buffer ≡ 0 = omega arith in
    let nothing : buffer ++ drop (length buffer) (replicate payload_capacity 0) ≡ buffer =
      rw (drop-replicate (length buffer) payload_capacity 0, none_left) (nil_right buffer) in
    rw (zeros, copy_into-some (replicate payload_capacity 0) buffer short, nothing)
