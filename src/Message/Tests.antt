-- ===== src/Message/Tests.antt =====
-- Messages on concrete bytes, and the theorems about them at concrete messages.
use simple_messenger.Prelude.{
  ℕ, ◌<◌, ◌≡◌, ◌↔◌, none, some, List, [], ◌∷◌, ◌++◌, arith, length, replicate, length-replicate,
}
use simple_messenger.Memory.{NoNul, c_string-append}
use simple_messenger.Message.{Envelope, MessageType, DataType, payload_capacity, zero_envelope}
use simple_messenger.Message.Proto
use simple_messenger.Message.Payload.{get_payload, set_payload, get_payload-set_payload}
use simple_messenger.Message.Layouts.{uint64_layout}
use simple_messenger.Message.Convert.{put_env_to_proto_buf, get_env_from_proto_buf}
use simple_messenger.Message.Convert.RoundTrip.{
  carried, get_env-put_env, get_env_overflows, put_env_of_full,
}

-- The unit test of the repository.
process_payload :
    (env' : Envelope) × (set_payload uint64_layout zero_envelope 412397841 ≡ some env')
    × (get_payload uint64_layout env' ≡ some 412397841)
    × (env'.meta_data ≡ zero_envelope.meta_data)
    × (length env'.payload ≡ length zero_envelope.payload)
process_payload =
    get_payload-set_payload uint64_layout zero_envelope 412397841 (omega arith)
      (omega (arith, length-replicate {A = ℕ} payload_capacity 0))

abbrev hi : List ℕ
hi = 104 ∷ 105 ∷ []

-- A text message from 7 to 9, with the sizes that the client writes.
abbrev greeting : Envelope
greeting = record {
  meta_data = record {
    header = record {
      payload_size = 234;
      total_size = 400;
      message_type = MessageType.user_message;
      timestamp = 5;
    };
    type = DataType.text_message;
    sender_id = 7;
    recepient_id = 9;
  };
  payload = hi ++ (0 ∷ replicate 973 0);
}

get_env-put_env_example :
    (q : Proto.Envelope) × (put_env_to_proto_buf greeting Proto.empty_envelope ≡ some q)
    × (get_env_from_proto_buf q ≡ some (carried greeting hi))
get_env-put_env_example =
    get_env-put_env greeting Proto.empty_envelope hi (record { message_type = tt; data_type = tt })
      (omega (arith, length-replicate {A = ℕ} 973 0))
      (c_string-append hi (replicate 973 0) (omega arith))

filler : ℕ → List ℕ
filler n = replicate n 97

filler-NoNul : (n : ℕ) → NoNul (filler n)
unfolding filler replicate
filler-NoNul ℕ.zero = tt
filler-NoNul (ℕ.suc n) = (omega arith, filler-NoNul n)

length-filler : (n : ℕ) → length (filler n) ≡ n
unfolding filler
length-filler n = length-replicate n 97

-- A message with a payload of `n` letters.
abbrev letters : ℕ → Proto.Envelope
letters n = record Proto.empty_envelope { payload = filler n }

get_env_overflows_example :
    (get_env_from_proto_buf (letters 1000) ≡ none) ↔ (payload_capacity < length (filler 1000))
get_env_overflows_example =
    get_env_overflows (letters 1000) (filler 1000)
      (c_string-append (filler 1000) [] (filler-NoNul 1000))

put_env_of_full_example :
    (env : Envelope) × (get_env_from_proto_buf (letters 976) ≡ some env)
    × (put_env_to_proto_buf env Proto.empty_envelope ≡ none)
put_env_of_full_example =
    put_env_of_full (letters 976) Proto.empty_envelope (filler 976)
      (c_string-append (filler 976) [] (filler-NoNul 976)) (length-filler 976)
