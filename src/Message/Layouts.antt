-- ===== src/Message/Layouts.antt =====
-- The object representations of the types that are copied through a payload, with 8-byte alignment:
-- `uint64_t`, `AuthResponse` (a `bool`, seven bytes of padding, a `UserID`) and `UserCredentials`
-- (two arrays of 256 `char`).
use simple_messenger.Prelude.{
  ℕ, ◌^◌, ◌<◌, ◌≡◌, List, [], ◌∷◌, ◌++◌, arith, length, drop, take, length-append, take-append,
  drop-append,
}
use simple_messenger.Memory.{to_le, of_le, Layout, length-to_le, of_le-to_le}
use simple_messenger.Message.{UserCredentials, AuthResponse, credential_capacity}

abbrev pub uint64_layout : Layout ℕ
uint64_layout = record {
  sizeof = 8;
  to_bytes = to_le 8;
  of_bytes = of_le;
  IsValue = λ n. n < 256 ^ 8;
  length-to_bytes = λ n _. length-to_le 8 n;
  of_bytes-to_bytes = of_le-to_le 8;
}

-- Both fields are arrays of 256 bytes.
pub record IsCredentials (c : UserCredentials) : Type 0 where
  pub email_size : length c.email ≡ credential_capacity
  pub password_size : length c.password ≡ credential_capacity

unfoldable pub credentials_of : List ℕ → UserCredentials
credentials_of bytes = record {
  email = take credential_capacity bytes;
  password = drop credential_capacity bytes;
}

pub length-credentials :
    (c : UserCredentials) → IsCredentials c → length (c.email ++ c.password) ≡ 512
length-credentials c v = omega (arith, length-append c.email c.password)

pub credentials_of-append :
    (c : UserCredentials) → IsCredentials c → credentials_of (c.email ++ c.password) ≡ c
unfolding credentials_of
credentials_of-append c v =
    rw (← v.email_size, take-append c.email c.password, drop-append c.email c.password)

abbrev pub credentials_layout : Layout UserCredentials
credentials_layout = record {
  sizeof = 512;
  to_bytes = λ c. c.email ++ c.password;
  of_bytes = credentials_of;
  IsValue = IsCredentials;
  length-to_bytes = length-credentials;
  of_bytes-to_bytes = credentials_of-append;
}

-- `is_accepted` is the byte of a `bool`.
pub record IsAuthResponse (r : AuthResponse) : Type 0 where
  pub accepted_byte : r.is_accepted < 256
  pub id_fits : r.user_id < 256 ^ 8

unfoldable pub response_bytes : AuthResponse → List ℕ
response_bytes r = r.is_accepted ∷ 0 ∷ 0 ∷ 0 ∷ 0 ∷ 0 ∷ 0 ∷ 0 ∷ to_le 8 r.user_id

unfoldable pub head_or_zero : List ℕ → ℕ
head_or_zero [] = 0
head_or_zero (b ∷ bs) = b

unfoldable pub response_of : List ℕ → AuthResponse
response_of bytes = record { is_accepted = head_or_zero bytes; user_id = of_le (drop 8 bytes) }

pub length-response : (r : AuthResponse) → IsAuthResponse r → length (response_bytes r) ≡ 16
unfolding response_bytes
length-response r v = omega (arith, length-to_le 8 r.user_id)

pub response_of-bytes : (r : AuthResponse) → IsAuthResponse r → response_of (response_bytes r) ≡ r
unfolding response_of response_bytes head_or_zero
response_of-bytes r v = rw (of_le-to_le 8 r.user_id v.id_fits)

abbrev pub response_layout : Layout AuthResponse
response_layout = record {
  sizeof = 16;
  to_bytes = response_bytes;
  of_bytes = response_of;
  IsValue = IsAuthResponse;
  length-to_bytes = length-response;
  of_bytes-to_bytes = response_of-bytes;
}
