-- ===== src/GrpcServer/Metadata.antt =====
-- The user id that the client sends with `streamIncomingMessages`.
use simple_messenger.Prelude.{
  ℕ, ◌<◌, ◌^◌, ◌≡◌, false, some, List, [], ◌∷◌, ◌++◌, bytes_eq, bytes_eq_refl,
}
use simple_messenger.Decimal.{to_string, stoul-to_string}
use simple_messenger.GrpcServer.Defs.{user_of_metadata, user_id_key}

-- No entry has the key `user_id`.
abbrev pub NoUserId : List (List ℕ × List ℕ) → Type 0
NoUserId [] = Unit
NoUserId ((key, value) ∷ rest) = (bytes_eq key user_id_key ≡ false) × NoUserId rest

-- The server finds the 64-bit id that the client prints with `std::to_string` under the first key
-- `user_id`, whatever stands under other keys before it and under any key behind it.
pub user_of_metadata-append :
    (others rest : List (List ℕ × List ℕ)) (id : ℕ)
    → NoUserId others
    → id < 2 ^ 64
    → user_of_metadata (others ++ ((user_id_key, to_string id) ∷ rest)) ≡ some id
unfolding user_of_metadata
user_of_metadata-append [] rest id p h = rw (bytes_eq_refl user_id_key) (stoul-to_string id h)
user_of_metadata-append ((key, value) ∷ others) rest id p h =
    rw p.0 (user_of_metadata-append others rest id p.1 h)
