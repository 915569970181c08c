-- ===== src/Memory/Defs.antt =====
-- The functions of `cstring` over lists of bytes, and object representations.
use simple_messenger.Prelude.{
  ℕ, zero, suc, ◌+◌, ◌*◌, ◌/◌, ◌%◌, ◌≡◌, Option, none, some, List, [], ◌∷◌, ◌++◌, length, take,
  drop, ltb, if◌then◌else◌,
}
use mathlib.Core.Option

-- The C string at the start of an array, without its final NUL; `none` if the array has no NUL.
-- `std::strlen` is the length of it.
unfoldable pub c_string : List ℕ → Option (List ℕ)
c_string [] = none
c_string (zero ∷ xs) = some []
c_string (suc c ∷ xs) = Option.map (λ s. suc c ∷ s) (c_string xs)

-- `memcpy(dst, src, length of src)` to the start of the array `dst`.
unfoldable pub copy_into : List ℕ → List ℕ → Option (List ℕ)
copy_into dst src =
    if ltb (length dst) (length src) then none else some (src ++ drop (length src) dst)

-- `memcpy(dst, src, n)` from the start of the array `src`: the bytes read.
unfoldable pub read_from : List ℕ → ℕ → Option (List ℕ)
read_from src n = if ltb (length src) n then none else some (take n src)

-- The `k` bytes of an unsigned integer, the lowest first.
unfoldable pub to_le : ℕ → ℕ → List ℕ
to_le zero n = []
to_le (suc k) n = n % 256 ∷ to_le k (n / 256)

unfoldable pub of_le : List ℕ → ℕ
of_le [] = 0
of_le (b ∷ bs) = b + 256 * of_le bs

-- What the code relies on where it copies an object of a trivially copyable type through an array
-- of `char`: the representation has `sizeof` bytes, and copying it back gives the object.
-- `IsValue` are the values of the type.
pub record Layout (A : Type 0) : Type 1 where
  pub sizeof : ℕ
  pub to_bytes : A → List ℕ
  pub of_bytes : List ℕ → A
  pub IsValue : A → Type 0
  pub length-to_bytes : (a : A) → IsValue a → length (to_bytes a) ≡ sizeof
  pub of_bytes-to_bytes : (a : A) → IsValue a → of_bytes (to_bytes a) ≡ a
