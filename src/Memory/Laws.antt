-- ===== src/Memory/Laws.antt =====
-- Laws of the memory functions.
use simple_messenger.Prelude.{
  ℕ, zero, suc, ◌-◌, ◌/◌, ◌^◌, ◌≤◌, ◌<◌, ◌≡◌, refl, ap, none, some, List, [], ◌∷◌, ◌++◌, arith,
  length, drop, length-append, length-drop, take-append, replicate,
}
use native.Mathlib.Nat.{pow-suc}
use simple_messenger.Memory.Defs.{c_string, copy_into, read_from, to_le, of_le}

-- A list of bytes with no NUL.
abbrev pub NoNul : List ℕ → Type 0
NoNul [] = Unit
NoNul (c ∷ cs) = (0 < c) × NoNul cs

pub c_string-NoNul : (xs s : List ℕ) → c_string xs ≡ some s → NoNul s × (length s < length xs)
unfolding c_string
c_string-NoNul [] s e = cc
c_string-NoNul (zero ∷ xs) [] e = (tt, omega arith)
c_string-NoNul (zero ∷ xs) (c ∷ s) e = absurd (ground arith)
c_string-NoNul (suc c ∷ xs) [] e = absurd (ground arith)
c_string-NoNul (suc c ∷ xs) (d ∷ s) e = ground (arith, c_string-NoNul xs s)

-- A text with no NUL, followed by one, is read back as it is.
pub c_string-append : (s rest : List ℕ) → NoNul s → c_string (s ++ (0 ∷ rest)) ≡ some s
unfolding c_string
c_string-append [] rest h = refl
c_string-append (zero ∷ s) rest h = absurd (omega arith)
c_string-append (suc c ∷ s) rest h = rw (c_string-append s rest h.1)

pub c_string_of_NoNul : (s : List ℕ) → NoNul s → c_string s ≡ none
unfolding c_string
c_string_of_NoNul [] h = refl
c_string_of_NoNul (zero ∷ s) h = absurd (omega arith)
c_string_of_NoNul (suc c ∷ s) h = rw (c_string_of_NoNul s h.1)

-- The array of a `std::string` always ends in a NUL.
pub c_string-total : (xs : List ℕ) → (s : List ℕ) × (c_string (xs ++ (0 ∷ [])) ≡ some s)
unfolding c_string
c_string-total [] = ([], refl)
c_string-total (zero ∷ xs) = ([], refl)
c_string-total (suc c ∷ xs) = let (s, e) = c_string-total xs in (suc c ∷ s, rw e)

pub copy_into-some :
    (dst src : List ℕ)
    → length src ≤ length dst
    → copy_into dst src ≡ some (src ++ drop (length src) dst)
unfolding copy_into
copy_into-some dst src h = ground arith

pub copy_into-none : (dst src : List ℕ) → length dst < length src → copy_into dst src ≡ none
unfolding copy_into
copy_into-none dst src h = ground arith

pub length-copy_into :
    (dst src : List ℕ) {out : List ℕ} → copy_into dst src ≡ some out → length out ≡ length dst
unfolding copy_into
length-copy_into dst src e =
    ground (arith, length-append src (drop (length src) dst), length-drop (length src) dst)

pub read_from-append : (src rest : List ℕ) → read_from (src ++ rest) (length src) ≡ some src
unfolding read_from
read_from-append src rest = ground (arith, length-append src rest, take-append src rest)

pub drop-replicate : (k n a : ℕ) → drop k (replicate n a) ≡ replicate (n - k) a
unfolding replicate
drop-replicate zero n a = let e : n ≡ n - 0 = omega arith in rw (← e)
drop-replicate (suc k) zero a = let e : 0 - suc k ≡ 0 = omega arith in rw e
drop-replicate (suc k) (suc n) a =
    let e : suc n - suc k ≡ n - k = omega arith in rw e (drop-replicate k n a)

pub length-to_le : (k n : ℕ) → length (to_le k n) ≡ k
unfolding to_le
length-to_le zero n = refl
length-to_le (suc k) n = ap suc (length-to_le k (n / 256))

pub of_le-to_le : (k n : ℕ) → n < 256 ^ k → of_le (to_le k n) ≡ n
unfolding to_le of_le
of_le-to_le zero n h = omega arith
of_le-to_le (suc k) n h = omega (arith, of_le-to_le k (n / 256) (omega (arith, pow-suc 256 k)))
