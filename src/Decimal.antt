-- ===== src/Decimal.antt =====
-- Numbers in decimal, as `std::to_string`, `std::stoul` and `std::atoi` print and read them.
use simple_messenger.Prelude.{
  ℕ, zero, suc, ◌+◌, ◌-◌, ◌*◌, ◌/◌, ◌%◌, ◌^◌, ◌≤◌, ◌<◌, ◌≡◌, ◌∙◌, Bool, true, false, ◌&&◌, ◌||◌,
  Option, none, some, List, [], ◌∷◌, arith, ltb, leb, ◌==◌, if◌then◌else◌, Bool-cases, inl, inr,
}

unfoldable pub is_digit : ℕ → Bool
is_digit c = leb b'0' c && leb c b'9'

unfoldable pub is_space : ℕ → Bool
is_space c = (c == 32) || (leb 9 c && leb c 13)

-- The digits of `n` in front of `acc`. `n + 1` rounds are enough.
unfoldable pub print_digits : ℕ → ℕ → List ℕ → List ℕ
print_digits zero n acc = acc
print_digits (suc f) n acc =
    let rest = print_digits f (n / 10) ((48 + n % 10) ∷ acc) in
    if n / 10 == 0 then (48 + n % 10) ∷ acc else rest

unfoldable pub to_string : ℕ → List ℕ
to_string n = print_digits (suc n) n []

-- The number that the leading digits stand for, behind those that gave `v`.
unfoldable pub read_digits : ℕ → List ℕ → ℕ
read_digits v [] = v
read_digits v (c ∷ cs) =
    let rest = read_digits (v * 10 + (c - 48)) cs in if is_digit c then rest else v

unfoldable pub starts_with_digit : List ℕ → Bool
starts_with_digit [] = false
starts_with_digit (c ∷ cs) = is_digit c

unfoldable pub skip_spaces : List ℕ → List ℕ
skip_spaces [] = []
skip_spaces (c ∷ cs) = let rest = skip_spaces cs in if is_space c then rest else c ∷ cs

-- Whether a minus sign stands in front, and what stands behind the sign.
unfoldable pub take_sign : List ℕ → Bool × List ℕ
take_sign [] = (false, [])
take_sign (c ∷ cs) =
    if c == b'-' then (true, cs) else if c == b'+' then (false, cs) else (false, c ∷ cs)

-- `std::stoul` in base 10: `none` is the exception `invalid_argument` or `out_of_range`.
unfoldable pub stoul : List ℕ → Option ℕ
stoul s =
    let (negative, digits) = take_sign (skip_spaces s) in
    let n = read_digits 0 digits in
    if starts_with_digit digits && ltb n (2 ^ 64)
    then some (if negative then (2 ^ 64 - n) % 2 ^ 64 else n)
    else none

-- The 64-bit pattern of `std::strtol`, which stops at the ends of a 64-bit `long`.
unfoldable pub strtol : List ℕ → ℕ
strtol s =
    let (negative, digits) = take_sign (skip_spaces s) in
    let n = read_digits 0 digits in
    if negative
    then (if ltb n (2 ^ 63) then (2 ^ 64 - n) % 2 ^ 64 else 2 ^ 63)
    else if ltb n (2 ^ 63)
    then n
    else 2 ^ 63 - 1

-- `static_cast<UserID>(std::atoi(s))`: the `long` cut to a 32-bit `int`, which is extended to 64 bits
-- with its sign. The standard leaves the result for a number outside `int` open; this is what the
-- conversion in two steps gives.
unfoldable pub atoi : List ℕ → ℕ
atoi s = let n = strtol s % 2 ^ 32 in if ltb n (2 ^ 31) then n else n + 2 ^ 64 - 2 ^ 32

read_digits-print_digits :
    (f n : ℕ) (acc : List ℕ) → n < f → read_digits 0 (print_digits f n acc) ≡ read_digits n acc
unfolding print_digits read_digits is_digit
read_digits-print_digits zero n acc h = elim h [ ]
read_digits-print_digits (suc f) n acc h = elim (Bool-cases (n / 10 == 0)) [
  | inl last ↦ rw last (ground arith)
  | inr more ↦
      rw more
        (read_digits-print_digits f (n / 10) ((48 + n % 10) ∷ acc) (ground arith) ∙ ground arith)
]

record Leading (s : List ℕ) : Type 0 where
  head : ℕ
  rest : List ℕ
  split : s ≡ head ∷ rest
  low : 48 ≤ head
  high : head ≤ 57

print_digits-Leading : (f n : ℕ) (acc : List ℕ) → n < f → Leading (print_digits f n acc)
unfolding print_digits
print_digits-Leading zero n acc h = elim h [ ]
print_digits-Leading (suc f) n acc h = elim (Bool-cases (n / 10 == 0)) [
  | inl last ↦ record {
    head = 48 + n % 10;
    rest = acc;
    split = rw last;
    low = omega arith;
    high = omega arith;
  }
  | inr more ↦ rw more (print_digits-Leading f (n / 10) ((48 + n % 10) ∷ acc) (ground arith))
]

-- A printed number has neither space nor sign in front.
plain :
    (s : List ℕ)
    → Leading s
    → (take_sign (skip_spaces s) ≡ (false, s)) × (starts_with_digit s ≡ true)
unfolding take_sign skip_spaces starts_with_digit is_digit is_space
plain s l = rw (l.split) (ground arith, ground arith)

to_string-Leading : (n : ℕ) → Leading (to_string n)
unfolding to_string print_digits
to_string-Leading n = print_digits-Leading (suc n) n [] (omega arith)

read_digits-to_string : (n : ℕ) → read_digits 0 (to_string n) ≡ n
unfolding to_string read_digits
read_digits-to_string n = read_digits-print_digits (suc n) n [] (omega arith)

-- `std::stoul` reads back what `std::to_string` prints of a 64-bit number.
pub stoul-to_string : (n : ℕ) → n < 2 ^ 64 → stoul (to_string n) ≡ some n
unfolding stoul
stoul-to_string n h =
    let (bare, digit) = plain (to_string n) (to_string-Leading n) in
    rw (bare, digit, read_digits-to_string n) (ground arith)

strtol-to_string : (n : ℕ) → n < 2 ^ 63 → strtol (to_string n) ≡ n
unfolding strtol
strtol-to_string n h =
    let (bare, _) = plain (to_string n) (to_string-Leading n) in
    rw (bare, read_digits-to_string n) (ground arith)

-- `std::atoi` reads back what `std::to_string` prints of a number that is not negative as an `int`.
pub atoi-to_string : (n : ℕ) → n < 2 ^ 31 → atoi (to_string n) ≡ n
unfolding atoi
atoi-to_string n h = let same = strtol-to_string n (omega arith) in rw same (ground arith)
