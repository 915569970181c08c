-- ===== src/CircularBuffer/Indexing.antt =====
-- `operator[]` against the item that it should return.
use simple_messenger.Prelude.{
  ℕ, zero, suc, ◌+◌, ◌-◌, ◌%◌, ◌^◌, ◌≤◌, ◌<◌, ◌≡◌, ◌≢◌, false, List, arith, length, get_elem?,
  get_elem?-of_lt, ltb, leb, ◌==◌, if◌then◌else◌,
}
use native.Mathlib.Nat.{mod-eq_of_lt, mod-lt}
use simple_messenger.CircularBuffer.{CircularBuffer, size_mod, sign_extend, advance, ret_pos, at}
use simple_messenger.CircularBuffer.Invariant.{IsValid}
use simple_messenger.CircularBuffer.Refine.{window, contents}

-- The slot of item number `i`, counted from the oldest, in an array of `n`.
abbrev pub slot : ℕ → ℕ → ℕ → ℕ
slot n begin_pos i = if ltb (begin_pos + i) n then begin_pos + i else begin_pos + i - n

slot-advance :
    (n h i : ℕ) → h < n → n < size_mod → i < n → slot n (advance n h) i ≡ slot n h (suc i)
slot-advance n h i p q r = ground arith

module _ {ℓ} {A : Type ℓ} (xs : List A) (n : ℕ) (full : n ≤ length xs) (fits : n < size_mod) where
  get_elem?-window :
      (h k i : ℕ)
      → h < n
      → k ≤ n
      → i < k
      → get_elem? (window xs n h k) i ≡ get_elem? xs (slot n h i)
  get_elem?-window h zero i p q r = absurd (omega arith)
  get_elem?-window h (suc k) zero p q r =
      let (x, e) = get_elem?-of_lt xs h (omega arith) in
      let here : slot n h 0 ≡ h = ground arith in rw (here, e)
  get_elem?-window h (suc k) (suc i) p q r =
      let (x, e) = get_elem?-of_lt xs h (omega arith) in
      rw (e, ← slot-advance n h i p fits (omega arith))
        (get_elem?-window (advance n h) k i (ground arith) (omega arith) (omega arith))

sign_extend_small : (w : ℕ) → w < 2 ^ 31 → sign_extend w ≡ w
sign_extend_small w h = ground arith

ret_pos_small :
    (begin_pos size offset : ℕ)
    → 0 < size
    → size < 2 ^ 31
    → begin_pos < 2 ^ 31
    → offset < 2 ^ 31
    → ret_pos begin_pos size offset ≡ (
        if leb size (begin_pos + offset % size)
        then (begin_pos + offset % size) % size
        else begin_pos + offset % size)
unfolding ret_pos
ret_pos_small b s o p q r t = rw (
  sign_extend_small o t,
  mod-eq_of_lt {n = o % s} {m = 2 ^ 32} (omega arith),
  sign_extend_small (o % s) (omega arith),
  mod-eq_of_lt {n = b + o % s} {m = size_mod} (omega arith),
)

module _ {ℓ} {A : Type ℓ} {n : ℕ} (b : CircularBuffer A n) (offset : ℕ) (v : IsValid b) where
  abbrev number : ℕ
  number = offset % b.size

  -- With `begin_pos + offset % size` below the size (in particular before the first `pop`),
  -- `operator[]` on a valid buffer that is not empty returns item number `offset % size`, counted
  -- from the oldest. The offset is not negative, and the capacity fits an `int`.
  pub at-contents :
      n < 2 ^ 31
      → 0 < b.size
      → offset < 2 ^ 31
      → b.begin_pos + offset % b.size < b.size
      → at b offset ≡ get_elem? (contents b) (offset % b.size)
  unfolding at
  at-contents small h t unwrapped =
      let filled : (b.size == 0) ≡ false = ground arith in
      let read : ret_pos b.begin_pos b.size offset ≡ slot n b.begin_pos (offset % b.size) =
        rw (ret_pos_small b.begin_pos b.size offset h (omega arith) (omega arith) t)
          (ground arith) in
      let i_in : offset % b.size < b.size = omega arith in
      rw (
        filled,
        read,
        get_elem?-window b.circ_buffer n (omega arith) v.fits b.begin_pos b.size (offset % b.size)
            v.begin_in v.size_in i_in,
      )

  -- Otherwise, while the items do not go round the end of the array, it reads another slot than
  -- the one that holds that item: it goes round at the number of items stored, where `push` and
  -- `pop` go round at the capacity.
  pub ret_pos_misses :
      n < 2 ^ 31
      → 0 < b.size
      → offset < 2 ^ 31
      → b.size ≤ b.begin_pos + offset % b.size
      → b.begin_pos + offset % b.size < n
      → ret_pos b.begin_pos b.size offset ≢ slot n b.begin_pos (offset % b.size)
  ret_pos_misses small h t beyond below =
      rw (ret_pos_small b.begin_pos b.size offset h (omega arith) (omega arith) t)
        (ground (arith, mod-lt (b.begin_pos + offset % b.size) h))
