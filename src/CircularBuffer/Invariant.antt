-- ===== src/CircularBuffer/Invariant.antt =====
-- The representation invariant of the circular buffer, and that the methods keep it.
use simple_messenger.Prelude.{ℕ, ◌+◌, ◌≤◌, ◌<◌, ◌≡◌, ◌⊎◌, List, arith, length, length-set}
use simple_messenger.CircularBuffer.{CircularBuffer, size_mod, make, push, pop}

pub record IsValid {ℓ} {A : Type ℓ} {n : ℕ} (b : CircularBuffer A n) : Type 0 where
  pub storage : length b.circ_buffer ≡ n
  pub begin_in : b.begin_pos < n
  pub end_in : b.end_pos < n
  pub size_in : b.size ≤ n
  pub meet : (b.begin_pos + b.size ≡ b.end_pos) ⊎ (b.begin_pos + b.size ≡ b.end_pos + n)
  pub fits : n < size_mod

module _ {ℓ} {A : Type ℓ} {n : ℕ} where
  pub make-IsValid :
      (storage : List A)
      → 0 < n
      → n < size_mod
      → length storage ≡ n
      → IsValid (make {n = n} storage)
  unfolding make
  make-IsValid storage h k e = ground arith

  pub push-IsValid : {b : CircularBuffer A n} (x : A) → IsValid b → IsValid (push b x).1
  unfolding push
  push-IsValid {b} x v = ground (arith, length-set b.circ_buffer b.end_pos x)

  pub pop-IsValid : {b : CircularBuffer A n} → IsValid b → IsValid (pop b).1
  unfolding pop
  pop-IsValid v = ground arith
