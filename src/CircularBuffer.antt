-- ===== src/CircularBuffer.antt =====
-- common/utilities/CircularBuffer.hpp: a FIFO of at most `n` items over a `std::array`.
-- `n` is the template parameter `length`. Positions and the size are `size_t`, so their
-- increments and decrements wrap at 2 ^ 64. Each method runs under the buffer's mutexes, so it is
-- one function from the old object to the new one and its result.
pub mod Invariant
pub mod Queue
pub mod Refine
pub mod Indexing
mod Tests
use simple_messenger.Prelude.{
  ℕ, ◌+◌, ◌-◌, ◌%◌, ◌^◌, Bool, true, false, Option, none, List, get_elem?, set, ltb, leb, ◌==◌,
  if◌then◌else◌,
}

pub record CircularBuffer {ℓ} (A : Type ℓ) (n : ℕ) : Type ℓ where
  pub circ_buffer : List A
  pub begin_pos : ℕ
  pub end_pos : ℕ
  pub size : ℕ

abbrev pub size_mod : ℕ
size_mod = 2 ^ 64

-- `++` and `--` on a `size_t`
abbrev pub inc : ℕ → ℕ
inc a = (a + 1) % size_mod

abbrev pub dec : ℕ → ℕ
dec a = (a + size_mod - 1) % size_mod

-- `pos++; if (pos == length) { pos = 0; }`
abbrev pub advance : ℕ → ℕ → ℕ
advance n pos = if inc pos == n then 0 else inc pos

-- An `int`, given by its 32-bit pattern, converted to `size_t`.
abbrev pub sign_extend : ℕ → ℕ
sign_extend w = if ltb w (2 ^ 31) then w else w + size_mod - 2 ^ 32

-- The slot that `operator[]` reads, from the members `begin_pos` and `size`.
unfoldable pub ret_pos : ℕ → ℕ → ℕ → ℕ
ret_pos begin_pos size offset =
    let offset' = sign_extend offset % size % 2 ^ 32 in
    let pos = (begin_pos + sign_extend offset') % size_mod in
    if leb size pos then pos % size else pos

module _ {ℓ} {A : Type ℓ} {n : ℕ} where
  -- The default constructor. What the array holds before the first push is an argument.
  unfoldable pub make : List A → CircularBuffer A n
  make storage = record { circ_buffer = storage; begin_pos = 0; end_pos = 0; size = 0 }

  -- The move constructor. `raw` is the memory of the new object: the constructor writes the array
  -- and leaves the three other members as it finds them.
  unfoldable pub move_into : CircularBuffer A n → CircularBuffer A n → CircularBuffer A n
  move_into raw other = record raw { circ_buffer = other.circ_buffer }

  unfoldable pub is_empty : CircularBuffer A n → Bool
  is_empty b = b.size == 0

  unfoldable pub is_full : CircularBuffer A n → Bool
  is_full b = b.size == n

  -- `operator[]`, the offset given by its bit pattern. `none` is a division by zero or an access
  -- outside the array.
  unfoldable pub at : CircularBuffer A n → ℕ → Option A
  at b offset =
      if b.size == 0 then none else get_elem? b.circ_buffer (ret_pos b.begin_pos b.size offset)

  -- With an `end_pos` outside the array the source writes outside it, which `set` does not show: what is
  -- stated of `push` asks for a valid buffer, for a full one, or for an `end_pos` below `n`.
  unfoldable pub push : CircularBuffer A n → A → Bool × CircularBuffer A n
  unfolding is_full
  push b item = if is_full b then (false, b) else (
    true,
    record b {
      circ_buffer = set b.circ_buffer b.end_pos item;
      end_pos = advance n b.end_pos;
      size = inc b.size;
    },
  )

  -- The item is `none` for `std::nullopt`, and for a read outside the array.
  unfoldable pub pop : CircularBuffer A n → Option A × CircularBuffer A n
  unfolding is_empty
  pop b = if is_empty b then (none, b) else (
    get_elem? b.circ_buffer b.begin_pos,
    record b { size = dec b.size; begin_pos = advance n b.begin_pos },
  )
