-- ===== src/CircularBuffer/Queue.antt =====
-- The specification of a circular buffer: a FIFO of at most `n` items, oldest first.
use simple_messenger.Prelude.{
  ℕ, Bool, true, false, Option, none, some, List, [], ◌∷◌, ◌++◌, length, ◌==◌, if◌then◌else◌,
}

module _ {ℓ} {A : Type ℓ} where
  unfoldable pub pop : List A → Option A × List A
  pop [] = (none, [])
  pop (x ∷ q) = (some x, q)

  unfoldable pub push : ℕ → List A → A → Bool × List A
  push n q x = if length q == n then (false, q) else (true, q ++ (x ∷ []))
