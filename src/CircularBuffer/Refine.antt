-- ===== src/CircularBuffer/Refine.antt =====
-- A valid circular buffer behaves as the queue of the items that it holds.
use simple_messenger.CircularBuffer.{
  false, is_full, is_empty, CircularBuffer, size_mod, inc, advance, push, pop,
}
use simple_messenger.Prelude.{
  true, false, ℕ, zero, suc, ◌+◌, ◌-◌, ◌≤◌, ◌<◌, ◌≡◌, ◌≢◌, ◌⊎◌, inl, inr, refl, ap, ◌∙◌, Bool,
  Option, none, some, List, [], ◌∷◌, ◌++◌, arith, length, get_elem?, set, get_elem?-set_self,
  get_elem?-set_ne, get_elem?-of_lt, ◌==◌, Bool-cases,
}
use simple_messenger.CircularBuffer.Invariant.{IsValid, push-IsValid, pop-IsValid}
use simple_messenger.CircularBuffer.Queue

abbrev pub cons? {ℓ} : {A : Type ℓ} → Option A → List A → List A
cons? none xs = xs
cons? (some x) xs = x ∷ xs

-- The `k` items from index `h` on, going round at `n`.
abbrev pub window {ℓ} : {A : Type ℓ} → List A → ℕ → ℕ → ℕ → List A
window xs n h zero = []
window xs n h (suc k) = cons? (get_elem? xs h) (window xs n (advance n h) k)

abbrev pub contents {ℓ} : {A : Type ℓ} {n : ℕ} → CircularBuffer A n → List A
contents {n} b = window b.circ_buffer n b.begin_pos b.size

window_of_pos {ℓ} :
    {A : Type ℓ} (xs : List A) (n h k : ℕ)
    → k ≢ 0
    → window xs n h k ≡ cons? (get_elem? xs h) (window xs n (advance n h) (k - 1))
window_of_pos xs n h zero p = absurd (p refl)
window_of_pos xs n h (suc k) p = ap (λ j. window xs n h (suc j)) (omega arith)

module _ {ℓ} {A : Type ℓ} {n : ℕ} where
  length-window :
      (xs : List A) (h k : ℕ) → n ≤ length xs → n < size_mod → h < n → length (window xs n h k) ≡ k
  length-window xs h zero s f p = refl
  length-window xs h (suc k) s f p = ground (
    arith,
    get_elem?-of_lt xs h (omega arith),
    length-window xs (advance n h) k s f (ground arith),
  )

  -- A write just past a window extends it by that item.
  window-set :
      (xs : List A) (x : A) (k h e : ℕ)
      → n ≤ length xs
      → n < size_mod
      → h < n
      → e < n
      → k < n
      → (h + k ≡ e) ⊎ (h + k ≡ e + n)
      → window (set xs e x) n h (suc k) ≡ window xs n h k ++ (x ∷ [])
  window-set xs x zero h e s f hh he hk m =
      let same : h ≡ e = omega arith in
      ap (λ o. cons? o [])
        (ap (get_elem? (set xs e x)) same ∙ get_elem?-set_self xs e x (omega arith))
  window-set xs x (suc k) h e s f hh he hk m = ground (
    arith,
    get_elem?-of_lt xs h (omega arith),
    get_elem?-set_ne xs {i = e} {j = h} x (omega arith),
    window-set xs x k (advance n h) e s f (ground arith) he (omega arith) (ground arith),
  )

  -- The number of items that a valid buffer holds is its `size`.
  pub length-contents : {b : CircularBuffer A n} → IsValid b → length (contents b) ≡ b.size
  length-contents {b} v =
      length-window b.circ_buffer b.begin_pos b.size (omega arith) v.fits v.begin_in

  -- `push` answers as `Queue.push`, and leaves the buffer holding its queue.
  pub push_refines :
      {b : CircularBuffer A n} (x : A)
      → IsValid b
      → let (done, b') = push b x in (done, contents b') ≡ Queue.push n (contents b) x
  unfolding push Queue.push
  push_refines {b} x v = elim (Bool-cases (b.size == n)) [
    | inl full ↦ rw (length-contents v, full)
    | inr room ↦
        let bumped : inc b.size ≡ suc b.size = ground arith in
        rw (length-contents v, room, bumped)
          (ap (λ l. (true, l))
            (window-set b.circ_buffer x b.size b.begin_pos b.end_pos (omega arith) v.fits v.begin_in
              v.end_in (ground arith) v.meet))
  ]

  -- `pop` answers as `Queue.pop`, and leaves the buffer holding the rest.
  pub pop_refines :
      {b : CircularBuffer A n}
      → IsValid b
      → let (item, b') = pop b in (item, contents b') ≡ Queue.pop (contents b)
  unfolding pop Queue.pop
  pop_refines {b} v = ground (
    arith,
    get_elem?-of_lt b.circ_buffer b.begin_pos (omega arith),
    window_of_pos b.circ_buffer n b.begin_pos b.size,
  )

module _ {A : Type 0} {n : ℕ} {b : CircularBuffer A n} (v : IsValid b) where
  -- What the tests and `pop` answer, by the items held.
  pub is_empty_of_nil : contents b ≡ [] → is_empty b ≡ true
  unfolding is_empty
  is_empty_of_nil e = ground (arith, length-contents v, ap length e)

  pub pop_of_cons :
      (x : A) (q : List A)
      → contents b ≡ x ∷ q
      → (is_empty b ≡ false) × ((pop b).0 ≡ some x) × (contents (pop b).1 ≡ q)
  unfolding is_empty Queue.pop
  pop_of_cons x q e =
      let r = pop_refines v in
      (
        ground (arith, length-contents v, ap length e),
        ap (λ p. p.0) r ∙ ap (λ l. (Queue.pop l).0) e,
        ap (λ p. p.1) r ∙ ap (λ l. (Queue.pop l).1) e,
      )

  pub push_of_room :
      (x : A)
      → is_full b ≡ false
      → ((push b x).0 ≡ true) × (contents (push b x).1 ≡ contents b ++ (x ∷ []))
  unfolding is_full Queue.push
  push_of_room x room =
      let r = push_refines x v in
      let short : (length (contents b) == n) ≡ false = rw (length-contents v) room in
      let spec : ◌≡◌ {A = Bool × List A} (Queue.push n (contents b) x)
          (true, contents b ++ (x ∷ [])) =
        rw short in
      (ap (λ p. p.0) (r ∙ spec), ap (λ p. p.1) (r ∙ spec))

-- A client's calls in order, with what each returns.
pub data Op {ℓ} (A : Type ℓ) : Type ℓ where
  put : A → Op A
  get : Op A

pub data Reply {ℓ} (A : Type ℓ) : Type ℓ where
  pushed : Bool → Reply A
  popped : Option A → Reply A

module _ {ℓ} {A : Type ℓ} {n : ℕ} where
  unfoldable pub run : CircularBuffer A n → List (Op A) → List (Reply A)
  run b [] = []
  run b (put x ∷ ops) = let (done, b') = push b x in pushed done ∷ run b' ops
  run b (get ∷ ops) = let (item, b') = pop b in popped item ∷ run b' ops

unfoldable pub run_queue {ℓ} : {A : Type ℓ} → ℕ → List A → List (Op A) → List (Reply A)
run_queue n q [] = []
run_queue n q (put x ∷ ops) = let (done, q') = Queue.push n q x in pushed done ∷ run_queue n q' ops
run_queue n q (get ∷ ops) = let (item, q') = Queue.pop q in popped item ∷ run_queue n q' ops

-- No sequence of calls tells a valid buffer of capacity `n` from the FIFO of its contents that
-- refuses an item when it holds `n`.
pub run_refines {ℓ} :
    {A : Type ℓ} {n : ℕ} (ops : List (Op A)) {b : CircularBuffer A n}
    → IsValid b
    → run b ops ≡ run_queue n (contents b) ops
unfolding run run_queue
run_refines [] v = refl
run_refines (put x ∷ ops) v = rw (run_refines ops (push-IsValid x v), ← push_refines x v)
run_refines (get ∷ ops) v = rw (run_refines ops (pop-IsValid v), ← pop_refines v)
