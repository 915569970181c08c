-- ===== src/ThreadManager/Measure.antt =====
-- How many steps are left to the threads once the destructor has begun.
use simple_messenger.Prelude.{
  update, ℕ, zero, suc, ◌+◌, ◌*◌, ◌≤◌, ◌<◌, ◌≡◌, ◌≢◌, refl, sym, ap, ◌∙◌, false, length, arith,
}
use simple_messenger.CircularBuffer.Refine.{contents}
use simple_messenger.ThreadManager.Defs.{
  Turn, sleeps, returns, takes, throws, thread_pool_size, worker_turn, stop,
}
use simple_messenger.ThreadManager.System.{
  Worker, waking, asleep, exited, crashed, running, Owner, alive, stopping, joining, left, System,
  wake, after_turn, Step, turn, wakes, finish, call, attempt, notify, destroy, announce, join,
}
use simple_messenger.ThreadManager.Invariant.{Inv, worker_turn_lem, idles, ends, pops}

-- How many steps a worker has still to make, apart from the tasks in the queue.
abbrev pub weight : {Task : Type 0} → Worker Task → ℕ
weight waking = 1
weight asleep = 2
weight (running t) = 2
weight exited = 0
weight crashed = 0

abbrev pub owner_weight : Owner → ℕ
owner_weight alive = 2
owner_weight stopping = 2
owner_weight joining = 1
owner_weight left = 0

abbrev pub pool : {Task : Type 0} → (ℕ → Worker Task) → ℕ
pool f = weight (f 0) + weight (f 1) + weight (f 2) + weight (f 3)

abbrev pub measure : {Task : Type 0} → System Task → ℕ
measure s = 2 * length (contents s.shared.task_queue) + pool s.workers + owner_weight s.owner

pool-update :
    {Task : Type 0} (f : ℕ → Worker Task) (i : ℕ) (a : Worker Task)
    → i < thread_pool_size
    → pool (update f i a) + weight (f i) ≡ pool f + weight a
pool-update f zero a lt = omega arith
pool-update f (suc zero) a lt = omega arith
pool-update f (suc (suc zero)) a lt = omega arith
pool-update f (suc (suc (suc zero))) a lt = omega arith
pool-update f (suc (suc (suc (suc i)))) a lt = absurd (omega arith)

weight-wake : {Task : Type 0} (w : Worker Task) → weight (wake w) ≤ weight w
weight-wake waking = omega arith
weight-wake asleep = omega arith
weight-wake (running t) = omega arith
weight-wake exited = omega arith
weight-wake crashed = omega arith

pub weight-le : {Task : Type 0} (w : Worker Task) → weight w ≤ 2
weight-le waking = omega arith
weight-le asleep = omega arith
weight-le (running t) = omega arith
weight-le exited = omega arith
weight-le crashed = omega arith

pub owner_weight-le : (o : Owner) → owner_weight o ≤ 2
owner_weight-le alive = omega arith
owner_weight-le stopping = omega arith
owner_weight-le joining = omega arith
owner_weight-le left = omega arith

pub no_weight : (o : Owner) → owner_weight o ≡ 0 → o ≡ left
no_weight alive h = absurd (omega arith)
no_weight stopping h = absurd (omega arith)
no_weight joining h = absurd (omega arith)
no_weight left h = refl

module _ {Task : Type 0} where
  -- A step of a worker or of the owner.
  abbrev pub OfPool : {s t : System Task} → Step s t → Type 0
  OfPool (call j t h) = ⊥
  OfPool (attempt j t h) = ⊥
  OfPool (notify j h) = ⊥
  OfPool (turn i lt h) = Unit
  OfPool (wakes i lt h) = Unit
  OfPool (finish i t lt h) = Unit
  OfPool (destroy h) = Unit
  OfPool (announce h) = Unit
  OfPool (join h all) = Unit

  -- A step of a worker or of the owner that is no spurious wake-up.
  abbrev pub Prompted : {s t : System Task} → Step s t → Type 0
  Prompted (call j t h) = ⊥
  Prompted (attempt j t h) = ⊥
  Prompted (notify j h) = ⊥
  Prompted (turn i lt h) = Unit
  Prompted (wakes i lt h) = ⊥
  Prompted (finish i t lt h) = Unit
  Prompted (destroy h) = Unit
  Prompted (announce h) = Unit
  Prompted (join h all) = Unit

  turn-decreases :
      (s : System Task) (i : ℕ)
      → i < thread_pool_size
      → s.workers i ≡ waking
      → Inv s
      → s.shared.is_running ≡ false
      → measure (after_turn s i (worker_turn s.shared)) < measure s
  unfolding after_turn
  turn-decreases s i lt here v down = elim (worker_turn_lem s.shared v.valid) [
    | idles empty up r ↦ cc
    | ends empty _ r ↦ rw r (omega (arith, pool-update s.workers i exited lt, ap weight here))
    | pops t sh split fine same r ↦
        rw r
          (omega (arith, pool-update s.workers i (running t) lt, ap weight here, ap length split))
  ]

  owner-after_turn : (s : System Task) (i : ℕ) (r : Turn Task) → (after_turn s i r).owner ≡ s.owner
  unfolding after_turn
  owner-after_turn s i sleeps = refl
  owner-after_turn s i returns = refl
  owner-after_turn s i (takes t sh) = refl
  owner-after_turn s i throws = refl

  pub step-decreases :
      {s t : System Task} (st : Step s t)
      → OfPool st
      → Inv s
      → s.owner ≢ alive
      → (measure t < measure s) × (t.owner ≢ alive)
  unfolding stop
  step-decreases {s} (turn i lt h) p v o =
      (turn-decreases s i lt h v (v.stopped o), λ e. o (sym (owner-after_turn s i _) ∙ e))
  step-decreases {s} (wakes i lt h) p v o =
      (omega (arith, pool-update s.workers i waking lt, ap weight h), o)
  step-decreases {s} (finish i t lt h) p v o =
      (omega (arith, pool-update s.workers i waking lt, ap weight h), o)
  step-decreases {s} (call j t h) p v o = absurd p
  step-decreases {s} (attempt j t h) p v o = absurd p
  step-decreases {s} (notify j h) p v o = absurd p
  step-decreases {s} (destroy h) p v o = absurd (o h)
  step-decreases {s} (announce h) p v o = (
    omega (
      arith,
      weight-wake (s.workers 0),
      weight-wake (s.workers 1),
      weight-wake (s.workers 2),
      weight-wake (s.workers 3),
      ap owner_weight h,
    ),
    λ e. cc,
  )
  step-decreases {s} (join h all) p v o = (omega (arith, ap owner_weight h), λ e. cc)
