-- ===== src/ThreadManager/Shutdown.antt =====
-- The destructor of common/thread_manager/ThreadManager.cpp returns.
use simple_messenger.Prelude.{
  ℕ, zero, suc, ◌≤◌, ◌<◌, ◌≡◌, ◌≢◌, ◌⊎◌, inl, inr, refl, List, length, arith,
}
use simple_messenger.CircularBuffer.Refine.{length-contents}
use simple_messenger.ThreadManager.Defs.{construct, task_queue_size, thread_pool_size}
use simple_messenger.ThreadManager.System.{
  Worker, waking, asleep, exited, crashed, running, Owner, alive, stopping, joining, left, System,
  Step, turn, finish, announce, join, Reach,
}
use simple_messenger.ThreadManager.Invariant.{Inv}
use simple_messenger.ThreadManager.Measure.{
  measure, weight-le, owner_weight-le, no_weight, OfPool, Prompted, step-decreases,
}
use simple_messenger.ThreadManager.Awake.{AllAwake, step-AllAwake, joining-AllAwake}
use simple_messenger.ThreadManager.Steps.{Step-Inv}
use simple_messenger.ThreadManager.Safety.{Reach-construct}

module _ {Task : Type 0} where
  -- However the workers and the owner are interleaved, the destructor has returned after at most `k`
  -- of their steps, and until then one of them can make a step that is no spurious wake-up.
  unfoldable pub Ends : ℕ → System Task → Type 0
  Ends zero s = s.owner ≡ left
  Ends (suc k) s =
      (s.owner ≡ left)
      ⊎ (((t : System Task) × (st : Step s t) × Prompted st)
          × ((t : System Task) (st : Step s t) → OfPool st → Ends k t))

  -- A worker that has not returned can make a step.
  worker_step :
      (s : System Task) (i : ℕ)
      → i < thread_pool_size
      → Inv s
      → (s.owner ≡ joining → AllAwake s)
      → s.owner ≡ joining
      → (s.workers i ≡ exited) ⊎ ((t : System Task) × (st : Step s t) × Prompted st)
  worker_step s i lt v awake o = go (s.workers i) refl
    where
      go :
          (w : Worker Task)
          → s.workers i ≡ w
          → (s.workers i ≡ exited) ⊎ ((t : System Task) × (st : Step s t) × Prompted st)
      go waking e = inr (_, turn i lt e, tt)
      go asleep e = absurd (awake o i e)
      go (running t) e = inr (_, finish i t lt e, tt)
      go exited e = inl e
      go crashed e = absurd (v.whole i e)

  joinable :
      (s : System Task)
      → s.workers 0 ≡ exited
      → s.workers 1 ≡ exited
      → s.workers 2 ≡ exited
      → s.workers 3 ≡ exited
      → (i : ℕ) → i < thread_pool_size
      → s.workers i ≡ exited
  joinable s a b c d zero lt = a
  joinable s a b c d (suc zero) lt = b
  joinable s a b c d (suc (suc zero)) lt = c
  joinable s a b c d (suc (suc (suc zero))) lt = d
  joinable s a b c d (suc (suc (suc (suc i)))) lt = absurd (omega arith)

  -- After the destructor has begun, some step is possible until it has returned.
  progress :
      (s : System Task)
      → Inv s
      → (s.owner ≡ joining → AllAwake s)
      → s.owner ≢ alive
      → (s.owner ≡ left) ⊎ ((t : System Task) × (st : Step s t) × Prompted st)
  progress s v awake o = go s.owner refl
    where
      joins :
          s.owner ≡ joining → (s.owner ≡ left) ⊎ ((t : System Task) × (st : Step s t) × Prompted st)
      joins e = elim (worker_step s 0 (omega arith) v awake e) [
        | inr st ↦ inr st
        | inl a ↦ elim (worker_step s 1 (omega arith) v awake e) [
          | inr st ↦ inr st
          | inl b ↦ elim (worker_step s 2 (omega arith) v awake e) [
            | inr st ↦ inr st
            | inl c ↦ elim (worker_step s 3 (omega arith) v awake e) [
              | inr st ↦ inr st
              | inl d ↦ inr (_, join e (joinable s a b c d), tt)
            ]
          ]
        ]
      ]

      go :
          (w : Owner)
          → s.owner ≡ w
          → (s.owner ≡ left) ⊎ ((t : System Task) × (st : Step s t) × Prompted st)
      go alive e = absurd (o e)
      go stopping e = inr (_, announce e, tt)
      go joining e = joins e
      go left e = inl e

  within_measure :
      (k : ℕ) (s : System Task)
      → Inv s
      → (s.owner ≡ joining → AllAwake s)
      → s.owner ≢ alive
      → measure s ≤ k
      → Ends k s
  unfolding Ends
  within_measure zero s v awake o h = no_weight s.owner (omega arith)
  within_measure (suc k) s v awake o h = elim (progress s v awake o) [
    | inl over ↦ inl over
    | inr st ↦ inr (
      st,
      λ t next own.
          let (less, still) = step-decreases next own v o in
          within_measure k t (Step-Inv next v) (step-AllAwake next v awake) still (omega arith),
    )
  ]

  measure-le : (s : System Task) → Inv s → measure s ≤ 18
  measure-le s v = omega (
    arith,
    length-contents v.valid,
    v.valid.size_in,
    weight-le (s.workers 0),
    weight-le (s.workers 1),
    weight-le (s.workers 2),
    weight-le (s.workers 3),
    owner_weight-le s.owner,
  )

  -- Once the destructor has begun, and as long as no caller of `schedule_task` makes a step, it
  -- returns after at most 18 steps of the workers and the owner in whatever order they are made,
  -- spurious wake-ups included. Until then one of them can make a step that is no spurious wake-up: no
  -- worker is left asleep that the owner waits for. A task counts as one step. The state is reachable,
  -- and the array of the queue has its size.
  pub destructor_returns :
      (storage : List Task) {s : System Task}
      → length storage ≡ task_queue_size
      → Reach (construct storage) s
      → s.owner ≢ alive
      → Ends 18 s
  destructor_returns storage {s} full r begun =
      let v = Reach-construct storage full r in
      within_measure 18 s v (joining-AllAwake storage full r) begun (measure-le s v)
