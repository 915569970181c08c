-- ===== src/ThreadManager/Safety.antt =====
-- What holds in every reachable state of the thread pool.
use simple_messenger.ThreadManager.Defs.{task_queue_size, construct}
use simple_messenger.Prelude.{
  length, List, ℕ, ◌≡◌, ◌≢◌, ◌⊎◌, inl, inr, sym, ap, ◌∙◌, false, [], ◌++◌, append-nil, arith, refl,
}
use simple_messenger.CircularBuffer
use simple_messenger.ThreadManager.Invariant.{Inv}
use simple_messenger.CircularBuffer.Invariant.{IsValid, make-IsValid}
use simple_messenger.CircularBuffer.Refine.{contents}
use simple_messenger.ThreadManager.System.{
  asleep, exited, crashed, notifying, stopping, System, Reach,
}
use simple_messenger.ThreadManager.Steps.{Reach-Inv}

construct-IsValid :
    {Task : Type 0} (storage : List Task)
    → length storage ≡ task_queue_size
    → IsValid (construct storage).task_queue
unfolding construct
construct-IsValid storage full = make-IsValid storage (omega arith) (omega arith) full

construct-empty :
    {Task : Type 0} (storage : List Task) → contents (construct storage).task_queue ≡ []
unfolding construct CircularBuffer.make
construct-empty storage = refl

pub Reach-construct :
    {Task : Type 0} (storage : List Task) {s : System Task}
    → length storage ≡ task_queue_size
    → Reach (construct storage) s
    → Inv s
Reach-construct storage full r =
    Reach-Inv (construct-IsValid storage full) (construct-empty storage) r

module _ {Task : Type 0} (storage : List Task) (full : length storage ≡ task_queue_size) where
  -- In every reachable state the tasks that workers have taken, followed by those in the queue, are
  -- the tasks that were scheduled, in the order in which they were pushed: none is lost, run twice
  -- or overtaken. No worker has been ended by the exception of an empty optional.
  pub tasks_in_order :
      {s : System Task}
      → Reach (construct storage) s
      → (s.started ++ contents s.shared.task_queue ≡ s.scheduled)
        × ((i : ℕ) → s.workers i ≢ crashed)
  tasks_in_order r = let i = Reach-construct storage full r in (i.order, i.whole)

  -- No wake-up is lost: in a reachable state in which a worker is blocked on the condition variable
  -- although a task waits or the manager has been stopped, a caller of `schedule_task` or the
  -- destructor has still to make its `notify_all`.
  pub no_lost_wakeup :
      {s : System Task}
      → Reach (construct storage) s
      → (i : ℕ) → s.workers i ≡ asleep
      → (contents s.shared.task_queue ≢ []) ⊎ (s.shared.is_running ≡ false)
      → ((j : ℕ) × (s.callers j ≡ notifying)) ⊎ (s.owner ≡ stopping)
  no_lost_wakeup r i sleeping work = elim ((Reach-construct storage full r).awake i sleeping) [
    | inr p ↦ p
    | inl (empty, up) ↦ elim work [ inl filled ↦ absurd (filled empty) | inr down ↦ cc ]
  ]

  -- When a worker has returned, and so when the destructor has joined them, the manager has been
  -- stopped; and if no task was pushed after that, the queue is empty and the tasks that were taken
  -- are all that were scheduled, in that order.
  pub drained_on_exit :
      {s : System Task}
      → Reach (construct storage) s
      → (i : ℕ) → s.workers i ≡ exited
      → (s.shared.is_running ≡ false) × (s.late ≡ false → s.started ≡ s.scheduled)
  drained_on_exit {s} r i gone =
      let inv = Reach-construct storage full r in
      let (down, empty) = inv.drained i gone in
      (
        down,
        λ early.
            sym (append-nil s.started) ∙ ap (λ q. s.started ++ q) (sym (empty early)) ∙ inv.order,
      )
