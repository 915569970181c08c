-- ===== src/ThreadManager/Tests.antt =====
-- The thread pool on concrete schedules.
use simple_messenger.Prelude.{ℕ, ◌≡◌, ◌≢◌, ◌⊎◌, inl, refl, false, List, [], ◌∷◌, ◌++◌, arith}
use simple_messenger.CircularBuffer
use simple_messenger.CircularBuffer.Refine.{contents}
use simple_messenger.ThreadManager.Defs.{construct, worker_turn, schedule_attempt, take_task, stop}
use simple_messenger.ThreadManager.System.{
  crashed, notifying, stopping, System, Reach, turn, call, attempt, notify, destroy, initially,
  next, after_turn, after_attempt, start,
}
use simple_messenger.ThreadManager.Shutdown.{Ends, destructor_returns}
use simple_messenger.ThreadManager.Safety.{tasks_in_order, no_lost_wakeup, drained_on_exit}

abbrev storage : List ℕ
storage = 0 ∷ 0 ∷ 0 ∷ 0 ∷ []

-- A state with the steps that lead to it.
record Run : Type 0 where
  last : System ℕ
  reach : Reach (construct storage) last

abbrev begin : Run
begin = record { last = start (construct storage); reach = initially }

-- Worker 0 blocks, and a caller pushes task 7.
scheduled_run : Run
unfolding construct worker_turn after_turn after_attempt schedule_attempt CircularBuffer.make
    CircularBuffer.is_empty CircularBuffer.is_full CircularBuffer.push
scheduled_run = record {
  last = _;
  reach =
      next (next (next initially (turn 0 (omega arith) refl)) (call 0 7 refl)) (attempt 0 7 refl);
}

-- Then it notifies, worker 1 takes the task, and the owner stops the manager; worker 0 returns.
drained_run : Run
unfolding scheduled_run construct worker_turn after_turn after_attempt schedule_attempt take_task
    stop CircularBuffer.make CircularBuffer.is_empty CircularBuffer.is_full CircularBuffer.push
    CircularBuffer.pop
drained_run = record {
  last = _;
  reach =
      next
        (next (next (next scheduled_run.reach (notify 0 refl)) (turn 1 (omega arith) refl))
          (destroy refl))
        (turn 0 (omega arith) refl);
}

tasks_in_order_example :
    (scheduled_run.last.started ++ contents scheduled_run.last.shared.task_queue ≡ 7 ∷ [])
    × ((i : ℕ) → scheduled_run.last.workers i ≢ crashed)
unfolding scheduled_run
tasks_in_order_example = tasks_in_order storage refl scheduled_run.reach

no_lost_wakeup_example :
    ((j : ℕ) × (scheduled_run.last.callers j ≡ notifying)) ⊎ (scheduled_run.last.owner ≡ stopping)
unfolding scheduled_run
no_lost_wakeup_example = no_lost_wakeup storage refl scheduled_run.reach 0 refl (inl (λ e. cc))

drained_on_exit_example :
    (drained_run.last.shared.is_running ≡ false)
    × (drained_run.last.late ≡ false → drained_run.last.started ≡ 7 ∷ [])
unfolding drained_run
drained_on_exit_example = drained_on_exit storage refl drained_run.reach 0 refl

destructor_returns_example : Ends 18 drained_run.last
unfolding drained_run scheduled_run construct worker_turn after_turn after_attempt schedule_attempt
    take_task stop CircularBuffer.make CircularBuffer.is_empty CircularBuffer.is_full
    CircularBuffer.push CircularBuffer.pop
destructor_returns_example = destructor_returns storage refl drained_run.reach (λ e. cc)
