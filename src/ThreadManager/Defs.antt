-- ===== src/ThreadManager/Defs.antt =====
-- The critical sections of common/thread_manager/ThreadManager.cpp. The code between the lock and
-- the release of `task_queue_mtx` is one function of what the mutex protects.
use simple_messenger.Prelude.{
  true, ℕ, Bool, false, not, ◌&&◌, ◌||◌, Option, none, some, List, if◌then◌else◌,
}
use simple_messenger.CircularBuffer
use simple_messenger.CircularBuffer.{CircularBuffer}

abbrev pub thread_pool_size : ℕ
thread_pool_size = 4

abbrev pub task_queue_size : ℕ
task_queue_size = 4

module _ (Task : Type 0) where
  -- What `task_queue_mtx` protects.
  pub record Shared : Type 0 where
    pub is_running : Bool
    pub task_queue : CircularBuffer Task task_queue_size

  -- How a worker leaves its critical section: blocked on the condition variable, out of its loop,
  -- with a task, or by the exception of `value()` on an empty optional.
  pub data Turn : Type 0 where
    sleeps : Turn
    returns : Turn
    takes : Task → Shared → Turn
    throws : Turn

  -- A caller of `schedule_task` finds the queue full and tries again later, or pushes its task.
  pub data Attempt : Type 0 where
    retries : Attempt
    pushes : Shared → Attempt

module _ {Task : Type 0} where
  unfoldable pub take_task :
      Shared Task → Option Task × CircularBuffer Task task_queue_size → Turn Task
  take_task s (none, q) = throws
  take_task s (some task, q) = takes task (record s { task_queue = q })

  -- The loop of `task_queue_handling` from the test of the condition to the end of the critical
  -- section.
  unfoldable pub worker_turn : Shared Task → Turn Task
  worker_turn s =
      if not (not (CircularBuffer.is_empty s.task_queue) || not s.is_running)
      then sleeps
      else if not s.is_running && CircularBuffer.is_empty s.task_queue
      then returns
      else take_task s (CircularBuffer.pop s.task_queue)

  -- One round of the loop of `schedule_task`. What `push` returns is not looked at.
  unfoldable pub schedule_attempt : Shared Task → Task → Attempt Task
  schedule_attempt s new_task =
      if CircularBuffer.is_full s.task_queue
      then retries
      else pushes (record s { task_queue = (CircularBuffer.push s.task_queue new_task).1 })

  -- The members after the constructor.
  unfoldable pub construct : List Task → Shared Task
  construct storage = record { is_running = true; task_queue = CircularBuffer.make storage }

  -- The critical section of the destructor.
  unfoldable pub stop : Shared Task → Shared Task
  stop s = record s { is_running = false }
