-- ===== src/ThreadManager/System.antt =====
-- The threads of common/thread_manager/ThreadManager.cpp, interleaved in any order: the four
-- workers, any number of callers of `schedule_task`, and the owner that destroys the manager.
use simple_messenger.Prelude.{ℕ, ◌<◌, ◌≡◌, Bool, false, not, ◌||◌, List, [], ◌∷◌, ◌++◌, update}
use simple_messenger.ThreadManager.Defs.{
  Shared, Turn, Attempt, sleeps, returns, takes, throws, retries, pushes, thread_pool_size,
  worker_turn, schedule_attempt, stop,
}

-- Where a worker stands: about to test the condition, blocked on the condition variable, in a task,
-- returned, or ended by an exception.
pub data Worker (Task : Type 0) : Type 0 where
  waking asleep exited crashed : Worker Task
  running : Task → Worker Task

-- A caller is outside `schedule_task`, in its loop, or before its `notify_all`.
pub data Caller (Task : Type 0) : Type 0 where
  outside notifying : Caller Task
  polling : Task → Caller Task

-- The owner has not called the destructor, is before its `notify_all`, is joining the workers, or
-- has left it.
pub data Owner : Type 0 where
  alive stopping joining left : Owner

-- The last three fields record what happened: the tasks that were pushed and those that were
-- popped, in order, and whether one was pushed after `is_running` was cleared.
pub record System (Task : Type 0) : Type 0 where
  pub shared : Shared Task
  pub workers : ℕ → Worker Task
  pub callers : ℕ → Caller Task
  pub owner : Owner
  pub scheduled : List Task
  pub started : List Task
  pub late : Bool

module _ {Task : Type 0} where
  abbrev pub wake : Worker Task → Worker Task
  wake asleep = waking
  wake waking = waking
  wake exited = exited
  wake crashed = crashed
  wake (running t) = running t

  -- `task_queue_cv.notify_all()`
  abbrev pub notify_all : (ℕ → Worker Task) → ℕ → Worker Task
  notify_all workers i = wake (workers i)

  unfoldable pub after_turn : System Task → ℕ → Turn Task → System Task
  after_turn s i sleeps = record s { workers = update s.workers i asleep }
  after_turn s i returns = record s { workers = update s.workers i exited }
  after_turn s i throws = record s { workers = update s.workers i crashed }
  after_turn s i (takes t sh) = record s {
    shared = sh;
    workers = update s.workers i (running t);
    started = s.started ++ (t ∷ []);
  }

  unfoldable pub after_attempt : System Task → ℕ → Task → Attempt Task → System Task
  after_attempt s j t retries = s
  after_attempt s j t (pushes sh) = record s {
    shared = sh;
    callers = update s.callers j notifying;
    scheduled = s.scheduled ++ (t ∷ []);
    late = s.late || not s.shared.is_running;
  }

  pub data Step (s : System Task) : System Task → Type 0 where
    turn :
        (i : ℕ)
        → i < thread_pool_size
        → s.workers i ≡ waking
        → Step s (after_turn s i (worker_turn s.shared))
    wakes :
        (i : ℕ)
        → i < thread_pool_size
        → s.workers i ≡ asleep
        → Step s (record s { workers = update s.workers i waking })
    finish :
        (i : ℕ) (t : Task)
        → i < thread_pool_size
        → s.workers i ≡ running t
        → Step s (record s { workers = update s.workers i waking })
    call :
        (j : ℕ) (t : Task)
        → s.callers j ≡ outside
        → Step s (record s { callers = update s.callers j (polling t) })
    attempt :
        (j : ℕ) (t : Task)
        → s.callers j ≡ polling t
        → Step s (after_attempt s j t (schedule_attempt s.shared t))
    notify :
        (j : ℕ)
        → s.callers j ≡ notifying
        → Step s (record s { callers = update s.callers j outside; workers = notify_all s.workers })
    destroy : s.owner ≡ alive → Step s (record s { shared = stop s.shared; owner = stopping })
    announce :
        s.owner ≡ stopping → Step s (record s { owner = joining; workers = notify_all s.workers })
    join :
        s.owner ≡ joining
        → ((i : ℕ) → i < thread_pool_size → s.workers i ≡ exited)
        → Step s (record s { owner = left })

  -- After the constructor, with the queue that it has built.
  abbrev pub start : Shared Task → System Task
  start sh = record {
    shared = sh;
    workers = λ _. waking;
    callers = λ _. outside;
    owner = alive;
    scheduled = [];
    started = [];
    late = false;
  }

  pub data Reach (sh : Shared Task) : System Task → Type 0 where
    initially : Reach sh (start sh)
    next : {s t : System Task} → Reach sh s → Step s t → Reach sh t
