-- ===== src/ThreadManager/Joined.antt =====
-- What has happened when the destructor has returned.
use simple_messenger.Prelude.{ℕ, ◌<◌, ◌≡◌, refl, sym, ap, ◌∙◌, false, List, ◌++◌, arith, length}
use simple_messenger.CircularBuffer.Refine.{contents}
use simple_messenger.ThreadManager.Defs.{
  Shared, Turn, sleeps, returns, takes, throws, Attempt, retries, pushes, thread_pool_size,
  task_queue_size, worker_turn, schedule_attempt, construct,
}
use simple_messenger.ThreadManager.System.{
  exited, left, System, after_turn, after_attempt, wake, Step, turn, wakes, finish, call, attempt,
  notify, destroy, announce, join, Reach, initially, next,
}
use simple_messenger.ThreadManager.Safety.{tasks_in_order, drained_on_exit}

module _ {Task : Type 0} where
  abbrev AllExited : System Task → Type 0
  AllExited s = (k : ℕ) → k < thread_pool_size → s.workers k ≡ exited

  pub turn-owner : (s : System Task) (i : ℕ) (t : Turn Task) → (after_turn s i t).owner ≡ s.owner
  unfolding after_turn
  turn-owner s i sleeps = refl
  turn-owner s i returns = refl
  turn-owner s i throws = refl
  turn-owner s i (takes t sh) = refl

  pub attempt-same :
      (s : System Task) (j : ℕ) (t : Task) (a : Attempt Task)
      → ((after_attempt s j t a).owner ≡ s.owner) × ((after_attempt s j t a).workers ≡ s.workers)
  unfolding after_attempt
  attempt-same s j t retries = (refl, refl)
  attempt-same s j t (pushes sh) = (refl, refl)

  step-AllExited :
      {s t : System Task} → Step s t → (s.owner ≡ left → AllExited s) → t.owner ≡ left → AllExited t
  step-AllExited {s} (turn i lt w) ih e k lt' =
      let gone = ih (sym (turn-owner s i (worker_turn s.shared)) ∙ e) i lt in absurd (cc)
  step-AllExited {s} (wakes i lt w) ih e k lt' = let gone = ih e i lt in absurd (cc)
  step-AllExited {s} (finish i t lt w) ih e k lt' = let gone = ih e i lt in absurd (cc)
  step-AllExited {s} (call j t w) ih e k lt' = ih e k lt'
  step-AllExited {s} (attempt j t w) ih e k lt' =
      let (own, same) = attempt-same s j t (schedule_attempt s.shared t) in
      ap (λ f. f k) same ∙ ih (sym own ∙ e) k lt'
  step-AllExited {s} (notify j w) ih e k lt' = ap wake (ih e k lt')
  step-AllExited {s} (destroy w) ih e k lt' = absurd (cc)
  step-AllExited {s} (announce w) ih e k lt' = absurd (cc)
  step-AllExited {s} (join w all) ih e k lt' = all k lt'

  pub left-AllExited :
      {sh : Shared Task} {s : System Task} → Reach sh s → s.owner ≡ left → AllExited s
  left-AllExited initially e = absurd (cc)
  left-AllExited (next r st) e = step-AllExited st (left-AllExited r) e

  -- The steps from one state to another.
  pub data Steps (s : System Task) : System Task → Type 0 where
    stays : Steps s s
    then_step : {t u : System Task} → Steps s t → Step t u → Steps s u

  Reach-Steps : {sh : Shared Task} {s t : System Task} → Reach sh s → Steps s t → Reach sh t
  Reach-Steps r stays = r
  Reach-Steps r (then_step st step) = next (Reach-Steps r st) step

  -- A destructor that has returned, with no task pushed since a state in which some were waiting, has
  -- let the workers take these, in their order.
  pub left-takes :
      (storage : List Task) {s t : System Task}
      → length storage ≡ task_queue_size
      → Reach (construct storage) s
      → Steps s t
      → t.owner ≡ left
      → t.late ≡ false
      → t.scheduled ≡ s.scheduled
      → t.started ≡ s.started ++ contents s.shared.task_queue
  left-takes storage {s} {t} full r st gone early same =
      let r' = Reach-Steps r st in
      let exit0 = left-AllExited r' gone 0 (omega arith) in
      (drained_on_exit storage full r' 0 exit0).1 early
      ∙ same
      ∙ sym (tasks_in_order storage full r).0
