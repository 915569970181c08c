-- ===== src/ThreadManager/Awake.antt =====
-- ~ThreadManager of common/thread_manager/ThreadManager.cpp: nobody sleeps while it joins the workers.
use simple_messenger.ThreadManager.System.{
  Reach, initially, next, Worker, waking, asleep, exited, crashed, running, joining, System, wake,
  after_turn, Step, turn, wakes, finish, call, attempt, notify, destroy, announce, join,
}
use simple_messenger.ThreadManager.Defs.{construct, task_queue_size, worker_turn, schedule_attempt}
use simple_messenger.ThreadManager.Safety.{Reach-construct}
use simple_messenger.Prelude.{List, length, ℕ, ◌≡◌, ◌≢◌, sym, ap, ◌∙◌, moved}
use simple_messenger.ThreadManager.Invariant.{Inv, worker_turn_lem, idles, ends, pops}
use simple_messenger.ThreadManager.Joined.{turn-owner, attempt-same}

module _ {Task : Type 0} where
  abbrev pub AllAwake : System Task → Type 0
  AllAwake s = (i : ℕ) → s.workers i ≢ asleep

  wake-ne-asleep : (w : Worker Task) → wake w ≢ asleep
  wake-ne-asleep waking e = cc
  wake-ne-asleep asleep e = cc
  wake-ne-asleep (running t) e = cc
  wake-ne-asleep exited e = cc
  wake-ne-asleep crashed e = cc

  turn-AllAwake :
      (s : System Task) (i : ℕ)
      → Inv s
      → s.owner ≡ joining
      → AllAwake s
      → AllAwake (after_turn s i (worker_turn s.shared))
  unfolding after_turn
  turn-AllAwake s i v o all j = elim (worker_turn_lem s.shared v.valid) [
    | idles empty up r ↦ let down = v.stopped (λ e. cc) in absurd (cc)
    | ends empty down r ↦ rw r (λ h. moved s.workers i exited j asleep h (λ e. cc) (all j))
    | pops t sh split fine same r ↦
        rw r (λ h. moved s.workers i (running t) j asleep h (λ e. cc) (all j))
  ]

  -- The owner joins only after its `notify_all`, and no worker blocks after `is_running` is cleared.
  pub step-AllAwake :
      {s t : System Task}
      → Step s t
      → Inv s
      → (s.owner ≡ joining → AllAwake s)
      → t.owner ≡ joining
      → AllAwake t
  step-AllAwake {s} (turn i lt w) v ih e =
      let o = sym (turn-owner s i (worker_turn s.shared)) ∙ e in turn-AllAwake s i v o (ih o)
  step-AllAwake {s} (wakes i lt w) v ih e =
      λ j h. moved s.workers i waking j asleep h (λ e. cc) (ih e j)
  step-AllAwake {s} (finish i t lt w) v ih e =
      λ j h. moved s.workers i waking j asleep h (λ e. cc) (ih e j)
  step-AllAwake {s} (call j t w) v ih e = ih e
  step-AllAwake {s} (attempt j t w) v ih e =
      let (own, same) = attempt-same s j t (schedule_attempt s.shared t) in
      λ k h. ih (sym own ∙ e) k (sym (ap (λ f. f k) same) ∙ h)
  step-AllAwake {s} (notify j w) v ih e = λ k. wake-ne-asleep (s.workers k)
  step-AllAwake {s} (destroy w) v ih e = absurd (cc)
  step-AllAwake {s} (announce w) v ih e = λ k. wake-ne-asleep (s.workers k)
  step-AllAwake {s} (join w all) v ih e = absurd (cc)

  pub joining-AllAwake :
      (storage : List Task) {s : System Task}
      → length storage ≡ task_queue_size
      → Reach (construct storage) s
      → s.owner ≡ joining
      → AllAwake s
  joining-AllAwake storage full initially e = absurd (cc)
  joining-AllAwake storage full (next r st) e =
      step-AllAwake st (Reach-construct storage full r) (joining-AllAwake storage full r) e
