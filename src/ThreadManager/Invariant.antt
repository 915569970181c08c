-- ===== src/ThreadManager/Invariant.antt =====
-- What every step of the threads keeps.
use simple_messenger.Prelude.{
  moved, ℕ, ◌≡◌, ◌≢◌, ◌⊎◌, inl, inr, refl, sym, ap, ◌∙◌, Bool, true, false, some, List, [], ◌∷◌,
  ◌++◌, append_assoc, arith, if◌then◌else◌, Bool-cases,
}
use simple_messenger.CircularBuffer
use simple_messenger.CircularBuffer.Invariant.{IsValid, pop-IsValid}
use simple_messenger.CircularBuffer.Refine.{contents, is_empty_of_nil, pop_of_cons}
use simple_messenger.ThreadManager.Defs.{
  Shared, Turn, sleeps, returns, takes, worker_turn, take_task,
}
use simple_messenger.ThreadManager.System.{
  Worker, waking, asleep, exited, crashed, running, Caller, outside, notifying, polling, Owner,
  alive, stopping, joining, left, System, wake, notify_all, after_turn, after_attempt, Step,
}
use simple_messenger.ThreadManager.System

module _ {Task : Type 0} where
  -- What a worker's turn comes to, for a queue that holds `q`.
  pub data TurnSpec (sh : Shared Task) : List Task → Turn Task → Type 0 where
    idles :
        {q : List Task} {r : Turn Task}
        → q ≡ []
        → sh.is_running ≡ true
        → r ≡ sleeps
        → TurnSpec sh q r
    ends :
        {q : List Task} {r : Turn Task}
        → q ≡ []
        → sh.is_running ≡ false
        → r ≡ returns
        → TurnSpec sh q r
    pops :
        {q : List Task} {r : Turn Task} (t : Task) (sh' : Shared Task)
        → q ≡ t ∷ contents sh'.task_queue
        → IsValid sh'.task_queue
        → sh'.is_running ≡ sh.is_running
        → r ≡ takes t sh'
        → TurnSpec sh q r

  empty_turn :
      (sh : Shared Task)
      → CircularBuffer.is_empty sh.task_queue ≡ true
      → worker_turn sh ≡ (if sh.is_running then sleeps else returns)
  unfolding worker_turn
  empty_turn sh e = ground arith

  filled_turn :
      (sh : Shared Task) (t : Task)
      → CircularBuffer.is_empty sh.task_queue ≡ false
      → (CircularBuffer.pop sh.task_queue).0 ≡ some t
      → worker_turn sh ≡ takes t (record sh { task_queue = (CircularBuffer.pop sh.task_queue).1 })
  unfolding worker_turn take_task
  filled_turn sh t e p = ground arith

  -- A turn blocks if the queue is empty and the manager runs, returns if it is empty and the manager
  -- has been stopped, and takes the oldest task otherwise; it never throws.
  pub worker_turn_lem :
      (sh : Shared Task)
      → IsValid sh.task_queue
      → TurnSpec sh (contents sh.task_queue) (worker_turn sh)
  worker_turn_lem sh v = go (contents sh.task_queue) refl
    where
      go :
          (q : List Task)
          → contents sh.task_queue ≡ q
          → TurnSpec sh (contents sh.task_queue) (worker_turn sh)
      go [] e = elim (Bool-cases sh.is_running) [
        | inl up ↦ idles e up (
            empty_turn sh (is_empty_of_nil v e)
            ∙ ap (λ (c : Bool). if c then sleeps else returns) up)
        | inr down ↦ ends e down (
            empty_turn sh (is_empty_of_nil v e)
            ∙ ap (λ (c : Bool). if c then sleeps else returns) down)
      ]
      go (t ∷ q) e =
          let (filled, item, rest) = pop_of_cons v t q e in
          pops t (record sh { task_queue = (CircularBuffer.pop sh.task_queue).1 })
            (e ∙ ap (λ l. t ∷ l) (sym rest)) (pop-IsValid v) refl (filled_turn sh t filled item)

  -- Somebody is about to call `notify_all`.
  abbrev pub Pending : System Task → Type 0
  Pending s = ((j : ℕ) × (s.callers j ≡ notifying)) ⊎ (s.owner ≡ stopping)

  pub record Inv (s : System Task) : Type 0 where
    pub valid : IsValid s.shared.task_queue
    pub order : s.started ++ contents s.shared.task_queue ≡ s.scheduled
    pub whole : (i : ℕ) → s.workers i ≢ crashed
    pub awake :
        (i : ℕ)
        → s.workers i ≡ asleep
        → ((contents s.shared.task_queue ≡ []) × (s.shared.is_running ≡ true)) ⊎ Pending s
    pub drained :
        (i : ℕ)
        → s.workers i ≡ exited
        → (s.shared.is_running ≡ false) × (s.late ≡ false → contents s.shared.task_queue ≡ [])
    pub stopped : s.owner ≢ alive → s.shared.is_running ≡ false

  pub start-Inv :
      (sh : Shared Task)
      → IsValid sh.task_queue
      → contents sh.task_queue ≡ []
      → Inv (System.start sh)
  start-Inv sh v e = record {
    valid = v;
    order = e;
    whole = λ i h. cc;
    awake = λ i h. absurd (cc);
    drained = λ i h. absurd (cc);
    stopped = λ h. absurd (h refl);
  }

  -- A worker's turn.
  pub turn-Inv :
      (s : System Task) (i : ℕ)
      → s.workers i ≡ waking
      → Inv s
      → Inv (after_turn s i (worker_turn s.shared))
  unfolding after_turn
  turn-Inv s i here v = elim (worker_turn_lem s.shared v.valid) [
    | idles empty up r ↦ rw r (record {
      valid = v.valid;
      order = v.order;
      whole = λ j h. moved s.workers i asleep j crashed h (λ e. cc) (v.whole j);
      awake = λ j h. inl (empty, up);
      drained = λ j h. moved s.workers i asleep j exited h (λ e. cc) (v.drained j);
      stopped = v.stopped;
    })
    | ends empty down r ↦ rw r (record {
      valid = v.valid;
      order = v.order;
      whole = λ j h. moved s.workers i exited j crashed h (λ e. cc) (v.whole j);
      awake = λ j h. moved s.workers i exited j asleep h (λ e. cc) (v.awake j);
      drained = λ j h. (down, λ _. empty);
      stopped = v.stopped;
    })
    | pops t sh split fine same r ↦ rw r (record {
      valid = fine;
      order =
          append_assoc s.started (t ∷ []) (contents sh.task_queue)
          ∙ ap (λ q. s.started ++ q) (sym split)
          ∙ v.order;
      whole = λ j h. moved s.workers i (running t) j crashed h (λ e. cc) (v.whole j);
      awake = λ j h.
          moved s.workers i (running t) j asleep h (λ e. cc)
            (λ e. elim (v.awake j e) [ inl (none_left, up) ↦ cc | inr p ↦ inr p ]);
      drained = λ j h.
          moved s.workers i (running t) j exited h (λ e. cc)
            (λ e.
              let (down, empties) = v.drained j e in
              (same ∙ down, λ early. absurd (cc (empties early))));
      stopped = λ h. same ∙ v.stopped h;
    })
  ]
