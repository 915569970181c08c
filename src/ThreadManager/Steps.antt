-- ===== src/ThreadManager/Steps.antt =====
-- Every step of the threads keeps the invariant.
use simple_messenger.Prelude.{
  moved, update, ℕ, ◌≡◌, ◌≢◌, inl, inr, refl, sym, ap, ◌∙◌, [], ◌∷◌, ◌++◌, append_assoc, arith,
  ◌==◌, Bool-cases, ==_refl,
}
use simple_messenger.CircularBuffer
use simple_messenger.CircularBuffer.Invariant.{IsValid, push-IsValid}
use simple_messenger.CircularBuffer.Refine.{contents, push_of_room}
use simple_messenger.ThreadManager.Defs.{Shared, schedule_attempt, stop}
use simple_messenger.ThreadManager.System.{
  Worker, waking, asleep, exited, crashed, running, Caller, outside, notifying, polling, Owner,
  alive, stopping, joining, System, wake, notify_all, after_attempt, Step, turn, wakes, finish,
  call, attempt, notify, destroy, announce, join, Reach, initially, next,
}
use simple_messenger.ThreadManager.Invariant.{Inv, turn-Inv, start-Inv}

update-at : {A : Type 0} (f : ℕ → A) (i : ℕ) (a : A) → update f i a i ≡ a
update-at f i a = rw (==_refl i)

module _ {Task : Type 0} where
  wake-ne-asleep : (w : Worker Task) → wake w ≢ asleep
  wake-ne-asleep asleep h = cc
  wake-ne-asleep waking h = cc
  wake-ne-asleep exited h = cc
  wake-ne-asleep crashed h = cc
  wake-ne-asleep (running t) h = cc

  wake-crashed : (w : Worker Task) → wake w ≡ crashed → w ≡ crashed
  wake-crashed crashed h = refl
  wake-crashed asleep h = cc
  wake-crashed waking h = cc
  wake-crashed exited h = cc
  wake-crashed (running t) h = cc

  wake-exited : (w : Worker Task) → wake w ≡ exited → w ≡ exited
  wake-exited exited h = refl
  wake-exited asleep h = cc
  wake-exited waking h = cc
  wake-exited crashed h = cc
  wake-exited (running t) h = cc

  -- A worker goes back to the test of its condition.
  waking-Inv :
      (s : System Task) (i : ℕ) → Inv s → Inv (record s { workers = update s.workers i waking })
  waking-Inv s i v = record {
    valid = v.valid;
    order = v.order;
    whole = λ j h. moved s.workers i waking j crashed h (λ e. cc) (v.whole j);
    awake = λ j h. moved s.workers i waking j asleep h (λ e. cc) (v.awake j);
    drained = λ j h. moved s.workers i waking j exited h (λ e. cc) (v.drained j);
    stopped = v.stopped;
  }

  -- Whoever was about to notify has done so: nobody is asleep.
  notified-Inv :
      (s : System Task) (callers : ℕ → Caller Task) (owner : Owner)
      → Inv s
      → (owner ≢ alive → s.owner ≢ alive)
      → Inv (record s { callers = callers; owner = owner; workers = notify_all s.workers })
  notified-Inv s callers owner v same = record {
    valid = v.valid;
    order = v.order;
    whole = λ j h. v.whole j (wake-crashed (s.workers j) h);
    awake = λ j h. absurd (wake-ne-asleep (s.workers j) h);
    drained = λ j h. v.drained j (wake-exited (s.workers j) h);
    stopped = λ h. v.stopped (same h);
  }

  -- A call begins: it was not about to notify, and is not.
  call-Inv :
      (s : System Task) (j : ℕ) (t : Task)
      → s.callers j ≡ outside
      → Inv s
      → Inv (record s { callers = update s.callers j (polling t) })
  call-Inv s j t here v = record {
    valid = v.valid;
    order = v.order;
    whole = v.whole;
    awake = λ i h. elim (v.awake i h) [
      | inl quiet ↦ inl quiet
      | inr (inl (k, e)) ↦ inr (inl (k, still k e))
      | inr (inr e) ↦ inr (inr e)
    ];
    drained = v.drained;
    stopped = v.stopped;
  }
    where
      still : (k : ℕ) → s.callers k ≡ notifying → update s.callers j (polling t) k ≡ notifying
      still k e = elim (Bool-cases (j == k)) [
        | inl same ↦ absurd (ground arith)
        | inr other ↦ rw other e
      ]

  attempt-Inv :
      (s : System Task) (j : ℕ) (t : Task)
      → Inv s
      → Inv (after_attempt s j t (schedule_attempt s.shared t))
  unfolding after_attempt schedule_attempt
  attempt-Inv s j t v = elim (Bool-cases (CircularBuffer.is_full s.shared.task_queue)) [
    | inl full ↦ rw full v
    | inr room ↦
        let (_, grown) = push_of_room v.valid t room in
        rw room (record {
          valid = push-IsValid t v.valid;
          order = rw grown (
              sym (append_assoc s.started (contents s.shared.task_queue) (t ∷ []))
              ∙ ap (λ q. q ++ (t ∷ [])) v.order);
          whole = v.whole;
          awake = λ i h. inr (inl (j, update-at s.callers j notifying));
          drained = λ i h. let (down, _) = v.drained i h in (down, λ early. absurd (ground arith));
          stopped = v.stopped;
        })
  ]

  stop-Inv :
      (s : System Task)
      → s.owner ≡ alive
      → Inv s
      → Inv (record s { shared = stop s.shared; owner = stopping })
  unfolding stop
  stop-Inv s here v = record {
    valid = v.valid;
    order = v.order;
    whole = v.whole;
    awake = λ i h. inr (inr refl);
    drained = λ i h. (refl, (v.drained i h).1);
    stopped = λ h. refl;
  }

  pub Step-Inv : {s t : System Task} → Step s t → Inv s → Inv t
  Step-Inv {s} (turn i lt h) v = turn-Inv s i h v
  Step-Inv {s} (wakes i lt h) v = waking-Inv s i v
  Step-Inv {s} (finish i t lt h) v = waking-Inv s i v
  Step-Inv {s} (call j t h) v = call-Inv s j t h v
  Step-Inv {s} (attempt j t h) v = attempt-Inv s j t v
  Step-Inv {s} (notify j h) v = notified-Inv s (update s.callers j outside) s.owner v (λ e. e)
  Step-Inv {s} (destroy h) v = stop-Inv s h v
  Step-Inv {s} (announce h) v = notified-Inv s s.callers joining v (λ e e'. cc)
  Step-Inv {s} (join h all) v = record {
    valid = v.valid;
    order = v.order;
    whole = v.whole;
    awake = λ i e. elim (v.awake i e) [
      | inl quiet ↦ inl quiet
      | inr (inl p) ↦ inr (inl p)
      | inr (inr p) ↦ absurd (cc)
    ];
    drained = v.drained;
    stopped = λ e. v.stopped (λ e'. cc);
  }

  pub Reach-Inv :
      {sh : Shared Task} {s : System Task}
      → IsValid sh.task_queue
      → contents sh.task_queue ≡ []
      → Reach sh s
      → Inv s
  Reach-Inv {sh} v e initially = start-Inv sh v e
  Reach-Inv v e (next r st) = Step-Inv st (Reach-Inv v e r)
