-- ===== src/CircularBuffer/Tests.antt =====
-- The circular buffer on concrete items, and its theorems at concrete buffers.
use simple_messenger.Prelude.{ℕ, ◌≡◌, ◌≢◌, refl, some, true, false, List, [], ◌∷◌, arith}
use simple_messenger.CircularBuffer.{CircularBuffer, make, ret_pos, at, push, pop}
use simple_messenger.CircularBuffer.Invariant.{IsValid, make-IsValid}
use simple_messenger.CircularBuffer.Queue
use simple_messenger.CircularBuffer.Refine.{
  contents, push_refines, pop_refines, Op, put, get, pushed, popped, run, run_queue, run_refines,
}
use simple_messenger.CircularBuffer.Indexing.{at-contents, ret_pos_misses}

abbrev empty_buffer : CircularBuffer ℕ 4
empty_buffer = record { circ_buffer = 0 ∷ 0 ∷ 0 ∷ 0 ∷ []; begin_pos = 0; end_pos = 0; size = 0 }

-- 7, then 8, round the end of the array
abbrev wrapped : CircularBuffer ℕ 4
wrapped = record { circ_buffer = 8 ∷ 5 ∷ 6 ∷ 7 ∷ []; begin_pos = 3; end_pos = 1; size = 2 }

-- one item, in slot 1
abbrev popped_once : CircularBuffer ℕ 4
popped_once = record { circ_buffer = 5 ∷ 6 ∷ 0 ∷ 0 ∷ []; begin_pos = 1; end_pos = 2; size = 1 }

abbrev script : List (Op ℕ)
script = put 1 ∷ put 2 ∷ put 3 ∷ get ∷ get ∷ []

abbrev empty_pushed : CircularBuffer ℕ 4
empty_pushed = record { circ_buffer = 5 ∷ 6 ∷ 0 ∷ 0 ∷ []; begin_pos = 0; end_pos = 2; size = 2 }

wrapped-IsValid : IsValid wrapped
wrapped-IsValid = omega arith

popped_once-IsValid : IsValid popped_once
popped_once-IsValid = omega arith

make-IsValid_example : IsValid (make {A = ℕ} {n = 4} (0 ∷ 0 ∷ 0 ∷ 0 ∷ []))
make-IsValid_example = make-IsValid (0 ∷ 0 ∷ 0 ∷ 0 ∷ []) (omega arith) (omega arith) refl

run-wrapped :
    run wrapped script
    ≡ pushed true ∷ pushed true ∷ pushed false ∷ popped (some 7) ∷ popped (some 8) ∷ []
unfolding run push pop
run-wrapped = refl

push_refines_example :
    let (done, b) = push wrapped 9 in (done, contents b) ≡ Queue.push 4 (7 ∷ 8 ∷ []) 9
push_refines_example = push_refines 9 wrapped-IsValid

pop_refines_example : let (item, b) = pop wrapped in (item, contents b) ≡ Queue.pop (7 ∷ 8 ∷ [])
pop_refines_example = pop_refines wrapped-IsValid

run_refines_example : run wrapped script ≡ run_queue 4 (7 ∷ 8 ∷ []) script
run_refines_example = run_refines script wrapped-IsValid

at-contents_example : at empty_pushed 0 ≡ some 5
at-contents_example =
    at-contents empty_pushed 0 (omega arith) (omega arith) (omega arith) (omega arith) (omega arith)

ret_pos_misses_example : ret_pos 1 1 0 ≢ 1
ret_pos_misses_example =
    ret_pos_misses popped_once 0 popped_once-IsValid (omega arith) (omega arith) (omega arith)
      (omega arith) (omega arith)

-- The buffer holds 6 alone, and `operator[]` returns 5, which `pop` has removed.
at_popped_item : (contents popped_once ≡ 6 ∷ []) × (at popped_once 0 ≡ some 5)
unfolding at ret_pos
at_popped_item = (refl, refl)
