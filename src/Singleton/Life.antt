-- ===== src/Singleton/Life.antt =====
-- Which sequences of calls are safe, what they return, and what they leak.
use simple_messenger.Prelude.{
  ℕ, zero, suc, ◌+◌, ◌-◌, ◌≡◌, refl, ap, ◌∙◌, Option, none, some, List, [], ◌∷◌, ◌++◌, arith,
  length, set,
}
use mathlib.Core.Option
use simple_messenger.Singleton.{
  DynamicCrtpSingleton, object, init, delete_at, destroy, get_instance,
}

-- There is no instance yet, there is one, or the pointer dangles; and the number of objects that have
-- not been deleted.
pub data Life (T : Type 0) : Type 0 where
  absent dangling : Life T
  alive : T → Life T

pub data Call (T : Type 0) : Type 0 where
  inits : T → Call T
  destroys uses : Call T

module _ {T : Type 0} where
  abbrev one : Option T → ℕ
  one none = 0
  one (some t) = 1

  abbrev pub live : List (Option T) → ℕ
  live [] = 0
  live (o ∷ heap) = one o + live heap

  abbrev found : Option T → Life T
  found none = dangling
  found (some t) = alive t

  abbrev pointed : List (Option T) → Option ℕ → Life T
  pointed heap none = absent
  pointed heap (some p) = found (object heap p)

  abbrev pub life : DynamicCrtpSingleton T → Life T
  life s = pointed s.heap s.instance_ptr

  -- A call: the instances that it returns, and the state.
  unfoldable pub call : DynamicCrtpSingleton T → Call T → Option (List T × DynamicCrtpSingleton T)
  call s (inits t) = some ([], init s t)
  call s destroys = Option.map (λ s'. ([], s')) (destroy s)
  call s uses = Option.map (λ t. (t ∷ [], s)) (get_instance s)

  unfoldable pub run_calls :
      DynamicCrtpSingleton T → List (Call T) → Option (List T × DynamicCrtpSingleton T)
  unfolding Option.bind
  run_calls s [] = some ([], s)
  run_calls s (c ∷ cs) =
      Option.bind (call s c) (λ r. Option.map (λ rest. (r.0 ++ rest.0, rest.1)) (run_calls r.1 cs))

  -- The specification.
  unfoldable pub spec_call : Life T × ℕ → Call T → Option (List T × Life T × ℕ)
  spec_call (l, n) (inits t) = some ([], alive t, n + 1)
  spec_call (absent, n) destroys = some ([], absent, n)
  spec_call (alive t, n) destroys = some ([], dangling, n - 1)
  spec_call (dangling, n) destroys = none
  spec_call (alive t, n) uses = some (t ∷ [], alive t, n)
  spec_call (absent, n) uses = none
  spec_call (dangling, n) uses = none

  unfoldable pub spec_run : Life T × ℕ → List (Call T) → Option (List T × Life T × ℕ)
  unfolding Option.bind
  spec_run l [] = some ([], l.0, l.1)
  spec_run l (c ∷ cs) =
      Option.bind (spec_call l c)
        (λ r. Option.map (λ rest. (r.0 ++ rest.0, rest.1, rest.2)) (spec_run (r.1, r.2) cs))

  abbrev pub view : List T × DynamicCrtpSingleton T → List T × Life T × ℕ
  view (l, s) = (l, life s, live s.heap)

  live-append : (xs ys : List (Option T)) → live (xs ++ ys) ≡ live xs + live ys
  live-append [] ys = omega arith
  live-append (x ∷ xs) ys = omega (arith, live-append xs ys)

  object-last :
      (heap : List (Option T)) (t : T) → object (heap ++ (some t ∷ [])) (length heap) ≡ some t
  unfolding Option.bind object
  object-last [] t = refl
  object-last (o ∷ heap) t = object-last heap t

  object-set : (heap : List (Option T)) (p : ℕ) → object (set heap p none) p ≡ none
  unfolding Option.bind object
  object-set [] p = refl
  object-set (o ∷ heap) zero = refl
  object-set (o ∷ heap) (suc p) = object-set heap p

  live-set :
      (heap : List (Option T)) (p : ℕ) (t : T)
      → object heap p ≡ some t
      → live (set heap p none) + 1 ≡ live heap
  unfolding Option.bind object
  live-set [] p t e = cc
  live-set (none ∷ heap) zero t e = cc
  live-set (some u ∷ heap) zero t e = omega arith
  live-set (o ∷ heap) (suc p) t e = omega (arith, live-set heap p t e)

  abbrev at : Option ℕ → List (Option T) → DynamicCrtpSingleton T
  at p heap = record { instance_ptr = p; heap = heap }

  -- What `delete` leaves.
  deleted-view :
      (p : ℕ) (heap : List (Option T)) (t : T)
      → object heap p ≡ some t
      → view ([], at (some p) (set heap p none)) ≡ ([], dangling, live heap - 1)
  deleted-view p heap t e =
      let gone : life (at (some p) (set heap p none)) ≡ dangling = simp (object-set heap p) in
      let less : live (set heap p none) ≡ live heap - 1 = omega (arith, live-set heap p t e) in
      simp (gone, less)

  destroys_refines :
      (p : ℕ) (heap : List (Option T)) (o : Option T)
      → object heap p ≡ o
      → Option.map view (Option.map (λ s'. ([], s')) (delete_at (at (some p) heap) (some p)))
        ≡ spec_call (found o, live heap) destroys
  unfolding delete_at spec_call
  destroys_refines p heap none e = simp (e)
  destroys_refines p heap (some t) e = simp (e, deleted-view p heap t e)

  uses_refines :
      (p : ℕ) (heap : List (Option T)) (o : Option T)
      → object heap p ≡ o
      → Option.map view (Option.map (λ t. (t ∷ [], at (some p) heap)) o)
        ≡ spec_call (found o, live heap) uses
  unfolding spec_call
  uses_refines p heap none e = refl
  uses_refines p heap (some t) e = simp (e)

  inits_refines :
      (p : Option ℕ) (heap : List (Option T)) (t : T)
      → view ([], init (at p heap) t) ≡ ([], alive t, live heap + 1)
  unfolding init
  inits_refines p heap t =
      let found_t : life (init (at p heap) t) ≡ alive t = simp (object-last heap t) in
      let more : live (heap ++ (some t ∷ [])) ≡ live heap + 1 =
        omega (arith, live-append heap (some t ∷ [])) in
      simp (found_t, more)

  at_refines :
      (p : Option ℕ) (heap : List (Option T)) (c : Call T)
      → Option.map view (call (at p heap) c) ≡ spec_call (pointed heap p, live heap) c
  unfolding call spec_call destroy get_instance delete_at Option.bind
  at_refines p heap (inits t) = ap some (inits_refines p heap t)
  at_refines none heap destroys = refl
  at_refines (some p) heap destroys = destroys_refines p heap (object heap p) refl
  at_refines none heap uses = refl
  at_refines (some p) heap uses = uses_refines p heap (object heap p) refl

  call_refines :
      (s : DynamicCrtpSingleton T) (c : Call T)
      → Option.map view (call s c) ≡ spec_call (life s, live s.heap) c
  call_refines s c = at_refines s.instance_ptr s.heap c

  continue_lem :
      (out : List T) (r : Option (List T × DynamicCrtpSingleton T))
      (q : Option (List T × Life T × ℕ))
      → Option.map view r ≡ q
      → Option.map view (Option.map (λ rest. (out ++ rest.0, rest.1)) r)
        ≡ Option.map (λ rest. (out ++ rest.0, rest.1, rest.2)) q
  continue_lem out none q e = ap (Option.map (λ rest. (out ++ rest.0, rest.1, rest.2))) e
  continue_lem out (some x) q e = ap (Option.map (λ rest. (out ++ rest.0, rest.1, rest.2))) e

  -- The automaton after the call that gave `r`.
  unfoldable spec_rest : List (Call T) → List T × Life T × ℕ → Option (List T × Life T × ℕ)
  spec_rest cs r = Option.map (λ rest. (r.0 ++ rest.0, rest.1, rest.2)) (spec_run (r.1, r.2) cs)

  bind_refines :
      (cs : List (Call T)) (r : Option (List T × DynamicCrtpSingleton T))
      (q : Option (List T × Life T × ℕ))
      → Option.map view r ≡ q
      → ((s : DynamicCrtpSingleton T)
          → Option.map view (run_calls s cs) ≡ spec_run (life s, live s.heap) cs)
      → Option.map view
          (Option.bind r (λ x. Option.map (λ rest. (x.0 ++ rest.0, rest.1)) (run_calls x.1 cs)))
        ≡ Option.bind q (spec_rest cs)
  unfolding Option.bind spec_rest
  bind_refines cs none q e rest = ap (λ q. Option.bind q (spec_rest cs)) e
  bind_refines cs (some (out, s)) q e rest =
      continue_lem out (run_calls s cs) (spec_run (life s, live s.heap) cs) (rest s)
      ∙ ap (λ q. Option.bind q (spec_rest cs)) e

  -- Whatever state the class is in, a sequence of calls of `init`, `destroy` and `getInstance` faults
  -- exactly if the automaton with the states absent, alive and dangling refuses it, and otherwise
  -- returns the same instances and leaves as many objects undeleted as the automaton counts: one more
  -- for each `init`, one less for each `destroy` of a live instance.
  pub run_calls_refines :
      (s : DynamicCrtpSingleton T) (cs : List (Call T))
      → Option.map view (run_calls s cs) ≡ spec_run (life s, live s.heap) cs
  unfolding run_calls spec_run spec_rest Option.bind
  run_calls_refines s [] = refl
  run_calls_refines s (c ∷ cs) =
      bind_refines cs (call s c) (spec_call (life s, live s.heap) c) (call_refines s c)
        (λ s'. run_calls_refines s' cs)
