-- ===== src/Sockets/Calls.antt =====
-- How often a descriptor has been handed out and closed.
use simple_messenger.Prelude.{
  ℕ, ◌+◌, ◌≡◌, Option, none, some, List, [], ◌∷◌, ◌++◌, arith, ◌==◌, if◌then◌else◌,
}
use simple_messenger.Sockets.{Call, opens, accepts, closes}

abbrev pub one_if : Option ℕ → ℕ → ℕ
one_if none h = 0
one_if (some fd) h = if fd == h then 1 else 0

abbrev pub handed_by : Call → ℕ → ℕ
handed_by (opens type fd) h = one_if fd h
handed_by (accepts listening fd) h = one_if fd h
handed_by _ h = 0

abbrev pub closed_by : Call → ℕ → ℕ
closed_by (closes fd) h = one_if fd h
closed_by _ h = 0

unfoldable pub handed_out : List Call → ℕ → ℕ
handed_out [] h = 0
handed_out (c ∷ cs) h = handed_by c h + handed_out cs h

unfoldable pub closed : List Call → ℕ → ℕ
closed [] h = 0
closed (c ∷ cs) h = closed_by c h + closed cs h

pub handed_out-append :
    (cs ds : List Call) (h : ℕ) → handed_out (cs ++ ds) h ≡ handed_out cs h + handed_out ds h
unfolding handed_out
handed_out-append [] ds h = omega arith
handed_out-append (c ∷ cs) ds h = omega (arith, handed_out-append cs ds h)

pub closed-append : (cs ds : List Call) (h : ℕ) → closed (cs ++ ds) h ≡ closed cs h + closed ds h
unfolding closed
closed-append [] ds h = omega arith
closed-append (c ∷ cs) ds h = omega (arith, closed-append cs ds h)
