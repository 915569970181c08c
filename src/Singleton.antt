-- ===== src/Singleton.antt =====
-- common/utilities/DynamicCrtpSingleton.hpp and common/utilities/StaticCrtpSingleton.hpp: the life of
-- the one instance of a class `T`. `none` is a null or dangling pointer that is followed or deleted.
pub mod Life
mod Tests
use simple_messenger.Prelude.{ℕ, Option, none, some, List, [], ◌∷◌, ◌++◌, length, get_elem?, set}
use mathlib.Core.Option

-- `instance_ptr`, and the objects made by `new`, of which `delete` leaves `none`.
pub record DynamicCrtpSingleton (T : Type 0) : Type 0 where
  pub instance_ptr : Option ℕ
  pub heap : List (Option T)

module _ {T : Type 0} where
  -- Before the first call.
  unfoldable pub null : DynamicCrtpSingleton T
  null = record { instance_ptr = none; heap = [] }

  -- What stands at an address.
  unfoldable pub object : List (Option T) → ℕ → Option T
  unfolding Option.bind
  object heap p = Option.bind (get_elem? heap p) (λ o. o)

  -- `init`, for the object that the constructor of `T` makes.
  unfoldable pub init : DynamicCrtpSingleton T → T → DynamicCrtpSingleton T
  init s t = record { instance_ptr = some (length s.heap); heap = s.heap ++ (some t ∷ []) }

  unfoldable pub delete_at : DynamicCrtpSingleton T → Option ℕ → Option (DynamicCrtpSingleton T)
  delete_at s none = some s
  delete_at s (some p) = Option.map (λ _. record s { heap = set s.heap p none }) (object s.heap p)

  -- `destroy`, which leaves the pointer as it is.
  unfoldable pub destroy : DynamicCrtpSingleton T → Option (DynamicCrtpSingleton T)
  destroy s = delete_at s s.instance_ptr

  -- `getInstance`
  unfoldable pub get_instance : DynamicCrtpSingleton T → Option T
  unfolding Option.bind
  get_instance s = Option.bind s.instance_ptr (object s.heap)

-- `StaticCrtpSingleton::getInstance`: the function's static object is made by its first call. `make` is
-- the constructor.
unfoldable pub get_static_instance : {T : Type 0} → T → Option T → T × Option T
get_static_instance make none = (make, some make)
get_static_instance make (some t) = (t, some t)
