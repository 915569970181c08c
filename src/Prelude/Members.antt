-- ===== src/Prelude/Members.antt =====
-- Predicates on the items of a list, and what grows when a list does.
use mathlib.Core.Path.{◌≡◌, refl, sym, subst}
use mathlib.Core.Logic.{◌⊎◌, inl, inr}
use mathlib.Core.List.{List, [], ◌∷◌, ◌++◌}

module _ {A : Type 0} where
  abbrev pub All : (A → Type 0) → List A → Type 0
  All P [] = Unit
  All P (x ∷ xs) = P x × All P xs

  abbrev pub In : A → List A → Type 0
  In x [] = ⊥
  In x (y ∷ ys) = (x ≡ y) ⊎ In x ys

  pub All-append : (P : A → Type 0) (xs ys : List A) → All P xs → All P ys → All P (xs ++ ys)
  All-append P [] ys hx hy = hy
  All-append P (x ∷ xs) ys (h, hx) hy = (h, All-append P xs ys hx hy)

  pub All-map : (P Q : A → Type 0) → ((x : A) → P x → Q x) → (xs : List A) → All P xs → All Q xs
  All-map P Q f [] h = tt
  All-map P Q f (x ∷ xs) (h, hs) = (f x h, All-map P Q f xs hs)

  pub All-In : (P : A → Type 0) (xs : List A) (x : A) → All P xs → In x xs → P x
  All-In P [] x h i = absurd i
  All-In P (y ∷ ys) x (h, hs) (inl e) = subst P (sym e) h
  All-In P (y ∷ ys) x (h, hs) (inr i) = All-In P ys x hs i

  pub In-append_left : (xs ys : List A) (x : A) → In x xs → In x (xs ++ ys)
  In-append_left [] ys x i = absurd i
  In-append_left (z ∷ xs) ys x (inl e) = inl e
  In-append_left (z ∷ xs) ys x (inr i) = inr (In-append_left xs ys x i)

  pub In-append_last : (xs : List A) (x : A) → In x (xs ++ (x ∷ []))
  In-append_last [] x = inl refl
  In-append_last (z ∷ xs) x = inr (In-append_last xs x)
