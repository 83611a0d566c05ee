-- ===== src/Base/Sets.antt =====
-- JavaScript's `Set`, as the list of its members in insertion order.
use mathlib.Core.Path.{◌≡◌}
use mathlib.Core.Logic.{◌↔◌, ◌⊎◌}
use mathlib.Core.Bool.{Bool, true, false, ◌||◌}
use mathlib.Core.List.{List, [], ◌∷◌, ◌++◌}
use native.Mathlib.Omega.{arith}
use wolkvorm.Base.Tests.{if◌then◌else◌}
use wolkvorm.Base.Equality.{Eq, ◌==◌, ==-iff}

module _ {ℓ} {A : Type ℓ} ⦃e : Eq A⦄ where
  unfoldable pub has : A → List A → Bool
  has x [] = false
  has x (y ∷ s) = y == x || has x s

  unfoldable pub add : A → List A → List A
  unfolding has
  add x s = if has x s then s else s ++ x ∷ []

  unfoldable pub delete : A → List A → List A
  delete x [] = []
  delete x (y ∷ s) = if y == x then delete x s else y ∷ delete x s

  -- `new Set(xs)`, starting from a set
  unfoldable pub add_all : List A → List A → List A
  add_all s [] = s
  add_all s (x ∷ xs) = add_all (add x s) xs

  has-concat : (x y : A) (s : List A) → has x (s ++ y ∷ []) ≡ (has x s || (y == x))
  unfolding has
  has-concat x y [] = ground arith
  has-concat x y (z ∷ s) = ground (arith, has-concat x y s)

  pub has-add : (x y : A) (s : List A) → (has x (add y s) ≡ true) ↔ ((has x s ≡ true) ⊎ (x ≡ y))
  unfolding add
  has-add x y s = ground (arith, has-concat x y s, ==-iff y x)

  pub has-delete : (x y : A) (s : List A) → has x (delete y s) ≡ (if y == x then false else has x s)
  unfolding has delete
  has-delete x y [] = ground arith
  has-delete x y (z ∷ s) = ground (arith, has-delete x y s, ==-iff z y, ==-iff z x, ==-iff y x)
