-- ===== src/Base/Sorting.antt =====
-- JavaScript's `sort`, which keeps the order of what its function does not tell apart; `later x y`
-- stands for a function whose result at `x` and `y` is above 0.
use mathlib.Core.Path.{◌≡◌, refl, ◌∙◌}
use mathlib.Core.Logic.{inl, inr}
use mathlib.Core.Bool.{Bool, true, false}
use mathlib.Core.List.{List, [], ◌∷◌, Perm}
use mathlib.Core.List.Perm
use native.Mathlib.Omega.{arith}
use wolkvorm.Base.Tests.{if◌then◌else◌, Bool-cases}
use wolkvorm.Base.Lists.{All, All-imp, select}

module _ {ℓ} {A : Type ℓ} (later : A → A → Bool) where
  unfoldable pub insert : A → List A → List A
  insert x [] = x ∷ []
  insert x (y ∷ ys) = if later x y then y ∷ insert x ys else x ∷ y ∷ ys

  unfoldable pub sort_by : List A → List A
  unfolding insert
  sort_by [] = []
  sort_by (x ∷ xs) = insert x (sort_by xs)

  -- Nothing comes before something that it is later than.
  abbrev pub IsSorted : List A → Type 0
  IsSorted [] = Unit
  IsSorted (x ∷ xs) = All (λ y. later x y ≡ false) xs × IsSorted xs

  All-insert {κ} : (P : A → Type κ) (x : A) (ys : List A) → P x → All P ys → All P (insert x ys)
  unfolding insert
  All-insert P x [] p h = (p, tt)
  All-insert P x (y ∷ ys) p h = elim (Bool-cases (later x y)) [
    | inl after ↦ rw after (h.0, All-insert P x ys p h.1)
    | inr before ↦ rw before (p, h)
  ]

  pub All-sort_by {κ} : (P : A → Type κ) (xs : List A) → All P xs → All P (sort_by xs)
  unfolding sort_by
  All-sort_by P [] h = tt
  All-sort_by P (x ∷ xs) (p, h) = All-insert P x (sort_by xs) p (All-sort_by P xs h)

  insert-perm : (x : A) (ys : List A) → Perm (insert x ys) (x ∷ ys)
  unfolding insert
  insert-perm x [] = Perm.refl _
  insert-perm x (y ∷ ys) = elim (Bool-cases (later x y)) [
    | inl after ↦ rw after (Perm.trans (Perm.cons y (insert-perm x ys)) (Perm.swap x y ys))
    | inr before ↦ rw before (Perm.refl _)
  ]

  pub sort_by-perm : (xs : List A) → Perm (sort_by xs) xs
  unfolding sort_by
  sort_by-perm [] = Perm.refl []
  sort_by-perm (x ∷ xs) = Perm.trans (insert-perm x (sort_by xs)) (Perm.cons x (sort_by-perm xs))

  module _ (asym : (x y : A) → later x y ≡ true → later y x ≡ false)
      (trans : (x y z : A) → later x y ≡ false → later y z ≡ false → later x z ≡ false) where
    insert-IsSorted : (x : A) (ys : List A) → IsSorted ys → IsSorted (insert x ys)
    unfolding insert
    insert-IsSorted x [] h = (tt, tt)
    insert-IsSorted x (y ∷ ys) h = elim (Bool-cases (later x y)) [
      | inl after ↦
          rw after (
            All-insert (λ z. later y z ≡ false) x ys (asym x y after) h.0,
            insert-IsSorted x ys h.1,
          )
      | inr before ↦ rw before (
        (
          before,
          All-imp (λ z. later y z ≡ false) (λ z. later x z ≡ false) (λ z. trans x y z before) ys
              h.0,
        ),
        h,
      )
    ]

    pub sort_by-IsSorted : (xs : List A) → IsSorted (sort_by xs)
    unfolding sort_by
    sort_by-IsSorted [] = tt
    sort_by-IsSorted (x ∷ xs) = insert-IsSorted x (sort_by xs) (sort_by-IsSorted xs)

  -- What the function does not tell apart keeps its order.
  module _ (same : A → Bool)
      (alike : (x y : A) → same x ≡ true → same y ≡ true → later x y ≡ false) where
    insert-select : (x : A) (ys : List A) → select same (insert x ys) ≡ select same (x ∷ ys)
    unfolding insert
    insert-select x [] = refl
    insert-select x (y ∷ ys) = ground (arith, insert-select x ys, alike x y)

    pub sort_by-select : (xs : List A) → select same (sort_by xs) ≡ select same xs
    unfolding sort_by
    sort_by-select [] = refl
    sort_by-select (x ∷ xs) = insert-select x (sort_by xs) ∙ ground (arith, sort_by-select xs)
