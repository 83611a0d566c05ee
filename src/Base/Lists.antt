-- ===== src/Base/Lists.antt =====
-- Lists measured and indexed by native numbers, under the library's names.
use Prim.Native.Nat.{ℕ, zero, suc, ◌+◌, ◌<◌}
use mathlib.Core.Path.{◌≡◌, refl, ap, sym, ◌∙◌}
use mathlib.Core.Logic.{◌≢◌, ◌⊎◌, ◌↔◌, inl, inr, ⊎_elim}
use mathlib.Core.Bool.{Bool, true, false, ◌||◌}
use mathlib.Core.Option.{Option, none, some}
use mathlib.Core.List.{List, [], ◌∷◌, ◌++◌, Memᴰ}
use mathlib.Core.List.Memᴰ
use native.Mathlib.Omega.{arith}
use wolkvorm.Base.Tests.{if◌then◌else◌, Bool-cases}

module _ {ℓ} {A : Type ℓ} where
  abbrev pub length : List A → ℕ
  length [] = 0
  length (x ∷ xs) = suc (length xs)

  abbrev pub get_elem? : List A → ℕ → Option A
  get_elem? [] i = none
  get_elem? (x ∷ xs) zero = some x
  get_elem? (x ∷ xs) (suc i) = get_elem? xs i

  -- A write out of bounds changes nothing.
  abbrev pub set : List A → ℕ → A → List A
  set [] i v = []
  set (x ∷ xs) zero v = v ∷ xs
  set (x ∷ xs) (suc i) v = x ∷ set xs i v

  -- `xs[i] = f(xs[i])` in a copy of `xs`
  abbrev pub update_at : List A → ℕ → (A → A) → List A
  update_at [] i f = []
  update_at (x ∷ xs) zero f = f x ∷ xs
  update_at (x ∷ xs) (suc i) f = x ∷ update_at xs i f

  -- `xs.filter((_, j) => j !== i)`
  abbrev pub remove_at : List A → ℕ → List A
  remove_at [] i = []
  remove_at (x ∷ xs) zero = xs
  remove_at (x ∷ xs) (suc i) = x ∷ remove_at xs i

  -- `xs.filter(p)`
  abbrev pub select : (A → Bool) → List A → List A
  select p [] = []
  select p (x ∷ xs) = if p x then x ∷ select p xs else select p xs

  -- `xs.find(p)`
  abbrev pub find_first : (A → Bool) → List A → Option A
  find_first p [] = none
  find_first p (x ∷ xs) = if p x then some x else find_first p xs

  -- `xs.some(p)`
  abbrev pub any : (A → Bool) → List A → Bool
  any p [] = false
  any p (x ∷ xs) = p x || any p xs

  abbrev pub All {κ} : (A → Type κ) → List A → Type κ
  All P [] = Unit
  All P (x ∷ xs) = P x × All P xs

module _ {ℓ} {A : Type ℓ} where
  pub length-append : (xs ys : List A) → length (xs ++ ys) ≡ length xs + length ys
  length-append [] ys = omega arith
  length-append (x ∷ xs) ys = omega (arith, length-append xs ys)

  pub length-set : (xs : List A) (i : ℕ) (v : A) → length (set xs i v) ≡ length xs
  length-set [] i v = refl
  length-set (x ∷ xs) zero v = refl
  length-set (x ∷ xs) (suc i) v = ap suc (length-set xs i v)

  pub get_elem?-set_self :
      (xs : List A) (i : ℕ) (v : A) → i < length xs → get_elem? (set xs i v) i ≡ some v
  get_elem?-set_self [] i v h = elim h [ ]
  get_elem?-set_self (x ∷ xs) zero v h = refl
  get_elem?-set_self (x ∷ xs) (suc i) v h = get_elem?-set_self xs i v (omega arith)

  pub get_elem?-set_ne :
      (xs : List A) (i j : ℕ) (v : A) → i ≢ j → get_elem? (set xs i v) j ≡ get_elem? xs j
  get_elem?-set_ne [] i j v h = refl
  get_elem?-set_ne (x ∷ xs) zero zero v h = absurd (h refl)
  get_elem?-set_ne (x ∷ xs) zero (suc j) v h = refl
  get_elem?-set_ne (x ∷ xs) (suc i) zero v h = refl
  get_elem?-set_ne (x ∷ xs) (suc i) (suc j) v h = get_elem?-set_ne xs i j v (λ e. h (ap suc e))

  pub All-append {κ} :
      (P : A → Type κ) (front back : List A) → All P front → All P back → All P (front ++ back)
  All-append P [] back h k = k
  All-append P (a ∷ front) back (p, h) k = (p, All-append P front back h k)

  pub All-split {κ} :
      (P : A → Type κ) (front : List A) (x : A) (back : List A)
      → All P (front ++ x ∷ back)
      → All P front × P x × All P back
  All-split P [] x back (h, k) = (tt, h, k)
  All-split P (a ∷ front) x back (h, k) =
      let (f, p, b) = All-split P front x back k in ((h, f), p, b)

  pub All-imp {κ μ} :
      (P : A → Type κ) (Q : A → Type μ) (f : (x : A) → P x → Q x) (xs : List A)
      → All P xs
      → All Q xs
  All-imp P Q f [] h = tt
  All-imp P Q f (x ∷ xs) h = (f x h.0, All-imp P Q f xs h.1)

  pub All-Memᴰ {κ} : (P : A → Type κ) {x : A} (xs : List A) → All P xs → Memᴰ x xs → P x
  All-Memᴰ P [] h m = absurd (Memᴰ.not-nil m)
  All-Memᴰ P {x} (y ∷ xs) h m =
      ⊎_elim (λ e. rw e h.0) (λ t. All-Memᴰ P xs h.1 t) (Memᴰ.cases_cons m)

  pub Memᴰ-cons : (a x : A) (xs : List A) → Memᴰ a (x ∷ xs) ↔ ((a ≡ x) ⊎ Memᴰ a xs)
  Memᴰ-cons a x xs = (Memᴰ.cases_cons, ⊎_elim Memᴰ.head Memᴰ.tail)

  pub All-update_at {κ} :
      (P : A → Type κ) (f : A → A)
      → ((x : A) → P x → P (f x))
      → (xs : List A) (i : ℕ) → All P xs
      → All P (update_at xs i f)
  All-update_at P f step [] i h = h
  All-update_at P f step (x ∷ xs) zero (p, h) = (step x p, h)
  All-update_at P f step (x ∷ xs) (suc i) (p, h) = (p, All-update_at P f step xs i h)

  pub All-remove_at {κ} : (P : A → Type κ) (xs : List A) (i : ℕ) → All P xs → All P (remove_at xs i)
  All-remove_at P [] i h = h
  All-remove_at P (x ∷ xs) zero (p, h) = h
  All-remove_at P (x ∷ xs) (suc i) (p, h) = (p, All-remove_at P xs i h)

  pub select-cong :
      (p q : A → Bool) → ((x : A) → p x ≡ q x) → (xs : List A) → select p xs ≡ select q xs
  select-cong p q h [] = refl
  select-cong p q h (x ∷ xs) = rw (h x, select-cong p q h xs) refl

  -- A filter that every element passes.
  pub select_id : (p : A → Bool) (xs : List A) → All (λ x. p x ≡ true) xs → select p xs ≡ xs
  select_id p [] h = refl
  select_id p (x ∷ xs) (e, h) = rw (e, select_id p xs h) refl

  pub Memᴰ-select :
      (p : A → Bool) (x : A) (xs : List A) → Memᴰ x (select p xs) → Memᴰ x xs × (p x ≡ true)
  Memᴰ-select p x [] m = absurd (Memᴰ.not-nil m)
  Memᴰ-select p x (y ∷ xs) m = elim (Bool-cases (p y)) [
    | inl kept ↦
        ⊎_elim (λ e. (Memᴰ.head e, rw e kept))
          (λ t. let (i, q) = Memᴰ-select p x xs t in (Memᴰ.tail i, q))
          (Memᴰ.cases_cons (rw kept at m))
    | inr dropped ↦ let (i, q) = Memᴰ-select p x xs (rw dropped at m) in (Memᴰ.tail i, q)
  ]

  pub select_none : (p : A → Bool) (xs : List A) → All (λ x. p x ≡ false) xs → select p xs ≡ []
  select_none p [] h = refl
  select_none p (x ∷ xs) (e, h) = rw e (select_none p xs h)

  pub All-select {κ} :
      (P : A → Type κ) (p : A → Bool) (xs : List A) → All P xs → All P (select p xs)
  All-select P p [] h = h
  All-select P p (x ∷ xs) (k, h) = elim (Bool-cases (p x)) [
    | inl kept ↦ rw kept (k, All-select P p xs h)
    | inr dropped ↦ rw dropped (All-select P p xs h)
  ]

  pub Memᴰ-kept :
      (p : A → Bool) (x : A) (xs : List A) → p x ≡ true → Memᴰ x xs → Memᴰ x (select p xs)
  Memᴰ-kept p x [] k m = absurd (Memᴰ.not-nil m)
  Memᴰ-kept p x (y ∷ xs) k m = elim (Bool-cases (p y)) [
    | inl kept ↦
        rw kept
          (⊎_elim (λ e. Memᴰ.head e) (λ t. Memᴰ.tail (Memᴰ-kept p x xs k t)) (Memᴰ.cases_cons m))
    | inr dropped ↦ rw dropped (
        ⊎_elim (λ e. absurd (cc (sym k ∙ ap p e ∙ dropped))) (λ t. Memᴰ-kept p x xs k t)
          (Memᴰ.cases_cons m))
  ]

  -- What a filter leaves passes its test.
  pub select-passes : (p : A → Bool) (xs : List A) → All (λ x. p x ≡ true) (select p xs)
  select-passes p [] = tt
  select-passes p (x ∷ xs) = elim (Bool-cases (p x)) [
    | inl kept ↦ rw kept (kept, select-passes p xs)
    | inr dropped ↦ rw dropped (select-passes p xs)
  ]
