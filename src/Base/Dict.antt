-- ===== src/Base/Dict.antt =====
-- A JavaScript object that serves as a map, as the list of its own properties in insertion order.
-- The order of keys that are array indices, which JavaScript lists first, is not modelled.
use mathlib.Core.Path.{◌≡◌, refl}
use mathlib.Core.Logic.{◌≢◌, inl, inr}
use mathlib.Core.Option.{Option, none, some}
use mathlib.Core.List.{List, [], ◌∷◌, ◌++◌, map}
use native.Mathlib.Omega.{arith}
use wolkvorm.Base.Tests.{if◌then◌else◌, Bool-cases}
use wolkvorm.Base.Lists.{All}
use wolkvorm.Base.Equality.{Eq, ◌==◌, ==-iff}

module _ {ℓ κ} {K : Type ℓ} {V : Type κ} ⦃e : Eq K⦄ where
  -- `m[k]`
  unfoldable pub get : K → List (K × V) → Option V
  get k [] = none
  get k ((j, v) ∷ m) = if j == k then some v else get k m

  -- `{ ...m, [k]: v }`, and `m[k] = v`
  unfoldable pub put : K → V → List (K × V) → List (K × V)
  put k v [] = (k, v) ∷ []
  put k v ((j, w) ∷ m) = if j == k then (k, v) ∷ m else (j, w) ∷ put k v m

  -- `delete m[k]`
  unfoldable pub remove : K → List (K × V) → List (K × V)
  remove k [] = []
  remove k ((j, w) ∷ m) = if j == k then remove k m else (j, w) ∷ remove k m

  -- `Object.keys(m)`
  unfoldable pub keys : List (K × V) → List K
  keys m = map (λ p. p.0) m

  pub get-put :
      (k j : K) (v : V) (m : List (K × V))
      → get j (put k v m) ≡ (if k == j then some v else get j m)
  unfolding get put
  get-put k j v [] = refl
  get-put k j v ((i, w) ∷ m) = ground (arith, ==-iff k j, ==-iff i k, ==-iff i j, get-put k j v m)

  pub get-remove :
      (k j : K) (m : List (K × V)) → get j (remove k m) ≡ (if k == j then none else get j m)
  unfolding get remove
  get-remove k j [] = ground arith
  get-remove k j ((i, w) ∷ m) = ground (arith, ==-iff k j, ==-iff i k, ==-iff i j, get-remove k j m)

  pub get-append :
      (k : K) (m n : List (K × V))
      → get k (m ++ n) ≡ elim (get k m) [ none ↦ get k n | some v ↦ some v ]
  unfolding get
  get-append k [] n = refl
  get-append k ((j, v) ∷ m) n = ground (arith, get-append k m n)

  pub put-ne-nil : (k : K) (v : V) (m : List (K × V)) → put k v m ≢ []
  unfolding put
  put-ne-nil k v [] = ground arith
  put-ne-nil k v ((j, w) ∷ m) = ground arith

module _ {ℓ κ μ} {K : Type ℓ} {V : Type κ} ⦃e : Eq K⦄ (P : K × V → Type μ) where
  pub All-put : (k : K) (v : V) (m : List (K × V)) → P (k, v) → All P m → All P (put k v m)
  unfolding put
  All-put k v [] p h = (p, tt)
  All-put k v ((j, w) ∷ m) p h = elim (Bool-cases (j == k)) [
    | inl same ↦ rw same (p, h.1)
    | inr other ↦ rw other (h.0, All-put k v m p h.1)
  ]

  pub All-get : (k : K) (v : V) (m : List (K × V)) → get k m ≡ some v → All P m → P (k, v)
  unfolding get
  All-get k v [] q h = cc
  All-get k v ((j, w) ∷ m) q h = elim (Bool-cases (j == k)) [
    | inl same ↦
        let j_eq = (==-iff j k).0 same in let w_eq : w ≡ v = ground arith in rw (← j_eq, ← w_eq) h.0
    | inr other ↦ All-get k v m (ground arith) h.1
  ]
