-- ===== src/Dashboard.antt =====
-- frontend/src/pages/DashboardPage.js: the numbers of the dashboard. A quotient is exact here, where
-- JavaScript rounds it to 53 bits before `Math.round` does.
use native.Mathlib.Nat.{div-lt_iff_lt-mul}
use wolkvorm.Base.{
  ℕ, zero, suc, ◌+◌, ◌-◌, ◌*◌, ◌/◌, ◌≤◌, ◌<◌, Bool-cases, inl, inr, List, [], ◌∷◌, Option, none,
  some, text_eq, if◌then◌else◌, length, ltb, ◌≡◌, arith,
}

pub record Stats : Type 0 where
  pub total : ℕ
  pub success : ℕ
  pub errors : ℕ
  pub plans : ℕ
  pub applies : ℕ
  pub destroys : ℕ

-- `Math.round(a / b)` for natural numbers, `b` not 0
abbrev rounded : ℕ → ℕ → ℕ
rounded a b = (2 * a + b) / (2 * b)

unfoldable pub success_rate : Option Stats → ℕ
success_rate none = 0
success_rate (some s) = if ltb 0 s.total then rounded (s.success * 100) s.total else 0

-- `xs.slice(0, n)`
unfoldable pub first {ℓ} : {A : Type ℓ} → ℕ → List A → List A
first zero xs = []
first (suc n) [] = []
first (suc n) (x ∷ xs) = x ∷ first n xs

-- The history that is kept, from an answer that is a list.
unfoldable pub recent_history {ℓ} : {A : Type ℓ} → List A → List A
unfolding first
recent_history xs = first 10 xs

-- The types that are shown, and the number of the others, if there are any.
unfoldable pub mini_resources {ℓ} : {A : Type ℓ} → List A → List A × Option ℕ
unfolding first
mini_resources xs = (first 8 xs, if ltb 8 (length xs) then some (length xs - 8) else none)

abbrev more : Option ℕ → ℕ
more none = 0
more (some n) = n

length-first {ℓ} :
    {A : Type ℓ} (n : ℕ) (xs : List A) → length (first n xs) + (length xs - n) ≡ length xs
unfolding first
length-first zero xs = omega arith
length-first (suc n) [] = omega arith
length-first (suc n) (x ∷ xs) = omega (arith, length-first n xs)

-- The types that are shown and the "+n more" beside them are all the types.
pub mini_resources-length {ℓ} :
    {A : Type ℓ} (xs : List A)
    → length (mini_resources xs).0 + more (mini_resources xs).1 ≡ length xs
unfolding mini_resources
mini_resources-length xs = ground (arith, length-first 8 xs)

abbrev count_of : (Stats → ℕ) → Option Stats → ℕ
count_of f none = 0
count_of f (some s) = f s

-- The numbers of the four cards and of the three actions, in their order.
pub record Cards : Type 0 where
  pub total : ℕ
  pub success : ℕ
  pub errors : ℕ
  pub success_percent : ℕ
  pub plans : ℕ
  pub applies : ℕ
  pub destroys : ℕ

unfoldable pub cards : Option Stats → Cards
unfolding success_rate
cards o = record {
  total = count_of (λ s. s.total) o;
  success = count_of (λ s. s.success) o;
  errors = count_of (λ s. s.errors) o;
  success_percent = success_rate o;
  plans = count_of (λ s. s.plans) o;
  applies = count_of (λ s. s.applies) o;
  destroys = count_of (λ s. s.destroys) o;
}

rounded-le :
    (s : Stats) → s.success ≤ s.total → 0 < s.total → rounded (s.success * 100) s.total ≤ 100
rounded-le s h p =
    let below : rounded (s.success * 100) s.total < 101 =
      (div-lt_iff_lt-mul {k = 2 * s.total} (omega arith)).1 (omega arith) in
    omega (arith, below)

-- The rate is a percentage if no more runs succeeded than there were.
pub success_rate-le : (s : Stats) → s.success ≤ s.total → success_rate (some s) ≤ 100
unfolding success_rate
success_rate-le s h = elim (Bool-cases (ltb 0 s.total)) [
  | inl some_runs ↦ rw some_runs (rounded-le s h (ground arith))
  | inr no_runs ↦ rw no_runs (omega arith)
]
