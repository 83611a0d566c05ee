-- ===== src/Costs/Breakdown.antt =====
-- The summary of the costs of frontend/src/pages/CostDashboardPage.js: the bars of the environments
-- and the rows of the resource types. Costs are JavaScript's numbers (Base/Float); JSON has no NaN,
-- so that none of them is NaN.
use mathlib.Core.List.{Perm}
use wolkvorm.Base.{
  List, [], ◌∷◌, map, Option, none, some, Bool, true, false, not, if◌then◌else◌, Text, All, All-imp,
  ◌≡◌, arith,
}
use wolkvorm.Base.Float.{Float, IsRounded}
use wolkvorm.Base.Sorting.{sort_by, IsSorted, sort_by-perm, sort_by-IsSorted}

module _ {ℓ} {N : Type ℓ} ⦃f : Float N⦄ where
  higher : N → N → N
  higher x m = if f.lt m x then x else m

  -- `Math.max(...xs, last)`
  unfoldable pub math_max : List N → N → N
  unfolding higher
  math_max [] last = last
  math_max (x ∷ xs) last = higher x (math_max xs last)

  -- `summary?.by_env ? Math.max(...Object.values(summary.by_env), 1) : 1`
  unfoldable pub max_cost_env : Option (List (Text × N)) → N
  unfolding math_max
  max_cost_env none = f.numeral 1
  max_cost_env (some by_env) = math_max (map (λ e. e.1) by_env) (f.numeral 1)

  bar_of : N → Text × N → Text × N
  bar_of most (env, cost) = (env, f.times (f.over cost most) (f.numeral 100))

  -- The environments, each with the width of its bar in percent.
  unfoldable pub bars : Option (List (Text × N)) → List (Text × N)
  unfolding bar_of max_cost_env
  bars none = []
  bars (some by_env) = map (bar_of (max_cost_env (some by_env))) by_env

  -- `b[1] - a[1]` is above 0 at `a` and `b`.
  abbrev pub is_cheaper : Text × N → Text × N → Bool
  is_cheaper a b = f.lt a.1 b.1

  unfoldable pub schema_rows : Option (List (Text × N)) → List (Text × N)
  unfolding sort_by
  schema_rows none = []
  schema_rows (some by_schema) = sort_by is_cheaper by_schema

  -- `Math.min(b.percentage || 0, 100)`, where a missing percentage is 0.
  unfoldable pub budget_width : N → N
  budget_width percentage = if f.lt percentage (f.numeral 100) then percentage else f.numeral 100

  -- Whether the bar of a budget has the color of danger.
  pub is_alerting : (percentage alert_threshold : N) → Bool
  is_alerting percentage alert_threshold = not (f.lt percentage alert_threshold)

  module _ (r : IsRounded N) where
    higher-left : (x m : N) → f.lt (higher x m) x ≡ false
    unfolding higher
    higher-left x m = ground (arith, r.lt_irrefl x)

    higher-right : (x m y : N) → f.lt m y ≡ false → f.lt (higher x m) y ≡ false
    unfolding higher
    higher-right x m y h = ground (arith, r.lt_asym m x, r.not_lt_trans x m y)

    -- Every argument of `Math.max` is at most its result.
    math_max-last : (xs : List N) (last : N) → f.lt (math_max xs last) last ≡ false
    unfolding math_max
    math_max-last [] last = r.lt_irrefl last
    math_max-last (x ∷ xs) last = higher-right x (math_max xs last) last (math_max-last xs last)

    math_max-bounds : (xs : List N) (last : N) → All (λ x. f.lt (math_max xs last) x ≡ false) xs
    unfolding math_max
    math_max-bounds [] last = tt
    math_max-bounds (x ∷ xs) last = (
      higher-left x (math_max xs last),
      All-imp (λ y. f.lt (math_max xs last) y ≡ false)
          (λ y. f.lt (math_max (x ∷ xs) last) y ≡ false) (λ y. higher-right x (math_max xs last) y)
          xs (math_max-bounds xs last),
    )

    bar_of-bound :
        (most : N) (env : Text) (cost : N)
        → f.lt (f.numeral 0) most ≡ true
        → f.lt most cost ≡ false
        → f.lt (f.numeral 100) (bar_of most (env, cost)).1 ≡ false
    unfolding bar_of
    bar_of-bound most env cost positive below =
        let ratio : f.lt (f.numeral 1) (f.over cost most) ≡ false =
          rw (r.over_self most positive) at (r.over_mono cost most most positive below) in
        rw r.one_times at (r.times_mono (f.over cost most) (f.numeral 1) ratio)

    bars_of-bound :
        (most : N) (es : List (Text × N))
        → f.lt (f.numeral 0) most ≡ true
        → All (λ x. f.lt most x ≡ false) (map (λ e. e.1) es)
        → All (λ b. f.lt (f.numeral 100) b.1 ≡ false) (map (bar_of most) es)
    bars_of-bound most [] positive h = tt
    bars_of-bound most ((env, cost) ∷ es) positive (h, k) =
        (bar_of-bound most env cost positive h, bars_of-bound most es positive k)

    -- If the numbers have the order and the rounding of IEEE 754 (`IsRounded`), then no bar is wider than
    -- 100 percent: neither that of the cost of an environment, even where the
    -- costs are below 1 or 0, nor that of a budget, even where more than its limit is spent.
    pub bars-bound :
        (by_env : Option (List (Text × N))) (percentage : N)
        → All (λ b. f.lt (f.numeral 100) b.1 ≡ false) (bars by_env)
          × (f.lt (f.numeral 100) (budget_width percentage) ≡ false)
    unfolding bars budget_width max_cost_env
    bars-bound none percentage =
        (tt, ground (arith, r.lt_asym percentage (f.numeral 100), r.lt_irrefl (f.numeral 100)))
    bars-bound (some by_env) percentage =
        let costs = map (λ e. e.1) by_env in
        let positive =
          r.lt-of_lt-not_lt (f.numeral 0) (f.numeral 1) (math_max costs (f.numeral 1))
            r.one_positive (math_max-last costs (f.numeral 1)) in
        (
          bars_of-bound (math_max costs (f.numeral 1)) by_env positive
              (math_max-bounds costs (f.numeral 1)),
          ground (arith, r.lt_asym percentage (f.numeral 100), r.lt_irrefl (f.numeral 100)),
        )

    -- The rows are the resource types with their costs, the most expensive first.
    pub schema_rows-IsSorted :
        (by_schema : List (Text × N))
        → Perm (schema_rows (some by_schema)) by_schema
          × IsSorted is_cheaper (schema_rows (some by_schema))
    unfolding schema_rows
    schema_rows-IsSorted by_schema = (
      sort_by-perm is_cheaper by_schema,
      sort_by-IsSorted is_cheaper (λ a b. r.lt_asym a.1 b.1) (λ a b c. r.not_lt_trans a.1 b.1 c.1)
          by_schema,
    )
