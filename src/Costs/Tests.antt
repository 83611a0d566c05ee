-- ===== src/Costs/Tests.antt =====
-- A budget that was for an environment and is made global keeps the name of the environment.
use wolkvorm.Base.{ℕ, List, [], ◌∷◌, some, false, ltb, Text, codes, All, ◌≡◌, refl}
use wolkvorm.Base.Float.{whole_float, ℕ-IsRounded}
use wolkvorm.Costs.Breakdown.{bars, schema_rows, budget_width, bars-bound}
use wolkvorm.Costs.{Costs, open_costs, create_budget, set_scope, set_scope_value}

abbrev number : Text → Text
number t = t

abbrev changed_back : Costs
changed_back =
    set_scope (codes "global") (set_scope_value (codes "prod") (set_scope (codes "env") open_costs))

kept_value : (create_budget number changed_back).scope_value ≡ codes "prod"
unfolding create_budget set_scope set_scope_value open_costs
kept_value = refl

abbrev by_env : List (Text × ℕ)
by_env = (codes "dev", 50) ∷ (codes "prod", 200) ∷ (codes "old", 0) ∷ []

rows_sorted :
    schema_rows (some by_env) ≡ (codes "prod", 200) ∷ (codes "dev", 50) ∷ (codes "old", 0) ∷ []
unfolding schema_rows
rows_sorted = refl

bars-bound_example :
    All (λ b. ltb 100 b.1 ≡ false) (bars (some by_env)) × (ltb 100 (budget_width 130) ≡ false)
bars-bound_example = bars-bound ℕ-IsRounded (some by_env) 130
