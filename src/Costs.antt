-- ===== src/Costs.antt =====
-- frontend/src/pages/CostDashboardPage.js: the budgets with their form. `parseFloat` is a parameter, as
-- the numbers of JavaScript that are not integers are not modelled; a cost is in the unit in which it
-- is rounded.
pub mod Breakdown
mod Tests
use wolkvorm.Base.{
  ℕ, List, [], ◌∷◌, ◌++◌, Option, none, some, Bool, true, false, not, ◌||◌, ◌==◌, text_eq,
  if◌then◌else◌, length, select, Text, codes,
}
use wolkvorm.Text.{is_nonempty}

pub record BudgetForm : Type 0 where
  pub name : Text
  pub scope : Text
  pub scope_value : Text
  pub monthly_limit : Text
  pub alert_threshold : Text

abbrev pub blank_form : BudgetForm
blank_form = record {
  name = [];
  scope = codes "global";
  scope_value = [];
  monthly_limit = [];
  alert_threshold = codes "80";
}

pub record Budget : Type 0 where
  pub id : Text
  pub name : Text
  pub over_budget : Bool

pub record Costs : Type 0 where
  pub budgets : List Budget
  pub show_budget_form : Bool
  pub budget_form : BudgetForm

unfoldable pub open_costs : Costs
open_costs = record { budgets = []; show_budget_form = false; budget_form = blank_form }

pub data Listing : Type 0 where
  listed : List Budget → Listing
  other_value failed : Listing

unfoldable pub fetch_budgets : Listing → Costs → Costs
fetch_budgets (listed bs) c = record c { budgets = bs }
fetch_budgets other_value c = record c { budgets = [] }
fetch_budgets failed c = c

-- The body of the request that makes a budget, over the numbers `N` of `parseFloat`.
pub record Body {ℓ} (N : Type ℓ) : Type ℓ where
  pub name : Text
  pub scope : Text
  pub scope_value : Text
  pub monthly_limit : N
  pub alert_threshold : N

unfoldable pub create_budget {ℓ} : {N : Type ℓ} → (Text → N) → Costs → Body N
create_budget parse_float c = record {
  name = c.budget_form.name;
  scope = c.budget_form.scope;
  scope_value = c.budget_form.scope_value;
  monthly_limit = parse_float c.budget_form.monthly_limit;
  alert_threshold = parse_float c.budget_form.alert_threshold;
}

unfoldable pub create_disabled : Costs → Bool
create_disabled c =
    not (is_nonempty c.budget_form.name) || not (is_nonempty c.budget_form.monthly_limit)

-- The rest of `createBudget`, once the server has answered.
unfoldable pub end_create : Costs → Costs
end_create c = record c { show_budget_form = false; budget_form = blank_form }

unfoldable pub toggle_form : Costs → Costs
toggle_form c = record c { show_budget_form = not c.show_budget_form }

unfoldable pub set_scope : Text → Costs → Costs
set_scope v c = record c { budget_form = record c.budget_form { scope = v } }

unfoldable pub set_scope_value : Text → Costs → Costs
set_scope_value v c = record c { budget_form = record c.budget_form { scope_value = v } }

unfoldable pub shows_scope_value : Costs → Bool
shows_scope_value c = not (c.budget_form.scope == codes "global")

-- The number of the card "Over Budget".
unfoldable pub over_budget : Costs → ℕ
over_budget c = length (select (λ b. b.over_budget) c.budgets)

-- What the row of a budget is for.
pub budget_scope : (scope scope_value : Text) → Text
budget_scope scope scope_value =
    scope ++ (if is_nonempty scope_value then codes ": " ++ scope_value else [])
