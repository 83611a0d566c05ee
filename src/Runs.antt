-- ===== src/Runs.antt =====
-- How a run of terraform is shown: the history of frontend/src/pages/ResourcePage.js and the recent
-- activity of frontend/src/pages/DashboardPage.js. A text that is missing is empty.
use wolkvorm.Base.{
  List, [], ◌∷◌, ◌++◌, map, Option, none, some, Bool, false, ◌==◌, text_eq, if◌then◌else◌, Text,
  codes, ◌≡◌, ◌↔◌, refl, ==-iff, Bool-cases, inl, inr,
}
use wolkvorm.Text.{is_nonempty}

pub record Run : Type 0 where
  pub id : Text
  pub schema_id : Text
  pub schema_name : Text
  pub env : Text
  pub action : Text
  pub status : Text
  pub duration : Text
  pub created_at : Text
  pub logs : Text

-- The colors, by the theme's name for each; `green` stands for #22c55e.
pub data Tint : Type 0 where
  success primary danger green : Tint

unfoldable pub status_tint : Text → Tint
status_tint status =
    if status == codes "success"
    then success
    else if status == codes "running"
    then primary
    else danger

unfoldable pub action_tint : Text → Tint
action_tint action =
    if action == codes "destroy" then danger else if action == codes "apply" then green else primary

unfoldable pub status_label : Text → Text
status_label status =
    if status == codes "running"
    then codes "Running"
    else if status == codes "success"
    then codes "Success"
    else codes "Error"

abbrev shown_if : Text → Option Text
shown_if t = if is_nonempty t then some t else none

abbrev action_badge : Text → Option (Text × Tint)
action_badge action = if is_nonempty action then some (action, action_tint action) else none

-- A row of the history; `logs` are there in the row that is open.
pub record HistoryRow : Type 0 where
  pub label : Text
  pub tint : Tint
  pub action : Option (Text × Tint)
  pub name : Text
  pub env : Text
  pub duration : Option Text
  pub time : Text
  pub logs : Option Text

-- `expandedPlan === plan.id`
is_expanded : Option Text → Text → Bool
is_expanded none id = false
is_expanded (some open_id) id = open_id == id

pub history_row : Option Text → Run → HistoryRow
unfolding status_label status_tint is_expanded
history_row expanded r = record {
  label = status_label r.status;
  tint = status_tint r.status;
  action = action_badge r.action;
  name = r.schema_name;
  env = r.env;
  duration = shown_if r.duration;
  time = r.created_at;
  logs = if is_expanded expanded r.id then some r.logs else none;
}

-- The history, if there is one.
unfoldable pub history : Option Text → List Run → Option (List HistoryRow)
unfolding history_row
history expanded [] = none
history expanded (r ∷ rs) = some (map (history_row expanded) (r ∷ rs))

-- An item of the recent activity, with the address of its link.
pub record Activity : Type 0 where
  pub status : Text
  pub tint : Tint
  pub action : Option (Text × Tint)
  pub name : Text
  pub link : Text
  pub env : Text
  pub duration : Option Text
  pub time : Text

unfoldable pub activity : Run → Activity
unfolding status_tint
activity r = record {
  status = r.status;
  tint = status_tint r.status;
  action = action_badge r.action;
  name = r.schema_name;
  link = codes "/resource/" ++ r.schema_id;
  env = r.env;
  duration = shown_if r.duration;
  time = r.created_at;
}

status_tint-danger :
    (status : Text) → (status_tint status ≡ danger) ↔ (status_label status ≡ codes "Error")
unfolding status_tint status_label
status_tint-danger status = elim (Bool-cases (status == codes "success")) [
  | inl good ↦
      let same = (==-iff status (codes "success")).0 good in
      rw same (λ e. cc, λ e. cc ((==-iff (codes "Success") (codes "Error")).1 e))
  | inr bad ↦ elim (Bool-cases (status == codes "running")) [
    | inl runs ↦ rw (bad, runs) (λ e. cc, λ e. cc ((==-iff (codes "Running") (codes "Error")).1 e))
    | inr stopped ↦ rw (bad, stopped) (λ e. refl, λ e. refl)
  ]
]

-- The history and the dashboard show a run in the same colors, and in that of a failure exactly if
-- its label in the history is "Error".
pub history_row-activity :
    (expanded : Option Text) (r : Run)
    → ((history_row expanded r).tint ≡ (activity r).tint)
      × ((history_row expanded r).action ≡ (activity r).action)
      × (((activity r).tint ≡ danger) ↔ ((history_row expanded r).label ≡ codes "Error"))
unfolding history_row activity
history_row-activity expanded r = (refl, refl, status_tint-danger r.status)
