-- ===== src/Resource/View.antt =====
-- frontend/src/pages/ResourcePage.js: what the page loads and shows around the form, with the operation
-- that its log window follows.
use wolkvorm.Base.{
  List, [], ◌∷◌, ◌++◌, Option, none, some, Bool, true, false, not, ◌&&◌, ◌==◌, text_eq,
  if◌then◌else◌, Text, codes,
}
use wolkvorm.Text.{is_nonempty}
use wolkvorm.Form.{Values}
use wolkvorm.Resource.{Page}
use wolkvorm.MyResources.{Outputs, Download, handle_download_outputs, no_outputs}

-- A resource that is edited, as the server describes it.
pub record Editing : Type 0 where
  pub id : Text
  pub name : Text
  pub inputs : Option Values
  pub region : Text
  pub env : Text
  pub outputs : Option Outputs

pub record Estimate : Type 0 where
  pub available : Bool
  pub error : Text

-- A run in the history, by what the page reads of it.
pub record PlanDetail : Type 0 where
  pub logs : Text
  pub schema_name : Text
  pub env : Text
  pub created_at : Text

pub record View : Type 0 where
  pub page : Page
  pub values : Values
  pub logs : Text
  pub has_schema : Bool
  pub repos : List Text
  pub selected_repo : Text
  pub history : List Text
  pub expanded_plan : Option Text
  pub editing : Option Editing
  pub cost_estimate : Option Estimate
  pub cost_loading : Bool

-- The effect that reads the default region; an empty one is not set.
unfoldable pub load_region : Text → View → View
load_region r v = if is_nonempty r then record v { page = record v.page { region = r } } else v

abbrev or_values : Option Values → Values
or_values none = []
or_values (some vs) = vs

abbrev or_text : Text → Text → Text
or_text [] old = old
or_text (c ∷ t) old = c ∷ t

-- The effect that loads the resource to edit; an answer without `id` is not taken.
unfoldable pub load_resource : Editing → View → View
load_resource e v =
    if is_nonempty e.id
    then record v {
      editing = some e;
      values = or_values e.inputs;
      page = record v.page {
        region = or_text e.region v.page.region;
        env = or_text e.env v.page.env;
      };
    }
    else v

-- The answer with the repositories: under `repositories`, as a list, or anything else.
pub data Repos : Type 0 where
  named listed : List Text → Repos
  other_value : Repos

unfoldable pub load_repos : Repos → View → View
load_repos (named rs) v = record v { repos = rs }
load_repos (listed rs) v = record v { repos = rs }
load_repos other_value v = v

-- The effect that loads the schema, if its answer comes; before it the page only says that it loads.
unfoldable pub load_schema : View → View
load_schema v = record v { has_schema = true }

unfoldable pub select_repo : Text → View → View
select_repo repo v = record v { selected_repo = repo }

-- `fetchHistory`: its answer is a list, another value, or a failure.
pub data History : Type 0 where
  runs : List Text → History
  other_history failed : History

unfoldable pub fetch_history : History → View → View
fetch_history (runs ps) v = record v { history = ps }
fetch_history other_history v = record v { history = [] }
fetch_history failed v = v

-- `viewPlanDetail`, once its answer is there.
unfoldable pub view_plan_detail : PlanDetail → View → View
view_plan_detail d v = record v {
  logs = d.logs;
  page = record v.page {
    plan_modal_title =
        some
          (codes "Plan: " ++ d.schema_name ++ codes " (" ++ d.env ++ codes ") - " ++ d.created_at);
    show_plan = true;
  };
}

-- The row of a run in the history.
unfoldable pub toggle_plan : Text → View → View
toggle_plan id v = elim v.expanded_plan [
  | none ↦ record v { expanded_plan = some id }
  | some other ↦ record v { expanded_plan = if other == id then none else some id }
]

-- `handleDownloadOutputs`, which the page has as the list of resources has it.
unfoldable pub download_outputs : View → Download
download_outputs v = elim v.editing [
  | none ↦ no_outputs
  | some e ↦ handle_download_outputs e.name e.outputs
]

-- "Fetch Outputs": an answer with its `error`, or the outputs. The alert is the second result.
pub data Refreshed : Type 0 where
  outputs : Outputs → Refreshed
  refused broken : (error : Text) → Refreshed

-- `seen` is the resource of the rendering whose button was pressed.
unfoldable pub refresh_outputs : Editing → Refreshed → View → View × Option Text
refresh_outputs seen (outputs m) v =
    (record v { editing = some (record seen { outputs = some m }) }, none)
refresh_outputs seen (refused e) v = (v, some (codes "Error: " ++ e))
refresh_outputs seen (broken e) v = (v, some (codes "Failed: " ++ e))

-- "Estimate Cost", and its answer; a failure has one of its own.
unfoldable pub start_estimate : View → View
start_estimate v = record v { cost_loading = true; cost_estimate = none }

unfoldable pub end_estimate : Option Estimate → View → View
end_estimate none v = record v {
  cost_estimate = some (record { available = false; error = codes "Request failed" });
  cost_loading = false;
}
end_estimate (some e) v = record v { cost_estimate = some e; cost_loading = false }

-- The form's `onRegionChange`, `onEnvChange` and `onChange`.
unfoldable pub on_region_change : Text → View → View
on_region_change r v = record v { page = record v.page { region = r }; cost_estimate = none }

unfoldable pub on_env_change : Text → View → View
on_env_change e v = record v { page = record v.page { env = e } }

unfoldable pub on_change : Values → View → View
on_change vs v = record v { values = vs }

-- What the page reads of the operation that it follows: its logs, and whether it is running.
abbrev pub ActiveOp : Type 0
ActiveOp = Text × Bool

unfoldable pub display_logs : Option ActiveOp → View → Text
display_logs none v = v.logs
display_logs (some op) v = op.0

unfoldable pub is_running : Option ActiveOp → Bool
is_running none = false
is_running (some op) = op.1

-- Whether the history is fetched again in a rendering: the operation was running in the one before.
unfoldable pub refreshes_history : (before now : Option ActiveOp) → Bool
refreshes_history before none = false
refreshes_history none (some op) = false
refreshes_history (some old) (some op) = old.1 && not op.1
