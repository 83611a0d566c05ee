-- ===== src/PlanWindow/Completion.antt =====
-- frontend/src/components/PlanModal.js: the banner that says how an operation ended.
use wolkvorm.Base.{
  ℕ, zero, suc, List, [], ◌∷◌, ◌++◌, Option, none, some, Bool, true, false, not, ◌&&◌, ◌||◌,
  if◌then◌else◌, eqb, Text, codes,
}
use wolkvorm.Text.{trim_start, includes}
use wolkvorm.Text.Pattern.{Item, word, digits, match_first, strip, run}
use wolkvorm.PlanWindow.{plan_pattern, fold_all}

pub data Kind : Type 0 where
  success info error : Kind

pub record Completion : Type 0 where
  pub kind : Kind
  pub title : Text
  pub detail : Text

-- `/Apply complete! Resources: (\d+) added, (\d+) changed, (\d+) destroyed/`
abbrev pub apply_pattern : List Item
apply_pattern =
    word (codes "Apply complete! Resources: ")
    ∷ digits
    ∷ word (codes " added, ")
    ∷ digits
    ∷ word (codes " changed, ")
    ∷ digits
    ∷ word (codes " destroyed")
    ∷ []

-- `/Destroy complete! Resources: (\d+) destroyed/`
abbrev pub destroy_pattern : List Item
destroy_pattern =
    word (codes "Destroy complete! Resources: ") ∷ digits ∷ word (codes " destroyed") ∷ []

unfoldable pub apply_done : Option (List Text) → Option Completion → Option Completion
apply_done (some (a ∷ b ∷ c ∷ [])) other = some (record {
  kind = success;
  title = codes "Apply Completed Successfully";
  detail = a ++ codes " added, " ++ b ++ codes " changed, " ++ c ++ codes " destroyed";
})
apply_done groups other = other

unfoldable pub destroy_done : Option (List Text) → Option Completion → Option Completion
destroy_done (some (a ∷ [])) other = some (record {
  kind = success;
  title = codes "Destroy Completed Successfully";
  detail = a ++ codes " resources destroyed";
})
destroy_done groups other = other

plan_done : Option (List Text) → Option Completion → Option Completion
plan_done (some (a ∷ b ∷ c ∷ [])) other = some (record {
  kind = info;
  title = codes "Plan Completed";
  detail = a ++ codes " to add, " ++ b ++ codes " to change, " ++ c ++ codes " to destroy";
})
plan_done groups other = other

-- The units that `.` does not match.
ends_line : ℕ → Bool
ends_line c = eqb c b'\n' || eqb c b'\r' || eqb c 0x2028 || eqb c 0x2029

-- The last unit of a blank text that `.` matches: where `\s*` leaves nothing else, it gives this one
-- back.
last_blank : Text → Option Text
unfolding ends_line
last_blank [] = none
last_blank (c ∷ t) = elim (last_blank t) [
  | some u ↦ some u
  | none ↦ if ends_line c then none else some (c ∷ [])
]

-- `\s*(.+)` on what follows `Error:`
after_error : Text → Text → Option Text
unfolding last_blank ends_line run
after_error t [] = last_blank t
after_error t (c ∷ rest) = some (run (λ d. not (ends_line d)) (c ∷ rest))

-- `logs.match(/Error:\s*(.+)/)`
error_match : Text → Option Text
unfolding after_error strip trim_start
error_match [] = none
error_match (c ∷ s) = elim (strip (codes "Error:") (c ∷ s)) [
  | none ↦ error_match s
  | some t ↦ elim (after_error t (trim_start t)) [ none ↦ error_match s | some u ↦ some u ]
]

-- `s.substring(0, n)`
abbrev first_units : ℕ → Text → Text
first_units zero s = []
first_units (suc n) [] = []
first_units (suc n) (c ∷ s) = c ∷ first_units n s

error_detail : Option Text → Text
error_detail none = codes "Check logs above for details"
error_detail (some u) = first_units 120 u

-- `logs.match(/Error:/i)`
has_error : Text → Bool
unfolding fold_all
has_error logs = includes (fold_all logs) (codes "error:")

no_changes_done : Bool → Option Completion → Option Completion
no_changes_done true other = some (record {
  kind = info;
  title = codes "No Changes Required";
  detail = codes "Infrastructure is up-to-date";
})
no_changes_done false other = other

error_done : Bool → Option Text → Option Completion
unfolding error_detail
error_done true found =
    some (record { kind = error; title = codes "Operation Failed"; detail = error_detail found })
error_done false found = none

-- What the output says if it reports no complete apply and no complete destroy.
unfoldable pub other_status : Text → Option Completion
unfolding plan_done has_error no_changes_done error_done error_match
other_status logs =
    let failed =
      error_done (has_error logs || includes logs (codes "exit status 1")) (error_match logs) in
    let same = no_changes_done (includes logs (codes "No changes")) failed in
    if includes logs (codes "Plan:") && not (has_error logs)
    then plan_done (match_first plan_pattern logs) same
    else same

-- The end of an operation that is not running, from output that is not empty.
unfoldable pub status_of : Text → Option Completion
unfolding apply_done destroy_done
status_of logs =
    let destroyed = destroy_done (match_first destroy_pattern logs) (other_status logs) in
    apply_done (match_first apply_pattern logs) destroyed

-- `completionStatus`
unfoldable pub completion_status : Bool → Text → Option Completion
unfolding status_of
completion_status is_running [] = none
completion_status is_running (c ∷ s) = if is_running then none else status_of (c ∷ s)

-- What stands in the head of the window beside the title.
pub data Progress : Type 0 where
  running failed completed unknown : Progress

unfoldable pub progress : Bool → Option Completion → Progress
progress true status = running
progress false none = unknown
progress false (some s) = elim s.kind [ error ↦ failed | _ ↦ completed ]
