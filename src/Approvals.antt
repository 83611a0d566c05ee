-- ===== src/Approvals.antt =====
-- frontend/src/pages/ApprovalsPage.js: the approvals by their status, and the two buttons of one that
-- waits.
mod Tests
use wolkvorm.Base.{
  ℕ, List, [], ◌∷◌, ◌++◌, Option, none, some, Bool, true, false, not, ◌&&◌, ◌||◌, ◌==◌, text_eq,
  if◌then◌else◌, length, ltb, get, put, Text, codes,
}
use wolkvorm.Text.{is_nonempty}

pub record Approval : Type 0 where
  pub id : Text
  pub status : Text
  pub action : Text
  pub resource_name : Text
  pub plan_output : Text
  pub reviewed_by : Text
  pub review_note : Text
  pub reviewed_at : Text

pub record Message : Type 0 where
  pub success : Bool
  pub text : Text

pub record Approvals : Type 0 where
  pub approvals : List Approval
  pub status_filter : Text
  pub review_note : List (Text × Text)
  pub expanded_id : Option Text
  pub action_msg : Option Message

unfoldable pub open_approvals : Approvals
open_approvals = record {
  approvals = [];
  status_filter = codes "pending";
  review_note = [];
  expanded_id = none;
  action_msg = none;
}

-- What `fetchApprovals` asks for: the parameters after the path.
unfoldable pub approvals_params : Approvals → Text
approvals_params s = if is_nonempty s.status_filter then codes "?status=" ++ s.status_filter else []

-- Its answer: the `approvals` of the data, which count as none if they are missing, or a failure.
unfoldable pub fetch_approvals : Option (Option (List Approval)) → Approvals → Approvals
fetch_approvals none s = s
fetch_approvals (some none) s = record s { approvals = [] }
fetch_approvals (some (some xs)) s = record s { approvals = xs }

unfoldable pub set_status_filter : Text → Approvals → Approvals
set_status_filter v s = record s { status_filter = v }

unfoldable pub set_review_note : Text → Text → Approvals → Approvals
set_review_note id note s = record s { review_note = put id note s.review_note }

abbrev or_empty : Option Text → Text
or_empty none = []
or_empty (some t) = t

-- `handleAction`: the note that it sends, and what its answer does before the approvals are fetched
-- again: data with or without a `message`, or a failure.
unfoldable pub note_of : Text → Approvals → Text
note_of id s = or_empty (get id s.review_note)

pub data Reply : Type 0 where
  answered : (message : Text) → Reply
  failed : (error : Text) → Reply

unfoldable pub end_action : Reply → Approvals → Approvals
end_action (answered message) s =
    if is_nonempty message
    then record s { action_msg = some (record { success = true; text = message }) }
    else s
end_action (failed error) s = record s {
  action_msg = some (record { success = false; text = codes "Action failed: " ++ error });
}

-- Five seconds after a message.
unfoldable pub end_message : Approvals → Approvals
end_message s = record s { action_msg = none }

abbrev is_expanded : Option Text → Text → Bool
is_expanded none id = false
is_expanded (some other) id = other == id

-- The button of the plan's output.
unfoldable pub toggle_expanded : Text → Approvals → Approvals
toggle_expanded id s = record s {
  expanded_id = if is_expanded s.expanded_id id then none else some id;
}

-- What stands in a card below the plan.
pub data Actions : Type 0 where
  review_buttons no_permission reviewed nothing : Actions

unfoldable pub actions : Bool → Approval → Actions
actions can_approve a =
    if a.status == codes "pending"
    then if can_approve then review_buttons else no_permission
    else if is_nonempty a.reviewed_by
    then reviewed
    else nothing

-- The filters, and the number that stands beside one.
unfoldable pub filters : List Text
filters = codes "pending" ∷ codes "approved" ∷ codes "rejected" ∷ [] ∷ []

unfoldable pub badge : Text → Approvals → Option ℕ
badge status s =
    if status == codes "pending" && ltb 0 (length s.approvals)
    then some (length s.approvals)
    else none
