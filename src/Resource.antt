-- ===== src/Resource.antt =====
-- frontend/src/pages/ResourcePage.js: what the page does with a submitted form. Apply and destroy
-- wait for a confirmation; a plan starts at once.
pub mod Confirmed
pub mod Dialog
pub mod Environment
pub mod Flow
pub mod View
mod Tests
use wolkvorm.Base.{
  List, [], ◌∷◌, Option, none, some, Bool, true, false, ◌||◌, ◌==◌, text_eq, if◌then◌else◌, Text,
  codes,
}
use wolkvorm.Form.{Submission}

-- The page's state, with the argument of `onSubmit` that the dialog asks about; `started` are the arguments of the calls of `startOperation`, the last first.
pub record Page : Type 0 where
  pub region : Text
  pub env : Text
  pub confirm_action : Option Submission
  pub show_plan : Bool
  pub plan_modal_title : Option Text
  pub started : List Submission

unfoldable pub open_page : Page
open_page = record {
  region = codes "eu-central-1";
  env = codes "dev";
  confirm_action = none;
  show_plan = false;
  plan_modal_title = some (codes "Terraform Plan");
  started = [];
}

-- `titles[action]`
title_of : Text → Option Text
title_of action =
    if action == codes "plan"
    then some (codes "Terraform Plan")
    else if action == codes "apply"
    then some (codes "Terraform Apply")
    else if action == codes "destroy"
    then some (codes "Terraform Destroy")
    else none

unfoldable pub launch_op : Submission → Page → Page
unfolding title_of
launch_op l s = record s {
  plan_modal_title = title_of l.action;
  started = l ∷ s.started;
  show_plan = true;
}

unfoldable pub handle_submit : Submission → Page → Page
unfolding launch_op
handle_submit l s =
    let chosen = record s { region = l.region; env = l.env } in
    if l.action == codes "apply" || l.action == codes "destroy"
    then record chosen { confirm_action = some l }
    else if l.action == codes "plan"
    then launch_op l chosen
    else chosen

unfoldable pub handle_confirm_action : Page → Page
unfolding launch_op
handle_confirm_action s = elim s.confirm_action [
  | none ↦ s
  | some l ↦ launch_op l (record s { confirm_action = none })
]

-- The dialog's `onCancel`, and the `onClose` of the log window.
unfoldable pub cancel : Page → Page
cancel s = record s { confirm_action = none }

unfoldable pub close_plan : Page → Page
close_plan s = record s { show_plan = false }

pub data Event : Type 0 where
  submitted : Submission → Event
  confirmed : Event
  cancelled : Event
  closed : Event

unfoldable pub step : Event → Page → Page
unfolding handle_submit handle_confirm_action cancel close_plan
step (submitted l) s = handle_submit l s
step confirmed s = handle_confirm_action s
step cancelled s = cancel s
step closed s = close_plan s

-- The page after the events of a list, the last first.
unfoldable pub after : List Event → Page
unfolding step
after [] = open_page
after (e ∷ past) = step e (after past)
