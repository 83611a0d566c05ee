-- ===== src/Tab.antt =====
-- frontend/src/pages/ResourcePage.js inside OperationProvider of
-- frontend/src/contexts/OperationContext.js: `launchOp` of the page calls `startOperation`, whose
-- socket sends the request to the server when it opens.
pub mod Traced
pub mod Cleared
mod Tests
use Prim.Native.String.{String}
use wolkvorm.Base.{
  ℕ, List, [], ◌∷◌, ◌++◌, Option, none, some, ◌||◌, ◌==◌, text_eq, if◌then◌else◌, Bool, true, false,
  Text, codes, ◌≡◌,
}
use wolkvorm.Form.{Form, Submission, handle_submit as form_submit}
use wolkvorm.Form.Validate.{Field}
use wolkvorm.Form.Events.{changed, blurred, submitted, region_chosen, env_chosen, advanced_toggled}
use wolkvorm.Operations.{
  Operations, Request, Payload, payload, operation_id, start_operation, Event, IsOutside, handle,
}
use wolkvorm.Resource
use wolkvorm.Resource.Flow.{
  Flow, Happening, form_event, confirmed, cancelled, closed, step, open_flow,
}

-- `opening` holds what the sockets that are not open yet will send, and `sent` what has been sent,
-- the last first; `active_op` is `activeOpRef.current`.
pub record Tab : Type 0 where
  pub flow : Flow
  pub operations : Operations
  pub active_op : Option String
  pub opening : List Payload
  pub sent : List Payload

abbrev direct : Option Submission → Option Submission
direct none = none
direct (some l) =
    if l.action == codes "apply" || l.action == codes "destroy"
    then none
    else if l.action == codes "plan"
    then some l
    else none

-- What `launchOp` is called with when something happens on the page, if it is called.
unfoldable pub launched : List Field → Flow → Happening → Option Submission
unfolding direct
launched inputs s (form_event (submitted action)) = direct (form_submit inputs action s.form).1
launched inputs s (form_event (changed name v)) = none
launched inputs s (form_event (blurred name)) = none
launched inputs s (form_event (region_chosen r)) = none
launched inputs s (form_event (env_chosen e)) = none
launched inputs s (form_event advanced_toggled) = none
launched inputs s confirmed = s.page.confirm_action
launched inputs s cancelled = none
launched inputs s closed = none

-- The request says what the launch says; its texts are the same as `String`s.
pub record IsRequestOf (l : Submission) (r : Request) : Type 0 where
  pub action : codes r.action ≡ l.action
  pub inputs : r.inputs ≡ l.inputs
  pub region : codes r.region ≡ l.region
  pub env : codes r.env ≡ l.env

unfoldable pub open_tab : List Field → Form → Tab
open_tab inputs f = record {
  flow = open_flow inputs f;
  operations = record { operations = []; ws_refs = [] };
  active_op = none;
  opening = [];
  sent = [];
}

unfoldable pub launch : Request → (now later : ℕ) (connected : Bool) → Flow → Tab → Tab
launch r now later connected f s = record s {
  flow = f;
  operations = start_operation r now later connected s.operations;
  active_op = some (operation_id r now);
  opening = if connected then payload r ∷ s.opening else s.opening;
}

module _ (inputs : List Field) where
  -- What can happen next, with what happens on the page, if it is there: something that launches
  -- nothing, or that launches an operation; a socket opens; or an event of the provider.
  pub data Step (s : Tab) : Option Happening → Tab → Type 0 where
    on_page :
        (h : Happening)
        → launched inputs s.flow h ≡ none
        → Step s (some h) (record s { flow = step inputs s.flow h })
    on_launch :
        (h : Happening) (l : Submission) (r : Request) (now later : ℕ) (connected : Bool)
        → launched inputs s.flow h ≡ some l
        → IsRequestOf l r
        → Step s (some h) (launch r now later connected (step inputs s.flow h) s)
    on_open :
        (before : List Payload) (p : Payload) (after : List Payload)
        → s.opening ≡ before ++ p ∷ after
        → Step s none (record s { opening = before ++ after; sent = p ∷ s.sent })
    on_event :
        (e : Event) → IsOutside e → Step s none (record s { operations = handle e s.operations })
