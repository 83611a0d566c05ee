-- ===== src/Tab/Tests.antt =====
-- An apply that is confirmed, whose socket opens, and whose operation is listed.
use wolkvorm.Base.{List, [], ◌∷◌, none, true, false, codes, get, put, All, Memᴰ, ◌≡◌, refl}
use wolkvorm.Text.{includes}
use wolkvorm.Form.{
  Form, Submission, open_form, load_schema, validate_from, validate_all,
  handle_submit as form_submit,
}
use wolkvorm.Form.Validate.{Field, text, validate_field}
use wolkvorm.Form.Events.{submitted as submitted_form}
use wolkvorm.Operations.{Operation, Request, payload, new_operation, start_operation}
use wolkvorm.Resource
use wolkvorm.Resource.{open_page, handle_submit, handle_confirm_action, launch_op, submitted}
use wolkvorm.Resource.Flow.{form_event, confirmed, step, hand_over, open_flow}
use wolkvorm.Tab.{Tab, launched, open_tab, launch, on_page, on_launch, on_open, IsRequestOf}
use wolkvorm.Tab.Traced.{Reach, here, next, traced}
use wolkvorm.Tab.Cleared.{IsPayloadOf, IsCleared, Reach-IsCleared}

abbrev schema : List Field
schema =
    record {
      name = codes "label";
      label = codes "Label";
      kind = codes "string";
      required = true;
      advanced = false;
      initial = none;
    }
    ∷ []

abbrev form : Form
form = open_form [] ((codes "label", text (codes "logs")) ∷ [])

abbrev submission : Submission
submission = record {
  inputs = (codes "label", text (codes "logs")) ∷ [];
  region = codes "eu-central-1";
  env = codes "dev";
  action = codes "apply";
}

abbrev request : Request
request = record {
  schema_id = "s3";
  schema_name = "S3 Bucket";
  action = "apply";
  inputs = (codes "label", text (codes "logs")) ∷ [];
  region = "eu-central-1";
  env = "dev";
  resource_id = "";
}

request-IsRequestOf : IsRequestOf submission request
request-IsRequestOf = record { action = refl; inputs = refl; region = refl; env = refl }

-- The dialog asks.
asking : Tab
unfolding open_tab step
asking =
    let s = open_tab schema form in
    record s { flow = step schema s.flow (form_event (submitted_form (codes "apply"))) }

-- The user has confirmed.
launching : Tab
unfolding asking launch step
launching = launch request 7 8 true (step schema asking.flow confirmed) asking

abbrev past : List Resource.Event
past = Resource.confirmed ∷ submitted submission ∷ []

launching-Reach : Reach schema form past launching
unfolding asking launching traced open_tab launched step hand_over open_flow open_page
    validate_field get put open_form load_schema validate_from validate_all form_submit
    handle_submit handle_confirm_action launch_op includes
launching-Reach =
    next (next here (on_page (form_event (submitted_form (codes "apply"))) refl))
      (on_launch confirmed submission request 7 8 true refl request-IsRequestOf)

-- The socket has opened.
sending : Tab
sending = record launching { opening = []; sent = payload request ∷ [] }

sending-Reach : Reach schema form past sending
unfolding asking launching launch sending open_tab
sending-Reach = next launching-Reach (on_open [] (payload request) [] refl)

sending_listed : Memᴰ (new_operation request 7 8) sending.operations.operations
unfolding asking launching launch sending open_tab start_operation
sending_listed = Memᴰ.head refl

Reach-IsCleared_example :
    All (λ p. (l : Submission) × IsPayloadOf l p × IsCleared schema past l) sending.sent
    × ((o : Operation)
        → Memᴰ o sending.operations.operations
        → (l : Submission) × (codes o.action ≡ l.action) × IsCleared schema past l)
Reach-IsCleared_example = Reach-IsCleared schema sending-Reach
