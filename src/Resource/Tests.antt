-- ===== src/Resource/Tests.antt =====
-- A destroy that is confirmed.
use wolkvorm.Base.{
  List, [], ◌∷◌, none, some, true, false, map, get, put, Text, codes, All, ◌≡◌, refl,
}
use wolkvorm.Form.{
  Submission, open_form, load_schema, handle_change, validate_from, validate_all,
  handle_submit as form_submit,
}
use wolkvorm.Text.{includes}
use wolkvorm.Form.Validate.{Field, text, validate_field}
use wolkvorm.Form.Events.{changed, submitted as submitted_form}
use wolkvorm.Resource.Flow.{
  Flow, Happening, form_event, confirmed as confirmed_page, open_flow, run, step, hand_over,
  IsValid, run-IsValid,
}
use wolkvorm.Resource.{
  Event, submitted, confirmed, cancelled, after, open_page, handle_submit, handle_confirm_action,
  launch_op,
}
use wolkvorm.Resource.View.{Editing, View, load_resource}
use wolkvorm.Resource.Dialog.{Dialog, danger, page_dialog, Announces, page_dialog-Announces}
use wolkvorm.Resource.Environment.{edit_flow, IsDev, run-IsDev}
use wolkvorm.Resource.Confirmed.{IsAuthorized, after-IsAuthorized}

abbrev sent_for : Text → Submission
sent_for action = record {
  action = action;
  inputs = [];
  region = codes "eu-west-1";
  env = codes "dev";
}

abbrev past : List Event
past =
    confirmed
    ∷ submitted (sent_for (codes "destroy"))
    ∷ cancelled
    ∷ submitted (sent_for (codes "apply"))
    ∷ []

past_started : (after past).started ≡ sent_for (codes "destroy") ∷ []
unfolding after open_page
past_started = refl

after-IsAuthorized_example : All (IsAuthorized past) (after past).started
after-IsAuthorized_example = after-IsAuthorized past

abbrev label_field : Field
label_field = record {
  name = codes "label";
  label = codes "Label";
  kind = codes "string";
  required = true;
  advanced = false;
  initial = none;
}

-- An apply is submitted with a value, which is cleared before the confirmation.
abbrev cleared : List Happening
cleared =
    form_event (changed (codes "label") (text (codes "logs")))
    ∷ form_event (submitted_form (codes "apply"))
    ∷ form_event (changed (codes "label") (text []))
    ∷ confirmed_page
    ∷ []

cleared_started :
    map
      (λ l. l.inputs)
      (run (label_field ∷ []) (open_flow (label_field ∷ []) (open_form [] [])) cleared).page.started
    ≡ ((codes "label", text (codes "logs")) ∷ []) ∷ []
unfolding run step hand_over open_flow open_page validate_field get put open_form load_schema
    handle_change validate_from validate_all form_submit handle_submit handle_confirm_action
    launch_op includes
cleared_started = refl

run-IsValid_example :
    All
      (IsValid (label_field ∷ []))
      (run (label_field ∷ []) (open_flow (label_field ∷ []) (open_form [] [])) cleared).page.started
run-IsValid_example = run-IsValid (label_field ∷ []) (open_form [] []) cleared

-- A resource of the environment `prod`.
abbrev prod_resource : Editing
prod_resource = record {
  id = codes "r1";
  name = codes "logs";
  inputs = some ((codes "label", text (codes "logs")) ∷ []);
  region = codes "eu-west-1";
  env = codes "prod";
  outputs = none;
}

abbrev unloaded : View
unloaded = record {
  page = open_page;
  values = [];
  logs = [];
  has_schema = true;
  repos = [];
  selected_repo = [];
  history = [];
  expanded_plan = none;
  editing = none;
  cost_estimate = none;
  cost_loading = false;
}

abbrev confirmed_apply : List Happening
confirmed_apply = form_event (submitted_form (codes "apply")) ∷ confirmed_page ∷ []

abbrev prod_flow : Flow
prod_flow = edit_flow (label_field ∷ []) prod_resource unloaded

prod_started :
    map (λ l. l.env) (run (label_field ∷ []) prod_flow confirmed_apply).page.started
    ≡ codes "dev" ∷ []
unfolding run step hand_over edit_flow load_resource open_page validate_field get put open_form
    load_schema validate_from validate_all form_submit handle_submit handle_confirm_action launch_op
    includes
prod_started = refl

run-IsDev_example : All IsDev (run (label_field ∷ []) prod_flow confirmed_apply).page.started
unfolding open_page
run-IsDev_example =
    run-IsDev (label_field ∷ []) prod_resource unloaded confirmed_apply refl refl (tt, (tt, tt))

-- The dialog for a destroy is on the screen.
abbrev asking_destroy : Dialog
asking_destroy = record {
  accent = danger;
  title = codes "Kaynağı Sil";
  message =
      codes
        "Bu işlem altyapı kaynaklarınızı kalıcı olarak SİLECEKTİR. Bu işlem geri alınamaz. Devam etmek istediğinize emin misiniz?";
  cancel_label = codes "İptal";
  confirm_label = codes "Evet, Sil";
}

asked : page_dialog (after (submitted (sent_for (codes "destroy")) ∷ [])) ≡ some asking_destroy
unfolding page_dialog after open_page
asked = refl

page_dialog-Announces_example :
    (l : Submission) × Announces asking_destroy l
    × ((after (confirmed ∷ submitted (sent_for (codes "destroy")) ∷ [])).started
        ≡ l ∷ (after (submitted (sent_for (codes "destroy")) ∷ [])).started)
    × (page_dialog (after (confirmed ∷ submitted (sent_for (codes "destroy")) ∷ [])) ≡ none)
page_dialog-Announces_example =
    page_dialog-Announces (submitted (sent_for (codes "destroy")) ∷ []) asking_destroy asked
