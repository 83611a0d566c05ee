-- ===== src/Resource/Flow.antt =====
-- frontend/src/pages/ResourcePage.js with the form that it shows: `handleSubmit` of the form calls
-- `handleSubmit` of the page, which starts operations.
use wolkvorm.Base.{
  List, [], ◌∷◌, Option, none, some, Option-cases, Bool-cases, ◌||◌, ◌==◌, text_eq, All, Text,
  codes, ◌≡◌, refl, inl, inr,
}
use wolkvorm.Form.{
  Form, Submission, handle_submit as form_submit, load_schema, handle_change, handle_blur,
  set_region, set_env, toggle_advanced,
}
use wolkvorm.Form.Validate.{Field}
use wolkvorm.Form.Submit.{IsAccepted, handle_submit-some}
use wolkvorm.Form.Events.{
  Event, changed, blurred, submitted, region_chosen, env_chosen, advanced_toggled,
}
use wolkvorm.Resource.{
  Page, open_page, launch_op, handle_submit, handle_confirm_action, cancel, close_plan,
}

pub record Flow : Type 0 where
  pub form : Form
  pub page : Page

-- `onSubmit`, where the form calls it.
unfoldable pub hand_over : Form × Option Submission → Page → Flow
hand_over (f, none) p = record { form = f; page = p }
hand_over (f, some l) p = record { form = f; page = handle_submit l p }

-- What happens: an event of the form, or of the dialog and the window of the page.
pub data Happening : Type 0 where
  form_event : Event → Happening
  confirmed cancelled closed : Happening

unfoldable pub step : List Field → Flow → Happening → Flow
unfolding hand_over
step inputs s (form_event (changed name v)) = record s { form = handle_change inputs name v s.form }
step inputs s (form_event (blurred name)) = record s { form = handle_blur inputs name s.form }
step inputs s (form_event (submitted action)) = hand_over (form_submit inputs action s.form) s.page
step inputs s (form_event (region_chosen r)) = record s {
  form = set_region r s.form;
  page = record s.page { region = r };
}
step inputs s (form_event (env_chosen e)) = record s {
  form = set_env e s.form;
  page = record s.page { env = e };
}
step inputs s (form_event advanced_toggled) = record s { form = toggle_advanced s.form }
step inputs s confirmed = record s { page = handle_confirm_action s.page }
step inputs s cancelled = record s { page = cancel s.page }
step inputs s closed = record s { page = close_plan s.page }

unfoldable pub run : List Field → Flow → List Happening → Flow
unfolding step
run inputs s [] = s
run inputs s (h ∷ hs) = run inputs (step inputs s h) hs

-- The page with a form whose schema is loaded.
unfoldable pub open_flow : List Field → Form → Flow
open_flow inputs f = record { form = load_schema inputs f; page = open_page }

-- A property of what is handed over, kept until it is started.
module _ (P : Submission → Type 0) where
  abbrev IsAwaiting : Option Submission → Type 0
  IsAwaiting none = Unit
  IsAwaiting (some l) = P l

  abbrev pub AreSafe : Page → Type 0
  AreSafe p = IsAwaiting p.confirm_action × All P p.started

  handle_submit-AreSafe :
      (l : Submission) (p : Page) → P l → AreSafe p → AreSafe (handle_submit l p)
  unfolding handle_submit launch_op
  handle_submit-AreSafe l p valid (w, h) =
      elim (Bool-cases (l.action == codes "apply" || l.action == codes "destroy")) [
        | inl asks ↦ rw asks (valid, h)
        | inr direct ↦ elim (Bool-cases (l.action == codes "plan")) [
          | inl plan ↦ rw (direct, plan) (w, (valid, h))
          | inr other ↦ rw (direct, other) (w, h)
        ]
      ]

  handle_confirm_action-AreSafe : (p : Page) → AreSafe p → AreSafe (handle_confirm_action p)
  unfolding handle_confirm_action launch_op
  handle_confirm_action-AreSafe p (w, h) = elim (Option-cases p.confirm_action) [
    | inl nothing ↦ rw nothing (tt, h)
    | inr (l, e) ↦ let valid = rw e at w in rw e (tt, (valid, h))
  ]

  hand_over-AreSafe :
      (o : Form × Option Submission) (p : Page)
      → ((l : Submission) → o.1 ≡ some l → P l)
      → AreSafe p
      → AreSafe (hand_over o p).page
  unfolding hand_over
  hand_over-AreSafe (f, none) p valid h = h
  hand_over-AreSafe (f, some l) p valid h = handle_submit-AreSafe l p (valid l refl) h

  -- A step keeps the property if what the form hands over at it has the property.
  pub step-AreSafe :
      (inputs : List Field) (s : Flow) (h : Happening)
      → ((action : Text) (l : Submission) → (form_submit inputs action s.form).1 ≡ some l → P l)
      → AreSafe s.page
      → AreSafe (step inputs s h).page
  unfolding step cancel close_plan
  step-AreSafe inputs s (form_event (changed name v)) valid k = k
  step-AreSafe inputs s (form_event (blurred name)) valid k = k
  step-AreSafe inputs s (form_event (submitted action)) valid k =
      hand_over-AreSafe (form_submit inputs action s.form) s.page (valid action) k
  step-AreSafe inputs s (form_event (region_chosen r)) valid k = k
  step-AreSafe inputs s (form_event (env_chosen e)) valid k = k
  step-AreSafe inputs s (form_event advanced_toggled) valid k = k
  step-AreSafe inputs s confirmed valid k = handle_confirm_action-AreSafe s.page k
  step-AreSafe inputs s cancelled valid (w, h) = (tt, h)
  step-AreSafe inputs s closed valid k = k

module _ (inputs : List Field) where
  -- `validateField` accepts the value of every input of the schema.
  abbrev pub IsValid : Submission → Type 0
  IsValid l = All (IsAccepted l.inputs) inputs

  pub form_submit-IsValid :
      (f : Form) (action : Text) (l : Submission)
      → (form_submit inputs action f).1 ≡ some l
      → IsValid l
  form_submit-IsValid f action l e =
      let (accepted, same) = (handle_submit-some inputs action f l).0 e in rw same accepted

  run-AreSafe :
      (s : Flow) (hs : List Happening)
      → AreSafe IsValid s.page
      → AreSafe IsValid (run inputs s hs).page
  unfolding run
  run-AreSafe s [] k = k
  run-AreSafe s (h ∷ hs) k =
      run-AreSafe (step inputs s h) hs
        (step-AreSafe IsValid inputs s h (form_submit-IsValid s.form) k)

  -- Whatever is typed, submitted, confirmed or cancelled, in whatever order: `validateField` accepts the
  -- value of every input of the schema in every operation that the page starts, also where the form
  -- has changed between its submission and the confirmation.
  pub run-IsValid :
      (f : Form) (hs : List Happening)
      → All IsValid (run inputs (open_flow inputs f) hs).page.started
  unfolding open_flow open_page
  run-IsValid f hs = (run-AreSafe (open_flow inputs f) hs (tt, tt)).1
