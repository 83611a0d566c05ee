-- ===== src/Resource/Environment.antt =====
-- frontend/src/pages/ResourcePage.js with frontend/src/components/DynamicForm.js: the environment in
-- which the operations of an edited resource run.
use wolkvorm.Base.{
  List, [], ◌∷◌, Option, none, some, Bool-cases, All, Text, codes, ◌≡◌, refl, ap, ◌∙◌, inl, inr,
}
use wolkvorm.Form.{
  Form, Submission, open_form, handle_submit as form_submit, load_schema, handle_change,
  handle_blur, set_region, toggle_advanced, validate_all, has_advanced_error, is_clean,
}
use wolkvorm.Form.Validate.{Field}
use wolkvorm.Form.Submit.{handle_submit-some}
use wolkvorm.Form.Events.{changed, blurred, submitted, region_chosen, env_chosen, advanced_toggled}
use wolkvorm.Resource.View.{View, Editing, load_resource}
use wolkvorm.Text.{is_nonempty}
use wolkvorm.Resource.Flow.{
  Flow, Happening, form_event, confirmed, cancelled, closed, step, run, hand_over, AreSafe,
  step-AreSafe,
}

-- The user leaves the form's select of the environment alone.
abbrev pub IsQuiet : Happening → Type 0
IsQuiet (form_event (env_chosen e)) = ⊥
IsQuiet (form_event (changed name v)) = Unit
IsQuiet (form_event (blurred name)) = Unit
IsQuiet (form_event (submitted action)) = Unit
IsQuiet (form_event (region_chosen r)) = Unit
IsQuiet (form_event advanced_toggled) = Unit
IsQuiet confirmed = Unit
IsQuiet cancelled = Unit
IsQuiet closed = Unit

-- The page that edits the resource `e`, with the form below it, which takes the region and the
-- values from the page.
unfoldable pub edit_flow : List Field → Editing → View → Flow
edit_flow inputs e v =
    let loaded = load_resource e v in
    record {
      form = load_schema inputs (open_form loaded.page.region loaded.values);
      page = loaded.page;
    }

abbrev pub IsDev : Submission → Type 0
IsDev l = l.env ≡ codes "dev"

form_submit-env :
    (inputs : List Field) (action : Text) (f : Form) → (form_submit inputs action f).0.env ≡ f.env
unfolding form_submit
form_submit-env inputs action f = elim (Bool-cases (is_clean (validate_all inputs f.values))) [
  | inl clean ↦ rw clean refl
  | inr failed ↦
      rw failed (elim (Bool-cases (has_advanced_error inputs (validate_all inputs f.values))) [
        | inl hidden ↦ rw hidden refl
        | inr shown ↦ rw shown refl
      ])
]

hand_over-form : (o : Form × Option Submission) (p : _) → (hand_over o p).form ≡ o.0
unfolding hand_over
hand_over-form (f, none) p = refl
hand_over-form (f, some l) p = refl

step-env :
    (inputs : List Field) (s : Flow) (h : Happening)
    → IsQuiet h
    → (step inputs s h).form.env ≡ s.form.env
unfolding step handle_change handle_blur set_region toggle_advanced
step-env inputs s (form_event (changed name v)) q = refl
step-env inputs s (form_event (blurred name)) q = refl
step-env inputs s (form_event (submitted action)) q =
    ap (λ f. f.env) (hand_over-form (form_submit inputs action s.form) s.page)
    ∙ form_submit-env inputs action s.form
step-env inputs s (form_event (region_chosen r)) q = refl
step-env inputs s (form_event (env_chosen e)) q = absurd q
step-env inputs s (form_event advanced_toggled) q = refl
step-env inputs s confirmed q = refl
step-env inputs s cancelled q = refl
step-env inputs s closed q = refl

form_submit-IsDev :
    (inputs : List Field) (f : Form) (action : Text) (l : Submission)
    → f.env ≡ codes "dev"
    → (form_submit inputs action f).1 ≡ some l
    → IsDev l
form_submit-IsDev inputs f action l dev e =
    let (accepted, same) = (handle_submit-some inputs action f l).0 e in rw same dev

run-AreDev :
    (inputs : List Field) (s : Flow) (hs : List Happening)
    → s.form.env ≡ codes "dev"
    → All IsQuiet hs
    → AreSafe IsDev s.page
    → AreSafe IsDev (run inputs s hs).page
unfolding run
run-AreDev inputs s [] dev q k = k
run-AreDev inputs s (h ∷ hs) dev (q, qs) k =
    run-AreDev inputs (step inputs s h) hs (step-env inputs s h q ∙ dev) qs
      (step-AreSafe IsDev inputs s h (λ action l. form_submit-IsDev inputs s.form action l dev) k)

load_resource-AreSafe :
    (e : Editing) (v : View) → AreSafe IsDev v.page → AreSafe IsDev (load_resource e v).page
unfolding load_resource
load_resource-AreSafe e v k = elim (Bool-cases (is_nonempty e.id)) [
  | inl found ↦ rw found k
  | inr absent ↦ rw absent k
]

-- Unless the user chooses an environment in the form: whatever else is done, and whichever
-- environment the edited resource is of, every operation that its page starts runs in the
-- environment `dev`, if nothing was started and nothing awaits a confirmation before.
pub run-IsDev :
    (inputs : List Field) (e : Editing) (v : View) (hs : List Happening)
    → v.page.started ≡ []
    → v.page.confirm_action ≡ none
    → All IsQuiet hs
    → All IsDev (run inputs (edit_flow inputs e v) hs).page.started
unfolding edit_flow open_form load_schema
run-IsDev inputs e v hs unstarted unasked q =
    let calm : AreSafe IsDev v.page = rw (unstarted, unasked) (tt, tt) in
    (run-AreDev inputs (edit_flow inputs e v) hs refl q (load_resource-AreSafe e v calm)).1
