-- ===== src/Form/Events.antt =====
-- The events of the form of frontend/src/components/DynamicForm.js: typing, leaving an input,
-- submitting, the two selects and the toggle of the advanced section.
use wolkvorm.Base.{List, [], ◌∷◌, text_eq, Bool-cases, Text, get, refl, inl, inr}
use wolkvorm.Form.{
  Form, load_schema, is_touched, handle_change, handle_blur, handle_submit, validate_from,
  validate_all, is_clean, has_advanced_error, set_region, set_env, toggle_advanced,
}
use wolkvorm.Form.Validate.{Value, Field}
use wolkvorm.Form.Consistent.{
  HasDistinctNames, IsConsistent, handle_change-IsConsistent, handle_blur-IsConsistent,
}
use wolkvorm.Form.Submit.{get-validate_from}

pub data Event : Type 0 where
  changed : (name : Text) (value : Value) → Event
  blurred : (name : Text) → Event
  submitted : (action : Text) → Event
  region_chosen : Text → Event
  env_chosen : Text → Event
  advanced_toggled : Event

pub step : List Field → Form → Event → Form
step inputs s (changed name v) = handle_change inputs name v s
step inputs s (blurred name) = handle_blur inputs name s
step inputs s (submitted action) = (handle_submit inputs action s).0
step inputs s (region_chosen r) = set_region r s
step inputs s (env_chosen e) = set_env e s
step inputs s advanced_toggled = toggle_advanced s

pub run : List Field → Form → List Event → Form
unfolding step
run inputs s [] = s
run inputs s (e ∷ es) = run inputs (step inputs s e) es

module _ (inputs : List Field) (distinct : HasDistinctNames inputs) where
  handle_submit-IsConsistent :
      (action : Text) (s : Form) → IsConsistent inputs (handle_submit inputs action s).0
  unfolding IsConsistent handle_submit validate_all
  handle_submit-IsConsistent action s f m touched =
      let recorded = get-validate_from s.values f [] inputs distinct m (unfold get in refl) in
      let errors = validate_from [] inputs s.values in
      elim (Bool-cases (is_clean errors)) [
        | inl clean ↦ rw clean recorded
        | inr dirty ↦ elim (Bool-cases (has_advanced_error inputs errors)) [
          | inl seen ↦ rw (dirty, seen) recorded
          | inr unseen ↦ rw (dirty, unseen) recorded
        ]
      ]

  step-IsConsistent :
      (s : Form) (e : Event) → IsConsistent inputs s → IsConsistent inputs (step inputs s e)
  unfolding step
  step-IsConsistent s (changed name v) h = handle_change-IsConsistent inputs distinct name v s h
  step-IsConsistent s (blurred name) h = handle_blur-IsConsistent inputs distinct name s h
  step-IsConsistent s (submitted action) h = handle_submit-IsConsistent action s
  step-IsConsistent s (region_chosen r) h = unfold IsConsistent is_touched set_region in h
  step-IsConsistent s (env_chosen e) h = unfold IsConsistent is_touched set_env in h
  step-IsConsistent s advanced_toggled h = unfold IsConsistent is_touched toggle_advanced in h

  keeps_IsConsistent :
      (s : Form) (es : List Event) → IsConsistent inputs s → IsConsistent inputs (run inputs s es)
  unfolding run
  keeps_IsConsistent s [] h = h
  keeps_IsConsistent s (e ∷ es) h =
      keeps_IsConsistent (step inputs s e) es (step-IsConsistent s e h)

  load_schema-IsConsistent : (s : Form) → IsConsistent inputs (load_schema inputs s)
  unfolding IsConsistent load_schema is_touched get
  load_schema-IsConsistent s f m touched = cc touched

-- From the moment a schema is loaded, whatever the user does, the error shown for an input that was
-- touched is the verdict of `validateField` on the value the input has now. The names of the
-- schema's inputs are distinct.
pub run-IsConsistent :
    (inputs : List Field) (s : Form) (es : List Event)
    → HasDistinctNames inputs
    → IsConsistent inputs (run inputs (load_schema inputs s) es)
run-IsConsistent inputs s es distinct =
    keeps_IsConsistent inputs distinct (load_schema inputs s) es
      (load_schema-IsConsistent inputs distinct s)
