-- ===== src/Form.antt =====
-- frontend/src/components/DynamicForm.js: the form of a schema. The values live in the page that
-- shows the form; here they stand beside the form's own state, and `onChange` replaces them.
pub mod Validate
pub mod Consistent
pub mod Submit
pub mod Inputs
pub mod Events
mod Tests
use wolkvorm.Base.{
  List, [], ◌∷◌, ◌++◌, Option, none, some, Bool, true, false, not, ◌&&◌, ◌||◌, ◌==◌, text_eq,
  if◌then◌else◌, Text, codes, get, put, remove, find_first, any, select,
}
use wolkvorm.Form.Validate.{Value, Field, validate_field}

abbrev pub Values : Type 0
Values = List (Text × Value)

abbrev pub Errors : Type 0
Errors = List (Text × Text)

pub record Form : Type 0 where
  pub values : Values
  pub region : Text
  pub env : Text
  pub show_advanced : Bool
  pub errors : Errors
  pub touched : List (Text × Bool)

pub record Submission : Type 0 where
  pub inputs : Values
  pub region : Text
  pub env : Text
  pub action : Text

-- The inputs of the schema, as they are split for display.
pub basic_inputs : List Field → List Field
basic_inputs inputs = select (λ f. not f.advanced) inputs

pub advanced_inputs : List Field → List Field
advanced_inputs inputs = select (λ f. f.advanced) inputs

-- The state of a form whose region is `defaultRegion || "eu-central-1"`.
unfoldable pub open_form : Text → Values → Form
open_form default_region values = record {
  values = values;
  region = if default_region == [] then codes "eu-central-1" else default_region;
  env = codes "dev";
  show_advanced = false;
  errors = [];
  touched = [];
}

-- The `defaults` that the effect on a new schema collects.
collect_defaults : Values → List Field → Values → Values
collect_defaults values [] defaults = defaults
collect_defaults values (f ∷ fs) defaults = collect_defaults values fs (elim f.initial [
  | none ↦ defaults
  | some v ↦ elim (get f.name values) [ none ↦ put f.name v defaults | some w ↦ defaults ]
])

-- `{ ...values, ...defaults }`
merge : Values → Values → Values
merge values [] = values
merge values ((k, v) ∷ more) = merge (put k v values) more

unfoldable pub load_schema : List Field → Form → Form
unfolding collect_defaults merge
load_schema inputs s = record s {
  values = merge s.values (collect_defaults s.values inputs []);
  errors = [];
  touched = [];
}

-- The callback that `handleChange` and `handleBlur` give to `setErrors`.
unfoldable pub set_error : Text → Option Text → Errors → Errors
set_error name none errors = remove name errors
set_error name (some message) errors = put name message errors

abbrev pub find_field : Text → List Field → Option Field
find_field name inputs = find_first (λ f. f.name == name) inputs

unfoldable pub is_touched : Text → Form → Bool
is_touched name s = elim (get name s.touched) [ none ↦ false | some b ↦ b ]

revalidate : List Field → Text → Option Value → Errors → Errors
revalidate inputs name v errors = elim (find_field name inputs) [
  | none ↦ errors
  | some f ↦ set_error name (validate_field f v) errors
]

unfoldable pub handle_change : List Field → Text → Value → Form → Form
unfolding revalidate is_touched
handle_change inputs name v s = record s {
  values = put name v s.values;
  errors = if is_touched name s then revalidate inputs name (some v) s.errors else s.errors;
}

unfoldable pub handle_blur : List Field → Text → Form → Form
unfolding revalidate
handle_blur inputs name s = record s {
  touched = put name true s.touched;
  errors = revalidate inputs name (get name s.values) s.errors;
}

-- The loops of `validateAll` and of `handleSubmit`.
unfoldable pub validate_from : Errors → List Field → Values → Errors
validate_from errors [] values = errors
validate_from errors (f ∷ fs) values =
    validate_from
      (elim (validate_field f (get f.name values)) [
        | none ↦ errors
        | some message ↦ put f.name message errors
      ])
      fs values

unfoldable pub validate_all : List Field → Values → Errors
unfolding validate_from
validate_all inputs values = validate_from [] inputs values

touch_from : List (Text × Bool) → List Field → List (Text × Bool)
touch_from touched [] = touched
touch_from touched (f ∷ fs) = touch_from (put f.name true touched) fs

pub touch_all : List Field → List (Text × Bool)
unfolding touch_from
touch_all inputs = touch_from [] inputs

-- Whether some error is that of an advanced input.
pub has_advanced_error : List Field → Errors → Bool
unfolding advanced_inputs
has_advanced_error inputs errors =
    any (λ e. any (λ f. f.name == e.0) (advanced_inputs inputs)) errors

abbrev pub is_clean : Errors → Bool
is_clean [] = true
is_clean (e ∷ es) = false

-- The form after `handleSubmit`, and what it hands to `onSubmit`, if it calls it.
unfoldable pub handle_submit : List Field → Text → Form → Form × Option Submission
unfolding validate_all touch_all has_advanced_error
handle_submit inputs action s =
    let errors = validate_all inputs s.values in
    let checked = record s { touched = touch_all inputs; errors = errors } in
    if is_clean errors
    then (
      checked,
      some (record { inputs = s.values; region = s.region; env = s.env; action = action }),
    )
    else (
      if has_advanced_error inputs errors then record checked { show_advanced = true } else checked,
      none,
    )

-- The handlers of the two selects and of the advanced toggle.
unfoldable pub set_region : Text → Form → Form
set_region r s = record s { region = r }

unfoldable pub set_env : Text → Form → Form
set_env e s = record s { env = e }

unfoldable pub toggle_advanced : Form → Form
toggle_advanced s = record s { show_advanced = not s.show_advanced }
