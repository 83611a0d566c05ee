-- ===== src/Form/Tests.antt =====
-- A form with one required input and an advanced one.
use wolkvorm.Base.{
  Bool, List, [], ◌∷◌, none, some, true, false, text_eq, ==-iff, Text, codes, get, put, All, Memᴰ,
  ◌≡◌, ◌↔◌, refl,
}
use wolkvorm.Form.{
  Form, open_form, load_schema, handle_submit, handle_change, handle_blur, set_error,
}
use wolkvorm.Text.Number.{show_number}
use wolkvorm.Form.Validate.Lists.{validate_field-cidr_list}
use wolkvorm.Text.{trim, comma_items}
use wolkvorm.Text.Regex.{Matches}
use wolkvorm.Form.Validate.{cidr, text, number, Field, validate_field}
use wolkvorm.Form.Consistent.{HasDistinctNames, IsConsistent}
use wolkvorm.Form.Submit.{IsAccepted, submission, handle_submit-some, handle_submit-rejects}
use wolkvorm.Form.Inputs.{
  Input, EntryOf, kind_of, number_line, render_input, entered, on_change, on_blur, error_summary,
}
use wolkvorm.Form.Events.{changed, blurred, run, run-IsConsistent}

abbrev field : Text → Bool → Field
field name required = record {
  name = name;
  label = codes "VPC";
  kind = codes "string";
  required = required;
  advanced = true;
  initial = none;
}

abbrev schema : List Field
schema = field (codes "cidr") false ∷ field (codes "vpc_id") true ∷ []

names_differ : HasDistinctNames schema
names_differ = ((λ e. cc ((==-iff (codes "vpc_id") (codes "cidr")).1 e), tt), (tt, tt))

abbrev empty_form : Form
empty_form = open_form [] []

abbrev filled : Form
filled = open_form [] ((codes "vpc_id", text (codes "vpc-0a")) ∷ [])

run-IsConsistent_example : IsConsistent schema (
    run schema
      (load_schema schema empty_form)
      (blurred (codes "vpc_id") ∷ changed (codes "vpc_id") (text (codes "vpc-")) ∷ []))
run-IsConsistent_example =
    run-IsConsistent schema empty_form
      (blurred (codes "vpc_id") ∷ changed (codes "vpc_id") (text (codes "vpc-")) ∷ []) names_differ

handle_submit-some_example :
    ((handle_submit schema (codes "plan") filled).1 ≡ some (submission (codes "plan") filled)) ↔ (
      All (IsAccepted filled.values) schema
      × (submission (codes "plan") filled ≡ submission (codes "plan") filled))
handle_submit-some_example =
    handle_submit-some schema (codes "plan") filled (submission (codes "plan") filled)

handle_submit-rejects_example :
    ((handle_submit schema (codes "plan") empty_form).1 ≡ none)
    × (get (codes "vpc_id") (handle_submit schema (codes "plan") empty_form).0.touched ≡ some true)
    × (get (codes "vpc_id") (handle_submit schema (codes "plan") empty_form).0.errors
        ≡ some (codes "VPC is required"))
    × (true ≡ true → (handle_submit schema (codes "plan") empty_form).0.show_advanced ≡ true)
unfolding validate_field get open_form
handle_submit-rejects_example =
    handle_submit-rejects schema (codes "plan") empty_form (field (codes "vpc_id") true)
      (codes "VPC is required") names_differ (Memᴰ.tail (Memᴰ.head refl)) refl

abbrev subnets : Field
subnets = field (codes "public_subnets") true

abbrev groups : Field
groups = field (codes "vpc_security_group_ids") true

validate_field-cidr_list_example :
    (validate_field subnets (some (text (codes "10.0.1.0/24, 10.0.2.0/24"))) ≡ none)
    ↔ All (Matches cidr) (comma_items (codes "10.0.1.0/24, 10.0.2.0/24"))
unfolding trim
validate_field-cidr_list_example =
    validate_field-cidr_list subnets (codes "10.0.1.0/24, 10.0.2.0/24") refl refl

abbrev memory : Input
memory = record {
  field = record (field (codes "memory") true) { kind = codes "number" };
  description = [];
  placeholder = codes "512";
  aws_resource = [];
  multi = false;
  options = [];
  rows = 0;
}

abbrev vpc : Input
vpc = record memory { field = field (codes "vpc_id") true }

-- An empty text is not a number.
abbrev parse_float : Text → Text
parse_float [] = codes "NaN"
parse_float (c ∷ t) = c ∷ t

unfoldable memory_typed : Text → EntryOf (kind_of memory)
unfolding kind_of
memory_typed t = t

memory_cleared :
    render_input memory (on_change parse_float schema memory (memory_typed []) filled)
    ≡ number_line (number (codes "0")) (codes "512")
unfolding render_input on_change kind_of entered memory_typed handle_change open_form get put
memory_cleared = refl

summary_shown :
    error_summary (on_blur schema vpc empty_form)
    ≡ some (codes "1 validation error - please fix before submitting")
unfolding error_summary on_blur kind_of handle_blur set_error validate_field open_form get put
    show_number
summary_shown = refl
