-- ===== src/Form/Inputs.antt =====
-- `renderInput`, `renderField` and the summary of frontend/src/components/DynamicForm.js: the control
-- of each input of the schema, the value that it shows, and what its callbacks hand to
-- `handleChange` and `handleBlur`.
pub mod Entered
use wolkvorm.Base.{
  ℕ, List, [], ◌++◌, Option, none, some, Bool, true, false, not, ◌&&◌, ◌==◌, ==-refl, text_eq,
  ==-iff, if◌then◌else◌, Text, codes, length, eqb, get, put, get-put, ◌≡◌, ◌≢◌, refl, sym, ap,
  subst, arith,
}
use wolkvorm.Text.{is_nonempty}
use wolkvorm.Text.Number.{show_number}
use wolkvorm.Form.{Form, Values, handle_change, handle_blur, is_touched, advanced_inputs}
use wolkvorm.Form.Validate.{Value, null, text, number, boolean, array, Field}

-- An input of the schema, with what only its control reads; a text that is missing is empty, and a
-- missing number of rows is 0.
pub record Input : Type 0 where
  pub field : Field
  pub description : Text
  pub placeholder : Text
  pub aws_resource : Text
  pub multi : Bool
  pub options : List Text
  pub rows : ℕ

abbrev Rows : Type 0
Rows = List (List (Text × Text))

-- The cases of `renderInput`, the default one last.
pub data Kind : Type 0 where
  lookup line numeric toggle choice multiline hcl list sg_rules nodegroups other : Kind

unfoldable pub kind_of : Input → Kind
kind_of i =
    let k = i.field.kind in
    if is_nonempty i.aws_resource
    then lookup
    else if k == codes "string"
    then line
    else if k == codes "number"
    then numeric
    else if k == codes "boolean"
    then toggle
    else if k == codes "select"
    then choice
    else if k == codes "multiline"
    then multiline
    else if k == codes "hcl"
    then hcl
    else if k == codes "list"
    then list
    else if k == codes "sg_rules"
    then sg_rules
    else if k == codes "nodegroups"
    then nodegroups
    else other

-- A control: what it shows, its placeholder or its label, and of an area the number of its rows.
pub data Control : Type 0 where
  resource_select :
      (resource_type region : Text) → (multi : Bool) → Value → (placeholder : Text) → Control
  input_line number_line area : Value → (placeholder : Text) → Control
  checkbox : Bool → (label : Text) → Control
  option_list : Value → (options : List Text) → Control
  tall_area : Value → (placeholder : Text) → (rows : ℕ) → Control
  rule_editor : Rows → (label : Text) → Control
  group_editor : Rows → Control

-- `values[field.name] !== undefined ? values[field.name] : ""`
value_of : Text → Values → Value
value_of name values = elim (get name values) [ none ↦ text [] | some v ↦ v ]

-- Whether JavaScript takes a value for true.
unfoldable pub is_truthy : Value → Bool
is_truthy null = false
is_truthy (text t) = is_nonempty t
is_truthy (number t) = not (t == codes "0") && not (t == codes "NaN")
is_truthy (boolean b) = b
is_truthy (array rows) = true

-- `Array.isArray(value) ? value : []`
unfoldable pub as_array : Value → Rows
as_array (array rows) = rows
as_array null = []
as_array (text t) = []
as_array (number t) = []
as_array (boolean b) = []

or_text : Text → Text → Text
or_text t default = if is_nonempty t then t else default

or_rows : ℕ → ℕ → ℕ
or_rows n default = if eqb n 0 then default else n

control : Kind → (region : Text) → Input → Value → Control
unfolding is_truthy as_array or_text or_rows
control lookup region i v = resource_select i.aws_resource region i.multi v i.placeholder
control line region i v = input_line v i.placeholder
control numeric region i v = number_line v i.placeholder
control toggle region i v =
    checkbox (is_truthy v) (if is_truthy v then codes "Enabled" else codes "Disabled")
control choice region i v = option_list v i.options
control multiline region i v = area v i.placeholder
control hcl region i v =
    tall_area v (or_text i.placeholder (codes "# Enter HCL configuration...")) (or_rows i.rows 10)
control list region i v =
    tall_area v (or_text i.placeholder (codes "One item per line...")) (or_rows i.rows 4)
control sg_rules region i v = rule_editor (as_array v) i.field.label
control nodegroups region i v = group_editor (as_array v)
control other region i v = input_line v []

unfoldable pub render_input : Input → Form → Control
unfolding control value_of kind_of
render_input i s = control (kind_of i) s.region i (value_of i.field.name s.values)

-- What a control's `onChange` brings: a text, the state of a check box, or the rows of an editor.
abbrev pub EntryOf : Kind → Type 0
EntryOf lookup = Text
EntryOf line = Text
EntryOf numeric = Text
EntryOf toggle = Bool
EntryOf choice = Text
EntryOf multiline = Text
EntryOf hcl = Text
EntryOf list = Text
EntryOf sg_rules = Rows
EntryOf nodegroups = Rows
EntryOf other = Text

-- `parseFloat(text) || 0`, where `parse_float` gives the text of what `parseFloat` returns.
number_of : (parse_float : Text → Text) → Text → Text
number_of parse_float t = let n = parse_float t in if n == codes "NaN" then codes "0" else n

unfoldable pub entered : (parse_float : Text → Text) (k : Kind) → EntryOf k → Value
unfolding number_of
entered parse_float lookup e = text e
entered parse_float line e = text e
entered parse_float numeric e = number (number_of parse_float e)
entered parse_float toggle e = boolean e
entered parse_float choice e = text e
entered parse_float multiline e = text e
entered parse_float hcl e = text e
entered parse_float list e = text e
entered parse_float sg_rules e = array e
entered parse_float nodegroups e = array e
entered parse_float other e = text e

unfoldable pub on_change :
    (parse_float : Text → Text) → List Field → (i : Input) → EntryOf (kind_of i) → Form → Form
unfolding entered kind_of
on_change parse_float inputs i e s =
    handle_change inputs i.field.name (entered parse_float (kind_of i) e) s

-- Whether the control has an `onBlur`.
has_blur : Kind → Bool
has_blur lookup = false
has_blur toggle = false
has_blur choice = false
has_blur sg_rules = false
has_blur nodegroups = false
has_blur line = true
has_blur numeric = true
has_blur multiline = true
has_blur hcl = true
has_blur list = true
has_blur other = true

unfoldable pub on_blur : List Field → Input → Form → Form
unfolding has_blur kind_of
on_blur inputs i s = if has_blur (kind_of i) then handle_blur inputs i.field.name s else s

-- `touched[field.name] && errors[field.name]`: the message below the control, if it has one.
unfoldable pub shown_error : Text → Form → Option Text
shown_error name s =
    if is_touched name s
    then elim (get name s.errors) [ none ↦ none | some m ↦ if is_nonempty m then some m else none ]
    else none

pub record Row : Type 0 where
  pub label : Text
  pub is_required : Bool
  pub description : Text
  pub control : Control
  pub error : Option Text

-- `renderField`
unfoldable pub render_field : Form → Input → Row
unfolding render_input shown_error
render_field s i = record {
  label = i.field.label;
  is_required = i.field.required;
  description = i.description;
  control = render_input i s;
  error = shown_error i.field.name s;
}

-- The summary of the errors, where it is shown.
unfoldable pub error_summary : Form → Option Text
error_summary s =
    let error_count = length s.errors in
    if not (eqb error_count 0) && not (eqb (length s.touched) 0)
    then some (
        show_number error_count
        ++ codes " validation "
        ++ (if eqb error_count 1 then codes "error" else codes "errors")
        ++ codes " - please fix before submitting")
    else none

-- The label of the advanced toggle, if there are advanced inputs.
unfoldable pub advanced_count : List Field → Option Text
advanced_count inputs =
    let n = length (advanced_inputs inputs) in
    if eqb n 0 then none else some (show_number n ++ codes " more")
