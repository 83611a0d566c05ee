-- ===== src/Form/Inputs/Entered.antt =====
-- What the controls of the form show after an entry.
use wolkvorm.Base.{
  List, ==-refl, text_eq, ==-iff, Text, put, get-put, ◌≡◌, ◌≢◌, refl, sym, ap, subst, arith,
}
use wolkvorm.Form.{Form, Values, handle_change}
use wolkvorm.Form.Validate.{Value, boolean, array, Field}
use wolkvorm.Form.Inputs.{
  Input, Kind, lookup, line, numeric, toggle, choice, multiline, hcl, list, sg_rules, nodegroups,
  other, kind_of, Control, resource_select, input_line, number_line, area, checkbox, option_list,
  tall_area, rule_editor, group_editor, value_of, is_truthy, as_array, control, render_input,
  EntryOf, entered, on_change,
}

-- The control shows the value.
abbrev pub Shows : Control → Value → Type 0
Shows (resource_select resource region multi v p) w = v ≡ w
Shows (input_line v p) w = v ≡ w
Shows (number_line v p) w = v ≡ w
Shows (area v p) w = v ≡ w
Shows (option_list v os) w = v ≡ w
Shows (tall_area v p n) w = v ≡ w
Shows (checkbox b l) w = boolean b ≡ w
Shows (rule_editor rows l) w = array rows ≡ w
Shows (group_editor rows) w = array rows ≡ w

control-Shows :
    (parse_float : Text → Text) (k : Kind) (region : Text) (i : Input) (e : EntryOf k)
    → Shows (control k region i (entered parse_float k e)) (entered parse_float k e)
unfolding control entered is_truthy as_array
control-Shows parse_float lookup region i e = refl
control-Shows parse_float line region i e = refl
control-Shows parse_float numeric region i e = refl
control-Shows parse_float toggle region i e = refl
control-Shows parse_float choice region i e = refl
control-Shows parse_float multiline region i e = refl
control-Shows parse_float hcl region i e = refl
control-Shows parse_float list region i e = refl
control-Shows parse_float sg_rules region i e = refl
control-Shows parse_float nodegroups region i e = refl
control-Shows parse_float other region i e = refl

value_of-put : (k : Text) (v : Value) (values : Values) → value_of k (put k v values) ≡ v
unfolding value_of
value_of-put k v values = ground (arith, get-put k k v values, ==-refl k)

value_of-put_other :
    (k j : Text) (v : Value) (values : Values)
    → k ≢ j
    → value_of j (put k v values) ≡ value_of j values
unfolding value_of
value_of-put_other k j v values ne = ground (arith, get-put k j v values, ==-iff k j)

-- Whatever `parseFloat` is: after an entry of the control of an input, the control shows
-- the value that was entered, and every input of another name has its value as before.
pub render_input-on_change :
    (parse_float : Text → Text) (inputs : List Field) (i : Input) (e : EntryOf (kind_of i))
    (s : Form)
    → Shows
        (render_input i (on_change parse_float inputs i e s))
        (entered parse_float (kind_of i) e)
      × ((j : Input)
          → i.field.name ≢ j.field.name
          → render_input j (on_change parse_float inputs i e s) ≡ render_input j s)
unfolding render_input on_change handle_change
render_input-on_change parse_float inputs i e s =
    let v = entered parse_float (kind_of i) e in
    (
      subst (λ w. Shows (control (kind_of i) s.region i w) v)
          (sym (value_of-put i.field.name v s.values))
          (control-Shows parse_float (kind_of i) s.region i e),
      λ j ne.
          ap (control (kind_of j) s.region j)
            (value_of-put_other i.field.name j.field.name v s.values ne),
    )
