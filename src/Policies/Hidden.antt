-- ===== src/Policies/Hidden.antt =====
-- The form of a policy, when it is not on the screen.
use wolkvorm.Base.{List, Option, none, some, true, false, ◌≡◌, refl}
use wolkvorm.Policies.{
  Policy, Template, Form, blank_form, Policies, open_policies, Listing, listed, other_value, failed,
  fetch_policies, load_templates, end_save, edit_policy, apply_template, toggle_form, set_form,
  TestResult, set_test_result,
}

-- The answers to a save can come at any time after it, when the form has changed or gone; the inputs
-- are used while the form is there.
pub data Reach : Policies → Type 0 where
  start : Reach open_policies
  fetched : (l : Listing) {s : Policies} → Reach s → Reach (fetch_policies l s)
  templates : (ts : Option (List Template)) {s : Policies} → Reach s → Reach (load_templates ts s)
  saved : {s : Policies} → Reach s → Reach (end_save s)
  edit : (p : Policy) {s : Policies} → Reach s → Reach (edit_policy p s)
  template : (t : Template) {s : Policies} → Reach s → Reach (apply_template t s)
  toggle : {s : Policies} → Reach s → Reach (toggle_form s)
  type : (f : Form) {s : Policies} → Reach s → s.show_form ≡ true → Reach (set_form f s)
  tested : (r : Option TestResult) {s : Policies} → Reach s → Reach (set_test_result r s)

abbrev pub IsBlank : Policies → Type 0
IsBlank s = (s.editing_id ≡ none) × (s.form ≡ blank_form)

-- Whatever is done on the page, in whatever order the answers come: while the form of a policy is not
-- on the screen it is blank and no policy is being changed, so that the form opens empty.
pub Reach-IsBlank : {s : Policies} → Reach s → s.show_form ≡ false → IsBlank s
unfolding open_policies fetch_policies load_templates end_save edit_policy apply_template
    toggle_form set_form set_test_result
Reach-IsBlank start h = (refl, refl)
Reach-IsBlank (fetched (listed ps) r) h = Reach-IsBlank r h
Reach-IsBlank (fetched other_value r) h = Reach-IsBlank r h
Reach-IsBlank (fetched failed r) h = Reach-IsBlank r h
Reach-IsBlank (templates none r) h = Reach-IsBlank r h
Reach-IsBlank (templates (some ts) r) h = Reach-IsBlank r h
Reach-IsBlank (saved r) h = (refl, refl)
Reach-IsBlank (edit p r) h = cc
Reach-IsBlank (template t r) h = cc
Reach-IsBlank (toggle r) h = (refl, refl)
Reach-IsBlank (type f r there) h = cc
Reach-IsBlank (tested t r) h = Reach-IsBlank r h
