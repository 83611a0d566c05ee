-- ===== src/Policies.antt =====
-- frontend/src/pages/PoliciesPage.js: the policies with the form that makes and changes them. A reply
-- that is a failure leaves the handler where it waits. Whoever may not manage policies sees the list
-- and the templates without the other buttons.
pub mod Hidden
mod Tests
use wolkvorm.Base.{
  ℕ, List, [], ◌∷◌, Option, none, some, Bool, true, false, not, ◌&&◌, ◌||◌, if◌then◌else◌, eqb,
  Text, codes,
}
use wolkvorm.Text.{is_nonempty}

pub record Policy : Type 0 where
  pub id : Text
  pub name : Text
  pub description : Text
  pub rego_content : Text
  pub severity : Text
  pub is_active : ℕ

pub record Template : Type 0 where
  pub name : Text
  pub description : Text
  pub rules : Text
  pub severity : Text

pub record Form : Type 0 where
  pub name : Text
  pub description : Text
  pub rego_content : Text
  pub severity : Text
  pub is_active : ℕ

abbrev pub blank_form : Form
blank_form = record {
  name = [];
  description = [];
  rego_content = [];
  severity = codes "warning";
  is_active = 1;
}

pub record Violation : Type 0 where
  pub severity : Text
  pub policy_name : Text
  pub message : Text

pub record TestResult : Type 0 where
  pub passed : Bool
  pub violations : List Violation

pub record Policies : Type 0 where
  pub policies : List Policy
  pub templates : List Template
  pub show_form : Bool
  pub form : Form
  pub test_result : Option TestResult
  pub editing_id : Option Text

unfoldable pub open_policies : Policies
open_policies = record {
  policies = [];
  templates = [];
  show_form = false;
  form = blank_form;
  test_result = none;
  editing_id = none;
}

-- The answer to a request for the policies: a list, another value, or a failure.
pub data Listing : Type 0 where
  listed : List Policy → Listing
  other_value failed : Listing

unfoldable pub fetch_policies : Listing → Policies → Policies
fetch_policies (listed ps) s = record s { policies = ps }
fetch_policies other_value s = record s { policies = [] }
fetch_policies failed s = s

unfoldable pub load_templates : Option (List Template) → Policies → Policies
load_templates none s = s
load_templates (some ts) s = record s { templates = ts }

-- The requests that the page makes to change policies.
pub data Request : Type 0 where
  post : Form → Request
  put_form : (id : Text) → Form → Request
  put_policy : (id : Text) → Policy → Request
  delete : (id : Text) → Request

abbrev is_editing : Option Text → Option Text
is_editing none = none
is_editing (some []) = none
is_editing (some (c ∷ id)) = some (c ∷ id)

abbrev save_request : Option Text → Form → Request
save_request none f = post f
save_request (some id) f = put_form id f

-- `savePolicy`: its request, its button, and its rest once the server has answered, with any status.
unfoldable pub save_policy : Policies → Request
save_policy s = save_request (is_editing s.editing_id) s.form

unfoldable pub save_disabled : Policies → Bool
save_disabled s = not (is_nonempty s.form.name) || not (is_nonempty s.form.rego_content)

unfoldable pub end_save : Policies → Policies
end_save s = record s { show_form = false; editing_id = none; form = blank_form }

unfoldable pub delete_policy : Policy → Request
delete_policy p = delete p.id

-- `togglePolicy`
unfoldable pub toggle_policy : Policy → Request
toggle_policy p = put_policy p.id (record p { is_active = if eqb p.is_active 0 then 1 else 0 })

unfoldable pub edit_policy : Policy → Policies → Policies
edit_policy p s = record s {
  form = record {
    name = p.name;
    description = p.description;
    rego_content = p.rego_content;
    severity = p.severity;
    is_active = p.is_active;
  };
  editing_id = some p.id;
  show_form = true;
}

unfoldable pub apply_template : Template → Policies → Policies
apply_template t s = record s {
  form = record {
    name = t.name;
    description = t.description;
    rego_content = t.rules;
    severity = t.severity;
    is_active = 1;
  };
  editing_id = none;
  show_form = true;
}

-- The button "+ New Policy", which is "Cancel" while the form is there.
unfoldable pub toggle_form : Policies → Policies
toggle_form s = record s { show_form = not s.show_form; editing_id = none; form = blank_form }

-- The inputs of the form.
unfoldable pub set_form : Form → Policies → Policies
set_form f s = record s { form = f }

unfoldable pub set_test_result : Option TestResult → Policies → Policies
set_test_result r s = record s { test_result = r }

unfoldable pub shows_templates : Policies → Bool
shows_templates s = not s.show_form && not (is_empty s.templates)
  where
    is_empty : List Template → Bool
    is_empty [] = true
    is_empty (t ∷ ts) = false
