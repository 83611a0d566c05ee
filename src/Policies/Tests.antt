-- ===== src/Policies/Tests.antt =====
-- A policy that is changed, and the form after it.
use wolkvorm.Base.{[], codes, ◌≡◌, refl}
use wolkvorm.Policies.{
  Policy, open_policies, edit_policy, save_policy, put_form, toggle_policy, put_policy,
}

abbrev small : Policy
small = record {
  id = codes "7";
  name = codes "small";
  description = [];
  rego_content = codes "[]";
  severity = codes "error";
  is_active = 0;
}

changed :
    save_policy (edit_policy small open_policies)
    ≡ put_form (codes "7") (edit_policy small open_policies).form
unfolding save_policy edit_policy open_policies
changed = refl

enabled : toggle_policy small ≡ put_policy (codes "7") (record small { is_active = 1 })
unfolding toggle_policy
enabled = refl
