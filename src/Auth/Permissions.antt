-- ===== src/Auth/Permissions.antt =====
-- The permissions form one chain, and are decided by the role alone.
use Prim.Native.String.{String}
use wolkvorm.Base.{true, ◌==◌, ==-iff, string_eq, leb, ◌≡◌, ◌≢◌, ◌↔◌, ◌⊎◌, refl, arith}
use wolkvorm.Auth.{
  Session, role, role_level, can_view, can_deploy, can_operate, can_admin, can_plan, can_apply,
  can_approve, can_manage_policies, can_import, can_manage_settings, can_manage_users,
}

-- The roles that `ROLE_LEVELS` lists.
abbrev pub IsRole : String → Type 0
IsRole r = (r ≡ "viewer") ⊎ (r ≡ "deployer") ⊎ (r ≡ "operator") ⊎ (r ≡ "admin")

roles_differ :
    (◌≢◌ {A = String} "viewer" "deployer")
    × (◌≢◌ {A = String} "viewer" "operator")
    × (◌≢◌ {A = String} "viewer" "admin")
    × (◌≢◌ {A = String} "deployer" "operator")
    × (◌≢◌ {A = String} "deployer" "admin")
    × (◌≢◌ {A = String} "operator" "admin")
roles_differ = (
  (λ e. cc ((==-iff _ _).1 e)),
  (λ e. cc ((==-iff _ _).1 e)),
  (λ e. cc ((==-iff _ _).1 e)),
  (λ e. cc ((==-iff _ _).1 e)),
  (λ e. cc ((==-iff _ _).1 e)),
  (λ e. cc ((==-iff _ _).1 e)),
)

tests :
    (r : String)
    → (((r == "viewer") ≡ true) ↔ (r ≡ "viewer"))
      × (((r == "deployer") ≡ true) ↔ (r ≡ "deployer"))
      × (((r == "operator") ≡ true) ↔ (r ≡ "operator"))
      × (((r == "admin") ≡ true) ↔ (r ≡ "admin"))
tests r = (==-iff r "viewer", ==-iff r "deployer", ==-iff r "operator", ==-iff r "admin")

module _ (r : String) where
  admin_iff : (leb 4 (role_level r) ≡ true) ↔ (r ≡ "admin")
  unfolding role_level
  admin_iff = ground (arith, tests r, roles_differ)

  operator_iff : (leb 3 (role_level r) ≡ true) ↔ ((r ≡ "operator") ⊎ (r ≡ "admin"))
  unfolding role_level
  operator_iff = ground (arith, tests r, roles_differ)

  deployer_iff :
      (leb 2 (role_level r) ≡ true) ↔ ((r ≡ "deployer") ⊎ (r ≡ "operator") ⊎ (r ≡ "admin"))
  unfolding role_level
  deployer_iff = ground (arith, tests r, roles_differ)

  viewer_iff : (leb 1 (role_level r) ≡ true) ↔ IsRole r
  unfolding role_level
  viewer_iff = ground (arith, tests r, roles_differ)

ranks : Unit {0}
unfolding can_view can_deploy can_operate can_admin
ranks = tt

-- A session may administer exactly as `admin`, operate as `operator` or above, deploy as `deployer`
-- or above, and view with any of the four roles; with any other role it may do nothing.
pub can-IsRole :
    (s : Session)
    → ((can_admin s ≡ true) ↔ (role s ≡ "admin"))
      × ((can_operate s ≡ true) ↔ ((role s ≡ "operator") ⊎ (role s ≡ "admin")))
      × ((can_deploy s ≡ true)
          ↔ ((role s ≡ "deployer") ⊎ (role s ≡ "operator") ⊎ (role s ≡ "admin")))
      × ((can_view s ≡ true) ↔ IsRole (role s))
unfolding ranks role_level
can-IsRole s =
    (admin_iff (role s), operator_iff (role s), deployer_iff (role s), viewer_iff (role s))

-- Each granular permission is one of the four general ones.
pub can_granular :
    (s : Session)
    → (can_plan s ≡ can_deploy s)
      × (can_apply s ≡ can_deploy s)
      × (can_approve s ≡ can_operate s)
      × (can_manage_policies s ≡ can_operate s)
      × (can_import s ≡ can_operate s)
      × (can_manage_settings s ≡ can_admin s)
      × (can_manage_users s ≡ can_admin s)
unfolding can_plan can_apply can_approve can_manage_policies can_import can_manage_settings
    can_manage_users ranks
can_granular s = (refl, refl, refl, refl, refl, refl, refl)
