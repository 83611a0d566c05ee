-- ===== src/Auth/Tests.antt =====
-- Sessions of a signed-in operator, and of a user who must change the password.
use wolkvorm.Base.{Bool, [], ◌∷◌, none, some, true, false, string_eq, ◌≡◌, ◌≢◌, ◌⊎◌, refl}
use wolkvorm.Auth.{
  User, Session, page_load, me, restore_session, can_deploy, can_operate, can_admin, can_plan,
  can_apply, can_approve, can_manage_policies, can_import, can_manage_settings, can_manage_users,
  is_authenticated,
}
use wolkvorm.Auth.Permissions.{can_granular}
use wolkvorm.Auth.Routes.{
  login, setup, settings, policies, import_page, app, IsSignedIn, app_guards,
}
use wolkvorm.Auth.Reachable.{load, next, restore, Reach-held}

abbrev user : Bool → User
user must = record { username = "ada"; role = "operator"; must_change_password = must }

abbrev loaded : Session
loaded = page_load (some "t") none

abbrev signed_in : Session
signed_in = restore_session (me (user false)) loaded

abbrev held_back : Session
held_back = restore_session (me (user true)) loaded

can_granular_example :
    (can_plan signed_in ≡ can_deploy signed_in)
    × (can_apply signed_in ≡ can_deploy signed_in)
    × (can_approve signed_in ≡ can_operate signed_in)
    × (can_manage_policies signed_in ≡ can_operate signed_in)
    × (can_import signed_in ≡ can_operate signed_in)
    × (can_manage_settings signed_in ≡ can_admin signed_in)
    × (can_manage_users signed_in ≡ can_admin signed_in)
can_granular_example = can_granular signed_in

app_guards_example :
    (policies ≡ setup)
    ⊎ ((policies ≡ login)
        × (signed_in.loading ≡ false)
        × ((is_authenticated signed_in ≡ true) → signed_in.must_change_password ≡ true))
    ⊎ (IsSignedIn signed_in
        × ((policies ≢ login) × (policies ≢ setup))
        × (policies ≡ settings → can_admin signed_in ≡ true)
        × (policies ≡ import_page → can_import signed_in ≡ true))
unfolding app restore_session page_load is_authenticated
app_guards_example = app_guards signed_in ("policies" ∷ []) policies refl

Reach-held_example : (login ≡ login) ⊎ (login ≡ setup)
unfolding app restore_session page_load is_authenticated
Reach-held_example =
    Reach-held {s = held_back} ("login" ∷ []) login
      (next (load (some "t") none) (restore loaded (me (user true)) refl)) refl refl
