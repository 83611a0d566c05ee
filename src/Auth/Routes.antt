-- ===== src/Auth/Routes.antt =====
-- The routes of frontend/src/App.js. A path is the list of its segments, as the router splits it, and is compared
-- as it is written; that the router takes no account of case is not modelled.
-- `Links` is the navigation bar.
pub mod Links
use Prim.Native.String.{String}
use wolkvorm.Base.{
  List, [], ◌∷◌, ◌++◌, Bool, true, false, not, ◌==◌, string_eq, ◌&&◌, if◌then◌else◌, All,
  All-append, Bool-cases, ap, ◌∙◌, subst, ◌≡◌, ◌≢◌, ◌⊎◌, inl, inr, refl, arith,
}
use wolkvorm.Auth.{Session, is_authenticated, can_admin, can_import, can_operate}
use wolkvorm.Auth.Permissions.{can_granular}

pub data Page : Type 0 where
  dashboard home my_resources settings costs audit approvals policies graph import_page login
        setup :
      Page
  resource : (id : String) → Page

-- What is on the screen: a spinner, a redirection, or a page; `blank` is the layout with no page.
pub data Screen : Type 0 where
  spinner : Screen
  redirect : String → Screen
  page : Page → Screen
  blank : Screen

protected_route : Session → Screen → Screen
protected_route s children =
    if s.loading
    then spinner
    else if s.needs_setup
    then redirect "/setup"
    else if is_authenticated s
    then children
    else redirect "/login"

public_route : Session → Screen → Screen
public_route s children =
    if s.loading
    then spinner
    else if s.needs_setup
    then redirect "/setup"
    else if is_authenticated s && not s.must_change_password
    then redirect "/"
    else children

require_role : Session → (Session → Bool) → Screen → Screen
require_role s check children = if check s then children else redirect "/"

-- The routes of `AppLayout`.
app_layout : Session → List String → Screen
app_layout s [] = page dashboard
app_layout s (p ∷ []) =
    if p == "resources"
    then page home
    else if p == "my-resources"
    then page my_resources
    else if p == "settings"
    then require_role s can_admin (page settings)
    else if p == "costs"
    then page costs
    else if p == "audit"
    then page audit
    else if p == "approvals"
    then page approvals
    else if p == "policies"
    then page policies
    else if p == "graph"
    then page graph
    else if p == "import"
    then require_role s can_import (page import_page)
    else blank
app_layout s (p ∷ id ∷ []) = if p == "resource" then page (resource id) else blank
app_layout s (p ∷ q ∷ r ∷ ps) = blank

is_path : String → List String → Bool
is_path name [] = false
is_path name (p ∷ []) = p == name
is_path name (p ∷ q ∷ ps) = false

-- The routes of `App`.
unfoldable pub app : Session → List String → Screen
unfolding protected_route public_route require_role app_layout is_path
app s path =
    if is_path "setup" path
    then page setup
    else if is_path "login" path
    then public_route s (page login)
    else protected_route s (app_layout s path)

-- The session is loaded, the application is set up, and a user is signed in.
abbrev pub IsSignedIn : Session → Type 0
IsSignedIn s = (s.loading ≡ false) × (s.needs_setup ≡ false) × (is_authenticated s ≡ true)

protected-IsSignedIn :
    (s : Session) (children : Screen) (p : Page)
    → protected_route s children ≡ page p
    → IsSignedIn s × (children ≡ page p)
unfolding protected_route
protected-IsSignedIn s children p h = ground arith

app_layout-settings :
    (s : Session) (path : List String) → app_layout s path ≡ page settings → can_admin s ≡ true
unfolding app_layout require_role
app_layout-settings s [] h = cc
app_layout-settings s (p ∷ []) h = ground arith
app_layout-settings s (p ∷ id ∷ []) h = ground arith
app_layout-settings s (p ∷ q ∷ r ∷ ps) h = cc

app_layout-import :
    (s : Session) (path : List String) → app_layout s path ≡ page import_page → can_import s ≡ true
unfolding app_layout require_role
app_layout-import s [] h = cc
app_layout-import s (p ∷ []) h = ground arith
app_layout-import s (p ∷ id ∷ []) h = ground arith
app_layout-import s (p ∷ q ∷ r ∷ ps) h = cc

abbrev IsInner : Screen → Type 0
IsInner spinner = Unit
IsInner (redirect to) = Unit
IsInner blank = Unit
IsInner (page p) = (p ≢ login) × (p ≢ setup)

if_keep {ℓ κ} :
    {A : Type ℓ} (P : A → Type κ) (b : Bool) {x y : A} → P x → P y → P (if b then x else y)
if_keep P true p q = p
if_keep P false p q = q

require_role-IsInner :
    (s : Session) (check : Session → Bool) (p : Page)
    → (p ≢ login) × (p ≢ setup)
    → IsInner (require_role s check (page p))
unfolding require_role
require_role-IsInner s check p h = if_keep IsInner (check s) h tt

app_layout-IsInner : (s : Session) (path : List String) → IsInner (app_layout s path)
unfolding app_layout
app_layout-IsInner s [] = ground arith
app_layout-IsInner s (p ∷ []) = if_keep IsInner (p == "resources") (ground arith) (
    if_keep IsInner (p == "my-resources") (ground arith) (
      if_keep IsInner (p == "settings") (require_role-IsInner s can_admin settings (ground arith)) (
        if_keep IsInner (p == "costs") (ground arith) (
          if_keep IsInner (p == "audit") (ground arith) (
            if_keep IsInner (p == "approvals") (ground arith) (
              if_keep IsInner (p == "policies") (ground arith) (
                if_keep IsInner (p == "graph") (ground arith) (
                  if_keep IsInner (p == "import")
                    (require_role-IsInner s can_import import_page (ground arith)) tt))))))))
app_layout-IsInner s (p ∷ id ∷ []) = if_keep IsInner (p == "resource") (ground arith) tt
app_layout-IsInner s (p ∷ q ∷ r ∷ ps) = tt

app_layout-ne :
    (s : Session) (path : List String) (p : Page)
    → app_layout s path ≡ page p
    → (p ≢ login) × (p ≢ setup)
app_layout-ne s path p h = subst IsInner h (app_layout-IsInner s path)

-- What the screen shows is allowed: the login page only to a session that is not both signed in and
-- free of a pending password change; the setup page to all; and any other page only to a signed-in session of an
-- application that is set up; settings only to an administrator, and import only to an operator.
pub app_guards :
    (s : Session) (path : List String) (p : Page)
    → app s path ≡ page p
    → (p ≡ setup)
      ⊎ ((p ≡ login)
          × (s.loading ≡ false)
          × ((is_authenticated s ≡ true) → s.must_change_password ≡ true))
      ⊎ (IsSignedIn s
          × ((p ≢ login) × (p ≢ setup))
          × (p ≡ settings → can_admin s ≡ true)
          × (p ≡ import_page → can_import s ≡ true))
unfolding app
app_guards s path p h = elim (Bool-cases (is_path "setup" path)) [
  | inl at_setup ↦ inl (ground arith)
  | inr not_setup ↦ elim (Bool-cases (is_path "login" path)) [
    | inl at_login ↦ inr (inl (ground arith))
    | inr not_login ↦
        let (signed_in, shown) =
          protected-IsSignedIn s (app_layout s path) p (rw (not_setup, not_login) at h) in
        inr (
          inr (
            signed_in,
            app_layout-ne s path p shown,
            λ e. app_layout-settings s path (shown ∙ ap page e),
            λ e. app_layout-import s path (shown ∙ ap page e),
          ))
  ]
]
