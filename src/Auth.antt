-- ===== src/Auth.antt =====
-- frontend/src/contexts/AuthContext.js and frontend/src/config.js: the session of the browser tab,
-- with the two entries of `localStorage` that it keeps. `Routes` is frontend/src/App.js.
pub mod Permissions
pub mod Routes
pub mod Reachable
mod Tests
use Prim.Native.String.{String}
use wolkvorm.Base.{
  ℕ, List, [], ◌∷◌, Option, none, some, Bool, true, false, not, ◌==◌, string_eq, if◌then◌else◌, leb,
  eqb, ◌≡◌, refl,
}

pub record User : Type 0 where
  pub username : String
  pub role : String
  pub must_change_password : Bool

-- The state of `AuthProvider`; `token` is `tf_token` and `stored_user` is `tf_user`.
pub record Session : Type 0 where
  pub user : Option User
  pub loading : Bool
  pub must_change_password : Bool
  pub needs_setup : Bool
  pub pending_user : Option User
  pub token : Option String
  pub stored_user : Option User

-- A page load: the state starts afresh, and `localStorage` stays.
pub page_load : Option String → Option User → Session
page_load token stored = record {
  user = none;
  loading = true;
  must_change_password = false;
  needs_setup = false;
  pending_user = none;
  token = token;
  stored_user = stored;
}

-- `setToken`: a missing or empty token removes the entry.
pub set_token : Option String → Session → Session
set_token none s = record s { token = none }
set_token (some t) s = record s { token = if t == "" then none else some t }

-- `setUser(u)` and `localStorage.setItem("tf_user", …)`.
abbrev sign_in : User → Session → Session
sign_in u s = record s { user = some u; stored_user = some u }

-- `setPendingUser(u)` and `setMustChangePassword(true)`.
abbrev hold : User → Session → Session
hold u s = record s { pending_user = some u; must_change_password = true }

-- The effect that asks for the setup status; `none` is a request that failed.
pub load_setup_status : Option Bool → Session → Session
load_setup_status none s = s
load_setup_status (some b) s = record s { needs_setup = b }

-- What `/api/auth/me` answers; `refused` stands for any failure, of the network too.
pub data MeReply : Type 0 where
  me : User → MeReply
  refused : MeReply

restored : MeReply → Session → Session
restored (me u) s = if u.must_change_password then hold u s else sign_in u s
restored refused s = record (set_token none s) { stored_user = none; user = none }

-- The effect that restores the session.
pub restore_session : MeReply → Session → Session
unfolding restored set_token
restore_session reply s = elim s.token [
  | none ↦ record s { loading = false }
  | some t ↦ record (restored reply s) { loading = false }
]

pub data Result : Type 0 where
  ok : Result
  err : String → Result

-- The answers to the requests that change the session. An answer with an error status carries the
-- text of its `error` field, "" if there is none; `failed` is a request that threw.
pub data LoginReply : Type 0 where
  accepted : (token : Option String) (user : User) → LoginReply
  rejected : String → LoginReply
  failed : String → LoginReply

pub data ChangeReply : Type 0 where
  changed : (token : Option String) (user : Option User) → ChangeReply
  rejected : String → ChangeReply
  failed : String → ChangeReply

-- `data.error || fallback`
abbrev or_else : String → String → String
or_else text fallback = if text == "" then fallback else text

pub login : LoginReply → Session → Session × Result
unfolding set_token
login (accepted token u) s =
    let stored = set_token token s in
    (if u.must_change_password then hold u stored else sign_in u stored, ok)
login (rejected text) s = (s, err (or_else text "Login failed"))
login (failed text) s = (s, err text)

pub logout : Session → Session
unfolding set_token
logout s = record (set_token none s) {
  stored_user = none;
  user = none;
  must_change_password = false;
  pending_user = none;
}

pub complete_setup : Option String → User → Session → Session
unfolding set_token
complete_setup token u s = record (set_token token s) {
  user = some u;
  needs_setup = false;
  stored_user = some u;
}

-- `if (data.token) setToken(data.token)`
new_token : Option String → Session → Session
unfolding set_token
new_token none s = s
new_token (some t) s = if t == "" then s else set_token (some t) s

new_user : Option User → Session → Session
new_user none s = s
new_user (some u) s = sign_in u s

pub change_password : ChangeReply → Session → Session × Result
unfolding new_token new_user
change_password (changed token u) s = (
  record (new_user u (new_token token s)) { must_change_password = false; pending_user = none },
  ok,
)
change_password (rejected text) s = (s, err (or_else text "Password change failed"))
change_password (failed text) s = (s, err text)

-- A refused change leaves the session as it is.
pub change_password-rejected :
    (text : String) (s : Session)
    → (message : String) × (change_password (rejected text) s ≡ (s, err message))
unfolding change_password
change_password-rejected text s = (or_else text "Password change failed", refl)

-- What `authFetch` does with the status of a response on the page `path`: on 401 the entries of
-- `localStorage` go, and any page but the login page is left for it, which loads the login page.
pub auth_fetched : ℕ → String → Session → Session
auth_fetched status path s =
    if eqb status 401
    then (if path == "/login"
        then record s { token = none; stored_user = none }
        else page_load none none)
    else s

-- `{ viewer: 1, deployer: 2, operator: 3, admin: 4 }[role] || 0`
pub role_level : String → ℕ
role_level role =
    if role == "viewer"
    then 1
    else if role == "deployer"
    then 2
    else if role == "operator"
    then 3
    else if role == "admin"
    then 4
    else 0

abbrev role_or : Option User → String → String
role_or none other = other
role_or (some u) other = or_else u.role other

pub role : Session → String
role s = role_or s.user (role_or s.pending_user "viewer")

pub is_authenticated : Session → Bool
is_authenticated s = elim s.user [ none ↦ false | some u ↦ true ]

-- The permission helpers of the context's value.
module _ (s : Session) where
  abbrev level : ℕ
  level = role_level (role s)

  pub can_view : Bool
  can_view = leb (role_level "viewer") level

  pub can_deploy : Bool
  can_deploy = leb (role_level "deployer") level

  pub can_operate : Bool
  can_operate = leb (role_level "operator") level

  pub can_admin : Bool
  can_admin = leb (role_level "admin") level

  pub can_plan : Bool
  can_plan = leb (role_level "deployer") level

  pub can_apply : Bool
  can_apply = leb (role_level "deployer") level

  pub can_approve : Bool
  can_approve = leb (role_level "operator") level

  pub can_manage_policies : Bool
  can_manage_policies = leb (role_level "operator") level

  pub can_import : Bool
  can_import = leb (role_level "operator") level

  pub can_manage_settings : Bool
  can_manage_settings = leb (role_level "admin") level

  pub can_manage_users : Bool
  can_manage_users = leb (role_level "admin") level
