-- ===== src/Login.antt =====
-- frontend/src/pages/LoginPage.js: the login form, and the form that a pending password change puts
-- in its place. A request and its answer are one step, since the button is disabled in between. The
-- forms of a forgotten password are in Reset.
pub mod Change
pub mod Particles
pub mod Reset
mod Tests
use Prim.Native.String.{String}
use wolkvorm.Base.{
  ℕ, List, [], ◌∷◌, Option, none, some, Bool, true, false, not, ◌==◌, text_eq, if◌then◌else◌, ltb,
  length, Text,
}
use wolkvorm.Auth.{
  User, Session, Result, ok, err, LoginReply, accepted, rejected, failed, ChangeReply, changed,
  rejected, failed, login, change_password,
}

pub record Login : Type 0 where
  pub username : Text
  pub password : Text
  pub error : String
  pub loading : Bool
  pub form_success : Bool
  pub change_new_password : Text
  pub confirm_change_password : Text
  pub current_password_for_change : Text

unfoldable pub open_login : Login
open_login = record {
  username = [];
  password = [];
  error = "";
  loading = false;
  form_success = false;
  change_new_password = [];
  confirm_change_password = [];
  current_password_for_change = [];
}

abbrev message_of : Result → String
message_of ok = ""
message_of (err text) = text

logged_in : User → Login → Login
logged_in u l =
    if u.must_change_password
    then record l { current_password_for_change = l.password; loading = false }
    else record l { form_success = true }

-- `handleLogin`, with the server's answer.
pub handle_login : LoginReply → Login × Session → Login × Session
unfolding logged_in
handle_login (accepted token u) (l, s) =
    (logged_in u (record l { error = ""; loading = true }), (login (accepted token u) s).0)
handle_login (rejected text) (l, s) =
    let (s', result) = login (rejected text) s in
    (record l { error = message_of result; loading = false }, s')
handle_login (failed text) (l, s) =
    let (s', result) = login (failed text) s in
    (record l { error = message_of result; loading = false }, s')

-- The two passwords that the change request carries, if it is made.
pub change_request : Login → Option (Text × Text)
change_request l =
    if not (l.change_new_password == l.confirm_change_password)
    then none
    else if ltb (length l.change_new_password) 6
    then none
    else some (l.current_password_for_change, l.change_new_password)

refusal : Login → String
refusal l =
    if not (l.change_new_password == l.confirm_change_password)
    then "Passwords do not match"
    else "Password must be at least 6 characters"

answered : Result → Login → Login
answered ok l = record l { error = ""; loading = true }
answered (err text) l = record l { error = text; loading = false }

finish : Session × Result → Login → Login × Session
unfolding answered
finish (s, result) l = (answered result l, s)

send : (Text → Text → ChangeReply) → Option (Text × Text) → Login × Session → Login × Session
unfolding refusal finish
send server none (l, s) = (record l { error = refusal l }, s)
send server (some (current, new)) (l, s) = finish (change_password (server current new) s) l

-- `handleChangePassword`; `server` answers a request from its two passwords.
pub handle_change_password : (Text → Text → ChangeReply) → Login × Session → Login × Session
unfolding change_request send
handle_change_password server (l, s) = send server (change_request l) (l, s)

pub data Event : Type 0 where
  username_typed : Text → Event
  password_typed : Text → Event
  login_submitted : LoginReply → Event
  new_password_typed : Text → Event
  confirm_typed : Text → Event
  change_submitted : Event

-- An event of the form that the session puts on the screen; one of the other form cannot happen.
abbrev on_login : (Login × Session → Login × Session) → Login × Session → Login × Session
on_login f (l, s) = if s.must_change_password then (l, s) else f (l, s)

abbrev on_change : (Login × Session → Login × Session) → Login × Session → Login × Session
on_change f (l, s) = if s.must_change_password then f (l, s) else (l, s)

pub step : (Text → Text → ChangeReply) → Login × Session → Event → Login × Session
unfolding handle_login handle_change_password
step server t (username_typed x) = on_login (λ (l, s). (record l { username = x }, s)) t
step server t (password_typed x) = on_login (λ (l, s). (record l { password = x }, s)) t
step server t (login_submitted reply) = on_login (handle_login reply) t
step server t (new_password_typed x) =
    on_change (λ (l, s). (record l { change_new_password = x }, s)) t
step server t (confirm_typed x) =
    on_change (λ (l, s). (record l { confirm_change_password = x }, s)) t
step server t change_submitted = on_change (handle_change_password server) t

pub run : (Text → Text → ChangeReply) → Login × Session → List Event → Login × Session
unfolding step
run server t [] = t
run server t (e ∷ es) = run server (step server t e) es
