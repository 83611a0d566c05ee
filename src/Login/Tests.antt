-- ===== src/Login/Tests.antt =====
-- A user who must change the password: right after the login, and after a reload.
use wolkvorm.Base.{List, [], ◌∷◌, none, some, true, false, Text, codes, ◌≡◌, refl, arith}
use wolkvorm.Auth.{User, Session, ChangeReply, accepted, changed, rejected}
use wolkvorm.Login.{
  Login, open_login, handle_login, change_request, Event, new_password_typed, confirm_typed,
  change_submitted, run,
}
use wolkvorm.Login.Change.{change_request-handle_login, run-held}

abbrev user : User
user = record { username = "ada"; role = "deployer"; must_change_password = true }

abbrev session : Session
session = record {
  user = none;
  loading = false;
  must_change_password = true;
  needs_setup = false;
  pending_user = some user;
  token = some "t";
  stored_user = none;
}

abbrev form : Login
form = record open_login { username = codes "ada"; password = codes "first1" }

change_request-handle_login_example :
    change_request (record (handle_login (accepted (some "t") user) (form, session)).0 {
      change_new_password = codes "second2";
      confirm_change_password = codes "second2";
    })
    ≡ some (codes "first1", codes "second2")
unfolding open_login
change_request-handle_login_example =
    change_request-handle_login form session (some "t") user (codes "second2") refl (ground arith)

-- A server whose user has the password `first1`.
abbrev server : Text → Text → ChangeReply
server [] new = rejected "Current password is incorrect"
server (c ∷ current) new = changed (some "u") none

abbrev attempt : List Event
attempt =
    new_password_typed (codes "second2") ∷ confirm_typed (codes "second2") ∷ change_submitted ∷ []

run-held_example : (run server (open_login, session) attempt).1 ≡ session
run-held_example =
    run-held server (λ new. ("Current password is incorrect", refl)) session attempt refl
