-- ===== src/Auth/Reachable.antt =====
-- The sessions that a browser tab can get to.
use Prim.Native.String.{String}
use wolkvorm.Base.{
  ℕ, List, Option, none, some, Bool, true, false, string_eq, ◌≡◌, ◌≢◌, refl, ◌⊎◌, inl, inr, arith,
}
use wolkvorm.Auth.{
  User, Session, page_load, set_token, load_setup_status, MeReply, me, refused, restore_session,
  LoginReply, accepted, rejected, failed, ChangeReply, changed, rejected, failed, login, logout,
  complete_setup, change_password, auth_fetched, is_authenticated,
}
use wolkvorm.Auth.Routes.{Page, page, login as login_page, setup, app, app_guards}

-- A step of the tab. The login form is on the screen when it is sent, which is on the login page
-- while no password change is pending, and the form for a new password while one is. The setup form
-- is sent after the session has been restored, and the server completes a setup only while it has no
-- users: not for a tab that holds a user whom it has authenticated.
pub data Step : Session → Session → Type 0 where
  status : (s : Session) (answer : Option Bool) → Step s (load_setup_status answer s)
  restore : (s : Session) (reply : MeReply) → s.loading ≡ true → Step s (restore_session reply s)
  log_in :
      (s : Session) (reply : LoginReply) (path : List String)
      → app s path ≡ page login_page
      → s.must_change_password ≡ false
      → Step s (login reply s).0
  log_out : (s : Session) → Step s (logout s)
  set_up :
      (s : Session) (token : Option String) (u : User)
      → s.loading ≡ false
      → s.pending_user ≡ none
      → Step s (complete_setup token u s)
  change :
      (s : Session) (reply : ChangeReply)
      → s.must_change_password ≡ true
      → Step s (change_password reply s).0
  fetched : (s : Session) (code : ℕ) (path : String) → Step s (auth_fetched code path s)

pub data Reach : Session → Type 0 where
  load : (token : Option String) (stored : Option User) → Reach (page_load token stored)
  next : {s t : Session} → Reach s → Step s t → Reach t

-- While a password change is pending nobody is signed in, and it is known who must make it; before
-- the session is restored neither is the case.
record IsGuarded (s : Session) : Type 0 where
  held : s.must_change_password ≡ true → s.user ≡ none
  holder : s.must_change_password ≡ true → s.pending_user ≢ none
  fresh : s.loading ≡ true → (s.user ≡ none) × (s.must_change_password ≡ false)

set_token-IsGuarded :
    (token : Option String) (s : Session) → IsGuarded s → IsGuarded (set_token token s)
unfolding set_token
set_token-IsGuarded none s h = record { held = h.held; holder = h.holder; fresh = h.fresh }
set_token-IsGuarded (some t) s h = record { held = h.held; holder = h.holder; fresh = h.fresh }

login-IsGuarded :
    (s : Session) (reply : LoginReply)
    → s.loading ≡ false
    → s.must_change_password ≡ false
    → s.user ≡ none
    → IsGuarded (login reply s).0
unfolding login set_token
login-IsGuarded s (accepted none u) l m n = ground arith
login-IsGuarded s (accepted (some t) u) l m n = ground arith
login-IsGuarded s (rejected text) l m n = ground arith
login-IsGuarded s (failed text) l m n = ground arith

restore-IsGuarded :
    (s : Session) (reply : MeReply)
    → s.loading ≡ true
    → IsGuarded s
    → IsGuarded (restore_session reply s)
unfolding restore_session
restore-IsGuarded s (me u) l h = ground arith
restore-IsGuarded s refused l h = ground arith

change-IsGuarded :
    (s : Session) (reply : ChangeReply)
    → s.must_change_password ≡ true
    → IsGuarded s
    → IsGuarded (change_password reply s).0
unfolding change_password
change-IsGuarded s (changed none none) m h = ground arith
change-IsGuarded s (changed none (some u)) m h = ground arith
change-IsGuarded s (changed (some t) none) m h = ground arith
change-IsGuarded s (changed (some t) (some u)) m h = ground arith
change-IsGuarded s (rejected text) m h = h
change-IsGuarded s (failed text) m h = h

at_login :
    (s : Session) (path : List String)
    → app s path ≡ page login_page
    → IsGuarded s
    → s.must_change_password ≡ false
    → (s.loading ≡ false) × (s.user ≡ none)
unfolding is_authenticated
at_login s path e h m = elim (app_guards s path login_page e) [
  | inl setup_eq ↦ cc
  | inr (inl (_, l, r)) ↦ (l, ground arith)
  | inr (inr (_, (other, _), _, _)) ↦ absurd (other refl)
]

Step-IsGuarded : {s t : Session} → Step s t → IsGuarded s → IsGuarded t
unfolding load_setup_status logout set_token complete_setup auth_fetched page_load
Step-IsGuarded (status s none) h = h
Step-IsGuarded (status s (some b)) h = ground arith
Step-IsGuarded (restore s reply l) h = restore-IsGuarded s reply l h
Step-IsGuarded (log_in s reply path e m) h =
    let (l, n) = at_login s path e h m in login-IsGuarded s reply l m n
Step-IsGuarded (log_out s) h = ground arith
Step-IsGuarded (set_up s none u l e) h = ground arith
Step-IsGuarded (set_up s (some t) u l e) h = ground arith
Step-IsGuarded (change s reply m) h = change-IsGuarded s reply m h
Step-IsGuarded (fetched s code path) h = ground arith

Reach-IsGuarded : {s : Session} → Reach s → IsGuarded s
unfolding page_load
Reach-IsGuarded (load token stored) = ground arith
Reach-IsGuarded (next r step) = Step-IsGuarded step (Reach-IsGuarded r)

-- In every session that a tab can reach, a pending password change keeps every page but the login
-- page and the setup page off the screen, whatever the path.
pub Reach-held :
    {s : Session} (path : List String) (p : Page)
    → Reach s
    → s.must_change_password ≡ true
    → app s path ≡ page p
    → (p ≡ login_page) ⊎ (p ≡ setup)
unfolding is_authenticated
Reach-held {s} path p r m e = elim (app_guards s path p e) [
  | inl at_setup ↦ inr at_setup
  | inr (inl (at_login, _, _)) ↦ inl at_login
  | inr (inr ((_, _, signed_in), _, _, _)) ↦
      let nobody = (Reach-IsGuarded r).held m in ground (arith, nobody)
]
