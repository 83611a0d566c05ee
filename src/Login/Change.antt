-- ===== src/Login/Change.antt =====
-- The password that a change request names as the current one.
use Prim.Native.String.{String}
use wolkvorm.Base.{
  ◌≤◌, List, [], ◌∷◌, Option, none, some, true, false, ◌==◌, ==-refl, text_eq, if◌then◌else◌,
  Bool-cases, ltb, length, Text, ◌≡◌, refl, sym, subst, ap, ◌∙◌, inl, inr, arith,
}
use wolkvorm.Auth.{
  User, Session, ChangeReply, accepted, rejected, change_password, Result, ok, err,
  change_password-rejected,
}
use wolkvorm.Login.{
  Login, logged_in, handle_login, change_request, answered, finish, send, open_login,
  handle_change_password, Event, username_typed, password_typed, login_submitted,
  new_password_typed, confirm_typed, change_submitted, step, run,
}

-- After a login that asks for a password change, typing a new password of six characters or more
-- twice makes a request that carries the password of the login and the new one.
pub change_request-handle_login :
    (l : Login) (s : Session) (token : Option String) (u : User) (p : Text)
    → u.must_change_password ≡ true
    → 6 ≤ length p
    → change_request (record (handle_login (accepted token u) (l, s)).0 {
      change_new_password = p;
      confirm_change_password = p;
    })
      ≡ some (l.password, p)
unfolding change_request handle_login logged_in
change_request-handle_login l s token u p must n =
    let long : ltb (length p) 6 ≡ false = ground arith in rw (must, ==-refl p, long) refl

change_request-current :
    (l : Login) (current new : Text)
    → change_request l ≡ some (current, new)
    → current ≡ l.current_password_for_change
unfolding change_request
change_request-current l current new h =
    elim (Bool-cases (l.change_new_password == l.confirm_change_password)) [
      | inr differ ↦ cc (rw differ at h)
      | inl same ↦ elim (Bool-cases (ltb (length l.change_new_password) 6)) [
        | inl short ↦ cc (rw (same, short) at h)
        | inr long ↦ let e = rw (same, long) at h in cc
      ]
    ]

-- No current password is known, and the session is the given one.
abbrev IsHeld : Session → Login × Session → Type 0
IsHeld s t = (t.0.current_password_for_change ≡ []) × (t.1 ≡ s)

finish-IsHeld :
    (l : Login) (s s' : Session) (r : Result)
    → l.current_password_for_change ≡ []
    → s' ≡ s
    → IsHeld s (finish (s', r) l)
unfolding finish answered
finish-IsHeld l s s' ok h e = (h, e)
finish-IsHeld l s s' (err text) h e = (h, e)

module _ (server : Text → Text → ChangeReply)
    (refuses : (new : Text) → (text : String) × (server [] new ≡ rejected text)) where
  send-IsHeld :
      (l : Login) (s : Session) (o : Option (Text × Text))
      → change_request l ≡ o
      → l.current_password_for_change ≡ []
      → IsHeld s (send server o (l, s))
  unfolding send
  send-IsHeld l s none e h = (h, refl)
  send-IsHeld l s (some (current, new)) e h =
      let (text, answer) = refuses new in
      let (message, kept) = change_password-rejected text s in
      let asked : server current new ≡ rejected text =
        ap (λ c. server c new) (change_request-current l current new e ∙ h) ∙ answer in
      let done : change_password (server current new) s ≡ (s, err message) =
        ap (λ (r : ChangeReply). change_password r s) asked ∙ kept in
      subst (λ (p : Session × Result). IsHeld s (finish p l)) (sym done)
        (finish-IsHeld l s s (err message) h refl)

  step-IsHeld :
      (s : Session) (t : Login × Session) (e : Event)
      → s.must_change_password ≡ true
      → IsHeld s t
      → IsHeld s (step server t e)
  unfolding step handle_change_password
  step-IsHeld s (l, s') (username_typed x) m (h, k) = rw k (rw m (h, refl))
  step-IsHeld s (l, s') (password_typed x) m (h, k) = rw k (rw m (h, refl))
  step-IsHeld s (l, s') (login_submitted reply) m (h, k) = rw k (rw m (h, refl))
  step-IsHeld s (l, s') (new_password_typed x) m (h, k) = rw k (rw m (h, refl))
  step-IsHeld s (l, s') (confirm_typed x) m (h, k) = rw k (rw m (h, refl))
  step-IsHeld s (l, s') change_submitted m (h, k) = rw k (
      subst (λ b. IsHeld s (if b then send server (change_request l) (l, s) else (l, s))) (sym m)
        (send-IsHeld l s (change_request l) refl h))

  keeps_IsHeld :
      (s : Session) (t : Login × Session) (es : List Event)
      → s.must_change_password ≡ true
      → IsHeld s t
      → IsHeld s (run server t es)
  unfolding run
  keeps_IsHeld s t [] m h = h
  keeps_IsHeld s t (e ∷ es) m h = keeps_IsHeld s (step server t e) es m (step-IsHeld s t e m h)

-- When the login page is opened in a session with a pending password change, as after a reload, and
-- the server refuses an empty current password, nothing that the user does on the page changes the
-- session: the password change stays pending.
pub run-held :
    (server : Text → Text → ChangeReply)
    → ((new : Text) → (text : String) × (server [] new ≡ rejected text))
    → (s : Session) (es : List Event) → s.must_change_password ≡ true
    → (run server (open_login, s) es).1 ≡ s
unfolding open_login
run-held server refuses s es m =
    let (_, kept) = keeps_IsHeld server refuses s (open_login, s) es m (refl, refl) in kept
