-- ===== src/Login/Reset.antt =====
-- frontend/src/pages/LoginPage.js: the forms of a forgotten password. The delayed steps come as events
-- of their own, since the user can go to another form before they do.
use wolkvorm.Base.{
  ◌≤◌, [], ◌∷◌, Option, none, some, Bool, true, false, not, ◌==◌, ==-iff, text_eq, if◌then◌else◌,
  Bool-cases, ltb, length, Text, codes, ◌≡◌, ◌↔◌, inl, inr, arith,
}

pub data View : Type 0 where
  login forgot reset : View

pub record Reset : Type 0 where
  pub view : View
  pub error : Text
  pub loading : Bool
  pub success_message : Text
  pub forgot_username : Text
  pub reset_username : Text
  pub reset_code : Text
  pub new_password : Text
  pub confirm_new_password : Text

unfoldable pub open_reset : Reset
open_reset = record {
  view = login;
  error = [];
  loading = false;
  success_message = [];
  forgot_username = [];
  reset_username = [];
  reset_code = [];
  new_password = [];
  confirm_new_password = [];
}

unfoldable pub switch_view : View → Reset → Reset
switch_view v r = record r { error = []; success_message = []; view = v }

-- "Forgot password?", with the user name of the login form.
unfoldable pub forgot_password : Text → Reset → Reset
unfolding switch_view
forgot_password username r = switch_view forgot (record r { forgot_username = username })

abbrev or_text : Text → Text → Text
or_text [] other = other
or_text (c ∷ t) other = c ∷ t

-- `handleForgotPassword` up to its request, which carries the user name.
unfoldable pub start_forgot : Reset → Reset × Text
start_forgot r = (record r { error = []; success_message = []; loading = true }, r.forgot_username)

-- The answer: a message, an error status with the text of its `error`, or a failure. `asked` is the
-- user name of the rendering that made the request.
pub data ForgotReply : Type 0 where
  code_sent : (message : Text) → ForgotReply
  rejected failed : Text → ForgotReply

unfoldable pub end_forgot : (asked : Text) → ForgotReply → Reset → Reset
end_forgot asked (code_sent message) r = record r {
  success_message = message;
  reset_username = asked;
  loading = false;
}
end_forgot asked (rejected text) r = record r {
  error = or_text text (codes "Request failed");
  loading = false;
}
end_forgot asked (failed text) r = record r { error = text; loading = false }

-- Three seconds after the code was sent.
unfoldable pub forgot_done : Reset → Reset
forgot_done r = record r { view = reset; success_message = [] }

pub record Body : Type 0 where
  pub username : Text
  pub reset_code : Text
  pub new_password : Text

abbrev pub body_of : Reset → Body
body_of r = record {
  username = r.reset_username;
  reset_code = r.reset_code;
  new_password = r.new_password;
}

-- `handleResetPassword` up to its request, and the request, if it is made.
unfoldable pub handle_reset_password : Reset → Reset × Option Body
handle_reset_password r =
    if not (r.new_password == r.confirm_new_password)
    then (record r { error = codes "Passwords do not match"; success_message = [] }, none)
    else if ltb (length r.new_password) 6
    then (
      record r { error = codes "Password must be at least 6 characters"; success_message = [] },
      none,
    )
    else (record r { error = []; success_message = []; loading = true }, some (body_of r))

-- The answer: success, with a token or without, an error status, or a failure.
pub data ResetReply : Type 0 where
  signed_in : (token : Text) → ResetReply
  changed : ResetReply
  rejected failed : Text → ResetReply

-- The second result is the token that is put into `localStorage`.
unfoldable pub end_reset : ResetReply → Reset → Reset × Option Text
end_reset (signed_in token) r = (
  record r { success_message = codes "Password reset successful! Redirecting..."; loading = false },
  some token,
)
end_reset changed r = (
  record r {
    success_message = codes "Password reset successful! You can now sign in.";
    loading = false;
  },
  none,
)
end_reset (rejected text) r =
    (record r { error = or_text text (codes "Reset failed"); loading = false }, none)
end_reset (failed text) r = (record r { error = text; loading = false }, none)

-- Two seconds after a reset without a token.
unfoldable pub reset_done : Reset → Reset
reset_done r = record r { view = login; success_message = []; error = [] }

-- The request is made exactly if the password is typed twice alike and has six characters or more, and
-- it carries the name, the code and the password of the form.
pub handle_reset_password-body_of :
    (r : Reset) (b : Body)
    → ((handle_reset_password r).1 ≡ some b)
      ↔ ((r.new_password ≡ r.confirm_new_password) × (6 ≤ length r.new_password) × (b ≡ body_of r))
unfolding handle_reset_password
handle_reset_password-body_of r b = elim (Bool-cases (r.new_password == r.confirm_new_password)) [
  | inr differ ↦
      rw differ
        (λ e. cc, λ (same, _, _). cc ((==-iff r.new_password r.confirm_new_password).1 same))
  | inl same ↦ elim (Bool-cases (ltb (length r.new_password) 6)) [
    | inl short ↦ rw (same, short) (λ e. cc, λ (_, n, _). absurd (ground arith))
    | inr long ↦
        rw (same, long)
          (
            λ e. ((==-iff r.new_password r.confirm_new_password).0 same, ground arith, cc),
            λ (_, _, e). cc,
          )
  ]
]
