-- ===== src/Setup.antt =====
-- frontend/src/pages/SetupPage.js: the form that makes the first account. It stands at `/setup`
-- whether or not the application is set up.
pub mod Guards
pub mod Stronger
mod Tests
use Prim.Native.String.{String}
use wolkvorm.Base.{
  ℕ, ◌+◌, List, [], ◌∷◌, Option, none, some, Bool, true, false, not, ◌&&◌, ◌||◌, ◌==◌, text_eq,
  string_eq, if◌then◌else◌, any, leb, ltb, length, Text, codes,
}
use wolkvorm.Text.{trim, is_nonempty}
use wolkvorm.Text.Regex.{is_digit}
use wolkvorm.Auth.{User, Session, complete_setup}

pub record Setup : Type 0 where
  pub username : Text
  pub password : Text
  pub confirm_password : Text
  pub display_name : Text
  pub error : Text
  pub loading : Bool

unfoldable pub open_setup : Setup
open_setup = record {
  username = codes "admin";
  password = [];
  confirm_password = [];
  display_name = [];
  error = [];
  loading = false;
}

-- The labels of `getPasswordStrength`; the colors and widths follow them.
pub data Strength : Type 0 where
  empty weak fair good strong very_strong : Strength

abbrev is_upper : ℕ → Bool
is_upper c = leb b'A' c && leb c b'Z'

abbrev is_lower : ℕ → Bool
is_lower c = leb b'a' c && leb c b'z'

abbrev is_special : ℕ → Bool
is_special c = not (is_upper c || is_lower c || is_digit c)

-- `if (test) score++`
abbrev point : Bool → ℕ
point true = 1
point false = 0

pub score : Text → ℕ
score pw =
    point (leb 6 (length pw))
    + point (leb 10 (length pw))
    + point (any is_upper pw)
    + point (any is_digit pw)
    + point (any is_special pw)

strength_of : ℕ → Strength
strength_of n =
    if leb n 1
    then weak
    else if leb n 2
    then fair
    else if leb n 3
    then good
    else if leb n 4
    then strong
    else very_strong

unfoldable pub get_password_strength : Text → Strength
unfolding score strength_of
get_password_strength [] = empty
get_password_strength (c ∷ pw) = strength_of (score (c ∷ pw))

-- The body of the request.
pub record Body : Type 0 where
  pub username : Text
  pub password : Text
  pub display_name : Text

abbrev or_text : Text → Text → Text
or_text [] other = other
or_text (c ∷ t) other = c ∷ t

abbrev refuse : String → Setup → Setup × Option Body
refuse message s = (record s { error = codes message }, none)

abbrev pub body_of : Setup → Body
body_of s = record {
  username = trim s.username;
  password = s.password;
  display_name = or_text (trim s.display_name) (codes "Administrator");
}

-- `handleSubmit` up to its request, and the request, if it is made.
unfoldable pub handle_submit : Setup → Setup × Option Body
handle_submit s =
    if not (is_nonempty (trim s.username))
    then refuse "Username is required" s
    else if ltb (length s.password) 6
    then refuse "Password must be at least 6 characters" s
    else if not (s.password == s.confirm_password)
    then refuse "Passwords do not match" s
    else (record s { error = []; loading = true }, some (body_of s))

-- The answer: an account with its token, an error status with the text of its `error`, or a failure.
pub data Reply : Type 0 where
  created : (token : Option String) (user : User) → Reply
  rejected : Text → Reply
  failed : Text → Reply

-- The rest of `handleSubmit`: the form, the session, and whether the page is left for `/`.
pub end_submit : Reply → Setup × Session → (Setup × Session) × Bool
end_submit (created token user) (s, session) =
    ((record s { loading = false }, complete_setup token user session), true)
end_submit (rejected text) (s, session) =
    ((record s { error = or_text text (codes "Setup failed"); loading = false }, session), false)
end_submit (failed text) (s, session) =
    ((record s { error = text; loading = false }, session), false)
