-- ===== src/Navbar.antt =====
-- frontend/src/components/Navbar.js: the bar beside the pages. Its links are in Auth/Routes/Links.
use wolkvorm.Base.{
  ℕ, [], ◌∷◌, ◌++◌, Option, none, some, Bool, true, false, not, ◌&&◌, ◌||◌, ◌==◌, text_eq,
  if◌then◌else◌, ltb, Text, codes,
}
use wolkvorm.Text.{starts_with, includes}

pub record Configured : Type 0 where
  pub aws : Bool
  pub github : Bool

pub record Navbar : Type 0 where
  pub settings_status : Option Configured
  pub pending_approvals : ℕ
  pub collapsed : Bool
  pub resources_open : Bool

unfoldable pub open_navbar : Navbar
open_navbar = record {
  settings_status = none;
  pending_approvals = 0;
  collapsed = false;
  resources_open = true;
}

-- The effect: the settings, and the number of approvals that wait, if the requests succeed.
unfoldable pub load_settings : Option Configured → Navbar → Navbar
load_settings none n = n
load_settings (some c) n = record n { settings_status = some c }

unfoldable pub load_pending : Option ℕ → Navbar → Navbar
load_pending none n = n
load_pending (some k) n = record n { pending_approvals = k }

-- `isActive`, and the `match` of the link to the catalog.
unfoldable pub is_active : (pathname : Text) → Text → Bool
is_active pathname path =
    if path == codes "/" then pathname == codes "/" else starts_with pathname path

unfoldable pub is_resources : (pathname : Text) → Bool
is_resources pathname = pathname == codes "/resources" || starts_with pathname (codes "/resource/")

unfoldable pub sub_active : (pathname search : Text) → Text → Bool
sub_active pathname search provider =
    pathname == codes "/resources" && includes search (codes "provider=" ++ provider)

-- A click on one of the first four links: the bar, and the path to go to, if there is one.
unfoldable pub click : Text → Navbar → Navbar × Option Text
click to n =
    if to == codes "/resources" && not n.collapsed
    then (record n { resources_open = not n.resources_open }, none)
    else (n, some to)

unfoldable pub toggle_collapsed : Navbar → Navbar
toggle_collapsed n = record n { collapsed = not n.collapsed }

unfoldable pub shows_sub_links : Text → Navbar → Bool
shows_sub_links to n = to == codes "/resources" && not n.collapsed && n.resources_open

-- The number beside the approvals.
unfoldable pub badge : Navbar → Option ℕ
badge n = if not n.collapsed && ltb 0 n.pending_approvals then some n.pending_approvals else none

-- The dot beside the settings.
pub data Dot : Type 0 where
  success warning muted : Dot

unfoldable pub status_dot : Navbar → Dot
status_dot n = elim n.settings_status [
  | none ↦ muted
  | some c ↦ if c.aws && c.github then success else warning
]

abbrev or_text : Text → Text → Text
or_text [] other = other
or_text (c ∷ t) other = c ∷ t

-- The name of the user, and the letter of the avatar, over `toUpperCase`.
unfoldable pub user_name : (display_name username : Text) → Text
user_name display_name username = or_text display_name (or_text username (codes "User"))

abbrev first_unit : Text → Text
first_unit [] = []
first_unit (c ∷ t) = c ∷ []

unfoldable pub avatar : (Text → Text) → (display_name username : Text) → Text
avatar to_upper display_name username =
    to_upper (first_unit (or_text display_name (or_text username (codes "U"))))
