-- ===== src/Settings/Rows.antt =====
-- frontend/src/pages/SettingsPage.js: what the section "User Management" shows, and the badge of a role.
-- A role named like a property of `Object.prototype` is not modelled.
use wolkvorm.Base.{
  List, [], ◌∷◌, Option, none, some, Bool, true, false, ◌==◌, text_eq, if◌then◌else◌, get, map,
  Text, codes, ◌≡◌, ◌↔◌, refl,
}
use wolkvorm.Settings.{Message, or_text}
use wolkvorm.Settings.Users.{User, Users, ask_delete, create_disabled}

-- The colors of a role: its background, its text and its border.
pub record Badge : Type 0 where
  pub bg : Text
  pub color : Text
  pub border : Text

abbrev badge : (bg color border : Text) → Badge
badge bg color border = record { bg = bg; color = color; border = border }

abbrev role_colors : List (Text × Badge)
role_colors =
    (
      codes "admin",
      badge (codes "rgba(139,92,246,0.15)") (codes "#a78bfa") (codes "rgba(139,92,246,0.3)"),
    )
    ∷ (
      codes "operator",
      badge (codes "rgba(59,130,246,0.15)") (codes "#60a5fa") (codes "rgba(59,130,246,0.3)"),
    )
    ∷ (
      codes "deployer",
      badge (codes "rgba(245,158,11,0.15)") (codes "#fbbf24") (codes "rgba(245,158,11,0.3)"),
    )
    ∷ (
      codes "viewer",
      badge (codes "rgba(148,163,184,0.15)") (codes "#94a3b8") (codes "rgba(148,163,184,0.3)"),
    )
    ∷ []

abbrev viewer_badge : Badge
viewer_badge =
    badge (codes "rgba(148,163,184,0.15)") (codes "#94a3b8") (codes "rgba(148,163,184,0.3)")

-- `ROLE_COLORS[role] || ROLE_COLORS.viewer`
unfoldable pub role_badge : Text → Badge
role_badge role = elim (get role role_colors) [ none ↦ viewer_badge | some b ↦ b ]

-- The buttons of a row: "Yes" and "No" beside a user whose deletion is asked for, else "Delete".
pub data Buttons : Type 0 where
  yes_and_no delete_only : Buttons

pub record Row : Type 0 where
  pub username : Text
  pub display_name : Text
  pub role : Text
  pub badge : Badge
  pub last_login : Text
  pub buttons : Buttons

abbrev buttons_of : Option Text → Text → Buttons
buttons_of none id = delete_only
buttons_of (some asked) id = if asked == id then yes_and_no else delete_only

unfoldable pub user_row : Option Text → User → Row
unfolding role_badge
user_row deleting x = record {
  username = x.username;
  display_name = or_text x.display_name (codes "-");
  role = x.role;
  badge = role_badge x.role;
  last_login = or_text x.last_login_at (codes "Never");
  buttons = buttons_of deleting x.id;
}

-- The section, which only those who may manage users see: the rows, the message below the form, and
-- whether "Create User" is disabled.
pub record UserSection : Type 0 where
  pub rows : List Row
  pub message : Option Message
  pub create_disabled : Bool

unfoldable pub user_section : (can_manage_users : Bool) → Users → Option UserSection
user_section can_manage_users u =
    if can_manage_users
    then some (record {
      rows = map (user_row u.deleting_id) u.users;
      message = u.msg;
      create_disabled = create_disabled u;
    })
    else none

buttons-asked :
    (asked id : Text) → (buttons_of (some asked) id ≡ yes_and_no) ↔ ((asked == id) ≡ true)
buttons-asked asked id = choose (asked == id)
  where
    choose : (b : Bool) → ((if b then yes_and_no else delete_only) ≡ yes_and_no) ↔ (b ≡ true)
    choose true = (λ e. refl, λ e. refl)
    choose false = (λ e. cc e, λ e. cc e)

-- After "Delete" for a user, the rows that offer to delete at once are those with the id of that user.
pub user_row-ask_delete :
    (x y : User) (u : Users)
    → ((user_row (ask_delete x u).deleting_id y).buttons ≡ yes_and_no) ↔ ((x.id == y.id) ≡ true)
unfolding user_row ask_delete
user_row-ask_delete x y u = buttons-asked x.id y.id
