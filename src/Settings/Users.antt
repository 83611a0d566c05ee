-- ===== src/Settings/Users.antt =====
-- frontend/src/pages/SettingsPage.js: the section "User Management".
use wolkvorm.Base.{
  List, [], ◌++◌, Option, none, some, Bool, not, ◌||◌, ◌==◌, text_eq, if◌then◌else◌, select, length,
  ltb, Text, codes,
}
use wolkvorm.Text.{is_nonempty}
use wolkvorm.Settings.{
  Message, success_text, error_text, Listing, load_list, or_text, Fresh, fresh, stale,
}

pub record User : Type 0 where
  pub id : Text
  pub username : Text
  pub display_name : Text
  pub role : Text
  pub last_login_at : Text

pub record Users : Type 0 where
  pub users : List User
  pub new_name : Text
  pub new_password : Text
  pub new_display_name : Text
  pub new_role : Text
  pub msg : Option Message
  pub deleting_id : Option Text

unfoldable pub open_users : Users
open_users = record {
  users = [];
  new_name = [];
  new_password = [];
  new_display_name = [];
  new_role = codes "viewer";
  msg = none;
  deleting_id = none;
}

-- The effect, which asks only for whoever may manage users.
unfoldable pub load_users : Bool → Listing User → Users → Users
unfolding load_list
load_users can_manage_users l u =
    if can_manage_users then record u { users = load_list l u.users } else u

unfoldable pub create_disabled : Users → Bool
create_disabled u =
    not (is_nonempty u.new_name)
    || not (is_nonempty u.new_password)
    || ltb (length u.new_password) 6

pub record NewUser : Type 0 where
  pub username : Text
  pub password : Text
  pub display_name : Text
  pub role : Text

-- "Create User": its request.
unfoldable pub create_user : Users → Users × NewUser
create_user u = (
  record u { msg = none },
  record {
    username = u.new_name;
    password = u.new_password;
    display_name = or_text u.new_display_name u.new_name;
    role = u.new_role;
  },
)

-- Its answer: an account by its name, an error status with the text of its `error`, or a failure.
pub data Created : Type 0 where
  account : (username : Text) → Created
  rejected : (error : Text) → Created
  failed : (message : Text) → Created

unfoldable pub created : Created → Users → Users
created (account name) u = record u {
  msg = success_text (codes "User \"" ++ name ++ codes "\" created successfully");
  new_name = [];
  new_password = [];
  new_display_name = [];
  new_role = codes "viewer";
}
created (rejected error) u = record u {
  msg = error_text (or_text error (codes "Failed to create user"));
}
created (failed message) u = record u { msg = error_text message }

-- The list that is asked for after an account is made.
unfoldable pub refresh_users : Fresh (List User) → Users → Users
refresh_users (fresh xs) u = record u { users = xs }
refresh_users (stale message) u = record u { msg = error_text message }

-- "Delete", "No" and "Yes" of a user.
unfoldable pub ask_delete : User → Users → Users
ask_delete x u = record u { deleting_id = some x.id }

unfoldable pub keep_user : Users → Users
keep_user u = record u { deleting_id = none }

-- The answer to the request that deletes: any status, with success or not, or a failure. The handler
-- does not read the status; on 401 `authFetch` (Auth) takes the session away and leaves the page as
-- well, and still hands the answer to the handler.
pub data Deleted : Type 0 where
  answered : (ok : Bool) → Deleted
  failed : (message : Text) → Deleted

unfoldable pub delete_user : User → Deleted → Users → Users
delete_user x (answered ok) u = record u {
  users = select (λ y. not (y.id == x.id)) u.users;
  msg = success_text (codes "User \"" ++ x.username ++ codes "\" deleted");
  deleting_id = none;
}
delete_user x (failed message) u = record u { msg = error_text message; deleting_id = none }
