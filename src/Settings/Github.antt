-- ===== src/Settings/Github.antt =====
-- frontend/src/pages/SettingsPage.js: the section "GitHub".
use wolkvorm.Base.{
  [], Option, none, some, Bool, true, false, not, ◌||◌, ◌==◌, text_eq, if◌then◌else◌, Text, codes,
}
use wolkvorm.Text.{is_nonempty}
use wolkvorm.Settings.{
  Message, success_text, error_text, Reply, accepted, rejected, failed, Fresh, fresh, stale,
  or_text,
}

pub record Status : Type 0 where
  pub configured : Bool
  pub auth_method : Text
  pub app_id : Text
  pub token_preview : Text

pub record Github : Type 0 where
  pub auth_method : Text
  pub token : Text
  pub app_id : Text
  pub pem : Text
  pub status : Option Status
  pub saving : Bool
  pub msg : Option Message

unfoldable pub open_github : Github
open_github = record {
  auth_method = codes "pat";
  token = [];
  app_id = [];
  pem = [];
  status = none;
  saving = false;
  msg = none;
}

-- The part of the first effect that is about GitHub, once the settings are there.
unfoldable pub load_github : Status → Github → Github
load_github data' g = record g {
  status = some data';
  auth_method = or_text data'.auth_method g.auth_method;
  app_id = or_text data'.app_id g.app_id;
}

-- The body of the request.
pub data Body : Type 0 where
  pat_body : (pat : Text) → Body
  app_body : (app_id : Text) → (private_key : Text) → Body

unfoldable pub body : Github → Body
body g = if g.auth_method == codes "pat" then pat_body g.token else app_body g.app_id g.pem

-- `saveGitHub` up to its request.
unfoldable pub start_save : Github → Github
start_save g = record g { saving = true; msg = none }

-- Up to the request for the new status, which is made if the first one is accepted.
unfoldable pub saved : Reply → Github → Github
saved accepted g = record g {
  msg = success_text (codes "GitHub config saved successfully");
  token = [];
  pem = [];
}
saved (rejected text) g = record g { msg = error_text text; saving = false }
saved (failed text) g = record g { msg = error_text text; saving = false }

-- The rest.
unfoldable pub refreshed : Fresh Status → Github → Github
refreshed (fresh s) g = record g { status = some s; saving = false }
refreshed (stale text) g = record g { msg = error_text text; saving = false }

unfoldable pub save_disabled : Github → Bool
save_disabled g =
    g.saving
    || (if g.auth_method == codes "pat"
        then not (is_nonempty g.token)
        else not (is_nonempty g.app_id) || not (is_nonempty g.pem))

-- `handlePemFile`, once the file is read; `none` is no file.
unfoldable pub handle_pem_file : Option Text → Github → Github
handle_pem_file none g = g
handle_pem_file (some content) g = record g { pem = content }

unfoldable pub set_auth_method : Text → Github → Github
set_auth_method m g = record g { auth_method = m }

unfoldable pub set_token : Text → Github → Github
set_token t g = record g { token = t }

unfoldable pub set_app_id : Text → Github → Github
set_app_id t g = record g { app_id = t }

unfoldable pub set_pem : Text → Github → Github
set_pem t g = record g { pem = t }
