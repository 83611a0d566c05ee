-- ===== src/Settings/Providers.antt =====
-- frontend/src/pages/SettingsPage.js: the sections "AWS", "State Backend" and "Infracost".
use wolkvorm.Base.{[], Option, none, some, Bool, true, false, not, ◌||◌, Text, codes}
use wolkvorm.Text.{is_nonempty}
use wolkvorm.Settings.{
  Message, success_text, error_text, Reply, accepted, rejected, failed, Fresh, fresh, stale,
  or_text,
}

pub record AwsStatus : Type 0 where
  pub configured : Bool
  pub default_region : Text

pub record Aws : Type 0 where
  pub region : Text
  pub status : Option AwsStatus
  pub saving : Bool
  pub msg : Option Message

unfoldable pub open_aws : Aws
open_aws = record { region = codes "eu-central-1"; status = none; saving = false; msg = none }

unfoldable pub load_aws : AwsStatus → Aws → Aws
load_aws s a = record a { status = some s; region = or_text s.default_region a.region }

-- `saveAWS`
unfoldable pub start_save_aws : Aws → Aws
start_save_aws a = record a { saving = true; msg = none }

unfoldable pub saved_aws : Reply → Aws → Aws
saved_aws accepted a = record a { msg = success_text (codes "AWS configuration saved (IAM Role)") }
saved_aws (rejected text) a = record a { msg = error_text text; saving = false }
saved_aws (failed text) a = record a { msg = error_text text; saving = false }

unfoldable pub refreshed_aws : Fresh AwsStatus → Aws → Aws
refreshed_aws (fresh s) a = record a { status = some s; saving = false }
refreshed_aws (stale text) a = record a { msg = error_text text; saving = false }

pub record InfracostStatus : Type 0 where
  pub configured : Bool
  pub key_preview : Text

pub record Infracost : Type 0 where
  pub key : Text
  pub status : Option InfracostStatus
  pub saving : Bool
  pub msg : Option Message

unfoldable pub open_infracost : Infracost
open_infracost = record { key = []; status = none; saving = false; msg = none }

unfoldable pub load_infracost : InfracostStatus → Infracost → Infracost
load_infracost s i = record i { status = some s }

-- `saveInfracost`
unfoldable pub start_save_infracost : Infracost → Infracost
start_save_infracost i = record i { saving = true; msg = none }

unfoldable pub saved_infracost : Reply → Infracost → Infracost
saved_infracost accepted i = record i {
  msg = success_text (codes "Infracost API key saved successfully");
  key = [];
}
saved_infracost (rejected text) i = record i { msg = error_text text; saving = false }
saved_infracost (failed text) i = record i { msg = error_text text; saving = false }

unfoldable pub refreshed_infracost : Fresh InfracostStatus → Infracost → Infracost
refreshed_infracost (fresh s) i = record i { status = some s; saving = false }
refreshed_infracost (stale text) i = record i { msg = error_text text; saving = false }

unfoldable pub infracost_disabled : Infracost → Bool
infracost_disabled i = i.saving || not (is_nonempty i.key)

pub record StateInfo : Type 0 where
  pub bucket : Text
  pub lock_table : Text
  pub region : Text

pub record Backend : Type 0 where
  pub info : Option StateInfo
  pub initializing : Bool
  pub error : Option Text

unfoldable pub open_backend : Backend
open_backend = record { info = none; initializing = false; error = none }

-- The effect: the backend as the server describes it if it is ready, and nothing otherwise.
unfoldable pub load_backend : Option StateInfo → Backend → Backend
load_backend none b = b
load_backend (some info) b = record b { info = some info }

-- `initStateBackend`
unfoldable pub start_init : Backend → Backend
start_init b = record b { initializing = true; error = none }

pub data InitReply : Type 0 where
  made : StateInfo → InitReply
  refused broken : Text → InitReply

unfoldable pub init_state_backend : InitReply → Backend → Backend
init_state_backend (made info) b = record b { info = some info; initializing = false }
init_state_backend (refused e) b = record b { error = some e; initializing = false }
init_state_backend (broken e) b = record b { error = some e; initializing = false }
