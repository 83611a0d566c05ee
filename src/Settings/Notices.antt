-- ===== src/Settings/Notices.antt =====
-- frontend/src/pages/SettingsPage.js: the sections "Notifications", "Approval Workflow" and "Drift
-- Detection".
use wolkvorm.Base.{
  ℕ, [], ◌++◌, Option, none, some, Bool, true, false, eqb, if◌then◌else◌, Text, codes,
}
use wolkvorm.Text.Number.{parse_int}
use wolkvorm.Settings.{Message, success_text, error_text}

pub data Channel : Type 0 where
  slack teams discord : Channel

abbrev pub channel_name : Channel → Text
channel_name slack = codes "slack"
channel_name teams = codes "teams"
channel_name discord = codes "discord"

abbrev test_sent : Channel → Text
test_sent slack = codes "Slack test sent"
test_sent teams = codes "Teams test sent"
test_sent discord = codes "Discord test sent"

-- The webhooks of the configuration; its mail server has no inputs on the page.
pub record Webhooks : Type 0 where
  pub slack_webhook : Text
  pub teams_webhook : Text
  pub discord_webhook : Text

pub record Notifications : Type 0 where
  pub config : Webhooks
  pub saving : Bool
  pub msg : Option Message
  pub testing_channel : Option Channel

unfoldable pub open_notifications : Notifications
open_notifications = record {
  config = record { slack_webhook = []; teams_webhook = []; discord_webhook = [] };
  saving = false;
  msg = none;
  testing_channel = none;
}

unfoldable pub load_notifications : Webhooks → Notifications → Notifications
load_notifications w n = record n { config = w }

unfoldable pub set_webhook : Channel → Text → Notifications → Notifications
set_webhook slack url n = record n { config = record n.config { slack_webhook = url } }
set_webhook teams url n = record n { config = record n.config { teams_webhook = url } }
set_webhook discord url n = record n { config = record n.config { discord_webhook = url } }

-- "Test": it saves the configuration, with any status, and then asks for the test, whose answer is a
-- success, an error status with its text, or a failure of either request.
pub data Tested : Type 0 where
  sent : Tested
  refused : Text → Tested
  failed : Text → Tested

unfoldable pub start_test : Channel → Notifications → Notifications
start_test c n = record n { testing_channel = some c }

unfoldable pub end_test : Channel → Tested → Notifications → Notifications
end_test c sent n = record n { msg = success_text (test_sent c); testing_channel = none }
end_test c (refused text) n = record n { msg = error_text text; testing_channel = none }
end_test c (failed text) n = record n {
  msg = error_text (codes "Failed: " ++ text);
  testing_channel = none;
}

-- "Save Notification Settings", whose answer may have any status, or is a failure.
unfoldable pub start_save : Notifications → Notifications
start_save n = record n { saving = true }

unfoldable pub end_save : Option Text → Notifications → Notifications
end_save none n = record n {
  msg = success_text (codes "Notification settings saved");
  saving = false;
}
end_save (some text) n = record n {
  msg = error_text (codes "Failed to save: " ++ text);
  saving = false;
}

-- The check box of the approvals: the new value, which is also what is sent.
unfoldable pub set_approval_required : Bool → Bool → Bool
set_approval_required checked old = checked

pub record Drift : Type 0 where
  pub enabled : Bool
  pub interval : ℕ

unfoldable pub open_drift : Drift
open_drift = record { enabled = false; interval = 6 }

abbrev or_six : Option ℕ → ℕ
or_six none = 6
or_six (some n) = if eqb n 0 then 6 else n

-- The effect: `data.interval_hours || 6`
unfoldable pub load_drift : Bool → Option ℕ → Drift → Drift
load_drift enabled hours d = record { enabled = enabled; interval = or_six hours }

-- `parseInt(e.target.value) || 6`, for a text without a minus sign
unfoldable pub set_interval : Text → Drift → Drift
set_interval t d = record d { interval = or_six (parse_int t) }
