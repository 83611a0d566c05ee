-- ===== src/Settings/Sections/Cloud.antt =====
-- The sections "AWS", "State Backend" and "Infracost" of frontend/src/pages/SettingsPage.js.
use wolkvorm.Base.{List, [], ◌∷◌, Option, none, some, false, text_eq, if◌then◌else◌, Text, codes}
use wolkvorm.Text.{is_nonempty}
use wolkvorm.Settings.{Message}
use wolkvorm.Settings.Providers.{
  Aws, AwsStatus, Infracost, InfracostStatus, StateInfo, Backend, infracost_disabled,
}
use wolkvorm.Settings.Sections.{password, choice, Section, kept_if}

abbrev regions : List Text
regions =
    codes "us-east-1"
    ∷ codes "us-east-2"
    ∷ codes "us-west-1"
    ∷ codes "us-west-2"
    ∷ codes "eu-central-1"
    ∷ codes "eu-west-1"
    ∷ codes "eu-west-2"
    ∷ codes "eu-north-1"
    ∷ codes "ap-northeast-1"
    ∷ codes "ap-southeast-1"
    ∷ []

abbrev aws_badge : Option AwsStatus → Option Text
aws_badge none = none
aws_badge (some s) = some (codes "IAM Role Active")

abbrev aws_rows : Option AwsStatus → List (Text × Text)
aws_rows none = []
aws_rows (some s) =
    (codes "Auth Method", codes "IAM Role (EC2 Instance Profile)")
    ∷ (codes "Default Region", s.default_region)
    ∷ []

unfoldable pub aws_section : Aws → Section
aws_section a = record {
  title = codes "AWS Configuration";
  badge = aws_badge (kept_if (λ s. s.configured) a.status);
  rows = aws_rows (kept_if (λ s. s.configured) a.status);
  chosen = none;
  fields =
      record {
        label = codes "Default Region";
        input = choice regions;
        placeholder = [];
        value = a.region;
      }
      ∷ [];
  note = none;
  message = a.msg;
  button = some (record {
    label = if a.saving then codes "Saving..." else codes "Save AWS Configuration";
    disabled = a.saving;
  });
}

abbrev state_rows : StateInfo → List (Text × Text)
state_rows i =
    (codes "Bucket", i.bucket)
    ∷ (codes "Lock Table", i.lock_table)
    ∷ (codes "Region", i.region)
    ∷ []

abbrev error_message : Option Text → Option Message
error_message none = none
error_message (some e) = if is_nonempty e then some (record { success = false; text = e }) else none

-- The section of the state backend shows what there is, or else the button that makes it.
unfoldable pub state_section : Backend → Section
state_section b = elim b.info [
  | some i ↦ record {
    title = codes "Terraform State Backend";
    badge = some (codes "Active");
    rows = state_rows i;
    chosen = none;
    fields = [];
    note = none;
    message = none;
    button = none;
  }
  | none ↦ record {
    title = codes "Terraform State Backend";
    badge = none;
    rows = [];
    chosen = none;
    fields = [];
    note = none;
    message = error_message b.error;
    button = some (record {
      label = if b.initializing then codes "Initializing..." else codes "Initialize State Backend";
      disabled = b.initializing;
    });
  }
]

abbrev infracost_badge : Option InfracostStatus → Option Text
infracost_badge none = none
infracost_badge (some s) = some (codes "Connected")

abbrev infracost_rows : Option InfracostStatus → List (Text × Text)
infracost_rows none = []
infracost_rows (some s) = (codes "API Key", s.key_preview) ∷ []

abbrev infracost_label : Option InfracostStatus → Text
infracost_label none = codes "Save API Key"
infracost_label (some s) = codes "Update API Key"

unfoldable pub infracost_section : Infracost → Section
infracost_section i = record {
  title = codes "Infracost";
  badge = infracost_badge (kept_if (λ s. s.configured) i.status);
  rows = infracost_rows (kept_if (λ s. s.configured) i.status);
  chosen = none;
  fields =
      record {
        label = codes "Infracost API Key";
        input = password;
        placeholder = codes "ico-xxxxxxxxxxxxxxxxxxxx";
        value = i.key;
      }
      ∷ [];
  note = none;
  message = i.msg;
  button = some (record {
    label =
        if i.saving
        then codes "Saving..."
        else infracost_label (kept_if (λ s. s.configured) i.status);
    disabled = infracost_disabled i;
  });
}
