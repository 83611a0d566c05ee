-- ===== src/Settings.antt =====
-- frontend/src/pages/SettingsPage.js: the settings, one record for the state of each section. A handler
-- is the step up to its request, where it makes one, and steps for the answers, on the state that
-- they find. A failure is a request that throws, with its message.
pub mod Github
pub mod Providers
pub mod Keys
pub mod Users
pub mod Notices
pub mod Secrets
pub mod Rows
pub mod Sections
mod Tests
use wolkvorm.Base.{List, [], ◌∷◌, Option, none, some, Bool, true, false, Text}

pub record Message : Type 0 where
  pub success : Bool
  pub text : Text

abbrev pub success_text : Text → Option Message
success_text t = some (record { success = true; text = t })

abbrev pub error_text : Text → Option Message
error_text t = some (record { success = false; text = t })

-- The answer to a request that saves: accepted, an error status with its text, or a failure.
pub data Reply : Type 0 where
  accepted : Reply
  rejected : Text → Reply
  failed : Text → Reply

-- The answer to a request for what is saved.
pub data Fresh {ℓ} (A : Type ℓ) : Type ℓ where
  fresh : A → Fresh A
  stale : (message : Text) → Fresh A

-- The answer to a request for a list, where another value counts as an empty one.
pub data Listing {ℓ} (A : Type ℓ) : Type ℓ where
  listed : List A → Listing A
  other_value failed : Listing A

unfoldable pub load_list {ℓ} : {A : Type ℓ} → Listing A → List A → List A
load_list (listed xs) old = xs
load_list other_value old = []
load_list failed old = old

abbrev pub or_text : Text → Text → Text
or_text [] other = other
or_text (c ∷ t) other = c ∷ t
