-- ===== src/Settings/Sections.antt =====
-- frontend/src/pages/SettingsPage.js: what the sections "AWS", "GitHub", "State Backend" and
-- "Infracost" show. Icons, hints and styles are left out.
pub mod Cloud
pub mod Hosting
pub mod Saving
use wolkvorm.Base.{List, [], ◌∷◌, Option, none, some, Bool, true, false, if◌then◌else◌, Text, codes}
use wolkvorm.Settings.{Message}

pub data Input : Type 0 where
  plain password area : Input
  choice : (options : List Text) → Input

pub record Field : Type 0 where
  pub label : Text
  pub input : Input
  pub placeholder : Text
  pub value : Text

pub record Button : Type 0 where
  pub label : Text
  pub disabled : Bool

-- A section: the badge in its header, what is saved, as labels with values, and its form; `chosen`
-- is the label of the toggle that is marked, if there are toggles.
pub record Section : Type 0 where
  pub title : Text
  pub badge : Option Text
  pub rows : List (Text × Text)
  pub chosen : Option Text
  pub fields : List Field
  pub note : Option Text
  pub message : Option Message
  pub button : Option Button

abbrev pub saving_button : Button
saving_button = record { label = codes "Saving..."; disabled = true }

abbrev pub initializing_button : Button
initializing_button = record { label = codes "Initializing..."; disabled = true }

-- `status?.configured` with the status.
abbrev pub kept_if {ℓ} : {A : Type ℓ} → (A → Bool) → Option A → Option A
kept_if p none = none
kept_if p (some x) = if p x then some x else none
