-- ===== src/Settings/Sections/Saving.antt =====
-- The sections of frontend/src/pages/SettingsPage.js while their requests are under way.
use wolkvorm.Base.{none, some, ◌≡◌, refl}
use wolkvorm.Settings.Github.{Github, save_disabled, start_save}
use wolkvorm.Settings.Providers.{
  Aws, Infracost, Backend, start_save_aws, start_save_infracost, infracost_disabled, start_init,
}
use wolkvorm.Settings.Sections.{saving_button, initializing_button}
use wolkvorm.Settings.Sections.Cloud.{aws_section, state_section, infracost_section}
use wolkvorm.Settings.Sections.Hosting.{github_section}

-- Once a save has started, the button of its section is disabled and says so, and the message of the
-- last save is gone. The same holds of the making of a state backend, where there is none.
pub start_save-sections :
    (a : Aws) (g : Github) (i : Infracost) (b : Backend)
    → b.info ≡ none
    → ((aws_section (start_save_aws a)).button ≡ some saving_button)
      × ((aws_section (start_save_aws a)).message ≡ none)
      × ((github_section (start_save g)).button ≡ some saving_button)
      × ((github_section (start_save g)).message ≡ none)
      × ((infracost_section (start_save_infracost i)).button ≡ some saving_button)
      × ((infracost_section (start_save_infracost i)).message ≡ none)
      × ((state_section (start_init b)).button ≡ some initializing_button)
      × ((state_section (start_init b)).message ≡ none)
unfolding aws_section github_section infracost_section state_section start_save_aws start_save
    start_save_infracost start_init save_disabled infracost_disabled
start_save-sections a g i b absent =
    (refl, refl, refl, refl, refl, refl, rw absent refl, rw absent refl)
