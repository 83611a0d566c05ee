-- ===== src/Settings/Secrets.antt =====
-- What becomes of a secret that is typed.
use wolkvorm.Base.{[], Bool, true, false, text_eq, Text, ◌≡◌, ◌≢◌}
use wolkvorm.Settings.{Reply, accepted, rejected, failed, Fresh}
use wolkvorm.Settings.Github.{
  Github, Status, Body, pat_body, app_body, start_save, saved, refreshed,
}

abbrev pub is_accepted : Reply → Bool
is_accepted accepted = true
is_accepted (rejected text) = false
is_accepted (failed text) = false

-- `saveGitHub` as a whole, if nothing is typed or chosen while it waits.
unfoldable pub save_github : Reply → Fresh Status → Github → Github
save_github accepted answer g = refreshed answer (saved accepted (start_save g))
save_github (rejected text) answer g = saved (rejected text) (start_save g)
save_github (failed text) answer g = saved (failed text) (start_save g)

-- The secrets of a body are there.
abbrev pub IsComplete : Body → Type 0
IsComplete (pat_body pat) = pat ≢ []
IsComplete (app_body app_id private_key) = (app_id ≢ []) × (private_key ≢ [])

-- The text is gone exactly if the server has accepted it.
abbrev pub IsSpent : Bool → Text → Text → Type 0
IsSpent true before after = after ≡ []
IsSpent false before after = after ≡ before
