-- ===== src/Settings/Tests.antt =====
-- A token that is saved.
use wolkvorm.Base.{text_eq, codes}
use wolkvorm.Settings.Github.{Github, open_github, set_token}

abbrev typed : Github
typed = set_token (codes "ghp_1") open_github
