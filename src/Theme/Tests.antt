-- ===== src/Theme/Tests.antt =====
-- A page that is switched to the light theme and loaded again.
use wolkvorm.Base.{[], ◌∷◌, none, true, codes, ◌≡◌, refl}
use wolkvorm.Theme.{
  Provider, Body, toggled, reloaded, open_provider, toggle_mode, apply_mode, open_mode,
  toggle_theme, run, run-reloaded,
}

abbrev unstyled : Body
unstyled = record { background = []; color = [] }

abbrev switched : Provider
switched = run (toggled ∷ reloaded ∷ []) (open_provider true none unstyled)

light : switched.mode ≡ codes "light"
unfolding run open_provider toggle_mode apply_mode open_mode toggle_theme
light = refl

run-reloaded_example :
    let again = open_provider true switched.stored switched.body in
    (again.mode ≡ switched.mode)
    × (again.body ≡ switched.body)
    × (again.data_theme ≡ switched.data_theme)
run-reloaded_example = run-reloaded none unstyled (toggled ∷ reloaded ∷ [])
