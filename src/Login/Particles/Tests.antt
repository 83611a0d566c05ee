-- ===== src/Login/Particles/Tests.antt =====
-- Two particles on a small canvas, over whole numbers.
use wolkvorm.Base.{ℕ, ◌≤◌, [], ◌∷◌, map, length, All, ◌≡◌, refl}
use wolkvorm.Base.Float.{whole_float, ℕ-IsCounted}
use wolkvorm.Login.Particles.{
  Random, Constants, Canvas, frame, resized, open_canvas, draw, lines, run,
}
use wolkvorm.Login.Particles.Inside.{IsInside, draw-IsInside}

abbrev random : ℕ → Random ℕ
random i = record { x = 1; y = 1; r = 1; dx = 9; dy = 3; a = 1 }

abbrev constants : Constants ℕ
constants = record { half = 0; speed = 1; opacity = 1; faint = 1 }

abbrev id : ℕ → ℕ
id x = x

abbrev opened : Canvas ℕ
opened = open_canvas constants 300 120 random

-- Both leave the canvas; the first frame takes them to its left edge.
edge : map (λ p. p.x) (draw opened).particles ≡ 0 ∷ 0 ∷ []
unfolding draw open_canvas
edge = refl

draw-IsInside_example :
    let drawn = draw (run (frame ∷ resized 200 100 ∷ []) opened) in
    All (IsInside drawn.width drawn.height) drawn.particles
    × (length drawn.particles ≤ 80)
    × (length (lines id drawn.particles) ≤ 3160)
draw-IsInside_example =
    draw-IsInside ℕ-IsCounted id constants 300 120 random (frame ∷ resized 200 100 ∷ [])
