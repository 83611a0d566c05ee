-- ===== src/Login/Particles.antt =====
-- `ParticleCanvas` of frontend/src/pages/LoginPage.js: the particles behind the login form. The size of
-- the canvas is in whole pixels; positions and speeds are JavaScript's numbers (Base/Float). Radii and
-- opacities are drawn as they are and not followed further.
pub mod Inside
mod Tests
use wolkvorm.Base.{
  ℕ, zero, suc, ◌+◌, ◌-◌, ◌*◌, ◌/◌, ◌≤◌, min, List, [], ◌∷◌, ◌++◌, map, Bool, true, false,
  if◌then◌else◌, Bool-cases, length, All, ◌≡◌, refl, ap, ◌∙◌, inl, inr, arith,
}
use wolkvorm.Base.Float.{Float}

pub record Particle {ℓ} (N : Type ℓ) : Type ℓ where
  pub x : N
  pub y : N
  pub r : N
  pub dx : N
  pub dy : N
  pub a : N

-- The six results of `Math.random()` that a particle takes.
pub record Random {ℓ} (N : Type ℓ) : Type ℓ where
  pub x : N
  pub y : N
  pub r : N
  pub dx : N
  pub dy : N
  pub a : N

-- The numerals of the source that are no whole numbers.
pub record Constants {ℓ} (N : Type ℓ) : Type ℓ where
  pub half : N
  pub speed : N
  pub opacity : N
  pub faint : N

pub record Canvas {ℓ} (N : Type ℓ) : Type ℓ where
  pub width : ℕ
  pub height : ℕ
  pub particles : List (Particle N)

-- The number of particles.
unfoldable pub particle_count : (width height : ℕ) → ℕ
particle_count width height = min 80 (width * height / 18000)

module _ {ℓ} {N : Type ℓ} ⦃f : Float N⦄ where
  unfoldable pub new_particle : Constants N → (width height : ℕ) → Random N → Particle N
  new_particle c width height random = record {
    x = f.times random.x (f.numeral width);
    y = f.times random.y (f.numeral height);
    r = f.plus (f.times random.r (f.numeral 2)) c.half;
    dx = f.times (f.minus random.dx c.half) c.speed;
    dy = f.times (f.minus random.dy c.half) c.speed;
    a = f.plus (f.times random.a c.opacity) c.faint;
  }

  -- The two tests of one coordinate.
  wrap_around : ℕ → N → N
  wrap_around size x =
      let moved = if f.lt (f.numeral size) x then f.numeral 0 else x in
      if f.lt moved (f.numeral 0) then f.numeral size else moved

  unfoldable pub move : (width height : ℕ) → Particle N → Particle N
  unfolding wrap_around
  move width height p = record p {
    x = wrap_around width (f.plus p.x p.dx);
    y = wrap_around height (f.plus p.y p.dy);
  }

  -- `Math.sqrt(dx * dx + dy * dy) < 120`
  is_near : (sqrt : N → N) → Particle N → Particle N → Bool
  is_near sqrt p q =
      let dx = f.minus p.x q.x in
      let dy = f.minus p.y q.y in
      f.lt (sqrt (f.plus (f.times dx dx) (f.times dy dy))) (f.numeral 120)

  -- The loop over `j`.
  lines_from : (sqrt : N → N) → Particle N → List (Particle N) → List (Particle N × Particle N)
  unfolding is_near
  lines_from sqrt p [] = []
  lines_from sqrt p (q ∷ qs) =
      let rest = lines_from sqrt p qs in if is_near sqrt p q then (p, q) ∷ rest else rest

  -- The lines between particles that are near each other.
  unfoldable pub lines : (sqrt : N → N) → List (Particle N) → List (Particle N × Particle N)
  unfolding lines_from
  lines sqrt [] = []
  lines sqrt (p ∷ ps) = lines_from sqrt p ps ++ lines sqrt ps

  -- `draw` moves the particles; `resize` leaves them where they are.
  unfoldable pub draw : Canvas N → Canvas N
  unfolding move
  draw c = record c { particles = map (move c.width c.height) c.particles }

  unfoldable pub resize : (width height : ℕ) → Canvas N → Canvas N
  resize width height c = record c { width = width; height = height }

  -- The loop that makes the particles.
  new_particles : Constants N → (width height : ℕ) → ℕ → (ℕ → Random N) → List (Particle N)
  unfolding new_particle
  new_particles c width height zero random = []
  new_particles c width height (suc n) random =
      new_particle c width height (random 0) ∷ new_particles c width height n (λ i. random (suc i))

  unfoldable pub open_canvas : Constants N → (width height : ℕ) → (ℕ → Random N) → Canvas N
  unfolding new_particles particle_count
  open_canvas c width height random = record {
    width = width;
    height = height;
    particles = new_particles c width height (particle_count width height) random;
  }

pub data Event : Type 0 where
  frame : Event
  resized : (width height : ℕ) → Event

module _ {ℓ} {N : Type ℓ} ⦃f : Float N⦄ where
  unfoldable pub run : List Event → Canvas N → Canvas N
  unfolding draw resize
  run [] c = c
  run (frame ∷ es) c = run es (draw c)
  run (resized width height ∷ es) c = run es (resize width height c)
