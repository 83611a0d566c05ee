-- ===== src/Login/Particles/Inside.antt =====
-- Where the particles are, and how many lines there are between them.
use wolkvorm.Base.{
  ℕ, zero, suc, ◌+◌, ◌-◌, ◌*◌, ◌/◌, ◌≤◌, min, List, [], ◌∷◌, map, Bool-cases, false, length,
  length-append, All, ◌≡◌, refl, ap, ◌∙◌, inl, inr, arith,
}
use wolkvorm.Base.Float.{Float, IsCounted}
use wolkvorm.Login.Particles.{
  Particle, Random, Constants, Canvas, particle_count, new_particles, wrap_around, move, is_near,
  lines_from, lines, draw, resize, open_canvas, Event, frame, resized, run,
}

abbrev triangle : ℕ → ℕ
triangle zero = 0
triangle (suc n) = n + triangle n

triangle_mono : (n k : ℕ) → triangle n ≤ triangle (k + n)
triangle_mono n zero = let same : 0 + n ≡ n = omega arith in rw same (omega arith)
triangle_mono n (suc k) =
    let same : suc k + n ≡ suc (k + n) = omega arith in rw same (omega (arith, triangle_mono n k))

module _ {ℓ} {N : Type ℓ} ⦃f : Float N⦄ where
  -- The coordinate is neither below 0 nor above the size.
  abbrev IsWithin : ℕ → N → Type 0
  IsWithin size x = (f.lt (f.numeral size) x ≡ false) × (f.lt x (f.numeral 0) ≡ false)

  abbrev pub IsInside : (width height : ℕ) → Particle N → Type 0
  IsInside width height p = IsWithin width p.x × IsWithin height p.y

  module _ (k : IsCounted N) where
    wrap_around-IsWithin : (size : ℕ) (x : N) → IsWithin size (wrap_around size x)
    unfolding wrap_around
    wrap_around-IsWithin size x = ground (
      arith,
      k.numeral-not_lt size size (omega arith),
      k.numeral-not_lt size 0 (omega arith),
      k.numeral-not_lt 0 0 (omega arith),
    )

    map-move-IsInside :
        (width height : ℕ) (ps : List (Particle N))
        → All (IsInside width height) (map (move width height) ps)
    unfolding move
    map-move-IsInside width height [] = tt
    map-move-IsInside width height (p ∷ ps) = (
      (wrap_around-IsWithin width (f.plus p.x p.dx), wrap_around-IsWithin height (f.plus p.y p.dy)),
      map-move-IsInside width height ps,
    )

  length-map-move :
      (width height : ℕ) (ps : List (Particle N)) → length (map (move width height) ps) ≡ length ps
  length-map-move width height [] = refl
  length-map-move width height (p ∷ ps) = omega (arith, length-map-move width height ps)

  length-run : (es : List Event) (c : Canvas N) → length (run es c).particles ≡ length c.particles
  unfolding run draw resize
  length-run [] c = refl
  length-run (frame ∷ es) c = length-run es (draw c) ∙ length-map-move c.width c.height c.particles
  length-run (resized width height ∷ es) c = length-run es (resize width height c)

  length-new_particles :
      (c : Constants N) (width height n : ℕ) (random : ℕ → Random N)
      → length (new_particles c width height n random) ≡ n
  unfolding new_particles
  length-new_particles c width height zero random = refl
  length-new_particles c width height (suc n) random =
      ap suc (length-new_particles c width height n (λ i. random (suc i)))

  length-lines_from :
      (sqrt : N → N) (p : Particle N) (qs : List (Particle N))
      → length (lines_from sqrt p qs) ≤ length qs
  unfolding lines_from
  length-lines_from sqrt p [] = omega arith
  length-lines_from sqrt p (q ∷ qs) = elim (Bool-cases (is_near sqrt p q)) [
    | inl near ↦ rw near (omega (arith, length-lines_from sqrt p qs))
    | inr far ↦ rw far (omega (arith, length-lines_from sqrt p qs))
  ]

  length-lines :
      (sqrt : N → N) (ps : List (Particle N)) → length (lines sqrt ps) ≤ triangle (length ps)
  unfolding lines
  length-lines sqrt [] = omega arith
  length-lines sqrt (p ∷ ps) = omega (
    arith,
    length-append {ℓ} (lines_from sqrt p ps) (lines sqrt ps),
    length-lines_from sqrt p ps,
    length-lines sqrt ps,
  )

  particles-le :
      (c : Constants N) (width height : ℕ) (random : ℕ → Random N) (es : List Event)
      → length (run es (open_canvas c width height random)).particles ≤ 80
  unfolding open_canvas particle_count
  particles-le c width height random es = omega (
    arith,
    length-run es (open_canvas c width height random),
    length-new_particles c width height (min 80 (width * height / 18000)) random,
  )

  lines-le :
      (sqrt : N → N) (ps : List (Particle N)) → length ps ≤ 80 → length (lines sqrt ps) ≤ 3160
  lines-le sqrt ps h =
      let padded : (80 - length ps) + length ps ≡ 80 = omega arith in
      omega (
        arith,
        length-lines sqrt ps,
        triangle_mono (length ps) (80 - length ps),
        ap triangle padded,
      )

  -- If no numeral is below a smaller one (`IsCounted`), whatever the random numbers are, and whatever frames and changes of the size of the window come:
  -- after every frame each particle lies on the canvas of that moment, there are at most 80 of them,
  -- and at most 3160 lines are drawn between them.
  pub draw-IsInside :
      (k : IsCounted N) (sqrt : N → N) (c : Constants N) (width height : ℕ) (random : ℕ → Random N)
      (es : List Event)
      → let drawn = draw (run es (open_canvas c width height random)) in
        All (IsInside drawn.width drawn.height) drawn.particles
        × (length drawn.particles ≤ 80)
        × (length (lines sqrt drawn.particles) ≤ 3160)
  unfolding draw
  draw-IsInside k sqrt c width height random es =
      let before = run es (open_canvas c width height random) in
      let few : length (map (move before.width before.height) before.particles) ≤ 80 = omega (
        arith,
        length-map-move before.width before.height before.particles,
        particles-le c width height random es,
      ) in
      (
        map-move-IsInside k before.width before.height before.particles,
        few,
        lines-le sqrt (map (move before.width before.height) before.particles) few,
      )
