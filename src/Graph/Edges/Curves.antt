-- ===== src/Graph/Edges/Curves.antt =====
-- How frontend/src/pages/GraphPage.js draws its edges: the curve of an edge in JavaScript's numbers
-- (Base/Float), its color and arrowhead, and its label.
use Prim.Native.String.{String}
use wolkvorm.Base.{
  ◌+◌, List, [], ◌∷◌, map, Option, none, some, Bool, true, false, if◌then◌else◌, Bool-cases, ◌||◌,
  string_eq, get, All, All-imp, ◌≡◌, refl, ap, ◌∙◌, inl, inr,
}
use wolkvorm.Base.Float.{Float}
use wolkvorm.Graph.{Edge}
use wolkvorm.Graph.Layout.{Point, node_radius}
use wolkvorm.Graph.Edges.Highlight.{edge_paths-IsPlain}
use wolkvorm.Graph.Edges.{
  EdgePath, point, is_same_point, edge_path, keep, edge_paths, Selection, is_selected, is_blast,
  is_highlighted,
}

-- `Math.sqrt`, the sign of a number, and the numeral 0.15.
pub record Geometry {ℓ} (N : Type ℓ) : Type ℓ where
  pub sqrt : N → N
  pub negate : N → N
  pub bend : N

-- The numbers of `M sx sy Q control_x control_y ex ey`.
pub record Curve {ℓ} (N : Type ℓ) : Type ℓ where
  pub sx : N
  pub sy : N
  pub control_x : N
  pub control_y : N
  pub ex : N
  pub ey : N

-- How the line of an edge is drawn: `stroke`, `markerEnd`, `strokeWidth` and `strokeOpacity`.
pub data Color : Type 0 where
  danger primary text_muted : Color

pub record Line : Type 0 where
  pub stroke : Color
  pub arrowhead : Color
  pub stroke_width : String
  pub stroke_opacity : String
  pub label : Option String

color_of_edge : (is_blast is_highlighted : Bool) → Color
color_of_edge is_blast is_highlighted =
    if is_blast then danger else if is_highlighted then primary else text_muted

unfoldable pub line_of : Selection → EdgePath → Line
unfolding color_of_edge
line_of s e =
    let color = color_of_edge (is_blast s e) (is_highlighted s e) in
    record {
      stroke = color;
      arrowhead = color;
      stroke_width = if is_highlighted s e then "2.5" else "1.5";
      stroke_opacity = if is_highlighted s e then "1" else "0.35";
      label = if is_highlighted s e then some e.label else none;
    }

module _ {ℓ} {N : Type ℓ} ⦃f : Float N⦄ (g : Geometry N) where
  -- The curve between two different points, cut off at the circles of its ends.
  unfoldable pub curve : Point → Point → Curve N
  curve from to =
      let dx = f.minus (f.numeral to.x) (f.numeral from.x) in
      let dy = f.minus (f.numeral to.y) (f.numeral from.y) in
      let dist = g.sqrt (f.plus (f.times dx dx) (f.times dy dy)) in
      let sx = f.plus (f.numeral from.x) (f.times (f.over dx dist) (f.numeral node_radius)) in
      let sy = f.plus (f.numeral from.y) (f.times (f.over dy dist) (f.numeral node_radius)) in
      let ex = f.minus (f.numeral to.x) (f.times (f.over dx dist) (f.numeral (node_radius + 6))) in
      let ey = f.minus (f.numeral to.y) (f.times (f.over dy dist) (f.numeral (node_radius + 6))) in
      let mid_x = f.over (f.plus sx ex) (f.numeral 2) in
      let mid_y = f.over (f.plus sy ey) (f.numeral 2) in
      let perp_x = f.times (g.negate (f.minus ey sy)) g.bend in
      let perp_y = f.times (f.minus ex sx) g.bend in
      record {
        sx = sx;
        sy = sy;
        control_x = f.plus mid_x perp_x;
        control_y = f.plus mid_y perp_y;
        ex = ex;
        ey = ey;
      }

  -- Where the label of an edge stands.
  unfoldable pub label_at : Curve N → N × N
  label_at c = (
    f.over (f.plus c.sx c.ex) (f.numeral 2),
    f.minus (f.over (f.plus c.sy c.ey) (f.numeral 2)) (f.numeral 8),
  )

  -- An element of `edgePaths` with its `path`.
  unfoldable pub edge_curve : Edge → Option Point → Option Point → Option (EdgePath × Curve N)
  unfolding curve
  edge_curve e none to = none
  edge_curve e (some p) none = none
  edge_curve e (some p) (some q) =
      if is_same_point p q
      then none
      else some (record { from = point p; to = point q; label = e.label }, curve p q)

  unfoldable pub edge_curves : List (String × Point) → List Edge → List (EdgePath × Curve N)
  unfolding edge_curve
  edge_curves positions [] = []
  edge_curves positions (e ∷ es) =
      keep (edge_curve e (get e.from positions) (get e.to positions)) (edge_curves positions es)

  abbrev first : Option (EdgePath × Curve N) → Option EdgePath
  first none = none
  first (some (e, c)) = some e

  map-keep :
      (o : Option (EdgePath × Curve N)) (cs : List (EdgePath × Curve N))
      → map (λ c. c.0) (keep o cs) ≡ keep (first o) (map (λ c. c.0) cs)
  map-keep none cs = refl
  map-keep (some (e, c)) cs = refl

  edge_curve-edge_path :
      (e : Edge) (from to : Option Point) → first (edge_curve e from to) ≡ edge_path e from to
  unfolding edge_curve edge_path
  edge_curve-edge_path e none to = refl
  edge_curve-edge_path e (some p) none = refl
  edge_curve-edge_path e (some p) (some q) = elim (Bool-cases (is_same_point p q)) [
    | inl same ↦ rw same refl
    | inr apart ↦ rw apart refl
  ]

  -- Exactly the elements of `edgePaths` have a curve.
  pub edge_curves-edge_paths :
      (positions : List (String × Point)) (edges : List Edge)
      → map (λ c. c.0) (edge_curves positions edges) ≡ edge_paths positions edges
  unfolding edge_curves edge_paths
  edge_curves-edge_paths positions [] = refl
  edge_curves-edge_paths positions (e ∷ es) =
      map-keep (edge_curve e (get e.from positions) (get e.to positions)) (edge_curves positions es)
      ∙ ap (λ o. keep o (map (λ c. c.0) (edge_curves positions es)))
          (edge_curve-edge_path e (get e.from positions) (get e.to positions))
      ∙ ap (keep (edge_path e (get e.from positions) (get e.to positions)))
          (edge_curves-edge_paths positions es)

abbrev plain_line : Line
plain_line = record {
  stroke = text_muted;
  arrowhead = text_muted;
  stroke_width = "1.5";
  stroke_opacity = "0.35";
  label = none;
}

or-false : (a b : Bool) → (a || b) ≡ false → b ≡ false
or-false true b h = cc h
or-false false b h = h

is_blast-is_highlighted :
    (s : Selection) (e : EdgePath) → is_highlighted s e ≡ false → is_blast s e ≡ false
unfolding is_highlighted
is_blast-is_highlighted s e h = or-false (is_selected s e) (is_blast s e) h

line_of-plain_line :
    (s : Selection) (e : EdgePath) → is_highlighted s e ≡ false → line_of s e ≡ plain_line
unfolding line_of color_of_edge
line_of-plain_line s e h = rw (is_blast-is_highlighted s e h, h) refl

-- Whatever is selected, every edge is drawn alike, and without its label.
pub line_of-edge_paths :
    (s : Selection) (positions : List (String × Point)) (edges : List Edge)
    → All (λ e. line_of s e ≡ plain_line) (edge_paths positions edges)
line_of-edge_paths s positions edges =
    All-imp (λ e. is_highlighted s e ≡ false) (λ e. line_of s e ≡ plain_line) (line_of-plain_line s)
      (edge_paths positions edges) (edge_paths-IsPlain s positions edges)
