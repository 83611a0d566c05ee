-- ===== src/Graph/Colors.antt =====
-- The colors of the groups of frontend/src/pages/GraphPage.js, the legend, and how the page takes the
-- answer for the graph. A group named like a property of `Object.prototype` is not modelled.
use Prim.Native.String.{String}
use wolkvorm.Base.{
  List, [], ◌∷◌, Option, none, some, Bool, true, false, if◌then◌else◌, ◌==◌, string_eq, get, map,
  select, Bool-cases, Option-cases, ◌≡◌, refl, sym, ap, ◌∙◌, inl, inr,
}
use wolkvorm.Graph.{Graph}
use wolkvorm.Graph.Layout.{Box}

pub record Colors : Type 0 where
  pub bg : String
  pub border : String
  pub text : String
  pub dot : String

abbrev colors : (bg border text dot : String) → Colors
colors bg border text dot = record { bg = bg; border = border; text = text; dot = dot }

abbrev ColorMap : Type 0
ColorMap = List (String × Colors)

abbrev group_colors : ColorMap
group_colors =
    ("IAM", colors "#fef3c7" "#f59e0b" "#92400e" "#f59e0b")
    ∷ ("EC2", colors "#fce7f3" "#ec4899" "#9d174d" "#ec4899")
    ∷ ("S3", colors "#d1fae5" "#10b981" "#065f46" "#10b981")
    ∷ ("VPC / Networking", colors "#e0e7ff" "#6366f1" "#3730a3" "#6366f1")
    ∷ ("RDS", colors "#dbeafe" "#3b82f6" "#1e40af" "#3b82f6")
    ∷ ("Lambda", colors "#ede9fe" "#8b5cf6" "#5b21b6" "#8b5cf6")
    ∷ ("EKS", colors "#cffafe" "#06b6d4" "#155e75" "#06b6d4")
    ∷ ("ECR", colors "#fce7f3" "#f472b6" "#9d174d" "#f472b6")
    ∷ ("DynamoDB", colors "#d1fae5" "#059669" "#064e3b" "#059669")
    ∷ ("ElastiCache", colors "#ffedd5" "#f97316" "#9a3412" "#f97316")
    ∷ ("Messaging", colors "#fef9c3" "#eab308" "#854d0e" "#eab308")
    ∷ ("Security", colors "#fee2e2" "#ef4444" "#991b1b" "#ef4444")
    ∷ ("MSK", colors "#e0f2fe" "#0ea5e9" "#075985" "#0ea5e9")
    ∷ ("Other", colors "#f1f5f9" "#94a3b8" "#475569" "#94a3b8")
    ∷ []

abbrev group_colors_dark : ColorMap
group_colors_dark =
    ("IAM", colors "rgba(245,158,11,0.08)" "rgba(245,158,11,0.3)" "#fbbf24" "#f59e0b")
    ∷ ("EC2", colors "rgba(236,72,153,0.08)" "rgba(236,72,153,0.3)" "#f472b6" "#ec4899")
    ∷ ("S3", colors "rgba(16,185,129,0.08)" "rgba(16,185,129,0.3)" "#34d399" "#10b981")
    ∷ (
      "VPC / Networking",
      colors "rgba(99,102,241,0.08)" "rgba(99,102,241,0.3)" "#818cf8" "#6366f1",
    )
    ∷ ("RDS", colors "rgba(59,130,246,0.08)" "rgba(59,130,246,0.3)" "#60a5fa" "#3b82f6")
    ∷ ("Lambda", colors "rgba(139,92,246,0.08)" "rgba(139,92,246,0.3)" "#a78bfa" "#8b5cf6")
    ∷ ("EKS", colors "rgba(6,182,212,0.08)" "rgba(6,182,212,0.3)" "#22d3ee" "#06b6d4")
    ∷ ("ECR", colors "rgba(244,114,182,0.08)" "rgba(244,114,182,0.3)" "#f472b6" "#f472b6")
    ∷ ("DynamoDB", colors "rgba(5,150,105,0.08)" "rgba(5,150,105,0.3)" "#34d399" "#059669")
    ∷ ("ElastiCache", colors "rgba(249,115,22,0.08)" "rgba(249,115,22,0.3)" "#fb923c" "#f97316")
    ∷ ("Messaging", colors "rgba(234,179,8,0.08)" "rgba(234,179,8,0.3)" "#facc15" "#eab308")
    ∷ ("Security", colors "rgba(239,68,68,0.08)" "rgba(239,68,68,0.3)" "#f87171" "#ef4444")
    ∷ ("MSK", colors "rgba(14,165,233,0.08)" "rgba(14,165,233,0.3)" "#38bdf8" "#0ea5e9")
    ∷ ("Other", colors "rgba(148,163,184,0.08)" "rgba(148,163,184,0.3)" "#94a3b8" "#94a3b8")
    ∷ []

unfoldable pub color_map : (is_dark : Bool) → ColorMap
color_map is_dark = if is_dark then group_colors_dark else group_colors

-- `colorMap[group] || colorMap["Other"]`
unfoldable pub color_of : ColorMap → String → Option Colors
color_of m group = elim (get group m) [ some c ↦ some c | none ↦ get "Other" m ]

-- `groups[name]` is a box.
unfoldable pub is_drawn : List Box → String → Bool
is_drawn [] name = false
is_drawn (b ∷ bs) name = if b.name == name then true else is_drawn bs name

-- The entries of the legend, a name and the color of its dot.
unfoldable pub legend : ColorMap → List Box → List (String × String)
unfolding is_drawn
legend m boxes = map (λ e. (e.0, e.1.dot)) (select (λ e. is_drawn boxes e.0) m)

-- `setGraph`; an answer that is no JSON changes nothing.
unfoldable pub load_graph : Option Graph → Graph → Graph
load_graph none g = g
load_graph (some answer) g = answer

abbrev names {ℓ} : {A : Type ℓ} → List (String × A) → List String
names m = map (λ e. e.0) m

-- The names in the legend are the names of the table whose group is on the page, in the table's order.
legend-select :
    (m : ColorMap) (boxes : List Box) → names (legend m boxes) ≡ select (is_drawn boxes) (names m)
unfolding legend
legend-select [] boxes = refl
legend-select ((name, c) ∷ m) boxes = elim (Bool-cases (is_drawn boxes name)) [
  | inl drawn ↦ rw (drawn, legend-select m boxes) refl
  | inr absent ↦ rw (absent, legend-select m boxes) refl
]

names-color_map : names (color_map true) ≡ names (color_map false)
unfolding color_map
names-color_map = refl

-- Both themes give the same legend, but for the colors of the dots.
pub legend-color_map :
    (boxes : List Box)
    → names (legend (color_map true) boxes) ≡ names (legend (color_map false) boxes)
legend-color_map boxes =
    legend-select (color_map true) boxes
    ∙ ap (select (is_drawn boxes)) names-color_map
    ∙ sym (legend-select (color_map false) boxes)

other : (is_dark : Bool) → (c : Colors) × (get "Other" (color_map is_dark) ≡ some c)
unfolding color_map get
other true = (_, refl)
other false = (_, refl)

color_of-get :
    (m : ColorMap) (group : String)
    → (c : Colors) × (get "Other" m ≡ some c)
    → (c : Colors) × (color_of m group ≡ some c)
unfolding color_of
color_of-get m group (other, h) = elim (Option-cases (get group m)) [
  | inl absent ↦ (other, rw (absent, color_of) h)
  | inr (c, found) ↦ (c, rw (found, color_of) refl)
]

-- Every group has colors, in either theme.
pub color_of-some :
    (is_dark : Bool) (group : String) → (c : Colors) × (color_of (color_map is_dark) group ≡ some c)
color_of-some is_dark group = color_of-get (color_map is_dark) group (other is_dark)
