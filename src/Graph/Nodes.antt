-- ===== src/Graph/Nodes.antt =====
-- The nodes of frontend/src/pages/GraphPage.js as they are drawn: their circles, names and marks, the
-- counts beside the groups and the panel of the selected node.
use Prim.Native.String.{String}
use wolkvorm.Base.{
  ℕ, zero, suc, ◌+◌, List, [], ◌∷◌, ◌++◌, Option, none, some, Option-cases, Bool, true, false, ◌||◌,
  ◌==◌, string_eq, if◌then◌else◌, ltb, length, get, Text, codes, ◌≡◌, ◌↔◌, refl, ap, inl, inr,
  arith,
}
use wolkvorm.Base.Sets.{has}
use wolkvorm.Text.Number.{show_number}
use wolkvorm.Graph.{Node, Edge}
use wolkvorm.Graph.Blast.{get_blast_radius}
use wolkvorm.Graph.Blast.Correct.{DependsOn, get_blast_radius-DependsOn}
use wolkvorm.Graph.Layout.{Point, node_radius}
use wolkvorm.Graph.Edges.{Selection, handle_node_click}

-- A node with what only its drawing reads.
pub record Details : Type 0 where
  pub node : Node
  pub name : Text
  pub status : String

-- The colors that tell the states of a node apart; `card` stands for the plain background.
pub data Tint : Type 0 where
  danger primary card group_border success warning : Tint

-- The circle of a node: `tint` is its `fill`, and `glow` the `stroke` of the circle around it, if that
-- is drawn.
pub record Circle : Type 0 where
  pub at : Point
  pub radius : ℕ
  pub glow : Option Tint
  pub tint : Tint
  pub stroke : Tint
  pub stroke_width : ℕ
  pub name : Text
  pub status : Tint

-- `selectedNode?.id === n.id`
is_selected_node : Selection → Details → Bool
is_selected_node s d = elim s.selected_node [ none ↦ false | some n ↦ n.id == d.node.id ]

is_hovered : Option String → Details → Bool
is_hovered none d = false
is_hovered (some id) d = id == d.node.id

node_radius_of : (is_selected is_hovered : Bool) → ℕ
node_radius_of is_selected is_hovered =
    if is_selected then node_radius + 4 else if is_hovered then node_radius + 2 else node_radius

-- `name.substring(0, n)`
take : ℕ → Text → Text
take zero t = []
take (suc n) [] = []
take (suc n) (c ∷ t) = c ∷ take n t

unfoldable pub short_name : Text → Text
unfolding take
short_name name = if ltb 10 (length name) then take 10 name ++ codes ".." else name

draw_at : Point → (is_selected is_blasted is_hovered : Bool) → Details → Circle
unfolding node_radius_of short_name
draw_at p is_selected is_blasted is_hovered d = record {
  at = p;
  radius = node_radius_of is_selected is_hovered;
  glow = if is_selected || is_blasted then some (if is_blasted then danger else primary) else none;
  tint = if is_blasted then danger else card;
  stroke = if is_selected then primary else if is_blasted then danger else group_border;
  stroke_width = if is_selected then 3 else 2;
  name = short_name d.name;
  status = if d.status == "active" then success else warning;
}

-- A node without a position is not drawn.
unfoldable pub draw_node :
    List (String × Point) → Selection → (hovered : Option String) → Details → Option Circle
unfolding draw_at is_selected_node is_hovered
draw_node positions s hovered d = elim (get d.node.id positions) [
  | none ↦ none
  | some p ↦
      some
        (draw_at p (is_selected_node s d) (has d.node.id s.blast_radius) (is_hovered hovered d) d)
]

plural : ℕ → Text → Text
plural n word = if ltb 1 n then word ++ codes "s" else word

-- The count in the header of a group.
unfoldable pub node_count : List Node → Text
unfolding plural
node_count nodes = show_number (length nodes) ++ plural (length nodes) (codes " resource")

-- The warning in the panel of a selected node.
unfoldable pub blast_warning : Selection → Option Text
unfolding plural
blast_warning s = elim s.selected_node [
  | none ↦ none
  | some n ↦
      if ltb 0 (length s.blast_radius)
      then some (
          codes "Blast Radius: "
          ++ show_number (length s.blast_radius)
          ++ plural (length s.blast_radius) (codes " dependent resource")
          ++ codes " affected")
      else none
]

-- The button of the panel that closes it.
unfoldable pub close_detail : Selection → Selection
close_detail s = record { selected_node = none; blast_radius = [] }

abbrev fill_of : Option Circle → Tint
fill_of none = card
fill_of (some c) = c.tint

danger_iff : (b : Bool) → ((if b then danger else card) ≡ danger) ↔ (b ≡ true)
danger_iff true = (λ e. refl, λ e. refl)
danger_iff false = (λ e. cc, λ e. cc)

draw_node-danger :
    (positions : List (String × Point)) (s : Selection) (hovered : Option String) (d : Details)
    (c : Circle)
    → draw_node positions s hovered d ≡ some c
    → (c.tint ≡ danger) ↔ (has d.node.id s.blast_radius ≡ true)
unfolding draw_node draw_at
draw_node-danger positions s hovered d c h = elim (Option-cases (get d.node.id positions)) [
  | inl absent ↦ let k = rw (absent, draw_node) at h in cc k
  | inr (p, found) ↦
      let filled = ap fill_of (rw (found, draw_node) at h) in
      rw (← filled) (danger_iff (has d.node.id s.blast_radius))
]

handle_node_click-some :
    (edges : List Edge) (n : Node) (s : Selection) (radius : List String)
    → get_blast_radius edges n.id ≡ some radius
    → handle_node_click edges n s ≡ some (record { selected_node = some n; blast_radius = radius })
unfolding handle_node_click
handle_node_click-some edges n s radius found = ground (arith, found)

-- After a click on a node, whatever was selected before and whatever the pointer is over: among the
-- nodes that are drawn, exactly those that depend on it through one edge or more are filled as
-- affected by it.
pub draw_node-handle_node_click :
    (edges : List Edge) (n : Node) (before : Selection)
    → (s : Selection) × (handle_node_click edges n before ≡ some s)
      × ((positions : List (String × Point)) (hovered : Option String) (d : Details) (c : Circle)
          → draw_node positions s hovered d ≡ some c
          → (c.tint ≡ danger) ↔ DependsOn edges n.id d.node.id)
draw_node-handle_node_click edges n before =
    let (radius, found, exact) = get_blast_radius-DependsOn edges n.id in
    let s : Selection = record { selected_node = some n; blast_radius = radius } in
    (
      s,
      handle_node_click-some edges n before radius found,
      λ positions hovered d c h.
          let filled = draw_node-danger positions s hovered d c h in
          let depends = exact d.node.id in
          (λ e. depends.0 (filled.0 e), λ e. filled.1 (depends.1 e)),
    )
