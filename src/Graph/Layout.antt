-- ===== src/Graph/Layout.antt =====
-- The `useMemo` of frontend/src/pages/GraphPage.js that groups the nodes and places the groups in
-- rows. All its quantities are natural numbers; `NODE_SPACING_X / 2` and `NODE_SPACING_Y / 2` are
-- even divisions. Group names that `Object.prototype` or the array-index order of keys would treat
-- specially are not modelled.
pub mod Rows
pub mod Nodes
pub mod Groups
use Prim.Native.String.{String}
use wolkvorm.Base.{
  Bool, ℕ, zero, suc, ◌+◌, ◌*◌, ◌/◌, ◌%◌, max, min, List, [], ◌∷◌, ◌++◌, Option, none, some, ◌&&◌,
  ◌==◌, string_eq, if◌then◌else◌, length, ltb, get, put,
}
use wolkvorm.Base.Sorting.{sort_by}
use wolkvorm.Graph.{Node}

abbrev pub node_radius : ℕ
node_radius = 26

abbrev pub group_padding : ℕ
group_padding = 24

abbrev pub group_header : ℕ
group_header = 32

abbrev pub node_spacing_x : ℕ
node_spacing_x = 100

abbrev pub node_spacing_y : ℕ
node_spacing_y = 80

abbrev pub group_gap : ℕ
group_gap = 40

abbrev pub nodes_per_row : ℕ
nodes_per_row = 3

abbrev pub max_row_width : ℕ
max_row_width = 1200

-- `n.group || "Other"`
pub group_of : Node → String
group_of n = if n.group == "" then "Other" else n.group

abbrev pub Groups : Type 0
Groups = List (String × List Node)

abbrev members : Option (List Node) → List Node
members none = []
members (some ns) = ns

group_node : Groups → Node → Groups
group_node m n = put (group_of n) (members (get (group_of n) m) ++ n ∷ []) m

-- The `forEach` that fills `groupMap`.
pub group_nodes : Groups → List Node → Groups
group_nodes m [] = m
group_nodes m (n ∷ ns) = group_nodes (group_node m n) ns

-- The stable sort by the comparator `groupMap[b].length - groupMap[a].length`.
abbrev pub is_smaller : String × List Node → String × List Node → Bool
is_smaller g h = ltb (length g.1) (length h.1)

pub sort_groups : Groups → Groups
unfolding sort_by
sort_groups gs = sort_by is_smaller gs

pub record Box : Type 0 where
  pub name : String
  pub x : ℕ
  pub y : ℕ
  pub width : ℕ
  pub height : ℕ
  pub nodes : List Node

pub record Point : Type 0 where
  pub x : ℕ
  pub y : ℕ

pub record Placing : Type 0 where
  pub cursor_x : ℕ
  pub row_y : ℕ
  pub row_max_height : ℕ
  pub group_boxes : List Box
  pub positions : List (String × Point)

box_width : ℕ → ℕ
box_width n = min n nodes_per_row * node_spacing_x + group_padding * 2

-- `Math.ceil(n / NODES_PER_ROW)` rows.
box_height : ℕ → ℕ
box_height n = (n + 2) / nodes_per_row * node_spacing_y + group_header + group_padding * 2

abbrev next_row : Placing → Placing
next_row c = record c {
  row_y = c.row_y + (c.row_max_height + group_gap);
  cursor_x = group_gap;
  row_max_height = 0;
}

wrap : Placing → ℕ → Placing
wrap c width =
    if ltb max_row_width (c.cursor_x + width + group_gap) && ltb (group_gap + 1) c.cursor_x
    then next_row c
    else c

node_at : Box → ℕ → Point
node_at b i = record {
  x = b.x + group_padding + i % nodes_per_row * node_spacing_x + node_spacing_x / 2;
  y = b.y + group_header + group_padding + i / nodes_per_row * node_spacing_y + node_spacing_y / 2;
}

place_nodes : Box → ℕ → List Node → List (String × Point) → List (String × Point)
place_nodes b i [] positions = positions
place_nodes b i (n ∷ ns) positions = place_nodes b (suc i) ns (put n.id (node_at b i) positions)

-- The box of a group at the cursor.
box_at : Placing → String → List Node → Box
unfolding box_width box_height
box_at c name nodes = record {
  name = name;
  x = c.cursor_x;
  y = c.row_y;
  width = box_width (length nodes);
  height = box_height (length nodes);
  nodes = nodes;
}

put_box : Placing → Box → Placing
unfolding place_nodes node_at
put_box c b = record {
  cursor_x = c.cursor_x + (b.width + group_gap);
  row_y = c.row_y;
  row_max_height = max c.row_max_height b.height;
  group_boxes = c.group_boxes ++ b ∷ [];
  positions = place_nodes b 0 b.nodes c.positions;
}

place_group : Placing → String × List Node → Placing
unfolding wrap box_at put_box
place_group c (name, nodes) =
    let w = wrap c (box_width (length nodes)) in put_box w (box_at w name nodes)

place_groups : Placing → Groups → Placing
place_groups c [] = c
place_groups c (g ∷ gs) = place_groups (place_group c g) gs

abbrev start : Placing
start = record {
  cursor_x = group_gap;
  row_y = group_gap;
  row_max_height = 0;
  group_boxes = [];
  positions = [];
}

pub record Canvas : Type 0 where
  pub groups : List Box
  pub node_positions : List (String × Point)
  pub svg_width : ℕ
  pub svg_height : ℕ

unfoldable pub layout : List Node → Canvas
unfolding place_groups place_group sort_groups group_nodes group_node group_of
layout nodes =
    let c = place_groups start (sort_groups (group_nodes [] nodes)) in
    record {
      groups = c.group_boxes;
      node_positions = c.positions;
      svg_width = max max_row_width (c.cursor_x + group_gap);
      svg_height = c.row_y + c.row_max_height + group_gap;
    }
