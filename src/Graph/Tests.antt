-- ===== src/Graph/Tests.antt =====
-- The graph page on concrete graphs: a cycle for the blast radius, three nodes for the layout.
use Prim.Native.String.{String}
use mathlib.Core.List.Memᴰ
use wolkvorm.Base.{
  ◌+◌, ◌≤◌, suc, length, List, [], ◌∷◌, Option, none, some, codes, true, false, string_eq, All,
  Memᴰ, get, put, ◌≡◌, ◌≢◌, ◌↔◌, refl, inl, inr,
}
use wolkvorm.Base.Sets.{has, add}
use wolkvorm.Text.Number.{show_number}
use wolkvorm.Graph.{Node, Edge}
use wolkvorm.Graph.Blast.{get_blast_radius, find_dependents}
use wolkvorm.Graph.Blast.Terminates.{get_blast_radius-find_dependents}
use wolkvorm.Graph.Blast.Correct.{DependsOn, get_blast_radius-DependsOn}
use wolkvorm.Graph.Layout.{Point, Box, Groups, group_of, layout, max_row_width}
use wolkvorm.Graph.Edges.{handle_node_click, point, edge_paths, Selection, is_highlighted}
use wolkvorm.Graph.Nodes.{
  Circle, Details, danger, success, draw_node, short_name, blast_warning,
  draw_node-handle_node_click,
}
use wolkvorm.Graph.Colors.{color_map, is_drawn, legend}
use wolkvorm.Graph.Edges.Highlight.{edge_paths-IsPlain}
use wolkvorm.Graph.Layout.Rows.{IsInside, AreApart, layout-AreApart}
use wolkvorm.Graph.Layout.Nodes.{IsWithin, layout-IsWithin}

abbrev edge : String → String → Edge
edge from to = record { from = from; to = to; label = "" }

-- `web` and `net` depend on each other, and `db` on `web`.
abbrev cyclic : List Edge
cyclic = edge "web" "net" ∷ edge "net" "web" ∷ edge "db" "web" ∷ []

cyclic_radius : get_blast_radius cyclic "net" ≡ some ("web" ∷ "net" ∷ "db" ∷ [])
unfolding get_blast_radius has add
cyclic_radius = refl

get_blast_radius-DependsOn_example :
    (s : List String) × (get_blast_radius cyclic "net" ≡ some s)
    × ((x : String) → (has x s ≡ true) ↔ DependsOn cyclic "net" x)
get_blast_radius-DependsOn_example = get_blast_radius-DependsOn cyclic "net"

get_blast_radius-find_dependents_example :
    (find_dependents cyclic (7 + suc (length cyclic)) "net" [] ≡ get_blast_radius cyclic "net")
    × (get_blast_radius cyclic "net" ≢ none)
get_blast_radius-find_dependents_example = get_blast_radius-find_dependents cyclic "net" 7

abbrev vpc : Node
vpc = record { id = "vpc-1"; group = "" }

abbrev fleet : List Node
fleet = vpc ∷ record { id = "i-1"; group = "EC2" } ∷ record { id = "i-2"; group = "EC2" } ∷ []

layout-AreApart_example :
    All (IsInside (layout fleet).svg_height) (layout fleet).groups
    × AreApart (layout fleet).groups
    × (max_row_width ≤ (layout fleet).svg_width)
    × ((layout fleet).svg_width ≤ 1240)
layout-AreApart_example = layout-AreApart fleet

abbrev two_groups : Groups
two_groups = ("Other", vpc ∷ []) ∷ ("VPC", vpc ∷ vpc ∷ []) ∷ []

layout-IsWithin_example :
    (p : Point) × (b : Box) × (get "vpc-1" (layout (vpc ∷ [])).node_positions ≡ some p)
    × Memᴰ b (layout (vpc ∷ [])).groups
    × (b.name ≡ group_of vpc)
    × Memᴰ vpc b.nodes
    × IsWithin b p
layout-IsWithin_example =
    layout-IsWithin (vpc ∷ []) vpc (Memᴰ.head refl)
      (λ m k _. elim (Memᴰ.cases_cons k) [ inl e ↦ e | inr t ↦ absurd (Memᴰ.not-nil t) ])

abbrev positions : List (String × Point)
positions = ("web", record { x = 100; y = 100 }) ∷ ("net", record { x = 200; y = 100 }) ∷ []

abbrev selected : Selection
selected = record {
  selected_node = some (record { id = "net"; group = "VPC" });
  blast_radius = "web" ∷ "net" ∷ [];
}

drawn :
    edge_paths positions (edge "web" "net" ∷ [])
    ≡ record {
      from = point (record { x = 100; y = 100 });
      to = point (record { x = 200; y = 100 });
      label = "";
    }
      ∷ []
unfolding edge_paths get
drawn = refl

edge_paths-IsPlain_example :
    All (λ p. is_highlighted selected p ≡ false) (edge_paths positions (edge "web" "net" ∷ []))
edge_paths-IsPlain_example = edge_paths-IsPlain selected positions (edge "web" "net" ∷ [])

abbrev web : Details
web = record {
  node = record { id = "web"; group = "EC2" };
  name = codes "web-server-1";
  status = "active";
}

-- `web` is affected by `net`, which is selected.
web_drawn :
    draw_node positions selected none web
    ≡ some (record {
      at = record { x = 100; y = 100 };
      radius = 26;
      glow = some danger;
      tint = danger;
      stroke = danger;
      stroke_width = 2;
      name = codes "web-server..";
      status = success;
    })
unfolding draw_node short_name has get
web_drawn = refl

warned : blast_warning selected ≡ some (codes "Blast Radius: 2 dependent resources affected")
unfolding blast_warning show_number
warned = refl

draw_node-handle_node_click_example :
    (s : Selection) × (handle_node_click cyclic (record { id = "net"; group = "VPC" }) selected
      ≡ some s)
    × ((at : List (String × Point)) (hovered : Option String) (d : Details) (c : Circle)
        → draw_node at s hovered d ≡ some c
        → (c.tint ≡ danger) ↔ DependsOn cyclic "net" d.node.id)
draw_node-handle_node_click_example =
    draw_node-handle_node_click cyclic (record { id = "net"; group = "VPC" }) selected

shown_legend :
    legend (color_map true) (layout fleet).groups ≡ ("EC2", "#ec4899") ∷ ("Other", "#94a3b8") ∷ []
unfolding legend is_drawn color_map layout put get
shown_legend = refl
