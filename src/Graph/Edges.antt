-- ===== src/Graph/Edges.antt =====
-- The edges of frontend/src/pages/GraphPage.js: `edgePaths`, a click on a node, and which edges are
-- drawn highlighted. `Curves` is how the edges are drawn.
pub mod Highlight
pub mod Curves
use Prim.Native.String.{String}
use wolkvorm.Base.{
  List, [], ◌∷◌, Option, none, some, Bool, true, false, ◌&&◌, ◌||◌, ◌==◌, string_eq, if◌then◌else◌,
  eqb, get,
}
use wolkvorm.Base.Sets.{has}
use wolkvorm.Graph.{Node, Edge}
use wolkvorm.Graph.Blast.{get_blast_radius}
use wolkvorm.Graph.Layout.{Point}

-- A JavaScript value that stands in `from` or `to` of an edge.
pub data End : Type 0 where
  id : String → End
  point : Point → End

-- `{ ...e, path, from: nodePositions[e.from], to: nodePositions[e.to], … }`
pub record EdgePath : Type 0 where
  pub from : End
  pub to : End
  pub label : String

-- `Math.sqrt(dx * dx + dy * dy) === 0`
abbrev is_same_point : Point → Point → Bool
is_same_point p q = eqb p.x q.x && eqb p.y q.y

-- The path of an edge whose ends have the given positions.
edge_path : Edge → Option Point → Option Point → Option EdgePath
edge_path e none to = none
edge_path e (some p) none = none
edge_path e (some p) (some q) =
    if is_same_point p q
    then none
    else some (record { from = point p; to = point q; label = e.label })

abbrev keep {ℓ} : {A : Type ℓ} → Option A → List A → List A
keep none xs = xs
keep (some x) xs = x ∷ xs

-- `graph.edges.map(…).filter(Boolean)`
unfoldable pub edge_paths : List (String × Point) → List Edge → List EdgePath
unfolding edge_path
edge_paths positions [] = []
edge_paths positions (e ∷ es) =
    keep (edge_path e (get e.from positions) (get e.to positions)) (edge_paths positions es)

-- What the page remembers of a click.
pub record Selection : Type 0 where
  pub selected_node : Option Node
  pub blast_radius : List String

unfoldable pub handle_node_click : List Edge → Node → Selection → Option Selection
handle_node_click edges n s = elim (get_blast_radius edges n.id) [
  | none ↦ none
  | some radius ↦ some (record { selected_node = some n; blast_radius = radius })
]

-- `end === id`, and `blastRadius.has(end)`: an object is never a string.
abbrev is_id : End → String → Bool
is_id (id j) k = j == k
is_id (point p) k = false

abbrev is_in : End → List String → Bool
is_in (id j) set = has j set
is_in (point p) set = false

pub is_selected : Selection → EdgePath → Bool
is_selected s e = elim s.selected_node [
  | none ↦ false
  | some n ↦ is_id e.from n.id || is_id e.to n.id
]

pub is_blast : Selection → EdgePath → Bool
is_blast s e = elim s.selected_node [ none ↦ false | some n ↦ is_in e.from s.blast_radius ]

pub is_highlighted : Selection → EdgePath → Bool
unfolding is_selected is_blast
is_highlighted s e = is_selected s e || is_blast s e
