-- ===== src/Graph/Edges/Highlight.antt =====
-- Which edges are highlighted.
use Prim.Native.String.{String}
use wolkvorm.Base.{
  List, [], ◌∷◌, Option, none, some, Option-cases, Bool, true, false, string_eq, if◌then◌else◌, All,
  get, ◌≡◌, refl, inl, inr,
}
use wolkvorm.Graph.{Edge}
use wolkvorm.Graph.Layout.{Point}
use wolkvorm.Graph.Edges.{
  EdgePath, point, is_same_point, edge_path, keep, edge_paths, Selection, is_highlighted,
}

abbrev IsPlain : Selection → Option EdgePath → Type 0
IsPlain s none = Unit
IsPlain s (some p) = is_highlighted s p ≡ false

plain :
    (s : Selection) (p q : Point) (label : String)
    → is_highlighted s (record { from = point p; to = point q; label = label }) ≡ false
unfolding is_highlighted
plain s p q label = elim (Option-cases s.selected_node) [
  | inl a ↦ rw a refl
  | inr (n, a) ↦ rw a refl
]

keep-IsPlain :
    (s : Selection) (o : Option EdgePath) (ps : List EdgePath)
    → IsPlain s o
    → All (λ p. is_highlighted s p ≡ false) ps
    → All (λ p. is_highlighted s p ≡ false) (keep o ps)
keep-IsPlain s none ps h k = k
keep-IsPlain s (some p) ps h k = (h, k)

edge_path-IsPlain :
    (s : Selection) (e : Edge) (from to : Option Point) → IsPlain s (edge_path e from to)
unfolding edge_path
edge_path-IsPlain s e none to = tt
edge_path-IsPlain s e (some p) none = tt
edge_path-IsPlain s e (some p) (some q) = go (is_same_point p q)
  where
    go :
        (b : Bool)
        → IsPlain s
            (if b then none else some (record { from = point p; to = point q; label = e.label }))
    go true = tt
    go false = plain s p q e.label

-- No edge is highlighted, whichever node is selected and whatever its blast radius holds: the ends
-- of a drawn edge are points, which are compared with the ids of nodes.
pub edge_paths-IsPlain :
    (s : Selection) (positions : List (String × Point)) (edges : List Edge)
    → All (λ p. is_highlighted s p ≡ false) (edge_paths positions edges)
unfolding edge_paths
edge_paths-IsPlain s positions [] = tt
edge_paths-IsPlain s positions (e ∷ es) =
    keep-IsPlain s (edge_path e (get e.from positions) (get e.to positions))
      (edge_paths positions es) (edge_path-IsPlain s e (get e.from positions) (get e.to positions))
      (edge_paths-IsPlain s positions es)
