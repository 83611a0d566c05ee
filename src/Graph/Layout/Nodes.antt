-- ===== src/Graph/Layout/Nodes.antt =====
-- Every node is drawn inside the box of its group.
use mathlib.Core.List.Memᴰ
use mathlib.Core.List.{map-append, append-nil, append_assoc}
use Prim.Native.String.{String}
use wolkvorm.Base.{
  ℕ, suc, ◌+◌, ◌≤◌, ◌<◌, List, [], ◌∷◌, ◌++◌, map, length, All, All-imp, All-Memᴰ, Memᴰ, Memᴰ-cons,
  ◌≡◌, refl, sym, ap, ◌∙◌, ◌⊎◌, inl, inr, ⊎_elim, arith, get, put, some, ==-iff, ◌==◌, string_eq,
  Bool-cases, All-put, All-get, get-put, subst,
}
use wolkvorm.Graph.{Node}
use wolkvorm.Graph.Layout.{
  Groups, Box, Point, Placing, node_radius, group_header, group_of, group_nodes, sort_groups,
  box_width, box_height, wrap, node_at, place_nodes, box_at, put_box, place_group, place_groups,
  start, layout,
}
use wolkvorm.Graph.Layout.Groups.{
  IsHeld, IsSound, All-sort_groups, group_nodes-IsSound, group_nodes-IsHeld, IsHeld-sort_groups,
}

-- The circle of a node, with the 4 that selection and the 6 that the glow add to its radius, lies in
-- the box, below its header.
abbrev pub IsWithin : Box → Point → Type 0
IsWithin b p =
    (b.x + (node_radius + 10) ≤ p.x)
    × (p.x + (node_radius + 10) ≤ b.x + b.width)
    × (b.y + group_header + (node_radius + 10) ≤ p.y)
    × (p.y + (node_radius + 10) ≤ b.y + b.height)

abbrev IsSized : Box → Type 0
IsSized b = (b.width ≡ box_width (length b.nodes)) × (b.height ≡ box_height (length b.nodes))

node_at-IsWithin : (b : Box) (i : ℕ) → IsSized b → i < length b.nodes → IsWithin b (node_at b i)
unfolding node_at box_width box_height
node_at-IsWithin b i s h = omega arith

-- The position is that of a node with this id, in the box of that node.
abbrev IsExplained : List Box → String × Point → Type 0
IsExplained bs e =
    (n : Node) × (b : Box) × (n.id ≡ e.0) × Memᴰ n b.nodes × Memᴰ b bs × IsWithin b e.1

abbrev IsDefined : String → List (String × Point) → Type 0
IsDefined id positions = (p : Point) × (get id positions ≡ some p)

IsDefined-put :
    (id k : String) (p : Point) (m : List (String × Point))
    → (k ≡ id) ⊎ IsDefined id m
    → IsDefined id (put k p m)
IsDefined-put id k p m h = elim (Bool-cases (k == id)) [
  | inl same ↦ (p, get-put k id p m ∙ rw same refl)
  | inr other ↦ elim h [
    | inl e ↦ cc ((==-iff k id).1 e)
    | inr (q, found) ↦ (q, get-put k id p m ∙ rw other found)
  ]
]

place_nodes-IsExplained :
    (bs : List Box) (b : Box) (i : ℕ) (ns : List Node) (m : List (String × Point))
    → IsSized b
    → Memᴰ b bs
    → ((n : Node) → Memᴰ n ns → Memᴰ n b.nodes)
    → i + length ns ≤ length b.nodes
    → All (IsExplained bs) m
    → All (IsExplained bs) (place_nodes b i ns m)
unfolding place_nodes
place_nodes-IsExplained bs b i [] m s here sub fits h = h
place_nodes-IsExplained bs b i (n ∷ ns) m s here sub fits h =
    place_nodes-IsExplained bs b (suc i) ns (put n.id (node_at b i) m) s here
      (λ x k. sub x (Memᴰ.tail k)) (omega arith)
      (All-put (IsExplained bs) n.id (node_at b i) m
        (n, b, refl, sub n (Memᴰ.head refl), here, node_at-IsWithin b i s (omega arith)) h)

place_nodes-IsDefined :
    (id : String) (b : Box) (i : ℕ) (ns : List Node) (m : List (String × Point))
    → ((n : Node) × Memᴰ n ns × (n.id ≡ id)) ⊎ IsDefined id m
    → IsDefined id (place_nodes b i ns m)
unfolding place_nodes
place_nodes-IsDefined id b i [] m h = ⊎_elim (λ k. absurd (Memᴰ.not-nil k.1)) (λ k. k) h
place_nodes-IsDefined id b i (n ∷ ns) m h =
    place_nodes-IsDefined id b (suc i) ns (put n.id (node_at b i) m) (elim h [
      | inr old ↦ inr (IsDefined-put id n.id (node_at b i) m (inr old))
      | inl (x, listed, e) ↦ elim ((Memᴰ-cons x n ns).0 listed) [
        | inl same ↦
            inr
              (IsDefined-put id n.id (node_at b i) m (inl (ap (λ (y : Node). y.id) (sym same) ∙ e)))
        | inr later ↦ inl (x, later, e)
      ]
    ])

record IsDrawn (c : Placing) : Type 0 where
  explained : All (IsExplained c.group_boxes) c.positions
  covered :
      (n : Node) (b : Box) → Memᴰ b c.group_boxes → Memᴰ n b.nodes → IsDefined n.id c.positions

put_box-IsDrawn : (c : Placing) (b : Box) → IsSized b → IsDrawn c → IsDrawn (put_box c b)
unfolding put_box
put_box-IsDrawn c b s h = record {
  explained =
      place_nodes-IsExplained (c.group_boxes ++ b ∷ []) b 0 b.nodes c.positions s
        (Memᴰ.append_right c.group_boxes (Memᴰ.head refl)) (λ n k. k) (omega arith)
        (All-imp (IsExplained c.group_boxes) (IsExplained (c.group_boxes ++ b ∷ []))
          (λ e (n, a, same, k, here, w). (n, a, same, k, Memᴰ.append_left (b ∷ []) here, w))
          c.positions h.explained);
  covered = λ n a listed k. place_nodes-IsDefined n.id b 0 b.nodes c.positions (
      ⊎_elim (λ old. inr (h.covered n a old k))
        (λ last. inl (n, subst (λ (x : Box). Memᴰ n x.nodes) (Memᴰ.eq_of_singleton last) k, refl))
        (Memᴰ.append_cases c.group_boxes listed));
}

wrap-same :
    (c : Placing) (width : ℕ)
    → ((wrap c width).group_boxes ≡ c.group_boxes) × ((wrap c width).positions ≡ c.positions)
unfolding wrap
wrap-same c width = ground arith

wrap-IsDrawn : (c : Placing) (width : ℕ) → IsDrawn c → IsDrawn (wrap c width)
wrap-IsDrawn c width h =
    let (boxes, positions) = wrap-same c width in
    record {
      explained = rw (boxes, positions) h.explained;
      covered = λ n b m k. rw positions (h.covered n b (rw boxes at m) k);
    }

place_group-IsDrawn : (c : Placing) (g : String × List Node) → IsDrawn c → IsDrawn (place_group c g)
unfolding place_group box_at
place_group-IsDrawn c (name, nodes) h =
    let w = wrap c (box_width (length nodes)) in
    put_box-IsDrawn w (box_at w name nodes) (refl, refl) (wrap-IsDrawn c _ h)

place_groups-IsDrawn : (c : Placing) (gs : Groups) → IsDrawn c → IsDrawn (place_groups c gs)
unfolding place_groups
place_groups-IsDrawn c [] h = h
place_groups-IsDrawn c (g ∷ gs) h =
    place_groups-IsDrawn (place_group c g) gs (place_group-IsDrawn c g h)

-- The boxes are those of the groups, in their order.
abbrev group_of_box : Box → String × List Node
group_of_box b = (b.name, b.nodes)

place_group-groups :
    (c : Placing) (g : String × List Node)
    → map group_of_box (place_group c g).group_boxes ≡ map group_of_box c.group_boxes ++ g ∷ []
unfolding place_group box_at put_box
place_group-groups c (name, nodes) =
    let w = wrap c (box_width (length nodes)) in
    rw (map-append, (wrap-same c (box_width (length nodes))).0)

place_groups-groups :
    (c : Placing) (gs : Groups)
    → map group_of_box (place_groups c gs).group_boxes ≡ map group_of_box c.group_boxes ++ gs
unfolding place_groups
place_groups-groups c [] = sym (append-nil _)
place_groups-groups c (g ∷ gs) =
    place_groups-groups (place_group c g) gs
    ∙ rw (place_group-groups c g) (append_assoc (map group_of_box c.group_boxes) (g ∷ []) gs)

mem_of_IsHeld :
    (n : Node) (bs : List Box)
    → IsHeld n (map group_of_box bs)
    → (b : Box) × Memᴰ b bs × Memᴰ n b.nodes
mem_of_IsHeld n [] h = elim h [ ]
mem_of_IsHeld n (b ∷ bs) h = elim h [
  | inl now ↦ (b, Memᴰ.head refl, now)
  | inr later ↦ let (a, here, k) = mem_of_IsHeld n bs later in (a, Memᴰ.tail here, k)
]

All-map :
    (P : String × List Node → Type 0) (bs : List Box)
    → All P (map group_of_box bs)
    → All (λ b. P (group_of_box b)) bs
All-map P [] h = tt
All-map P (b ∷ bs) h = (h.0, All-map P bs h.1)

module _ (nodes : List Node) where
  layout-groups : map group_of_box (layout nodes).groups ≡ sort_groups (group_nodes [] nodes)
  unfolding layout
  layout-groups = place_groups-groups start (sort_groups (group_nodes [] nodes))

  layout-IsSound : All (λ b. IsSound nodes (group_of_box b)) (layout nodes).groups
  layout-IsSound = All-map (IsSound nodes) (layout nodes).groups (
      rw layout-groups (
        All-sort_groups (IsSound nodes) (group_nodes [] nodes)
          (group_nodes-IsSound nodes [] nodes (λ n k. k) tt)))

  layout-mem : (n : Node) → Memᴰ n nodes → (b : Box) × Memᴰ b (layout nodes).groups × Memᴰ n b.nodes
  layout-mem n listed = mem_of_IsHeld n (layout nodes).groups (
      rw layout-groups
        (IsHeld-sort_groups n (group_nodes [] nodes) (group_nodes-IsHeld n [] nodes (inl listed))))

  layout-IsDrawn :
      (n : Node) (b : Box)
      → Memᴰ b (layout nodes).groups
      → Memᴰ n b.nodes
      → (p : Point) × (get n.id (layout nodes).node_positions ≡ some p)
        × IsExplained (layout nodes).groups (n.id, p)
  unfolding layout
  layout-IsDrawn n b listed k =
      let drawn =
        place_groups-IsDrawn start (sort_groups (group_nodes [] nodes))
          (record { explained = tt; covered = λ _ _ m. absurd (Memᴰ.not-nil m) }) in
      let (p, found) = drawn.covered n b listed k in
      (
        p,
        found,
        All-get (IsExplained (layout nodes).groups) n.id p (layout nodes).node_positions found
            drawn.explained,
      )

-- A node whose id no other node of the graph has gets a position, inside the box of its own group
-- (`Other` if it names none), with a margin for the largest circle that is drawn for it.
pub layout-IsWithin :
    (nodes : List Node) (n : Node)
    → Memᴰ n nodes
    → ((m : Node) → Memᴰ m nodes → m.id ≡ n.id → m ≡ n)
    → (p : Point) × (b : Box) × (get n.id (layout nodes).node_positions ≡ some p)
      × Memᴰ b (layout nodes).groups
      × (b.name ≡ group_of n)
      × Memᴰ n b.nodes
      × IsWithin b p
layout-IsWithin nodes n listed unique =
    let (b₀, here₀, k₀) = layout-mem nodes n listed in
    let (p, found, (m, b, same, k, here, within)) = layout-IsDrawn nodes n b₀ here₀ k₀ in
    let members =
      All-Memᴰ (λ a. IsSound nodes (group_of_box a)) (layout nodes).groups (layout-IsSound nodes)
        here in
    let (name, listed_m) = All-Memᴰ (λ x. (group_of x ≡ b.name) × Memᴰ x nodes) b.nodes members k in
    let m_eq = unique m listed_m same in
    (p, b, found, here, sym name ∙ ap group_of m_eq, subst (λ x. Memᴰ x b.nodes) m_eq k, within)
