-- ===== src/Graph/Layout/Groups.antt =====
-- Grouping and sorting keep every node, in the group of its own name.
use mathlib.Core.List.Memᴰ
use mathlib.Core.List.{Perm}
use Prim.Native.String.{String}
use wolkvorm.Base.{
  ℕ, select, eqb, length, List, [], ◌∷◌, ◌++◌, All, All-append, Memᴰ, Memᴰ-cons, ◌≡◌, refl, ◌⊎◌,
  inl, inr, ⊎_elim, arith, get, put, All-put, All-get, some, Option-cases, ◌==◌, string_eq,
  Bool-cases,
}
use wolkvorm.Base.Sorting.{
  insert, sort_by, IsSorted, All-sort_by, sort_by-perm, sort_by-IsSorted, sort_by-select,
}
use wolkvorm.Graph.{Node}
use wolkvorm.Graph.Layout.{
  Groups, group_of, members, group_node, group_nodes, is_smaller, sort_groups,
}

abbrev pub IsHeld : Node → Groups → Type 0
IsHeld n [] = ⊥
IsHeld n (g ∷ gs) = Memᴰ n g.1 ⊎ IsHeld n gs

-- The members of a group are nodes of the graph that name the group.
abbrev pub IsSound : List Node → String × List Node → Type 0
IsSound nodes g = All (λ n. (group_of n ≡ g.0) × Memᴰ n nodes) g.1

module _ (P : String × List Node → Type 0) where
  pub All-sort_groups : (gs : Groups) → All P gs → All P (sort_groups gs)
  unfolding sort_groups
  All-sort_groups gs h = All-sort_by is_smaller P gs h

group_node-IsSound :
    (nodes : List Node) (m : Groups) (n : Node)
    → Memᴰ n nodes
    → All (IsSound nodes) m
    → All (IsSound nodes) (group_node m n)
unfolding group_node
group_node-IsSound nodes m n here h =
    All-put (IsSound nodes) (group_of n) (members (get (group_of n) m) ++ n ∷ []) m
      (All-append (λ x. (group_of x ≡ group_of n) × Memᴰ x nodes) (members (get (group_of n) m))
        (n ∷ []) old ((refl, here), tt))
      h
  where
    old : All (λ x. (group_of x ≡ group_of n) × Memᴰ x nodes) (members (get (group_of n) m))
    old = elim (Option-cases (get (group_of n) m)) [
      | inl missing ↦ rw missing tt
      | inr (ns, found) ↦ rw found (All-get (IsSound nodes) (group_of n) ns m found h)
    ]

pub group_nodes-IsSound :
    (nodes : List Node) (m : Groups) (ns : List Node)
    → ((n : Node) → Memᴰ n ns → Memᴰ n nodes)
    → All (IsSound nodes) m
    → All (IsSound nodes) (group_nodes m ns)
unfolding group_nodes
group_nodes-IsSound nodes m [] sub h = h
group_nodes-IsSound nodes m (n ∷ ns) sub h =
    group_nodes-IsSound nodes (group_node m n) ns (λ x k. sub x (Memᴰ.tail k))
      (group_node-IsSound nodes m n (sub n (Memᴰ.head refl)) h)

IsHeld-put_new :
    (n : Node) (k : String) (v : List Node) (m : Groups) → Memᴰ n v → IsHeld n (put k v m)
unfolding put
IsHeld-put_new n k v [] h = inl h
IsHeld-put_new n k v ((j, w) ∷ m) h = elim (Bool-cases (j == k)) [
  | inl same ↦ rw same (inl h)
  | inr other ↦ rw other (inr (IsHeld-put_new n k v m h))
]

IsHeld-put :
    (n : Node) (k : String) (v : List Node) (m : Groups)
    → ((old : List Node) → get k m ≡ some old → Memᴰ n old → Memᴰ n v)
    → IsHeld n m
    → IsHeld n (put k v m)
unfolding put get
IsHeld-put n k v [] keep h = elim h [ ]
IsHeld-put n k v ((j, w) ∷ m) keep h = elim (Bool-cases (j == k)) [
  | inl same ↦ rw same (⊎_elim (λ now. inl (keep w (rw same) now)) inr h)
  | inr other ↦
      let tail_keep = λ (old : List Node) (e : get k m ≡ some old). keep old (rw other e) in
      rw other (⊎_elim inl (λ later. inr (IsHeld-put n k v m tail_keep later)) h)
]

IsHeld-group_node : (n x : Node) (m : Groups) → IsHeld n m → IsHeld n (group_node m x)
unfolding group_node
IsHeld-group_node n x m h =
    IsHeld-put n (group_of x) (members (get (group_of x) m) ++ x ∷ []) m
      (λ old e k. Memᴰ.append_left (x ∷ []) (rw e k)) h

pub group_nodes-IsHeld :
    (n : Node) (m : Groups) (ns : List Node) → Memᴰ n ns ⊎ IsHeld n m → IsHeld n (group_nodes m ns)
unfolding group_nodes group_node
group_nodes-IsHeld n m [] h = ⊎_elim (λ k. absurd (Memᴰ.not-nil k)) (λ k. k) h
group_nodes-IsHeld n m (x ∷ ns) h = elim h [
  | inr held ↦ group_nodes-IsHeld n (group_node m x) ns (inr (IsHeld-group_node n x m held))
  | inl listed ↦ elim ((Memᴰ-cons n x ns).0 listed) [
    | inr later ↦ group_nodes-IsHeld n (group_node m x) ns (inl later)
    | inl same ↦ group_nodes-IsHeld n (group_node m x) ns (
        inr (
          IsHeld-put_new n (group_of x) (members (get (group_of x) m) ++ x ∷ []) m
            (Memᴰ.append_right (members (get (group_of x) m)) (Memᴰ.head same))))
  ]
]

IsHeld-insert :
    (n : Node) (g : String × List Node) (gs : Groups)
    → IsHeld n (g ∷ gs)
    → IsHeld n (insert is_smaller g gs)
unfolding insert
IsHeld-insert n g [] h = h
IsHeld-insert n g (f ∷ gs) h = elim (Bool-cases (is_smaller g f)) [
  | inr not_less ↦ rw not_less h
  | inl less ↦ rw less (elim h [
    | inl now ↦ inr (IsHeld-insert n g gs (inl now))
    | inr (inl second) ↦ inl second
    | inr (inr later) ↦ inr (IsHeld-insert n g gs (inr later))
  ])
]

pub IsHeld-sort_groups : (n : Node) (gs : Groups) → IsHeld n gs → IsHeld n (sort_groups gs)
unfolding sort_groups sort_by
IsHeld-sort_groups n [] h = h
IsHeld-sort_groups n (g ∷ gs) h =
    IsHeld-insert n g (sort_groups gs) (⊎_elim inl (λ k. inr (IsHeld-sort_groups n gs k)) h)

-- Sorting the groups rearranges them, with the largest first, and keeps the order of groups of one
-- size.
pub sort_groups-perm :
    (gs : Groups)
    → Perm (sort_groups gs) gs
      × IsSorted is_smaller (sort_groups gs)
      × ((size : ℕ)
          → select (λ g. eqb (length g.1) size) (sort_groups gs)
            ≡ select (λ g. eqb (length g.1) size) gs)
unfolding sort_groups
sort_groups-perm gs = (
  sort_by-perm is_smaller gs,
  sort_by-IsSorted is_smaller (λ g h k. ground arith) (λ g h i k m. ground arith) gs,
  λ size. sort_by-select is_smaller (λ g. eqb (length g.1) size) (λ g h k m. ground arith) gs,
)
