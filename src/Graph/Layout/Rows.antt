-- ===== src/Graph/Layout/Rows.antt =====
-- The boxes of the groups lie on the canvas and apart from one another.
use Prim.Native.String.{String}
use wolkvorm.Base.{
  ℕ, ◌+◌, ◌≤◌, List, [], ◌∷◌, ◌++◌, length, All, All-append, All-imp, ◌≡◌, ◌⊎◌, inl, inr, arith,
  ltb, ◌&&◌, Bool-cases, refl,
}
use wolkvorm.Graph.{Node}
use wolkvorm.Graph.Layout.{
  Groups, Box, Placing, group_gap, max_row_width, box_width, next_row, wrap, box_at, put_box,
  place_group, place_groups, start, layout, sort_groups, group_nodes,
}

-- `a`, which is placed before `b`, ends a gap to the left of `b` or a gap above it.
abbrev pub IsApart : Box → Box → Type 0
IsApart a b = (a.x + a.width + group_gap ≤ b.x) ⊎ (a.y + a.height + group_gap ≤ b.y)

abbrev pub AreApart : List Box → Type 0
AreApart [] = Unit
AreApart (b ∷ bs) = All (IsApart b) bs × AreApart bs

-- The box keeps a gap to all four sides of the canvas.
abbrev pub IsInside : ℕ → Box → Type 0
IsInside svg_height b =
    (group_gap ≤ b.x)
    × (b.x + b.width + group_gap ≤ max_row_width)
    × (group_gap ≤ b.y)
    × (b.y + b.height + group_gap ≤ svg_height)

-- A box of an earlier row, or of the current row and left of the cursor.
abbrev IsBehind : ℕ → ℕ → ℕ → Box → Type 0
IsBehind cursor_x row_y row_max_height b =
    (b.y + b.height + group_gap ≤ row_y)
    ⊎ (b.y ≡ row_y) × (b.x + b.width + group_gap ≤ cursor_x) × (b.height ≤ row_max_height)

abbrev IsPlaced : Placing → Box → Type 0
IsPlaced c b =
    (group_gap ≤ b.x)
    × (b.x + b.width + group_gap ≤ max_row_width)
    × (group_gap ≤ b.y)
    × IsBehind c.cursor_x c.row_y c.row_max_height b

record Fits (c : Placing) : Type 0 where
  left : group_gap ≤ c.cursor_x
  right : c.cursor_x ≤ max_row_width
  top : group_gap ≤ c.row_y
  placed : All (IsPlaced c) c.group_boxes
  apart : AreApart c.group_boxes

AreApart-concat :
    (bs : List Box) (b : Box) → AreApart bs → All (λ a. IsApart a b) bs → AreApart (bs ++ b ∷ [])
AreApart-concat [] b h k = (tt, tt)
AreApart-concat (a ∷ bs) b h k =
    (All-append (IsApart a) bs (b ∷ []) h.0 (k.0, tt), AreApart-concat bs b h.1 k.1)

box_width-le : (n : ℕ) → box_width n ≤ 348
unfolding box_width
box_width-le n = omega arith

next_row-Fits : (c : Placing) → Fits c → Fits (next_row c)
next_row-Fits c h = record {
  left = omega arith;
  right = omega arith;
  top = omega (arith, h.top);
  placed =
      All-imp (IsPlaced c) (IsPlaced (next_row c)) (λ b p. ground arith) c.group_boxes h.placed;
  apart = h.apart;
}

abbrev HasRoom : Placing → ℕ → Type 0
HasRoom c width = c.cursor_x + width + group_gap ≤ max_row_width

-- Wrapping keeps what is placed, and leaves room for the box in its row.
wrap-Fits :
    (c : Placing) (width : ℕ)
    → width ≤ 348
    → Fits c
    → Fits (wrap c width) × HasRoom (wrap c width) width
unfolding wrap
wrap-Fits c width w h =
    elim (Bool-cases (ltb max_row_width (c.cursor_x + width + 40) && ltb 41 c.cursor_x)) [
      | inl full ↦ rw full (next_row-Fits c h, omega arith)
      | inr room ↦ rw room (h, ground arith)
    ]

put_box-Fits :
    (c : Placing) (b : Box)
    → Fits c
    → b.x ≡ c.cursor_x
    → b.y ≡ c.row_y
    → HasRoom c b.width
    → Fits (put_box c b)
unfolding put_box
put_box-Fits c b h x y room = record {
  left = omega (arith, h.left);
  right = omega arith;
  top = h.top;
  placed =
      All-append (IsPlaced (put_box c b)) c.group_boxes (b ∷ [])
        (All-imp (IsPlaced c) (IsPlaced (put_box c b)) (λ a p. ground arith) c.group_boxes h.placed)
        (ground (arith, h.left, h.top), tt);
  apart =
      AreApart-concat c.group_boxes b h.apart
        (All-imp (IsPlaced c) (λ a. IsApart a b) (λ a p. ground arith) c.group_boxes h.placed);
}

place_group-Fits : (c : Placing) (g : String × List Node) → Fits c → Fits (place_group c g)
unfolding place_group box_at
place_group-Fits c (name, nodes) h =
    let w = box_width (length nodes) in
    let (fits, room) = wrap-Fits c w (box_width-le (length nodes)) h in
    put_box-Fits (wrap c w) (box_at (wrap c w) name nodes) fits refl refl room

place_groups-Fits : (c : Placing) (gs : Groups) → Fits c → Fits (place_groups c gs)
unfolding place_groups
place_groups-Fits c [] h = h
place_groups-Fits c (g ∷ gs) h = place_groups-Fits (place_group c g) gs (place_group-Fits c g h)

layout-Fits : (gs : Groups) → Fits (place_groups start gs)
layout-Fits gs = place_groups-Fits start gs (omega arith)

-- Every box keeps the gap to the four sides of a canvas that is between 1200 and 1240 wide, and any
-- two boxes are a gap apart, the earlier one to the left of or above the later one.
pub layout-AreApart :
    (nodes : List Node)
    → All (IsInside (layout nodes).svg_height) (layout nodes).groups
      × AreApart (layout nodes).groups
      × (max_row_width ≤ (layout nodes).svg_width)
      × ((layout nodes).svg_width ≤ 1240)
unfolding layout
layout-AreApart nodes =
    let c = place_groups start (sort_groups (group_nodes [] nodes)) in
    let h = layout-Fits (sort_groups (group_nodes [] nodes)) in
    (
      All-imp (IsPlaced c) (IsInside (c.row_y + c.row_max_height + group_gap)) (λ b p. ground arith)
          c.group_boxes h.placed,
      h.apart,
      omega arith,
      omega (arith, h.right),
    )
