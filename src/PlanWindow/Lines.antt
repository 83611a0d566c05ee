-- ===== src/PlanWindow/Lines.antt =====
-- The colored lines show the output as it is.
use wolkvorm.Base.{ℕ, List, [], ◌∷◌, ◌++◌, some, map, All, Text, ◌≡◌, refl, ap, ◌∙◌}
use wolkvorm.Text.{split}
use wolkvorm.Text.Split.{IsWhole, ended, ended-split, split-IsWhole}
use wolkvorm.PlanWindow.{Piece, line_piece, parse_terraform_line, colorized_logs}

-- The text of the pieces, one after the other.
abbrev pub shown_text : List Piece → Text
shown_text [] = []
shown_text ((style, t) ∷ ps) = t ++ shown_text ps

-- A line with its own style, and the end of the line.
abbrev pub IsLine : Piece → Type 0
IsLine (style, t) =
    (line : Text) × IsWhole b'\n' line
    × (t ≡ line ++ b'\n' ∷ [])
    × (style ≡ parse_terraform_line line)

shown_text-map : (ls : List Text) → shown_text (map line_piece ls) ≡ ended b'\n' ls
shown_text-map [] = refl
shown_text-map (l ∷ ls) = ap (λ t. (l ++ b'\n' ∷ []) ++ t) (shown_text-map ls)

map-IsLine : (ls : List Text) → All (IsWhole b'\n') ls → All IsLine (map line_piece ls)
map-IsLine [] h = tt
map-IsLine (l ∷ ls) (w, h) = ((l, w, refl, refl), map-IsLine ls h)

-- The window shows the output that it has, with an end of line after it and nothing lost, repeated or
-- moved; each of its pieces is one line, colored as `parseTerraformLine` says for that line alone.
pub colorized_logs-IsLine :
    (c : ℕ) (s : Text)
    → (ps : List Piece) × (colorized_logs (c ∷ s) ≡ some ps)
      × (shown_text ps ≡ (c ∷ s) ++ b'\n' ∷ [])
      × All IsLine ps
unfolding colorized_logs
colorized_logs-IsLine c s =
    let ls = split b'\n' (c ∷ s) in
    (
      map line_piece ls,
      refl,
      shown_text-map ls ∙ ended-split b'\n' (c ∷ s),
      map-IsLine ls (split-IsWhole b'\n' (c ∷ s)),
    )
