-- ===== src/Text.antt =====
-- What the frontend uses of JavaScript's strings and regular expressions, over UTF-16 code units.
pub mod Regex
pub mod Number
pub mod Split
pub mod Items
pub mod Pattern
use Prim.Native.Nat.{compare}
use Prim.Native.String.{String}
use wolkvorm.Base.{
  ℕ, List, [], ◌∷◌, ◌++◌, Option, none, some, Bool, true, false, not, ◌&&◌, ◌||◌, ◌==◌, string_eq,
  nat_eq, text_eq, if◌then◌else◌, eqb, leb, select, Text, codes,
}
use mathlib.Core.List.{reverse}

-- WhiteSpace and LineTerminator of ECMAScript: what `trim` removes and `\s` matches.
unfoldable pub is_space : ℕ → Bool
is_space c =
    leb 9 c && leb c 13
    || eqb c 32
    || eqb c 0xa0
    || eqb c 0x1680
    || leb 0x2000 c && leb c 0x200a
    || eqb c 0x2028
    || eqb c 0x2029
    || eqb c 0x202f
    || eqb c 0x205f
    || eqb c 0x3000
    || eqb c 0xfeff

unfoldable pub trim_start : Text → Text
trim_start [] = []
trim_start (c ∷ s) = if is_space c then trim_start s else c ∷ s

-- `s.trim()`
unfoldable pub trim : Text → Text
unfolding trim_start is_space
trim s = reverse (trim_start (reverse (trim_start s)))

unfoldable pub starts_with : Text → Text → Bool
starts_with s [] = true
starts_with [] (d ∷ t) = false
starts_with (c ∷ s) (d ∷ t) = eqb c d && starts_with s t

-- `s.includes(t)`
unfoldable pub includes : Text → Text → Bool
unfolding starts_with
includes [] t = starts_with [] t
includes (c ∷ s) t = starts_with (c ∷ s) t || includes s t

split_from : ℕ → Text → Text → List Text
split_from sep cur [] = cur ∷ []
split_from sep cur (c ∷ s) =
    let next = split_from sep [] s in
    let longer = split_from sep (cur ++ c ∷ []) s in if eqb c sep then cur ∷ next else longer

-- `s.split(sep)` for a separator of one code unit.
unfoldable pub split : ℕ → Text → List Text
unfolding split_from
split sep s = split_from sep [] s

-- `parts.join(sep)`
unfoldable pub join : ℕ → List Text → Text
join sep [] = []
join sep (p ∷ []) = p
join sep (p ∷ q ∷ ps) = p ++ (sep ∷ join sep (q ∷ ps))

abbrev pub is_nonempty : Text → Bool
is_nonempty [] = false
is_nonempty (c ∷ s) = true

unfoldable pub trim_all : List Text → List Text
unfolding trim
trim_all [] = []
trim_all (p ∷ ps) = trim p ∷ trim_all ps

-- `s.split(",").map((p) => p.trim()).filter(Boolean)`
unfoldable pub comma_items : Text → List Text
unfolding split trim_all
comma_items s = select is_nonempty (trim_all (split b',' s))
