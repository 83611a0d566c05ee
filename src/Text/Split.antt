-- ===== src/Text/Split.antt =====
-- Splitting a joined text gives the parts back.
use wolkvorm.Base.{
  ℕ, List, [], ◌∷◌, ◌++◌, Bool-cases, eqb, eqb_iff, Text, All, All-append, ◌≡◌, ◌≢◌, ap, sym, ◌∙◌,
  inl, inr, arith,
}
use mathlib.Core.List.{append_assoc, append-nil}
use wolkvorm.Text.{split, split_from, join}

-- The text does not hold the separator.
abbrev pub IsWhole : ℕ → Text → Type 0
IsWhole sep p = All (λ c. c ≢ sep) p

split_from-last : (sep : ℕ) (cur p : Text) → IsWhole sep p → split_from sep cur p ≡ (cur ++ p) ∷ []
unfolding split_from
split_from-last sep cur [] h = ap (λ q. q ∷ []) (ground (arith, append-nil cur))
split_from-last sep cur (c ∷ p) h =
    ground (arith, h.0, split_from-last sep (cur ++ c ∷ []) p h.1, append_assoc cur (c ∷ []) p)

split_from-part :
    (sep : ℕ) (cur p s : Text)
    → IsWhole sep p
    → split_from sep cur (p ++ (sep ∷ s)) ≡ (cur ++ p) ∷ split_from sep [] s
unfolding split_from
split_from-part sep cur [] s h = ground (arith, append-nil cur)
split_from-part sep cur (c ∷ p) s h =
    ground (arith, h.0, split_from-part sep (cur ++ c ∷ []) p s h.1, append_assoc cur (c ∷ []) p)

pub split-join :
    (sep : ℕ) (p : Text) (ps : List Text)
    → All (IsWhole sep) (p ∷ ps)
    → split sep (join sep (p ∷ ps)) ≡ p ∷ ps
unfolding split join
split-join sep p [] h = split_from-last sep [] p h.0
split-join sep p (q ∷ ps) h =
    split_from-part sep [] p (join sep (q ∷ ps)) h.0 ∙ ap (λ r. p ∷ r) (split-join sep q ps h.1)

-- The parts, each with the separator after it.
abbrev pub ended : ℕ → List Text → Text
ended sep [] = []
ended sep (p ∷ ps) = (p ++ sep ∷ []) ++ ended sep ps

ended-split_from :
    (sep : ℕ) (cur s : Text) → ended sep (split_from sep cur s) ≡ cur ++ (s ++ sep ∷ [])
unfolding split_from
ended-split_from sep cur [] = append-nil (cur ++ sep ∷ [])
ended-split_from sep cur (c ∷ s) = elim (Bool-cases (eqb c sep)) [
  | inl same ↦ rw same (
      ap (λ t. (cur ++ sep ∷ []) ++ t) (ended-split_from sep [] s)
      ∙ append_assoc cur (sep ∷ []) (s ++ sep ∷ [])
      ∙ ap (λ d. cur ++ d ∷ (s ++ sep ∷ [])) (sym ((eqb_iff c sep).0 same)))
  | inr other ↦
      rw other (ended-split_from sep (cur ++ c ∷ []) s ∙ append_assoc cur (c ∷ []) (s ++ sep ∷ []))
]

-- Splitting loses nothing.
pub ended-split : (sep : ℕ) (s : Text) → ended sep (split sep s) ≡ s ++ sep ∷ []
unfolding split
ended-split sep s = ended-split_from sep [] s

split_from-IsWhole :
    (sep : ℕ) (cur s : Text) → IsWhole sep cur → All (IsWhole sep) (split_from sep cur s)
unfolding split_from
split_from-IsWhole sep cur [] h = (h, tt)
split_from-IsWhole sep cur (c ∷ s) h = elim (Bool-cases (eqb c sep)) [
  | inl same ↦ rw same (h, split_from-IsWhole sep [] s tt)
  | inr other ↦
      let differs : c ≢ sep = ground (arith, other, eqb_iff c sep) in
      rw other (
        split_from-IsWhole sep (cur ++ c ∷ []) s
          (All-append (λ d. d ≢ sep) cur (c ∷ []) h (differs, tt)))
]

-- No part holds the separator.
pub split-IsWhole : (sep : ℕ) (s : Text) → All (IsWhole sep) (split sep s)
unfolding split
split-IsWhole sep s = split_from-IsWhole sep [] s tt
