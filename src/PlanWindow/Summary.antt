-- ===== src/PlanWindow/Summary.antt =====
-- The numbers of a plan come back in the summary and in the badges.
use wolkvorm.Base.{ℕ, List, [], ◌∷◌, ◌++◌, Option, some, true, false, Text, codes, ◌≡◌, refl, ◌∙◌}
use wolkvorm.Text.{includes, is_space}
use wolkvorm.Text.Number.{show_number, parse_int-show_number}
use wolkvorm.Text.Pattern.{
  Item, word, spaces, digits, match_here, match_first, match_first-skip, match_first-here,
  match_here-word, match_here-spaced, stops,
}
use wolkvorm.PlanWindow.{PlanSummary, plan_pattern, summary_of, plan_summary}

abbrev spaced : ℕ → Text → Text
spaced n s = b' ' ∷ (show_number n ++ b' ' ∷ s)

abbrev pub destroy_part : ℕ → Text → Text
destroy_part c after = spaced c (codes "to destroy" ++ after)

abbrev pub change_part : ℕ → ℕ → Text → Text
change_part b c after = spaced b (codes "to change," ++ destroy_part c after)

abbrev pub add_part : ℕ → ℕ → ℕ → Text → Text
add_part a b c after = spaced a (codes "to add," ++ change_part b c after)

-- The line of terraform's that counts the changes, and what follows it.
abbrev pub plan_line : ℕ → ℕ → ℕ → Text → Text
plan_line a b c after = codes "Plan:" ++ add_part a b c after

abbrev counted : Text → List Item → List Item
counted w ps = spaces ∷ digits ∷ spaces ∷ word w ∷ ps

-- A number between spaces and the words after it.
match_here-counted :
    (n : ℕ) (w s : Text) (ps : List Item) (gs : List Text)
    → stops is_space (w ++ s) ≡ true
    → match_here ps s ≡ some gs
    → match_here (counted w ps) (spaced n (w ++ s)) ≡ some (show_number n ∷ gs)
match_here-counted n w s ps gs h k =
    match_here-spaced n (w ++ s) (word w ∷ ps) gs h (match_here-word w s ps ∙ k)

match_here-plan_line :
    (a b c : ℕ) (after : Text)
    → match_here plan_pattern (plan_line a b c after)
      ≡ some (show_number a ∷ show_number b ∷ show_number c ∷ [])
unfolding is_space match_here
match_here-plan_line a b c after =
    let destroys = counted (codes "to destroy") [] in
    let changes = counted (codes "to change,") destroys in
    let third = match_here-counted c (codes "to destroy") after [] [] refl refl in
    let second =
      match_here-counted b (codes "to change,") (destroy_part c after) destroys _ refl third in
    let first =
      match_here-counted a (codes "to add,") (change_part b c after) changes _ refl second in
    match_here-word (codes "Plan:") (add_part a b c after) (counted (codes "to add,") changes)
    ∙ first

match_first-plan_line :
    (before : Text) (a b c : ℕ) (after : Text)
    → includes before (codes "Plan:") ≡ false
    → match_first plan_pattern (before ++ plan_line a b c after)
      ≡ some (show_number a ∷ show_number b ∷ show_number c ∷ [])
match_first-plan_line before a b c after h =
    match_first-skip b'P' (codes "lan:")
      (counted (codes "to add,") (counted (codes "to change,") (counted (codes "to destroy") [])))
      before (codes "lan:" ++ add_part a b c after) refl h
    ∙ match_first-here plan_pattern (plan_line a b c after) _ (match_here-plan_line a b c after)

abbrev pub planned : ℕ → ℕ → ℕ → PlanSummary
planned a b c = record { to_add = a; to_change = b; to_destroy = c; no_changes = false }

summary_of-numbers :
    (a b c : ℕ) (other : Option PlanSummary)
    → summary_of (some (show_number a ∷ show_number b ∷ show_number c ∷ [])) other
      ≡ some (planned a b c)
unfolding summary_of
summary_of-numbers a b c other =
    rw (parse_int-show_number a, parse_int-show_number b, parse_int-show_number c) refl

plan_summary-found :
    (s : Text) (c : ℕ) (t : Text) (gs : Option (List Text)) (found : Option PlanSummary)
    → match_first plan_pattern (s ++ c ∷ t) ≡ gs
    → ((other : Option PlanSummary) → summary_of gs other ≡ found)
    → plan_summary (s ++ c ∷ t) ≡ found
unfolding plan_summary
plan_summary-found [] c t gs found e k = rw e (k _)
plan_summary-found (d ∷ s) c t gs found e k = rw e (k _)

-- Whatever stands around it, the line of terraform that counts the changes of a plan is read back as
-- its three numbers, if "Plan:" does not stand before it.
pub plan_summary-plan_line :
    (before : Text) (a b c : ℕ) (after : Text)
    → includes before (codes "Plan:") ≡ false
    → plan_summary (before ++ plan_line a b c after) ≡ some (planned a b c)
plan_summary-plan_line before a b c after h =
    plan_summary-found before b'P' (codes "lan:" ++ add_part a b c after) _ (some (planned a b c))
      (match_first-plan_line before a b c after h) (summary_of-numbers a b c)
