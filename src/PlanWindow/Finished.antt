-- ===== src/PlanWindow/Finished.antt =====
-- The numbers that terraform reports at the end come back in the banner.
use wolkvorm.Base.{
  ℕ, List, [], ◌∷◌, ◌++◌, Option, none, some, Bool, false, if◌then◌else◌, ap, Text, codes, ◌≡◌,
  refl, ◌∙◌,
}
use wolkvorm.Text.{includes}
use wolkvorm.Text.Regex.{is_digit}
use wolkvorm.Text.Number.{show_number}
use wolkvorm.Text.Pattern.{
  Item, word, digits, match_here, match_first, match_first-skip, match_first-here, match_here-word,
  match_here-number,
}
use wolkvorm.PlanWindow.Completion.{
  Completion, success, apply_pattern, destroy_pattern, apply_done, destroy_done, other_status,
  status_of, completion_status,
}

-- The line that terraform ends an apply with, and what follows it.
abbrev pub destroyed_part : ℕ → Text → Text
destroyed_part c after = show_number c ++ (codes " destroyed" ++ after)

abbrev pub changed_part : ℕ → ℕ → Text → Text
changed_part b c after = show_number b ++ (codes " changed, " ++ destroyed_part c after)

abbrev pub added_part : ℕ → ℕ → ℕ → Text → Text
added_part a b c after = show_number a ++ (codes " added, " ++ changed_part b c after)

abbrev pub apply_line : ℕ → ℕ → ℕ → Text → Text
apply_line a b c after = codes "Apply complete! Resources: " ++ added_part a b c after

abbrev destroyed_items : List Item
destroyed_items = digits ∷ word (codes " destroyed") ∷ []

abbrev changed_items : List Item
changed_items = digits ∷ word (codes " changed, ") ∷ destroyed_items

abbrev added_items : List Item
added_items = digits ∷ word (codes " added, ") ∷ changed_items

match_here-apply_line :
    (a b c : ℕ) (after : Text)
    → match_here apply_pattern (apply_line a b c after)
      ≡ some (show_number a ∷ show_number b ∷ show_number c ∷ [])
unfolding is_digit match_here
match_here-apply_line a b c after =
    let third = match_here-number c (codes " destroyed") after [] [] refl refl in
    let second =
      match_here-number b (codes " changed, ") (destroyed_part c after) destroyed_items _ refl
        third in
    let first =
      match_here-number a (codes " added, ") (changed_part b c after) changed_items _ refl second in
    match_here-word (codes "Apply complete! Resources: ") (added_part a b c after) added_items
    ∙ first

match_first-apply_line :
    (before : Text) (a b c : ℕ) (after : Text)
    → includes before (codes "Apply complete! Resources: ") ≡ false
    → match_first apply_pattern (before ++ apply_line a b c after)
      ≡ some (show_number a ∷ show_number b ∷ show_number c ∷ [])
match_first-apply_line before a b c after h =
    match_first-skip b'A' (codes "pply complete! Resources: ") added_items before
      (codes "pply complete! Resources: " ++ added_part a b c after) refl h
    ∙ match_first-here apply_pattern (apply_line a b c after) _ (match_here-apply_line a b c after)

abbrev pub applied : Text → Text → Text → Completion
applied a b c = record {
  kind = success;
  title = codes "Apply Completed Successfully";
  detail = a ++ codes " added, " ++ b ++ codes " changed, " ++ c ++ codes " destroyed";
}

not_empty :
    (is_running : Bool) (s : Text) (c : ℕ) (t : Text)
    → completion_status is_running (s ++ c ∷ t)
      ≡ (if is_running then none else status_of (s ++ c ∷ t))
unfolding completion_status
not_empty is_running [] c t = refl
not_empty is_running (d ∷ s) c t = refl

apply_done-some :
    (a b c : Text) (other : Option Completion)
    → apply_done (some (a ∷ b ∷ c ∷ [])) other ≡ some (applied a b c)
unfolding apply_done
apply_done-some a b c other = refl

status_of-applied :
    (s a b c : Text)
    → match_first apply_pattern s ≡ some (a ∷ b ∷ c ∷ [])
    → status_of s ≡ some (applied a b c)
unfolding status_of
status_of-applied s a b c e =
    rw e (apply_done-some a b c (destroy_done (match_first destroy_pattern s) (other_status s)))

-- Whatever stands around it, a line of terraform that an apply is complete makes the banner of a
-- success with the three numbers of the line, if the operation is no longer running and no other text
-- "Apply complete! Resources: " stands before the line; while it is running there is no banner.
pub completion_status-apply_line :
    (is_running : Bool) (before : Text) (a b c : ℕ) (after : Text)
    → includes before (codes "Apply complete! Resources: ") ≡ false
    → completion_status is_running (before ++ apply_line a b c after) ≡ (
        if is_running then none else some (applied (show_number a) (show_number b) (show_number c)))
completion_status-apply_line is_running before a b c after h =
    not_empty is_running before b'A' _
    ∙ ap (λ o. if is_running then none else o)
        (status_of-applied (before ++ apply_line a b c after) _ _ _
          (match_first-apply_line before a b c after h))
