-- ===== src/PlanWindow.antt =====
-- frontend/src/components/PlanModal.js: the window with the output of a terraform operation, its
-- colored lines, the summary of the plan and the banner at the end. Icons and styles are left out;
-- a color is the text that the code writes. A number in the output is a natural number, exact for
-- JavaScript up to 2 ^ 53.
pub mod Lines
pub mod Completion
pub mod Finished
pub mod Summary
mod Tests
use Prim.Native.String.{String}
use wolkvorm.Base.{
  ℕ, zero, suc, ◌+◌, List, [], ◌∷◌, ◌++◌, Option, none, some, Bool, true, false, not, ◌&&◌, ◌||◌,
  if◌then◌else◌, eqb, leb, ltb, map, Text, codes,
}
use wolkvorm.Text.{is_space, trim_start, starts_with, includes, split}
use wolkvorm.Text.Number.{show_number, parse_int}
use wolkvorm.Text.Pattern.{Item, word, spaces, digits, match_first, strip, run}

pub record LineStyle : Type 0 where
  pub color : String
  pub prefix : Option String
  pub bold : Bool

abbrev marked_line : String → String → LineStyle
marked_line color prefix = record { color = color; prefix = some prefix; bold = false }

abbrev plain_line : String → Bool → LineStyle
plain_line color bold = record { color = color; prefix = none; bold = bold }

abbrev sign_and_space : ℕ → Text → Bool
sign_and_space sign [] = false
sign_and_space sign (c ∷ []) = false
sign_and_space sign (c ∷ d ∷ s) = eqb c sign && is_space d

-- `/^\s*sign\s/`
has_sign : ℕ → Text → Bool
has_sign sign line = sign_and_space sign (trim_start line)

fold : ℕ → ℕ
fold c = if leb b'A' c && leb c b'Z' then c + 32 else c

-- What the flag `i` does to a text that is matched with ASCII letters.
fold_all : Text → Text
unfolding fold
fold_all s = map fold s

abbrev is_some : Option (List Text) → Bool
is_some none = false
is_some (some gs) = true

-- `/Plan:\s+\d+\s+to add/`
abbrev add_pattern : List Item
add_pattern = word (codes "Plan:") ∷ spaces ∷ digits ∷ spaces ∷ word (codes "to add") ∷ []

unfoldable pub parse_terraform_line : Text → Option LineStyle
unfolding has_sign fold_all
parse_terraform_line line =
    if has_sign b'+' line || includes line (codes "will be created")
    then some (marked_line "#22c55e" "+")
    else if has_sign b'-' line || includes line (codes "will be destroyed")
    then some (marked_line "#ef4444" "-")
    else if has_sign b'~' line
        || includes line (codes "will be updated")
        || includes line (codes "must be replaced")
    then some (marked_line "#f59e0b" "~")
    else if is_some (match_first add_pattern line)
    then some (plain_line "#6366f1" true)
    else if includes line (codes "No changes")
        || includes line (codes "Infrastructure is up-to-date")
    then some (plain_line "#22c55e" true)
    else if starts_with (fold_all (trim_start line)) (codes "error")
        || includes line (codes "error")
    then some (plain_line "#ef4444" false)
    else none

-- A piece of the output: its style, if it has one, and its text.
abbrev pub Piece : Type 0
Piece = Option LineStyle × Text

abbrev pub line_piece : Text → Piece
line_piece line = (parse_terraform_line line, line ++ b'\n' ∷ [])

-- `colorizedLogs`; `none` is null, for which the window shows "Waiting for output...".
unfoldable pub colorized_logs : Text → Option (List Piece)
colorized_logs [] = none
colorized_logs (c ∷ logs) = some (map line_piece (split b'\n' (c ∷ logs)))

pub record PlanSummary : Type 0 where
  pub to_add : ℕ
  pub to_change : ℕ
  pub to_destroy : ℕ
  pub no_changes : Bool

-- `/Plan:\s+(\d+)\s+to add,\s+(\d+)\s+to change,\s+(\d+)\s+to destroy/`
abbrev pub plan_pattern : List Item
plan_pattern =
    word (codes "Plan:")
    ∷ spaces
    ∷ digits
    ∷ spaces
    ∷ word (codes "to add,")
    ∷ spaces
    ∷ digits
    ∷ spaces
    ∷ word (codes "to change,")
    ∷ spaces
    ∷ digits
    ∷ spaces
    ∷ word (codes "to destroy")
    ∷ []

-- `parseInt` of a group of digits, which is never NaN.
abbrev number : Option ℕ → ℕ
number none = 0
number (some n) = n

unfoldable pub summary_of : Option (List Text) → Option PlanSummary → Option PlanSummary
summary_of (some (a ∷ b ∷ c ∷ [])) other = some (record {
  to_add = number (parse_int a);
  to_change = number (parse_int b);
  to_destroy = number (parse_int c);
  no_changes = false;
})
summary_of groups other = other

abbrev unchanged : PlanSummary
unchanged = record { to_add = 0; to_change = 0; to_destroy = 0; no_changes = true }

-- `planSummary`
unfoldable pub plan_summary : Text → Option PlanSummary
unfolding summary_of
plan_summary [] = none
plan_summary (c ∷ s) =
    summary_of (match_first plan_pattern (c ∷ s))
      (if includes (c ∷ s) (codes "No changes") then some unchanged else none)

-- The badges of a summary in the head of the window.
unfoldable pub badges : Option PlanSummary → List Text
badges none = []
badges (some s) =
    if s.no_changes
    then codes "No changes" ∷ []
    else (if ltb 0 s.to_add then (codes "+" ++ show_number s.to_add ++ codes " add") ∷ [] else [])
      ++ ((if ltb 0 s.to_change
            then (codes "~" ++ show_number s.to_change ++ codes " change") ∷ []
            else [])
          ++ (if ltb 0 s.to_destroy
              then (codes "-" ++ show_number s.to_destroy ++ codes " destroy") ∷ []
              else []))
