-- ===== src/Operations/Bars.antt =====
-- frontend/src/components/OperationBars.js: what the bar of an operation shows.
use wolkvorm.Base.{
  ℕ, zero, suc, ◌-◌, ◌/◌, ◌%◌, ◌≤◌, List, [], ◌∷◌, ◌++◌, ◌==◌, text_eq, if◌then◌else◌, Bool, ltb,
  length, select, Text, codes, ◌≡◌, arith,
}
use wolkvorm.Text.{split, join, is_nonempty}
use wolkvorm.Text.Number.{show_number}
use wolkvorm.Operations.{Status, running, done, error}

-- `xs.slice(n)` for `n` up to the length
abbrev drop {ℓ} : {A : Type ℓ} → ℕ → List A → List A
drop zero xs = xs
drop (suc n) [] = []
drop (suc n) (x ∷ xs) = drop n xs

-- `xs.slice(-15)`
unfoldable pub last_15 : List Text → List Text
last_15 xs = drop (length xs - 15) xs

-- `lastLines`; an empty text is shown as "Waiting for output...".
unfoldable pub last_lines : Text → Text
unfolding last_15
last_lines logs = join b'\n' (last_15 (select is_nonempty (split b'\n' logs)))

unfoldable pub shown_lines : Text → Text
unfolding last_lines
shown_lines logs =
    let lines = last_lines logs in
    if is_nonempty lines then lines else codes "Waiting for output..."

-- `accentColor`, where the warning color is the theme's.
unfoldable pub accent_color : Text → Status → Text
accent_color warning running = warning
accent_color warning error = codes "#ef4444"
accent_color warning done = codes "#22c55e"

unfoldable pub action_label : Text → Text
action_label action =
    if action == codes "plan"
    then codes "Plan"
    else if action == codes "apply"
    then codes "Apply"
    else if action == codes "destroy"
    then codes "Destroy"
    else action

-- `useElapsed`, for a clock that does not run back.
unfoldable pub use_elapsed : (now started_at : ℕ) → Text
use_elapsed now started_at =
    let diff = (now - started_at) / 1000 in
    if ltb diff 60
    then show_number diff ++ codes "s"
    else show_number (diff / 60) ++ codes "m" ++ show_number (diff % 60) ++ codes "s"

length-drop : (n : ℕ) (xs : List Text) → length (drop n xs) ≡ length xs - n
length-drop zero xs = omega arith
length-drop (suc n) [] = omega arith
length-drop (suc n) (x ∷ xs) = omega (arith, length-drop n xs)

-- A bar shows fifteen lines at most.
pub last_15-length : (xs : List Text) → length (last_15 xs) ≤ 15
unfolding last_15
last_15-length xs = omega (arith, length-drop (length xs - 15) xs)

abbrev or_elapsed : Text → Text → Text
or_elapsed duration elapsed = if is_nonempty duration then duration else elapsed

-- The second line of a bar; an operation without `duration` has an empty one.
unfoldable pub status_line : Status → (duration elapsed : Text) → Text
status_line running duration elapsed = codes "Running... " ++ elapsed
status_line error duration elapsed = codes "Failed (" ++ or_elapsed duration elapsed ++ codes ")"
status_line done duration elapsed = codes "Completed (" ++ or_elapsed duration elapsed ++ codes ")"

-- The width of a bar.
pub bar_width : (expanded : Bool) → ℕ
bar_width expanded = if expanded then 520 else 360
