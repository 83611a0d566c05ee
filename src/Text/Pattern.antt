-- ===== src/Text/Pattern.antt =====
-- Regular expressions with groups as `s.match` runs them, for expressions in sequence. Every repetition
-- takes all it can: it stands before something that it could not have taken itself.
use wolkvorm.Base.{
  ℕ, List, [], ◌∷◌, ◌++◌, Option, none, some, Bool, true, false, not, if◌then◌else◌, Bool-cases,
  eqb, any, All, All-imp, Text, ◌≡◌, refl, ◌∙◌, ap, inl, inr, arith,
}
use wolkvorm.Text.{is_space, is_nonempty, starts_with, includes}
use wolkvorm.Text.Regex.{is_digit}
use wolkvorm.Text.Number.{IsDigit, show_number, show_number-IsDigit, show_number-is_nonempty}

-- A literal, `\s+` and `(\d+)`.
pub data Item : Type 0 where
  word : Text → Item
  spaces digits : Item

-- What is left of a text after a literal that it starts with.
unfoldable pub strip : Text → Text → Option Text
strip [] s = some s
strip (d ∷ w) [] = none
strip (d ∷ w) (c ∷ s) = if eqb c d then strip w s else none

-- The longest run of units that pass a test, and the rest.
unfoldable pub run : (ℕ → Bool) → Text → Text
run p [] = []
run p (c ∷ s) = if p c then c ∷ run p s else []

unfoldable pub after_run : (ℕ → Bool) → Text → Text
after_run p [] = []
after_run p (c ∷ s) = if p c then after_run p s else c ∷ s

abbrev pub then_match : Option Text → (Text → Option (List Text)) → Option (List Text)
then_match none k = none
then_match (some s) k = k s

-- A group holds what a run took; a run of nothing is no match.
abbrev pub group : Text → Option (List Text) → Option (List Text)
group [] m = none
group (c ∷ u) none = none
group (c ∷ u) (some gs) = some ((c ∷ u) ∷ gs)

abbrev pub some_run : Text → Option (List Text) → Option (List Text)
some_run [] m = none
some_run (c ∷ u) m = m

-- The groups of a match that starts where the text does.
unfoldable pub match_here : List Item → Text → Option (List Text)
unfolding strip run after_run
match_here [] s = some []
match_here (word w ∷ ps) s = then_match (strip w s) (match_here ps)
match_here (spaces ∷ ps) s = some_run (run is_space s) (match_here ps (after_run is_space s))
match_here (digits ∷ ps) s = group (run is_digit s) (match_here ps (after_run is_digit s))

abbrev pub or_else : Option (List Text) → Option (List Text) → Option (List Text)
or_else none o = o
or_else (some gs) o = some gs

-- `s.match(/…/)`: the groups of the first match.
unfoldable pub match_first : List Item → Text → Option (List Text)
unfolding match_here
match_first ps [] = match_here ps []
match_first ps (c ∷ s) = or_else (match_here ps (c ∷ s)) (match_first ps s)

strip-append : (w s : Text) → strip w (w ++ s) ≡ some s
unfolding strip
strip-append [] s = refl
strip-append (c ∷ w) s = ground (arith, strip-append w s)

-- A text that does not go on with a unit of the class.
abbrev pub stops : (ℕ → Bool) → Text → Bool
stops p [] = true
stops p (c ∷ s) = not (p c)

run-append :
    (p : ℕ → Bool) (u s : Text) → All (λ c. p c ≡ true) u → stops p s ≡ true → run p (u ++ s) ≡ u
unfolding run
run-append p [] [] h k = refl
run-append p [] (c ∷ s) h k = ground arith
run-append p (c ∷ u) s (e, h) k = rw e (ap (λ v. c ∷ v) (run-append p u s h k))

after_run-append :
    (p : ℕ → Bool) (u s : Text)
    → All (λ c. p c ≡ true) u
    → stops p s ≡ true
    → after_run p (u ++ s) ≡ s
unfolding after_run
after_run-append p [] [] h k = refl
after_run-append p [] (c ∷ s) h k = ground arith
after_run-append p (c ∷ u) s (e, h) k = rw e (after_run-append p u s h k)

pub match_here-word :
    (w s : Text) (ps : List Item) → match_here (word w ∷ ps) (w ++ s) ≡ match_here ps s
unfolding match_here
match_here-word w s ps = ap (λ o. then_match o (match_here ps)) (strip-append w s)

pub match_here-spaces :
    (s : Text) (ps : List Item)
    → stops is_space s ≡ true
    → match_here (spaces ∷ ps) (b' ' ∷ s) ≡ match_here ps s
unfolding match_here run after_run is_space
match_here-spaces s ps h = ap (match_here ps) (after_run-append is_space [] s tt h)

IsDigit-is_digit : (u : Text) → All IsDigit u → All (λ c. is_digit c ≡ true) u
unfolding is_digit
IsDigit-is_digit u h = All-imp IsDigit (λ c. is_digit c ≡ true) (λ c d. ground arith) u h

digit_space : (c : ℕ) → IsDigit c → is_space c ≡ false
unfolding is_space
digit_space c h = ground arith

-- A number starts with a digit, so that spaces before it stop there.
stops-digits : (u s : Text) → All IsDigit u → is_nonempty u ≡ true → stops is_space (u ++ s) ≡ true
stops-digits [] s h e = cc
stops-digits (c ∷ u) s h e = ap not (digit_space c h.0)

pub stops-show_number : (n : ℕ) (s : Text) → stops is_space (show_number n ++ s) ≡ true
stops-show_number n s =
    stops-digits (show_number n) s (show_number-IsDigit n) (show_number-is_nonempty n)

group-some : (u : Text) (gs : List Text) → is_nonempty u ≡ true → group u (some gs) ≡ some (u ∷ gs)
group-some [] gs e = cc
group-some (c ∷ u) gs e = refl

match_here-group :
    (ps : List Item) (s : Text)
    → match_here (digits ∷ ps) s ≡ group (run is_digit s) (match_here ps (after_run is_digit s))
unfolding match_here
match_here-group ps s = refl

-- A number that is written in decimal is a group.
pub match_here-digits :
    (n : ℕ) (s : Text) (ps : List Item) (gs : List Text)
    → stops is_digit s ≡ true
    → match_here ps s ≡ some gs
    → match_here (digits ∷ ps) (show_number n ++ s) ≡ some (show_number n ∷ gs)
match_here-digits n s ps gs h k =
    let u = show_number n in
    let all = IsDigit-is_digit u (show_number-IsDigit n) in
    match_here-group ps (u ++ s)
    ∙ ap (λ v. group v (match_here ps (after_run is_digit (u ++ s))))
        (run-append is_digit u s all h)
    ∙ ap (λ v. group u (match_here ps v)) (after_run-append is_digit u s all h)
    ∙ ap (group u) k
    ∙ group-some u gs (show_number-is_nonempty n)

strip-none :
    (h : ℕ) (w u s : Text)
    → any (eqb h) w ≡ false
    → starts_with u w ≡ false
    → strip w (u ++ h ∷ s) ≡ none
unfolding strip starts_with
strip-none h [] u s k e = ground (arith, e)
strip-none h (d ∷ w) [] s k e = elim (Bool-cases (eqb h d)) [
  | inl same ↦ cc (rw same at k)
  | inr other ↦ rw other refl
]
strip-none h (d ∷ w) (c ∷ u) s k e = elim (Bool-cases (eqb c d)) [
  | inl same ↦ rw same (strip-none h w u s (ground arith) (rw same at e))
  | inr other ↦ rw other refl
]

match_here-none :
    (h : ℕ) (w : Text) (ps : List Item) (c : ℕ) (u s : Text)
    → any (eqb h) w ≡ false
    → starts_with (c ∷ u) (h ∷ w) ≡ false
    → match_here (word (h ∷ w) ∷ ps) (c ∷ (u ++ h ∷ s)) ≡ none
unfolding match_here strip starts_with
match_here-none h w ps c u s k e = elim (Bool-cases (eqb c h)) [
  | inl same ↦
      rw same (ap (λ o. then_match o (match_here ps)) (strip-none h w u s k (rw same at e)))
  | inr other ↦ rw other refl
]

-- An expression that starts with a literal matches nothing before the first place where that stands,
-- if the first unit of the literal does not occur in it again.
pub match_first-skip :
    (h : ℕ) (w : Text) (ps : List Item) (before s : Text)
    → any (eqb h) w ≡ false
    → includes before (h ∷ w) ≡ false
    → match_first (word (h ∷ w) ∷ ps) (before ++ h ∷ s) ≡ match_first (word (h ∷ w) ∷ ps) (h ∷ s)
unfolding match_first includes
match_first-skip h w ps [] s k e = refl
match_first-skip h w ps (c ∷ u) s k e =
    ap (λ o. or_else o (match_first (word (h ∷ w) ∷ ps) (u ++ h ∷ s)))
      (match_here-none h w ps c u s k (ground (arith, e)))
    ∙ match_first-skip h w ps u s k (ground (arith, e))

-- A match at the start is the first match.
pub match_first-here :
    (ps : List Item) (s : Text) (gs : List Text)
    → match_here ps s ≡ some gs
    → match_first ps s ≡ some gs
unfolding match_first
match_first-here ps [] gs e = e
match_first-here ps (c ∷ s) gs e = ap (λ o. or_else o (match_first ps s)) e

-- A number, and the literal after it.
pub match_here-number :
    (n : ℕ) (w s : Text) (ps : List Item) (gs : List Text)
    → stops is_digit (w ++ s) ≡ true
    → match_here ps s ≡ some gs
    → match_here (digits ∷ word w ∷ ps) (show_number n ++ (w ++ s)) ≡ some (show_number n ∷ gs)
match_here-number n w s ps gs h k =
    match_here-digits n (w ++ s) (word w ∷ ps) gs h (match_here-word w s ps ∙ k)

-- A number between two spaces.
pub match_here-spaced :
    (n : ℕ) (s : Text) (ps : List Item) (gs : List Text)
    → stops is_space s ≡ true
    → match_here ps s ≡ some gs
    → match_here (spaces ∷ digits ∷ spaces ∷ ps) (b' ' ∷ (show_number n ++ b' ' ∷ s))
      ≡ some (show_number n ∷ gs)
unfolding is_digit
match_here-spaced n s ps gs h k =
    match_here-spaces (show_number n ++ b' ' ∷ s) (digits ∷ spaces ∷ ps)
      (stops-show_number n (b' ' ∷ s))
    ∙ match_here-digits n (b' ' ∷ s) (spaces ∷ ps) gs refl (match_here-spaces s ps h ∙ k)
