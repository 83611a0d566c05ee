-- ===== src/Text/Number.antt =====
-- Natural numbers as the frontend writes them in texts, and reads them with `parseInt`.
use wolkvorm.Base.{
  ℕ, zero, suc, ◌+◌, ◌-◌, ◌*◌, ◌/◌, ◌%◌, ◌≤◌, ◌<◌, [], ◌∷◌, Option, none, some, true, ◌&&◌, ◌||◌,
  if◌then◌else◌, Bool-cases, eqb, leb, ltb, Text, All, ◌≡◌, refl, ap, ◌∙◌, inl, inr, arith,
}
use wolkvorm.Text.{is_space, trim_start, is_nonempty}

-- `String(n)`, on fuel: a number has no more digits than its value plus one.
show_from : ℕ → ℕ → Text → Text
show_from zero n tail = tail
show_from (suc fuel) n tail =
    let more = show_from fuel (n / 10) ((b'0' + n % 10) ∷ tail) in
    if ltb n 10 then (b'0' + n) ∷ tail else more

unfoldable pub show_number : ℕ → Text
unfolding show_from
show_number n = show_from (suc n) n []

-- The digits that `parseInt` takes, in the two radices that it tells apart by itself.
unfoldable pub decimal_value : ℕ → Option ℕ
decimal_value c = if leb b'0' c && leb c b'9' then some (c - b'0') else none

unfoldable pub hex_value : ℕ → Option ℕ
unfolding decimal_value
hex_value c =
    if leb b'a' c && leb c b'f'
    then some (c - b'a' + 10)
    else if leb b'A' c && leb c b'F'
    then some (c - b'A' + 10)
    else decimal_value c

abbrev or_zero : Option ℕ → ℕ
or_zero none = 0
or_zero (some n) = n

unfoldable pub numerals : (ℕ → Option ℕ) → ℕ → Option ℕ → Text → Option ℕ
numerals value radix acc [] = acc
numerals value radix acc (c ∷ s) = elim (value c) [
  | none ↦ acc
  | some d ↦ numerals value radix (some (or_zero acc * radix + d)) s
]

-- After the sign: `0x` starts a hexadecimal number.
unfoldable pub magnitude : Text → Option ℕ
unfolding numerals hex_value
magnitude [] = none
magnitude (c ∷ []) = numerals decimal_value 10 none (c ∷ [])
magnitude (c ∷ d ∷ s) =
    if eqb c b'0' && (eqb d b'x' || eqb d b'X')
    then numerals hex_value 16 none s
    else numerals decimal_value 10 none (c ∷ d ∷ s)

skip_plus : Text → Text
skip_plus [] = []
skip_plus (c ∷ s) = if eqb c b'+' then s else c ∷ s

-- `parseInt(s)` of a text without a minus sign; `none` is NaN.
unfoldable pub parse_int : Text → Option ℕ
unfolding trim_start skip_plus magnitude
parse_int s = magnitude (skip_plus (trim_start s))

abbrev pub IsDigit : ℕ → Type 0
IsDigit c = (b'0' ≤ c) × (c ≤ b'9')

show_from-IsDigit :
    (fuel n : ℕ) (tail : Text) → All IsDigit tail → All IsDigit (show_from fuel n tail)
unfolding show_from
show_from-IsDigit zero n tail h = h
show_from-IsDigit (suc fuel) n tail h = elim (Bool-cases (ltb n 10)) [
  | inl small ↦ rw small (ground arith, h)
  | inr large ↦ rw large (show_from-IsDigit fuel (n / 10) ((b'0' + n % 10) ∷ tail) (omega arith, h))
]

pub show_number-IsDigit : (n : ℕ) → All IsDigit (show_number n)
unfolding show_number
show_number-IsDigit n = show_from-IsDigit (suc n) n [] tt

decimal_value-digit : (d : ℕ) → d < 10 → decimal_value (b'0' + d) ≡ some d
unfolding decimal_value
decimal_value-digit d h = ground arith

numerals-digit :
    (acc : Option ℕ) (d : ℕ) (s : Text)
    → d < 10
    → numerals decimal_value 10 acc ((b'0' + d) ∷ s)
      ≡ numerals decimal_value 10 (some (or_zero acc * 10 + d)) s
unfolding numerals
numerals-digit acc d s h =
    ap
      (λ o. elim o [
        | none ↦ acc
        | some e ↦ numerals decimal_value 10 (some (or_zero acc * 10 + e)) s
      ])
      (decimal_value-digit d h)

numerals-show_from :
    (fuel n : ℕ) (tail : Text)
    → n < fuel
    → numerals decimal_value 10 none (show_from fuel n tail)
      ≡ numerals decimal_value 10 (some n) tail
unfolding show_from
numerals-show_from zero n tail h = absurd (omega arith)
numerals-show_from (suc fuel) n tail h = elim (Bool-cases (ltb n 10)) [
  | inl small ↦
      let value : 0 * 10 + n ≡ n = omega arith in
      rw small (
        numerals-digit none n tail (ground arith)
        ∙ ap (λ k. numerals decimal_value 10 (some k) tail) value)
  | inr large ↦
      let value : n / 10 * 10 + n % 10 ≡ n = omega arith in
      rw large (
        numerals-show_from fuel (n / 10) ((b'0' + n % 10) ∷ tail) (ground arith)
        ∙ numerals-digit (some (n / 10)) (n % 10) tail (omega arith)
        ∙ ap (λ k. numerals decimal_value 10 (some k) tail) value)
]

parse_int-digits : (s : Text) → All IsDigit s → parse_int s ≡ numerals decimal_value 10 none s
unfolding parse_int is_space
parse_int-digits [] h = refl
parse_int-digits (c ∷ []) h = ground arith
parse_int-digits (c ∷ d ∷ s) h = ground arith

-- `parseInt` reads back every number that is written in decimal.
pub parse_int-show_number : (n : ℕ) → parse_int (show_number n) ≡ some n
unfolding show_number numerals
parse_int-show_number n =
    parse_int-digits (show_number n) (show_number-IsDigit n)
    ∙ numerals-show_from (suc n) n [] (omega arith)

nonempty-parse_int : (s : Text) (n : ℕ) → parse_int s ≡ some n → is_nonempty s ≡ true
unfolding parse_int magnitude numerals
nonempty-parse_int [] n e = cc
nonempty-parse_int (c ∷ s) n e = refl

pub show_number-is_nonempty : (n : ℕ) → is_nonempty (show_number n) ≡ true
show_number-is_nonempty n = nonempty-parse_int (show_number n) n (parse_int-show_number n)
