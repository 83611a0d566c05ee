-- ===== src/Setup/Stronger.antt =====
-- Typing more never makes a password weaker.
use wolkvorm.Base.{
  ℕ, ◌≤◌, [], ◌∷◌, ◌++◌, Bool, true, false, any, leb, length, length-append, Text, ◌≡◌, arith,
}
use wolkvorm.Text.Regex.{is_digit}
use wolkvorm.Setup.{
  Strength, empty, weak, fair, good, strong, very_strong, get_password_strength, strength_of, score,
  point, is_upper, is_special,
}

point-le : (a b : Bool) → (a ≡ true → b ≡ true) → point a ≤ point b
point-le true b h = ground arith
point-le false b h = omega arith

any-append : (p : ℕ → Bool) (s t : Text) → any p s ≡ true → any p (s ++ t) ≡ true
any-append p [] t h = cc
any-append p (c ∷ s) t h = ground (arith, any-append p s t)

score-append : (s t : Text) → score s ≤ score (s ++ t)
unfolding score
score-append s t =
    let longer = length-append s t in
    let six = point-le (leb 6 (length s)) (leb 6 (length (s ++ t))) (λ h. ground (arith, longer)) in
    let ten =
      point-le (leb 10 (length s)) (leb 10 (length (s ++ t))) (λ h. ground (arith, longer)) in
    let upper = point-le (any is_upper s) (any is_upper (s ++ t)) (any-append is_upper s t) in
    let digit = point-le (any is_digit s) (any is_digit (s ++ t)) (any-append is_digit s t) in
    let special =
      point-le (any is_special s) (any is_special (s ++ t)) (any-append is_special s t) in
    omega (arith, six, ten, upper, digit, special)

abbrev pub rank : Strength → ℕ
rank empty = 0
rank weak = 1
rank fair = 2
rank good = 3
rank strong = 4
rank very_strong = 5

strength_of-le : (m n : ℕ) → m ≤ n → rank (strength_of m) ≤ rank (strength_of n)
unfolding strength_of
strength_of-le m n h = ground arith

-- Adding characters at the end of a password never lowers the strength that is shown for it.
pub get_password_strength-append :
    (s t : Text) → rank (get_password_strength s) ≤ rank (get_password_strength (s ++ t))
unfolding get_password_strength
get_password_strength-append [] t = omega arith
get_password_strength-append (c ∷ s) t =
    strength_of-le (score (c ∷ s)) (score ((c ∷ s) ++ t)) (score-append (c ∷ s) t)
