-- ===== src/Base/Equality.antt =====
-- JavaScript's `===` on strings and numbers, as an interface. `Text` is a string by its UTF-16 code
-- units, for the code that walks strings; `String` serves where whole strings are compared.
use Prim.Native.Nat.{ℕ}
use Prim.Native.Char.{code}
use Prim.Native.String.{String}
use mathlib.Core.Path.{◌≡◌, refl}
use mathlib.Core.Logic.{◌↔◌}
use mathlib.Core.Bool.{Bool, true, false, ◌&&◌}
use mathlib.Core.List.{List, [], ◌∷◌}
use native.Mathlib.Omega.{arith}
use text.Mathlib.Text.{◌==◌ as str_eq}
use text.Mathlib.TextEquality.{eq_iff}
use wolkvorm.Base.Tests.{eqb, eqb_iff}

pub record Eq {κ} (K : Type κ) : Type κ where
  pub same : K → K → Bool
  pub same_iff : (j k : K) → (same j k ≡ true) ↔ (j ≡ k)

module _ {κ} {K : Type κ} ⦃keys : Eq K⦄ where
  infix 50 ◌==◌
  abbrev pub ◌==◌ : K → K → Bool
  j == k = keys.same j k

  pub ==-iff : (j k : K) → ((j == k) ≡ true) ↔ (j ≡ k)
  ==-iff = keys.same_iff

  pub ==-refl : (k : K) → (k == k) ≡ true
  ==-refl k = (==-iff k k).1 refl

instance abbrev pub string_eq : Eq String
string_eq = record { same = str_eq; same_iff = eq_iff }

instance abbrev pub nat_eq : Eq ℕ
nat_eq = record { same = eqb; same_iff = eqb_iff }

abbrev pub Text : Type 0
Text = List ℕ

abbrev pub codes : String → Text
codes String.[] = []
codes (String.◌∷◌ c s) = code c ∷ codes s

abbrev pub same_text : Text → Text → Bool
same_text [] [] = true
same_text [] (b ∷ bs) = false
same_text (a ∷ as') [] = false
same_text (a ∷ as') (b ∷ bs) = eqb a b && same_text as' bs

pub same_text_iff : (s t : Text) → (same_text s t ≡ true) ↔ (s ≡ t)
same_text_iff [] [] = (λ _. refl, λ _. refl)
same_text_iff [] (b ∷ bs) = ground arith
same_text_iff (a ∷ s) [] = ground arith
same_text_iff (a ∷ s) (b ∷ t) = ground (arith, same_text_iff s t)

instance abbrev pub text_eq : Eq Text
text_eq = record { same = same_text; same_iff = same_text_iff }
