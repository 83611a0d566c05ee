-- ===== src/Text/Regex.antt =====
-- Regular expressions anchored at both ends, as `^…$` tests a string: by derivatives, and the
-- language that an expression stands for.
use wolkvorm.Base.{
  ℕ, [], ◌∷◌, ◌++◌, Bool, true, false, ◌&&◌, ◌||◌, if◌then◌else◌, Text, ◌≡◌, refl, ap, sym, ◌∙◌,
  ◌↔◌, ◌⊎◌, inl, inr, Bool-cases, arith, subst, leb, eqb,
}

pub data Regex : Type 0 where
  nothing empty : Regex
  unit : (ℕ → Bool) → Regex
  seq alt : Regex → Regex → Regex
  star : Regex → Regex

nullable : Regex → Bool
nullable nothing = false
nullable empty = true
nullable (unit p) = false
nullable (seq r q) = nullable r && nullable q
nullable (alt r q) = nullable r || nullable q
nullable (star r) = true

derive : ℕ → Regex → Regex
unfolding nullable
derive c nothing = nothing
derive c empty = nothing
derive c (unit p) = if p c then empty else nothing
derive c (seq r q) =
    let first = seq (derive c r) q in if nullable r then alt first (derive c q) else first
derive c (alt r q) = alt (derive c r) (derive c q)
derive c (star r) = seq (derive c r) (star r)

-- `/^r$/.test(s)`
unfoldable pub test : Regex → Text → Bool
unfolding nullable derive
test r [] = nullable r
test r (c ∷ s) = test (derive c r) s

-- A text in pieces that are not empty.
pub data Pieces (P : Text → Type 0) : Text → Type 0 where
  done : {t : Text} → t ≡ [] → Pieces P t
  more : {t : Text} (c : ℕ) (u v : Text) → t ≡ c ∷ (u ++ v) → P (c ∷ u) → Pieces P v → Pieces P t

-- The language of an expression.
abbrev pub Matches : Regex → Text → Type 0
Matches nothing t = ⊥
Matches empty t = t ≡ []
Matches (unit p) t = (c : ℕ) × (t ≡ c ∷ []) × (p c ≡ true)
Matches (seq r q) t = (u : Text) × (v : Text) × (t ≡ u ++ v) × Matches r u × Matches q v
Matches (alt r q) t = Matches r t ⊎ Matches q t
Matches (star r) t = Pieces (Matches r) t

nullable_sound : (r : Regex) → nullable r ≡ true → Matches r []
unfolding nullable
nullable_sound nothing h = cc
nullable_sound empty h = refl
nullable_sound (unit p) h = cc
nullable_sound (seq r q) h =
    ([], [], refl, nullable_sound r (ground arith), nullable_sound q (ground arith))
nullable_sound (alt r q) h = elim (Bool-cases (nullable r)) [
  | inl e ↦ inl (nullable_sound r e)
  | inr e ↦ inr (nullable_sound q (ground arith))
]
nullable_sound (star r) h = done refl

append-eq-nil : (u v : Text) → [] ≡ u ++ v → (u ≡ []) × (v ≡ [])
append-eq-nil [] v e = (refl, sym e)
append-eq-nil (c ∷ u) v e = cc

nullable_complete : (r : Regex) (t : Text) → t ≡ [] → Matches r t → nullable r ≡ true
unfolding nullable
nullable_complete nothing t e m = absurd m
nullable_complete empty t e m = refl
nullable_complete (unit p) t e (c, f, _) = cc
nullable_complete (seq r q) t e (u, v, f, m, k) =
    let (a, b) = append-eq-nil u v (sym e ∙ f) in
    rw (nullable_complete r u a m) (nullable_complete q v b k)
nullable_complete (alt r q) t e (inl m) = rw (nullable_complete r t e m)
nullable_complete (alt r q) t e (inr m) = ground (arith, nullable_complete q t e m)
nullable_complete (star r) t e m = refl

derive_sound : (c : ℕ) (r : Regex) (t : Text) → Matches (derive c r) t → Matches r (c ∷ t)
unfolding derive
derive_sound c nothing t m = absurd m
derive_sound c empty t m = absurd m
derive_sound c (unit p) t m = elim (Bool-cases (p c)) [
  | inl e ↦ (c, ap (λ x. c ∷ x) (rw e at m), e)
  | inr e ↦ absurd (rw e at m)
]
derive_sound c (seq r q) t m = elim (Bool-cases (nullable r)) [
  | inr e ↦
      let (u, v, f, a, b) = first (rw e at m) in
      (c ∷ u, v, ap (λ x. c ∷ x) f, derive_sound c r u a, b)
  | inl e ↦ elim (both e (rw e at m)) [
    | inl (u, v, f, a, b) ↦ (c ∷ u, v, ap (λ x. c ∷ x) f, derive_sound c r u a, b)
    | inr k ↦ ([], c ∷ t, refl, nullable_sound r e, derive_sound c q t k)
  ]
]
  where
    first : Matches (seq (derive c r) q) t → Matches (seq (derive c r) q) t
    first k = k

    both :
        nullable r ≡ true
        → Matches (alt (seq (derive c r) q) (derive c q)) t
        → Matches (seq (derive c r) q) t ⊎ Matches (derive c q) t
    both e k = k
derive_sound c (alt r q) t (inl m) = inl (derive_sound c r t m)
derive_sound c (alt r q) t (inr m) = inr (derive_sound c q t m)
derive_sound c (star r) t (u, v, f, m, k) = more c u v (ap (λ x. c ∷ x) f) (derive_sound c r u m) k

cons_cases :
    (c : ℕ) (t u v : Text)
    → c ∷ t ≡ u ++ v
    → ((u ≡ []) × (v ≡ c ∷ t)) ⊎ ((w : Text) × (u ≡ c ∷ w) × (t ≡ w ++ v))
cons_cases c t [] v e = inl (refl, sym e)
cons_cases c t (d ∷ u) v e = inr (u, cc, cc)

derive_complete : (c : ℕ) (r : Regex) (t : Text) → Matches r (c ∷ t) → Matches (derive c r) t
unfolding derive
derive_complete c nothing t m = absurd m
derive_complete c empty t m = cc
derive_complete c (unit p) t (d, e, h) =
    let same : c ≡ d = cc in let last : t ≡ [] = cc in rw (ap p same ∙ h) last
derive_complete c (seq r q) t (u, v, e, m, k) = elim (cons_cases c t u v e) [
  | inl (a, b) ↦
      rw (nullable_complete r u a m) (inr (derive_complete c q t (subst (Matches q) b k)))
  | inr (w, a, b) ↦
      let rest = derive_complete c r w (subst (Matches r) a m) in
      elim (Bool-cases (nullable r)) [
        | inl n ↦ rw n (inl (w, v, b, rest, k))
        | inr n ↦ rw n (w, v, b, rest, k)
      ]
]
derive_complete c (alt r q) t (inl m) = inl (derive_complete c r t m)
derive_complete c (alt r q) t (inr m) = inr (derive_complete c q t m)
derive_complete c (star r) t (done e) = cc
derive_complete c (star r) t (more d u v e m k) =
    let same : c ≡ d = cc in
    let rest : t ≡ u ++ v = cc in (u, v, rest, derive_complete c r u (rw same m), k)

-- `test` accepts exactly the texts of the expression's language.
pub test_iff : (r : Regex) (t : Text) → (test r t ≡ true) ↔ Matches r t
unfolding test
test_iff r [] = (nullable_sound r, nullable_complete r [] refl)
test_iff r (c ∷ t) =
    let (sound, complete) = test_iff (derive c r) t in
    (λ h. derive_sound c r t (sound h), λ m. complete (derive_complete c r t m))

-- The expressions that the patterns of the frontend are written with.
unfoldable pub is_digit : ℕ → Bool
is_digit c = leb b'0' c && leb c b'9'

-- `[a-f0-9]`
pub is_hex : ℕ → Bool
unfolding is_digit
is_hex c = leb b'a' c && leb c b'f' || is_digit c

-- `[a-zA-Z]`
pub is_alpha : ℕ → Bool
is_alpha c = leb b'a' c && leb c b'z' || leb b'A' c && leb c b'Z'

-- A literal text.
abbrev pub lit : Text → Regex
lit [] = empty
lit (c ∷ s) = seq (unit (eqb c)) (lit s)

-- `r+`
abbrev pub plus : Regex → Regex
plus r = seq r (star r)

-- `r?`
abbrev pub opt : Regex → Regex
opt r = alt empty r

-- `\d{1,3}` and `\d{1,2}`
abbrev pub digits_1_3 : Regex
digits_1_3 = seq (unit is_digit) (seq (opt (unit is_digit)) (opt (unit is_digit)))

abbrev pub digits_1_2 : Regex
digits_1_2 = seq (unit is_digit) (opt (unit is_digit))
