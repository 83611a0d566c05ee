-- ===== src/Rules/Sources.antt =====
-- What leaving the source input makes of its text.
use mathlib.Core.List.{reverse, reverse-cons}
use wolkvorm.Base.{
  ℕ, [], ◌∷◌, ◌++◌, Bool, true, false, not, ◌&&◌, ◌||◌, ◌==◌, text_eq, Bool-cases, eqb, eqb_iff,
  Text, codes, any, ◌≡◌, ◌⊎◌, refl, ap, ◌∙◌, inl, inr, arith,
}
use wolkvorm.Text.{includes, starts_with, trim, trim_start, is_space, is_nonempty}
use wolkvorm.Rules.{Rule, edit, leave_cidr}

abbrev holds : ℕ → Text → Bool
holds d s = any (λ c. eqb c d) s

includes_one : (d : ℕ) (s : Text) → includes s (d ∷ []) ≡ holds d s
unfolding includes starts_with
includes_one d [] = refl
includes_one d (c ∷ s) = ground (arith, includes_one d s)

holds-append : (d : ℕ) (s t : Text) → holds d (s ++ t) ≡ (holds d s || holds d t)
holds-append d [] t = ground arith
holds-append d (c ∷ s) t = ground (arith, holds-append d s t)

holds-reverse : (d : ℕ) (s : Text) → holds d (reverse s) ≡ holds d s
holds-reverse d [] = refl
holds-reverse d (c ∷ s) =
    ap (holds d) (reverse-cons c s)
    ∙ holds-append d (reverse s) (c ∷ [])
    ∙ ground (arith, holds-reverse d s)

holds-trim_start : (d : ℕ) (s : Text) → is_space d ≡ false → holds d (trim_start s) ≡ holds d s
unfolding trim_start
holds-trim_start d [] h = refl
holds-trim_start d (c ∷ s) h = elim (Bool-cases (is_space c)) [
  | inr word ↦ rw word refl
  | inl space ↦
      let other : eqb c d ≡ false = elim (Bool-cases (eqb c d)) [
        | inr differ ↦ differ
        | inl same ↦ let eq = (eqb_iff c d).0 same in cc (ap is_space eq)
      ] in
      rw (space, other) (holds-trim_start d s h)
]

holds-trim : (d : ℕ) (s : Text) → is_space d ≡ false → holds d (trim s) ≡ holds d s
unfolding trim
holds-trim d s h =
    holds-reverse d (trim_start (reverse (trim_start s)))
    ∙ holds-trim_start d (reverse (trim_start s)) h
    ∙ holds-reverse d (trim_start s)
    ∙ holds-trim_start d s h

slash : (s : Text) → includes (trim s) (codes "/") ≡ holds b'/' s
unfolding is_space
slash s = includes_one b'/' (trim s) ∙ holds-trim b'/' s refl

leave_kept : (r : Rule) → holds b'/' r.cidr ≡ true → leave_cidr r ≡ r
unfolding leave_cidr
leave_kept r h =
    let found = slash r.cidr ∙ h in
    let kept : (is_nonempty (trim r.cidr) && not (includes (trim r.cidr) (codes "/"))) ≡ false =
      ground (arith, found) in
    rw kept refl

-- Either nothing changes, or the new text holds a slash.
leave_cidr-cases : (r : Rule) → (leave_cidr r ≡ r) ⊎ (holds b'/' (leave_cidr r).cidr ≡ true)
unfolding leave_cidr edit
leave_cidr-cases r =
    elim (Bool-cases (is_nonempty (trim r.cidr) && not (includes (trim r.cidr) (codes "/")))) [
      | inr kept ↦ rw kept (inl refl)
      | inl fixed ↦ elim (Bool-cases (trim r.cidr == codes "0.0.0.0")) [
        | inl zero ↦ rw (fixed, zero) (inr refl)
        | inr host ↦
            rw (fixed, host) (inr (holds-append b'/' (trim r.cidr) (codes "/32") ∙ ground arith))
      ]
    ]

-- Leaving the source input twice in a row changes no more than leaving it once.
pub leave_cidr_again : (r : Rule) → leave_cidr (leave_cidr r) ≡ leave_cidr r
leave_cidr_again r = elim (leave_cidr-cases r) [
  | inl kept ↦ ap leave_cidr kept
  | inr fixed ↦ leave_kept (leave_cidr r) fixed
]
