-- ===== src/Text/Items.antt =====
-- Lists of ids in one text, separated by commas.
use mathlib.Core.List.{reverse, reverse-cons, reverse-append, reverse-reverse}
use wolkvorm.Base.{
  ℕ, List, [], ◌∷◌, ◌++◌, true, false, Bool-cases, eqb, select, Text, All, All-append, ◌≡◌, ◌≢◌,
  refl, sym, ap, subst, ◌∙◌, inl, inr, arith,
}
use wolkvorm.Text.{
  is_space, trim_start, trim, split, split_from, join, is_nonempty, trim_all, comma_items,
}
use wolkvorm.Text.Split.{IsWhole, split-join}

-- The text does not start with white space.
abbrev IsClean : Text → Type 0
IsClean [] = Unit
IsClean (c ∷ s) = is_space c ≡ false

trim_start-IsClean : (s : Text) → IsClean (trim_start s)
unfolding trim_start
trim_start-IsClean [] = tt
trim_start-IsClean (c ∷ s) = elim (Bool-cases (is_space c)) [
  | inl space ↦ rw space (trim_start-IsClean s)
  | inr word ↦ rw word word
]

trim_start_clean : (s : Text) → IsClean s → trim_start s ≡ s
unfolding trim_start
trim_start_clean [] h = refl
trim_start_clean (c ∷ s) h = rw h refl

trim_start-suffix : (s : Text) → (w : Text) × (s ≡ w ++ trim_start s)
unfolding trim_start
trim_start-suffix [] = ([], refl)
trim_start-suffix (c ∷ s) = elim (Bool-cases (is_space c)) [
  | inl space ↦ let (w, e) = trim_start-suffix s in rw space (c ∷ w, ap (λ t. c ∷ t) e)
  | inr word ↦ rw word ([], refl)
]

IsClean-prefix : (p q : Text) → IsClean (p ++ q) → IsClean p
IsClean-prefix [] q h = tt
IsClean-prefix (c ∷ p) q h = h

trim-IsClean : (s : Text) → IsClean (trim s)
unfolding trim
trim-IsClean s =
    let u = trim_start s in
    let (w, e) = trim_start-suffix (reverse u) in
    let parts : u ≡ reverse (trim_start (reverse u)) ++ reverse w =
      sym (reverse-reverse u) ∙ ap reverse e ∙ reverse-append w (trim_start (reverse u)) in
    IsClean-prefix (reverse (trim_start (reverse u))) (reverse w)
      (subst IsClean parts (trim_start-IsClean s))

trim-trim : (s : Text) → trim (trim s) ≡ trim s
unfolding trim
trim-trim s =
    let v = trim_start (reverse (trim_start s)) in
    ap (λ t. reverse (trim_start (reverse t))) (trim_start_clean (reverse v) (trim-IsClean s))
    ∙ ap (λ t. reverse (trim_start t)) (reverse-reverse v)
    ∙ ap reverse (trim_start_clean v (trim_start-IsClean (reverse (trim_start s))))

-- Without commas: of the parts of a text, and of what stays of one.
IsWhole-trim_start : (sep : ℕ) (s : Text) → IsWhole sep s → IsWhole sep (trim_start s)
unfolding trim_start
IsWhole-trim_start sep [] h = tt
IsWhole-trim_start sep (c ∷ s) h = elim (Bool-cases (is_space c)) [
  | inl space ↦ rw space (IsWhole-trim_start sep s h.1)
  | inr word ↦ rw word h
]

IsWhole-reverse : (sep : ℕ) (s : Text) → IsWhole sep s → IsWhole sep (reverse s)
IsWhole-reverse sep [] h = tt
IsWhole-reverse sep (c ∷ s) (p, h) =
    subst (IsWhole sep) (sym (reverse-cons c s))
      (All-append (λ d. d ≢ sep) (reverse s) (c ∷ []) (IsWhole-reverse sep s h) (p, tt))

IsWhole-trim : (sep : ℕ) (s : Text) → IsWhole sep s → IsWhole sep (trim s)
unfolding trim
IsWhole-trim sep s h = IsWhole-reverse sep (trim_start (reverse (trim_start s))) (
    IsWhole-trim_start sep (reverse (trim_start s))
      (IsWhole-reverse sep (trim_start s) (IsWhole-trim_start sep s h)))

split_from-IsWhole :
    (sep : ℕ) (cur s : Text) → IsWhole sep cur → All (IsWhole sep) (split_from sep cur s)
unfolding split_from
split_from-IsWhole sep cur [] h = (h, tt)
split_from-IsWhole sep cur (c ∷ s) h = elim (Bool-cases (eqb c sep)) [
  | inl cut ↦ rw cut (h, split_from-IsWhole sep [] s tt)
  | inr more ↦ rw more (
      split_from-IsWhole sep (cur ++ c ∷ []) s
        (All-append (λ d. d ≢ sep) cur (c ∷ []) h (ground arith, tt)))
]

-- What an id in such a list looks like.
abbrev pub IsItem : Text → Type 0
IsItem t = (is_nonempty t ≡ true) × (trim t ≡ t) × IsWhole b',' t

items-IsItem :
    (parts : List Text)
    → All (IsWhole b',') parts
    → All IsItem (select is_nonempty (trim_all parts))
unfolding trim_all
items-IsItem [] h = tt
items-IsItem (p ∷ ps) (q, h) = elim (Bool-cases (is_nonempty (trim p))) [
  | inl kept ↦ rw kept ((kept, trim-trim p, IsWhole-trim b',' p q), items-IsItem ps h)
  | inr blank ↦ rw blank (items-IsItem ps h)
]

pub comma_items-IsItem : (s : Text) → All IsItem (comma_items s)
unfolding comma_items split
comma_items-IsItem s = items-IsItem (split b',' s) (split_from-IsWhole b',' [] s tt)

kept_items : (items : List Text) → All IsItem items → select is_nonempty (trim_all items) ≡ items
unfolding trim_all
kept_items [] h = refl
kept_items (t ∷ ts) ((full, trimmed, whole), h) =
    rw trimmed (rw full (ap (λ r. t ∷ r) (kept_items ts h)))

IsWhole-items : (items : List Text) → All IsItem items → All (IsWhole b',') items
IsWhole-items [] h = tt
IsWhole-items (t ∷ ts) ((full, trimmed, whole), h) = (whole, IsWhole-items ts h)

-- Joining ids with commas and reading the text again gives the same ids.
pub comma_items-join :
    (items : List Text) → All IsItem items → comma_items (join b',' items) ≡ items
unfolding comma_items
comma_items-join [] h = unfold join split trim_all trim in refl
comma_items-join (t ∷ ts) h =
    ap (λ parts. select is_nonempty (trim_all parts))
      (split-join b',' t ts (IsWhole-items (t ∷ ts) h))
    ∙ kept_items (t ∷ ts) h
