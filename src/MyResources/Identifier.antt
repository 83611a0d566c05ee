-- ===== src/MyResources/Identifier.antt =====
-- The identifier that is shown for a resource.
use wolkvorm.Base.{
  List, [], ◌∷◌, Option, none, some, true, ◌==◌, ==-iff, text_eq, Bool-cases, Option-cases, get,
  Memᴰ, Text, codes, ◌≡◌, ◌≢◌, ◌⊎◌, refl, sym, ap, ◌∙◌, inl, inr, ⊎_elim, arith,
}
use mathlib.Core.List.Memᴰ
use wolkvorm.Text.{includes, is_nonempty}
use wolkvorm.MyResources.{
  Value, text, other, Outputs, text_of, found_or, known_key, arn_entry, or_pair, get_resource_arn,
}
use wolkvorm.MyResources.Keys.{arn_keys}

-- A pair of a key and a text that the page may show for the outputs.
abbrev pub IsIdentifier : (Text → Text) → Outputs → Text × Text → Type 0
IsIdentifier to_lower m (k, v) =
    (is_nonempty v ≡ true)
    × Memᴰ (k, text v) m
    × (Memᴰ k arn_keys ⊎ (includes (to_lower k) (codes "arn") ≡ true))

text_of-some :
    (o : Option Value) (v : Text)
    → text_of o ≡ some v
    → (o ≡ some (text v)) × (is_nonempty v ≡ true)
text_of-some none v e = cc
text_of-some (some (other b)) v e = cc
text_of-some (some (text [])) v e = cc
text_of-some (some (text (c ∷ u))) v e =
    let same : c ∷ u ≡ v = cc in (ap (λ w. some (text w)) same, rw (← same) refl)

text_of-text : (v : Text) → is_nonempty v ≡ true → text_of (some (text v)) ≡ some v
text_of-text [] e = cc
text_of-text (c ∷ v) e = refl

Memᴰ-get : (k : Text) (x : Value) (m : Outputs) → get k m ≡ some x → Memᴰ (k, x) m
unfolding get
Memᴰ-get k x [] e = cc
Memᴰ-get k x ((j, y) ∷ m) e = elim (Bool-cases (j == k)) [
  | inl same ↦ let j_eq = (==-iff j k).0 same in let y_eq : y ≡ x = ground arith in Memᴰ.head (cc)
  | inr differ ↦ Memᴰ.tail (Memᴰ-get k x m (ground arith))
]

-- Either step of the search: the value that it looks at, or what is found later.
found_or-some :
    (o : Option Text) (k : Text) (rest : Option (Text × Text)) (p : Text × Text)
    → found_or o k rest ≡ some p
    → ((o ≡ some p.1) × (k ≡ p.0)) ⊎ (rest ≡ some p)
found_or-some none k rest p e = inr e
found_or-some (some v) k rest (j, w) e = inl (cc, cc)

found_or-none :
    (o : Option Text) (k : Text) (rest : Option (Text × Text))
    → found_or o k rest ≡ none
    → (o ≡ none) × (rest ≡ none)
found_or-none none k rest e = (refl, e)
found_or-none (some v) k rest e = cc

known_key-some :
    (ks : List Text) (m : Outputs) (k v : Text)
    → known_key ks m ≡ some (k, v)
    → (is_nonempty v ≡ true) × (get k m ≡ some (text v)) × Memᴰ k ks
unfolding known_key
known_key-some [] m k v e = cc
known_key-some (j ∷ ks) m k v e =
    elim (found_or-some (text_of (get j m)) j (known_key ks m) (k, v) e) [
      | inl (here, same) ↦
          let (there, nonempty) = text_of-some (get j m) v here in
          (nonempty, rw (← same) there, Memᴰ.head (sym same))
      | inr later ↦
          let (nonempty, there, listed) = known_key-some ks m k v later in
          (nonempty, there, Memᴰ.tail listed)
    ]

known_key-none :
    (ks : List Text) (m : Outputs) (k v : Text)
    → known_key ks m ≡ none
    → Memᴰ k ks
    → is_nonempty v ≡ true
    → get k m ≢ some (text v)
unfolding known_key
known_key-none [] m k v e i h = absurd (Memᴰ.not-nil i)
known_key-none (j ∷ ks) m k v e i h =
    let (here, later) = found_or-none (text_of (get j m)) j (known_key ks m) e in
    ⊎_elim
      (λ same. λ there. absurd (cc (sym here ∙ ap text_of (rw same at there) ∙ text_of-text v h)))
      (λ i'. known_key-none ks m k v later i' h) (Memᴰ.cases_cons i)

arn_entry-some :
    (to_lower : Text → Text) (m : Outputs) (k v : Text)
    → arn_entry to_lower m ≡ some (k, v)
    → (is_nonempty v ≡ true) × Memᴰ (k, text v) m × (includes (to_lower k) (codes "arn") ≡ true)
unfolding arn_entry
arn_entry-some to_lower [] k v e = cc
arn_entry-some to_lower ((j, x) ∷ m) k v e =
    elim (Bool-cases (includes (to_lower j) (codes "arn"))) [
      | inr plain ↦
          let (nonempty, there, named) = arn_entry-some to_lower m k v (rw plain at e) in
          (nonempty, Memᴰ.tail there, named)
      | inl named ↦
          elim (found_or-some (text_of (some x)) j (arn_entry to_lower m) (k, v) (rw named at e)) [
            | inl (here, same) ↦
                let (x_text, nonempty) = text_of-some (some x) v here in
                (nonempty, Memᴰ.head (cc), rw (← same) named)
            | inr later ↦
                let (nonempty, there, named') = arn_entry-some to_lower m k v later in
                (nonempty, Memᴰ.tail there, named')
          ]
    ]

arn_entry-none :
    (to_lower : Text → Text) (m : Outputs) (k v : Text)
    → arn_entry to_lower m ≡ none
    → includes (to_lower k) (codes "arn") ≡ true
    → is_nonempty v ≡ true
    → Memᴰ (k, text v) m
    → ⊥
unfolding arn_entry
arn_entry-none to_lower [] k v e named h i = Memᴰ.not-nil i
arn_entry-none to_lower ((j, x) ∷ m) k v e named h i =
    ⊎_elim
      (λ same.
        let j_named : includes (to_lower j) (codes "arn") ≡ true =
          ap (λ q. includes (to_lower q.0) (codes "arn")) (sym same) ∙ named in
        let (here, later) =
          found_or-none (text_of (some x)) j (arn_entry to_lower m) (rw j_named at e) in
        cc (sym here ∙ ap (λ q. text_of (some q.1)) (sym same) ∙ text_of-text v h))
      (λ i'. arn_entry-none to_lower m k v (rest e) named h i') (Memᴰ.cases_cons i)
  where
    rest : arn_entry to_lower ((j, x) ∷ m) ≡ none → arn_entry to_lower m ≡ none
    rest f = elim (Bool-cases (includes (to_lower j) (codes "arn"))) [
      | inl named_too ↦
          (found_or-none (text_of (some x)) j (arn_entry to_lower m) (rw named_too at f)).1
      | inr plain ↦ rw plain at f
    ]

or_pair-some :
    (p q : Option (Text × Text)) (r : Text × Text)
    → or_pair p q ≡ some r
    → (p ≡ some r) ⊎ (q ≡ some r)
or_pair-some none q r e = inr e
or_pair-some (some p) q r e = inl e

or_pair-none : (p q : Option (Text × Text)) → or_pair p q ≡ none → (p ≡ none) × (q ≡ none)
or_pair-none none q e = (refl, e)
or_pair-none (some p) q e = cc

-- What is shown for a resource is an identifier of its outputs.
pub get_resource_arn-IsIdentifier :
    (to_lower : Text → Text) (m : Outputs) (k v : Text)
    → get_resource_arn to_lower (some m) ≡ some (k, v)
    → IsIdentifier to_lower m (k, v)
unfolding get_resource_arn
get_resource_arn-IsIdentifier to_lower m k v e =
    elim (or_pair-some (known_key arn_keys m) (arn_entry to_lower m) (k, v) e) [
      | inl known ↦
          let (nonempty, there, listed) = known_key-some arn_keys m k v known in
          (nonempty, Memᴰ-get k (text v) m there, inl listed)
      | inr entry ↦
          let (nonempty, there, named) = arn_entry-some to_lower m k v entry in
          (nonempty, there, inr named)
    ]

get_resource_arn-ne :
    (to_lower : Text → Text) (m : Outputs) (k v : Text)
    → get k m ≡ some (text v)
    → IsIdentifier to_lower m (k, v)
    → get_resource_arn to_lower (some m) ≢ none
unfolding get_resource_arn
get_resource_arn-ne to_lower m k v there (nonempty, i, known) = λ e.
    let (no_known, no_entry) = or_pair-none (known_key arn_keys m) (arn_entry to_lower m) e in
    ⊎_elim (λ listed. known_key-none arn_keys m k v no_known listed nonempty there)
      (λ named. arn_entry-none to_lower m k v no_entry named nonempty i) known

-- Whatever `toLowerCase` is: if some output is an identifier (a text that is not empty, under a key that
-- is known or that has "arn" in it in lower case) and is the value of its key, the page shows an
-- output that is one.
pub get_resource_arn-shown :
    (to_lower : Text → Text) (m : Outputs) (k v : Text)
    → get k m ≡ some (text v)
    → IsIdentifier to_lower m (k, v)
    → (j : Text) × (w : Text) × (get_resource_arn to_lower (some m) ≡ some (j, w))
      × IsIdentifier to_lower m (j, w)
get_resource_arn-shown to_lower m k v there known =
    elim (Option-cases (get_resource_arn to_lower (some m))) [
      | inl lost ↦ absurd (get_resource_arn-ne to_lower m k v there known lost)
      | inr ((j, w), e) ↦ (j, w, e, get_resource_arn-IsIdentifier to_lower m j w e)
    ]
