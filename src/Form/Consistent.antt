-- ===== src/Form/Consistent.antt =====
-- The errors of the form's touched inputs are those of their present values.
use mathlib.Core.List.Memᴰ
use wolkvorm.Base.{
  List, [], ◌∷◌, Option, none, some, Option-cases, true, false, ◌==◌, ==-iff, ==-refl, text_eq,
  if◌then◌else◌, Bool-cases, Text, get, get-put, get-remove, All, All-Memᴰ, Memᴰ, Memᴰ-cons, ◌≡◌,
  ◌≢◌, refl, ◌∙◌, inl, inr, arith,
}
use wolkvorm.Form.{
  Form, Errors, find_field, set_error, is_touched, revalidate, handle_change, handle_blur,
}
use wolkvorm.Form.Validate.{Value, Field, validate_field}

-- No two inputs of the schema have one name.
abbrev pub HasDistinctNames : List Field → Type 0
HasDistinctNames [] = Unit
HasDistinctNames (f ∷ fs) = All (λ g. g.name ≢ f.name) fs × HasDistinctNames fs

unfoldable pub IsConsistent : List Field → Form → Type 0
IsConsistent inputs s =
    (f : Field)
    → Memᴰ f inputs
    → is_touched f.name s ≡ true
    → get f.name s.errors ≡ validate_field f (get f.name s.values)

find_field_self :
    (f : Field) (inputs : List Field)
    → HasDistinctNames inputs
    → Memᴰ f inputs
    → find_field f.name inputs ≡ some f
find_field_self f [] d m = absurd (Memᴰ.not-nil m)
find_field_self f (g ∷ gs) d m = elim ((Memᴰ-cons f g gs).0 m) [
  | inl same ↦ rw same (ground (arith, ==-refl g.name))
  | inr later ↦
      let other = All-Memᴰ (λ h. h.name ≢ g.name) gs d.0 later in
      ground (arith, other, ==-iff g.name f.name, find_field_self f gs d.1 later)
]

get-set_error :
    (k name : Text) (o : Option Text) (errors : Errors)
    → get k (set_error name o errors) ≡ (if name == k then o else get k errors)
unfolding set_error
get-set_error k name none errors = get-remove name k errors
get-set_error k name (some message) errors = get-put name k message errors

-- Revalidating `name` records the verdict of its input, and changes no other entry.
revalidate_self :
    (f : Field) (inputs : List Field) (v : Option Value) (errors : Errors)
    → HasDistinctNames inputs
    → Memᴰ f inputs
    → get f.name (revalidate inputs f.name v errors) ≡ validate_field f v
unfolding revalidate
revalidate_self f inputs v errors d m =
    rw (find_field_self f inputs d m, revalidate)
      (get-set_error f.name f.name (validate_field f v) errors ∙ rw (==-refl f.name) refl)

revalidate-other :
    (k name : Text) (inputs : List Field) (v : Option Value) (errors : Errors)
    → (name == k) ≡ false
    → get k (revalidate inputs name v errors) ≡ get k errors
unfolding revalidate
revalidate-other k name inputs v errors ne = elim (Option-cases (find_field name inputs)) [
  | inl missing ↦ rw (missing, revalidate) refl
  | inr (f, found) ↦
      rw (found, revalidate) (get-set_error k name (validate_field f v) errors ∙ rw ne refl)
]

module _ (inputs : List Field) (distinct : HasDistinctNames inputs) where
  pub handle_change-IsConsistent :
      (name : Text) (v : Value) (s : Form)
      → IsConsistent inputs s
      → IsConsistent inputs (handle_change inputs name v s)
  unfolding IsConsistent handle_change
  handle_change-IsConsistent name v s h f m touched = elim (Bool-cases (name == f.name)) [
    | inl same ↦
        let e = (==-iff name f.name).0 same in
        rw (e, touched, get-put f.name f.name v s.values, ==-refl f.name)
          (revalidate_self f inputs (some v) s.errors distinct m)
    | inr other ↦
        let old = h f m touched in
        let value = get-put name f.name v s.values in
        rw (value, other)
          (elim (Bool-cases (is_touched name s)) [
            | inl t ↦ rw t (revalidate-other f.name name inputs (some v) s.errors other ∙ old)
            | inr t ↦ rw t old
          ])
  ]

  pub handle_blur-IsConsistent :
      (name : Text) (s : Form)
      → IsConsistent inputs s
      → IsConsistent inputs (handle_blur inputs name s)
  unfolding IsConsistent handle_blur is_touched
  handle_blur-IsConsistent name s h f m touched = elim (Bool-cases (name == f.name)) [
    | inl same ↦
        let e = (==-iff name f.name).0 same in
        rw e (revalidate_self f inputs (get f.name s.values) s.errors distinct m)
    | inr other ↦
        revalidate-other f.name name inputs (get name s.values) s.errors other
        ∙ h f m (ground (arith, get-put name f.name true s.touched))
  ]
