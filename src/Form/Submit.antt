-- ===== src/Form/Submit.antt =====
-- Submitting the form: nothing is handed on unless every input is valid, and the errors that stop a
-- submission are shown.
use mathlib.Core.List.Memᴰ
use wolkvorm.Base.{
  List, [], ◌∷◌, none, some, Option-cases, Bool, true, false, ◌==◌, ==-iff, ==-refl, text_eq,
  Bool-cases, Text, get, put, get-put, put-ne-nil, any, All, All-Memᴰ, Memᴰ, Memᴰ-cons, ◌≡◌, ◌≢◌,
  ◌↔◌, refl, sym, ap, ◌∙◌, inl, inr, arith,
}
use wolkvorm.Form.{
  Form, Values, Errors, Submission, handle_submit, validate_from, validate_all, touch_from,
  touch_all, has_advanced_error, advanced_inputs, is_clean,
}
use wolkvorm.Form.Validate.{Field, validate_field}
use wolkvorm.Form.Consistent.{HasDistinctNames}

abbrev pub IsAccepted : Values → Field → Type 0
IsAccepted values f = validate_field f (get f.name values) ≡ none

-- One round of the loop of `validateAll`.
abbrev record_error : Values → Errors → Field → Errors
record_error values errors f = elim (validate_field f (get f.name values)) [
  | none ↦ errors
  | some message ↦ put f.name message errors
]

record_error-none :
    (values : Values) (errors : Errors) (f : Field)
    → IsAccepted values f
    → record_error values errors f ≡ errors
record_error-none values errors f h = ground (arith, h)

record_error-some :
    (values : Values) (errors : Errors) (f : Field) (message : Text)
    → validate_field f (get f.name values) ≡ some message
    → record_error values errors f ≡ put f.name message errors
record_error-some values errors f message h = ground (arith, h)

get-record_error :
    (values : Values) (errors : Errors) (f : Field) (k : Text)
    → f.name ≢ k
    → get k (record_error values errors f) ≡ get k errors
get-record_error values errors f k ne = elim (Option-cases (validate_field f (get f.name values))) [
  | inl e ↦ ap (get k) (record_error-none values errors f e)
  | inr (m, e) ↦ ground (arith, e, get-put f.name k m errors, ==-iff f.name k)
]

get-record_error_self :
    (values : Values) (errors : Errors) (f : Field)
    → get f.name errors ≡ none
    → get f.name (record_error values errors f) ≡ validate_field f (get f.name values)
get-record_error_self values errors f h =
    elim (Option-cases (validate_field f (get f.name values))) [
      | inl e ↦ ground (arith, e, h)
      | inr (m, e) ↦ ground (arith, e, get-put f.name f.name m errors, ==-refl f.name)
    ]

module _ (values : Values) where
  get-validate_from_other :
      (k : Text) (errors : Errors) (fs : List Field)
      → All (λ g. g.name ≢ k) fs
      → get k (validate_from errors fs values) ≡ get k errors
  unfolding validate_from
  get-validate_from_other k errors [] h = refl
  get-validate_from_other k errors (f ∷ fs) h =
      get-validate_from_other k (record_error values errors f) fs h.1
      ∙ get-record_error values errors f k h.0

  pub get-validate_from :
      (f : Field) (errors : Errors) (fs : List Field)
      → HasDistinctNames fs
      → Memᴰ f fs
      → get f.name errors ≡ none
      → get f.name (validate_from errors fs values) ≡ validate_field f (get f.name values)
  unfolding validate_from
  get-validate_from f errors [] d m h = absurd (Memᴰ.not-nil m)
  get-validate_from f errors (g ∷ fs) d m h = elim ((Memᴰ-cons f g fs).0 m) [
    | inl same ↦
        get-validate_from_other f.name (record_error values errors g) fs (rw same d.0)
        ∙ rw same (get-record_error_self values errors g (rw same at h))
    | inr later ↦
        let other = All-Memᴰ (λ x. x.name ≢ g.name) fs d.0 later in
        get-validate_from f (record_error values errors g) fs d.1 later
          (get-record_error values errors g f.name (λ e. other (sym e)) ∙ h)
  ]

  validate_from-accepted :
      (errors : Errors) (fs : List Field)
      → All (IsAccepted values) fs
      → validate_from errors fs values ≡ errors
  unfolding validate_from
  validate_from-accepted errors [] h = refl
  validate_from-accepted errors (f ∷ fs) h =
      validate_from-accepted (record_error values errors f) fs h.1
      ∙ record_error-none values errors f h.0

  validate_from-ne-nil :
      (errors : Errors) (fs : List Field) → errors ≢ [] → validate_from errors fs values ≢ []
  unfolding validate_from
  validate_from-ne-nil errors [] h = h
  validate_from-ne-nil errors (f ∷ fs) h =
      validate_from-ne-nil (record_error values errors f) fs
        (elim (Option-cases (validate_field f (get f.name values))) [
          | inl e ↦ λ k. h (sym (record_error-none values errors f e) ∙ k)
          | inr (m, e) ↦
              λ k. put-ne-nil f.name m errors (rw (record_error-some values errors f m e) at k)
        ])

  IsAccepted-of_clean :
      (fs : List Field) → validate_from [] fs values ≡ [] → All (IsAccepted values) fs
  unfolding validate_from
  IsAccepted-of_clean [] h = tt
  IsAccepted-of_clean (f ∷ fs) h = elim (Option-cases (validate_field f (get f.name values))) [
    | inl e ↦ (e, IsAccepted-of_clean fs (rw (record_error-none values [] f e) at h))
    | inr (m, e) ↦ absurd (
        validate_from-ne-nil (record_error values [] f) fs
          (λ k. put-ne-nil f.name m [] (rw (record_error-some values [] f m e) at k)) h)
  ]

abbrev pub submission : Text → Form → Submission
submission action s = record { inputs = s.values; region = s.region; env = s.env; action = action }

is_clean_iff : (errors : Errors) → (is_clean errors ≡ true) ↔ (errors ≡ [])
is_clean_iff [] = ground arith
is_clean_iff (e ∷ es) = ground arith

-- `onSubmit` is called exactly when `validateField` accepts the value of every input of the schema,
-- and then with the values, the region and the environment of the form and the action asked for.
pub handle_submit-some :
    (inputs : List Field) (action : Text) (s : Form) (sub : Submission)
    → ((handle_submit inputs action s).1 ≡ some sub)
      ↔ (All (IsAccepted s.values) inputs × (sub ≡ submission action s))
unfolding handle_submit validate_all
handle_submit-some inputs action s sub =
    elim (Bool-cases (is_clean (validate_from [] inputs s.values))) [
      | inl clean ↦
          let empty = (is_clean_iff (validate_from [] inputs s.values)).0 clean in
          rw clean (λ e. (IsAccepted-of_clean s.values inputs empty, cc), λ (_, e). cc)
      | inr dirty ↦ rw dirty (
        λ e. cc,
        λ (valid, e).
            let empty = validate_from-accepted s.values [] inputs valid in
            cc ((is_clean_iff (validate_from [] inputs s.values)).1 empty),
      )
    ]

any_of_get :
    (P : Text → Bool) (k message : Text) (errors : Errors)
    → get k errors ≡ some message
    → P k ≡ true
    → any (λ e. P e.0) errors ≡ true
unfolding get
any_of_get P k message [] h p = cc
any_of_get P k message ((j, m) ∷ errors) h p = elim (Bool-cases (j == k)) [
  | inl same ↦ let e = (==-iff j k).0 same in rw (e, p) refl
  | inr other ↦ ground (arith, any_of_get P k message errors (ground arith) p)
]

advanced_inputs-any :
    (f : Field) (inputs : List Field)
    → Memᴰ f inputs
    → f.advanced ≡ true
    → any (λ g. g.name == f.name) (advanced_inputs inputs) ≡ true
unfolding advanced_inputs
advanced_inputs-any f [] m h = absurd (Memᴰ.not-nil m)
advanced_inputs-any f (g ∷ gs) m h = elim ((Memᴰ-cons f g gs).0 m) [
  | inl same ↦ rw same (ground (arith, ==-refl g.name, ap (λ (x : Field). x.advanced) same, h))
  | inr later ↦ ground (arith, advanced_inputs-any f gs later h)
]

get-touch_from-true :
    (k : Text) (touched : List (Text × Bool)) (fs : List Field)
    → get k touched ≡ some true
    → get k (touch_from touched fs) ≡ some true
unfolding touch_from
get-touch_from-true k touched [] h = h
get-touch_from-true k touched (f ∷ fs) h =
    get-touch_from-true k (put f.name true touched) fs
      (ground (arith, get-put f.name k true touched, h))

get-touch_from :
    (f : Field) (touched : List (Text × Bool)) (fs : List Field)
    → Memᴰ f fs
    → get f.name (touch_from touched fs) ≡ some true
unfolding touch_from
get-touch_from f touched [] m = absurd (Memᴰ.not-nil m)
get-touch_from f touched (g ∷ fs) m = elim ((Memᴰ-cons f g fs).0 m) [
  | inl same ↦
      get-touch_from-true f.name (put g.name true touched) fs
        (rw same (get-put g.name g.name true touched ∙ rw (==-refl g.name) refl))
  | inr later ↦ get-touch_from f (put g.name true touched) fs later
]

not_clean :
    (k message : Text) (errors : Errors) → get k errors ≡ some message → is_clean errors ≡ false
unfolding get
not_clean k message [] h = cc
not_clean k message (e ∷ es) h = refl

-- In a schema whose inputs have distinct names: if an input's value is refused, submitting calls nothing, marks the input as touched, records its
-- message as its error, and opens the advanced section if the input stands there.
pub handle_submit-rejects :
    (inputs : List Field) (action : Text) (s : Form) (f : Field) (message : Text)
    → HasDistinctNames inputs
    → Memᴰ f inputs
    → validate_field f (get f.name s.values) ≡ some message
    → ((handle_submit inputs action s).1 ≡ none)
      × (get f.name (handle_submit inputs action s).0.touched ≡ some true)
      × (get f.name (handle_submit inputs action s).0.errors ≡ some message)
      × (f.advanced ≡ true → (handle_submit inputs action s).0.show_advanced ≡ true)
unfolding handle_submit validate_all touch_all has_advanced_error
handle_submit-rejects inputs action s f message d m h =
    let errors = validate_from [] inputs s.values in
    let recorded = get-validate_from s.values f [] inputs d m (unfold get in refl) ∙ h in
    let found = get-touch_from f [] inputs m in
    elim (Bool-cases (has_advanced_error inputs errors)) [
      | inl seen ↦
          rw (not_clean f.name message errors recorded, seen) (refl, found, recorded, λ _. refl)
      | inr unseen ↦
          rw (not_clean f.name message errors recorded, unseen)
            (
              refl,
              found,
              recorded,
              λ advanced.
                  let shown =
                    any_of_get (λ n. any (λ g. g.name == n) (advanced_inputs inputs)) f.name message
                      errors recorded (advanced_inputs-any f inputs m advanced) in
                  cc,
            )
    ]
