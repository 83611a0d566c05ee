-- ===== src/Setup/Guards.antt =====
-- When the form is sent.
use wolkvorm.Base.{
  ◌≤◌, [], none, some, true, ◌==◌, ==-iff, text_eq, Bool-cases, ltb, length, ◌≡◌, ◌≢◌, ◌↔◌, refl,
  inl, inr, arith,
}
use wolkvorm.Text.{trim, is_nonempty}
use wolkvorm.Setup.{Setup, Body, body_of, handle_submit}

abbrev pub IsComplete : Setup → Type 0
IsComplete s =
    (is_nonempty (trim s.username) ≡ true)
    × (6 ≤ length s.password)
    × (s.password ≡ s.confirm_password)

-- The request is made exactly if the user name is not blank, the password has six characters or more
-- and is typed twice alike; it carries the trimmed names and the password.
pub handle_submit-IsComplete :
    (s : Setup) (b : Body) → ((handle_submit s).1 ≡ some b) ↔ (IsComplete s × (b ≡ body_of s))
unfolding handle_submit
handle_submit-IsComplete s b = elim (Bool-cases (is_nonempty (trim s.username))) [
  | inr blank ↦ rw blank (λ e. cc, λ (h, _). cc)
  | inl named ↦ elim (Bool-cases (ltb (length s.password) 6)) [
    | inl short ↦ rw (named, short) (λ e. cc, λ ((_, n, _), _). absurd (ground arith))
    | inr long ↦ elim (Bool-cases (s.password == s.confirm_password)) [
      | inr differ ↦
          rw (named, long, differ)
            (λ e. cc, λ ((_, _, same), _). cc ((==-iff s.password s.confirm_password).1 same))
      | inl same ↦
          rw (named, long, same)
            (
              λ e. ((refl, ground arith, (==-iff s.password s.confirm_password).0 same), cc),
              λ (_, e). cc,
            )
    ]
  ]
]

-- If the request is not made, the form says why, and nothing else of it changes.
pub handle_submit-none :
    (s : Setup)
    → (handle_submit s).1 ≡ none
    → ((handle_submit s).0.error ≢ [])
      × ((handle_submit s).0 ≡ record s { error = (handle_submit s).0.error })
unfolding handle_submit
handle_submit-none s h = elim (Bool-cases (is_nonempty (trim s.username))) [
  | inr blank ↦ rw blank (λ e. cc, refl)
  | inl named ↦ elim (Bool-cases (ltb (length s.password) 6)) [
    | inl short ↦ rw (named, short) (λ e. cc, refl)
    | inr long ↦ elim (Bool-cases (s.password == s.confirm_password)) [
      | inr differ ↦ rw (named, long, differ) (λ e. cc, refl)
      | inl same ↦ cc (rw (named, long, same) at h)
    ]
  ]
]
