-- ===== src/Resource/Confirmed.antt =====
-- What `handleSubmit` and `handleConfirmAction` of frontend/src/pages/ResourcePage.js start: nothing is
-- applied or destroyed without a confirmation of that very launch.
use wolkvorm.Base.{
  List, [], ◌∷◌, Option, none, some, Option-cases, ◌||◌, ◌==◌, ==-iff, text_eq, codes, Bool-cases,
  All, All-imp, ◌≡◌, ◌⊎◌, ◌↔◌, true, refl, inl, inr, arith,
}
use wolkvorm.Form.{Submission}
use wolkvorm.Resource.{
  Page, open_page, launch_op, handle_submit, handle_confirm_action, cancel, close_plan, Event,
  submitted, confirmed, cancelled, closed, step, after,
}

-- An apply or a destroy.
abbrev pub IsAsking : Submission → Type 0
IsAsking l = (l.action ≡ codes "apply") ⊎ (l.action ≡ codes "destroy")

-- The last apply or destroy that was submitted is `l`, and it was neither confirmed nor cancelled
-- since.
pub data Asks : List Event → Submission → Type 0 where
  asked : (l : Submission) (past : List Event) → IsAsking l → Asks (submitted l ∷ past) l
  aside :
      (l k : Submission) (past : List Event)
      → ¬ IsAsking k
      → Asks past l
      → Asks (submitted k ∷ past) l
  behind : (l : Submission) (past : List Event) → Asks past l → Asks (closed ∷ past) l

-- The launch is a plan that was submitted, or an apply or a destroy that was confirmed when it was the
-- last one submitted and not cancelled.
abbrev pub IsAuthorized : List Event → Submission → Type 0
IsAuthorized [] l = ⊥
IsAuthorized (submitted k ∷ past) l = ((k ≡ l) × (l.action ≡ codes "plan")) ⊎ IsAuthorized past l
IsAuthorized (confirmed ∷ past) l = Asks past l ⊎ IsAuthorized past l
IsAuthorized (cancelled ∷ past) l = IsAuthorized past l
IsAuthorized (closed ∷ past) l = IsAuthorized past l

-- The launch that the dialog asks about is waiting for its confirmation.
abbrev pub IsAwaited : List Event → Option Submission → Type 0
IsAwaited past none = Unit
IsAwaited past (some l) = Asks past l × IsAsking l

abbrev IsSound : List Event → Page → Type 0
IsSound past s = IsAwaited past s.confirm_action × All (IsAuthorized past) s.started

IsAwaited-aside :
    (k : Submission) (past : List Event) (o : Option Submission)
    → ¬ IsAsking k
    → IsAwaited past o
    → IsAwaited (submitted k ∷ past) o
IsAwaited-aside k past none n h = tt
IsAwaited-aside k past (some l) n (m, a) = (aside l k past n m, a)

IsAwaited-behind :
    (past : List Event) (o : Option Submission) → IsAwaited past o → IsAwaited (closed ∷ past) o
IsAwaited-behind past none h = tt
IsAwaited-behind past (some l) (m, a) = (behind l past m, a)

waits_iff :
    (l : Submission)
    → IsAsking l ↔ ((l.action == codes "apply" || l.action == codes "destroy") ≡ true)
waits_iff l = ground (arith, ==-iff l.action (codes "apply"), ==-iff l.action (codes "destroy"))

later :
    (e : Event) (past : List Event) (l : Submission)
    → IsAuthorized past l
    → IsAuthorized (e ∷ past) l
later (submitted k) past l h = inr h
later confirmed past l h = inr h
later cancelled past l h = h
later closed past l h = h

submit-IsSound :
    (l : Submission) (past : List Event) (s : Page)
    → IsSound past s
    → IsSound (submitted l ∷ past) (handle_submit l s)
unfolding handle_submit launch_op
submit-IsSound l past s (w, h) =
    let started =
      All-imp (IsAuthorized past) (IsAuthorized (submitted l ∷ past)) (later (submitted l) past)
        s.started h in
    elim (Bool-cases (l.action == codes "apply" || l.action == codes "destroy")) [
      | inl asks ↦
          let which = (waits_iff l).1 asks in rw asks ((asked l past which, which), started)
      | inr direct ↦
          let quiet : ¬ IsAsking l = λ a. cc (direct, (waits_iff l).0 a) in
          let waiting = IsAwaited-aside l past s.confirm_action quiet w in
          elim (Bool-cases (l.action == codes "plan")) [
            | inl plan ↦
                rw (direct, plan)
                  (waiting, (inl (refl, (==-iff l.action (codes "plan")).0 plan), started))
            | inr other ↦ rw (direct, other) (waiting, started)
          ]
    ]

confirm-IsSound :
    (past : List Event) (s : Page)
    → IsSound past s
    → IsSound (confirmed ∷ past) (handle_confirm_action s)
unfolding handle_confirm_action launch_op
confirm-IsSound past s (w, h) =
    let started =
      All-imp (IsAuthorized past) (IsAuthorized (confirmed ∷ past)) (later confirmed past) s.started
        h in
    elim (Option-cases s.confirm_action) [
      | inl nothing ↦ rw nothing (tt, started)
      | inr (l, e) ↦ let (m, _) = rw e at w in rw e (tt, (inl m, started))
    ]

after-IsSound : (past : List Event) → IsSound past (after past)
unfolding after open_page step cancel close_plan
after-IsSound [] = (tt, tt)
after-IsSound (submitted l ∷ past) = submit-IsSound l past (after past) (after-IsSound past)
after-IsSound (confirmed ∷ past) = confirm-IsSound past (after past) (after-IsSound past)
after-IsSound (cancelled ∷ past) =
    let (w, h) = after-IsSound past in
    (
      tt,
      All-imp (IsAuthorized past) (IsAuthorized (cancelled ∷ past)) (λ l k. k) (after past).started
          h,
    )
after-IsSound (closed ∷ past) =
    let (w, h) = after-IsSound past in
    (
      IsAwaited-behind past (after past).confirm_action w,
      All-imp (IsAuthorized past) (IsAuthorized (closed ∷ past)) (λ l k. k) (after past).started h,
    )

-- What the dialog asks about is the last apply or destroy that was submitted, neither confirmed nor
-- cancelled since.
pub after-IsAwaited : (past : List Event) → IsAwaited past (after past).confirm_action
after-IsAwaited past = let (w, h) = after-IsSound past in w

-- Every operation that the page has started was submitted with the same action, inputs, region and
-- environment; and unless its action is `plan`, it is an apply or a destroy that the user confirmed
-- when it was the last apply or destroy submitted, with no other confirmation and no cancellation
-- between its submission and its confirmation.
pub after-IsAuthorized : (past : List Event) → All (IsAuthorized past) (after past).started
after-IsAuthorized past = let (w, h) = after-IsSound past in h
