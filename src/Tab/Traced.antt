-- ===== src/Tab/Traced.antt =====
-- What has happened on a page inside its tab, as the events of the page on its own.
use wolkvorm.Base.{
  List, [], ◌∷◌, Option, none, some, Option-cases, ◌||◌, ◌==◌, text_eq, Bool-cases, codes, ◌≡◌,
  refl, ap, ◌∙◌, subst, inl, inr,
}
use wolkvorm.Form.{Form, Submission, handle_submit as form_submit}
use wolkvorm.Form.Validate.{Field}
use wolkvorm.Form.Events.{
  changed, blurred, submitted as submitted_form, region_chosen, env_chosen, advanced_toggled,
}
use wolkvorm.Resource
use wolkvorm.Resource.{
  Page, open_page, launch_op, handle_submit, handle_confirm_action, cancel, close_plan, submitted,
  after,
}
use wolkvorm.Resource.Flow.{
  Flow, Happening, form_event, confirmed, cancelled, closed, hand_over, step,
}
use wolkvorm.Tab.{Tab, direct, launched, open_tab, Step}

abbrev add_submitted : Option Submission → List Resource.Event → List Resource.Event
add_submitted none past = past
add_submitted (some l) past = submitted l ∷ past

-- The submissions, confirmations and closings of the page, the last first.
unfoldable pub traced : List Field → Happening → Flow → List Resource.Event → List Resource.Event
traced inputs (form_event (submitted_form action)) s past =
    add_submitted (form_submit inputs action s.form).1 past
traced inputs (form_event (changed name v)) s past = past
traced inputs (form_event (blurred name)) s past = past
traced inputs (form_event (region_chosen r)) s past = past
traced inputs (form_event (env_chosen e)) s past = past
traced inputs (form_event advanced_toggled) s past = past
traced inputs confirmed s past = Resource.confirmed ∷ past
traced inputs cancelled s past = Resource.cancelled ∷ past
traced inputs closed s past = Resource.closed ∷ past

abbrev pub traced_if :
    List Field → Option Happening → Flow → List Resource.Event → List Resource.Event
traced_if inputs none s past = past
traced_if inputs (some h) s past = traced inputs h s past

-- The tabs that can be reached from the page with a form, each with what has happened on the page.
pub data Reach (inputs : List Field) (f : Form) : List Resource.Event → Tab → Type 0 where
  here : Reach inputs f [] (open_tab inputs f)
  next :
      {past : List Resource.Event} {s t : Tab} {o : Option Happening}
      → Reach inputs f past s
      → Step inputs s o t
      → Reach inputs f (traced_if inputs o s.flow past) t

-- The page is the one of frontend/src/pages/ResourcePage.js on its own, but for what the two selects
-- of the form set.
abbrev pub Agree : Page → Page → Type 0
Agree p q = (p.confirm_action ≡ q.confirm_action) × (p.started ≡ q.started)

handle_submit-Agree :
    (l : Submission) (p q : Page) → Agree p q → Agree (handle_submit l p) (handle_submit l q)
unfolding handle_submit launch_op
handle_submit-Agree l p q (c, s) =
    elim (Bool-cases (l.action == codes "apply" || l.action == codes "destroy")) [
      | inl asks ↦ rw asks (refl, s)
      | inr direct ↦ elim (Bool-cases (l.action == codes "plan")) [
        | inl plan ↦ rw (direct, plan) (c, ap (λ x. l ∷ x) s)
        | inr other ↦ rw (direct, other) (c, s)
      ]
    ]

launch_awaited : Option Submission → Page → Page
unfolding launch_op
launch_awaited none p = p
launch_awaited (some l) p = launch_op l (record p { confirm_action = none })

handle_confirm_action-launch_awaited :
    (p : Page) → handle_confirm_action p ≡ launch_awaited p.confirm_action p
unfolding handle_confirm_action launch_awaited
handle_confirm_action-launch_awaited p = elim (Option-cases p.confirm_action) [
  | inl nothing ↦ rw nothing refl
  | inr (l, e) ↦ rw e refl
]

launch_awaited-Agree :
    (o : Option Submission) (p q : Page)
    → Agree p q
    → Agree (launch_awaited o p) (launch_awaited o q)
unfolding launch_awaited
launch_awaited-Agree none p q h = h
launch_awaited-Agree (some l) p q (c, s) = (refl, ap (λ x. l ∷ x) s)

handle_confirm_action-Agree :
    (p q : Page) → Agree p q → Agree (handle_confirm_action p) (handle_confirm_action q)
handle_confirm_action-Agree p q (c, s) =
    rw (handle_confirm_action-launch_awaited p, handle_confirm_action-launch_awaited q)
      (subst (λ o. Agree (launch_awaited p.confirm_action p) (launch_awaited o q)) c
        (launch_awaited-Agree p.confirm_action p q (c, s)))

hand_over-Agree :
    (o : Form × Option Submission) (p : Page) (past : List Resource.Event)
    → Agree p (after past)
    → Agree (hand_over o p).page (after (add_submitted o.1 past))
unfolding hand_over after
hand_over-Agree (f, none) p past h = h
hand_over-Agree (f, some l) p past h = handle_submit-Agree l p (after past) h

pub step-Agree :
    (inputs : List Field) (s : Flow) (h : Happening) (past : List Resource.Event)
    → Agree s.page (after past)
    → Agree (step inputs s h).page (after (traced inputs h s past))
unfolding step traced after cancel close_plan
step-Agree inputs s (form_event (changed name v)) past k = k
step-Agree inputs s (form_event (blurred name)) past k = k
step-Agree inputs s (form_event (submitted_form action)) past k =
    hand_over-Agree (form_submit inputs action s.form) s.page past k
step-Agree inputs s (form_event (region_chosen r)) past k = k
step-Agree inputs s (form_event (env_chosen e)) past k = k
step-Agree inputs s (form_event advanced_toggled) past k = k
step-Agree inputs s confirmed past k = handle_confirm_action-Agree s.page (after past) k
step-Agree inputs s cancelled past (c, k) = (refl, k)
step-Agree inputs s closed past k = k

abbrev pub with_launched : Option Submission → List Submission → List Submission
with_launched none ls = ls
with_launched (some l) ls = l ∷ ls

hand_over-started :
    (o : Form × Option Submission) (p : Page)
    → (hand_over o p).page.started ≡ with_launched (direct o.1) p.started
unfolding hand_over handle_submit launch_op
hand_over-started (f, none) p = refl
hand_over-started (f, some l) p =
    elim (Bool-cases (l.action == codes "apply" || l.action == codes "destroy")) [
      | inl asks ↦ rw asks refl
      | inr direct ↦ elim (Bool-cases (l.action == codes "plan")) [
        | inl plan ↦ rw (direct, plan) refl
        | inr other ↦ rw (direct, other) refl
      ]
    ]

launch_awaited-started :
    (o : Option Submission) (p : Page) → (launch_awaited o p).started ≡ with_launched o p.started
unfolding launch_awaited
launch_awaited-started none p = refl
launch_awaited-started (some l) p = refl

-- A step starts what it launches, and nothing else.
pub step-started :
    (inputs : List Field) (s : Flow) (h : Happening)
    → (step inputs s h).page.started ≡ with_launched (launched inputs s h) s.page.started
unfolding step launched cancel close_plan
step-started inputs s (form_event (changed name v)) = refl
step-started inputs s (form_event (blurred name)) = refl
step-started inputs s (form_event (submitted_form action)) =
    hand_over-started (form_submit inputs action s.form) s.page
step-started inputs s (form_event (region_chosen r)) = refl
step-started inputs s (form_event (env_chosen e)) = refl
step-started inputs s (form_event advanced_toggled) = refl
step-started inputs s confirmed =
    ap (λ p. p.started) (handle_confirm_action-launch_awaited s.page)
    ∙ launch_awaited-started s.page.confirm_action s.page
step-started inputs s cancelled = refl
step-started inputs s closed = refl
