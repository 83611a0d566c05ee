-- ===== src/Tab/Cleared.antt =====
-- What reaches the server, and what the list of operations holds, was validated and, where it must
-- be, confirmed.
use mathlib.Core.List.Memᴰ
use wolkvorm.Base.{
  ℕ, List, ◌∷◌, Option, none, some, Bool, true, false, codes, All, All-imp, All-append, All-split,
  All-Memᴰ, Memᴰ, ◌≡◌, refl, sym, ap, ◌∙◌, subst, if◌then◌else◌, inl, inr,
}
use wolkvorm.Form.{Form, Submission}
use wolkvorm.Form.Validate.{Field}
use wolkvorm.Operations.{Operation, Payload, payload, start_operation, new_operation, Request}
use wolkvorm.Operations.Evolution.{Evolves, start_operation-IsOld, handle-IsOld}
use wolkvorm.Resource
use wolkvorm.Resource.{open_page, after}
use wolkvorm.Resource.Confirmed.{IsAuthorized, after-IsAuthorized}
use wolkvorm.Resource.Flow.{
  Flow, Happening, step, open_flow, IsValid, AreSafe, step-AreSafe, form_submit-IsValid,
}
use wolkvorm.Tab.{
  Tab, launched, IsRequestOf, open_tab, launch, Step, on_page, on_launch, on_open, on_event,
}
use wolkvorm.Tab.Traced.{
  Reach, here, next, traced, traced_if, Agree, step-Agree, with_launched, step-started,
}

-- The message says what was submitted.
abbrev pub IsPayloadOf : Submission → Payload → Type 0
IsPayloadOf l p =
    (codes p.action ≡ l.action)
    × (p.inputs ≡ l.inputs)
    × (codes p.region ≡ l.region)
    × (codes p.env ≡ l.env)

abbrev IsBacked : List Submission → Payload → Type 0
IsBacked ls p = (l : Submission) × Memᴰ l ls × IsPayloadOf l p

abbrev IsNamed : List Submission → Operation → Type 0
IsNamed ls o = (l : Submission) × Memᴰ l ls × (codes o.action ≡ l.action)

payload-IsPayloadOf : (l : Submission) (r : Request) → IsRequestOf l r → IsPayloadOf l (payload r)
unfolding payload
payload-IsPayloadOf l r h = (h.action, h.inputs, h.region, h.env)

new_operation-action : (r : Request) (now later : ℕ) → (new_operation r now later).action ≡ r.action
unfolding new_operation
new_operation-action r now later = refl

module _ (inputs : List Field) where
  record IsTraced (past : List Resource.Event) (s : Tab) : Type 0 where
    page : Agree s.flow.page (after past)
    valid : AreSafe (IsValid inputs) s.flow.page
    opening : All (IsBacked s.flow.page.started) s.opening
    sent : All (IsBacked s.flow.page.started) s.sent
    listed : (o : Operation) → Memᴰ o s.operations.operations → IsNamed s.flow.page.started o

  more :
      (k : Option Submission) (ls : List Submission) (l : Submission)
      → Memᴰ l ls
      → Memᴰ l (with_launched k ls)
  more none ls l m = m
  more (some x) ls l m = Memᴰ.tail m

  IsBacked-more :
      (k : Option Submission) (ls : List Submission) (ps : List Payload)
      → All (IsBacked ls) ps
      → All (IsBacked (with_launched k ls)) ps
  IsBacked-more k ls =
      All-imp (IsBacked ls) (IsBacked (with_launched k ls)) λ p (l, m, e). (l, more k ls l m, e)

  IsNamed-more :
      (k : Option Submission) (ls : List Submission) (o : Operation)
      → IsNamed ls o
      → IsNamed (with_launched k ls) o
  IsNamed-more k ls o (l, m, e) = (l, more k ls l m, e)

  IsNamed-Evolves :
      (ls : List Submission) {o o' : Operation} → Evolves o o' → IsNamed ls o → IsNamed ls o'
  IsNamed-Evolves ls v (l, m, e) = (l, m, ap codes v.action ∙ e)

  step-AreValid :
      (f : Flow) (h : Happening)
      → AreSafe (IsValid inputs) f.page
      → AreSafe (IsValid inputs) (step inputs f h).page
  step-AreValid f h =
      step-AreSafe (IsValid inputs) inputs f h
        λ action l. form_submit-IsValid inputs f.form action l

  -- What the page has started after something that launches `k`.
  started-eq :
      (f : Flow) (h : Happening) (k : Option Submission)
      → launched inputs f h ≡ k
      → with_launched k f.page.started ≡ (step inputs f h).page.started
  started-eq f h k e = sym (step-started inputs f h ∙ ap (λ x. with_launched x f.page.started) e)

  on_page-IsTraced :
      (past : List Resource.Event) (s : Tab) (h : Happening)
      → launched inputs s.flow h ≡ none
      → IsTraced past s
      → IsTraced (traced inputs h s.flow past) (record s { flow = step inputs s.flow h })
  on_page-IsTraced past s h e k =
      let same = started-eq s.flow h none e in
      record {
        page = step-Agree inputs s.flow h past k.page;
        valid = step-AreValid s.flow h k.valid;
        opening = subst (λ ls. All (IsBacked ls) s.opening) same k.opening;
        sent = subst (λ ls. All (IsBacked ls) s.sent) same k.sent;
        listed = λ o m. subst (λ ls. IsNamed ls o) same (k.listed o m);
      }

  launch-opening :
      (l : Submission) (r : Request) (connected : Bool) (ls : List Submission) (ps : List Payload)
      → IsRequestOf l r
      → All (IsBacked ls) ps
      → All (IsBacked (l ∷ ls)) (if connected then payload r ∷ ps else ps)
  launch-opening l r true ls ps q h =
      ((l, Memᴰ.head refl, payload-IsPayloadOf l r q), IsBacked-more (some l) ls ps h)
  launch-opening l r false ls ps q h = IsBacked-more (some l) ls ps h

  launch-IsNamed :
      (l : Submission) (r : Request) (now later : ℕ) (connected : Bool) (s : Tab) (o : Operation)
      → IsRequestOf l r
      → ((o : Operation) → Memᴰ o s.operations.operations → IsNamed s.flow.page.started o)
      → Memᴰ o (start_operation r now later connected s.operations).operations
      → IsNamed (l ∷ s.flow.page.started) o
  launch-IsNamed l r now later connected s o q h m =
      elim (start_operation-IsOld r now later connected s.operations o m) [
        | inl (old, n, v) ↦
            IsNamed-Evolves (l ∷ s.flow.page.started) v
              (IsNamed-more (some l) s.flow.page.started old (h old n))
        | inr v ↦
            IsNamed-Evolves (l ∷ s.flow.page.started) v
              (l, Memᴰ.head refl, ap codes (new_operation-action r now later) ∙ q.action)
      ]

  on_launch-IsTraced :
      (past : List Resource.Event) (s : Tab) (h : Happening) (l : Submission) (r : Request)
      (now later : ℕ) (connected : Bool)
      → launched inputs s.flow h ≡ some l
      → IsRequestOf l r
      → IsTraced past s
      → IsTraced
          (traced inputs h s.flow past)
          (launch r now later connected (step inputs s.flow h) s)
  unfolding launch
  on_launch-IsTraced past s h l r now later connected e q k =
      let same = started-eq s.flow h (some l) e in
      record {
        page = step-Agree inputs s.flow h past k.page;
        valid = step-AreValid s.flow h k.valid;
        opening =
            subst (λ ls. All (IsBacked ls) (if connected then payload r ∷ s.opening else s.opening))
              same (launch-opening l r connected s.flow.page.started s.opening q k.opening);
        sent =
            subst (λ ls. All (IsBacked ls) s.sent) same
              (IsBacked-more (some l) s.flow.page.started s.sent k.sent);
        listed = λ o m.
            subst (λ ls. IsNamed ls o) same
              (launch-IsNamed l r now later connected s o q k.listed m);
      }

  Step-IsTraced :
      {past : List Resource.Event} {s t : Tab} {o : Option Happening}
      → Step inputs s o t
      → IsTraced past s
      → IsTraced (traced_if inputs o s.flow past) t
  Step-IsTraced {past} {s} (on_page h e) k = on_page-IsTraced past s h e k
  Step-IsTraced {past} {s} (on_launch h l r now later connected e q) k =
      on_launch-IsTraced past s h l r now later connected e q k
  Step-IsTraced {past} {s} (on_open before p after e) k =
      let (front, opened, back) =
        All-split (IsBacked s.flow.page.started) before p after (rw e at k.opening) in
      record {
        page = k.page;
        valid = k.valid;
        opening = All-append _ before after front back;
        sent = (opened, k.sent);
        listed = k.listed;
      }
  Step-IsTraced {past} {s} (on_event e q) k = record {
    page = k.page;
    valid = k.valid;
    opening = k.opening;
    sent = k.sent;
    listed = λ o m.
        let (old, n, v) = handle-IsOld e s.operations o q m in
        IsNamed-Evolves s.flow.page.started v (k.listed old n);
  }

  Reach-IsTraced :
      {f : Form} {past : List Resource.Event} {s : Tab} → Reach inputs f past s → IsTraced past s
  unfolding open_tab open_flow after open_page
  Reach-IsTraced here = record {
    page = (refl, refl);
    valid = (tt, tt);
    opening = tt;
    sent = tt;
    listed = λ o m. absurd (Memᴰ.not-nil m);
  }
  Reach-IsTraced (next r st) = Step-IsTraced st (Reach-IsTraced r)

  -- A submission that may run: `validateField` accepts all its inputs, and unless it is a plan the
  -- user has confirmed it while the dialog asked about it.
  abbrev pub IsCleared : List Resource.Event → Submission → Type 0
  IsCleared past l = IsValid inputs l × IsAuthorized past l

  started-IsCleared :
      (past : List Resource.Event) (s : Tab) (l : Submission)
      → IsTraced past s
      → Memᴰ l s.flow.page.started
      → IsCleared past l
  started-IsCleared past s l k m = (
    All-Memᴰ (IsValid inputs) s.flow.page.started k.valid.1 m,
    All-Memᴰ (IsAuthorized past) (after past).started (after-IsAuthorized past)
        (subst (λ ls. Memᴰ l ls) k.page.1 m),
  )

  -- From the opening of the page with no operations in the list, whatever is done on the page, and
  -- whatever the sockets of the operations bring: every message that
  -- a socket has sent to the server has the action, the inputs, the region and the environment of a
  -- submission whose inputs `validateField` accepts and which, unless it is a plan, is an apply or a
  -- destroy that the user confirmed when it was the last one submitted, with no other confirmation
  -- and no cancellation between its submission and its confirmation; and every operation in the list
  -- has the action of such a submission.
  pub Reach-IsCleared :
      {f : Form} {past : List Resource.Event} {s : Tab}
      → Reach inputs f past s
      → All (λ p. (l : Submission) × IsPayloadOf l p × IsCleared past l) s.sent
        × ((o : Operation)
            → Memᴰ o s.operations.operations
            → (l : Submission) × (codes o.action ≡ l.action) × IsCleared past l)
  Reach-IsCleared {past = past} {s = s} r =
      let k = Reach-IsTraced r in
      (
        All-imp (IsBacked s.flow.page.started) _
            (λ p (l, m, e). (l, e, started-IsCleared past s l k m)) s.sent k.sent,
        λ o m. let (l, n, e) = k.listed o m in (l, e, started-IsCleared past s l k n),
      )
