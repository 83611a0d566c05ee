-- ===== src/Audit/InOrder.antt =====
-- What the page shows when the answers come in the order of the requests.
use wolkvorm.Base.{
  if◌then◌else◌, ℕ, ◌*◌, List, [], ◌∷◌, true, false, ==-iff, text_eq, Bool-cases, Text, ◌≡◌, refl,
  ap, ◌∙◌, inl, inr, arith,
}
use wolkvorm.Base.Newest.{IsNewest, IsNewest-append, IsNewest-imp, IsNewest-answer}
use wolkvorm.Audit.{
  Entry, Query, Audit, query, fetch_logs, same_deps, render, blank, open_audit, set_action_filter,
  set_entity_filter, set_search, handle_search, previous, previous_disabled, next, next_disabled,
  receive,
}

-- The request for the thirty entries of the page that is shown, with the filters that are set and
-- with `search`.
abbrev pub current : (search : Text) → Audit → Query
current search a = record {
  limit = 30;
  offset = a.page * 30;
  action = a.action_filter;
  entity_type = a.entity_filter;
  search = search;
}

-- The search in force: where the page or a filter has changed from `a` to `b`, the text that is in the
-- box, else the one from before.
abbrev pub search_after : Audit → Audit → Text → Text
search_after a b search = if same_deps a b then search else b.search

abbrev pub Shown : Type 0
Shown = List Entry × ℕ

abbrev pub shown : Audit → Shown
shown a = (a.entries, a.total)

module _ (serve : Query → Shown) where
  -- The page with the requests that are under way, where the server answers by `serve` all the time,
  -- and the search in force: the text that was in the box when the page or a filter changed last or
  -- Search was pressed, whichever came later.
  pub data Reach : Audit → Text → Type 0 where
    start : Reach open_audit []
    act_filter :
        (v : Text) {a : Audit} {s : Text}
        → Reach a s
        → Reach (set_action_filter v a) (search_after a (set_action_filter v a) s)
    entity_filter :
        (v : Text) {a : Audit} {s : Text}
        → Reach a s
        → Reach (set_entity_filter v a) (search_after a (set_entity_filter v a) s)
    type : (v : Text) {a : Audit} {s : Text} → Reach a s → Reach (set_search v a) s
    submit : {a : Audit} {s : Text} → Reach a s → Reach (handle_search a) a.search
    back :
        {a : Audit} {s : Text}
        → Reach a s
        → previous_disabled a ≡ false
        → Reach (previous a) (search_after a (previous a) s)
    forward :
        {a : Audit} {s : Text}
        → Reach a s
        → next_disabled a ≡ false
        → Reach (next a) (search_after a (next a) s)
    answer :
        (q : Query) (qs : List Query) {a : Audit} {s : Text}
        → Reach a s
        → a.pending ≡ q ∷ qs
        → Reach (receive (serve q) (record a { pending = qs })) s

  abbrev IsFresh : Text → Audit → Type 0
  IsFresh s a = IsNewest serve (λ q. q ≡ current s a) a.pending (shown a)

  fetch_logs-IsFresh : (a : Audit) → IsFresh a.search (fetch_logs a a)
  unfolding fetch_logs query
  fetch_logs-IsFresh a =
      IsNewest-append serve (λ q. q ≡ current a.search a) a.pending (query a) (shown a) refl

  current-same_deps : (s : Text) (a b : Audit) → same_deps a b ≡ true → current s a ≡ current s b
  current-same_deps s a b same =
      let page_eq : a.page ≡ b.page = ground (arith, same) in
      let action_eq : a.action_filter ≡ b.action_filter =
        (==-iff a.action_filter b.action_filter).0 (ground (arith, same)) in
      let entity_eq : a.entity_filter ≡ b.entity_filter =
        (==-iff a.entity_filter b.entity_filter).0 (ground (arith, same)) in
      rw (page_eq, action_eq, entity_eq) refl

  render-IsFresh :
      (s : Text) (a b : Audit)
      → IsNewest serve (λ q. q ≡ current s a) b.pending (shown b)
      → IsFresh (search_after a (render a b) s) (render a b)
  unfolding render
  render-IsFresh s a b h = elim (Bool-cases (same_deps a b)) [
    | inl same ↦
        rw (same, same)
          (IsNewest-imp serve (λ q. q ≡ current s a) (λ q. q ≡ current s b) b.pending (shown b)
            (λ q c. c ∙ current-same_deps s a b same) h)
    | inr differ ↦ rw (differ, differ) (fetch_logs-IsFresh b)
  ]

  submit-IsFresh : (a : Audit) → IsFresh a.search (handle_search a)
  unfolding handle_search render fetch_logs query
  submit-IsFresh a =
      let b = fetch_logs a (record a { page = 0 }) in
      let h = render-IsFresh a.search a b (fetch_logs-IsFresh a) in
      elim (Bool-cases (same_deps a b)) [
        | inl same ↦ rw same (rw (same, same) at h)
        | inr differ ↦ rw differ (rw (differ, differ) at h)
      ]

  same_deps_refl : (a : Audit) → same_deps a a ≡ true
  same_deps_refl a =
      ground (arith, ==-iff a.action_filter a.action_filter, ==-iff a.entity_filter a.entity_filter)

  Reach-IsFresh : {a : Audit} {s : Text} → Reach a s → IsFresh s a
  unfolding open_audit set_action_filter set_entity_filter set_search handle_search previous next
      fetch_logs receive query
  Reach-IsFresh start = fetch_logs-IsFresh blank
  Reach-IsFresh (act_filter v {a} {s} r) =
      render-IsFresh s a (record a { action_filter = v; page = 0 }) (Reach-IsFresh r)
  Reach-IsFresh (entity_filter v {a} {s} r) =
      render-IsFresh s a (record a { entity_filter = v; page = 0 }) (Reach-IsFresh r)
  Reach-IsFresh (type v {a} {s} r) = rw (same_deps_refl a) (Reach-IsFresh r)
  Reach-IsFresh (submit {a} {s} r) = submit-IsFresh a
  Reach-IsFresh (back {a} {s} r e) = render-IsFresh s a _ (Reach-IsFresh r)
  Reach-IsFresh (forward {a} {s} r e) = render-IsFresh s a _ (Reach-IsFresh r)
  Reach-IsFresh (answer q qs {a} {s} r e) =
      IsNewest-answer serve (λ q. q ≡ current s a) q qs (shown a) (rw e at (Reach-IsFresh r))

  -- If the answers come in the order of the requests and none fails, then whenever no request is under
  -- way, the table and the total are what the server gives for thirty entries of the page and the
  -- filters that are on the screen, with the search that was in the box when the page or a filter
  -- changed last or Search was pressed, whichever came later, and with none before that.
  pub Reach-settled :
      (a : Audit) (s : Text) → Reach a s → a.pending ≡ [] → shown a ≡ serve (current s a)
  Reach-settled a s r e = let (q, c, h) = rw e at (Reach-IsFresh r) in h ∙ ap serve c
