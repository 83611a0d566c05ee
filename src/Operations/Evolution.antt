-- ===== src/Operations/Evolution.antt =====
-- What any sequence of events does to a listed operation.
use mathlib.Core.List.Memᴰ
use Prim.Native.String.{String}
use text.Mathlib.TextLemmas.{append-nil, append_assoc}
use wolkvorm.Base.{
  ℕ, List, [], ◌∷◌, map, Bool, true, false, not, ◌==◌, string_eq, if◌then◌else◌, Bool-cases, select,
  Memᴰ, Memᴰ-cons, ◌≡◌, ◌≢◌, refl, sym, ap, ◌∙◌, ◌⊎◌, inl, inr, ⊎_elim,
}
use wolkvorm.Operations.{
  Status, running, done, error, Operation, Request, Message, log, done, approval_required, error,
  started, other, Operations, ◌+s◌, patch_if, new_operation, fail, append_log, receive, toggle,
  Event, IsOutside, start_operation, update_op, start, message, failed, closed, dismissed, toggled,
  handle, run,
}

-- What stays of an operation: its identity; its log, which only grows; and its end, once it has one.
pub record Evolves (o o' : Operation) : Type 0 where
  pub id : o'.id ≡ o.id
  pub schema_id : o'.schema_id ≡ o.schema_id
  pub schema_name : o'.schema_name ≡ o.schema_name
  pub action : o'.action ≡ o.action
  pub started_at : o'.started_at ≡ o.started_at
  pub logs : (suffix : String) × (o'.logs ≡ o.logs +s suffix)
  pub settled : o.status ≢ running → o'.status ≢ running

Evolves-refl : (o : Operation) → Evolves o o
Evolves-refl o = record {
  id = refl;
  schema_id = refl;
  schema_name = refl;
  action = refl;
  started_at = refl;
  logs = ("", sym (append-nil o.logs));
  settled = λ h. h;
}

Evolves-trans : {o p q : Operation} → Evolves o p → Evolves p q → Evolves o q
Evolves-trans {o} h k = record {
  id = k.id ∙ h.id;
  schema_id = k.schema_id ∙ h.schema_id;
  schema_name = k.schema_name ∙ h.schema_name;
  action = k.action ∙ h.action;
  started_at = k.started_at ∙ h.started_at;
  logs =
      let (s, p) = h.logs in
      let (t, q) = k.logs in (s +s t, q ∙ ap (λ x. x +s t) p ∙ append_assoc o.logs s t);
  settled = λ e. k.settled (h.settled e);
}

not_running : (o : Operation) (s : Status) → s ≢ running → Evolves o (record o { status = s })
not_running o s h =
    let r = Evolves-refl o in
    record {
      id = refl;
      schema_id = refl;
      schema_name = refl;
      action = refl;
      started_at = refl;
      logs = r.logs;
      settled = λ _. h;
    }

append_log-Evolves : (text : String) (o : Operation) → Evolves o (append_log text o)
unfolding append_log
append_log-Evolves text o = record {
  id = refl;
  schema_id = refl;
  schema_name = refl;
  action = refl;
  started_at = refl;
  logs = (text, refl);
  settled = λ h. h;
}

done-ne-running : ◌≢◌ {A = Status} done running
done-ne-running e = cc

error-ne-running : ◌≢◌ {A = Status} error running
error-ne-running e = cc

final-ne-running : (b : Bool) → ◌≢◌ {A = Status} (if b then error else done) running
final-ne-running true = error-ne-running
final-ne-running false = done-ne-running

receive-Evolves : (m : Message) (o : Operation) → Evolves o (receive m o)
unfolding receive
receive-Evolves (log text) o = append_log-Evolves _ o
receive-Evolves (done status duration plan_id) o =
    let k =
      not_running o (if status == "error" then error else done)
        (final-ne-running (status == "error")) in
    record {
      id = refl;
      schema_id = refl;
      schema_name = refl;
      action = refl;
      started_at = refl;
      logs = k.logs;
      settled = k.settled;
    }
receive-Evolves (approval_required text) o =
    Evolves-trans (not_running o done done-ne-running) (append_log-Evolves _ _)
receive-Evolves (error text) o =
    Evolves-trans (not_running o error error-ne-running) (append_log-Evolves _ _)
receive-Evolves (started text) o =
    let r = Evolves-refl o in
    record {
      id = refl;
      schema_id = refl;
      schema_name = refl;
      action = refl;
      started_at = refl;
      logs = r.logs;
      settled = r.settled;
    }
receive-Evolves other o = Evolves-refl o

toggle-Evolves : (o : Operation) → Evolves o (toggle o)
toggle-Evolves o =
    let r = Evolves-refl o in
    record {
      id = refl;
      schema_id = refl;
      schema_name = refl;
      action = refl;
      started_at = refl;
      logs = r.logs;
      settled = r.settled;
    }

-- The operation is one that a `start` among the events has listed.
abbrev pub IsStarted : List Event → Operation → Type 0
IsStarted es o' =
    (r : Request) × (now : ℕ) × (later : ℕ) × (connected : Bool) × Memᴰ
      (start r now later connected) es
    × Evolves (new_operation r now later) o'

-- The operation was listed before, or was started by one of the events.
abbrev pub IsFrom : List Event → List Operation → Operation → Type 0
IsFrom es before o' = ((o : Operation) × Memᴰ o before × Evolves o o') ⊎ IsStarted es o'

mem_map :
    (id : String) (f : Operation → Operation) (os : List Operation) (o' : Operation)
    → ((o : Operation) → Evolves o (f o))
    → Memᴰ o' (map (patch_if id f) os)
    → (o : Operation) × Memᴰ o os × Evolves o o'
unfolding patch_if
mem_map id f [] o' h m = absurd (Memᴰ.not-nil m)
mem_map id f (o ∷ os) o' h m =
    elim ((Memᴰ-cons o' (patch_if id f o) (map (patch_if id f) os)).0 m) [
      | inr later ↦ let (p, k, e) = mem_map id f os o' h later in (p, Memᴰ.tail k, e)
      | inl now ↦ (
        o,
        Memᴰ.head refl,
        rw now (elim (Bool-cases (o.id == id)) [
          | inl same ↦ rw same (h o)
          | inr different ↦ rw different (Evolves-refl o)
        ]),
      )
    ]

mem_select :
    (p : Operation → Bool) (os : List Operation) (o : Operation) → Memᴰ o (select p os) → Memᴰ o os
mem_select p [] o m = m
mem_select p (x ∷ os) o m = elim (Bool-cases (p x)) [
  | inl kept ↦
      ⊎_elim Memᴰ.head (λ k. Memᴰ.tail (mem_select p os o k)) (Memᴰ.cases_cons (rw kept at m))
  | inr dropped ↦ Memᴰ.tail (mem_select p os o (rw dropped at m))
]

fail-Evolves : (o : Operation) → Evolves o (fail o)
fail-Evolves o = not_running o error error-ne-running

-- The operation comes from one that was listed before.
abbrev pub IsOld : List Operation → Operation → Type 0
IsOld before o' = (o : Operation) × Memᴰ o before × Evolves o o'

IsOld-start :
    (r : Request) (now later : ℕ) (os : List Operation) (o o' : Operation)
    → Memᴰ o (new_operation r now later ∷ os)
    → Evolves o o'
    → IsOld os o' ⊎ Evolves (new_operation r now later) o'
IsOld-start r now later os o o' m h = elim ((Memᴰ-cons o (new_operation r now later) os).0 m) [
  | inl new ↦ inr (rw new at h)
  | inr old ↦ inl (o, old, h)
]

-- After a start, a listed operation is an old one or the one that was started.
pub start_operation-IsOld :
    (r : Request) (now later : ℕ) (connected : Bool) (s : Operations) (o' : Operation)
    → Memᴰ o' (start_operation r now later connected s).operations
    → IsOld s.operations o' ⊎ Evolves (new_operation r now later) o'
unfolding start_operation update_op
start_operation-IsOld r now later true s o' m =
    IsOld-start r now later s.operations o' o' m (Evolves-refl o')
start_operation-IsOld r now later false s o' m =
    let (o, k, h) = mem_map _ fail (new_operation r now later ∷ s.operations) o' fail-Evolves m in
    IsOld-start r now later s.operations o o' k h

-- Any other event lists no new operation.
pub handle-IsOld :
    (e : Event) (s : Operations) (o' : Operation)
    → IsOutside e
    → Memᴰ o' (handle e s).operations
    → IsOld s.operations o'
unfolding handle
handle-IsOld (start r now later connected) s o' q m = absurd q
handle-IsOld (message id m) s o' q k = mem_map id (receive m) s.operations o' (receive-Evolves m) k
handle-IsOld (failed id) s o' q k = mem_map id fail s.operations o' fail-Evolves k
handle-IsOld (closed id) s o' q k = (o', k, Evolves-refl o')
handle-IsOld (dismissed id) s o' q k =
    (o', mem_select (λ op. not (op.id == id)) s.operations o' k, Evolves-refl o')
handle-IsOld (toggled id) s o' q k = mem_map id toggle s.operations o' toggle-Evolves k

handle-IsFrom :
    (e : Event) (es : List Event) (s : Operations) (o' : Operation)
    → Memᴰ o' (handle e s).operations
    → IsFrom (e ∷ es) s.operations o'
handle-IsFrom (start r now later connected) es s o' m =
    elim (start_operation-IsOld r now later connected s o' (unfold handle in m)) [
      | inl old ↦ inl old
      | inr new ↦ inr (r, now, later, connected, Memᴰ.head refl, new)
    ]
handle-IsFrom (message id m) es s o' k = inl (handle-IsOld (message id m) s o' tt k)
handle-IsFrom (failed id) es s o' k = inl (handle-IsOld (failed id) s o' tt k)
handle-IsFrom (closed id) es s o' k = inl (handle-IsOld (closed id) s o' tt k)
handle-IsFrom (dismissed id) es s o' k = inl (handle-IsOld (dismissed id) s o' tt k)
handle-IsFrom (toggled id) es s o' k = inl (handle-IsOld (toggled id) s o' tt k)

-- After any events every listed operation comes from one that was listed before them, or from one
-- that a `start` among them has listed: it has the same id, schema, action and start time, its log extends the earlier
-- log, and if that one was no longer running this one is not running either.
pub run-Evolves :
    (es : List Event) (s : Operations) (o' : Operation)
    → Memᴰ o' (run es s).operations
    → IsFrom es s.operations o'
unfolding run
run-Evolves [] s o' m = inl (o', m, Evolves-refl o')
run-Evolves (e ∷ es) s o' m = elim (run-Evolves es (handle e s) o' m) [
  | inr (r, now, later, c, m', h) ↦ inr (r, now, later, c, Memᴰ.tail m', h)
  | inl (o, k, h) ↦ elim (handle-IsFrom e es s o k) [
    | inl (o₀, k₀, h₀) ↦ inl (o₀, k₀, Evolves-trans h₀ h)
    | inr (r, now, later, c, m', h₀) ↦ inr (r, now, later, c, m', Evolves-trans h₀ h)
  ]
]
