-- ===== src/Operations/Lookup.antt =====
-- Seen through `getOperation`, the listed operations are a map from ids.
use Prim.Native.String.{String}
use mathlib.Core.Option
use wolkvorm.Base.{
  List, [], ◌∷◌, map, Option, none, some, Bool, true, false, not, ◌==◌, ==-iff, ==-refl, string_eq,
  if◌then◌else◌, Bool-cases, select, find_first, ◌≡◌, refl, ◌∙◌, inl, inr, arith,
}
use wolkvorm.Operations.{
  Operation, Operations, Message, patch_if, new_operation, operation_id, fail, toggle,
  get_operation, receive, Event, start, message, failed, closed, dismissed, toggled, handle, log,
  done, approval_required, error, started, other,
}

-- The abstract view: what is known of each id.
abbrev pub View : Type 0
View = String → Option Operation

abbrev pub view : Operations → View
view s id = get_operation id s

-- What an event does to the view.
abbrev pub view_step : Event → View → View
view_step (start r now later connected) v id =
    if operation_id r now == id
    then some (if connected then new_operation r now later else fail (new_operation r now later))
    else v id
view_step (message k m) v id = if k == id then Option.map (receive m) (v id) else v id
view_step (failed k) v id = if k == id then Option.map fail (v id) else v id
view_step (closed k) v id = v id
view_step (dismissed k) v id = if k == id then none else v id
view_step (toggled k) v id = if k == id then Option.map toggle (v id) else v id

abbrev has_id : String → Operation → Bool
has_id id o = o.id == id

pub receive-id : (m : Message) (o : Operation) → (receive m o).id ≡ o.id
unfolding receive
receive-id (log text) o = refl
receive-id (done status duration plan_id) o = refl
receive-id (approval_required text) o = refl
receive-id (error text) o = refl
receive-id (started text) o = refl
receive-id other o = refl

find_first-map :
    (k id : String) (f : Operation → Operation) (os : List Operation)
    → ((o : Operation) → (f o).id ≡ o.id)
    → find_first (has_id id) (map (patch_if k f) os)
      ≡ (if k == id then Option.map f (find_first (has_id id) os) else find_first (has_id id) os)
unfolding patch_if Option.map
find_first-map k id f [] h = ground arith
find_first-map k id f (o ∷ os) h = ground (
  arith,
  h o,
  ==-iff o.id k,
  ==-iff o.id id,
  ==-iff k id,
  ==-iff (f o).id id,
  find_first-map k id f os h,
)

find_first-select :
    (k id : String) (os : List Operation)
    → find_first (has_id id) (select (λ o. not (o.id == k)) os)
      ≡ (if k == id then none else find_first (has_id id) os)
find_first-select k id [] = ground arith
find_first-select k id (o ∷ os) =
    ground (arith, ==-iff o.id k, ==-iff o.id id, ==-iff k id, find_first-select k id os)

-- Every event acts on the listed operations as it does on the abstract view: a start adds its id, a
-- message, a failure or a toggle changes only the operation of its id, a dismissal takes only its id
-- away, and a close of a socket changes nothing.
pub handle-view :
    (e : Event) (s : Operations) (id : String) → view (handle e s) id ≡ view_step e (view s) id
unfolding handle get_operation new_operation patch_if
handle-view (start r now later true) s id = refl
handle-view (start r now later false) s id =
    let k = operation_id r now in
    let others = find_first-map k id fail s.operations (λ _. refl) in
    elim (Bool-cases (k == id)) [
      | inl same ↦ rw (==-refl k, same) refl
      | inr different ↦ rw (==-refl k, different) (others ∙ rw different refl)
    ]
handle-view (message k m) s id = find_first-map k id (receive m) s.operations (receive-id m)
handle-view (failed k) s id = find_first-map k id fail s.operations (λ _. refl)
handle-view (closed k) s id = refl
handle-view (dismissed k) s id = find_first-select k id s.operations
handle-view (toggled k) s id = find_first-map k id toggle s.operations (λ _. refl)
