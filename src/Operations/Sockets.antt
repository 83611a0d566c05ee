-- ===== src/Operations/Sockets.antt =====
-- The sockets of the listed operations.
use Prim.Native.String.{String}
use wolkvorm.Base.{
  List, [], ◌∷◌, map, Bool, true, false, not, ◌==◌, ==-iff, string_eq, any, select, ◌≡◌, ◌≢◌, refl,
  ap, ◌∙◌, arith, ◌&&◌,
}
use wolkvorm.Base.Sets.{has, has-add, has-delete}
use wolkvorm.Operations.{
  Operation, Operations, patch_if, new_operation, operation_id, fail, receive, toggle, Event, start,
  message, failed, closed, dismissed, toggled, handle, run, shows_dismiss,
}
use wolkvorm.Operations.Lookup.{receive-id}

abbrev lists : String → List Operation → Bool
lists id os = any (λ o. o.id == id) os

-- Every id that has a socket is the id of a listed operation.
abbrev pub IsTracked : Operations → Type 0
IsTracked s = (id : String) → has id s.ws_refs ≡ true → lists id s.operations ≡ true

lists-map :
    (k id : String) (f : Operation → Operation) (os : List Operation)
    → ((o : Operation) → (f o).id ≡ o.id)
    → lists id (map (patch_if k f) os) ≡ lists id os
unfolding patch_if
lists-map k id f [] h = refl
lists-map k id f (o ∷ os) h = ground (arith, h o, lists-map k id f os h)

lists-select :
    (k id : String) (os : List Operation)
    → lists id (select (λ o. not (o.id == k)) os) ≡ (not (k == id) && lists id os)
lists-select k id [] = ground arith
lists-select k id (o ∷ os) =
    ground (arith, ==-iff o.id k, ==-iff o.id id, ==-iff k id, lists-select k id os)

handle-IsTracked : (e : Event) (s : Operations) → IsTracked s → IsTracked (handle e s)
unfolding handle new_operation
handle-IsTracked (start r now later true) s h id q =
    ground (arith, has-add id (operation_id r now) s.ws_refs, h id, ==-iff (operation_id r now) id)
handle-IsTracked (start r now later false) s h id q =
    lists-map (operation_id r now) id fail (new_operation r now later ∷ s.operations) (λ _. refl)
    ∙ ground (arith, h id q)
handle-IsTracked (message k m) s h id q =
    lists-map k id (receive m) s.operations (receive-id m) ∙ h id q
handle-IsTracked (failed k) s h id q = lists-map k id fail s.operations (λ _. refl) ∙ h id q
handle-IsTracked (closed k) s h id q = ground (arith, has-delete id k s.ws_refs, h id)
handle-IsTracked (dismissed k) s h id q =
    ground (arith, lists-select k id s.operations, has-delete id k s.ws_refs, h id, ==-iff k id)
handle-IsTracked (toggled k) s h id q = lists-map k id toggle s.operations (λ _. refl) ∙ h id q

-- Whatever happens, no socket is kept for an operation that is no longer listed.
pub run-IsTracked : (es : List Event) (s : Operations) → IsTracked s → IsTracked (run es s)
unfolding run
run-IsTracked [] s h = h
run-IsTracked (e ∷ es) s h = run-IsTracked es (handle e s) (handle-IsTracked e s h)

-- An event that a browser can still deliver when the socket of `id` has closed: none of its own, no
-- start under the same id, and no click on a dismiss button that is not shown.
abbrev pub IsPossible : String → Operations → Event → Type 0
IsPossible id s (start r now later connected) = operation_id r now ≢ id
IsPossible id s (message k m) = k ≢ id
IsPossible id s (failed k) = k ≢ id
IsPossible id s (closed k) = Unit
IsPossible id s (dismissed k) = any (λ o. o.id == k && shows_dismiss o) s.operations ≡ true
IsPossible id s (toggled k) = Unit

abbrev pub ArePossible : String → Operations → List Event → Type 0
ArePossible id s [] = Unit
ArePossible id s (e ∷ es) = IsPossible id s e × ArePossible id (handle e s) es

abbrev ended : String → List Operation → Bool
ended id os = any (λ o. o.id == id && shows_dismiss o) os

-- There is an operation of this id, and every such operation runs.
abbrev pub IsRunning : String → Operations → Type 0
IsRunning id s =
    (any (λ o. o.id == id) s.operations ≡ true)
    × (any (λ o. o.id == id && shows_dismiss o) s.operations ≡ false)

module _ (k id : String) (f : Operation → Operation)
    (same_id : (o : Operation) → (f o).id ≡ o.id) where
  ended-map_other : k ≢ id → (os : List Operation) → ended id (map (patch_if k f) os) ≡ ended id os
  unfolding patch_if shows_dismiss
  ended-map_other ne [] = refl
  ended-map_other ne (o ∷ os) =
      ground (arith, same_id o, ==-iff o.id k, ==-iff o.id id, ended-map_other ne os)

  ended-map_status :
      ((o : Operation) → (f o).status ≡ o.status)
      → (os : List Operation) → ended id (map (patch_if k f) os) ≡ ended id os
  unfolding patch_if shows_dismiss
  ended-map_status st [] = refl
  ended-map_status st (o ∷ os) = ground (arith, same_id o, st o, ended-map_status st os)

ended-select :
    (k id : String) (os : List Operation)
    → k ≢ id
    → ended id (select (λ o. not (o.id == k)) os) ≡ ended id os
unfolding shows_dismiss
ended-select k id [] ne = refl
ended-select k id (o ∷ os) ne =
    ground (arith, ==-iff o.id k, ==-iff o.id id, ended-select k id os ne)

handle-IsRunning :
    (id : String) (e : Event) (s : Operations)
    → IsPossible id s e
    → IsRunning id s
    → IsRunning id (handle e s)
unfolding handle new_operation
handle-IsRunning id (start r now later true) s p (l, d) =
    (ground (arith, ==-iff (operation_id r now) id), ground (arith, ==-iff (operation_id r now) id))
handle-IsRunning id (start r now later false) s p (l, d) =
    let os = new_operation r now later ∷ s.operations in
    (
      lists-map (operation_id r now) id fail os (λ _. refl) ∙ ground (arith, l),
      ended-map_other (operation_id r now) id fail (λ _. refl) p os
          ∙ ground (arith, d, ==-iff (operation_id r now) id),
    )
handle-IsRunning id (message k m) s p (l, d) = (
  lists-map k id (receive m) s.operations (receive-id m) ∙ l,
  ended-map_other k id (receive m) (receive-id m) p s.operations ∙ d,
)
handle-IsRunning id (failed k) s p (l, d) = (
  lists-map k id fail s.operations (λ _. refl) ∙ l,
  ended-map_other k id fail (λ _. refl) p s.operations ∙ d,
)
handle-IsRunning id (closed k) s p h = h
handle-IsRunning id (dismissed k) s p (l, d) =
    let other : k ≢ id = λ e. cc (ap (λ x. ended x s.operations) e) in
    (
      lists-select k id s.operations ∙ ground (arith, l, ==-iff k id),
      ended-select k id s.operations other ∙ d,
    )
handle-IsRunning id (toggled k) s p (l, d) = (
  lists-map k id toggle s.operations (λ _. refl) ∙ l,
  ended-map_status k id toggle (λ _. refl) (λ _. refl) s.operations ∙ d,
)

-- When the socket of a running operation has closed with no `done`, no `approval_required` and no
-- error, the operation is listed as running after any events that can still occur, so its dismiss
-- button never appears.
pub run-IsRunning :
    (id : String) (es : List Event) (s : Operations)
    → IsRunning id s
    → ArePossible id (handle (closed id) s) es
    → IsRunning id (run es (handle (closed id) s))
unfolding run handle
run-IsRunning id [] s h p = h
run-IsRunning id (e ∷ es) s h p =
    go es (handle e (handle (closed id) s))
      (handle-IsRunning id e (handle (closed id) s) p.0 (handle-IsRunning id (closed id) s tt h))
      p.1
  where
    go :
        (es : List Event) (s : Operations)
        → IsRunning id s
        → ArePossible id s es
        → IsRunning id (run es s)
    go [] s h p = h
    go (e ∷ es) s h p = go es (handle e s) (handle-IsRunning id e s p.0 h) p.1
