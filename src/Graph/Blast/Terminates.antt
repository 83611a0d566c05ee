-- ===== src/Graph/Blast/Terminates.antt =====
-- The recursion of `getBlastRadius` ends by itself: its result does not depend on the fuel.
use Prim.Native.String.{String}
use wolkvorm.Base.{
  ℕ, zero, suc, ◌+◌, List, [], ◌∷◌, Option, none, some, ◌&&◌, not, ◌==◌, string_eq, length, ◌≡◌,
  ◌≢◌, refl, sym, ◌∙◌, inl, inr, Bool-cases, arith,
}
use wolkvorm.Base.Sets.{has, add}
use wolkvorm.Graph.{Edge}
use wolkvorm.Graph.Blast.{◌>>=◌, follow, visit, find_dependents, get_blast_radius}
use wolkvorm.Graph.Blast.Correct.{get_blast_radius-DependsOn}

abbrev Search : Type 0
Search = String → List String → Option (List String)

-- `g` gives every result that `f` gives.
abbrev Extends : Search → Search → Type 0
Extends f g = (id : String) (s r : List String) → f id s ≡ some r → g id s ≡ some r

bind-some :
    (o : Option (List String)) (k : List String → Option (List String)) (r : List String)
    → (o >>= k) ≡ some r
    → (a : List String) × (o ≡ some a) × (k a ≡ some r)
bind-some none k r e = cc
bind-some (some a) k r e = (a, refl, e)

follow-Extends : (f g : Search) → Extends f g → (e : Edge) → Extends (follow f e) (follow g e)
unfolding follow
follow-Extends f g h e id s r k = elim (Bool-cases (e.to == id && not (has e.from s))) [
  | inl next ↦ rw next (h e.from (add e.from s) r (rw next at k))
  | inr skip ↦ rw skip (rw skip at k)
]

visit-Extends : (f g : Search) → Extends f g → (es : List Edge) → Extends (visit f es) (visit g es)
unfolding visit
visit-Extends f g h [] id s r k = k
visit-Extends f g h (e ∷ es) id s r k =
    let (a, first, rest) = bind-some (follow f e id s) (visit f es id) r k in
    rw (follow-Extends f g h e id s a first) (visit-Extends f g h es id a r rest)

module _ (edges : List Edge) where
  find_dependents-suc :
      (fuel : ℕ) → Extends (find_dependents edges fuel) (find_dependents edges (suc fuel))
  unfolding find_dependents
  find_dependents-suc zero id s r k = cc
  find_dependents-suc (suc fuel) id s r k =
      visit-Extends (find_dependents edges fuel) (find_dependents edges (suc fuel))
        (find_dependents-suc fuel) edges id s r k

  find_dependents-Extends :
      (fuel more : ℕ) → Extends (find_dependents edges fuel) (find_dependents edges (more + fuel))
  find_dependents-Extends fuel zero id s r k = let same : 0 + fuel ≡ fuel = omega arith in rw same k
  find_dependents-Extends fuel (suc more) id s r k =
      let same : suc more + fuel ≡ suc (more + fuel) = omega arith in
      rw same
        (find_dependents-suc (more + fuel) id s r (find_dependents-Extends fuel more id s r k))

-- The recursion of `getBlastRadius` ends for every list of edges, cyclic ones included: with one unit
-- of fuel more than there are edges it has a result, and with any more fuel it has the same one.
pub get_blast_radius-find_dependents :
    (edges : List Edge) (id : String) (more : ℕ)
    → (find_dependents edges (more + suc (length edges)) id [] ≡ get_blast_radius edges id)
      × (get_blast_radius edges id ≢ none)
unfolding get_blast_radius
get_blast_radius-find_dependents edges id more =
    let (s, found, _) = get_blast_radius-DependsOn edges id in
    (
      find_dependents-Extends edges (suc (length edges)) more id [] s found ∙ sym found,
      λ e. cc (sym found ∙ e),
    )
