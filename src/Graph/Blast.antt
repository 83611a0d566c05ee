-- ===== src/Graph/Blast.antt =====
-- `getBlastRadius` of frontend/src/pages/GraphPage.js: a depth-first search against the edges that
-- shares one `Set` among all its calls. The recursion takes fuel, and `none` says that it ran out.
pub mod Correct
pub mod Terminates
use Prim.Native.String.{String}
use wolkvorm.Base.{
  ℕ, zero, suc, List, [], ◌∷◌, Option, none, some, ◌&&◌, not, ◌==◌, string_eq, if◌then◌else◌,
  length,
}
use wolkvorm.Base.Sets.{has, add}
use wolkvorm.Graph.{Edge}

infixl 5 ◌>>=◌
abbrev pub ◌>>=◌ {ℓ κ} : {A : Type ℓ} {B : Type κ} → Option A → (A → Option B) → Option B
none >>= k = none
some a >>= k = k a

-- The body of the `forEach` callback; `again` is the recursive call of `findDependents`.
follow :
    (String → List String → Option (List String))
    → Edge
    → String
    → List String
    → Option (List String)
follow again e id affected =
    if e.to == id && not (has e.from affected)
    then again e.from (add e.from affected)
    else some affected

-- The `forEach` loop.
visit :
    (String → List String → Option (List String))
    → List Edge
    → String
    → List String
    → Option (List String)
visit again [] id affected = some affected
visit again (e ∷ es) id affected = follow again e id affected >>= visit again es id

module _ (edges : List Edge) where
  pub find_dependents : ℕ → String → List String → Option (List String)
  find_dependents zero id affected = none
  find_dependents (suc fuel) id affected = visit (find_dependents fuel) edges id affected

  -- No call nests deeper than there are edges.
  unfoldable pub get_blast_radius : String → Option (List String)
  unfolding find_dependents visit follow
  get_blast_radius id = find_dependents (suc (length edges)) id []
