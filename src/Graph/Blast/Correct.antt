-- ===== src/Graph/Blast/Correct.antt =====
-- `getBlastRadius` ends, and returns the transitive dependents of the node.
use mathlib.Core.List.Memᴰ
use Prim.Native.String.{String}
use wolkvorm.Base.{
  ℕ, zero, suc, ◌+◌, ◌≤◌, ◌<◌, List, [], ◌∷◌, Option, some, ◌&&◌, not, ◌==◌, ==-iff, string_eq,
  if◌then◌else◌, length, Memᴰ, Memᴰ-cons, ◌≡◌, refl, sym, ◌↔◌, ◌⊎◌, inl, inr, ⊎_elim, true, false,
  Bool-cases, arith,
}
use wolkvorm.Base.Sets.{has, add, has-add}
use wolkvorm.Graph.{Edge}
use wolkvorm.Graph.Blast.{follow, visit, find_dependents, get_blast_radius}

-- `x` depends on `id`, through one edge or more.
pub data DependsOn (edges : List Edge) (id : String) : String → Type 0 where
  direct : {x : String} (e : Edge) → Memᴰ e edges → e.from ≡ x → e.to ≡ id → DependsOn edges id x
  through :
      {x y : String} (e : Edge)
      → Memᴰ e edges
      → e.from ≡ x
      → e.to ≡ y
      → DependsOn edges id y
      → DependsOn edges id x

-- The edges that could still be followed.
fresh : List String → List Edge → ℕ
fresh s [] = 0
fresh s (e ∷ es) = (if has e.from s then 0 else 1) + fresh s es

fresh-le :
    (s t : List String) (es : List Edge)
    → ((x : String) → has x s ≡ true → has x t ≡ true)
    → fresh t es ≤ fresh s es
unfolding fresh
fresh-le s t [] h = omega arith
fresh-le s t (e ∷ es) h = ground (arith, h e.from, fresh-le s t es h)

fresh-le-length : (s : List String) (es : List Edge) → fresh s es ≤ length es
unfolding fresh
fresh-le-length s [] = omega arith
fresh-le-length s (e ∷ es) = ground (arith, fresh-le-length s es)

fresh-lt :
    (s t : List String) (e : Edge) (es : List Edge)
    → ((x : String) → has x s ≡ true → has x t ≡ true)
    → Memᴰ e es
    → has e.from s ≡ false
    → has e.from t ≡ true
    → fresh t es < fresh s es
unfolding fresh
fresh-lt s t e [] h m p q = absurd (Memᴰ.not-nil m)
fresh-lt s t e (d ∷ es) h m p q = elim ((Memᴰ-cons e d es).0 m) [
  | inl same ↦ rw (← same) (ground (arith, fresh-le s t es h))
  | inr later ↦ ground (arith, h d.from, fresh-lt s t e es h later p q)
]

module _ (edges : List Edge) where
  trans : {id y x : String} → DependsOn edges y x → DependsOn edges id y → DependsOn edges id x
  trans (direct e m f t) d = through e m f t d
  trans (through e m f t d') d = through e m f t (trans d' d)

  -- What a call on `id`, as far as the edges `es`, does to the set.
  record Found (es : List Edge) (id : String) (s s' : List String) : Type 0 where
    grows : (x : String) → has x s ≡ true → has x s' ≡ true
    sound : (x : String) → has x s' ≡ true → (has x s ≡ true) ⊎ DependsOn edges id x
    into : (e : Edge) → Memᴰ e es → e.to ≡ id → has e.from s' ≡ true
    closed :
        (e : Edge)
        → Memᴰ e edges
        → has e.to s' ≡ true
        → (has e.to s ≡ true) ⊎ (has e.from s' ≡ true)

  Found-nil : (id : String) (s : List String) → Found [] id s s
  Found-nil id s = record {
    grows = λ x h. h;
    sound = λ x h. inl h;
    into = λ e m _. absurd (Memᴰ.not-nil m);
    closed = λ e m h. inl h;
  }

  -- The edge leads to `id`, from a node that is new to the set.
  Found-new :
      (e : Edge) (es : List Edge) (id : String) (s s₁ s' : List String)
      → Memᴰ e edges
      → e.to ≡ id
      → Found edges e.from (add e.from s) s₁
      → Found es id s₁ s'
      → Found (e ∷ es) id s s'
  Found-new e es id s s₁ s' m t first rest = record {
    grows = λ x h. rest.grows x (first.grows x ((has-add x e.from s).1 (inl h)));
    sound = λ x h. elim (rest.sound x h) [
      | inr d ↦ inr d
      | inl h₁ ↦ elim (first.sound x h₁) [
        | inr d ↦ inr (trans d (direct e m refl t))
        | inl h₀ ↦ ⊎_elim inl (λ same. inr (direct e m (sym same) t)) ((has-add x e.from s).0 h₀)
      ]
    ];
    into = λ d k to_id. elim ((Memᴰ-cons d e es).0 k) [
      | inl same ↦
          rw same (rest.grows e.from (first.grows e.from ((has-add e.from e.from s).1 (inr refl))))
      | inr later ↦ rest.into d later to_id
    ];
    closed = λ d k h. elim (rest.closed d k h) [
      | inr r ↦ inr r
      | inl h₁ ↦ elim (first.closed d k h₁) [
        | inr r ↦ inr (rest.grows d.from r)
        | inl h₀ ↦
            ⊎_elim inl (λ same. inr (rest.grows d.from (first.into d k same)))
              ((has-add d.to e.from s).0 h₀)
      ]
    ];
  }

  -- The edge leads elsewhere, or from a node of the set.
  Found-old :
      (e : Edge) (es : List Edge) (id : String) (s s' : List String)
      → (e.to ≡ id → has e.from s ≡ true)
      → Found es id s s'
      → Found (e ∷ es) id s s'
  Found-old e es id s s' old rest = record {
    grows = rest.grows;
    sound = rest.sound;
    into = λ d k to_id. elim ((Memᴰ-cons d e es).0 k) [
      | inl same ↦ rw same (rest.grows e.from (old (rw same at to_id)))
      | inr later ↦ rest.into d later to_id
    ];
    closed = rest.closed;
  }

  Ends : (String → List String → Option (List String)) → ℕ → Type 0
  Ends again fuel =
      (id : String) (s : List String)
      → fresh s edges < fuel
      → (s' : List String) × (again id s ≡ some s') × Found edges id s s'

  visit-Ends :
      (again : String → List String → Option (List String)) (fuel : ℕ)
      → Ends again fuel
      → (es : List Edge) (id : String) (s : List String) → ((e : Edge) → Memᴰ e es → Memᴰ e edges)
      → fresh s edges ≤ fuel
      → (s' : List String) × (visit again es id s ≡ some s') × Found es id s s'
  unfolding visit follow Ends
  visit-Ends again fuel ends [] id s sub h = (s, refl, Found-nil id s)
  visit-Ends again fuel ends (e ∷ es) id s sub h =
      elim (Bool-cases (e.to == id && not (has e.from s))) [
        | inr skip ↦
            let (s', eq, found) = visit-Ends again fuel ends es id s later h in
            (s', rw skip eq, Found-old e es id s s' (ground (arith, ==-iff e.to id)) found)
        | inl new ↦
            let to_id : e.to ≡ id = ground (arith, ==-iff e.to id) in
            let unseen : has e.from s ≡ false = ground arith in
            let s₀ = add e.from s in
            let less =
              fresh-lt s s₀ e edges (λ x k. (has-add x e.from s).1 (inl k)) here unseen
                ((has-add e.from e.from s).1 (inr refl)) in
            let (s₁, eq₁, found₁) = ends e.from s₀ (omega arith) in
            let kept = fresh-le s₀ s₁ edges found₁.grows in
            let (s', eq, found) = visit-Ends again fuel ends es id s₁ later (omega arith) in
            (s', rw (new, eq₁) eq, Found-new e es id s s₁ s' here to_id found₁ found)
      ]
    where
      here : Memᴰ e edges
      here = sub e (Memᴰ.head refl)

      later : (d : Edge) → Memᴰ d es → Memᴰ d edges
      later d m = sub d (Memᴰ.tail m)

  find_dependents-Ends : (fuel : ℕ) → Ends (find_dependents edges fuel) fuel
  unfolding find_dependents Ends
  find_dependents-Ends zero id s h = absurd (omega arith)
  find_dependents-Ends (suc fuel) id s h =
      visit-Ends (find_dependents edges fuel) fuel (find_dependents-Ends fuel) edges id s (λ e m. m)
        (omega arith)

  complete :
      {id x : String} {s : List String}
      → Found edges id [] s
      → DependsOn edges id x
      → has x s ≡ true
  unfolding has
  complete found (direct e m f t) = rw f at (found.into e m t)
  complete found (through e m f t d) = elim (found.closed e m (rw t (complete found d))) [
    | inl no_start ↦ cc
    | inr h ↦ rw f at h
  ]

-- For every list of edges, cyclic ones included, `getBlastRadius` returns within its fuel, and the
-- set that it returns holds exactly the nodes that depend on the given node through one edge or more.
pub get_blast_radius-DependsOn :
    (edges : List Edge) (id : String)
    → (s : List String) × (get_blast_radius edges id ≡ some s)
      × ((x : String) → (has x s ≡ true) ↔ DependsOn edges id x)
unfolding get_blast_radius Ends has
get_blast_radius-DependsOn edges id =
    let enough = fresh-le-length [] edges in
    let (s, eq, found) = find_dependents-Ends edges (suc (length edges)) id [] (omega arith) in
    (s, eq, λ x. (λ h. ⊎_elim (λ no_start. cc) (λ d. d) (found.sound x h), complete edges found))
