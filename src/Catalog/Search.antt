-- ===== src/Catalog/Search.antt =====
-- What can be reached on the page, and when it says that nothing matches.
use wolkvorm.Base.{
  ◌<◌, List, [], ◌∷◌, Option, some, Bool, true, false, not, ◌||◌, ◌==◌, ==-iff, text_eq,
  if◌then◌else◌, Bool-cases, select, length, ltb, Memᴰ, Memᴰ-select, Text, codes, ◌≡◌, ◌≢◌, ◌⊎◌,
  refl, inl, inr, arith,
}
use wolkvorm.Catalog.{
  Schema, Catalog, open_catalog, Answer, listed, other_value, failed, end_load, set_provider,
  active_provider, provider_schemas, matches_search, matches_category, filtered, count_of, cards_or,
  category_counts, categories, shown_categories, Body, loading_notice, no_matches, body,
}
use wolkvorm.Catalog.Counts.{category_counts-one}

-- A click on the button of a category.
unfoldable pub choose_category : Text → Catalog → Catalog
choose_category k c = record c { active_category = k }

unfoldable pub set_search : Text → Catalog → Catalog
set_search t c = record c { search = t }

-- A link of the navigation bar to a provider, while the page is on the screen.
unfoldable pub follow_link : Text → Catalog → Catalog
follow_link p c = record c { provider = some p }

-- The types are asked for once. A category is chosen by its button, so it is one that is shown.
-- What changes the provider alone is not among the steps: the links of the navigation bar, and the
-- browser's own back and forward.
pub data Step : Catalog → Catalog → Type 0 where
  load : (c : Catalog) (a : Answer) → c.loading ≡ true → Step c (end_load a c)
  switch : (c : Catalog) (p : Text) → Step c (set_provider p c)
  write : (c : Catalog) (t : Text) → Step c (set_search t c)
  choose : (c : Catalog) (k : Text) → Memᴰ k (shown_categories c) → Step c (choose_category k c)

pub data Reach : Catalog → Type 0 where
  start : (p : Option Text) → Reach (open_catalog p)
  next : {c d : Catalog} → Reach c → Step c d → Reach d

-- A category other than "all" is active only if a type of the provider has it; before the types are
-- there, none is.
record IsShown (c : Catalog) : Type 0 where
  active : (c.active_category ≡ codes "all") ⊎ (0 < count_of c.active_category (category_counts c))
  fresh : c.loading ≡ true → (c.active_category ≡ codes "all") × (c.schemas ≡ [])

shown_category :
    (k : Text) (c : Catalog)
    → Memᴰ k (shown_categories c)
    → (k ≡ codes "all") ⊎ (0 < count_of k (category_counts c))
unfolding shown_categories
shown_category k c h =
    let (listed_there, passes) =
      Memᴰ-select (λ j. j == codes "all" || ltb 0 (count_of j (category_counts c))) k categories
        h in
    ground (arith, passes, ==-iff k (codes "all"))

provider_schemas-nil : (c : Catalog) → c.schemas ≡ [] → provider_schemas c ≡ []
unfolding provider_schemas
provider_schemas-nil c h = rw h refl

-- A category that is counted has cards.
counted :
    (c : Catalog) (k : Text)
    → (k ≡ codes "all") ⊎ (0 < count_of k (category_counts c))
    → (k ≡ codes "all") ⊎ (0 < length (select (matches_category k) (provider_schemas c)))
counted c k (inl every) = inl every
counted c k (inr some_there) = elim (Bool-cases (k == codes "all")) [
  | inl every ↦ inl ((==-iff k (codes "all")).0 every)
  | inr other ↦ inr (rw (← category_counts-one c k other) some_there)
]

unlisted :
    (c : Catalog) (k : Text)
    → c.schemas ≡ []
    → (k ≡ codes "all") ⊎ (0 < length (select (matches_category k) (provider_schemas c)))
    → k ≡ codes "all"
unlisted c k e (inl every) = every
unlisted c k e (inr there) = absurd (omega (arith, rw (provider_schemas-nil c e) at there))

Step-IsShown : {c d : Catalog} → Step c d → IsShown c → IsShown d
unfolding end_load set_provider set_search choose_category category_counts provider_schemas
    active_provider
Step-IsShown (load c (listed xs) now) h = record { active = inl (h.fresh now).0; fresh = λ e. cc }
Step-IsShown (load c other_value now) h = record { active = inl (h.fresh now).0; fresh = λ e. cc }
Step-IsShown (load c failed now) h = record { active = inl (h.fresh now).0; fresh = λ e. cc }
Step-IsShown (switch c p) h = record { active = inl refl; fresh = λ e. (refl, (h.fresh e).1) }
Step-IsShown (write c t) h = record { active = h.active; fresh = h.fresh }
Step-IsShown (choose c k there) h = record {
  active = shown_category k c there;
  fresh = λ e. (unlisted c k (h.fresh e).1 (counted c k (shown_category k c there)), (h.fresh e).1);
}

cards_or-ne :
    (empty : Bool) (xs : List Schema)
    → (empty ≡ true) ⊎ (0 < length xs)
    → cards_or empty xs ≢ no_matches
unfolding cards_or
cards_or-ne true [] h = λ e. cc
cards_or-ne false [] h = λ e. ground arith
cards_or-ne empty (s ∷ xs) h = λ e. cc

Reach-IsShown : {c : Catalog} → Reach c → IsShown c
unfolding open_catalog
Reach-IsShown (start p) = record { active = inl refl; fresh = λ e. (refl, refl) }
Reach-IsShown (next r s) = Step-IsShown s (Reach-IsShown r)

filtered_all :
    (to_lower : Text → Text) (c : Catalog)
    → c.search ≡ []
    → filtered to_lower c ≡ select (matches_category c.active_category) (provider_schemas c)
unfolding filtered matches_search
filtered_all to_lower c e = rw e refl

-- With nothing searched for, the page has no types of the provider or shows some.
filled :
    (k : Text) (xs : List Schema)
    → (k ≡ codes "all") ⊎ (0 < length (select (matches_category k) xs))
    → (not (ltb 0 (length xs)) ≡ true) ⊎ (0 < length (select (matches_category k) xs))
unfolding matches_category
filled k [] h = inl refl
filled k (s ∷ xs) (inl every) = inr (rw every (omega arith))
filled k (s ∷ xs) (inr there) = inr there

loading-ne : (b : Bool) (x : Body) → x ≢ no_matches → (if b then loading_notice else x) ≢ no_matches
loading-ne true x h = λ e. cc
loading-ne false x h = h

-- On every path from the opening of the page (the answer with the types, clicks on the tabs of the
-- providers,
-- searches, clicks on the categories that have a button) the notice that nothing matches is not
-- shown while the search is empty: the page then shows that types are loading, that the provider has
-- none, or cards.
pub Reach-body :
    (to_lower : Text → Text) (c : Catalog) → Reach c → c.search ≡ [] → body to_lower c ≢ no_matches
unfolding body
Reach-body to_lower c r e =
    let k = c.active_category in
    let there = filled k (provider_schemas c) (counted c k (Reach-IsShown r).active) in
    let shown =
      cards_or-ne (not (ltb 0 (length (provider_schemas c)))) (filtered to_lower c)
        (rw (filtered_all to_lower c e) there) in
    loading-ne c.loading _ shown
