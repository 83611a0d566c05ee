-- ===== src/Catalog/Counts.antt =====
-- The numbers beside the providers and the categories.
use wolkvorm.Base.{
  ℕ, ◌+◌, List, [], ◌∷◌, true, false, ◌==◌, ==-iff, text_eq, if◌then◌else◌, Bool-cases, select,
  select-cong, select_id, select_none, All, All-imp, All-select, length, get, put, get-put, Text,
  codes, ◌≡◌, ◌≢◌, refl, sym, ◌∙◌, ap, inl, inr, arith,
}
use wolkvorm.Text.{is_nonempty}
use wolkvorm.Catalog.{
  Provider, Schema, Catalog, set_provider, active_provider, provider_schemas, matches_search,
  matches_category, filtered, count_of, or_zero, tally, category_counts, provider_counts,
}

count_of-put :
    (k j : Text) (n : ℕ) (counts : List (Text × ℕ))
    → count_of j (put k n counts) ≡ (if k == j then n else count_of j counts)
unfolding count_of
count_of-put k j n counts = elim (Bool-cases (k == j)) [
  | inl same ↦ rw (get-put k j n counts, same) refl
  | inr other ↦ rw (get-put k j n counts, other) refl
]

count_of-tally :
    (key : Schema → Text) (k : Text) (xs : List Schema) (counts : List (Text × ℕ))
    → count_of k (tally key xs counts) ≡ count_of k counts + length (select (λ s. key s == k) xs)
unfolding tally
count_of-tally key k [] counts = omega arith
count_of-tally key k (s ∷ xs) counts =
    let before = count_of (key s) counts + 1 in
    let rest = count_of-tally key k xs (put (key s) before counts) in
    ground (arith, rest, count_of-put (key s) k before counts, ==-iff (key s) k)

provider_schemas-All :
    (c : Catalog)
    → All (λ s. s.category ≢ codes "all") c.schemas
    → All (λ s. s.category ≢ codes "all") (provider_schemas c)
unfolding provider_schemas
provider_schemas-All c h = All-select _ (λ s. s.provider == active_provider c) c.schemas h

-- With no search the cards are the types of the provider that have the category.
pub filtered-no_search :
    (to_lower : Text → Text) (c : Catalog) (k : Text)
    → filtered to_lower (record c { search = []; active_category = k })
      ≡ select (matches_category k) (provider_schemas c)
unfolding filtered provider_schemas active_provider matches_search
filtered-no_search to_lower c k = refl

every_total :
    (xs : List Schema)
    → All (λ s. s.category ≢ codes "all") xs
    → count_of (codes "all") ((codes "all", length xs) ∷ [])
        + length (select (λ s. s.category == codes "all") xs)
      ≡ length (select (matches_category (codes "all")) xs)
unfolding count_of or_zero get matches_category
every_total xs h =
    let differs =
      All-imp (λ s. s.category ≢ codes "all") (λ s. (s.category == codes "all") ≡ false)
        (λ s ne. ground (arith, ne, ==-iff s.category (codes "all"))) xs h in
    let kept = All-imp _ (λ s. matches_category (codes "all") s ≡ true) (λ s ne. refl) xs h in
    rw
      (
        select_none (λ s. s.category == codes "all") xs differs,
        select_id (matches_category (codes "all")) xs kept,
      )
      (omega arith)

one_total :
    (k : Text) (xs : List Schema) (n : ℕ)
    → (k == codes "all") ≡ false
    → count_of k ((codes "all", n) ∷ []) + length (select (λ s. s.category == k) xs)
      ≡ length (select (matches_category k) xs)
unfolding count_of or_zero get matches_category
one_total k xs n other =
    let same = select-cong (λ s. s.category == k) (matches_category k) (λ s. rw other refl) xs in
    let stored : count_of k ((codes "all", n) ∷ []) ≡ 0 =
      ground (arith, other, ==-iff k (codes "all"), ==-iff (codes "all") k) in
    rw (stored, same) (omega arith)

category_total :
    (k : Text) (xs : List Schema)
    → All (λ s. s.category ≢ codes "all") xs
    → count_of k ((codes "all", length xs) ∷ []) + length (select (λ s. s.category == k) xs)
      ≡ length (select (matches_category k) xs)
category_total k xs h = elim (Bool-cases (k == codes "all")) [
  | inl every ↦ rw ((==-iff k (codes "all")).0 every) (every_total xs h)
  | inr one ↦ one_total k xs (length xs) one
]

pub category_counts-one :
    (c : Catalog) (k : Text)
    → (k == codes "all") ≡ false
    → count_of k (category_counts c) ≡ length (select (matches_category k) (provider_schemas c))
unfolding category_counts
category_counts-one c k other =
    let xs = provider_schemas c in
    count_of-tally (λ s. s.category) k xs ((codes "all", length xs) ∷ [])
    ∙ one_total k xs (length xs) other

-- If no type has the category "all", the number beside a category is the number of cards that the
-- category shows while nothing is searched for.
pub category_counts-filtered :
    (to_lower : Text → Text) (c : Catalog) (k : Text)
    → All (λ s. s.category ≢ codes "all") c.schemas
    → count_of k (category_counts c)
      ≡ length (filtered to_lower (record c { search = []; active_category = k }))
unfolding category_counts
category_counts-filtered to_lower c k h =
    let xs = provider_schemas c in
    let counted = count_of-tally (λ s. s.category) k xs ((codes "all", length xs) ∷ []) in
    counted
    ∙ category_total k xs (provider_schemas-All c h)
    ∙ sym (ap length (filtered-no_search to_lower c k))

-- The number beside a provider is the number of types that the page lists once the provider is
-- chosen.
pub provider_counts-provider_schemas :
    (c : Catalog) (p : Provider)
    → is_nonempty p.id ≡ true
    → count_of p.id (provider_counts c) ≡ length (provider_schemas (set_provider p.id c))
unfolding provider_counts provider_schemas active_provider set_provider count_of or_zero get
provider_counts-provider_schemas c p h =
    let counted = count_of-tally (λ s. s.provider) p.id c.schemas [] in rw h (counted ∙ omega arith)
