-- ===== src/Catalog.antt =====
-- frontend/src/pages/HomePage.js: the catalog of resource types, one provider at a time, with its
-- search, its categories and the numbers beside them. The lower case of a text is a parameter: the
-- tables of Unicode are no part of the repository.
pub mod Counts
pub mod Search
mod Tests
use wolkvorm.Base.{
  ℕ, ◌+◌, List, [], ◌∷◌, Option, none, some, Bool, true, false, not, ◌&&◌, ◌||◌, ◌==◌, text_eq,
  if◌then◌else◌, select, find_first, length, ltb, map, get, put, Text, codes,
}
use wolkvorm.Text.{includes, is_nonempty}

pub record Provider : Type 0 where
  pub id : Text
  pub label : Text

aws : Provider
aws = record { id = codes "aws"; label = codes "AWS" }

-- PROVIDERS, without colors and icons
unfoldable pub providers : List Provider
unfolding aws
providers =
    aws
    ∷ record { id = codes "azurerm"; label = codes "Azure" }
    ∷ record { id = codes "google"; label = codes "GCP" }
    ∷ record { id = codes "huaweicloud"; label = codes "Huawei" }
    ∷ record { id = codes "digitalocean"; label = codes "DigitalOcean" }
    ∷ []

-- The ids of CATEGORIES; each label is its id with a capital.
unfoldable pub categories : List Text
categories =
    codes "all"
    ∷ codes "compute"
    ∷ codes "networking"
    ∷ codes "database"
    ∷ codes "storage"
    ∷ codes "containers"
    ∷ codes "messaging"
    ∷ codes "security"
    ∷ []

-- What the page reads of a resource type.
pub record Schema : Type 0 where
  pub id : Text
  pub name : Text
  pub description : Text
  pub category : Text
  pub provider : Text

-- The state of the page; `provider` is the parameter of that name in its address.
pub record Catalog : Type 0 where
  pub schemas : List Schema
  pub loading : Bool
  pub search : Text
  pub active_category : Text
  pub provider : Option Text

unfoldable pub open_catalog : Option Text → Catalog
open_catalog p = record {
  schemas = [];
  loading = true;
  search = [];
  active_category = codes "all";
  provider = p;
}

-- `searchParams.get("provider") || "aws"`
unfoldable pub active_provider : Catalog → Text
active_provider c = elim c.provider [
  | none ↦ codes "aws"
  | some p ↦ if is_nonempty p then p else codes "aws"
]

unfoldable pub set_provider : Text → Catalog → Catalog
set_provider p c = record c { provider = some p; active_category = codes "all"; search = [] }

-- The answer to the request for the types: a list, another value, or a failure.
pub data Answer : Type 0 where
  listed : List Schema → Answer
  other_value failed : Answer

unfoldable pub end_load : Answer → Catalog → Catalog
end_load (listed xs) c = record c { schemas = xs; loading = false }
end_load other_value c = record c { schemas = []; loading = false }
end_load failed c = record c { loading = false }

-- `providerSchemas`
unfoldable pub provider_schemas : Catalog → List Schema
unfolding active_provider
provider_schemas c = select (λ s. s.provider == active_provider c) c.schemas

-- The test of `filtered` on a search, with `toLowerCase` as a parameter.
unfoldable pub matches_search : (Text → Text) → Text → Schema → Bool
matches_search to_lower search s =
    not (is_nonempty search)
    || includes (to_lower s.name) (to_lower search)
    || includes (to_lower s.description) (to_lower search)
    || includes (to_lower s.id) (to_lower search)

unfoldable pub matches_category : Text → Schema → Bool
matches_category category s = category == codes "all" || s.category == category

unfoldable pub filtered : (Text → Text) → Catalog → List Schema
filtered to_lower c =
    select (λ s. matches_search to_lower c.search s && matches_category c.active_category s)
      (provider_schemas c)

or_zero : Option ℕ → ℕ
or_zero none = 0
or_zero (some n) = n

-- `counts[k] || 0`
unfoldable pub count_of : Text → List (Text × ℕ) → ℕ
unfolding or_zero
count_of k counts = or_zero (get k counts)

-- `xs.forEach((s) => { counts[key(s)] = (counts[key(s)] || 0) + 1; })`
unfoldable pub tally : (Schema → Text) → List Schema → List (Text × ℕ) → List (Text × ℕ)
tally key [] counts = counts
tally key (s ∷ xs) counts = tally key xs (put (key s) (count_of (key s) counts + 1) counts)

unfoldable pub category_counts : Catalog → List (Text × ℕ)
category_counts c =
    let shown = provider_schemas c in
    tally (λ s. s.category) shown ((codes "all", length shown) ∷ [])

unfoldable pub provider_counts : Catalog → List (Text × ℕ)
provider_counts c = tally (λ s. s.provider) c.schemas []

unfoldable pub current_provider : Catalog → Provider
unfolding aws
current_provider c = elim (find_first (λ p. p.id == active_provider c) providers) [
  | none ↦ aws
  | some p ↦ p
]

-- The categories that have a button.
unfoldable pub shown_categories : Catalog → List Text
shown_categories c =
    select (λ k. k == codes "all" || ltb 0 (count_of k (category_counts c))) categories

-- What stands below the search: a notice, or the cards.
pub data Body : Type 0 where
  loading_notice no_schemas no_matches : Body
  cards : List Schema → Body

abbrev cards_or : Bool → List Schema → Body
cards_or empty [] = if empty then no_schemas else no_matches
cards_or empty (s ∷ xs) = cards (s ∷ xs)

unfoldable pub body : (Text → Text) → Catalog → Body
unfolding cards_or
body to_lower c =
    if c.loading
    then loading_notice
    else cards_or (not (ltb 0 (length (provider_schemas c)))) (filtered to_lower c)
