-- ===== src/Catalog/Tests.antt =====
-- A catalog of three types, two of AWS and one of Azure.
use wolkvorm.Base.{
  ◌+◌, [], ◌∷◌, none, length, get, put, leb, ◌&&◌, if◌then◌else◌, List, Text, codes, ◌≡◌, ◌≢◌, refl,
}
use wolkvorm.Text.{includes}
use wolkvorm.Catalog.{
  Schema, Catalog, open_catalog, listed, end_load, count_of, or_zero, tally, category_counts,
  provider_schemas, active_provider, filtered, matches_search, matches_category, shown_categories,
  categories, body, no_matches,
}
use wolkvorm.Catalog.Counts.{category_counts-filtered}
use wolkvorm.Catalog.Search.{
  start, next, load, Reach-body, set_search, choose_category, follow_link,
}

abbrev to_lower : Text → Text
to_lower [] = []
to_lower (c ∷ s) = (if leb 65 c && leb c 90 then c + 32 else c) ∷ to_lower s

abbrev bucket : Schema
bucket = record {
  id = codes "s3";
  name = codes "S3 Bucket";
  description = codes "Files";
  category = codes "storage";
  provider = codes "aws";
}

abbrev machine : Schema
machine = record {
  id = codes "ec2";
  name = codes "Instance";
  description = codes "A virtual machine";
  category = codes "compute";
  provider = codes "aws";
}

abbrev blob : Schema
blob = record {
  id = codes "blob";
  name = codes "Blob";
  description = codes "Files";
  category = codes "storage";
  provider = codes "azurerm";
}

abbrev three : List Schema
three = bucket ∷ machine ∷ blob ∷ []

abbrev opened : Catalog
opened = open_catalog none

abbrev full : Catalog
full = end_load (listed three) opened

found : filtered to_lower (set_search (codes "VIRTUAL") full) ≡ machine ∷ []
unfolding filtered matches_search matches_category provider_schemas active_provider set_search
    end_load open_catalog includes
found = refl

shown : shown_categories full ≡ codes "all" ∷ codes "compute" ∷ codes "storage" ∷ []
unfolding shown_categories categories category_counts provider_schemas active_provider end_load
    open_catalog count_of or_zero tally get put
shown = refl

category_counts-filtered_example :
    count_of (codes "storage") (category_counts full)
    ≡ length (filtered to_lower (record full { search = []; active_category = codes "storage" }))
unfolding end_load open_catalog
category_counts-filtered_example =
    category_counts-filtered to_lower full (codes "storage")
      ((λ e. cc), ((λ e. cc), ((λ e. cc), tt)))

-- A link of the navigation bar keeps a category that the other provider does not have.
kept_category :
    body to_lower (follow_link (codes "azurerm") (choose_category (codes "compute") full))
    ≡ no_matches
unfolding body filtered matches_search matches_category provider_schemas active_provider
    choose_category follow_link end_load open_catalog
kept_category = refl

Reach-body_example : body to_lower full ≢ no_matches
unfolding end_load open_catalog
Reach-body_example =
    Reach-body to_lower full (next (start none) (load opened (listed three) refl)) refl
