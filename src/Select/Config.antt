-- ===== src/Select/Config.antt =====
-- frontend/src/components/AwsResourceSelect.js: RESOURCE_CONFIG, what the select shows of a resource of
-- each type, and its search. `toLowerCase` is a parameter.
use wolkvorm.Base.{
  List, [], ◌∷◌, ◌++◌, Option, none, some, Bool, not, ◌&&◌, ◌||◌, ◌==◌, text_eq, if◌then◌else◌,
  select, find_first, map, Text, codes,
}
use wolkvorm.Text.{includes, is_nonempty}
use wolkvorm.Select.{Item, selected_values}

-- The types that have a configuration.
pub data ResourceType : Type 0 where
  vpc subnet security_group key_pair ami : ResourceType

-- A resource as the server describes it; a missing text is empty.
pub record AwsItem : Type 0 where
  pub id : Text
  pub name : Text
  pub cidr : Text
  pub is_default : Bool
  pub az : Text
  pub public : Bool
  pub description : Text
  pub key_type : Text
  pub architecture : Text

unfoldable pub endpoint : ResourceType → Text
endpoint vpc = codes "/api/aws/vpcs"
endpoint subnet = codes "/api/aws/subnets"
endpoint security_group = codes "/api/aws/security-groups"
endpoint key_pair = codes "/api/aws/key-pairs"
endpoint ami = codes "/api/aws/amis"

-- `item[config.idField]`
unfoldable pub id_of : ResourceType → AwsItem → Text
id_of vpc i = i.id
id_of subnet i = i.id
id_of security_group i = i.id
id_of key_pair i = i.name
id_of ami i = i.id

abbrev named : AwsItem → Text
named i = i.name ++ codes " (" ++ i.id ++ codes ")"

unfoldable pub label : ResourceType → AwsItem → Text
label vpc i = if is_nonempty i.name then named i else i.id
label subnet i = if is_nonempty i.name then named i else i.id
label security_group i = named i
label key_pair i = i.name
label ami i = i.id

abbrev with_architecture : Text → AwsItem → Text
with_architecture t i = t ++ codes " (" ++ i.architecture ++ codes ")"

abbrev or_text : Text → Text → Text
or_text [] other = other
or_text (c ∷ t) other = c ∷ t

unfoldable pub detail : ResourceType → AwsItem → Text
detail vpc i = i.cidr ++ (if i.is_default then codes " - Default VPC" else [])
detail subnet i = i.az ++ codes " | " ++ i.cidr ++ (if i.public then codes " | Public" else [])
detail security_group i = i.description
detail key_pair i = i.key_type
detail ami i =
    if includes i.name (codes "al2023")
    then with_architecture (codes "Amazon Linux 2023") i
    else if includes i.name (codes "ubuntu") && includes i.name (codes "24.04")
    then with_architecture (codes "Ubuntu 24.04") i
    else if includes i.name (codes "ubuntu") && includes i.name (codes "22.04")
    then with_architecture (codes "Ubuntu 22.04") i
    else with_architecture (or_text i.description i.name) i

-- The schema that "Create" leads to.
unfoldable pub create_schema_id : ResourceType → Option Text
create_schema_id vpc = some (codes "vpc")
create_schema_id subnet = some (codes "vpc")
create_schema_id security_group = some (codes "security-group")
create_schema_id key_pair = some (codes "key-pair")
create_schema_id ami = none

-- What the select keeps of a resource.
unfoldable pub item_of : ResourceType → AwsItem → Item
item_of t i = record { id = id_of t i; label = label t i }

-- The resources that are listed for a search.
unfoldable pub filtered : (Text → Text) → ResourceType → Text → List AwsItem → List AwsItem
filtered to_lower t search items =
    select
      (λ i.
        not (is_nonempty search)
        || includes (to_lower (id_of t i)) (to_lower search)
        || includes (to_lower i.name) (to_lower search)
        || includes (to_lower i.description) (to_lower search))
      items

-- The tags of a select of several resources: each with the id that its button removes.
abbrev label_or : ResourceType → Text → Option AwsItem → Text
label_or t v none = v
label_or t v (some i) = label t i

unfoldable pub tags : ResourceType → Bool → Text → List AwsItem → List (Text × Text)
tags t multi value items =
    map (λ v. (v, label_or t v (find_first (λ i. id_of t i == v) items)))
      (selected_values multi value)
