-- ===== src/NodeGroups.antt =====
-- frontend/src/components/NodeGroupEditor.js: the editor of a cluster's node groups.
pub mod Sizes
mod Tests
use wolkvorm.Base.{
  ℕ, suc, ◌+◌, List, [], ◌∷◌, ◌++◌, map, Option, none, some, Bool, true, false, not, ◌&&◌, ◌==◌,
  text_eq, if◌then◌else◌, ltb, eqb, Text, codes, find_first, length, update_at, remove_at,
}
use wolkvorm.Base.Sets.{has}
use wolkvorm.Text.{split, is_nonempty}
use wolkvorm.Text.Number.{show_number}

-- What `parseInt` gives for a number.
pub data ℤ : Type 0 where
  pos : ℕ → ℤ
  negsuc : ℕ → ℤ

pub record Family : Type 0 where
  pub value : Text
  pub sizes : List Text

abbrev family : Text → List Text → Family
family value sizes = record { value = value; sizes = sizes }

abbrev burstable : List Text
burstable =
    codes "nano"
    ∷ codes "micro"
    ∷ codes "small"
    ∷ codes "medium"
    ∷ codes "large"
    ∷ codes "xlarge"
    ∷ codes "2xlarge"
    ∷ []

abbrev general : List Text
general =
    codes "large"
    ∷ codes "xlarge"
    ∷ codes "2xlarge"
    ∷ codes "4xlarge"
    ∷ codes "8xlarge"
    ∷ codes "12xlarge"
    ∷ codes "16xlarge"
    ∷ codes "24xlarge"
    ∷ []

abbrev compute : List Text
compute =
    codes "large"
    ∷ codes "xlarge"
    ∷ codes "2xlarge"
    ∷ codes "4xlarge"
    ∷ codes "9xlarge"
    ∷ codes "12xlarge"
    ∷ codes "18xlarge"
    ∷ codes "24xlarge"
    ∷ []

abbrev gpu : List Text
gpu =
    codes "xlarge"
    ∷ codes "2xlarge"
    ∷ codes "4xlarge"
    ∷ codes "8xlarge"
    ∷ codes "12xlarge"
    ∷ codes "16xlarge"
    ∷ []

pub instance_families : List Family
instance_families =
    family (codes "t3") burstable
    ∷ family (codes "t3a") burstable
    ∷ family (codes "m5") general
    ∷ family (codes "m6i") general
    ∷ family (codes "m7i") general
    ∷ family (codes "c5") compute
    ∷ family (codes "c6i") general
    ∷ family (codes "c7i") general
    ∷ family (codes "r5") general
    ∷ family (codes "r6i") general
    ∷ family (codes "g4dn") gpu
    ∷ family (codes "g5") (gpu ++ codes "24xlarge" ∷ codes "48xlarge" ∷ [])
    ∷ family (codes "p3") (codes "2xlarge" ∷ codes "8xlarge" ∷ codes "16xlarge" ∷ [])
    ∷ []

-- A missing text is "", missing `instance_types` are [].
pub record NodeGroup : Type 0 where
  pub name : Text
  pub family : Text
  pub size : Text
  pub capacity_type : Text
  pub min_size : ℤ
  pub max_size : ℤ
  pub desired_size : ℤ
  pub instance_types : List Text

pub default_node_group : NodeGroup
default_node_group = record {
  name = codes "default";
  family = codes "t3";
  size = codes "medium";
  capacity_type = codes "ON_DEMAND";
  min_size = pos 1;
  max_size = pos 3;
  desired_size = pos 2;
  instance_types = [];
}

-- The two parts of a split at a dot.
parts_of : List Text → Text × Text
parts_of (family ∷ size ∷ []) = (family, size)
parts_of other = (codes "t3", codes "medium")

unfoldable pub parse_instance_type : Text → Text × Text
unfolding parts_of
parse_instance_type t =
    if is_nonempty t then parts_of (split b'.' t) else (codes "t3", codes "medium")

pub node_groups_from_value : List NodeGroup → List NodeGroup
unfolding default_node_group
node_groups_from_value [] = default_node_group ∷ []
node_groups_from_value (g ∷ gs) = g ∷ gs

abbrev first_type : List Text → Text
first_type [] = []
first_type (t ∷ ts) = t

incoming : NodeGroup → NodeGroup
unfolding parse_instance_type
incoming g =
    let parsed = parse_instance_type (first_type g.instance_types) in
    if is_nonempty g.family && is_nonempty g.size
    then g
    else record g { family = parsed.0; size = parsed.1 }

-- The effect on a new value.
pub load_value : List NodeGroup → List NodeGroup → List NodeGroup
unfolding incoming
load_value [] groups = groups
load_value (g ∷ gs) groups = map incoming (g ∷ gs)

pub add_group : List NodeGroup → List NodeGroup
unfolding default_node_group
add_group groups =
    groups
    ++ record default_node_group { name = codes "group-" ++ show_number (length groups + 1) } ∷ []

-- Only shown while there is more than one group.
pub remove_group : ℕ → List NodeGroup → List NodeGroup
remove_group i groups = if ltb 1 (length groups) then remove_at groups i else groups

pub find_family : Text → Option Family
unfolding instance_families
find_family value = find_first (λ f. f.value == value) instance_families

abbrev first_size : List Text → Text
first_size [] = []
first_size (s ∷ ss) = s

fit : Option Family → NodeGroup → NodeGroup
fit none g = g
fit (some f) g = if has g.size f.sizes then g else record g { size = first_size f.sizes }

pub set_family : Text → NodeGroup → NodeGroup
unfolding fit
set_family value g = fit (find_family value) (record g { family = value })

pub get_sizes_for_family : Text → List Text
get_sizes_for_family value = elim (find_family value) [
  | none ↦ codes "medium" ∷ codes "large" ∷ codes "xlarge" ∷ []
  | some f ↦ f.sizes
]

-- The options of the two selects of a group: `group.family || "t3"` decides the sizes.
abbrev shown_family : NodeGroup → Text
shown_family g = if is_nonempty g.family then g.family else codes "t3"

-- The size and the family that are chosen: a select offers only its options, so another value changes
-- nothing. `updateGroup` itself takes any.
pub set_size : Text → NodeGroup → NodeGroup
set_size size g =
    if has size (get_sizes_for_family (shown_family g)) then record g { size = size } else g

pub choose_family : Text → NodeGroup → NodeGroup
unfolding set_family
choose_family value g = elim (find_family value) [ none ↦ g | some f ↦ set_family value g ]

-- `parseInt(text) || default`; `none` is NaN.
pub or_default : ℤ → Option ℤ → ℤ
or_default d none = d
or_default d (some (pos n)) = if eqb n 0 then d else pos n
or_default d (some (negsuc n)) = negsuc n

pub data Event : Type 0 where
  added : Event
  removed : (i : ℕ) → Event
  name_typed : (i : ℕ) → Text → Event
  capacity_chosen : (i : ℕ) → Text → Event
  family_chosen : (i : ℕ) → Text → Event
  size_chosen : (i : ℕ) → Text → Event
  min_typed : (i : ℕ) → Option ℤ → Event
  max_typed : (i : ℕ) → Option ℤ → Event
  desired_typed : (i : ℕ) → Option ℤ → Event

pub step : List NodeGroup → Event → List NodeGroup
unfolding add_group remove_group choose_family set_size or_default
step groups added = add_group groups
step groups (removed i) = remove_group i groups
step groups (name_typed i t) = update_at groups i (λ g. record g { name = t })
step groups (capacity_chosen i t) = update_at groups i (λ g. record g { capacity_type = t })
step groups (family_chosen i t) = update_at groups i (choose_family t)
step groups (size_chosen i t) = update_at groups i (set_size t)
step groups (min_typed i n) = update_at groups i (λ g. record g { min_size = or_default (pos 0) n })
step groups (max_typed i n) = update_at groups i (λ g. record g { max_size = or_default (pos 1) n })
step groups (desired_typed i n) =
    update_at groups i (λ g. record g { desired_size = or_default (pos 0) n })

pub run : List NodeGroup → List Event → List NodeGroup
unfolding step
run groups [] = groups
run groups (e ∷ es) = run (step groups e) es
