-- ===== src/MyResources.antt =====
-- frontend/src/pages/MyResourcesPage.js: the deployed resources with their filters, the identifier
-- that a card shows, the download of the outputs and the banner of the state backend. `toLowerCase`
-- and `toUpperCase` are parameters.
pub mod Identifier
pub mod Keys
pub mod View
mod Tests
use Prim.Native.String.{String}
use wolkvorm.Base.{
  ℕ, List, [], ◌∷◌, ◌++◌, Option, none, some, Bool, true, false, not, ◌&&◌, ◌||◌, ◌==◌, text_eq,
  if◌then◌else◌, select, get, map, Text, codes,
}
use wolkvorm.Base.Sets.{add_all}
use wolkvorm.Text.{includes, is_nonempty}
use wolkvorm.MyResources.Keys.{arn_keys, schema_icons}

-- An output of terraform: a text, or a value of another type, of which only the truth counts.
pub data Value : Type 0 where
  text : Text → Value
  other : (truthy : Bool) → Value

abbrev pub Outputs : Type 0
Outputs = List (Text × Value)

pub record Resource : Type 0 where
  pub id : Text
  pub name : Text
  pub schema_id : Text
  pub schema_name : Text
  pub env : Text
  pub region : Text
  pub status : Text
  pub created_at : Text
  pub outputs : Option Outputs

-- A text of an output that is not empty.
abbrev pub text_of : Option Value → Option Text
text_of none = none
text_of (some (other truthy)) = none
text_of (some (text [])) = none
text_of (some (text (c ∷ v))) = some (c ∷ v)

abbrev found_or : Option Text → Text → Option (Text × Text) → Option (Text × Text)
found_or none k rest = rest
found_or (some v) k rest = some (k, v)

-- The loop over the keys that are known.
unfoldable pub known_key : List Text → Outputs → Option (Text × Text)
known_key [] m = none
known_key (k ∷ ks) m = found_or (text_of (get k m)) k (known_key ks m)

-- The loop over the entries.
unfoldable pub arn_entry : (Text → Text) → Outputs → Option (Text × Text)
arn_entry to_lower [] = none
arn_entry to_lower ((k, v) ∷ m) =
    let rest = arn_entry to_lower m in
    if includes (to_lower k) (codes "arn") then found_or (text_of (some v)) k rest else rest

abbrev or_pair : Option (Text × Text) → Option (Text × Text) → Option (Text × Text)
or_pair none p = p
or_pair (some p) q = some p

-- `getResourceArn`
unfoldable pub get_resource_arn : (Text → Text) → Option Outputs → Option (Text × Text)
get_resource_arn to_lower none = none
get_resource_arn to_lower (some m) = or_pair (known_key arn_keys m) (arn_entry to_lower m)

pub record Filter : Type 0 where
  pub schema : Text
  pub env : Text
  pub region : Text

-- What the server says of the state backend.
pub record StateInfo : Type 0 where
  pub bucket : Text
  pub region : Text

pub record Page : Type 0 where
  pub resources : List Resource
  pub loading : Bool
  pub filter : Filter
  pub state_ready : Bool
  pub state_info : Option StateInfo
  pub state_initializing : Bool
  pub state_error : Option Text
  pub copied_arn : Option Text

unfoldable pub open_page : Page
open_page = record {
  resources = [];
  loading = true;
  filter = record { schema = []; env = []; region = [] };
  state_ready = false;
  state_info = none;
  state_initializing = false;
  state_error = none;
  copied_arn = none;
}

-- The answer to a request for the resources: a list, another value, or a failure.
pub data Listing : Type 0 where
  listed : List Resource → Listing
  other_value failed : Listing

unfoldable pub fetch_resources : Listing → Page → Page
fetch_resources (listed rs) p = record p { resources = rs; loading = false }
fetch_resources other_value p = record p { resources = []; loading = false }
fetch_resources failed p = record p { loading = false }

-- The answer on the state backend: not ready, ready, or a failure.
pub data Status : Type 0 where
  missing : Status
  ready : StateInfo → Status
  unknown : Status

unfoldable pub fetch_state_status : Status → Page → Page
fetch_state_status missing p = record p { state_ready = false }
fetch_state_status (ready info) p = record p { state_ready = true; state_info = some info }
fetch_state_status unknown p = p

-- `initState` up to its request, and its rest: an answer with or without `error`, or a failure.
unfoldable pub start_init : Page → Page
start_init p = record p { state_initializing = true; state_error = none }

pub data InitReply : Type 0 where
  made : StateInfo → InitReply
  refused : (error : Text) → InitReply
  broken : (message : Text) → InitReply

unfoldable pub init_state : InitReply → Page → Page
init_state (made info) p = record p {
  state_ready = true;
  state_info = some info;
  state_initializing = false;
}
init_state (refused e) p = record p { state_error = some e; state_initializing = false }
init_state (broken e) p = record p { state_error = some e; state_initializing = false }

unfoldable pub is_active : Resource → Bool
is_active r =
    r.status == codes "active"
    || r.status == codes "unknown"
    || r.status == codes "failed"
    || r.status == codes "imported"

unfoldable pub active_resources : Page → List Resource
active_resources p = select is_active p.resources

-- The options of the three filters.
unfoldable pub schemas : Page → List Text
schemas p = add_all [] (map (λ r. r.schema_id) p.resources)

unfoldable pub envs : Page → List Text
envs p = add_all [] (map (λ r. r.env) p.resources)

unfoldable pub regions : Page → List Text
regions p = add_all [] (map (λ r. r.region) p.resources)

-- `if (want && have !== want) return false;`
abbrev pub accepts : Text → Text → Bool
accepts [] have = true
accepts (c ∷ want) have = have == c ∷ want

unfoldable pub passes : Filter → Resource → Bool
passes f r = accepts f.schema r.schema_id && accepts f.env r.env && accepts f.region r.region

unfoldable pub filtered : Page → List Resource
filtered p = select (passes p.filter) (active_resources p)

unfoldable pub set_schema : Text → Page → Page
set_schema v p = record p { filter = record p.filter { schema = v } }

unfoldable pub set_env : Text → Page → Page
set_env v p = record p { filter = record p.filter { env = v } }

unfoldable pub set_region : Text → Page → Page
set_region v p = record p { filter = record p.filter { region = v } }

-- What `handleDownloadOutputs` does: the alert, or a file by its name, with the key or with all
-- outputs as JSON.
pub data Download : Type 0 where
  no_outputs : Download
  key_file : (name : Text) (key : Value) → Download
  json_file : (name : Text) (outputs : Outputs) → Download

abbrev truthy : Value → Bool
truthy (text t) = is_nonempty t
truthy (other b) = b

abbrev download : Text → Outputs → Option Value → Download
download name m none = json_file (name ++ codes "-outputs.json") m
download name m (some v) =
    if truthy v
    then key_file (name ++ codes ".pem") v
    else json_file (name ++ codes "-outputs.json") m

unfoldable pub handle_download_outputs : Text → Option Outputs → Download
handle_download_outputs name none = no_outputs
handle_download_outputs name (some []) = no_outputs
handle_download_outputs name (some (e ∷ m)) =
    download name (e ∷ m) (get (codes "private_key_pem") (e ∷ m))

abbrev first_three : Text → Text
first_three [] = []
first_three (a ∷ []) = a ∷ []
first_three (a ∷ b ∷ []) = a ∷ b ∷ []
first_three (a ∷ b ∷ c ∷ s) = a ∷ b ∷ c ∷ []

-- The icon of a card.
unfoldable pub icon : (Text → Text) → Text → Text
icon to_upper schema_id = elim (get schema_id schema_icons) [
  | none ↦ to_upper (first_three schema_id)
  | some label ↦ label
]

unfoldable pub status_label : Text → Text
status_label status = if status == codes "unknown" then codes "unverified" else status

-- What stands below the filters.
pub data Body : Type 0 where
  loading_notice no_resources : Body
  cards : List Resource → Body

abbrev cards_of : List Resource → Body
cards_of [] = no_resources
cards_of (r ∷ rs) = cards (r ∷ rs)

unfoldable pub body : Page → Body
body p = if p.loading then loading_notice else cards_of (filtered p)

-- Which banner stands above: a button that makes the backend, the bucket, or nothing.
pub data Banner : Type 0 where
  init_button : (disabled : Bool) (error : Option Text) → Banner
  bucket_line : StateInfo → Banner
  no_banner : Banner

abbrev ready_banner : Option StateInfo → Banner
ready_banner none = no_banner
ready_banner (some info) = bucket_line info

unfoldable pub banner : Page → Banner
banner p =
    if p.state_ready
    then ready_banner p.state_info
    else init_button p.state_initializing p.state_error

-- The button that copies an identifier, and the end of its two seconds.
unfoldable pub copy : Resource → Page → Page
copy r p = record p { copied_arn = some r.id }

unfoldable pub end_copy : Page → Page
end_copy p = record p { copied_arn = none }
