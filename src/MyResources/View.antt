-- ===== src/MyResources/View.antt =====
-- What frontend/src/pages/MyResourcesPage.js shows: the count of the resources, the filters, and the
-- card of a resource with its badge, its identifier, its links and its buttons.
use wolkvorm.Base.{
  List, [], ◌∷◌, ◌++◌, Option, none, some, Bool, false, ◌==◌, text_eq, eqb, if◌then◌else◌,
  Bool-cases, get, length, map, Text, codes, ◌≡◌, refl, inl, inr,
}
use wolkvorm.Text.Number.{show_number}
use wolkvorm.MyResources.{
  Resource, Outputs, Value, Page, Download, no_outputs, key_file, json_file, truthy, download,
  handle_download_outputs, get_resource_arn, icon, status_label, active_resources, filtered,
  schemas, envs, regions,
}

pub data Tint : Type 0 where
  success primary warning danger : Tint

unfoldable pub status_tint : Text → Tint
status_tint status =
    if status == codes "active"
    then success
    else if status == codes "imported"
    then primary
    else if status == codes "unknown"
    then warning
    else danger

abbrev to_space : Text → Text
to_space [] = []
to_space (c ∷ t) = if codes "_" == c ∷ [] then codes " " ++ to_space t else c ∷ to_space t

-- The row of the identifier, with the label and the color of its button.
pub record ArnRow : Type 0 where
  pub label : Text
  pub value : Text
  pub button : Text
  pub tint : Tint

abbrev is_copied : Option Text → Text → Bool
is_copied none id = false
is_copied (some copied) id = copied == id

unfoldable pub arn_row :
    (to_upper : Text → Text) → (copied : Bool) → Option (Text × Text) → Option ArnRow
arn_row to_upper copied none = none
arn_row to_upper copied (some (key, value)) = some (record {
  label = to_upper (to_space key);
  value = value;
  button = if copied then codes "✓ Copied" else codes "Copy";
  tint = if copied then success else primary;
})

abbrev key_label : Option Value → Text
key_label none = codes "Download Outputs"
key_label (some v) = if truthy v then codes "Download Key (.pem)" else codes "Download Outputs"

-- The button that downloads the outputs.
unfoldable pub outputs_button : Option Outputs → Option Text
outputs_button none = none
outputs_button (some []) = none
outputs_button (some (e ∷ m)) = some (key_label (get (codes "private_key_pem") (e ∷ m)))

pub record Card : Type 0 where
  pub icon : Text
  pub name : Text
  pub schema_name : Text
  pub badge : Text
  pub tint : Tint
  pub region : Text
  pub env : Text
  pub created_at : Text
  pub arn : Option ArnRow
  pub edit_link : Text
  pub plan_link : Text
  pub destroy_link : Text
  pub outputs : Option Text

edit_address : Resource → Text
edit_address r = codes "/resource/" ++ r.schema_id ++ codes "?edit=" ++ r.id

-- The card of a resource, where `copied` is `copiedArn`.
unfoldable pub card_of :
    (to_lower to_upper : Text → Text) → (copied : Option Text) → Resource → Card
unfolding edit_address
card_of to_lower to_upper copied r = record {
  icon = icon to_upper r.schema_id;
  name = r.name;
  schema_name = r.schema_name;
  badge = status_label r.status;
  tint = status_tint r.status;
  region = r.region;
  env = r.env;
  created_at = r.created_at;
  arn = arn_row to_upper (is_copied copied r.id) (get_resource_arn to_lower r.outputs);
  edit_link = edit_address r;
  plan_link = edit_address r ++ codes "&action=plan";
  destroy_link = edit_address r ++ codes "&action=destroy";
  outputs = outputs_button r.outputs;
}

-- The cards of the grid.
unfoldable pub grid : (to_lower to_upper : Text → Text) → Page → List Card
grid to_lower to_upper p = map (card_of to_lower to_upper p.copied_arn) (filtered p)

-- The count in the header.
unfoldable pub count_badge : Page → Text
count_badge p =
    let n = length (active_resources p) in
    show_number n ++ codes " active resource" ++ (if eqb n 1 then [] else codes "s")

-- A select with its options, a value and what is shown for it.
pub record Choice : Type 0 where
  pub value : Text
  pub options : List (Text × Text)

abbrev choice : Text → (all : Text) → List Text → Choice
choice value all options = record { value = value; options = ([], all) ∷ map (λ o. (o, o)) options }

-- The three filters, which are shown beside active resources only.
abbrev choices_of : Page → List Resource → List Choice
choices_of p [] = []
choices_of p (r ∷ rs) =
    choice p.filter.schema (codes "All Types") (schemas p)
    ∷ choice p.filter.env (codes "All Environments") (envs p)
    ∷ choice p.filter.region (codes "All Regions") (regions p)
    ∷ []

unfoldable pub filters : Page → List Choice
filters p = choices_of p (active_resources p)

-- What the button of a download says, `none` where it only leads to the alert.
pub label_of : Download → Option Text
label_of no_outputs = none
label_of (key_file name key) = some (codes "Download Key (.pem)")
label_of (json_file name outputs) = some (codes "Download Outputs")

key_label-download :
    (name : Text) (m : Outputs) (key : Option Value)
    → some (key_label key) ≡ label_of (download name m key)
unfolding label_of
key_label-download name m none = refl
key_label-download name m (some v) = elim (Bool-cases (truthy v)) [
  | inl h ↦ rw h refl
  | inr h ↦ rw h refl
]

-- Whatever the outputs of a resource are, the label of its button names the kind of file that a click
-- downloads, the key or all outputs, and the button is there exactly where a click would download a
-- file instead of only showing the alert.
pub outputs_button-handle_download_outputs :
    (name : Text) (outputs : Option Outputs)
    → outputs_button outputs ≡ label_of (handle_download_outputs name outputs)
unfolding outputs_button handle_download_outputs label_of
outputs_button-handle_download_outputs name none = refl
outputs_button-handle_download_outputs name (some []) = refl
outputs_button-handle_download_outputs name (some (e ∷ m)) =
    key_label-download name (e ∷ m) (get (codes "private_key_pem") (e ∷ m))
