-- ===== src/MyResources/Tests.antt =====
-- A resource with an identifier under a key of its own, and the filters.
use wolkvorm.Base.{[], ◌∷◌, some, true, get, Memᴰ, inr, Text, codes, ◌≡◌, refl}
use wolkvorm.Text.{includes, starts_with}
use wolkvorm.MyResources.View.{outputs_button, label_of, outputs_button-handle_download_outputs}
use wolkvorm.MyResources.{
  text, other, Outputs, Resource, Page, open_page, listed, fetch_resources, get_resource_arn,
  filtered, passes, active_resources, is_active, set_schema, handle_download_outputs, key_file,
  body, cards, no_resources,
}
use wolkvorm.MyResources.Identifier.{IsIdentifier, get_resource_arn-shown}

abbrev as_it_is : Text → Text
as_it_is s = s

abbrev outputs : Outputs
outputs =
    (codes "size", text (codes "3"))
    ∷ (codes "my_arn", text (codes "arn:1"))
    ∷ (codes "arn", other true)
    ∷ []

abbrev bucket : Resource
bucket = record {
  id = codes "1";
  name = codes "logs";
  schema_id = codes "s3";
  schema_name = codes "S3";
  env = codes "dev";
  region = codes "eu-west-1";
  status = codes "active";
  created_at = [];
  outputs = some outputs;
}

abbrev gone : Resource
gone = record bucket { id = codes "2"; schema_id = codes "vpc"; status = codes "destroyed" }

abbrev page : Page
page = fetch_resources (listed (bucket ∷ gone ∷ [])) open_page

only_active : body page ≡ cards (bucket ∷ [])
unfolding body filtered passes active_resources is_active fetch_resources open_page
only_active = refl

hidden_type : body (set_schema (codes "vpc") page) ≡ no_resources
unfolding body filtered passes active_resources is_active fetch_resources open_page set_schema
hidden_type = refl

key_download :
    handle_download_outputs (codes "k") (some ((codes "private_key_pem", text (codes "K")) ∷ []))
    ≡ key_file (codes "k.pem") (text (codes "K"))
unfolding handle_download_outputs get
key_download = refl

outputs_button-handle_download_outputs_example :
    outputs_button (some ((codes "private_key_pem", text (codes "K")) ∷ []))
    ≡ label_of (
        handle_download_outputs
          (codes "k")
          (some ((codes "private_key_pem", text (codes "K")) ∷ [])))
outputs_button-handle_download_outputs_example =
    outputs_button-handle_download_outputs (codes "k")
      (some ((codes "private_key_pem", text (codes "K")) ∷ []))

get_resource_arn-shown_example :
    (j : Text) × (w : Text) × (get_resource_arn as_it_is (some outputs) ≡ some (j, w))
    × IsIdentifier as_it_is outputs (j, w)
unfolding get includes starts_with
get_resource_arn-shown_example =
    get_resource_arn-shown as_it_is outputs (codes "my_arn") (codes "arn:1") refl
      (refl, Memᴰ.tail (Memᴰ.head refl), inr refl)
