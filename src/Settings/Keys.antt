-- ===== src/Settings/Keys.antt =====
-- frontend/src/pages/SettingsPage.js: the sections "API Keys" and "AWS Accounts".
use wolkvorm.Base.{
  List, [], ◌∷◌, ◌++◌, Option, none, some, Bool, not, ◌||◌, text_eq, if◌then◌else◌, select, Text,
  codes,
}
use wolkvorm.Text.{is_nonempty}
use wolkvorm.Settings.{Listing, load_list, Fresh, fresh, stale}

pub record ApiKey : Type 0 where
  pub id : Text
  pub name : Text
  pub role : Text
  pub is_active : Bool

pub record Keys : Type 0 where
  pub api_keys : List ApiKey
  pub new_name : Text
  pub new_role : Text
  pub generated_key : Text

unfoldable pub open_keys : Keys
open_keys = record { api_keys = []; new_name = []; new_role = codes "viewer"; generated_key = [] }

unfoldable pub load_keys : Listing ApiKey → Keys → Keys
unfolding load_list
load_keys l k = record k { api_keys = load_list l k.api_keys }

-- "Generate Key": its button, what its answer does, whose `key` is empty when there is none, and the
-- list that is asked for then.
unfoldable pub generate_disabled : Keys → Bool
generate_disabled k = not (is_nonempty k.new_name)

unfoldable pub generated : Text → Keys → Keys
generated key k = if is_nonempty key then record k { generated_key = key; new_name = [] } else k

unfoldable pub refresh_keys : List ApiKey → Keys → Keys
refresh_keys ks k = record k { api_keys = ks }

unfoldable pub shown_keys : Keys → List ApiKey
shown_keys k = select (λ x. x.is_active) k.api_keys

pub record Account : Type 0 where
  pub id : Text
  pub name : Text
  pub account_id : Text
  pub is_default : Bool

pub record Accounts : Type 0 where
  pub accounts : List Account
  pub new_name : Text
  pub new_role_arn : Text
  pub new_external_id : Text
  pub new_region : Text
  pub verifying : Option Text

unfoldable pub open_accounts : Accounts
open_accounts = record {
  accounts = [];
  new_name = [];
  new_role_arn = [];
  new_external_id = [];
  new_region = codes "us-east-1";
  verifying = none;
}

unfoldable pub load_accounts : Listing Account → Accounts → Accounts
unfolding load_list
load_accounts l a = record a { accounts = load_list l a.accounts }

-- "Connect AWS Account": its button, and its answer: an error that is shown in an alert, or success,
-- after which the list is asked for.
unfoldable pub connect_disabled : Accounts → Bool
connect_disabled a = not (is_nonempty a.new_name) || not (is_nonempty a.new_role_arn)

unfoldable pub connected : Option Text → Accounts → Accounts × Option Text
connected (some error) a = (a, some error)
connected none a = (record a { new_name = []; new_role_arn = []; new_external_id = [] }, none)

unfoldable pub refresh_accounts : List Account → Accounts → Accounts
refresh_accounts xs a = record a { accounts = xs }

-- `verifyAccount`: its request, and its end with the answer to the request for the list.
unfoldable pub start_verify : Text → Accounts → Accounts
start_verify id a = record a { verifying = some id }

pub data Verdict : Type 0 where
  verified : (account_id : Text) → (refresh : Fresh (List Account)) → Verdict
  unverified : (error : Text) → Verdict

abbrev verification_failed : Text → Text
verification_failed error = codes "Verification failed: " ++ error

-- The alerts are in their order; a list that does not come is one too.
unfoldable pub verify_account : Verdict → Accounts → Accounts × List Text
verify_account (verified id (fresh xs)) a =
    (record a { verifying = none; accounts = xs }, (codes "Verified! AWS Account ID: " ++ id) ∷ [])
verify_account (verified id (stale error)) a = (
  record a { verifying = none },
  (codes "Verified! AWS Account ID: " ++ id) ∷ verification_failed error ∷ [],
)
verify_account (unverified error) a =
    (record a { verifying = none }, verification_failed error ∷ [])
