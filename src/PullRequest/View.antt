-- ===== src/PullRequest/View.antt =====
-- What frontend/src/components/PRButton.js shows: the list of repositories, the button and the result.
use Prim.Native.String.{String}
use wolkvorm.Base.{List, ◌∷◌, Option, none, some, Bool, true, false, if◌then◌else◌}
use wolkvorm.PullRequest.{Result, success, failure, ◌+s◌}

-- The text of the result, with the address of its link, if it has one.
pub record Message : Type 0 where
  pub is_success : Bool
  pub text : String
  pub link : Option String

pub record View : Type 0 where
  pub options : List String
  pub label : String
  pub is_disabled : Bool
  pub message : Option Message

unfoldable pub message_of : Option Result → Option Message
message_of none = none
message_of (some (success url)) =
    some (record { is_success = true; text = "PR created successfully!"; link = url })
message_of (some (failure error)) =
    some (record { is_success = false; text = "PR creation failed: " +s error; link = none })

-- `repos` are the full names; the first option has an empty value.
unfoldable pub pr_button : (repos : List String) → (creating : Bool) → Option Result → View
unfolding message_of
pr_button repos creating result = record {
  options = "" ∷ repos;
  label = if creating then "Creating PR..." else "Generate Pull Request";
  is_disabled = creating;
  message = message_of result;
}
