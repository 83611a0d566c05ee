-- ===== src/PullRequest.antt =====
-- `generatePR` of frontend/src/components/PRButton.js: four requests in a row, each only if the one
-- before it succeeded. The answers of the server and the time are arguments.
pub mod Chain
pub mod View
mod Tests
use Prim.Native.String
use Prim.Native.String.{String}
use wolkvorm.Base.{
  ℕ, List, [], ◌∷◌, Option, none, some, Bool, true, false, ◌==◌, string_eq, if◌then◌else◌,
}
use wolkvorm.Base.Decimal.{decimal}

infixl 65 ◌+s◌
abbrev pub ◌+s◌ : String → String → String
s +s t = String.◌++◌ s t

-- The answer to a request: its parsed body, the text of an error status, or the message of what was
-- thrown.
pub data Answer (A : Type 0) : Type 0 where
  accepted : A → Answer A
  refused : String → Answer A
  threw : String → Answer A

-- What the server answers, should it be asked. A missing commit or SHA is "", as is a missing URL.
pub record Answers : Type 0 where
  pub sha : Answer String
  pub branch : Answer Unit
  pub commit : Answer Unit
  pub pr : Answer String

pub data Request : Type 0 where
  branch_sha : (repo : String) → Request
  create_branch : (repo branch sha : String) → Request
  commit_file : (repo branch : String) → Request
  create_pr : (repo branch : String) → Request

pub data Result : Type 0 where
  success : (url : Option String) → Result
  failure : (error : String) → Result

-- The requests that were made, in order, and the result shown at the end.
pub record Outcome : Type 0 where
  pub requests : List Request
  pub result : Result

abbrev first : Request → Outcome → Outcome
first r o = record o { requests = r ∷ o.requests }

abbrev stop : Request → String → Outcome
stop r message = record { requests = r ∷ []; result = failure message }

-- `prData.html_url || null`
abbrev url_of : String → Option String
url_of url = if url == "" then none else some url

open_pr : String → String → Answer String → Outcome
open_pr repo branch (accepted url) = record {
  requests = create_pr repo branch ∷ [];
  result = success (url_of url);
}
open_pr repo branch (refused text) = stop (create_pr repo branch) ("PR creation failed: " +s text)
open_pr repo branch (threw text) = stop (create_pr repo branch) text

commit : String → String → Answers → Answer Unit → Outcome
unfolding open_pr
commit repo branch answers (accepted done) =
    first (commit_file repo branch) (open_pr repo branch answers.pr)
commit repo branch answers (refused text) =
    stop (commit_file repo branch) ("File commit failed: " +s text)
commit repo branch answers (threw text) = stop (commit_file repo branch) text

make_branch : String → String → String → Answers → Answer Unit → Outcome
unfolding commit
make_branch repo branch sha answers (accepted done) =
    first (create_branch repo branch sha) (commit repo branch answers answers.commit)
make_branch repo branch sha answers (refused text) =
    stop (create_branch repo branch sha) ("Branch creation failed: " +s text)
make_branch repo branch sha answers (threw text) = stop (create_branch repo branch sha) text

ask_sha : String → String → Answers → Answer String → Outcome
unfolding make_branch
ask_sha repo branch answers (accepted sha) =
    let rest = first (branch_sha repo) (make_branch repo branch sha answers answers.branch) in
    if sha == ""
    then stop (branch_sha repo) "Could not get main branch SHA. Does the repo have a 'main' branch?"
    else rest
ask_sha repo branch answers (refused text) = stop (branch_sha repo) ("Branch SHA failed: " +s text)
ask_sha repo branch answers (threw text) = stop (branch_sha repo) text

pub branch_name : String → String → ℕ → String
branch_name schema_id env now = "wolkvorm-" +s schema_id +s "-" +s env +s "-" +s decimal now

-- `none` is the alert that asks for a repository.
unfoldable pub generate_pr : (schema_id env repo : String) → ℕ → Answers → Option Outcome
unfolding branch_name ask_sha
generate_pr schema_id env repo now answers =
    if repo == ""
    then none
    else some (ask_sha repo (branch_name schema_id env now) answers answers.sha)
