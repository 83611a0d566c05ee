-- ===== src/PullRequest/Tests.antt =====
-- A run in which everything succeeds, and one whose commit is refused.
use Prim.Native.String.{String}
use wolkvorm.Base.{[], ◌∷◌, some, ◌≡◌, ◌≢◌, ◌==◌, ==-iff, string_eq, false, refl}
use wolkvorm.PullRequest.{
  Answers, accepted, refused, branch_sha, create_branch, commit_file, failure, branch_name,
  generate_pr,
}
use wolkvorm.PullRequest.Chain.{IsComplete, complete_run, generate_pr-success}

abbrev fine : Answers
fine = record {
  sha = accepted "a1";
  branch = accepted tt;
  commit = accepted tt;
  pr = accepted "url";
}

not_empty : (s : String) → (s == "") ≡ false → s ≢ ""
not_empty s h e = cc ((==-iff s "").1 e)

abbrev branch : String
branch = branch_name "ec2" "dev" 5

commit_refused :
    generate_pr "ec2" "dev" "org/infra" 5 (record fine { commit = refused "conflict" })
    ≡ some (record {
      requests =
          branch_sha "org/infra"
          ∷ create_branch "org/infra" branch "a1"
          ∷ commit_file "org/infra" branch
          ∷ [];
      result = failure "File commit failed: conflict";
    })
unfolding generate_pr
commit_refused = refl

generate_pr-success_example :
    (◌≢◌ {A = String} "org/infra" "")
    × ((sha url : String) × IsComplete fine sha url
        × (complete_run "org/infra" branch "a1" "url" ≡ complete_run "org/infra" branch sha url))
unfolding generate_pr
generate_pr-success_example =
    generate_pr-success "ec2" "dev" "org/infra" 5 fine (complete_run "org/infra" branch "a1" "url")
      (some "url") refl refl
