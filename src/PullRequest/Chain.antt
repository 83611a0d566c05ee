-- ===== src/PullRequest/Chain.antt =====
-- When a pull request is made, and when the button says so.
use Prim.Native.String.{String}
use wolkvorm.Base.{
  ℕ, [], ◌∷◌, Option, some, ◌==◌, ==-iff, string_eq, Bool-cases, ◌≡◌, ◌≢◌, refl, sym, ap, ◌∙◌, inl,
  inr,
}
use wolkvorm.PullRequest.{
  Answer, accepted, refused, threw, Answers, branch_sha, create_branch, commit_file, create_pr,
  success, Outcome, url_of, first, open_pr, commit, make_branch, ask_sha, branch_name, generate_pr,
}

-- All four requests succeeded, and the branch has a SHA.
abbrev pub IsComplete : Answers → String → String → Type 0
IsComplete answers sha url =
    (answers.sha ≡ accepted sha)
    × (sha ≢ "")
    × (answers.branch ≡ accepted tt)
    × (answers.commit ≡ accepted tt)
    × (answers.pr ≡ accepted url)

abbrev pub complete_run : String → String → String → String → Outcome
complete_run repo branch sha url = record {
  requests =
      branch_sha repo
      ∷ create_branch repo branch sha
      ∷ commit_file repo branch
      ∷ create_pr repo branch
      ∷ [];
  result = success (url_of url);
}

open_pr_success :
    (repo branch : String) (u : Option String) (a : Answer String)
    → (open_pr repo branch a).result ≡ success u
    → (url : String) × (a ≡ accepted url)
      × (open_pr repo branch a
          ≡ record { requests = create_pr repo branch ∷ []; result = success (url_of url) })
unfolding open_pr
open_pr_success repo branch u (accepted url) h = (url, refl, refl)
open_pr_success repo branch u (refused text) h = cc
open_pr_success repo branch u (threw text) h = cc

commit_success :
    (repo branch : String) (u : Option String) (answers : Answers) (a : Answer Unit)
    → (commit repo branch answers a).result ≡ success u
    → (url : String) × (a ≡ accepted tt)
      × (answers.pr ≡ accepted url)
      × (commit repo branch answers a ≡ record {
        requests = commit_file repo branch ∷ create_pr repo branch ∷ [];
        result = success (url_of url);
      })
unfolding commit
commit_success repo branch u answers (accepted done) h =
    let (url, a_eq, o_eq) = open_pr_success repo branch u answers.pr h in
    (url, refl, a_eq, ap (first (commit_file repo branch)) o_eq)
commit_success repo branch u answers (refused text) h = cc
commit_success repo branch u answers (threw text) h = cc

make_branch_success :
    (repo branch sha : String) (u : Option String) (answers : Answers) (a : Answer Unit)
    → (make_branch repo branch sha answers a).result ≡ success u
    → (url : String) × (a ≡ accepted tt)
      × (answers.commit ≡ accepted tt)
      × (answers.pr ≡ accepted url)
      × (first (branch_sha repo) (make_branch repo branch sha answers a)
          ≡ complete_run repo branch sha url)
unfolding make_branch
make_branch_success repo branch sha u answers (accepted done) h =
    let (url, c_eq, p_eq, o_eq) = commit_success repo branch u answers answers.commit h in
    (
      url,
      refl,
      c_eq,
      p_eq,
      ap (λ o. first (branch_sha repo) (first (create_branch repo branch sha) o)) o_eq,
    )
make_branch_success repo branch sha u answers (refused text) h = cc
make_branch_success repo branch sha u answers (threw text) h = cc

ask_sha_success :
    (repo branch : String) (u : Option String) (answers : Answers) (a : Answer String)
    → (ask_sha repo branch answers a).result ≡ success u
    → (sha url : String) × (a ≡ accepted sha)
      × (sha ≢ "")
      × (answers.branch ≡ accepted tt)
      × (answers.commit ≡ accepted tt)
      × (answers.pr ≡ accepted url)
      × (ask_sha repo branch answers a ≡ complete_run repo branch sha url)
unfolding ask_sha
ask_sha_success repo branch u answers (accepted sha) h = elim (Bool-cases (sha == "")) [
  | inl empty ↦ cc (rw empty at h)
  | inr some_sha ↦
      let (url, b_eq, c_eq, p_eq, o_eq) =
        make_branch_success repo branch sha u answers answers.branch (rw some_sha at h) in
      (sha, url, refl, λ e. cc ((==-iff sha "").1 e), b_eq, c_eq, p_eq, rw some_sha o_eq)
]
ask_sha_success repo branch u answers (refused text) h = cc
ask_sha_success repo branch u answers (threw text) h = cc

-- If the button reports success, a repository was selected, every one of the four requests was
-- accepted, with a SHA that is not empty, and they were made in this order, each for the repository
-- and all but the first for the one new branch.
pub generate_pr-success :
    (schema_id env repo : String) (now : ℕ) (answers : Answers) (o : Outcome) (u : Option String)
    → generate_pr schema_id env repo now answers ≡ some o
    → o.result ≡ success u
    → (repo ≢ "")
      × ((sha url : String) × IsComplete answers sha url
          × (o ≡ complete_run repo (branch_name schema_id env now) sha url))
unfolding generate_pr
generate_pr-success schema_id env repo now answers o u h ok = elim (Bool-cases (repo == "")) [
  | inl empty ↦ cc (rw empty at h)
  | inr chosen ↦
      let branch = branch_name schema_id env now in
      let same : ask_sha repo branch answers answers.sha ≡ o = cc (rw chosen at h) in
      let (sha, url, a, n, b, c, p, run_eq) =
        ask_sha_success repo branch u answers answers.sha (rw same ok) in
      (λ e. cc ((==-iff repo "").1 e), (sha, url, (a, n, b, c, p), sym same ∙ run_eq))
]
