-- ===== src/Github/Create/Outcome.antt =====
-- What an attempt at a pull request returns.
use incident_pilot.Common.{
  ◌≡◌, refl, inl, inr, Bool, true, false, Option, none, some, List, [], ◌∷◌, any, Bool-cases,
  Result, ok, err,
}
use incident_pilot.Common.Int.{pos}
use incident_pilot.Text.{Bytes, lit, ◌==◌}
use incident_pilot.Text.Regex.{matches}
use incident_pilot.Remediation.Types.{Proposal, PolicyDecision, PullRequest}
use incident_pilot.Remediation.Patterns.{failure_code_pattern}
use incident_pilot.Github.Config.{Client}
use incident_pilot.Github.Http.{ApiError, Step, ◌>>=◌, attempt}
use incident_pilot.Github.Http.Yields.{
  Outcome, Yields, done-Yields, fail-Yields, bind-Yields, attempt-Yields, or_fail-Yields,
  any-Yields,
}
use incident_pilot.Github.Responses.{RepositoryFile}
use incident_pilot.Github.Patch.{generate_memory_limit_patch}
use incident_pilot.Github.Client.{
  Libraries, get_content, find_ref, get_ref, create_ref, update_content, find_open_pull_request,
  create_pr,
}
use incident_pilot.Github.Client.Pulls.{
  IsCommit, IsPull, MaybePull, MaybeCommit, find_open_pull_request-Yields, create_pr-Yields,
  update_content-Yields, find_ref-Yields,
}
use incident_pilot.Github.Create.{
  Stop, named, stop, patch_or_stop, reuse, settle, head_branch, created_or_found, open_pull,
  commit_and_open, resume, on_branch, with_patch, prepare, reuse_or_prepare, carry_out,
  is_authorized, failure, answer, create_pull_request,
}

abbrev codes : List Bytes
codes =
    lit "authorization_invalid"
    ∷ lit "github_pr_lookup_failed"
    ∷ lit "github_base_ref_failed"
    ∷ lit "github_content_read_failed"
    ∷ lit "patch_not_applicable"
    ∷ lit "github_branch_lookup_failed"
    ∷ lit "github_branch_create_failed"
    ∷ lit "github_branch_content_failed"
    ∷ lit "github_branch_diverged"
    ∷ lit "github_commit_failed"
    ∷ lit "github_pr_create_failed"
    ∷ []

-- one of the codes, which the service reports as it is
abbrev pub IsCode : Bytes → Type 0
IsCode code = (any (λ c. c == code) codes ≡ true) × (matches failure_code_pattern code ≡ true)

abbrev Coded : Stop → Type 0
Coded s = IsCode s.code

module _ (l : Libraries) (client : Client) (proposal : Proposal) (decision : PolicyDecision) where
  abbrev Pull : PullRequest → Type 0
  Pull = IsPull l client (head_branch l client proposal decision)

  abbrev branch : Bytes
  branch = head_branch l client proposal decision

  -- a step whose errors all get one code
  named-Coded :
      {A : Type 0} (Good : A → Type 0) (code : Bytes) (m : Step ApiError A)
      → IsCode code
      → Yields Good (λ e. Unit {0}) m
      → Yields Good Coded (named code m)
  unfolding named
  named-Coded Good code m is_code first =
      or_fail-Yields Good (λ e. Unit {0}) Coded _ m first (λ e. is_code)

  settle-Coded :
      (commit : Bytes) (r : Result ApiError (Option PullRequest))
      → Outcome (MaybePull l client branch) (λ e. Unit {0}) r
      → Yields Pull Coded (settle commit r)
  unfolding settle reuse Outcome lit ◌==◌ any matches failure_code_pattern
  settle-Coded commit (ok (some existing)) good = done-Yields Pull Coded _ (record {
    response = good.response;
    reported = good.reported;
    is_open = good.is_open;
    from_branch = good.from_branch;
    to_base = good.to_base;
    same_number = good.same_number;
    same_url = good.same_url;
    same_repository = good.same_repository;
    same_base = good.same_base;
    same_head = good.same_head;
    positive = good.positive;
    has_commit = good.has_commit;
    has_url = good.has_url;
  })
  settle-Coded commit (ok none) good = fail-Yields Pull Coded _ (refl, refl)
  settle-Coded commit (err e) good = fail-Yields Pull Coded _ (refl, refl)

  created_or_found-Coded :
      (commit : Bytes) (r : Result ApiError PullRequest)
      → IsCommit commit
      → Outcome Pull (λ e. Unit {0}) r
      → Yields Pull Coded (created_or_found l client proposal decision commit r)
  unfolding created_or_found Outcome
  created_or_found-Coded commit (ok created) is_commit good = done-Yields Pull Coded _ (record {
    response = good.response;
    reported = good.reported;
    is_open = good.is_open;
    from_branch = good.from_branch;
    to_base = good.to_base;
    same_number = good.same_number;
    same_url = good.same_url;
    same_repository = good.same_repository;
    same_base = good.same_base;
    same_head = good.same_head;
    positive = good.positive;
    has_commit = is_commit;
    has_url = good.has_url;
  })
  created_or_found-Coded commit (err e) is_commit good =
      bind-Yields (Outcome (MaybePull l client branch) (λ e. Unit {0})) Coded Pull
        (attempt (find_open_pull_request l client branch)) (settle commit)
        (attempt-Yields (MaybePull l client branch) (λ e. Unit {0}) Coded
          (find_open_pull_request l client branch) (find_open_pull_request-Yields l client branch))
        (settle-Coded commit)

  open_pull-Coded :
      (commit : Bytes)
      → IsCommit commit
      → Yields Pull Coded (open_pull l client proposal decision commit)
  unfolding open_pull
  open_pull-Coded commit is_commit =
      bind-Yields (Outcome Pull (λ e. Unit {0})) Coded Pull
        (attempt (create_pr l client branch proposal decision))
        (created_or_found l client proposal decision commit)
        (attempt-Yields Pull (λ e. Unit {0}) Coded (create_pr l client branch proposal decision)
          (create_pr-Yields l client branch proposal decision))
        (λ r good. created_or_found-Coded commit r is_commit good)

  commit_and_open-Coded :
      (file : RepositoryFile) (patched : Bytes)
      → Yields Pull Coded (commit_and_open l client proposal decision file patched)
  unfolding commit_and_open lit ◌==◌ any matches failure_code_pattern
  commit_and_open-Coded file patched =
      bind-Yields IsCommit Coded Pull _ (open_pull l client proposal decision)
        (named-Coded IsCommit (lit "github_commit_failed")
          (update_content l client branch file.sha patched proposal.incident_id) (refl, refl)
          (update_content-Yields l client branch file.sha patched proposal.incident_id))
        open_pull-Coded

  resume-Coded :
      (base_file branch_file : RepositoryFile) (patched sha : Bytes)
      → IsCommit sha
      → Yields Pull Coded (resume l client proposal decision base_file patched sha branch_file)
  unfolding resume stop lit ◌==◌ any matches failure_code_pattern
  resume-Coded base_file branch_file patched sha is_commit =
      elim (Bool-cases (branch_file.content == patched)) [
        | inl e ↦ rw (e, resume) (open_pull-Coded sha is_commit)
        | inr e ↦ elim (Bool-cases (branch_file.content == base_file.content)) [
          | inl f ↦ rw (e, f, resume) (commit_and_open-Coded branch_file patched)
          | inr f ↦
              rw (e, f, resume)
                (fail-Yields Pull Coded
                  (record { code = lit "github_branch_diverged"; commit_sha = [] }) (refl, refl))
        ]
      ]

  -- a step of which only the code of its failure matters
  after :
      {A : Type 0} (code : Bytes) (m : Step ApiError A) (f : A → Step Stop PullRequest)
      → IsCode code
      → ((a : A) → Yields Pull Coded (f a))
      → Yields Pull Coded (named code m >>= f)
  after code m f is_code next =
      bind-Yields (λ a. Unit {0}) Coded Pull (named code m) f
        (named-Coded (λ a. Unit {0}) code m is_code (any-Yields m)) (λ a u. next a)

  on_branch-Coded :
      (base_sha : Bytes) (base_file : RepositoryFile) (patched : Bytes) (o : Option Bytes)
      → MaybeCommit l client branch o
      → Yields Pull Coded (on_branch l client proposal decision base_sha base_file patched o)
  unfolding on_branch lit ◌==◌ any matches failure_code_pattern
  on_branch-Coded base_sha base_file patched none good =
      after (lit "github_branch_create_failed") (create_ref l client branch base_sha)
        (λ u. commit_and_open l client proposal decision base_file patched) (refl, refl)
        (λ u. commit_and_open-Coded base_file patched)
  on_branch-Coded base_sha base_file patched (some sha) good =
      after (lit "github_branch_content_failed") (get_content l client branch)
        (resume l client proposal decision base_file patched sha) (refl, refl)
        (λ branch_file. resume-Coded base_file branch_file patched sha good)

  with_patch-Coded :
      (base_sha : Bytes) (base_file : RepositoryFile) (patched : Bytes)
      → Yields Pull Coded (with_patch l client proposal decision base_sha base_file patched)
  unfolding with_patch lit ◌==◌ any matches failure_code_pattern
  with_patch-Coded base_sha base_file patched =
      bind-Yields (MaybeCommit l client branch) Coded Pull _
        (on_branch l client proposal decision base_sha base_file patched)
        (named-Coded (MaybeCommit l client branch) (lit "github_branch_lookup_failed")
          (find_ref l client branch) (refl, refl) (find_ref-Yields l client branch))
        (on_branch-Coded base_sha base_file patched)

  patch_or_stop-Coded : (o : Option Bytes) → Yields (λ a. Unit {0}) Coded (patch_or_stop o)
  unfolding patch_or_stop stop lit ◌==◌ any matches failure_code_pattern
  patch_or_stop-Coded none = fail-Yields (λ a. Unit {0}) Coded _ (refl, refl)
  patch_or_stop-Coded (some patched) = done-Yields (λ a. Unit {0}) Coded patched tt

  prepare-Coded : Yields Pull Coded (prepare l client proposal decision)
  unfolding prepare lit ◌==◌ any matches failure_code_pattern
  prepare-Coded =
      after (lit "github_base_ref_failed") (get_ref l client client.base_branch) _ (refl, refl)
        (λ base_sha.
          after (lit "github_content_read_failed") (get_content l client client.base_branch) _
            (refl, refl)
            (λ base_file.
              bind-Yields (λ a. Unit {0}) Coded Pull
                (patch_or_stop (generate_memory_limit_patch l.yaml base_file.content proposal))
                (with_patch l client proposal decision base_sha base_file) (patch_or_stop-Coded _)
                (λ patched u. with_patch-Coded base_sha base_file patched)))

  reuse_or_prepare-Coded :
      (o : Option PullRequest)
      → MaybePull l client branch o
      → Yields Pull Coded (reuse_or_prepare l client proposal decision o)
  unfolding reuse_or_prepare reuse
  reuse_or_prepare-Coded (some existing) good = done-Yields Pull Coded _ (record {
    response = good.response;
    reported = good.reported;
    is_open = good.is_open;
    from_branch = good.from_branch;
    to_base = good.to_base;
    same_number = good.same_number;
    same_url = good.same_url;
    same_repository = good.same_repository;
    same_base = good.same_base;
    same_head = good.same_head;
    positive = good.positive;
    has_commit = good.has_commit;
    has_url = good.has_url;
  })
  reuse_or_prepare-Coded none good = prepare-Coded

  carry_out-Coded : Yields Pull Coded (carry_out l client proposal decision)
  unfolding carry_out lit ◌==◌ any matches failure_code_pattern
  carry_out-Coded =
      bind-Yields (MaybePull l client branch) Coded Pull _
        (reuse_or_prepare l client proposal decision)
        (named-Coded (MaybePull l client branch) (lit "github_pr_lookup_failed")
          (find_open_pull_request l client branch) (refl, refl)
          (find_open_pull_request-Yields l client branch))
        reuse_or_prepare-Coded

  -- what is returned: an open pull request, or a coded failure without one
  unfoldable pub Returned : PullRequest × Bool → Type 0
  Returned (pull, false) = Pull pull
  Returned (pull, true) =
      IsCode pull.failure_code
      × (pull.repository ≡ client.repository)
      × (pull.head_branch ≡ branch)
      × (pull.number ≡ pos 0)
      × (pull.url ≡ [])

  answer-Returned :
      (r : Result Stop PullRequest)
      → Outcome Pull Coded r
      → Returned (answer l client proposal decision r)
  unfolding answer failure Outcome Returned
  answer-Returned (ok pull) good = good
  answer-Returned (err s) coded = (coded, refl, refl, refl, refl)

  -- Whatever GitHub answers, an attempt ends in one of two ways. Without an error it returns a pull
  -- request whose number and address GitHub gave when it answered that one was made, or that it is the
  -- only one of a list; in that answer it is open, from the branch that is named after the
  -- investigation to the client's base branch, its number is positive and its https address valid. The
  -- repository and the branches returned are these, and the commit has 40 to 64 hexadecimal digits.
  -- With an error it returns no number and no address, but the repository, the branch and one of
  -- eleven failure codes, each of a form that the remediation service reports unchanged.
  pub create_pull_request-Returned : Returned (create_pull_request l client proposal decision).0
  unfolding create_pull_request Yields lit ◌==◌ any matches failure_code_pattern
  create_pull_request-Returned = elim (Bool-cases (is_authorized l client proposal decision)) [
    | inl e ↦ rw (e, create_pull_request) (answer-Returned _ (carry_out-Coded []))
    | inr e ↦
        rw (e, create_pull_request)
          (answer-Returned (err (record { code = lit "authorization_invalid"; commit_sha = [] }))
            (refl, refl))
  ]
