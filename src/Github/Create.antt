-- ===== src/Github/Create.antt =====
-- `CreatePullRequest` of internal/github/client.go: the calls in order, each with the code of its
-- failure.
pub mod Writes
pub mod Outcome
use incident_pilot.Common.{
  Bool, true, false, not, ◌&&◌, Option, none, some, List, [], if◌then◌else◌, Result, ok, err,
}
use incident_pilot.Common.Int.{pos}
use incident_pilot.Text.{Bytes, lit, ◌==◌}
use incident_pilot.Time.{zero_time}
use incident_pilot.Remediation.Types.{Proposal, PolicyDecision, PullRequest, pr_failed}
use incident_pilot.Github.Config.{Client, remediation_branch}
use incident_pilot.Github.Http.{Request, ApiError, Step, done, fail, ◌>>=◌, attempt, or_fail}
use incident_pilot.Github.Responses.{RepositoryFile}
use incident_pilot.Github.Patch.{generate_memory_limit_patch}
use incident_pilot.Github.Client.{
  Libraries, get_content, find_ref, get_ref, create_ref, update_content, find_open_pull_request,
  create_pr,
}

-- the failure's code, and the commit known by then
pub record Stop : Type 0 where
  pub code : Bytes
  pub commit_sha : Bytes

named : {A : Type 0} → Bytes → Step ApiError A → Step Stop A
unfolding or_fail
named code m = or_fail (λ e. record { code = code; commit_sha = [] }) m

stop : {A : Type 0} → Bytes → Step Stop A
unfolding fail
stop code = fail (record { code = code; commit_sha = [] })

patch_or_stop : Option Bytes → Step Stop Bytes
unfolding done stop
patch_or_stop none = stop (lit "patch_not_applicable")
patch_or_stop (some patched) = done patched

reuse : PullRequest → PullRequest
reuse existing = record existing { reused = true }

-- the second look after a failed creation
settle : Bytes → Result ApiError (Option PullRequest) → Step Stop PullRequest
unfolding done fail reuse
settle commit (ok (some existing)) = done (reuse existing)
settle commit r = fail (record { code = lit "github_pr_create_failed"; commit_sha = commit })

module _ (l : Libraries) (client : Client) (proposal : Proposal) (decision : PolicyDecision) where
  abbrev pub head_branch : Bytes
  head_branch = remediation_branch proposal.investigation_id

  created_or_found : Bytes → Result ApiError PullRequest → Step Stop PullRequest
  unfolding done attempt find_open_pull_request settle ◌>>=◌
  created_or_found commit (ok created) = done (record created { commit_sha = commit })
  created_or_found commit (err e) = do
    again ← attempt (find_open_pull_request l client head_branch)
    settle commit again

  open_pull : Bytes → Step Stop PullRequest
  unfolding attempt create_pr created_or_found ◌>>=◌
  open_pull commit = do
    created ← attempt (create_pr l client head_branch proposal decision)
    created_or_found commit created

  commit_and_open : RepositoryFile → Bytes → Step Stop PullRequest
  unfolding named update_content open_pull ◌>>=◌
  commit_and_open file patched = do
    commit ←
        named (lit "github_commit_failed")
          (update_content l client head_branch file.sha patched proposal.incident_id)
    open_pull commit

  -- an existing branch holds the patch already, or the base's content, or something else
  resume : RepositoryFile → Bytes → Bytes → RepositoryFile → Step Stop PullRequest
  unfolding open_pull stop commit_and_open
  resume base_file patched sha branch_file =
      if branch_file.content == patched
      then open_pull sha
      else if not (branch_file.content == base_file.content)
      then stop (lit "github_branch_diverged")
      else commit_and_open branch_file patched

  on_branch : Bytes → RepositoryFile → Bytes → Option Bytes → Step Stop PullRequest
  unfolding named create_ref get_content commit_and_open resume ◌>>=◌
  on_branch base_sha base_file patched none = do
    made ← named (lit "github_branch_create_failed") (create_ref l client head_branch base_sha)
    commit_and_open base_file patched
  on_branch base_sha base_file patched (some sha) = do
    branch_file ← named (lit "github_branch_content_failed") (get_content l client head_branch)
    resume base_file patched sha branch_file

  -- once the patch is made
  with_patch : Bytes → RepositoryFile → Bytes → Step Stop PullRequest
  unfolding named find_ref on_branch ◌>>=◌
  with_patch base_sha base_file patched = do
    branch_sha ← named (lit "github_branch_lookup_failed") (find_ref l client head_branch)
    on_branch base_sha base_file patched branch_sha

  prepare : Step Stop PullRequest
  unfolding named get_ref get_content patch_or_stop with_patch ◌>>=◌
  prepare = do
    base_sha ← named (lit "github_base_ref_failed") (get_ref l client client.base_branch)
    base_file ← named (lit "github_content_read_failed") (get_content l client client.base_branch)
    patched ← patch_or_stop (generate_memory_limit_patch l.yaml base_file.content proposal)
    with_patch base_sha base_file patched

  reuse_or_prepare : Option PullRequest → Step Stop PullRequest
  unfolding done prepare reuse
  reuse_or_prepare (some existing) = done (reuse existing)
  reuse_or_prepare none = prepare

  -- after the authorization was checked
  carry_out : Step Stop PullRequest
  unfolding named find_open_pull_request reuse_or_prepare ◌>>=◌
  carry_out = do
    existing ← named (lit "github_pr_lookup_failed") (find_open_pull_request l client head_branch)
    reuse_or_prepare existing

  unfoldable pub is_authorized : Bool
  is_authorized =
      decision.allowed
      && not (decision.policy_version == [])
      && proposal.target.repository == client.repository
      && proposal.target.path == client.path

  -- what is returned beside an error; Status is empty in the source
  failure : Stop → PullRequest
  failure s = record {
    id = [];
    status = pr_failed;
    repository = client.repository;
    base_branch = client.base_branch;
    head_branch = head_branch;
    number = pos 0;
    url = [];
    commit_sha = s.commit_sha;
    reused = false;
    failure_code = s.code;
    created_at = zero_time;
  }

  answer : Result Stop PullRequest → PullRequest × Bool
  unfolding failure
  answer (ok pull) = (pull, false)
  answer (err s) = (failure s, true)

  -- the pull request and whether it comes with an error, next to the requests sent
  unfoldable pub create_pull_request : (PullRequest × Bool) × List Request
  unfolding is_authorized carry_out answer failure
  create_pull_request =
      if is_authorized
      then (answer (carry_out []).0, (carry_out []).1)
      else (answer (err (record { code = lit "authorization_invalid"; commit_sha = [] })), [])
