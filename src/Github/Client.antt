-- ===== src/Github/Client.antt =====
-- The calls of GitHub's API in internal/github/client.go, and `CreatePullRequest`, which makes them in
-- order. Base64 and url.PathEscape are parameters.
pub mod Requests
pub mod Pulls
use incident_pilot.Common.{
  ℕ, ◌*◌, Bool, true, false, not, ◌&&◌, ◌||◌, Option, none, some, List, [], ◌∷◌, ◌++◌, length, map,
  eqb, ltb, any, if◌then◌else◌, Result, ok, err,
}
use incident_pilot.Common.Int.{ℤ, pos, lt_int}
use incident_pilot.Text.{Bytes, lit, ◌==◌, to_lower}
use incident_pilot.Text.Regex.{matches}
use incident_pilot.Text.Split.{split, join, without}
use incident_pilot.Time.{zero_time}
use incident_pilot.Json.{Json, bool, str, obj, end, member, string_at, int_at, list_at}
use incident_pilot.Remediation.Types.{Proposal, PolicyDecision, PullRequest, pr_failed}
use incident_pilot.Remediation.Patterns.{commit_pattern}
use incident_pilot.Github.Config.{Client, Url, valid_pull_url, remediation_branch}
use incident_pilot.Github.Http.{
  Method, get, post, put, Request, Server, ApiError, api_status, failed, Step, done, fail, ◌>>=◌,
  attempt, output, no_output, do_json,
}
use incident_pilot.Github.Responses.{
  RepositoryFile, ContentResponse, RefResponse, PullResponse, read_content, read_ref, read_commit,
  read_pull,
}
use incident_pilot.Github.Patch.{Yaml, generate_memory_limit_patch}

pub record Libraries : Type 0 where
  pub server : Server
  pub yaml : Yaml
  pub parse_url : Bytes → Option Url
  pub path_escape : Bytes → Bytes
  pub decode_base64 : Bytes → Option Bytes
  pub encode_base64 : Bytes → Bytes

split_repository : Client → Bytes × Bytes
unfolding split
split_repository client = elim (split b'/' client.repository) [
  | [] ↦ ([], [])
  | owner ∷ rest ↦ elim rest [ [] ↦ (owner, []) | name ∷ others ↦ (owner, name) ]
]

-- the characters that the Replacer removes
abbrev is_space : ℕ → Bool
is_space c = eqb c 10 || eqb c 13 || eqb c 32 || eqb c 9

-- what a step asks for after its answer was read
require : {A : Type 0} → Bool → A → Step ApiError A
unfolding done fail
require fine a = if fine then done a else fail failed

module _ (l : Libraries) (client : Client) where
  unfoldable pub repository_path : Bytes → Bytes
  unfolding split_repository
  repository_path resource =
      let parts = split_repository client in
      lit "/repos/"
      ++ (l.path_escape parts.0 ++ (lit "/" ++ (l.path_escape parts.1 ++ (lit "/" ++ resource))))

  escape_path : Bytes → Bytes
  unfolding split join
  escape_path path = join (lit "/") (map l.path_escape (split b'/' path))

  content_path : Bytes
  unfolding repository_path escape_path
  content_path = repository_path (lit "contents") ++ (lit "/" ++ escape_path client.path)

  file_of : ContentResponse → Option Bytes → Step ApiError RepositoryFile
  unfolding fail require
  file_of response none = fail failed
  file_of response (some decoded) =
      require (not (decoded == []) && not (ltb (256 * 1024) (length decoded)))
        (record { sha = to_lower response.sha; content = decoded })

  read_file : ContentResponse → Step ApiError RepositoryFile
  unfolding file_of fail without
  read_file response =
      if not (response.type == lit "file")
        || not (response.path == client.path)
        || not (response.encoding == lit "base64")
        || not (matches commit_pattern (to_lower response.sha))
      then fail failed
      else file_of response (l.decode_base64 (without is_space response.content))

  unfoldable pub content_request : Bytes → Request
  unfolding content_path
  content_request ref = record {
    method = get;
    path = content_path;
    query = (lit "ref", ref) ∷ [];
    body = none;
  }

  unfoldable pub get_content : Bytes → Step ApiError RepositoryFile
  unfolding do_json output content_request ◌>>=◌ read_file read_content
  get_content ref = do
    response ← do_json (output read_content) l.server (content_request ref) (200 ∷ [])
    read_file response

  -- the SHA of a branch's head, or none where the branch does not exist
  sha_of : Bytes → Result ApiError RefResponse → Step ApiError (Option Bytes)
  unfolding done fail require
  sha_of branch (err failed) = fail failed
  sha_of branch (err (api_status status)) =
      if eqb status 404 then done none else fail (api_status status)
  sha_of branch (ok response) =
      let sha = to_lower response.sha in
      require
        (response.ref == lit "refs/heads/" ++ branch
          && response.type == lit "commit"
          && matches commit_pattern sha)
        (some sha)

  unfoldable pub ref_request : Bytes → Request
  unfolding repository_path
  ref_request branch = record {
    method = get;
    path = repository_path (lit "git/ref/heads") ++ (lit "/" ++ l.path_escape branch);
    query = [];
    body = none;
  }

  unfoldable pub find_ref : Bytes → Step ApiError (Option Bytes)
  unfolding do_json output ref_request ◌>>=◌ attempt sha_of read_ref
  find_ref branch = do
    response ← attempt (do_json (output read_ref) l.server (ref_request branch) (200 ∷ []))
    sha_of branch response

  found_ref : Option Bytes → Step ApiError Bytes
  unfolding done fail
  found_ref none = fail failed
  found_ref (some sha) = done sha

  unfoldable pub get_ref : Bytes → Step ApiError Bytes
  unfolding find_ref found_ref ◌>>=◌
  get_ref branch = do sha ← find_ref branch; found_ref sha

  unfoldable pub create_ref_request : Bytes → Bytes → Request
  unfolding repository_path
  create_ref_request branch sha = record {
    method = post;
    path = repository_path (lit "git/refs");
    query = [];
    body = some (
        obj (
          member (lit "ref") (str (lit "refs/heads/" ++ branch))
            (member (lit "sha") (str sha) end)));
  }

  unfoldable pub create_ref : Bytes → Bytes → Step ApiError (Unit {0})
  unfolding do_json no_output create_ref_request
  create_ref branch sha = do_json no_output l.server (create_ref_request branch sha) (201 ∷ [])

  unfoldable pub update_request : Bytes → Bytes → Bytes → Bytes → Request
  unfolding content_path
  update_request branch blob_sha content incident_id = record {
    method = put;
    path = content_path;
    query = [];
    body = some (
        obj (
          member (lit "branch") (str branch) (
            member (lit "content") (str (l.encode_base64 content)) (
              member (lit "message")
                (str (lit "fix: restore payments-api memory limit for incident " ++ incident_id))
                (member (lit "sha") (str blob_sha) end)))));
  }

  unfoldable pub update_content : Bytes → Bytes → Bytes → Bytes → Step ApiError Bytes
  unfolding do_json output update_request ◌>>=◌ require read_commit
  update_content branch blob_sha content incident_id = do
    answer ←
        do_json (output read_commit) l.server (update_request branch blob_sha content incident_id)
          (200 ∷ 201 ∷ [])
    require (matches commit_pattern (to_lower answer)) (to_lower answer)

  -- Status, ID and CreatedAt are empty in the source, and the service sets them; the model's Status has
  -- no empty value
  unfoldable pub pull_of : Bytes → PullResponse → PullRequest
  pull_of branch response = record {
    id = [];
    status = pr_failed;
    repository = client.repository;
    base_branch = client.base_branch;
    head_branch = branch;
    number = response.number;
    url = response.html_url;
    commit_sha = to_lower response.head_sha;
    reused = false;
    failure_code = [];
    created_at = zero_time;
  }

  unfoldable pub is_open_pull : PullResponse → Bytes → Bool
  unfolding lt_int valid_pull_url
  is_open_pull response branch =
      not (lt_int response.number (pos 1))
      && response.state == lit "open"
      && response.head_ref == branch
      && response.base_ref == client.base_branch
      && matches commit_pattern (to_lower response.head_sha)
      && valid_pull_url l.parse_url response.html_url

  unfoldable pub project_pull : PullResponse → Bytes → Step ApiError PullRequest
  unfolding is_open_pull pull_of require
  project_pull response branch = require (is_open_pull response branch) (pull_of branch response)

  -- the only pull request of the list
  only_pull : Bytes → List PullResponse → Step ApiError (Option PullRequest)
  unfolding project_pull done fail ◌>>=◌
  only_pull branch [] = done none
  only_pull branch (response ∷ []) = do pull ← project_pull response branch; done (some pull)
  only_pull branch (first ∷ second ∷ others) = fail failed

  unfoldable pub pulls_request : Bytes → Request
  unfolding repository_path split_repository
  pulls_request branch = record {
    method = get;
    path = repository_path (lit "pulls");
    query =
        (lit "base", client.base_branch)
        ∷ (lit "head", (split_repository client).0 ++ (lit ":" ++ branch))
        ∷ (lit "per_page", lit "2")
        ∷ (lit "state", lit "open")
        ∷ [];
    body = none;
  }

  unfoldable pub find_open_pull_request : Bytes → Step ApiError (Option PullRequest)
  unfolding do_json output pulls_request only_pull ◌>>=◌ read_pull list_at
  find_open_pull_request branch = do
    responses ← do_json (output (list_at [] read_pull)) l.server (pulls_request branch) (200 ∷ [])
    only_pull branch responses

  pull_body : Proposal → PolicyDecision → Bytes
  unfolding join
  pull_body proposal decision =
      lit "IncidentPilot policy-approved remediation.\n\nIncident: `"
      ++ (proposal.incident_id
          ++ (lit "`\n\nInvestigation: `"
              ++ (proposal.investigation_id
                  ++ (lit "`\n\nPolicy: `"
                      ++ (decision.policy_version
                          ++ (lit "`\n\nEvidence:\n"
                              ++ (join (lit "\n")
                                    (map (λ id. lit "- `" ++ (id ++ lit "`")) proposal.evidence_ids)
                                  ++ (lit "\n\nChange: payments-api memory limit `"
                                      ++ (proposal.change.before
                                          ++ (lit "` -> `"
                                              ++ (proposal.change.after
                                                  ++ lit
                                                      "`.\n\nHuman review and merge are required.")))))))))))

  unfoldable pub create_pull_request_request : Bytes → Proposal → PolicyDecision → Request
  unfolding repository_path pull_body
  create_pull_request_request branch proposal decision = record {
    method = post;
    path = repository_path (lit "pulls");
    query = [];
    body = some (
        obj (
          member (lit "base") (str client.base_branch) (
            member (lit "body") (str (pull_body proposal decision)) (
              member (lit "head") (str branch) (
                member (lit "maintainer_can_modify") (bool false) (
                  member (lit "title") (str (lit "fix: restore payments-api memory limit"))
                    end))))));
  }

  unfoldable pub create_pr : Bytes → Proposal → PolicyDecision → Step ApiError PullRequest
  unfolding do_json output create_pull_request_request project_pull ◌>>=◌ read_pull
  create_pr branch proposal decision = do
    response ←
        do_json (output read_pull) l.server (create_pull_request_request branch proposal decision)
          (201 ∷ [])
    project_pull response branch
