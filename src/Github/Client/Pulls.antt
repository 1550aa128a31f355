-- ===== src/Github/Client/Pulls.antt =====
-- What the calls about commits and pull requests return.
use incident_pilot.Common.{
  ◌≡◌, refl, inl, inr, Bool, true, false, not, ◌&&◌, Option, none, some, List, [], ◌∷◌, eqb,
  Bool-cases, Result, ok, err, and_split, arith,
}
use incident_pilot.Common.Int.{pos, lt_int}
use incident_pilot.Text.{Bytes, lit, ◌==◌, ==_iff, to_lower}
use incident_pilot.Text.Regex.{matches}
use incident_pilot.Json.{list_at}
use incident_pilot.Remediation.Types.{Proposal, PolicyDecision, PullRequest}
use incident_pilot.Remediation.Patterns.{commit_pattern}
use incident_pilot.Github.Config.{Client, valid_pull_url}
use incident_pilot.Github.Http.{
  Request, get, post, ApiError, api_status, failed, done, do_json, output, attempt,
}
use incident_pilot.Github.Http.Yields.{
  Yields, done-Yields, fail-Yields, bind-Yields, any-Yields, Got, do_json-Got,
}
use incident_pilot.Github.Responses.{PullResponse, RefResponse, read_ref, read_commit, read_pull}
use incident_pilot.Github.Client.{
  Libraries, repository_path, ref_request, pulls_request, update_request,
  create_pull_request_request, require, sha_of, find_ref, update_content, pull_of, is_open_pull,
  project_pull, only_pull, find_open_pull_request, create_pr,
}

abbrev pub IsCommit : Bytes → Type 0
IsCommit sha = matches commit_pattern sha ≡ true

-- the tests of a pull request
open_pull_parts :
    (n : Bool) (state head base : Bytes) (c u : Bool) (branch own_base : Bytes)
    → (not n && state == lit "open" && head == branch && base == own_base && c && u) ≡ true
    → (n ≡ false)
      × (state ≡ lit "open")
      × (head ≡ branch)
      × (base ≡ own_base)
      × (c ≡ true)
      × (u ≡ true)
open_pull_parts n state head base c u branch own_base fine = (
  ground (arith, fine),
  (==_iff _ _).0 (ground (arith, fine)),
  (==_iff _ _).0 (ground (arith, fine)),
  (==_iff _ _).0 (ground (arith, fine)),
  ground (arith, fine),
  ground (arith, fine),
)

module _ (l : Libraries) (client : Client) (branch : Bytes) where
  -- a pull request that the server told of: the only one of a list, or the one that it made
  pub data Reported (response : PullResponse) : Type 0 where
    listed :
        (request : Request)
        → request.method ≡ get
        → request.path ≡ repository_path l client (lit "pulls")
        → Got l.server (list_at [] read_pull) request 200 (response ∷ [])
        → Reported response
    made :
        (request : Request)
        → request.method ≡ post
        → request.path ≡ repository_path l client (lit "pulls")
        → Got l.server read_pull request 201 response
        → Reported response

  -- an open pull request from the branch to the base, as the server told of it
  pub record IsPull (pull : PullRequest) : Type 0 where
    pub response : PullResponse
    pub reported : Reported response
    pub is_open : response.state ≡ lit "open"
    pub from_branch : response.head_ref ≡ branch
    pub to_base : response.base_ref ≡ client.base_branch
    pub same_number : pull.number ≡ response.number
    pub same_url : pull.url ≡ response.html_url
    pub same_repository : pull.repository ≡ client.repository
    pub same_base : pull.base_branch ≡ client.base_branch
    pub same_head : pull.head_branch ≡ branch
    pub positive : lt_int pull.number (pos 1) ≡ false
    pub has_commit : IsCommit pull.commit_sha
    pub has_url : valid_pull_url l.parse_url pull.url ≡ true

  abbrev pub Anything : ApiError → Type 0
  Anything e = Unit

  require-Yields :
      {A : Type 0} (Good : A → Type 0) (fine : Bool) (a : A)
      → (fine ≡ true → Good a)
      → Yields Good Anything (require fine a)
  unfolding require
  require-Yields Good true a good = done-Yields Good Anything a (good refl)
  require-Yields Good false a good = fail-Yields Good Anything failed tt

  project_pull-Yields :
      (response : PullResponse)
      → Reported response
      → Yields IsPull Anything (project_pull l client response branch)
  unfolding project_pull pull_of is_open_pull
  project_pull-Yields response reported =
      require-Yields IsPull (is_open_pull l client response branch)
        (pull_of l client branch response)
        (λ fine.
          let (number, state, head, base, commit, url) =
            open_pull_parts _ response.state response.head_ref response.base_ref _ _ branch
              client.base_branch fine in
          record {
            response = response;
            reported = reported;
            is_open = state;
            from_branch = head;
            to_base = base;
            same_number = refl;
            same_url = refl;
            same_repository = refl;
            same_base = refl;
            same_head = refl;
            positive = number;
            has_commit = commit;
            has_url = url;
          })

  abbrev pub MaybePull : Option PullRequest → Type 0
  MaybePull none = Unit
  MaybePull (some pull) = IsPull pull

  only_pull-Yields :
      (responses : List PullResponse)
      → Got l.server (list_at [] read_pull) (pulls_request l client branch) 200 responses
      → Yields MaybePull Anything (only_pull l client branch responses)
  unfolding only_pull pulls_request
  only_pull-Yields [] got = done-Yields MaybePull Anything none tt
  only_pull-Yields (response ∷ []) got =
      bind-Yields IsPull Anything MaybePull (project_pull l client response branch)
        (λ pull. done (some pull)) (project_pull-Yields response (listed _ refl refl got))
        (λ pull good. done-Yields MaybePull Anything (some pull) good)
  only_pull-Yields (first ∷ second ∷ others) got = fail-Yields MaybePull Anything failed tt

  pub find_open_pull_request-Yields :
      Yields MaybePull Anything (find_open_pull_request l client branch)
  unfolding find_open_pull_request
  find_open_pull_request-Yields =
      bind-Yields (Got l.server (list_at [] read_pull) (pulls_request l client branch) 200) Anything
        MaybePull
        (do_json (output (list_at [] read_pull)) l.server (pulls_request l client branch)
          (200 ∷ []))
        (only_pull l client branch)
        (do_json-Got l.server (list_at [] read_pull) (pulls_request l client branch) 200)
        only_pull-Yields

  pub create_pr-Yields :
      (proposal : Proposal) (decision : PolicyDecision)
      → Yields IsPull Anything (create_pr l client branch proposal decision)
  unfolding create_pr create_pull_request_request
  create_pr-Yields proposal decision =
      bind-Yields
        (Got l.server read_pull (create_pull_request_request l client branch proposal decision) 201)
        Anything IsPull
        (do_json (output read_pull) l.server
          (create_pull_request_request l client branch proposal decision) (201 ∷ []))
        (λ response. project_pull l client response branch)
        (do_json-Got l.server read_pull
          (create_pull_request_request l client branch proposal decision) 201)
        (λ response got. project_pull-Yields response (made _ refl refl got))

  pub update_content-Yields :
      (blob_sha content incident_id : Bytes)
      → Yields IsCommit Anything (update_content l client branch blob_sha content incident_id)
  unfolding update_content
  update_content-Yields blob_sha content incident_id =
      bind-Yields (λ a. Unit {0}) Anything IsCommit
        (do_json (output read_commit) l.server
          (update_request l client branch blob_sha content incident_id) (200 ∷ 201 ∷ []))
        (λ answer. require (matches commit_pattern (to_lower answer)) (to_lower answer))
        (any-Yields _) (λ answer u. require-Yields IsCommit _ _ (λ fine. fine))

  abbrev pub MaybeCommit : Option Bytes → Type 0
  MaybeCommit none = Unit
  MaybeCommit (some sha) = IsCommit sha

  sha_of-Yields :
      (r : Result ApiError RefResponse) → Yields MaybeCommit Anything (sha_of l client branch r)
  unfolding sha_of
  sha_of-Yields (err failed) = fail-Yields MaybeCommit Anything failed tt
  sha_of-Yields (err (api_status status)) = elim (Bool-cases (eqb status 404)) [
    | inl e ↦ rw (e, sha_of) (done-Yields MaybeCommit Anything none tt)
    | inr e ↦ rw (e, sha_of) (fail-Yields MaybeCommit Anything (api_status status) tt)
  ]
  sha_of-Yields (ok response) = require-Yields MaybeCommit _ _ (λ fine. (and_split _ _ fine).1)

  pub find_ref-Yields : Yields MaybeCommit Anything (find_ref l client branch)
  unfolding find_ref
  find_ref-Yields =
      bind-Yields (λ a. Unit {0}) Anything MaybeCommit
        (attempt (do_json (output read_ref) l.server (ref_request l client branch) (200 ∷ [])))
        (sha_of l client branch) (any-Yields _) (λ r u. sha_of-Yields r)
