-- ===== src/Github/Create/Writes.antt =====
-- The writes to GitHub that an approved remediation makes.
use incident_pilot.Common.{
  ℕ, ◌≤◌, ◌≡◌, refl, ◌≢◌, ◌⊎◌, ◌++◌, inl, inr, true, false, Option, none, some, [], All, map,
  Bool-cases, Result, ok, err, arith,
}
use incident_pilot.Text.{Bytes, lit, ◌==◌, ==_iff}
use incident_pilot.Json.{bool, str, obj, end, member}
use incident_pilot.Text.Split.{split, join}
use incident_pilot.Remediation.Types.{Proposal, PolicyDecision, PullRequest}
use incident_pilot.Github.Config.{Client}
use incident_pilot.Github.Http.{Request, get, post, put, ApiError, Step, done, fail, ◌>>=◌}
use incident_pilot.Github.Http.Tame.{
  writes, Tame, done-Tame, fail-Tame, bind-Tame, attempt-Tame, or_fail-Tame,
}
use incident_pilot.Github.Responses.{RepositoryFile}
use incident_pilot.Github.Patch.{generate_memory_limit_patch}
use incident_pilot.Github.Client.{
  Libraries, repository_path, create_ref_request, update_request, create_pull_request_request,
  get_content, get_ref,
}
use incident_pilot.Github.Client.Requests.{
  update_request-path, get_content-Tame, find_ref-Tame, get_ref-Tame, create_ref-Tame,
  update_content-Tame, find_open_pull_request-Tame, create_pr-Tame,
}
use incident_pilot.Github.Create.{
  Stop, named, stop, patch_or_stop, reuse, settle, head_branch, created_or_found, open_pull,
  commit_and_open, resume, on_branch, with_patch, prepare, reuse_or_prepare, carry_out,
  is_authorized, create_pull_request,
}

module _ (l : Libraries) (client : Client) (proposal : Proposal) (decision : PolicyDecision) where
  abbrev pub branch : Bytes
  branch = head_branch l client proposal decision

  -- a read, or one of three writes; the branch that they name is in all the same
  pub data Permitted (r : Request) : Type 0 where
    reads : r.method ≡ get → Permitted r
    -- makes the branch, at a commit
    makes_branch :
        (sha : Bytes)
        → r.method ≡ post
        → r.path ≡ repository_path l client (lit "git/refs")
        → r.body
          ≡ some (
              obj (
                member
                  (lit "ref")
                  (str (lit "refs/heads/" ++ branch))
                  (member (lit "sha") (str sha) end)))
        → Permitted r
    -- commits to the branch, at the client's path, a patch of some content
    commits :
        (blob content patched message : Bytes)
        → generate_memory_limit_patch l.yaml content proposal ≡ some patched
        → r.method ≡ put
        → r.path
          ≡ repository_path l client (lit "contents")
            ++ (lit "/" ++ join (lit "/") (map l.path_escape (split b'/' client.path)))
        → r.body
          ≡ some (
              obj (
                member (lit "branch") (str branch) (
                  member
                    (lit "content")
                    (str (l.encode_base64 patched))
                    (member (lit "message") (str message) (member (lit "sha") (str blob) end)))))
        → Permitted r
    -- opens a pull request of the branch to the client's base branch
    opens :
        (body title : Bytes)
        → r.method ≡ post
        → r.path ≡ repository_path l client (lit "pulls")
        → r.body
          ≡ some (
              obj (
                member (lit "base") (str client.base_branch) (
                  member (lit "body") (str body) (
                    member (lit "head") (str branch) (
                      member
                        (lit "maintainer_can_modify")
                        (bool false)
                        (member (lit "title") (str title) end))))))
        → Permitted r

  create_ref_request-Permitted : (sha : Bytes) → Permitted (create_ref_request l client branch sha)
  unfolding create_ref_request
  create_ref_request-Permitted sha = makes_branch sha refl refl refl

  update_request-Permitted :
      (blob content patched : Bytes)
      → generate_memory_limit_patch l.yaml content proposal ≡ some patched
      → Permitted (update_request l client branch blob patched proposal.incident_id)
  unfolding update_request
  update_request-Permitted blob content patched made =
      commits blob content patched _ made refl
        (update_request-path l client branch blob patched proposal.incident_id) refl

  create_pull_request_request-Permitted :
      Permitted (create_pull_request_request l client branch proposal decision)
  unfolding create_pull_request_request
  create_pull_request_request-Permitted = opens _ _ refl refl refl

  -- what must hold before anything is sent
  pub record Authorized : Type 0 where
    pub allowed : decision.allowed ≡ true
    pub has_policy : decision.policy_version ≢ []
    pub own_repository : proposal.target.repository ≡ client.repository
    pub own_path : proposal.target.path ≡ client.path

  is_authorized-Authorized : is_authorized l client proposal decision ≡ true → Authorized
  unfolding is_authorized
  is_authorized-Authorized h = record {
    allowed = ground (arith, h);
    has_policy = λ e. ground (arith, h, (==_iff decision.policy_version []).1 e);
    own_repository = (==_iff _ _).0 (ground (arith, h));
    own_path = (==_iff _ _).0 (ground (arith, h));
  }

  abbrev TameStep : (A : Type 0) → ℕ → Step Stop A → Type 0
  TameStep = Tame Permitted Stop

  allow : (r : Request) → r.method ≡ get → Permitted r
  allow r e = reads e

  named-Tame :
      {A : Type 0} (n : ℕ) (code : Bytes) (m : Step ApiError A)
      → Tame Permitted ApiError A n m
      → TameStep A n (named code m)
  unfolding named
  named-Tame n code m = or_fail-Tame Permitted n _ m

  settle-Tame :
      (commit : Bytes) (r : Result ApiError (Option PullRequest))
      → TameStep PullRequest 0 (settle commit r)
  unfolding settle
  settle-Tame commit (ok (some existing)) = done-Tame Permitted Stop 0 (reuse existing)
  settle-Tame commit (ok none) = fail-Tame Permitted PullRequest 0 _
  settle-Tame commit (err e) = fail-Tame Permitted PullRequest 0 _

  created_or_found-Tame :
      (commit : Bytes) (r : Result ApiError PullRequest)
      → TameStep PullRequest 0 (created_or_found l client proposal decision commit r)
  unfolding created_or_found
  created_or_found-Tame commit (ok created) =
      done-Tame Permitted Stop 0 (record created { commit_sha = commit })
  created_or_found-Tame commit (err e) =
      bind-Tame Permitted 0 0 _ (settle commit)
        (attempt-Tame Permitted Stop 0 _
          (find_open_pull_request-Tame l client Permitted allow branch))
        (settle-Tame commit)

  open_pull-Tame :
      (commit : Bytes) → TameStep PullRequest 1 (open_pull l client proposal decision commit)
  unfolding open_pull
  open_pull-Tame commit =
      bind-Tame Permitted 1 0 _ (created_or_found l client proposal decision commit)
        (attempt-Tame Permitted Stop 1 _ (
          create_pr-Tame l client Permitted allow branch proposal decision
            create_pull_request_request-Permitted))
        (created_or_found-Tame commit)

  -- the patch was made from some content
  abbrev IsPatch : Bytes → Type 0
  IsPatch patched =
      (content : Bytes) × (generate_memory_limit_patch l.yaml content proposal ≡ some patched)

  commit_and_open-Tame :
      (file : RepositoryFile) (patched : Bytes)
      → IsPatch patched
      → TameStep PullRequest 2 (commit_and_open l client proposal decision file patched)
  unfolding commit_and_open
  commit_and_open-Tame file patched (content, made) =
      bind-Tame Permitted 1 1 _ (open_pull l client proposal decision)
        (named-Tame 1 _ _ (
          update_content-Tame l client Permitted allow branch file.sha patched proposal.incident_id
            (update_request-Permitted file.sha content patched made)))
        open_pull-Tame

  weaken : {A : Type 0} (n k : ℕ) (m : Step Stop A) → n ≤ k → TameStep A n m → TameStep A k m
  unfolding Tame
  weaken n k m le tame sent fine =
      let (allowed, few) = tame sent fine in (allowed, omega (arith, few, le))

  resume-Tame :
      (base_file branch_file : RepositoryFile) (patched sha : Bytes)
      → IsPatch patched
      → TameStep PullRequest 2 (resume l client proposal decision base_file patched sha branch_file)
  unfolding resume
  resume-Tame base_file branch_file patched sha made =
      elim (Bool-cases (branch_file.content == patched)) [
        | inl e ↦
            rw (e, resume)
              (weaken 1 2 (open_pull l client proposal decision sha) (omega arith)
                (open_pull-Tame sha))
        | inr e ↦ elim (Bool-cases (branch_file.content == base_file.content)) [
          | inl f ↦ rw (e, f, resume) (commit_and_open-Tame branch_file patched made)
          | inr f ↦ rw (e, f, resume) (fail-Tame Permitted PullRequest 2 _)
        ]
      ]

  on_branch-Tame :
      (base_sha : Bytes) (base_file : RepositoryFile) (patched : Bytes) (o : Option Bytes)
      → IsPatch patched
      → TameStep PullRequest 3 (on_branch l client proposal decision base_sha base_file patched o)
  unfolding on_branch
  on_branch-Tame base_sha base_file patched none made =
      bind-Tame Permitted 1 2 _ (λ u. commit_and_open l client proposal decision base_file patched)
        (named-Tame 1 _ _ (
          create_ref-Tame l client Permitted allow branch base_sha
            (create_ref_request-Permitted base_sha)))
        (λ u. commit_and_open-Tame base_file patched made)
  on_branch-Tame base_sha base_file patched (some sha) made = weaken 2 3 _ (omega arith) (
      bind-Tame Permitted 0 2 _ (resume l client proposal decision base_file patched sha)
        (named-Tame 0 _ _ (get_content-Tame l client Permitted allow branch))
        (λ branch_file. resume-Tame base_file branch_file patched sha made))

  with_patch-Tame :
      (base_sha : Bytes) (base_file : RepositoryFile) (patched : Bytes)
      → IsPatch patched
      → TameStep PullRequest 3 (with_patch l client proposal decision base_sha base_file patched)
  unfolding with_patch
  with_patch-Tame base_sha base_file patched made =
      bind-Tame Permitted 0 3 _ (on_branch l client proposal decision base_sha base_file patched)
        (named-Tame 0 _ _ (find_ref-Tame l client Permitted allow branch))
        (λ o. on_branch-Tame base_sha base_file patched o made)

  patched-Tame :
      (base_sha : Bytes) (base_file : RepositoryFile)
      → TameStep PullRequest 3 (
          patch_or_stop (generate_memory_limit_patch l.yaml base_file.content proposal)
          >>= with_patch l client proposal decision base_sha base_file)
  unfolding patch_or_stop done stop fail ◌>>=◌ Tame
  patched-Tame base_sha base_file =
      go (generate_memory_limit_patch l.yaml base_file.content proposal) refl
    where
      go :
          (o : Option Bytes)
          → generate_memory_limit_patch l.yaml base_file.content proposal ≡ o
          → TameStep PullRequest 3
              (patch_or_stop o >>= with_patch l client proposal decision base_sha base_file)
      go none q =
          fail-Tame Permitted {E = Stop} PullRequest 3
            (record { code = lit "patch_not_applicable"; commit_sha = [] })
      go (some patched) q = with_patch-Tame base_sha base_file patched (base_file.content, q)

  prepare-Tame : TameStep PullRequest 3 (prepare l client proposal decision)
  unfolding prepare
  prepare-Tame =
      bind-Tame Permitted 0 3
        (named (lit "github_base_ref_failed") (get_ref l client client.base_branch)) _
        (named-Tame 0 _ _ (get_ref-Tame l client Permitted allow client.base_branch))
        (λ base_sha.
          bind-Tame Permitted 0 3
            (named (lit "github_content_read_failed") (get_content l client client.base_branch)) _
            (named-Tame 0 _ _ (get_content-Tame l client Permitted allow client.base_branch))
            (λ base_file. patched-Tame base_sha base_file))

  reuse_or_prepare-Tame :
      (o : Option PullRequest)
      → TameStep PullRequest 3 (reuse_or_prepare l client proposal decision o)
  unfolding reuse_or_prepare
  reuse_or_prepare-Tame (some existing) = done-Tame Permitted Stop 3 (reuse existing)
  reuse_or_prepare-Tame none = prepare-Tame

  carry_out-Tame : TameStep PullRequest 3 (carry_out l client proposal decision)
  unfolding carry_out
  carry_out-Tame =
      bind-Tame Permitted 0 3 _ (reuse_or_prepare l client proposal decision)
        (named-Tame 0 _ _ (find_open_pull_request-Tame l client Permitted allow branch))
        reuse_or_prepare-Tame

  -- Whatever GitHub answers, each request of an attempt is a GET or one of three writes: a POST that
  -- makes the branch that is named after the investigation, a PUT at the client's path that commits to
  -- that branch a patch that the generator made of some content, or a POST that opens a pull request
  -- from that branch to the client's base branch. At most three requests write. Either no request is
  -- sent, or the decision allows and names its policy, and the proposal is for the client's
  -- repository and path.
  pub create_pull_request-Permitted :
      All Permitted (create_pull_request l client proposal decision).1
      × (writes (create_pull_request l client proposal decision).1 ≤ 3)
      × (Authorized ⊎ ((create_pull_request l client proposal decision).1 ≡ []))
  unfolding create_pull_request Tame writes
  create_pull_request-Permitted = elim (Bool-cases (is_authorized l client proposal decision)) [
    | inl e ↦
        let (allowed, few) = carry_out-Tame [] tt in
        rw (e, create_pull_request) (allowed, omega (arith, few), inl (is_authorized-Authorized e))
    | inr e ↦ rw (e, create_pull_request) (tt, omega arith, inr refl)
  ]
