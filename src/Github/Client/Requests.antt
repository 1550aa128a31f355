-- ===== src/Github/Client/Requests.antt =====
-- The requests of each call of the API.
use incident_pilot.Common.{
  ◌≡◌, refl, inl, inr, Bool, true, false, not, ◌||◌, Option, none, some, List, [], ◌∷◌, ◌++◌, map,
  eqb, Bool-cases, Result, ok, err,
}
use incident_pilot.Text.{Bytes, lit, ◌==◌, to_lower}
use incident_pilot.Text.Regex.{matches}
use incident_pilot.Text.Split.{without, split, join}
use incident_pilot.Json.{list_at}
use incident_pilot.Remediation.Types.{Proposal, PolicyDecision, PullRequest}
use incident_pilot.Remediation.Patterns.{commit_pattern}
use incident_pilot.Github.Config.{Client}
use incident_pilot.Github.Http.{Request, get, ApiError, api_status, failed, done, output, no_output}
use incident_pilot.Github.Http.Tame.{
  weight, Tame, done-Tame, fail-Tame, bind-Tame, attempt-Tame, do_json-Tame,
}
use incident_pilot.Github.Responses.{
  ContentResponse, read_content, read_ref, read_commit, read_pull, RefResponse, PullResponse,
  RepositoryFile,
}
use incident_pilot.Github.Client.{
  Libraries, content_request, ref_request, pulls_request, require, file_of, read_file, get_content,
  sha_of, find_ref, found_ref, get_ref, create_ref_request, create_ref, update_request,
  update_content, project_pull, only_pull, find_open_pull_request, create_pull_request_request,
  create_pr, is_space, repository_path, content_path, escape_path,
}

-- the path under which the client's file is written, each part of it escaped
pub update_request-path :
    (l : Libraries) (client : Client) (branch blob_sha content incident_id : Bytes)
    → (update_request l client branch blob_sha content incident_id).path
      ≡ repository_path l client (lit "contents")
        ++ (lit "/" ++ join (lit "/") (map l.path_escape (split b'/' client.path)))
unfolding update_request content_path escape_path
update_request-path l client branch blob_sha content incident_id = refl

module _ (l : Libraries) (client : Client) (Allowed : Request → Type 0)
    (reads : (r : Request) → r.method ≡ get → Allowed r) where
  require-Tame : {A : Type 0} (fine : Bool) (a : A) → Tame Allowed ApiError A 0 (require fine a)
  unfolding require
  require-Tame {A = A} true a = done-Tame Allowed ApiError 0 a
  require-Tame {A = A} false a = fail-Tame Allowed A 0 failed

  file_of-Tame :
      (response : ContentResponse) (o : Option Bytes)
      → Tame Allowed ApiError RepositoryFile 0 (file_of l client response o)
  unfolding file_of
  file_of-Tame response none = fail-Tame Allowed _ 0 failed
  file_of-Tame response (some decoded) = require-Tame _ _

  read_file-Tame :
      (response : ContentResponse)
      → Tame Allowed ApiError RepositoryFile 0 (read_file l client response)
  unfolding read_file
  read_file-Tame response =
      elim (Bool-cases (
        not (response.type == lit "file")
        || not (response.path == client.path)
        || not (response.encoding == lit "base64")
        || not (matches commit_pattern (to_lower response.sha)))) [
          | inl e ↦ rw (e, read_file) (fail-Tame Allowed RepositoryFile 0 failed)
          | inr e ↦
              rw (e, read_file)
                (file_of-Tame response (l.decode_base64 (without is_space response.content)))
        ]

  pub get_content-Tame :
      (ref : Bytes) → Tame Allowed ApiError RepositoryFile 0 (get_content l client ref)
  unfolding get_content weight
  get_content-Tame ref =
      bind-Tame Allowed 0 0 _ (read_file l client)
        (do_json-Tame Allowed (output read_content) l.server (content_request l client ref)
          (200 ∷ []) (reads _ refl))
        read_file-Tame

  sha_of-Tame :
      (branch : Bytes) (r : Result ApiError RefResponse)
      → Tame Allowed ApiError (Option Bytes) 0 (sha_of l client branch r)
  unfolding sha_of
  sha_of-Tame branch (err failed) = fail-Tame Allowed _ 0 failed
  sha_of-Tame branch (err (api_status status)) = elim (Bool-cases (eqb status 404)) [
    | inl e ↦ rw (e, sha_of) (done-Tame Allowed ApiError 0 none)
    | inr e ↦ rw (e, sha_of) (fail-Tame Allowed (Option Bytes) 0 (api_status status))
  ]
  sha_of-Tame branch (ok response) = require-Tame _ _

  pub find_ref-Tame :
      (branch : Bytes) → Tame Allowed ApiError (Option Bytes) 0 (find_ref l client branch)
  unfolding find_ref weight
  find_ref-Tame branch =
      bind-Tame Allowed 0 0 _ (sha_of l client branch)
        (attempt-Tame Allowed ApiError 0 _ (
          do_json-Tame Allowed (output read_ref) l.server (ref_request l client branch) (200 ∷ [])
            (reads _ refl)))
        (sha_of-Tame branch)

  found_ref-Tame : (o : Option Bytes) → Tame Allowed ApiError Bytes 0 (found_ref l client o)
  unfolding found_ref
  found_ref-Tame none = fail-Tame Allowed _ 0 failed
  found_ref-Tame (some sha) = done-Tame Allowed _ 0 sha

  pub get_ref-Tame : (branch : Bytes) → Tame Allowed ApiError Bytes 0 (get_ref l client branch)
  unfolding get_ref
  get_ref-Tame branch =
      bind-Tame Allowed 0 0 _ (found_ref l client) (find_ref-Tame branch) found_ref-Tame

  pub create_ref-Tame :
      (branch sha : Bytes)
      → Allowed (create_ref_request l client branch sha)
      → Tame Allowed ApiError (Unit {0}) 1 (create_ref l client branch sha)
  unfolding create_ref weight create_ref_request
  create_ref-Tame branch sha =
      do_json-Tame Allowed no_output l.server (create_ref_request l client branch sha) (201 ∷ [])

  pub update_content-Tame :
      (branch blob_sha content incident_id : Bytes)
      → Allowed (update_request l client branch blob_sha content incident_id)
      → Tame Allowed ApiError Bytes 1 (update_content l client branch blob_sha content incident_id)
  unfolding update_content weight update_request
  update_content-Tame branch blob_sha content incident_id allowed =
      bind-Tame Allowed 1 0 _
        (λ answer. require (matches commit_pattern (to_lower answer)) (to_lower answer))
        (do_json-Tame Allowed (output read_commit) l.server
          (update_request l client branch blob_sha content incident_id) (200 ∷ 201 ∷ []) allowed)
        (λ sha. require-Tame _ _)

  project_pull-Tame :
      (response : PullResponse) (branch : Bytes)
      → Tame Allowed ApiError PullRequest 0 (project_pull l client response branch)
  unfolding project_pull
  project_pull-Tame response branch = require-Tame _ _

  only_pull-Tame :
      (branch : Bytes) (responses : List PullResponse)
      → Tame Allowed ApiError (Option PullRequest) 0 (only_pull l client branch responses)
  unfolding only_pull
  only_pull-Tame branch [] = done-Tame Allowed _ 0 none
  only_pull-Tame branch (response ∷ []) =
      bind-Tame Allowed 0 0 (project_pull l client response branch) (λ pull. done (some pull))
        (project_pull-Tame response branch) (λ pull. done-Tame Allowed _ 0 (some pull))
  only_pull-Tame branch (first ∷ second ∷ others) = fail-Tame Allowed _ 0 failed

  pub find_open_pull_request-Tame :
      (branch : Bytes)
      → Tame Allowed ApiError (Option PullRequest) 0 (find_open_pull_request l client branch)
  unfolding find_open_pull_request weight
  find_open_pull_request-Tame branch =
      bind-Tame Allowed 0 0 _ (only_pull l client branch)
        (do_json-Tame Allowed (output (list_at [] read_pull)) l.server
          (pulls_request l client branch) (200 ∷ []) (reads _ refl))
        (only_pull-Tame branch)

  pub create_pr-Tame :
      (branch : Bytes) (proposal : Proposal) (decision : PolicyDecision)
      → Allowed (create_pull_request_request l client branch proposal decision)
      → Tame Allowed ApiError PullRequest 1 (create_pr l client branch proposal decision)
  unfolding create_pr weight create_pull_request_request
  create_pr-Tame branch proposal decision allowed =
      bind-Tame Allowed 1 0 _ (λ response. project_pull l client response branch)
        (do_json-Tame Allowed (output read_pull) l.server
          (create_pull_request_request l client branch proposal decision) (201 ∷ []) allowed)
        (λ response. project_pull-Tame response branch)
