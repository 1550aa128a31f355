-- ===== src/Github/Responses.antt =====
-- The answers of GitHub's API that internal/github/client.go reads.
use incident_pilot.Common.{Option, some, [], ◌∷◌, ◌>>=◌}
use incident_pilot.Common.Int.{ℤ}
use incident_pilot.Text.{Bytes}
use incident_pilot.Json.{Json, string_at, int_at}

pub record RepositoryFile : Type 0 where
  pub sha : Bytes
  pub content : Bytes

pub record ContentResponse : Type 0 where
  pub type : Bytes
  pub path : Bytes
  pub sha : Bytes
  pub encoding : Bytes
  pub content : Bytes

pub record RefResponse : Type 0 where
  pub ref : Bytes
  pub type : Bytes
  pub sha : Bytes

pub record PullResponse : Type 0 where
  pub number : ℤ
  pub html_url : Bytes
  pub state : Bytes
  pub head_ref : Bytes
  pub head_sha : Bytes
  pub base_ref : Bytes

unfoldable pub read_content : Json → Option ContentResponse
unfolding string_at
read_content v = do
  type ← string_at ("type" ∷ []) v
  path ← string_at ("path" ∷ []) v
  sha ← string_at ("sha" ∷ []) v
  encoding ← string_at ("encoding" ∷ []) v
  content ← string_at ("content" ∷ []) v
  some (record { type = type; path = path; sha = sha; encoding = encoding; content = content })

unfoldable pub read_ref : Json → Option RefResponse
unfolding string_at
read_ref v = do
  ref ← string_at ("ref" ∷ []) v
  type ← string_at ("object" ∷ "type" ∷ []) v
  sha ← string_at ("object" ∷ "sha" ∷ []) v
  some (record { ref = ref; type = type; sha = sha })

-- commit.sha of the answer to a commit
unfoldable pub read_commit : Json → Option Bytes
unfolding string_at
read_commit v = string_at ("commit" ∷ "sha" ∷ []) v

unfoldable pub read_pull : Json → Option PullResponse
unfolding string_at int_at
read_pull v = do
  number ← int_at ("number" ∷ []) v
  html_url ← string_at ("html_url" ∷ []) v
  state ← string_at ("state" ∷ []) v
  head_ref ← string_at ("head" ∷ "ref" ∷ []) v
  head_sha ← string_at ("head" ∷ "sha" ∷ []) v
  base_ref ← string_at ("base" ∷ "ref" ∷ []) v
  some (record {
    number = number;
    html_url = html_url;
    state = state;
    head_ref = head_ref;
    head_sha = head_sha;
    base_ref = base_ref;
  })
