-- ===== src/Github/Config.antt =====
-- `NewClient` and the checks of names in internal/github/client.go. url.Parse is a parameter.
use incident_pilot.Common.{
  Bool, false, not, ◌&&◌, ◌||◌, Option, none, some, [], ◌∷◌, ◌++◌, length, take, any, ltb, eqb,
  if◌then◌else◌, Result, ok, err,
}
use mathlib.Core.List.{reverse}
use incident_pilot.Text.{Bytes, lit, ◌==◌, has_prefix, has_suffix, contains, to_lower}
use incident_pilot.Text.Regex.{matches}
use incident_pilot.Text.Split.{split, without}
use incident_pilot.Remediation.Patterns.{repository_pattern, path_pattern, branch_pattern}

-- url.URL, with User told by whether it is there, and its String
pub record Url : Type 0 where
  pub scheme : Bytes
  pub host : Bytes
  pub hostname : Bytes
  pub has_user : Bool
  pub raw_query : Bytes
  pub fragment : Bytes
  pub text : Bytes

pub record Client : Type 0 where
  pub base_url : Bytes
  pub token : Bytes
  pub repository : Bytes
  pub base_branch : Bytes
  pub path : Bytes

unfoldable pub local_host : Bytes → Bool
unfolding to_lower has_suffix lit
local_host name =
    let host = to_lower name in
    host == lit "localhost"
    || host == lit "127.0.0.1"
    || host == lit "::1"
    || has_suffix host (lit ".svc")
    || has_suffix host (lit ".svc.cluster.local")

is_dots : Bytes → Bool
unfolding lit
is_dots part = part == lit "." || part == lit ".."

unfoldable pub safe_path : Bytes → Bool
unfolding is_dots has_prefix contains split any
safe_path path =
    if not (matches path_pattern path) || has_prefix path (lit "/") || contains path (lit "..")
    then false
    else not (any (λ part. part == [] || is_dots part) (split b'/' path))

unfoldable pub valid_repository : Bytes → Bool
unfolding is_dots contains split any
valid_repository repository =
    if not (matches repository_pattern repository)
    then false
    else not (any (λ part. is_dots part || contains part (lit "..")) (split b'/' repository))

unfoldable pub valid_pull_url : (Bytes → Option Url) → Bytes → Bool
unfolding lit
valid_pull_url parse raw = elim (parse raw) [
  | none ↦ false
  | some u ↦
      u.scheme == lit "https"
      && not (u.host == [])
      && not u.has_user
      && u.fragment == []
      && not (ltb 2048 (length raw))
]

-- strings.TrimRight(s, "/"), on the reversed text
drop_slashes : Bytes → Bytes
drop_slashes [] = []
drop_slashes (c ∷ s) = let rest = drop_slashes s in if eqb c b'/' then rest else c ∷ s

unfoldable pub trim_slashes : Bytes → Bytes
unfolding drop_slashes
trim_slashes s = reverse (drop_slashes (reverse s))

bad_url : Url → Bool
unfolding lit
bad_url u =
    (not (u.scheme == lit "https") && not (u.scheme == lit "http"))
    || u.host == []
    || u.has_user
    || not (u.raw_query == [])
    || not (u.fragment == [])

-- `has_http` says that the HTTP client is not nil
unfoldable pub new_client :
    (Bytes → Option Url) → Bool → Bytes → Bytes → Bytes → Bytes → Bytes → Result Bytes Client
unfolding bad_url local_host valid_repository safe_path trim_slashes
new_client parse has_http base_url token repository base_branch path = elim (parse base_url) [
  | none ↦ err (lit "GitHub write API URL must be a fixed http(s) base URL")
  | some u ↦
      if bad_url u
      then err (lit "GitHub write API URL must be a fixed http(s) base URL")
      else if u.scheme == lit "http" && not (local_host u.hostname)
      then err
          (lit "unencrypted GitHub write API is allowed only for loopback or in-cluster services")
      else if not has_http
          || ltb (length token) 20
          || not (valid_repository repository)
          || not (matches branch_pattern base_branch)
          || not (safe_path path)
      then err (
          lit
            "GitHub write client requires HTTP, token, repository, base branch, and safe path configuration")
      else ok (record {
        base_url = trim_slashes u.text;
        token = token;
        repository = repository;
        base_branch = base_branch;
        path = path;
      })
]

-- strings.ReplaceAll(s, "-", "") of the lowered ID, cut after twelve bytes
unfoldable pub remediation_branch : Bytes → Bytes
unfolding to_lower without
remediation_branch investigation_id =
    let compact = without (eqb b'-') (to_lower investigation_id) in
    lit "incidentpilot-oom-" ++ (if ltb 12 (length compact) then take 12 compact else compact)
