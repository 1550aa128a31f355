-- ===== src/Tests/PullRequests.antt =====
-- A remediation's pull request, with a server that answers from fixed texts.
use incident_pilot.Common.{
  ℕ, zero, suc, ◌*◌, ◌≤◌, ◌≡◌, ◌≢◌, refl, ◌⊎◌, true, false, Option, some, List, [], ◌∷◌, All,
  length, if◌then◌else◌,
}
use incident_pilot.Text.{Bytes, lit, ◌==◌, has_suffix, equal_fold, to_lower, parse_int}
use incident_pilot.Text.Regex.{matches}
use incident_pilot.Common.Int.{pos}
use incident_pilot.Json.{Json, null, str}
use incident_pilot.Remediation.Types.{Proposal, PolicyDecision, policy_allowed}
use incident_pilot.Remediation.Patterns.{commit_pattern}
use incident_pilot.Github.Config.{Client, remediation_branch}
use incident_pilot.Github.Http.{Response, Method, get, post, put}
use incident_pilot.Github.Http.Tame.{writes}
use incident_pilot.Github.Patch.{
  Node, node, no_nodes, more, mapping, scalar_kind, Yaml, generate_memory_limit_patch, patch_at,
}
use incident_pilot.Github.Patch.Revert.{is_free, patch_at-revert}
use incident_pilot.Github.Patch.Local.{LimitChange, Replaced, generate_memory_limit_patch-Replaced}
use incident_pilot.Github.Client.{Libraries}
use incident_pilot.Github.Create.{create_pull_request}
use incident_pilot.Github.Create.Writes.{Permitted, Authorized, create_pull_request-Permitted}
use incident_pilot.Github.Create.Outcome.{Returned, create_pull_request-Returned}
use incident_pilot.Tests.Fixtures.{text, number, object, list_of}

values : Bytes
unfolding lit
values = lit "demo:\n  memory: 64Mi\n"

-- the values of the chart at the place of their limit
at_keys : List Bytes → Node → Node
at_keys [] n = n
at_keys (key ∷ keys) n =
    node mapping [] 1 1 (more (node scalar_kind key 1 1 no_nodes) (more (at_keys keys n) no_nodes))

parsed : Node
unfolding at_keys lit
parsed =
    at_keys (lit "demo" ∷ lit "payments" ∷ lit "resources" ∷ lit "limits" ∷ lit "memory" ∷ [])
      (node scalar_kind (lit "64Mi") 2 11 no_nodes)

abbrev yaml : Yaml
yaml = record { documents = λ content. some (parsed ∷ []); unmarshal = λ content. some parsed }

abbrev raise_limit : Proposal
raise_limit = record {
  id = lit "p";
  incident_id = lit "i1";
  investigation_id = lit "ABCD-1234";
  operation = lit "update_resource_limit";
  target = record {
    repository = lit "org/repo";
    path = lit "chart/values.yaml";
    namespace = lit "incidentpilot-demo";
    kind = lit "Deployment";
    name = lit "payments-api";
    container = lit "payments-api";
  };
  change = record { field = lit "memory_limit"; before = lit "64Mi"; after = lit "128Mi" };
  reason = lit "oom";
  evidence_ids = lit "d1" ∷ [];
  status = policy_allowed;
  created_at = 0;
}

patched_values : Bytes
unfolding lit
patched_values = lit "demo:\n  memory: 128Mi\n"

values_patched : generate_memory_limit_patch yaml values raise_limit ≡ some patched_values
unfolding generate_memory_limit_patch values patched_values parsed lit ◌==◌
values_patched = refl

generate_memory_limit_patch-Replaced_example :
    Replaced (lit "64Mi") (lit "128Mi") values patched_values
    × (values ≢ patched_values)
    × (values ≢ [])
    × (length values ≤ 256 * 1024)
    × LimitChange raise_limit
generate_memory_limit_patch-Replaced_example =
    generate_memory_limit_patch-Replaced yaml values raise_limit values_patched

abbrev sha : Bytes
sha = repeated 40
  where
    repeated : ℕ → Bytes
    repeated zero = []
    repeated (suc n) = b'a' ∷ repeated n

abbrev client : Client
client = record {
  base_url = lit "https://api.github.com";
  token = lit "abcdefghijklmnopqrstuvwxyz";
  repository = lit "org/repo";
  base_branch = lit "main";
  path = lit "chart/values.yaml";
}

abbrev reply : ℕ → Json → Option Response
reply status body = some (record { status = status; length = 10; body = some body })

opened : Json
unfolding object number text
opened = object (
    ("number", number "7")
    ∷ ("html_url", text "https://github.com/org/repo/pull/7")
    ∷ ("state", text "open")
    ∷ ("head", object (("ref", text "incidentpilot-oom-abcd1234") ∷ ("sha", str sha) ∷ []))
    ∷ ("base", object (("ref", text "main") ∷ []))
    ∷ [])

-- the answers to reads and to writes, by the end of the path
serve : Method → Bytes → Option Response
unfolding object text list_of opened values lit has_suffix ◌==◌
serve get path =
    if has_suffix path (lit "/pulls")
    then reply 200 (list_of [])
    else if has_suffix path (lit "heads/main")
    then reply 200 (
        object (
          ("ref", text "refs/heads/main")
          ∷ ("object", object (("type", text "commit") ∷ ("sha", str sha) ∷ []))
          ∷ []))
    else if has_suffix path (lit "chart/values.yaml")
    then reply 200 (
        object (
          ("type", text "file")
          ∷ ("path", text "chart/values.yaml")
          ∷ ("sha", str sha)
          ∷ ("encoding", text "base64")
          ∷ ("content", str values)
          ∷ []))
    else reply 404 null
serve post path = if has_suffix path (lit "/pulls") then reply 201 opened else reply 201 null
serve put path = reply 200 (object (("commit", object (("sha", str sha) ∷ [])) ∷ []))

abbrev libraries : Libraries
libraries = record {
  server = record { send = λ sent r. serve r.method r.path; size = λ v. 100 };
  yaml = yaml;
  parse_url = λ raw. some (record {
    scheme = lit "https";
    host = lit "github.com";
    hostname = lit "github.com";
    has_user = false;
    raw_query = [];
    fragment = [];
    text = raw;
  });
  path_escape = λ s. s;
  -- the Replacer took the spaces and line ends out
  decode_base64 = λ s. some values;
  encode_base64 = λ s. s;
}

abbrev approved : PolicyDecision
approved = record {
  id = lit "d";
  allowed = true;
  reasons = [];
  policy_version = lit "v1";
  evaluated_at = 0;
}

created_number : (create_pull_request libraries client raise_limit approved).0.0.number ≡ pos 7
unfolding create_pull_request serve opened object text list_of values parsed lit ◌==◌ has_suffix
    number equal_fold matches to_lower commit_pattern generate_memory_limit_patch remediation_branch
    parse_int
created_number = refl

three_writes : writes (create_pull_request libraries client raise_limit approved).1 ≡ 3
unfolding create_pull_request writes serve opened object text list_of values parsed lit ◌==◌
    has_suffix number equal_fold matches to_lower commit_pattern generate_memory_limit_patch
    remediation_branch parse_int
three_writes = refl

create_pull_request-Permitted_example :
    All
      (Permitted libraries client raise_limit approved)
      (create_pull_request libraries client raise_limit approved).1
    × (writes (create_pull_request libraries client raise_limit approved).1 ≤ 3)
    × (Authorized libraries client raise_limit approved
        ⊎ ((create_pull_request libraries client raise_limit approved).1 ≡ []))
create_pull_request-Permitted_example =
    create_pull_request-Permitted libraries client raise_limit approved

create_pull_request-Returned_example :
    Returned libraries client raise_limit approved
      (create_pull_request libraries client raise_limit approved).0
create_pull_request-Returned_example =
    create_pull_request-Returned libraries client raise_limit approved

second_line_patched : patch_at 1 10 (lit "64Mi") (lit "128Mi") values ≡ some patched_values
unfolding patch_at values patched_values lit ◌==◌
second_line_patched = refl

limit_free : is_free (lit "64Mi") ≡ true
unfolding is_free lit
limit_free = refl

new_limit_free : is_free (lit "128Mi") ≡ true
unfolding is_free lit
new_limit_free = refl

limit_some : lit "64Mi" ≢ []
unfolding lit
limit_some e = cc

new_limit_some : lit "128Mi" ≢ []
unfolding lit
new_limit_some e = cc

patch_at-revert_example : patch_at 1 10 (lit "128Mi") (lit "64Mi") patched_values ≡ some values
patch_at-revert_example =
    patch_at-revert (lit "64Mi") (lit "128Mi") 1 10 values limit_free new_limit_free limit_some
      new_limit_some second_line_patched
