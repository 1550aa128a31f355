-- ===== src/Settings.antt =====
-- internal/config/config.go: `Parse` and the checks of names. The environment, url.Parse,
-- time.ParseDuration, net.SplitHostPort and the decoder of the onboarding profile are parameters. An
-- error is its text, without what it wraps.
use incident_pilot.Common.{
  ℕ, ◌*◌, Bool, true, false, not, ◌&&◌, ◌||◌, Option, none, some, List, [], ◌∷◌, length, all, any,
  ltb, Result, ok, err, if◌then◌else◌,
}
use incident_pilot.Common.Int.{ℤ, pos, lt_int}
use incident_pilot.Text.{Bytes, lit, ◌==◌, has_prefix, contains, parse_int}
use incident_pilot.Text.Split.{split}
use incident_pilot.Text.Regex.{upper, lower, digit, one_of}
use incident_pilot.Time.{second}
use incident_pilot.Onboarding.Profile.{Profile, parse}
use incident_pilot.Github.Config.{Url, local_host}

pub record Config : Type 0 where
  pub onboarding : Profile
  pub http_addr : Bytes
  pub shutdown_timeout : ℤ
  pub database_url : Bytes
  pub webhook_token : Bytes
  pub mcp_endpoint : Bytes
  pub mcp_token : Bytes
  pub remediation_token : Bytes
  pub environment : Bytes
  pub repository : Bytes
  pub remediation_path : Bytes
  pub github_write_api_url : Bytes
  pub github_write_token : Bytes
  pub github_base_branch : Bytes

pub record Parsers : Type 0 where
  pub decode_profile : Bytes → Result Bytes Profile
  pub parse_url : Bytes → Option Url
  -- the path of a parsed URL
  pub url_path : Bytes → Bytes
  -- in nanoseconds
  pub parse_duration : Bytes → Option ℤ
  -- net.SplitHostPort
  pub split_host_port : Bytes → Option (Bytes × Bytes)

-- a letter, a digit or one of the marks; a byte above 127 belongs to no character that is allowed
name_char : Bytes → ℕ → Bool
unfolding one_of
name_char marks c = lower c || upper c || digit c || one_of marks c

unfoldable pub dns_repository_part : Bytes → Bool
unfolding name_char all lit
dns_repository_part value =
    if value == [] || ltb 100 (length value) then false else all (name_char (lit "-_.")) value

unfoldable pub repository_name : Bytes → Bool
unfolding split dns_repository_part
repository_name value = elim (split b'/' value) [
  | [] ↦ false
  | owner ∷ rest ↦ elim rest [
    | [] ↦ false
    | name ∷ others ↦ elim others [
      | [] ↦ dns_repository_part owner && dns_repository_part name
      | more ∷ and_more ↦ false
    ]
  ]
]

unfoldable pub repository_path : Bytes → Bool
unfolding name_char all contains has_prefix lit
repository_path value =
    if value == []
      || ltb 256 (length value)
      || contains value (lit "..")
      || has_prefix value (lit "/")
    then false
    else all (name_char (lit "_./-")) value

unfoldable pub branch_name : Bytes → Bool
unfolding name_char all contains lit
branch_name value =
    if value == [] || ltb 128 (length value) || contains value (lit "..")
    then false
    else all (name_char (lit "._-")) value

-- exactly one of the two is empty
one_empty : Bytes → Bytes → Bool
one_empty s t = (s == [] && not (t == [])) || (not (s == []) && t == [])

bad_mcp_url : Parsers → Bytes → Bool
unfolding lit
bad_mcp_url p endpoint = elim (p.parse_url endpoint) [
  | none ↦ true
  | some u ↦
      (not (u.scheme == lit "http") && not (u.scheme == lit "https"))
      || u.host == []
      || not (p.url_path endpoint == lit "/mcp")
      || u.has_user
      || not (u.raw_query == [])
      || not (u.fragment == [])
]

-- the text of the error about the tokens of the webhook and of the tools
token_error : Parsers → Config → Option Bytes
unfolding one_empty bad_mcp_url lit
token_error p cfg =
    if one_empty cfg.database_url cfg.webhook_token
    then some
        (lit "INCIDENTPILOT_DATABASE_URL and INCIDENTPILOT_WEBHOOK_TOKEN must be set together")
    else if not (cfg.webhook_token == []) && ltb (length cfg.webhook_token) 16
    then some (lit "INCIDENTPILOT_WEBHOOK_TOKEN must be at least 16 bytes")
    else if one_empty cfg.mcp_endpoint cfg.mcp_token
    then some (lit "INCIDENTPILOT_MCP_ENDPOINT and INCIDENTPILOT_MCP_TOKEN must be set together")
    else if cfg.mcp_endpoint == []
    then none
    else if cfg.database_url == []
    then some (lit "MCP evidence collection requires PostgreSQL")
    else if bad_mcp_url p cfg.mcp_endpoint
    then some (lit "INCIDENTPILOT_MCP_ENDPOINT must be an http(s) /mcp URL")
    else if ltb (length cfg.mcp_token) 24
    then some (lit "INCIDENTPILOT_MCP_TOKEN must be at least 24 bytes")
    else none

some_set : List Bytes → Bool
unfolding any
some_set values = any (λ value. not (value == [])) values

unfoldable pub remediation_configured : Config → Bool
unfolding some_set
remediation_configured cfg =
    some_set (cfg.remediation_token ∷ cfg.environment ∷ cfg.repository ∷ cfg.remediation_path ∷ [])

unfoldable pub github_configured : Config → Bool
unfolding some_set
github_configured cfg =
    some_set (cfg.github_write_api_url ∷ cfg.github_write_token ∷ cfg.github_base_branch ∷ [])

remediation_error : Config → Option Bytes
unfolding remediation_configured repository_name repository_path lit
remediation_error cfg =
    if remediation_configured cfg
      && (ltb (length cfg.remediation_token) 24
          || cfg.database_url == []
          || cfg.environment == []
          || not (repository_name cfg.repository)
          || not (repository_path cfg.remediation_path))
    then some (
        lit
          "remediation requires PostgreSQL, a 24-byte token, environment, owner/repository, and safe repository path")
    else none

abbrev github_text : Bytes
github_text =
    lit
      "GitHub remediation requires the remediation pipeline, a fixed API URL, 20-byte write token, and safe base branch"

github_error : Parsers → Config → Option Bytes
unfolding github_configured remediation_configured branch_name local_host lit
github_error p cfg =
    if not (github_configured cfg) then none else elim (p.parse_url cfg.github_write_api_url) [
      | none ↦ some github_text
      | some u ↦
          if not (remediation_configured cfg)
            || (not (u.scheme == lit "https") && not (u.scheme == lit "http"))
            || u.host == []
            || u.has_user
            || not (u.raw_query == [])
            || not (u.fragment == [])
            || ltb (length cfg.github_write_token) 20
            || not (branch_name cfg.github_base_branch)
          then some github_text
          else if u.scheme == lit "http" && not (local_host u.hostname)
          then some (
              lit
                "INCIDENTPILOT_GITHUB_WRITE_API_URL must use HTTPS outside loopback or the cluster")
          else none
    ]

-- strconv.Atoi of the port, from 1 to 65535
valid_port : Bytes → Bool
unfolding parse_int lt_int
valid_port port =
    let (n, fine) = parse_int port in fine && not (lt_int n (pos 1)) && not (lt_int (pos 65535) n)

addr_error : Parsers → Config → Option Bytes
unfolding valid_port lit
addr_error p cfg = elim (p.split_host_port cfg.http_addr) [
  | none ↦ some (lit "INCIDENTPILOT_HTTP_ADDR must be host:port")
  | some parts ↦
      if valid_port parts.1
      then none
      else some (lit "INCIDENTPILOT_HTTP_ADDR must use a port from 1 to 65535")
]

-- the first error
first_error : List (Option Bytes) → Option Bytes
first_error [] = none
first_error (e ∷ es) = let rest = first_error es in elim e [ some text ↦ some text | none ↦ rest ]

checked : Parsers → Config → Result Bytes Config
unfolding token_error remediation_error github_error addr_error first_error
checked p cfg =
    elim (first_error
      (token_error p cfg ∷ remediation_error cfg ∷ github_error p cfg ∷ addr_error p cfg ∷ [])) [
        | some text ↦ err text
        | none ↦ ok cfg
      ]

-- the default where the variable is empty, and `none` for a duration that is not positive
shutdown_of : Parsers → Bytes → Option ℤ
unfolding lt_int
shutdown_of p value =
    if value == [] then some (pos (10 * second)) else elim (p.parse_duration value) [
      | none ↦ none
      | some d ↦ if lt_int (pos 0) d then some d else none
    ]

config_of : (Bytes → Bytes) → Profile → ℤ → Config
unfolding lit
config_of getenv profile timeout =
    let addr = getenv (lit "INCIDENTPILOT_HTTP_ADDR") in
    record {
      onboarding = profile;
      http_addr = if addr == [] then lit ":8080" else addr;
      shutdown_timeout = timeout;
      database_url = getenv (lit "INCIDENTPILOT_DATABASE_URL");
      webhook_token = getenv (lit "INCIDENTPILOT_WEBHOOK_TOKEN");
      mcp_endpoint = getenv (lit "INCIDENTPILOT_MCP_ENDPOINT");
      mcp_token = getenv (lit "INCIDENTPILOT_MCP_TOKEN");
      remediation_token = getenv (lit "INCIDENTPILOT_REMEDIATION_TOKEN");
      environment = getenv (lit "INCIDENTPILOT_ENVIRONMENT");
      repository = getenv (lit "INCIDENTPILOT_REPOSITORY");
      remediation_path = getenv (lit "INCIDENTPILOT_REMEDIATION_PATH");
      github_write_api_url = getenv (lit "INCIDENTPILOT_GITHUB_WRITE_API_URL");
      github_write_token = getenv (lit "INCIDENTPILOT_GITHUB_WRITE_TOKEN");
      github_base_branch = getenv (lit "INCIDENTPILOT_GITHUB_BASE_BRANCH");
    }

with_profile : Parsers → (Bytes → Bytes) → Profile → Result Bytes Config
unfolding shutdown_of config_of checked lit
with_profile p getenv profile =
    elim (shutdown_of p (getenv (lit "INCIDENTPILOT_SHUTDOWN_TIMEOUT"))) [
      | none ↦ err (lit "INCIDENTPILOT_SHUTDOWN_TIMEOUT must be a positive duration")
      | some timeout ↦ checked p (config_of getenv profile timeout)
    ]

unfoldable pub parse_config : Parsers → (Bytes → Bytes) → Result Bytes Config
unfolding parse with_profile lit
parse_config p getenv =
    elim (parse p.decode_profile (getenv (lit "INCIDENTPILOT_ONBOARDING_PROFILE"))) [
      | err text ↦ err text
      | ok profile ↦ with_profile p getenv profile
    ]
