-- ===== src/Tests/Environments.antt =====
-- Environments that the configuration refuses.
use incident_pilot.Common.{◌≡◌, refl, none, some, [], err, if◌then◌else◌}
use incident_pilot.Text.{Bytes, lit, ◌==◌}
use incident_pilot.Settings.{Parsers, parse_config}

-- nothing is a profile, a URL or a duration, and every address has the port 80
abbrev parsers : Parsers
parsers = record {
  decode_profile = λ raw. err (lit "none");
  parse_url = λ raw. none;
  url_path = λ raw. [];
  parse_duration = λ raw. none;
  split_host_port = λ addr. some ([], lit "80");
}

abbrev half_configured : Bytes → Bytes
half_configured name = if name == lit "INCIDENTPILOT_DATABASE_URL" then lit "postgres://db" else []

needs_both :
    parse_config parsers half_configured
    ≡ err (lit "INCIDENTPILOT_DATABASE_URL and INCIDENTPILOT_WEBHOOK_TOKEN must be set together")
unfolding parse_config lit ◌==◌
needs_both = refl

abbrev bad_timeout : Bytes → Bytes
bad_timeout name = if name == lit "INCIDENTPILOT_SHUTDOWN_TIMEOUT" then lit "-1s" else []

needs_duration :
    parse_config parsers bad_timeout
    ≡ err (lit "INCIDENTPILOT_SHUTDOWN_TIMEOUT must be a positive duration")
unfolding parse_config lit ◌==◌
needs_duration = refl
