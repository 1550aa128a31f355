-- ===== src/Lib.antt =====
-- Verification of incidentpilot, the service that investigates an incident of a demo checkout and
-- proposes a change for it.
--
-- The parts of the program and their models:
--   internal/incident, internal/evidence: Incident, Evidence (records, reports) and Evidence.Window
--     (`Window`).
--   internal/evidence/collector.go: Evidence.Collector. Plan holds the tool calls, Collector the loop
--     over them (`collect`, `collectChanges`, `makeRecord`); Evidence.Redact is `redactPayload`,
--     with the expression `sensitiveText` in Evidence.Redact.Inline,
--     Evidence.Observed the readers of tool results, Evidence.Summary `summarize`.
--   internal/github/client.go: Github. Config holds `NewClient` and the checks of names, Http `doJSON`,
--     Client the calls of the API, Create `CreatePullRequest`, Patch `GenerateMemoryLimitPatch`. A
--     call is a step that passes on the list of requests sent.
--   internal/agent/verify.go: Agent.Verify. One module per verifier (Oom, ImagePull, OrderConfig,
--     Selector, Cpu, Payment); each loop over the records is a `step` on the verifier's variables,
--     and `conclude` is what follows the loop. Claims holds `verifyClaim` and `supportedCause`.
--     Agent.Payloads reads the JSON payloads, with `projectTrace` of internal/agent/brief.go.
--   internal/agent/agent.go: Agent.Chat (`chat`) and Agent.Investigate (`Run` in demo mode: the
--     targeted collections, the analysis of the model's answer, and `validIDs`).
--   internal/agent/external_verify.go: Agent.External (the payload readers and the verifiers of an
--     external profile).
--   internal/llm/llm.go: Llm (`FailureCode` and the parts of an answer that are read) and Llm.Validate
--     (`validateRequest`, `validateResponse`).
--   internal/demo/payment_memory.go: Demo (`grow`).
--   internal/httpapi/handler.go: Webhook (`decodeWebhook`).
--   internal/config/config.go: Settings (`Parse`).
--   internal/onboarding/profile.go: Onboarding. Profile holds `Parse` and the queries of a profile.
--   internal/remediation/remediation.go: Remediation. Validate, SameIds and Memory hold the helpers,
--     Service the whole of `Request` and `Get`.
--   internal/policy/evaluator.go, policies/remediation.rego: Policy.Evaluator and Policy.Rules.
-- The investigator's report, with its verified root cause, is what the remediation service loads; the
-- service asks the policy and calls the executor, the GitHub client, which opens a pull request. The
-- investigator reads the records that the collector makes.
--
-- Common holds the shared helpers, Text the byte strings with the functions of strings, strconv and
-- regexp that are used, Json the decoding of encoding/json, Sorting the order of sort.Strings, and Time
-- instants as nanoseconds. Integers of 64 bits wrap as written in Common.Int.
--
-- Parameters stand for what is not in the repository: float64 (Agent.Payloads.Floats), the OPA
-- engine, uuid, the parsers of JSON text, YAML, URLs and times, base64, the clock, contexts, and the
-- answers of tools, collectors, stores, providers, executors and GitHub (Evidence.Collector.Collector,
-- Agent.Investigate.Analysis.World, Agent.Chat.Turn, Remediation.Service.Services,
-- Github.Client.Libraries). An error of such a call is its text, or none where no caller reads it.
--
-- Loops are recursion on lists, or on the number of turns left. The call of the model runs on fuel 2,
-- which is enough because every error after a retry is final; the targeted collections make at most two
-- turns by their own bound.
--
-- Not modelled: traces and metrics; the text of the prompt, except that its answer is arbitrary;
-- the guards of `Run` before its first collection, its save, and its choice of the external mode;
-- storage, the handlers of the HTTP servers, the providers' clients, the tools of
-- internal/investigation and the commands.
-- A member that JSON repeats counts once, by its last value, also where encoding/json would merge
-- two objects.
pub mod Common
pub mod Text
pub mod Json
pub mod Time
pub mod Incident
pub mod Evidence
pub mod Github
pub mod Llm
pub mod Onboarding
pub mod Agent
pub mod Sorting
pub mod Remediation
pub mod Policy
pub mod Demo
pub mod Webhook
pub mod Settings
pub mod Tests
