-- ===== src/Evidence/Collector/Scope.antt =====
-- What the tools of a collection are asked for.
use incident_pilot.Common.{
  ℕ, ◌≡◌, refl, sym, ap, subst, inl, inr, Bool, true, false, not, ◌&&◌, ◌||◌, Option, none, some,
  List, [], ◌∷◌, ◌++◌, length, All, All-append, all, any, ltb, arith, Bool-cases, Result, ok, err,
  some_injective,
}
use incident_pilot.Text.{Bytes, lit, ◌==◌, ==_refl}
use incident_pilot.Time.{Time}
use incident_pilot.Json.{Json, null, str, obj, list_at, string_at}
use incident_pilot.Incident.{Incident}
use incident_pilot.Onboarding.Profile.{effective, allows_incident, allows_workload}
use incident_pilot.Evidence.{Record}
use incident_pilot.Evidence.Window.{window}
use incident_pilot.Evidence.Summary.{value_of}
use incident_pilot.Evidence.Observed.{
  CrashStatus, crashes, first_crash, read_pod, first_hex, valid_pod_name, hex_char, hex_of_length,
  crash_loop_pod, newest_revision, first_trace_id,
}
use incident_pilot.Evidence.Collector.Plan.{
  Item, members_of, about, over, metric_range, logs, traces, orders_config, parameters, plan,
  pod_logs, trace_of, application, history, at_revision, commit_of, diff_of,
}
use incident_pilot.Evidence.Collector.{
  Collector, State, ToolCall, call_of, called, failed, recorded, answer, collect_item, follow_up,
  container_of, pod_follow_up, trace_follow_up, gather, finish_report, collect_bounded,
}
use incident_pilot.Evidence.Collector.Trail.{gather-Keeps}

-- the tools that only read
abbrev readers : List Bytes
readers =
    lit "kubernetes_get_deployment"
    ∷ lit "kubernetes_get_orders_config"
    ∷ lit "kubernetes_get_service"
    ∷ lit "kubernetes_get_endpointslices"
    ∷ lit "kubernetes_get_pods"
    ∷ lit "kubernetes_get_events"
    ∷ lit "kubernetes_get_pod_logs"
    ∷ lit "prometheus_get_demo_metric_range"
    ∷ lit "loki_get_demo_logs"
    ∷ lit "tempo_search_demo_traces"
    ∷ lit "tempo_get_trace"
    ∷ lit "argocd_get_application"
    ∷ lit "argocd_get_revision_history"
    ∷ lit "github_get_commit"
    ∷ lit "github_get_diff"
    ∷ []

-- an argument is missing, or a text that passes the test
passes : (Bytes → Bool) → Bytes → Json → Bool
passes test key (obj ms) = elim (value_of key ms) [ null ↦ true | str s ↦ test s | v ↦ false ]
passes test key v = false

hexadecimal : ℕ → ℕ → Bytes → Bool
hexadecimal lo hi s = not (ltb (length s) lo) && not (ltb hi (length s)) && all hex_char s

-- a call of a reader about the workload and the window, whose other names are well formed
unfoldable pub in_scope : Bytes → Bytes → Bytes → ToolCall → Bool
unfolding passes hexadecimal
in_scope workload first last call =
    any (λ t. t == call.tool) readers
    && passes (λ s. s == workload) (lit "workload") call.arguments
    && passes (λ s. s == first) (lit "start") call.arguments
    && passes (λ s. s == last) (lit "end") call.arguments
    && passes (λ s. valid_pod_name s workload) (lit "pod") call.arguments
    && passes (hexadecimal 7 64) (lit "revision") call.arguments
    && passes (hexadecimal 16 32) (lit "trace_id") call.arguments

hex_of_length-hexadecimal :
    (lo hi : ℕ) (s : Bytes)
    → (hex_of_length lo hi s == []) ≡ false
    → hexadecimal lo hi (hex_of_length lo hi s) ≡ true
unfolding hex_of_length hexadecimal ◌==◌
hex_of_length-hexadecimal lo hi s h = elim (Bool-cases (ltb (length s) lo || ltb hi (length s))) [
  | inl e ↦ absurd (cc (rw (e, hex_of_length) at h))
  | inr e ↦ elim (Bool-cases (all hex_char s)) [
    | inl f ↦ rw (e, f, hex_of_length) (ground (arith, e, f))
    | inr f ↦ absurd (cc (rw (e, f, hex_of_length) at h))
  ]
]

first_hex-hexadecimal :
    (lo hi : ℕ) (o : Option (List Bytes))
    → (first_hex lo hi o == []) ≡ false
    → hexadecimal lo hi (first_hex lo hi o) ≡ true
unfolding first_hex ◌==◌
first_hex-hexadecimal lo hi none h = absurd (cc h)
first_hex-hexadecimal lo hi (some []) h = absurd (cc h)
first_hex-hexadecimal lo hi (some (s ∷ ss)) h = hex_of_length-hexadecimal lo hi s h

first_trace_id-hexadecimal :
    (raw : Json)
    → (first_trace_id raw == []) ≡ false
    → hexadecimal 16 32 (first_trace_id raw) ≡ true
unfolding first_trace_id
first_trace_id-hexadecimal raw =
    first_hex-hexadecimal 16 32 (list_at ("traces" ∷ []) (string_at ("traceID" ∷ [])) raw)

newest_revision-hexadecimal :
    (raw : Json)
    → (newest_revision raw == []) ≡ false
    → hexadecimal 7 64 (newest_revision raw) ≡ true
unfolding newest_revision
newest_revision-hexadecimal raw =
    first_hex-hexadecimal 7 64 (list_at ("deployments" ∷ []) (string_at ("revision" ∷ [])) raw)

any-valid :
    (workload container pod : Bytes) (statuses : List CrashStatus)
    → any (crashes workload container pod) statuses ≡ true
    → valid_pod_name pod workload ≡ true
unfolding any crashes
any-valid workload container pod [] h = absurd (cc h)
any-valid workload container pod (s ∷ ss) h = ground (arith, h, any-valid workload container pod ss)

first_crash-valid :
    (workload container : Bytes) (pods : List (Bytes × List CrashStatus))
    → (first_crash workload container pods == []) ≡ false
    → valid_pod_name (first_crash workload container pods) workload ≡ true
unfolding first_crash ◌==◌
first_crash-valid workload container [] h = absurd (cc h)
first_crash-valid workload container (p ∷ ps) h =
    elim (Bool-cases (any (crashes workload container p.0) p.1)) [
      | inl e ↦ rw (e, first_crash) (any-valid workload container p.0 p.1 e)
      | inr e ↦
          rw (e, first_crash) (first_crash-valid workload container ps (rw (e, first_crash) at h))
    ]

crash_loop_pod-valid :
    (raw : Json) (workload container : Bytes)
    → (crash_loop_pod raw workload container == []) ≡ false
    → valid_pod_name (crash_loop_pod raw workload container) workload ≡ true
unfolding crash_loop_pod ◌==◌
crash_loop_pod-valid raw workload container h = go (list_at ("items" ∷ []) read_pod raw) h
  where
    found : Option (List (Bytes × List CrashStatus)) → Bytes
    found o = elim o [ none ↦ [] | some pods ↦ first_crash workload container pods ]

    go :
        (o : Option (List (Bytes × List CrashStatus)))
        → (found o == []) ≡ false
        → valid_pod_name (found o) workload ≡ true
    go none k = absurd (cc k)
    go (some pods) k = first_crash-valid workload container pods k

module _ (c : Collector) (inc : Incident) (start : Time) (finish : Time) (workload : Bytes) where
  Scoped : ToolCall → Type 0
  Scoped call = in_scope workload (c.format_time start) (c.format_time finish) call ≡ true

  abbrev Fits : Bytes → Item → Type 0
  Fits w item = Scoped (call_of item)

  collect_item-Scoped :
      (st : State) (w : Bytes) (item : Item)
      → Fits w item
      → All Scoped st.calls
      → All Scoped (collect_item c inc start finish st w item).1.calls
  unfolding collect_item failed recorded called
  collect_item-Scoped st w item fits scoped = go (answer c inc start finish st w item)
    where
      added : All Scoped (st.calls ++ call_of item ∷ [])
      added = All-append Scoped st.calls (call_of item ∷ []) scoped (fits, tt)

      go :
          (a : Result Bytes (Json × Record))
          → All Scoped
              (elim a as (λ x. Option Json × State) [
                | err reason ↦ (none, failed st item reason)
                | ok made ↦ (some made.0, recorded st item made.1)
              ]).1.calls
      go (err reason) = added
      go (ok made) = added

  about-Fits :
      (tool source : Bytes)
      → any (λ t. t == tool) readers ≡ true
      → Fits workload (about tool source workload)
  unfolding about Scoped in_scope passes call_of parameters members_of lit ◌==◌ value_of
  about-Fits tool source h = rw (h, ==_refl workload) refl

  orders_config-Fits : Fits workload orders_config
  unfolding Scoped in_scope passes call_of parameters members_of any lit ◌==◌ value_of
  orders_config-Fits = refl

  metric-Fits :
      (metric : Bytes) → Fits workload (metric_range c.format_time workload metric start finish)
  unfolding metric_range over Scoped in_scope passes call_of parameters members_of any lit ◌==◌
      value_of
  metric-Fits metric =
      rw (==_refl workload, ==_refl (c.format_time start), ==_refl (c.format_time finish)) refl

  logs-Fits : Fits workload (logs c.format_time workload start finish)
  unfolding logs over Scoped in_scope passes call_of parameters members_of any lit ◌==◌ value_of
  logs-Fits =
      rw (==_refl workload, ==_refl (c.format_time start), ==_refl (c.format_time finish)) refl

  traces-Fits : Fits workload (traces c.format_time inc workload start finish)
  unfolding traces over Scoped in_scope passes call_of parameters members_of any lit ◌==◌ value_of
  traces-Fits =
      rw (==_refl workload, ==_refl (c.format_time start), ==_refl (c.format_time finish)) refl

  history-Fits : Fits [] (history c.format_time start finish)
  unfolding history over Scoped in_scope passes call_of parameters members_of any lit ◌==◌ value_of
  history-Fits = rw (==_refl (c.format_time start), ==_refl (c.format_time finish)) refl

  at_revision-Fits :
      (tool source revision : Bytes)
      → any (λ t. t == tool) readers ≡ true
      → hexadecimal 7 64 revision ≡ true
      → Fits [] (at_revision c.format_time tool source revision start finish)
  unfolding at_revision over Scoped in_scope passes call_of parameters members_of lit ◌==◌ value_of
  at_revision-Fits tool source revision h k =
      rw (h, k, ==_refl (c.format_time start), ==_refl (c.format_time finish)) refl

  plan-Fits :
      (metric : Bytes)
      → All
          (Fits workload)
          (plan c.format_time (effective c.profile) inc workload metric start finish)
  unfolding plan any lit ◌==◌
  plan-Fits metric = elim (Bool-cases ((effective c.profile).mode == lit "demo")) [
    | inl e ↦ elim (Bool-cases (workload == lit "orders-api")) [
      | inl f ↦ rw (e, f, plan) (about-Fits _ _ refl, (orders_config-Fits, measured))
      | inr f ↦ rw (e, f, plan) (about-Fits _ _ refl, measured)
    ]
    | inr e ↦
        rw (e, plan)
          ((
            about-Fits _ _ refl,
            (
              about-Fits _ _ refl,
              (about-Fits _ _ refl, (about-Fits _ _ refl, (about-Fits _ _ refl, (logs-Fits, tt)))),
            ),
          ))
  ]
    where
      measured : All (Fits workload) (
          about (lit "kubernetes_get_service") (lit "kubernetes/service") workload
          ∷ about (lit "kubernetes_get_endpointslices") (lit "kubernetes/endpointslices") workload
          ∷ about (lit "kubernetes_get_pods") (lit "kubernetes/pods") workload
          ∷ about (lit "kubernetes_get_events") (lit "kubernetes/events") workload
          ∷ metric_range c.format_time workload metric start finish
          ∷ logs c.format_time workload start finish
          ∷ traces c.format_time inc workload start finish
          ∷ [])
      measured = (
        about-Fits _ _ refl,
        (
          about-Fits _ _ refl,
          (
            about-Fits _ _ refl,
            (about-Fits _ _ refl, (metric-Fits metric, (logs-Fits, (traces-Fits, tt)))),
          ),
        ),
      )

  pod_logs-Fits :
      (pod : Bytes) → valid_pod_name pod workload ≡ true → Fits workload (pod_logs inc workload pod)
  unfolding pod_logs Scoped in_scope passes call_of parameters members_of any lit ◌==◌ value_of
  pod_logs-Fits pod h = rw (h, ==_refl workload) refl

  trace_of-Fits :
      (trace_id : Bytes) → hexadecimal 16 32 trace_id ≡ true → Fits workload (trace_of trace_id)
  unfolding trace_of Scoped in_scope passes call_of parameters members_of any lit ◌==◌ value_of
  trace_of-Fits trace_id h = rw h refl

  application-Fits : Fits [] application
  unfolding application Scoped in_scope passes call_of parameters members_of any lit ◌==◌ value_of
  application-Fits = refl

  follow_up-Fits :
      (item more : Item) (payload : Json)
      → follow_up c inc start finish workload item payload ≡ some more
      → Fits workload more
  unfolding follow_up
  follow_up-Fits item more payload h = elim (Bool-cases (item.tool == lit "kubernetes_get_pods")) [
    | inl e ↦
        of_pod _ (crash_loop_pod-valid payload workload (container_of c workload))
          (rw (e, follow_up) at h)
    | inr e ↦
        elim (Bool-cases (
          item.tool == lit "tempo_search_demo_traces"
          && (effective c.profile).mode == lit "demo")) [
            | inl f ↦ of_trace _ (first_trace_id-hexadecimal payload) (rw (e, f, follow_up) at h)
            | inr f ↦ absurd (cc (rw (e, f, follow_up) at h))
          ]
  ]
    where
      of_pod :
          (pod : Bytes)
          → ((pod == []) ≡ false → valid_pod_name pod workload ≡ true)
          → pod_follow_up inc workload pod ≡ some more
          → Fits workload more
      of_pod pod valid q = elim (Bool-cases (pod == [])) [
        | inl e ↦ absurd (cc (rw (e, pod_follow_up) at q))
        | inr e ↦
            subst (Fits workload) (some_injective (rw (e, pod_follow_up) at q))
              (pod_logs-Fits pod (valid e))
      ]

      of_trace :
          (trace_id : Bytes)
          → ((trace_id == []) ≡ false → hexadecimal 16 32 trace_id ≡ true)
          → trace_follow_up trace_id ≡ some more
          → Fits workload more
      of_trace trace_id valid q = elim (Bool-cases (trace_id == [])) [
        | inl e ↦ absurd (cc (rw (e, trace_follow_up) at q))
        | inr e ↦
            subst (Fits workload) (some_injective (rw (e, trace_follow_up) at q))
              (trace_of-Fits trace_id (valid e))
      ]

  gather-Scoped :
      (metric : Bytes) (include_changes : Bool)
      → All Scoped (gather c inc start finish workload metric include_changes).calls
  unfolding commit_of diff_of any lit ◌==◌
  gather-Scoped metric include_changes =
      gather-Keeps c inc start finish workload Fits (λ st. All Scoped st.calls) collect_item-Scoped
        metric include_changes follow_up-Fits (plan-Fits metric)
        (
          application-Fits,
          history-Fits,
          (λ payload e. at_revision-Fits _ _ _ refl (newest_revision-hexadecimal payload e)),
          (λ payload e. at_revision-Fits _ _ _ refl (newest_revision-hexadecimal payload e)),
        )
        tt

-- Whatever the tools answer, and whether or not the collection ends in a report, each of its calls is
-- of one of the fifteen tools that only read. A workload among its arguments is the collection's, a
-- start and an end are those of the incident's window, a pod is a valid name that starts with the
-- workload's, a revision is 7 to 64 hexadecimal digits and a trace ID 16 to 32.
pub collect_bounded-Scoped :
    (c : Collector) (inc : Incident) (workload metric : Bytes) (include_changes : Bool)
    {start finish : Time}
    → window inc c.now ≡ some (start, finish)
    → All
        (λ call. in_scope workload (c.format_time start) (c.format_time finish) call ≡ true)
        (collect_bounded c inc workload metric include_changes).1
unfolding collect_bounded Scoped
collect_bounded-Scoped c inc workload metric include_changes {start = start} {finish = finish} w =
    elim (Bool-cases c.configured) [
      | inr e ↦ rw (e, collect_bounded) tt
      | inl e ↦
          elim (Bool-cases (
            not (allows_incident (effective c.profile) inc.namespace inc.service inc.alert_name)
            || not (allows_workload (effective c.profile) workload))) [
              | inl f ↦ rw (e, w, f, collect_bounded) tt
              | inr f ↦
                  subst (All (Scoped c inc start finish workload))
                    (sym (ap (λ p. p.1) (reached e f)))
                    (gather-Scoped c inc start finish workload metric include_changes)
            ]
    ]
  where
    reached :
        c.configured ≡ true
        → (not (allows_incident (effective c.profile) inc.namespace inc.service inc.alert_name)
            || not (allows_workload (effective c.profile) workload))
          ≡ false
        → collect_bounded c inc workload metric include_changes ≡ (
          finish_report c inc start finish
              (gather c inc start finish workload metric include_changes),
          (gather c inc start finish workload metric include_changes).calls,
        )
    reached e f = rw (e, w, f, collect_bounded) refl
