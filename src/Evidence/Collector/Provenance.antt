-- ===== src/Evidence/Collector/Provenance.antt =====
-- Where the records of a collection come from.
use incident_pilot.Common.{
  ℕ, ◌+◌, ◌*◌, ◌≤◌, ◌≡◌, refl, sym, ap, subst, ◌∙◌, inl, inr, Bool, true, false, not, ◌||◌, Option,
  none, some, List, [], ◌∷◌, length, length-append, All, All-append, All-of, ltb, arith, Bool-cases,
  Result, ok, err, if◌then◌else◌, bind_some, guard-some, some_injective, ok_injective, ◌<◌,
}
use incident_pilot.Text.{Bytes, ◌==◌, ==_iff}
use incident_pilot.Time.{Time, is_zero}
use incident_pilot.Json.{Json}
use incident_pilot.Incident.{Incident}
use incident_pilot.Evidence.{Record, Report}
use incident_pilot.Evidence.Redact.{decode_any, redact_payload}
use incident_pilot.Evidence.Redact.Clean.{Clean, redact_payload-Clean}
use incident_pilot.Evidence.Observed.{compact_payload}
use incident_pilot.Evidence.Window.{window}
use incident_pilot.Evidence.Collector.Trail.{gather-Keeps}
use incident_pilot.Onboarding.Profile.{effective, allows_incident, allows_workload}
use incident_pilot.Evidence.Collector.Plan.{Item, parameters, plan}
use incident_pilot.Evidence.Collector.{
  Collector, State, ToolCall, ToolObservation, raw_of, record_of, make_record, call_of, called,
  failed, recorded, answer, collect_item, gather, finish_report, collect_bounded,
}

passed : (a b : Bool) → not (not a || b) ≡ true → (a ≡ true) × (b ≡ false)
passed true false h = (refl, refl)
passed true true h = absurd (cc h)
passed false b h = absurd (cc h)

not_above : (n m : ℕ) → not (ltb n m) ≡ true → m ≤ n
not_above n m h = ground (arith, h)

module _ (c : Collector) (inc : Incident) (start : Time) (finish : Time) where
  -- a record that stands for the answer of a tool
  pub record FromTool (r : Record) : Type 0 where
    pub same_incident : r.incident_id ≡ inc.id
    pub same_collection : r.collection_id ≡ c.new_id 0
    -- the window of telemetry, or none for a tool that reads the present
    pub windowed : Bool
    pub from_start : r.window_start ≡ (if windowed then some start else none)
    pub to_end : r.window_end ≡ (if windowed then some finish else none)
    pub before : List ToolCall
    pub arguments : Json
    pub observation : ToolObservation
    pub asked : c.call before (record { tool = r.tool; arguments = arguments }) ≡ some observation
    pub has_parameters : r.parameters ≡ some arguments
    pub same_source : observation.source ≡ r.source
    pub same_time : observation.collected_at ≡ r.collected_at
    pub timed : is_zero r.collected_at ≡ false
    pub content : Json
    pub has_content : r.payload ≡ some content
    -- what the tool answered, as it was read, and what was left of it
    pub raw : Json
    pub answered : raw_of observation ≡ some raw
    pub read : Json
    pub was_read : decode_any c.redactor (compact_payload r.tool raw) ≡ some read
    pub clean : Clean read content
    pub small : c.size content ≤ 256 * 1024

  -- the facts that a made record rests on
  abbrev Made : Bytes → Item → ToolObservation → Bytes → Json × Record → Type 0
  Made workload item obs id made =
      (obs.source ≡ item.source)
      × (is_zero obs.collected_at ≡ false)
      × ((raw : Json) × (raw_of obs ≡ some raw)
          × (read : Json) × (decode_any c.redactor (compact_payload item.tool raw) ≡ some read)
          × Clean read made.0)
      × (c.size made.0 ≤ 256 * 1024)
      × (made.1 ≡ record_of c inc start finish workload item obs id made.0)

  make_record-Made :
      (workload : Bytes) (item : Item) (obs : ToolObservation) (id : Bytes) {made : Json × Record}
      → make_record c inc start finish workload item obs id ≡ some made
      → Made workload item obs id made
  unfolding make_record
  make_record-Made workload item obs id h =
      let (tested, h1) =
        guard-some (not (not (obs.source == item.source) || is_zero obs.collected_at)) h in
      let (raw, said, h2) = bind_some (raw_of obs) h1 in
      let (payload, clean, h3) =
        bind_some (redact_payload c.redactor (compact_payload item.tool raw)) h2 in
      let (small, h4) = guard-some (not (ltb (256 * 1024) (c.size payload))) h3 in
      let (_, made) = guard-some (not (ltb 2048 (c.size (parameters item)))) h4 in
      let (same, timed) = passed (obs.source == item.source) (is_zero obs.collected_at) tested in
      let left = redact_payload-Clean c.redactor (compact_payload item.tool raw) clean in
      subst (Made workload item obs id) (some_injective made) (
        (==_iff obs.source item.source).0 same,
        timed,
        (raw, said, left.0, left.1, left.2),
        not_above _ _ small,
        refl,
      )

  -- every call is accounted for by a record or a failure, and every record comes from a tool
  abbrev pub Good : State → Type 0
  Good st = (length st.evidence + length st.failures ≡ length st.calls) × All FromTool st.evidence

  answer-FromTool :
      (st : State) (workload : Bytes) (item : Item) {made : Json × Record}
      → answer c inc start finish st workload item ≡ ok made
      → FromTool made.1
  unfolding answer record_of call_of
  answer-FromTool st workload item {made = made} h = go (c.call st.calls (call_of item)) refl
    where
      id : Bytes
      id = c.new_id (1 + length st.evidence)

      of_made :
          (obs : ToolObservation)
          → c.call st.calls (call_of item) ≡ some obs
          → Made workload item obs id made
          → FromTool made.1
      of_made obs q m =
          let (same_source, timed, clean, small, e) = m in
          subst FromTool (sym e) (record {
            same_incident = refl;
            same_collection = refl;
            windowed = item.timed;
            from_start = refl;
            to_end = refl;
            before = st.calls;
            arguments = parameters item;
            observation = obs;
            asked = q;
            has_parameters = refl;
            same_source = same_source;
            same_time = refl;
            timed = timed;
            content = made.0;
            has_content = refl;
            raw = clean.0;
            answered = clean.1;
            read = clean.2;
            was_read = clean.3;
            clean = clean.4;
            small = small;
          })

      past :
          (obs : ToolObservation) (o : Option (Json × Record))
          → c.call st.calls (call_of item) ≡ some obs
          → make_record c inc start finish workload item obs id ≡ o
          → FromTool made.1
      past obs none q e = ground (arith, q, e, h)
      past obs (some m) q e =
          of_made obs q (make_record-Made workload item obs id (ground (arith, q, e, h)))

      go : (o : Option ToolObservation) → c.call st.calls (call_of item) ≡ o → FromTool made.1
      go none q = ground (arith, q, h)
      go (some obs) q = past obs (make_record c inc start finish workload item obs id) q refl

  collect_item-Good :
      (st : State) (workload : Bytes) (item : Item)
      → Good st
      → Good (collect_item c inc start finish st workload item).1
  unfolding collect_item called failed recorded
  collect_item-Good st workload item good = go (answer c inc start finish st workload item) refl
    where
      go :
          (a : Result Bytes (Json × Record))
          → answer c inc start finish st workload item ≡ a
          → Good (collect_item c inc start finish st workload item).1
      go (err reason) q =
          rw (q, collect_item)
            (
              omega (
                arith,
                good.0,
                length-append st.calls (call_of item ∷ []),
                length-append st.failures (record { tool = item.tool; reason = reason } ∷ []),
              ),
              good.1,
            )
      go (ok made) q =
          rw (q, collect_item)
            (
              omega (
                arith,
                good.0,
                length-append st.calls (call_of item ∷ []),
                length-append st.evidence (made.1 ∷ []),
              ),
              All-append FromTool st.evidence (made.1 ∷ []) good.1
                  (answer-FromTool st workload item q, tt),
            )

  gather-Good :
      (workload metric : Bytes) (include_changes : Bool)
      → Good (gather c inc start finish workload metric include_changes)
  gather-Good workload metric include_changes =
      gather-Keeps c inc start finish workload (λ w item. Unit {0}) Good
        (λ st w item fits good. collect_item-Good st w item good) metric include_changes
        (λ item more payload e. tt)
        (All-of (λ item. tt)
          (plan c.format_time (effective c.profile) inc workload metric start finish))
        (tt, tt, (λ payload e. tt), (λ payload e. tt)) (refl, tt)

module _ (c : Collector) (inc : Incident) where
  -- a report of a collection, next to the calls that were made for it
  pub record Accounted (report : Report) (calls : List ToolCall) : Type 0 where
    pub in_window : window inc c.now ≡ some (report.window_start, report.window_end)
    pub same_incident : report.incident_id ≡ inc.id
    pub not_empty : 0 < length report.evidence
    pub stored : c.save_batch report.evidence ≡ true
    pub counted : length report.evidence + length report.failures ≡ length calls
    pub from_tools : All (FromTool c inc report.window_start report.window_end) report.evidence

  finish_report-Accounted :
      (start finish : Time) (workload metric : Bytes) (include_changes : Bool) {report : Report}
      → window inc c.now ≡ some (start, finish)
      → (finish_report c inc start finish
          (gather c inc start finish workload metric include_changes))
        ≡ ok report
      → Accounted report (gather c inc start finish workload metric include_changes).calls
  unfolding finish_report
  finish_report-Accounted start finish workload metric include_changes {report = report} w h =
      elim (Bool-cases (ltb 0 (length st.evidence))) [
        | inr e ↦ absurd (cc (rw (e, finish_report) at h))
        | inl e ↦ elim (Bool-cases (c.save_batch st.evidence)) [
          | inr f ↦ absurd (cc (rw (e, f, finish_report) at h))
          | inl f ↦
              subst (λ r. Accounted r st.calls) (ok_injective (rw (e, f, finish_report) at h))
                (record {
                  in_window = w;
                  same_incident = refl;
                  not_empty = ground (arith, e);
                  stored = f;
                  counted = good.0;
                  from_tools = good.1;
                })
        ]
      ]
    where
      st : State
      st = gather c inc start finish workload metric include_changes

      good : Good c inc start finish st
      good = gather-Good c inc start finish workload metric include_changes

  -- A collection that ends in a report was made for an incident and a workload in the profile's scope.
  -- The report is about that incident and its window and was stored. Each of its tool calls left one
  -- record or one failure, and there is a record. Each record names the incident and the
  -- collection; it has the source, the time, the tool and the parameters of a call that a tool answered,
  -- and the time is not the zero time. Its payload is that of the answer, compacted, with secret
  -- members and inline credentials masked, and is at most 256 KiB long.
  pub collect_bounded-Accounted :
      (workload metric : Bytes) (include_changes : Bool) {report : Report}
      → (collect_bounded c inc workload metric include_changes).0 ≡ ok report
      → (allows_incident (effective c.profile) inc.namespace inc.service inc.alert_name ≡ true)
        × (allows_workload (effective c.profile) workload ≡ true)
        × Accounted report (collect_bounded c inc workload metric include_changes).1
  unfolding collect_bounded
  collect_bounded-Accounted workload metric include_changes {report = report} h =
      elim (Bool-cases c.configured) [
        | inr e ↦ absurd (cc (rw (e, collect_bounded) at h))
        | inl e ↦ go (window inc c.now) refl e
      ]
    where
      allowed : Bool
      allowed = allows_incident (effective c.profile) inc.namespace inc.service inc.alert_name

      Claim : Type 0
      Claim =
          (allowed ≡ true)
          × (allows_workload (effective c.profile) workload ≡ true)
          × Accounted report (collect_bounded c inc workload metric include_changes).1

      accounted :
          (start finish : Time)
          → window inc c.now ≡ some (start, finish)
          → collect_bounded c inc workload metric include_changes ≡ (
            finish_report c inc start finish
                (gather c inc start finish workload metric include_changes),
            (gather c inc start finish workload metric include_changes).calls,
          )
          → Accounted report (collect_bounded c inc workload metric include_changes).1
      accounted start finish w q = subst (Accounted report) (sym (ap (λ p. p.1) q)) (
          finish_report-Accounted start finish workload metric include_changes w
            (sym (ap (λ p. p.0) q) ∙ h))

      go : (w : Option (Time × Time)) → window inc c.now ≡ w → c.configured ≡ true → Claim
      go none w e = absurd (cc (rw (e, w, collect_bounded) at h))
      go (some (start, finish)) w e =
          elim (Bool-cases (not allowed || not (allows_workload (effective c.profile) workload))) [
            | inl f ↦ absurd (cc (rw (e, w, f, collect_bounded) at h))
            | inr f ↦ (
              ground (arith, f),
              ground (arith, f),
              accounted start finish w (rw (e, w, f, collect_bounded) refl),
            )
          ]
