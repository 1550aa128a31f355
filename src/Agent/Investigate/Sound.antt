-- ===== src/Agent/Investigate/Sound.antt =====
-- What every report of an investigation satisfies.
use incident_pilot.Common.{
  ◌≡◌, refl, sym, subst, ap, ◌≤◌, Bool, true, false, Option, none, some, List, [], ◌++◌, All,
  All-map, All-Memᴰ, Memᴰ, map, length, leb, Result, ok, err, arith, ◌⊎◌, inl, inr, ◌≢◌,
}
use incident_pilot.Text.{Bytes, lit}
use incident_pilot.Json.{unmarshal}
use incident_pilot.Incident.{Incident}
use incident_pilot.Evidence
use incident_pilot.Llm.{ChatResponse}
use incident_pilot.Agent.Types.{
  Report, RootCause, Hypothesis, root_cause_found, insufficient_evidence,
}
use incident_pilot.Agent.Payloads.{Floats}
use incident_pilot.Agent.Chat.{Counters, ChatFailure, chat, max_llm_calls, chat_ends, chat_budget}
use incident_pilot.Agent.Verify.Cited.{id_of}
use incident_pilot.Agent.Verify.Claims.{verify_claim}
use incident_pilot.Agent.Verify.Sound.{verify_claim-Holds}
use incident_pilot.Agent.Investigate.Ids.{
  valid_ids, valid_ids_lem, add_hypotheses, Settled, add_hypotheses-Settled,
}
use incident_pilot.Agent.Investigate.Targets.{
  Progress, Collected-Matches, collect_targets, collect_targets-Collected,
}
use incident_pilot.Agent.Investigate.Analysis.{
  World, Answer, read_answer, finish, conclude, counters_of, with_counters, after_chat, analyse,
  investigate, start_of, after_loop, gathered,
}

-- a report before its conclusion
pub record Open (r : Report) : Type 0 where
  pub no_hypotheses : r.hypotheses ≡ []
  pub no_cause : r.root_cause ≡ none
  pub unfound : r.status ≡ insufficient_evidence
  pub calls : r.llm_calls ≤ 2
  pub retries : r.llm_retries ≤ 1

-- a root cause that rests on the report's evidence
abbrev pub Found : Report → Type 0
Found r =
    (rc : RootCause) × (r.root_cause ≡ some rc)
    × (r.status ≡ root_cause_found)
    × (r.reason ≡ lit "")
    × All (λ id. Memᴰ id r.evidence_ids) rc.evidence_ids

pub record Sound (r : Report) : Type 0 where
  pub concluded : ((r.root_cause ≡ none) × (r.status ≡ insufficient_evidence)) ⊎ Found r
  pub few_calls : r.llm_calls ≤ 2
  pub few_retries : r.llm_retries ≤ 1
  pub few_hypotheses : length r.hypotheses ≤ 5
  pub settled : All (Settled r.evidence_ids) r.hypotheses

finish-Sound : (r : Report) (reason : Bytes) → Open r → Sound (finish r reason)
finish-Sound r reason o = record {
  concluded = inl (o.no_cause, o.unfound);
  few_calls = o.calls;
  few_retries = o.retries;
  few_hypotheses = omega (arith, ap length o.no_hypotheses);
  settled = subst (All (Settled r.evidence_ids)) (sym o.no_hypotheses) tt;
}

claim-All :
    (floats : Floats) (records : List Evidence.Record) (ids : List Bytes) (component cause : Bytes)
    {rc : RootCause}
    → (verify_claim floats records (valid_ids ids (map id_of records)) component cause).0 ≡ some rc
    → All (λ id. Memᴰ id (map id_of records)) rc.evidence_ids
claim-All floats records ids component cause {rc = rc} h =
    let valid = map id_of records in
    let holds = verify_claim-Holds floats records (valid_ids ids valid) component cause h in
    All-map rc.evidence_ids
      (λ id g. All-Memᴰ (λ x. Memᴰ x valid) (valid_ids ids valid) (valid_ids_lem ids valid).0 g.0)
      holds.2

-- the hypotheses that are kept for a report without any
kept_lem :
    (r : Report) (valid : List Bytes) (hs : List Hypothesis)
    → Open r
    → (length (add_hypotheses valid r.hypotheses hs) ≤ 5)
      × All (Settled valid) (add_hypotheses valid r.hypotheses hs)
kept_lem r valid hs o =
    add_hypotheses-Settled valid r.hypotheses hs (omega (arith, ap length o.no_hypotheses))
      (subst (All (Settled valid)) (sym o.no_hypotheses) tt)

conclude-Sound :
    (floats : Floats) (records : List Evidence.Record) (answer : Answer) (r : Report)
    → r.evidence_ids ≡ map id_of records
    → Open r
    → Sound (conclude floats records answer r)
unfolding conclude
conclude-Sound floats records answer r ids o =
    let kept = kept_lem r (map id_of records) answer.hypotheses o in
    let claim =
      verify_claim floats records (valid_ids answer.evidence_ids (map id_of records))
        answer.suspected_component answer.suspected_cause in
    go claim.0 refl kept
  where
    go :
        (c : Option RootCause)
        → (verify_claim floats records
            (valid_ids answer.evidence_ids (map id_of records))
            answer.suspected_component
            answer.suspected_cause).0
          ≡ c
        → (length (add_hypotheses (map id_of records) r.hypotheses answer.hypotheses) ≤ 5)
          × All
              (Settled (map id_of records))
              (add_hypotheses (map id_of records) r.hypotheses answer.hypotheses)
        → Sound (conclude floats records answer r)
    go none q kept =
        rw (q, conclude)
          (record {
            concluded = inl (o.no_cause, o.unfound);
            few_calls = o.calls;
            few_retries = o.retries;
            few_hypotheses = kept.0;
            settled =
                subst
                  (λ v.
                    All (Settled v)
                      (add_hypotheses (map id_of records) r.hypotheses answer.hypotheses))
                  (sym ids) kept.1;
          })
    go (some rc) q kept =
        rw (q, conclude)
          (record {
            concluded = inr (
              rc,
              refl,
              refl,
              refl,
              subst (λ v. All (λ id. Memᴰ id v) rc.evidence_ids) (sym ids)
                  (claim-All floats records answer.evidence_ids answer.suspected_component
                    answer.suspected_cause q),
            );
            few_calls = o.calls;
            few_retries = o.retries;
            few_hypotheses = kept.0;
            settled =
                subst
                  (λ v.
                    All (Settled v)
                      (add_hypotheses (map id_of records) r.hypotheses answer.hypotheses))
                  (sym ids) kept.1;
          })

after_chat-Sound :
    (w : World) (records : List Evidence.Record) (r : Report)
    (answer : Result ChatFailure ChatResponse)
    → r.evidence_ids ≡ map id_of records
    → Open r
    → Sound (after_chat w records r answer)
unfolding after_chat
after_chat-Sound w records r (err e) ids o = finish-Sound r _ o
after_chat-Sound w records r (ok response) ids o =
    go (unmarshal read_answer (World.parse_json w response.content)) refl
  where
    go :
        (a : Option Answer)
        → unmarshal read_answer (World.parse_json w response.content) ≡ a
        → Sound (after_chat w records r (ok response))
    go none q = rw (q, after_chat) (finish-Sound r _ o)
    go (some answer) q = rw (q, after_chat) (conclude-Sound (World.floats w) records answer r ids o)

analyse-Sound :
    (w : World) (records : List Evidence.Record) (r : Report) {out : Report}
    → r.evidence_ids ≡ map id_of records
    → Open r
    → analyse w records r ≡ some out
    → Sound out
unfolding analyse
analyse-Sound w records r {out = out} ids o h =
    go (World.expired_before_call w) refl (leb max_llm_calls r.llm_calls) refl
      (chat 2 (World.turns w) 0 (counters_of r)) refl
  where
    go :
        (x : Bool)
        → World.expired_before_call w ≡ x
        → (b : Bool) → leb max_llm_calls r.llm_calls ≡ b
        → (a : Option (Counters × Result ChatFailure ChatResponse))
        → chat 2 (World.turns w) 0 (counters_of r) ≡ a
        → Sound out
    go true p b q a e =
        subst Sound (ground (arith, p, h)) (finish-Sound r (lit "duration budget exhausted") o)
    go false p true q a e =
        subst Sound (ground (arith, p, q, h)) (finish-Sound r (lit "LLM call budget exhausted") o)
    go false p false q none e = absurd (chat_ends (World.turns w) (counters_of r) e)
    go false p false q (some (c, answer)) e =
        let counted = chat_budget 2 (World.turns w) 0 (counters_of r) o.calls o.retries e in
        let opened : Open (with_counters r c) =
          unfold with_counters in
          record {
            no_hypotheses = o.no_hypotheses;
            no_cause = o.no_cause;
            unfound = o.unfound;
            calls = counted.calls;
            retries = counted.retries;
          } in
        subst Sound (ground (arith, p, q, e, h)) (
          after_chat-Sound w records (with_counters r c) answer (unfold with_counters in ids)
            opened)

analyse_ends :
    (w : World) (records : List Evidence.Record) (r : Report) → analyse w records r ≢ none
unfolding analyse
analyse_ends w records r h = go (chat 2 (World.turns w) 0 (counters_of r)) refl
  where
    go :
        (a : Option (Counters × Result ChatFailure ChatResponse))
        → chat 2 (World.turns w) 0 (counters_of r) ≡ a
        → ⊥
    go none e = chat_ends (World.turns w) (counters_of r) e
    go (some a) e = ground (arith, e, h)

after_loop_ends : (w : World) (r : Report) (p : Progress × Option Bytes) → after_loop w r p ≢ none
unfolding after_loop
after_loop_ends w r (p, some reason) e = cc
after_loop_ends w r (p, none) e = analyse_ends w p.records (gathered r p) e

-- Whatever the collector, the provider and the clock do, an investigation ends with a report.
investigate_ends : (w : World) (inc : Incident) (r : Report) → investigate w inc r ≢ none
unfolding investigate
investigate_ends w inc r = go (World.collect w) refl
  where
    go : (c : Option Evidence.Report) → World.collect w ≡ c → investigate w inc r ≢ none
    go none q e = cc (rw (q, investigate) at e)
    go (some initial) q e =
        after_loop_ends w r
          (collect_targets (World.floats w) inc (World.expired w) (World.collect_target w) 2
            (start_of inc r initial))
          (rw (q, investigate) at e)

gathered-Open : (r : Report) (p : Progress) → Open r → Open (gathered r p)
gathered-Open r p o = record {
  no_hypotheses = o.no_hypotheses;
  no_cause = o.no_cause;
  unfound = o.unfound;
  calls = o.calls;
  retries = o.retries;
}

some_inj : {a b : Report} → some a ≡ some b → a ≡ b
some_inj x = ground (arith, x)

after_loop-Sound :
    (w : World) (r : Report) (p : Progress × Option Bytes) {out : Report}
    → p.0.evidence_ids ≡ map id_of p.0.records
    → Open r
    → after_loop w r p ≡ some out
    → Sound out
unfolding after_loop
after_loop-Sound w r (p, some reason) ids o h =
    subst Sound (some_inj h) (finish-Sound (gathered r p) reason (gathered-Open r p o))
after_loop-Sound w r (p, none) ids o h =
    analyse-Sound w p.records (gathered r p) ids (gathered-Open r p o) h

-- The report of an investigation names a root cause exactly when its status says so, and then only one
-- whose evidence is among the report's; it counts at most two calls of the model and one retry, and it
-- has at most five hypotheses, whose evidence is among the report's too.
pub investigate-Sound :
    (w : World) (inc : Incident) (r : Report) {out : Report}
    → Open r
    → r.evidence_ids ≡ []
    → investigate w inc r ≡ some out
    → Sound out
unfolding investigate
investigate-Sound w inc r {out = out} o e = go (World.collect w) refl
  where
    go :
        (c : Option Evidence.Report)
        → World.collect w ≡ c
        → investigate w inc r ≡ some out
        → Sound out
    go none q h = subst Sound (some_inj (rw (q, investigate) at h)) (finish-Sound r _ o)
    go (some initial) q h =
        after_loop-Sound w r
          (collect_targets (World.floats w) inc (World.expired w) (World.collect_target w) 2
            (start_of inc r initial))
          (Collected-Matches (World.floats w) inc (World.expired w) (World.collect_target w) 2
            (start_of inc r initial) _
            (collect_targets-Collected (World.floats w) inc (World.expired w)
              (World.collect_target w) 2 (start_of inc r initial))
            (ap (λ xs. xs ++ map id_of initial.evidence) e))
          o (rw (q, investigate) at h)
