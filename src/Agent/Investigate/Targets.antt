-- ===== src/Agent/Investigate/Targets.antt =====
-- `downstreamUnvisited`, `defaultMetric` and the loop of targeted collections in `Run` of
-- internal/agent/agent.go.
use incident_pilot.Common.{
  ◌≡◌, refl, ap, sym, ◌∙◌, ℕ, zero, suc, ◌+◌, ◌≤◌, Bool, false, not, Option, none, some, List, [],
  ◌∷◌, ◌++◌, All, Distinct, map, map-append, All-map, append-nil, append_assoc, length, arith,
  if◌then◌else◌, Bool-cases, inl, inr, any, subst, ◌≢◌,
}
use incident_pilot.Text.{Bytes, lit, ◌==◌, ==_iff}
use incident_pilot.Incident.{Incident}
use incident_pilot.Evidence.{Record, Report}
use incident_pilot.Agent.Payloads.{Floats}
use incident_pilot.Agent.Verify.Cited.{is_cited, id_of}
use incident_pilot.Agent.Verify.Claims.{evidence_already_supports_cause}

-- the workloads after `service` in a graph; the loop that finds it, and the slice behind it
after_service : Bytes → List Bytes → List Bytes
after_service service [] = []
after_service service (w ∷ graph) =
    let rest = after_service service graph in if w == service then graph else rest

unseen : List Bytes → List Bytes → List Bytes
unfolding is_cited
unseen seen [] = []
unseen seen (w ∷ graph) =
    let rest = unseen seen graph in if not (is_cited seen w) then w ∷ rest else rest

-- `seen` lists the keys of the map
unfoldable pub downstream_unvisited : Bytes → List Bytes → List Bytes
unfolding after_service unseen
downstream_unvisited service seen =
    unseen seen
      (after_service service (lit "frontend" ∷ lit "orders-api" ∷ lit "payments-api" ∷ []))

unfoldable pub default_metric : Incident → Bytes → Bytes
default_metric inc workload =
    if inc.alert_name == lit "DemoCheckoutLatency"
    then lit "success_latency_avg"
    else if workload == lit "payments-api"
    then lit "heap_bytes"
    else lit "error_rate"

-- what the collections have brought so far
pub record Progress : Type 0 where
  pub records : List Record
  pub evidence_ids : List Bytes
  pub tool_calls : ℕ
  pub seen : List Bytes
  -- the workload and the metric of each call of CollectTarget, in order; not in the source
  pub asked : List (Bytes × Bytes)

unfoldable pub add_collection : Progress → Report → Progress
add_collection p c = record p {
  records = p.records ++ c.evidence;
  evidence_ids = p.evidence_ids ++ map id_of c.evidence;
  tool_calls = p.tool_calls + (length c.evidence + length c.failures);
}

module _ (floats : Floats) (inc : Incident) (expired : ℕ → Bool)
    (collect_target : Bytes → Bytes → Option Report) where
  -- the loop, with the number of turns left; a text ends the investigation for that reason.
  -- `expired` tells whether the context has ended at a turn
  unfoldable pub collect_targets : ℕ → Progress → Progress × Option Bytes
  unfolding downstream_unvisited default_metric add_collection
  collect_targets zero p = (p, none)
  collect_targets (suc left) p =
      if evidence_already_supports_cause floats p.records p.evidence_ids
      then (p, none)
      else if expired left
      then (p, some (lit "duration budget exhausted"))
      else elim (downstream_unvisited inc.service p.seen) [
        | [] ↦ (p, none)
        | workload ∷ others ↦
            let metric = default_metric inc workload in
            let visit = record p {
              seen = workload ∷ p.seen;
              asked = p.asked ++ (workload, metric) ∷ [];
            } in
            elim (collect_target workload metric) [
              | none ↦ (visit, some (lit "targeted evidence unavailable"))
              | some c ↦
                  let next = add_collection visit c in
                  let rest = collect_targets left next in
                  if evidence_already_supports_cause floats next.records next.evidence_ids
                  then (next, none)
                  else rest
            ]
      ]

  -- the IDs are those of the records, in order
  abbrev pub Matches : Progress → Type 0
  Matches p = p.evidence_ids ≡ map id_of p.records

  unseen-All : (seen graph : List Bytes) → All (λ w. is_cited seen w ≡ false) (unseen seen graph)
  unfolding unseen
  unseen-All seen [] = tt
  unseen-All seen (w ∷ graph) = elim (Bool-cases (is_cited seen w)) [
    | inl e ↦ rw (e, unseen) (unseen-All seen graph)
    | inr e ↦ rw (e, unseen) (e, unseen-All seen graph)
  ]

  -- the calls that a run adds: each workload once, none that was seen before, with its own metric
  pub record Asks (turns : ℕ) (before : List Bytes) (new : List (Bytes × Bytes)) : Type 0 where
    pub once : Distinct (map (λ q. q.0) new)
    pub unseen_before : All (λ q. All (λ y. q.0 ≢ y) before) new
    pub own_metric : All (λ q. q.1 ≡ default_metric inc q.0) new
    pub few : length new ≤ turns

  -- what holds after the loop
  pub record Collected (turns : ℕ) (before after : Progress) : Type 0 where
    pub new : List (Bytes × Bytes)
    pub calls : after.asked ≡ before.asked ++ new
    pub asks : Asks turns before.seen new
    pub more : List Record
    pub keeps : after.records ≡ before.records ++ more
    pub cites : after.evidence_ids ≡ before.evidence_ids ++ map id_of more

  pub Collected-Matches :
      (turns : ℕ) (before after : Progress)
      → Collected turns before after
      → Matches before
      → Matches after
  Collected-Matches turns before after k h =
      k.cites
      ∙ ap (λ ids. ids ++ map id_of k.more) h
      ∙ sym (map-append id_of before.records k.more)
      ∙ ap (map id_of) (sym k.keeps)

  unchanged : (turns : ℕ) (p : Progress) → Collected turns p p
  unchanged turns p = record {
    new = [];
    calls = sym (append-nil p.asked);
    asks = record { once = tt; unseen_before = tt; own_metric = tt; few = omega arith };
    more = [];
    keeps = sym (append-nil p.records);
    cites = sym (append-nil p.evidence_ids);
  }

  visited : Progress → Bytes → Progress
  visited p workload = record p {
    seen = workload ∷ p.seen;
    asked = p.asked ++ (workload, default_metric inc workload) ∷ [];
  }

  unseen-differs : (seen : List Bytes) (w : Bytes) → is_cited seen w ≡ false → All (λ y. w ≢ y) seen
  unfolding is_cited any
  unseen-differs [] w e = tt
  unseen-differs (y ∷ ys) w e =
      ((λ same. ground (arith, e, (==_iff y w).1 (sym same))), unseen-differs ys w (ground arith))

  next_unseen :
      (p : Progress) (w : Bytes) (others : List Bytes)
      → downstream_unvisited inc.service p.seen ≡ w ∷ others
      → is_cited p.seen w ≡ false
  unfolding downstream_unvisited
  next_unseen p w others e =
      (subst (All (λ x. is_cited p.seen x ≡ false)) e (unseen-All p.seen _)).0

  -- a call in front of others, none of which is for its workload
  first-Asks :
      (turns : ℕ) (seen : List Bytes) (w : Bytes) (new : List (Bytes × Bytes))
      → All (λ y. w ≢ y) seen
      → Asks turns (w ∷ seen) new
      → Asks (suc turns) seen ((w, default_metric inc w) ∷ new)
  first-Asks turns seen w new fresh k = record {
    once = (others new k.unseen_before, k.once);
    unseen_before = (fresh, All-map new (λ q h. h.1) k.unseen_before);
    own_metric = (refl, k.own_metric);
    few = omega (arith, k.few);
  }
    where
      others :
          (new : List (Bytes × Bytes))
          → All (λ q. All (λ y. q.0 ≢ y) (w ∷ seen)) new
          → All (λ y. w ≢ y) (map (λ q. q.0) new)
      others [] h = tt
      others (q ∷ new) h = ((λ e. h.0.0 (sym e)), others new h.1)

  asked-Collected :
      (turns : ℕ) (p : Progress) (w : Bytes) (others : List Bytes)
      → downstream_unvisited inc.service p.seen ≡ w ∷ others
      → Collected (suc turns) p (visited p w)
  unfolding visited
  asked-Collected turns p w others e = record {
    new = (w, default_metric inc w) ∷ [];
    calls = refl;
    asks =
        first-Asks turns p.seen w [] (unseen-differs p.seen w (next_unseen p w others e))
          (record { once = tt; unseen_before = tt; own_metric = tt; few = omega arith });
    more = [];
    keeps = sym (append-nil p.records);
    cites = sym (append-nil p.evidence_ids);
  }

  then_more :
      (turns : ℕ) (p after : Progress) (w : Bytes) (others : List Bytes) (c : Report)
      → downstream_unvisited inc.service p.seen ≡ w ∷ others
      → Collected turns (add_collection (visited p w) c) after
      → Collected (suc turns) p after
  unfolding visited add_collection
  then_more turns p after w others c e k = record {
    new = (w, default_metric inc w) ∷ k.new;
    calls = k.calls ∙ append_assoc p.asked ((w, default_metric inc w) ∷ []) k.new;
    asks =
        first-Asks turns p.seen w k.new (unseen-differs p.seen w (next_unseen p w others e)) k.asks;
    more = c.evidence ++ k.more;
    keeps = k.keeps ∙ append_assoc p.records c.evidence k.more;
    cites =
        k.cites
        ∙ append_assoc p.evidence_ids (map id_of c.evidence) (map id_of k.more)
        ∙ ap (λ ids. p.evidence_ids ++ ids) (sym (map-append id_of c.evidence k.more));
  }

  brings :
      (left : ℕ) (p : Progress)
      → ((q : Progress) → Collected left q (collect_targets left q).0)
      → evidence_already_supports_cause floats p.records p.evidence_ids ≡ false
      → expired left ≡ false
      → (w : Bytes) (others : List Bytes) → downstream_unvisited inc.service p.seen ≡ w ∷ others
      → (c : Option Report) → collect_target w (default_metric inc w) ≡ c
      → Collected (suc left) p (collect_targets (suc left) p).0
  unfolding collect_targets visited
  brings left p more s x w others d none q =
      rw (s, x, d, q, collect_targets) (asked-Collected left p w others d)
  brings left p more s x w others d (some c) q =
      let next = add_collection (visited p w) c in
      elim (Bool-cases (evidence_already_supports_cause floats next.records next.evidence_ids)) [
        | inl f ↦
            rw (s, x, d, q, f, collect_targets)
              (then_more left p next w others c d (unchanged left next))
        | inr f ↦ rw (s, x, d, q, f, collect_targets) (then_more left p _ w others c d (more next))
      ]

  asks :
      (left : ℕ) (p : Progress)
      → ((q : Progress) → Collected left q (collect_targets left q).0)
      → evidence_already_supports_cause floats p.records p.evidence_ids ≡ false
      → expired left ≡ false
      → (ws : List Bytes) → downstream_unvisited inc.service p.seen ≡ ws
      → Collected (suc left) p (collect_targets (suc left) p).0
  unfolding collect_targets
  asks left p more s x [] d = rw (s, x, d, collect_targets) (unchanged (suc left) p)
  asks left p more s x (w ∷ others) d =
      brings left p more s x w others d (collect_target w (default_metric inc w)) refl

  -- The targeted collections ask for each workload once at most, for none that was seen before, each
  -- with the default metric of that workload, and make at most as many calls as there are turns.
  -- They keep what was collected and add records, and the evidence IDs of those records, in order.
  pub collect_targets-Collected :
      (turns : ℕ) (p : Progress) → Collected turns p (collect_targets turns p).0
  unfolding collect_targets
  collect_targets-Collected zero p = unchanged zero p
  collect_targets-Collected (suc left) p =
      elim (Bool-cases (evidence_already_supports_cause floats p.records p.evidence_ids)) [
        | inl s ↦ rw (s, collect_targets) (unchanged (suc left) p)
        | inr s ↦ elim (Bool-cases (expired left)) [
          | inl x ↦ rw (s, x, collect_targets) (unchanged (suc left) p)
          | inr x ↦
              asks left p (collect_targets-Collected left) s x
                (downstream_unvisited inc.service p.seen) refl
        ]
      ]
