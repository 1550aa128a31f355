-- ===== src/Evidence/Collector/Trail.antt =====
-- Induction over the steps of a collection.
use incident_pilot.Common.{
  ◌≡◌, refl, Bool, false, ◌&&◌, Option, none, some, List, [], ◌∷◌, All, inl, inr, Bool-cases,
}
use incident_pilot.Text.{Bytes, lit, ◌==◌}
use incident_pilot.Time.{Time}
use incident_pilot.Json.{Json}
use incident_pilot.Incident.{Incident}
use incident_pilot.Onboarding.Profile.{effective}
use incident_pilot.Evidence.Observed.{newest_revision}
use incident_pilot.Evidence.Collector.Plan.{Item, plan, application, history, commit_of, diff_of}
use incident_pilot.Evidence.Collector.{
  Collector, State, collect_item, follow_up, plan_step, run_plan, follow_revision, read_history,
  collect_changes, gather,
}

module _ (c : Collector) (inc : Incident) (start : Time) (finish : Time) (workload : Bytes) where
  module _ (Fits : Bytes → Item → Type 0) (Keeps : State → Type 0)
      (step : (st : State) (w : Bytes) (item : Item)
        → Fits w item
        → Keeps st
        → Keeps (collect_item c inc start finish st w item).1) where
    -- the items that a payload leads to fit as well
    abbrev pub Follows : Type 0
    Follows =
        (item more : Item) (payload : Json)
        → follow_up c inc start finish workload item payload ≡ some more
        → Fits workload more

    plan_step-Keeps :
        (st : State) (item : Item)
        → Follows
        → Fits workload item
        → Keeps st
        → Keeps (plan_step c inc start finish st workload item)
    unfolding plan_step
    plan_step-Keeps st item follows fits keeps =
        go (collect_item c inc start finish st workload item).0 (step st workload item fits keeps)
      where
        next : State
        next = (collect_item c inc start finish st workload item).1

        more :
            (o : Option Item)
            → ((i : Item) → o ≡ some i → Fits workload i)
            → Keeps next
            → Keeps (elim o [
              | none ↦ next
              | some i ↦ (collect_item c inc start finish next workload i).1
            ])
        more none fit k = k
        more (some i) fit k = step next workload i (fit i refl) k

        go :
            (o : Option Json)
            → Keeps next
            → Keeps (elim o [
              | none ↦ next
              | some payload ↦ elim (follow_up c inc start finish workload item payload) [
                | none ↦ next
                | some i ↦ (collect_item c inc start finish next workload i).1
              ]
            ])
        go none k = k
        go (some payload) k =
            more (follow_up c inc start finish workload item payload)
              (λ i e. follows item i payload e) k

    run_plan-Keeps :
        (items : List Item) (st : State)
        → Follows
        → All (Fits workload) items
        → Keeps st
        → Keeps (run_plan c inc start finish workload st items)
    unfolding run_plan
    run_plan-Keeps [] st follows fits keeps = keeps
    run_plan-Keeps (item ∷ items) st follows fits keeps =
        run_plan-Keeps items _ follows fits.1 (plan_step-Keeps st item follows fits.0 keeps)

    -- the items about a change fit
    abbrev pub Changes : Type 0
    Changes =
        Fits [] application
        × Fits [] (history c.format_time start finish)
        × ((payload : Json)
            → (newest_revision payload == []) ≡ false
            → Fits [] (commit_of c.format_time (newest_revision payload) start finish))
        × ((payload : Json)
            → (newest_revision payload == []) ≡ false
            → Fits [] (diff_of c.format_time (newest_revision payload) start finish))

    follow_revision-Keeps :
        (st : State) (payload : Json)
        → Changes
        → Keeps st
        → Keeps (follow_revision c inc start finish st payload)
    unfolding follow_revision
    follow_revision-Keeps st payload fits keeps =
        elim (Bool-cases (newest_revision payload == [])) [
          | inl e ↦ rw (e, follow_revision) keeps
          | inr e ↦
              rw (e, follow_revision)
                (step _ [] _ (fits.3 payload e) (step st [] _ (fits.2 payload e) keeps))
        ]

    read_history-Keeps :
        (st : State) → Changes → Keeps st → Keeps (read_history c inc start finish st)
    unfolding read_history
    read_history-Keeps st fits keeps =
        go (collect_item c inc start finish st [] (history c.format_time start finish)).0
          (step st [] _ fits.1 keeps)
      where
        next : State
        next = (collect_item c inc start finish st [] (history c.format_time start finish)).1

        go :
            (o : Option Json)
            → Keeps next
            → Keeps (elim o [
              | none ↦ next
              | some payload ↦ follow_revision c inc start finish next payload
            ])
        go none k = k
        go (some payload) k = follow_revision-Keeps next payload fits k

    collect_changes-Keeps :
        (st : State) → Changes → Keeps st → Keeps (collect_changes c inc start finish st)
    unfolding collect_changes
    collect_changes-Keeps st fits keeps =
        go (collect_item c inc start finish st [] application).0 (step st [] _ fits.0 keeps)
      where
        next : State
        next = (collect_item c inc start finish st [] application).1

        go :
            (o : Option Json)
            → Keeps next
            → Keeps (elim o [ none ↦ next | some payload ↦ read_history c inc start finish next ])
        go none k = k
        go (some payload) k = read_history-Keeps next fits k

    -- what every step keeps holds of all that is collected
    pub gather-Keeps :
        (metric : Bytes) (include_changes : Bool)
        → Follows
        → All
            (Fits workload)
            (plan c.format_time (effective c.profile) inc workload metric start finish)
        → Changes
        → Keeps (record { calls = []; evidence = []; failures = [] })
        → Keeps (gather c inc start finish workload metric include_changes)
    unfolding gather
    gather-Keeps metric include_changes follows planned changes empty =
        elim (Bool-cases (include_changes && (effective c.profile).mode == lit "demo")) [
          | inl e ↦
              rw (e, gather)
                (collect_changes-Keeps _ changes (
                  run_plan-Keeps
                    (plan c.format_time (effective c.profile) inc workload metric start finish) _
                    follows planned empty))
          | inr e ↦
              rw (e, gather)
                (run_plan-Keeps
                  (plan c.format_time (effective c.profile) inc workload metric start finish) _
                  follows planned empty)
        ]
