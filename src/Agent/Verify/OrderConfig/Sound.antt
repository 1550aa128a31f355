-- ===== src/Agent/Verify/OrderConfig/Sound.antt =====
-- What a root cause of `verifyInvalidOrderConfig` rests on.
use incident_pilot.Common.{
  ◌≡◌, refl, false, ◌&&◌, some, List, [], ◌∷◌, Memᴰ, arith, if◌then◌else◌, Bool-cases, and_split,
  inl, inr,
}
use incident_pilot.Common.Scan.{scan}
use incident_pilot.Text.{Bytes, lit, ◌==◌, ==_refl}
use incident_pilot.Evidence.{Record}
use incident_pilot.Agent.Types.{RootCause, cause_invalid_order_mode}
use incident_pilot.Agent.Verify.Cited.{
  is_cited, is_cited-Memᴰ, Cites, id_of, never_both, slot-Cites,
}
use incident_pilot.Agent.Verify.OrderConfig.{
  Slots, step, start, conclude, logs_of, first_log, find_log, verify_invalid_order_config,
  config_unsupported, consumes_config, pod_crashes, crash_of,
}

config_not_deployment :
    (lit "kubernetes_get_orders_config" == lit "kubernetes_get_deployment") ≡ false
unfolding lit ◌==◌
config_not_deployment = refl

config_not_pods : (lit "kubernetes_get_orders_config" == lit "kubernetes_get_pods") ≡ false
unfolding lit ◌==◌
config_not_pods = refl

deployment_not_pods : (lit "kubernetes_get_deployment" == lit "kubernetes_get_pods") ≡ false
unfolding lit ◌==◌
deployment_not_pods = refl

module _ (cited : List Bytes) (s : Slots) (r : Record) where
  sets_config :
      (step cited s r).config_id
      ≡ (if is_cited cited r.id && config_unsupported r then r.id else s.config_id)
  unfolding step config_unsupported
  sets_config = ground arith

  sets_deployment :
      (step cited s r).deployment_id
      ≡ (if is_cited cited r.id && consumes_config r then r.id else s.deployment_id)
  unfolding step consumes_config
  sets_deployment = ground (arith, never_both r.tool _ _ config_not_deployment)

  sets_pod :
      (step cited s r).pod ≡ (if is_cited cited r.id && pod_crashes r then crash_of r else s.pod)
  unfolding step pod_crashes
  sets_pod =
      ground
        (arith, never_both r.tool _ _ config_not_pods, never_both r.tool _ _ deployment_not_pods)

first_log-Cites :
    (cited : List Bytes) (pod : Bytes) (records : List Record)
    → (first_log cited pod records == []) ≡ false
    → Cites records cited (logs_of pod) id_of (first_log cited pod records)
unfolding first_log
first_log-Cites cited pod [] h = cc (h, ==_refl [])
first_log-Cites cited pod (r ∷ records) h =
    elim (Bool-cases (is_cited cited r.id && logs_of pod r)) [
      | inl fits ↦
          let (c, t) = and_split (is_cited cited r.id) (logs_of pod r) fits in
          rw fits (r, Memᴰ.head refl, is_cited-Memᴰ cited r.id c, t, refl)
      | inr differs ↦
          let (w, m, c, t, e) = first_log-Cites cited pod records (rw differs at h) in
          rw differs (w, Memᴰ.tail m, c, t, e)
    ]

find_log-Cites :
    (cited : List Bytes) (s : Slots) (records : List Record)
    → (find_log cited s records == []) ≡ false
    → Cites records cited (logs_of s.pod.1) id_of (find_log cited s records)
unfolding find_log
find_log-Cites cited s records h = elim (Bool-cases (s.pod.1 == [])) [
  | inl unset ↦ cc (==_refl [])
  | inr named ↦ rw named (first_log-Cites cited s.pod.1 records (rw named at h))
]

conclude_lem :
    (s : Slots) (log_id : Bytes) {rc : RootCause}
    → conclude s log_id ≡ some rc
    → ((s.config_id == []) ≡ false)
      × ((s.deployment_id == []) ≡ false)
      × ((s.pod.0 == []) ≡ false)
      × ((log_id == []) ≡ false)
      × (rc.component ≡ lit "orders-api")
      × (rc.cause ≡ cause_invalid_order_mode)
      × (rc.evidence_ids ≡ s.config_id ∷ s.deployment_id ∷ s.pod.0 ∷ log_id ∷ [])
unfolding conclude
conclude_lem s log_id h = ground arith

-- `verifyInvalidOrderConfig` concludes only from four cited records of the collection: orders-config
-- with the unsupported mode, an orders-api Deployment that takes its mode from it, a pod list with a
-- crashing orders-api pod, and the log of that very pod, which complains of the mode. It names the
-- order-mode cause and cites those four, in this order.
pub verify_invalid_order_config_sound :
    (records : List Record) (cited : List Bytes) {rc : RootCause}
    → verify_invalid_order_config records cited ≡ some rc
    → (rc.component ≡ lit "orders-api")
      × (rc.cause ≡ cause_invalid_order_mode)
      × ((config deployment : Bytes) × (pod : Bytes × Bytes) × (log : Bytes) × (rc.evidence_ids
            ≡ config ∷ deployment ∷ pod.0 ∷ log ∷ [])
          × Cites records cited config_unsupported id_of config
          × Cites records cited consumes_config id_of deployment
          × Cites records cited pod_crashes crash_of pod
          × Cites records cited (logs_of pod.1) id_of log)
unfolding verify_invalid_order_config
verify_invalid_order_config_sound records cited h =
    let s = scan (step cited) start records in
    let (c, d, p, l, component, cause, ids) = conclude_lem s (find_log cited s records) h in
    (
      component,
      cause,
      (
        s.config_id,
        s.deployment_id,
        s.pod,
        find_log cited s records,
        ids,
        slot-Cites cited (step cited) (λ s. s.config_id) config_unsupported id_of
            (sets_config cited) (λ v. v) start records refl c,
        slot-Cites cited (step cited) (λ s. s.deployment_id) consumes_config id_of
            (sets_deployment cited) (λ v. v) start records refl d,
        slot-Cites cited (step cited) (λ s. s.pod) pod_crashes crash_of (sets_pod cited) (λ v. v.0)
            start records refl p,
        find_log-Cites cited s records l,
      ),
    )
