-- ===== src/Agent/External/Sound.antt =====
-- What the verifiers of an external profile conclude from.
use incident_pilot.Common.{
  ◌≡◌, refl, sym, ap, subst, ◌∙◌, ◌⊎◌, inl, inr, true, false, Option, none, some, List, [], ◌∷◌,
  ◌++◌, Memᴰ, All, arith, Bool-cases,
}
use incident_pilot.Common.Scan.{last_of_source}
use incident_pilot.Text.{Bytes, lit, ◌==◌, ==_iff, ==_refl}
use incident_pilot.Incident.{Incident}
use incident_pilot.Evidence.{Record}
use incident_pilot.Onboarding.Profile.{Profile, Workload, find_workload, workload_of}
use incident_pilot.Agent.Types.{RootCause, cause_memory_limit_oom, cause_unpullable_image}
use incident_pilot.Agent.External.Payloads.{Clock}
use incident_pilot.Agent.External.Verify.{
  external_oom, external_image_pull, no_record, is_about, by_tool, first_cause, verifier,
  external_verified_cause,
}

-- a record of the collection about the resource, with the ID
abbrev pub About : List Record → Bytes → Bytes → Type 0
About records ref id = (r : Record) × Memᴰ r records × (r.resource_ref ≡ ref) × (id ≡ r.id)

about_ref :
    (ref tool source : Bytes) (r : Record)
    → is_about ref tool source r ≡ true
    → r.resource_ref ≡ ref
unfolding is_about
about_ref ref tool source r h = (==_iff r.resource_ref ref).0 (ground (arith, h))

by_tool-About :
    (ref tool source : Bytes) (records : List Record)
    → ((by_tool ref tool source records).id == []) ≡ false
    → About records ref (by_tool ref tool source records).id
unfolding by_tool
by_tool-About ref tool source records n =
    elim (last_of_source (is_about ref tool source) (λ r. r) no_record records) [
      | inl e ↦ cc (n, e, ==_refl [])
      | inr (r, m, t, e) ↦ (r, m, about_ref ref tool source r t, ap (λ x. x.id) e)
    ]

first_cause_source :
    (verify : Bytes → Option RootCause) (vs : List Bytes) {rc : RootCause}
    → first_cause verify vs ≡ some rc
    → (v : Bytes) × Memᴰ v vs × (verify v ≡ some rc)
unfolding first_cause
first_cause_source verify [] h = cc
first_cause_source verify (v ∷ vs) {rc = rc} h = go (verify v) refl (first_cause_source verify vs)
  where
    go :
        (o : Option RootCause)
        → verify v ≡ o
        → (first_cause verify vs ≡ some rc → (w : Bytes) × Memᴰ w vs × (verify w ≡ some rc))
        → (w : Bytes) × Memᴰ w (v ∷ vs) × (verify w ≡ some rc)
    go none q rest = let r = rest (ground (arith, q, h)) in (r.0, Memᴰ.tail r.1, r.2)
    go (some cause) q rest = (v, Memᴰ.head refl, ground (arith, q, h))

-- the verifier behind a cause, and what it cites
abbrev Concluded : Workload → Record → Record → Record → Bytes → RootCause → Type 0
Concluded workload deployment pods events v rc =
    (rc.component ≡ workload.name)
    × (((v ≡ lit "kubernetes_oom")
          × (rc.cause ≡ cause_memory_limit_oom)
          × (rc.evidence_ids ≡ pods.id ∷ deployment.id ∷ []))
        ⊎ ((v ≡ lit "image_pull")
            × (rc.cause ≡ cause_unpullable_image)
            × (rc.evidence_ids ≡ deployment.id ∷ pods.id ∷ events.id ∷ [])
            × ((events.id == []) ≡ false)))

module _ (clock : Clock) (profile : Profile) (inc : Incident) where
  oom_lem :
      (workload : Workload) (deployment pods : Record) {rc : RootCause}
      → external_oom clock profile inc workload deployment pods ≡ some rc
      → (rc.component ≡ workload.name)
        × (rc.cause ≡ cause_memory_limit_oom)
        × (rc.evidence_ids ≡ pods.id ∷ deployment.id ∷ [])
  unfolding external_oom
  oom_lem workload deployment pods h = ground arith

  image_lem :
      (workload : Workload) (deployment pods events : Record) {rc : RootCause}
      → external_image_pull clock profile inc workload deployment pods events ≡ some rc
      → (rc.component ≡ workload.name)
        × (rc.cause ≡ cause_unpullable_image)
        × (rc.evidence_ids ≡ deployment.id ∷ pods.id ∷ events.id ∷ [])
        × ((events.id == []) ≡ false)
  unfolding external_image_pull
  image_lem workload deployment pods events h = ground arith

  verifier_lem :
      (workload : Workload) (deployment pods events : Record) (v : Bytes) {rc : RootCause}
      → verifier clock profile inc workload deployment pods events v ≡ some rc
      → Concluded workload deployment pods events v rc
  unfolding verifier
  verifier_lem workload deployment pods events v {rc = rc} h =
      elim (Bool-cases (v == lit "kubernetes_oom")) [
        | inl e ↦
            let r = oom_lem workload deployment pods {rc = rc} (ground (arith, e, h)) in
            (r.0, inl ((==_iff v (lit "kubernetes_oom")).0 e, r.1, r.2))
        | inr n ↦ elim (Bool-cases (v == lit "image_pull")) [
          | inl e ↦
              let r =
                image_lem workload deployment pods events {rc = rc} (ground (arith, n, e, h)) in
              (r.0, inr ((==_iff v (lit "image_pull")).0 e, r.1, r.2, r.3))
          | inr m ↦ absurd (ground (arith, n, m, h))
        ]
      ]

  find_workload-name :
      (name : Bytes) (ws : List Workload) {w : Workload}
      → find_workload name ws ≡ some w
      → Memᴰ w ws × (w.name ≡ name)
  unfolding find_workload
  find_workload-name name [] h = cc
  find_workload-name name (x ∷ ws) {w = w} h = elim (Bool-cases (x.name == name)) [
    | inl e ↦
        let same : x ≡ w = ground (arith, e, h) in
        (Memᴰ.head (sym same), ap (λ z. z.name) (sym same) ∙ (==_iff x.name name).0 e)
    | inr e ↦ let r = find_workload-name name ws (ground (arith, e, h)) in (Memᴰ.tail r.0, r.1)
  ]

  -- the resource of the incident
  abbrev pub resource : Bytes
  resource = inc.namespace ++ (lit "/" ++ inc.service)

  -- the three records that the verifiers read
  module _ (records : List Record) where
    abbrev deployment_record : Record
    deployment_record =
        by_tool resource (lit "kubernetes_get_deployment") (lit "kubernetes/deployment") records

    abbrev pods_record : Record
    pods_record = by_tool resource (lit "kubernetes_get_pods") (lit "kubernetes/pods") records

    abbrev events_record : Record
    events_record = by_tool resource (lit "kubernetes_get_events") (lit "kubernetes/events") records

    -- what a root cause rests on
    abbrev pub Supported : RootCause → Type 0
    Supported rc =
        (rc.component ≡ inc.service)
        × ((w : Workload) × Memᴰ w profile.workloads × (w.name ≡ inc.service))
        × (((rc.cause ≡ cause_memory_limit_oom) × Memᴰ (lit "kubernetes_oom") profile.verifiers)
            ⊎ ((rc.cause ≡ cause_unpullable_image) × Memᴰ (lit "image_pull") profile.verifiers))
        × All (About records resource) rc.evidence_ids

    concluded_lem :
        (w : Workload) (v : Bytes) (rc : RootCause)
        → Memᴰ w profile.workloads
        → w.name ≡ inc.service
        → Memᴰ v profile.verifiers
        → (deployment_record.id == []) ≡ false
        → (pods_record.id == []) ≡ false
        → Concluded w deployment_record pods_record events_record v rc
        → Supported rc
    concluded_lem w v rc m n mv d p (c, inl (e, k, ids)) = (
      c ∙ n,
      (w, m, n),
      inl (k, subst (λ x. Memᴰ x profile.verifiers) e mv),
      subst (All (About records resource)) (sym ids)
          (by_tool-About _ _ _ records p, (by_tool-About _ _ _ records d, tt)),
    )
    concluded_lem w v rc m n mv d p (c, inr (e, k, ids, f)) = (
      c ∙ n,
      (w, m, n),
      inr (k, subst (λ x. Memᴰ x profile.verifiers) e mv),
      subst (All (About records resource)) (sym ids) (
        by_tool-About _ _ _ records d,
        (by_tool-About _ _ _ records p, (by_tool-About _ _ _ records f, tt)),
      ),
    )

    loop_lem :
        (w : Workload) {rc : RootCause}
        → find_workload inc.service profile.workloads ≡ some w
        → external_verified_cause clock profile inc records ≡ some rc
        → ((deployment_record.id == []) ≡ false)
          × ((pods_record.id == []) ≡ false)
          × (first_cause
                (verifier clock profile inc w deployment_record pods_record events_record)
                profile.verifiers
              ≡ some rc)
    unfolding external_verified_cause workload_of
    loop_lem w q h = ground (arith, q, h)

    -- An external root cause comes from a verifier that the profile enables, names the incident's own
    -- workload, which the profile lists, and cites only records of the collection about that workload
    -- in the incident's namespace.
    pub external_verified_cause_sound :
        {rc : RootCause}
        → external_verified_cause clock profile inc records ≡ some rc
        → Supported rc
    unfolding external_verified_cause workload_of
    external_verified_cause_sound {rc = rc} h =
        go (find_workload inc.service profile.workloads) refl
      where
        go : (o : Option Workload) → find_workload inc.service profile.workloads ≡ o → Supported rc
        go none q = absurd (ground (arith, q, h))
        go (some w) q =
            let (d, p, loop) = loop_lem w q h in
            let (m, n) = find_workload-name inc.service profile.workloads q in
            let (v, mv, e) =
              first_cause_source
                (verifier clock profile inc w deployment_record pods_record events_record)
                profile.verifiers loop in
            concluded_lem w v rc m n mv d p
              (verifier_lem w deployment_record pods_record events_record v e)
