-- ===== src/Agent/Verify/Sound.antt =====
-- A verified claim, whichever verifier it came from, cites only cited records of the collection.
use incident_pilot.Common.{
  ◌≡◌, refl, sym, subst, ◌∙◌, ap, ◌⊎◌, inl, inr, Bool, some, List, Memᴰ, All, arith,
}
use incident_pilot.Text.{Bytes, lit, ==_iff}
use incident_pilot.Evidence.{Record}
use incident_pilot.Agent.Types.{
  RootCause, cause_memory_limit_oom, cause_unpullable_image, cause_invalid_order_mode,
  cause_broken_selector, cause_excessive_cpu, cause_payment_failure,
}
use incident_pilot.Agent.Payloads.{Floats}
use incident_pilot.Agent.Verify.Cited.{Cites}
use incident_pilot.Agent.Verify.Oom.{verify_oom, verify_oom_sound}
use incident_pilot.Agent.Verify.ImagePull.{verify_image_pull}
use incident_pilot.Agent.Verify.ImagePull.Sound.{verify_image_pull_sound}
use incident_pilot.Agent.Verify.OrderConfig.{verify_invalid_order_config}
use incident_pilot.Agent.Verify.OrderConfig.Sound.{verify_invalid_order_config_sound}
use incident_pilot.Agent.Verify.Selector.{
  verify_broken_service_selector, verify_broken_service_selector_sound,
}
use incident_pilot.Agent.Verify.Cpu.{verify_excessive_cpu, verify_excessive_cpu_sound}
use incident_pilot.Agent.Verify.Payment.{verify_payment_failure, verify_payment_failure_sound}
use incident_pilot.Agent.Verify.Claims.{verify_claim, supported_cause}

-- an ID that the claim cites, of a record in the collection
abbrev pub Grounded : List Record → List Bytes → Bytes → Type 0
Grounded records cited id = Memᴰ id cited × ((r : Record) × Memᴰ r records × (id ≡ r.id))

module _ {ℓ} {V : Type ℓ} (records : List Record) (cited : List Bytes) where
  Cites-Grounded :
      {test : Record → Bool} {value : Record → V} (key : V → Bytes) {v : V}
      → ((r : Record) → key (value r) ≡ r.id)
      → Cites records cited test value v
      → Grounded records cited (key v)
  Cites-Grounded key names (r, m, c, t, e) =
      let same = ap (λ x. key x) e ∙ names r in
      (subst (λ id. Memᴰ id cited) (sym same) c, (r, m, same))

-- what every verifier promises of its cause
abbrev pub Holds : List Record → List Bytes → Bytes → Bytes → RootCause → Type 0
Holds records cited component cause rc =
    (rc.component ≡ component) × (rc.cause ≡ cause) × All (Grounded records cited) rc.evidence_ids

module _ (records : List Record) (cited : List Bytes) {rc : RootCause} where
  pub oom-Holds :
      verify_oom records cited ≡ some rc
      → Holds records cited (lit "payments-api") cause_memory_limit_oom rc
  oom-Holds h =
      let (component, cause, (pod, deployment, limit, ids, p, d)) =
        verify_oom_sound records cited h in
      (
        component,
        cause,
        subst (All (Grounded records cited)) (sym ids) (
          Cites-Grounded records cited (λ v. v) (λ r. refl) p,
          (Cites-Grounded records cited (λ v. v.0) (λ r. refl) d, tt),
        ),
      )

  pub image-Holds :
      verify_image_pull records cited ≡ some rc
      → Holds records cited (lit "orders-api") cause_unpullable_image rc
  image-Holds h =
      let (component, cause, (pod, deployment, event, ids, p, d, e, agrees)) =
        verify_image_pull_sound records cited h in
      (
        component,
        cause,
        subst (All (Grounded records cited)) (sym ids) (
          Cites-Grounded records cited (λ v. v.0) (λ r. refl) p,
          (
            Cites-Grounded records cited (λ v. v.0) (λ r. refl) d,
            (Cites-Grounded records cited (λ v. v.0) (λ r. refl) e, tt),
          ),
        ),
      )

  pub config-Holds :
      verify_invalid_order_config records cited ≡ some rc
      → Holds records cited (lit "orders-api") cause_invalid_order_mode rc
  config-Holds h =
      let (component, cause, (config, deployment, pod, log, ids, c, d, p, l)) =
        verify_invalid_order_config_sound records cited h in
      (
        component,
        cause,
        subst (All (Grounded records cited)) (sym ids) (
          Cites-Grounded records cited (λ v. v) (λ r. refl) c,
          (
            Cites-Grounded records cited (λ v. v) (λ r. refl) d,
            (
              Cites-Grounded records cited (λ v. v.0) (λ r. refl) p,
              (Cites-Grounded records cited (λ v. v) (λ r. refl) l, tt),
            ),
          ),
        ),
      )

module _ (floats : Floats) (records : List Record) (cited : List Bytes) {rc : RootCause} where
  pub selector-Holds :
      verify_broken_service_selector floats records cited ≡ some rc
      → Holds records cited (lit "payments-api") cause_broken_selector rc
  selector-Holds h =
      let (component, cause, (i_a, i_b, i_c, i_d, ids, a, b, c, d)) =
        verify_broken_service_selector_sound floats records cited h in
      (
        component,
        cause,
        subst (All (Grounded records cited)) (sym ids) (
          Cites-Grounded records cited (λ v. v) (λ r. refl) a,
          (
            Cites-Grounded records cited (λ v. v) (λ r. refl) b,
            (
              Cites-Grounded records cited (λ v. v) (λ r. refl) c,
              (Cites-Grounded records cited (λ v. v) (λ r. refl) d, tt),
            ),
          ),
        ),
      )

  pub cpu-Holds :
      verify_excessive_cpu floats records cited ≡ some rc
      → Holds records cited (lit "orders-api") cause_excessive_cpu rc
  cpu-Holds h =
      let (component, cause, (i_a, i_b, i_c, i_d, ids, a, b, c, d)) =
        verify_excessive_cpu_sound floats records cited h in
      (
        component,
        cause,
        subst (All (Grounded records cited)) (sym ids) (
          Cites-Grounded records cited (λ v. v) (λ r. refl) a,
          (
            Cites-Grounded records cited (λ v. v) (λ r. refl) b,
            (
              Cites-Grounded records cited (λ v. v) (λ r. refl) c,
              (Cites-Grounded records cited (λ v. v) (λ r. refl) d, tt),
            ),
          ),
        ),
      )

  pub payment-Holds :
      verify_payment_failure floats records cited ≡ some rc
      → Holds records cited (lit "payments-api") cause_payment_failure rc
  payment-Holds h =
      let (component, cause, (i_a, i_b, i_c, ids, a, b, c)) =
        verify_payment_failure_sound floats records cited h in
      (
        component,
        cause,
        subst (All (Grounded records cited)) (sym ids) (
          Cites-Grounded records cited (λ v. v) (λ r. refl) a,
          (
            Cites-Grounded records cited (λ v. v) (λ r. refl) c,
            (Cites-Grounded records cited (λ v. v) (λ r. refl) b, tt),
          ),
        ),
      )

-- the verifier that a root cause came from
abbrev pub Origin : Floats → List Record → List Bytes → RootCause → Type 0
Origin floats records cited rc =
    (verify_oom records cited ≡ some rc)
    ⊎ (verify_image_pull records cited ≡ some rc)
    ⊎ (verify_invalid_order_config records cited ≡ some rc)
    ⊎ (verify_broken_service_selector floats records cited ≡ some rc)
    ⊎ (verify_excessive_cpu floats records cited ≡ some rc)
    ⊎ (verify_payment_failure floats records cited ≡ some rc)

pub supported_cause-Origin :
    (floats : Floats) (records : List Record) (cited : List Bytes) {rc : RootCause}
    → supported_cause floats records cited ≡ some rc
    → Origin floats records cited rc
unfolding supported_cause
supported_cause-Origin floats records cited h = ground arith

-- the verifier that a claim selects, with the claim's own component and cause
abbrev Selected : Floats → List Record → List Bytes → Bytes → Bytes → RootCause → Type 0
Selected floats records cited component cause rc =
    ((component ≡ lit "payments-api")
      × (cause ≡ cause_memory_limit_oom)
      × (verify_oom records cited ≡ some rc))
    ⊎ ((component ≡ lit "orders-api")
        × (cause ≡ cause_unpullable_image)
        × (verify_image_pull records cited ≡ some rc))
    ⊎ ((component ≡ lit "orders-api")
        × (cause ≡ cause_invalid_order_mode)
        × (verify_invalid_order_config records cited ≡ some rc))
    ⊎ ((component ≡ lit "payments-api")
        × (cause ≡ cause_broken_selector)
        × (verify_broken_service_selector floats records cited ≡ some rc))
    ⊎ ((component ≡ lit "orders-api")
        × (cause ≡ cause_excessive_cpu)
        × (verify_excessive_cpu floats records cited ≡ some rc))
    ⊎ ((component ≡ lit "payments-api")
        × (cause ≡ cause_payment_failure)
        × (verify_payment_failure floats records cited ≡ some rc))

verify_claim-Selected :
    (floats : Floats) (records : List Record) (cited : List Bytes) (component cause : Bytes)
    {rc : RootCause}
    → (verify_claim floats records cited component cause).0 ≡ some rc
    → Selected floats records cited component cause rc
unfolding verify_claim
verify_claim-Selected floats records cited component cause h = ground (
  arith,
  ==_iff component (lit "payments-api"),
  ==_iff component (lit "orders-api"),
  ==_iff cause cause_memory_limit_oom,
  ==_iff cause cause_unpullable_image,
  ==_iff cause cause_invalid_order_mode,
  ==_iff cause cause_broken_selector,
  ==_iff cause cause_excessive_cpu,
  ==_iff cause cause_payment_failure,
)

-- A claim is verified only with its own component and cause, and the root cause then cites nothing
-- but IDs that the claim cites and that belong to records of the collection.
pub verify_claim-Holds :
    (floats : Floats) (records : List Record) (cited : List Bytes) (component cause : Bytes)
    {rc : RootCause}
    → (verify_claim floats records cited component cause).0 ≡ some rc
    → (rc.component ≡ component) × (rc.cause ≡ cause) × All (Grounded records cited) rc.evidence_ids
verify_claim-Holds floats records cited component cause h =
    elim (verify_claim-Selected floats records cited component cause h) [
      | inl (e, f, q) ↦ let (c, k, g) = oom-Holds records cited q in (c ∙ sym e, k ∙ sym f, g)
      | inr (inl (e, f, q)) ↦
          let (c, k, g) = image-Holds records cited q in (c ∙ sym e, k ∙ sym f, g)
      | inr (inr (inl (e, f, q))) ↦
          let (c, k, g) = config-Holds records cited q in (c ∙ sym e, k ∙ sym f, g)
      | inr (inr (inr (inl (e, f, q)))) ↦
          let (c, k, g) = selector-Holds floats records cited q in (c ∙ sym e, k ∙ sym f, g)
      | inr (inr (inr (inr (inl (e, f, q))))) ↦
          let (c, k, g) = cpu-Holds floats records cited q in (c ∙ sym e, k ∙ sym f, g)
      | inr (inr (inr (inr (inr (e, f, q))))) ↦
          let (c, k, g) = payment-Holds floats records cited q in (c ∙ sym e, k ∙ sym f, g)
    ]

-- The cause that the evidence supports by itself cites nothing but given IDs of records in the
-- collection, for any set of IDs.
supported_cause-Grounded :
    (floats : Floats) (records : List Record) (cited : List Bytes) {rc : RootCause}
    → supported_cause floats records cited ≡ some rc
    → All (Grounded records cited) rc.evidence_ids
supported_cause-Grounded floats records cited h =
    elim (supported_cause-Origin floats records cited h) [
      | inl q ↦ (oom-Holds records cited q).2
      | inr (inl q) ↦ (image-Holds records cited q).2
      | inr (inr (inl q)) ↦ (config-Holds records cited q).2
      | inr (inr (inr (inl q))) ↦ (selector-Holds floats records cited q).2
      | inr (inr (inr (inr (inl q)))) ↦ (cpu-Holds floats records cited q).2
      | inr (inr (inr (inr (inr q)))) ↦ (payment-Holds floats records cited q).2
    ]
