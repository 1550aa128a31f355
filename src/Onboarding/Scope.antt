-- ===== src/Onboarding/Scope.antt =====
-- The scope of an accepted profile.
use incident_pilot.Common.{
  ◌≡◌, refl, sym, ◌≢◌, inl, inr, ◌≤◌, Bool, true, false, List, [], ◌∷◌, Memᴰ, All, Distinct, length,
  any, map, ok, arith, Bool-cases, if◌then◌else◌,
}
use incident_pilot.Text.{Bytes, lit, ◌==◌, ==_iff, ==_refl, has_prefix}
use incident_pilot.Onboarding.Profile.{
  Workload, Alert, Profile, demo, valid_dns_label, has_key, workload_is_valid, workloads_are_valid,
  alerts_are_valid, verifiers_are_valid, accept,
}

-- the keys of a loop that stops at a key it has seen
separate : List Bytes → List Bytes → Bool
unfolding has_key
separate seen [] = true
separate seen (x ∷ xs) = let rest = separate (x ∷ seen) xs in if has_key seen x then false else rest

separate-unseen :
    (x : Bytes) (seen xs : List Bytes)
    → has_key seen x ≡ true
    → separate seen xs ≡ true
    → All (λ y. x ≢ y) xs
unfolding separate has_key any
separate-unseen x seen [] m h = tt
separate-unseen x seen (y ∷ ys) m h =
    ((λ e. ground (arith, e)), separate-unseen x (y ∷ seen) ys (ground arith) (ground arith))

separate-Distinct : (seen xs : List Bytes) → separate seen xs ≡ true → Distinct xs
unfolding separate has_key any
separate-Distinct seen [] h = tt
separate-Distinct seen (x ∷ xs) h = (
  separate-unseen x (x ∷ seen) xs (ground (arith, ==_refl x)) (ground arith),
  separate-Distinct (x ∷ seen) xs (ground arith),
)

workloads_separate :
    (names : List Bytes) (ws : List Workload)
    → workloads_are_valid names ws ≡ true
    → separate names (map (λ w. w.name) ws) ≡ true
unfolding workloads_are_valid separate
workloads_separate names [] h = refl
workloads_separate names (w ∷ ws) h = ground (arith, workloads_separate (w.name ∷ names) ws)

workloads_valid :
    (names : List Bytes) (ws : List Workload)
    → workloads_are_valid names ws ≡ true
    → All (λ w. workload_is_valid w ≡ true) ws
unfolding workloads_are_valid
workloads_valid names [] h = tt
workloads_valid names (w ∷ ws) h =
    (ground arith, workloads_valid (w.name ∷ names) ws (ground arith))

alerts_separate :
    (names seen : List Bytes) (xs : List Alert)
    → alerts_are_valid names seen xs ≡ true
    → separate seen (map (λ a. a.name) xs) ≡ true
unfolding alerts_are_valid separate
alerts_separate names seen [] h = refl
alerts_separate names seen (a ∷ xs) h = ground (arith, alerts_separate names (a.name ∷ seen) xs)

has_key-Memᴰ : (keys : List Bytes) (k : Bytes) → has_key keys k ≡ true → Memᴰ k keys
unfolding has_key any
has_key-Memᴰ [] k h = cc
has_key-Memᴰ (j ∷ keys) k h = elim (Bool-cases (j == k)) [
  | inl e ↦ Memᴰ.head (sym ((==_iff j k).0 e))
  | inr e ↦ Memᴰ.tail (has_key-Memᴰ keys k (ground (arith, e, h)))
]

alerts_scoped :
    (names seen : List Bytes) (xs : List Alert)
    → alerts_are_valid names seen xs ≡ true
    → All (λ a. Memᴰ a.workload names) xs
unfolding alerts_are_valid
alerts_scoped names seen [] h = tt
alerts_scoped names seen (a ∷ xs) h = (
  has_key-Memᴰ names a.workload (ground arith),
  alerts_scoped names (a.name ∷ seen) xs (ground arith),
)

verifiers_separate :
    (seen vs : List Bytes) → verifiers_are_valid seen vs ≡ true → separate seen vs ≡ true
unfolding verifiers_are_valid separate
verifiers_separate seen [] h = refl
verifiers_separate seen (v ∷ vs) h = ground (arith, verifiers_separate (v ∷ seen) vs)

-- a profile of mode external that the service accepts
pub record External (p : Profile) : Type 0 where
  pub mode : p.mode ≡ lit "external"
  pub namespace : valid_dns_label p.namespace ≡ true
  pub not_kube : has_prefix p.namespace (lit "kube-") ≡ false
  pub not_default : p.namespace ≢ lit "default"
  pub not_system : p.namespace ≢ lit "incidentpilot-system"
  pub not_observability : p.namespace ≢ lit "incidentpilot-observability"
  pub some_workloads : 1 ≤ length p.workloads
  pub few_workloads : length p.workloads ≤ 20
  pub some_alerts : 1 ≤ length p.alerts
  pub few_alerts : length p.alerts ≤ 50
  pub workloads : All (λ w. workload_is_valid w ≡ true) p.workloads
  pub workload_names : Distinct (map (λ w. w.name) p.workloads)
  pub alert_names : Distinct (map (λ a. a.name) p.alerts)
  pub alert_scope : All (λ a. Memᴰ a.workload (map (λ w. w.name) p.workloads)) p.alerts
  pub few_verifiers : length p.verifiers ≤ 2
  pub verifiers : Distinct p.verifiers

-- An accepted profile is the demo's, or it is external as it was given: its namespace is a label and
-- none of the protected ones, it has 1 to 20 valid workloads and 1 to 50 alerts with distinct names,
-- every alert is about one of its workloads, and it has at most two verifiers, each once.
pub accept-External : (p q : Profile) → accept p ≡ ok q → q ≢ demo → (q ≡ p) × External p
unfolding accept
accept-External p q h n = (
  ground arith,
  record {
    mode = ground (arith, ==_iff p.mode (lit "external"));
    namespace = ground arith;
    not_kube = ground arith;
    not_default = λ e. ground (arith, (==_iff p.namespace (lit "default")).1 e);
    not_system = λ e. ground (arith, (==_iff p.namespace (lit "incidentpilot-system")).1 e);
    not_observability =
        λ e. ground (arith, (==_iff p.namespace (lit "incidentpilot-observability")).1 e);
    some_workloads = ground arith;
    few_workloads = ground arith;
    some_alerts = ground arith;
    few_alerts = ground arith;
    workloads = workloads_valid [] p.workloads (ground arith);
    workload_names = separate-Distinct [] _ (workloads_separate [] p.workloads (ground arith));
    alert_names =
        separate-Distinct [] _
          (alerts_separate (map (λ w. w.name) p.workloads) [] p.alerts (ground arith));
    alert_scope = alerts_scoped (map (λ w. w.name) p.workloads) [] p.alerts (ground arith);
    few_verifiers = ground arith;
    verifiers = separate-Distinct [] p.verifiers (verifiers_separate [] p.verifiers (ground arith));
  },
)
