-- ===== src/Onboarding/Queries.antt =====
-- What the queries of a profile allow.
use incident_pilot.Common.{
  ◌≡◌, refl, sym, ap, ◌∙◌, ◌↔◌, inl, inr, Bool, true, false, ◌&&◌, Option, none, some, List, [],
  ◌∷◌, ◌++◌, Memᴰ, any, arith, Bool-cases, and_split,
}
use incident_pilot.Text.{Bytes, lit, ◌==◌, ==_iff}
use incident_pilot.Onboarding.Scope.{External}
use incident_pilot.Onboarding.Profile.{
  Workload, Alert, Profile, demo, effective, allows_workload, pod_label, pod_selector,
  allows_incident,
}

-- an item that passes a test
any-Memᴰ :
    {A : Type 0} (p : A → Bool) (xs : List A) → any p xs ≡ true → (x : A) × Memᴰ x xs × (p x ≡ true)
unfolding any
any-Memᴰ p [] h = cc
any-Memᴰ p (x ∷ xs) h = elim (Bool-cases (p x)) [
  | inl e ↦ (x, Memᴰ.head refl, e)
  | inr e ↦ let r = any-Memᴰ p xs (ground (arith, e, h)) in (r.0, Memᴰ.tail r.1, r.2)
]

Memᴰ-any :
    {A : Type 0} (p : A → Bool) {x : A} (xs : List A) → Memᴰ x xs → p x ≡ true → any p xs ≡ true
unfolding any
Memᴰ-any p [] m h = elim m [ ]
Memᴰ-any p (y ∷ xs) (Memᴰ.head e) h = ground (arith, ap p e, h)
Memᴰ-any p (y ∷ xs) (Memᴰ.tail m) h = ground (arith, Memᴰ-any p xs m h)

external_not_demo : (lit "external" == lit "demo") ≡ false
unfolding lit ◌==◌
external_not_demo = refl

external_not_empty : (lit "external" == []) ≡ false
unfolding lit ◌==◌
external_not_empty = refl

-- the facts about the mode that the queries test
mode_lem : (p : Profile) → External p → (effective p ≡ p) × ((p.mode == lit "demo") ≡ false)
unfolding effective
mode_lem p x = (
  ground (arith, ap (λ m. m == []) x.mode ∙ external_not_empty),
  ap (λ m. m == lit "demo") x.mode ∙ external_not_demo,
)

abbrev pub InScope : Profile → Bytes → Bytes → Bytes → Type 0
InScope p namespace workload alert =
    (namespace ≡ p.namespace)
    × ((w : Workload) × Memᴰ w p.workloads × (w.name ≡ workload))
    × ((a : Alert) × Memᴰ a p.alerts × (a.name ≡ alert) × (a.workload ≡ workload))

-- the query in the external mode
allows_incident-External :
    (p : Profile) (namespace workload alert : Bytes)
    → External p
    → allows_incident p namespace workload alert ≡ (
        namespace == p.namespace
        && any (λ w. w.name == workload) p.workloads
        && any (λ a. a.name == alert && a.workload == workload) p.alerts)
unfolding allows_incident allows_workload effective
allows_incident-External p namespace workload alert x =
    let m = mode_lem p x in ground (arith, m.1, ap (λ m. m == []) x.mode ∙ external_not_empty)

both_eq : (a b c d : Bytes) → (a == b && c == d) ≡ true → (a ≡ b) × (c ≡ d)
both_eq a b c d h =
    let (e, f) = and_split (a == b) (c == d) h in ((==_iff a b).0 e, (==_iff c d).0 f)

-- Under an external profile an incident is allowed exactly when it is in the profile's namespace, about
-- one of its workloads, and from an alert that the profile lists for that workload.
pub allows_incident_iff :
    (p : Profile) (namespace workload alert : Bytes)
    → External p
    → (allows_incident p namespace workload alert ≡ true) ↔ InScope p namespace workload alert
allows_incident_iff p namespace workload alert x = (to, from)
  where
    to : allows_incident p namespace workload alert ≡ true → InScope p namespace workload alert
    to h =
        let (front, ha) =
          and_split (namespace == p.namespace && any (λ w. w.name == workload) p.workloads)
            (any (λ a. a.name == alert && a.workload == workload) p.alerts)
            (sym (allows_incident-External p namespace workload alert x) ∙ h) in
        let (n, hw) =
          and_split (namespace == p.namespace) (any (λ w. w.name == workload) p.workloads) front in
        let w = any-Memᴰ (λ w. w.name == workload) p.workloads hw in
        let a = any-Memᴰ (λ a. a.name == alert && a.workload == workload) p.alerts ha in
        (
          (==_iff namespace p.namespace).0 n,
          (w.0, w.1, (==_iff w.0.name workload).0 w.2),
          (
            a.0,
            a.1,
            (both_eq a.0.name alert a.0.workload workload a.2).0,
            (both_eq a.0.name alert a.0.workload workload a.2).1,
          ),
        )

    from : InScope p namespace workload alert → allows_incident p namespace workload alert ≡ true
    from (n, w, a) =
        let hw =
          Memᴰ-any (λ w. w.name == workload) p.workloads w.1 ((==_iff w.0.name workload).1 w.2) in
        let ha =
          Memᴰ-any (λ a. a.name == alert && a.workload == workload) p.alerts a.1
            (ground (arith, (==_iff a.0.name alert).1 a.2, (==_iff a.0.workload workload).1 a.3)) in
        allows_incident-External p namespace workload alert x
        ∙ ground (arith, (==_iff namespace p.namespace).1 n, hw, ha)

-- the label of a pod, as a selector
abbrev joined : Option (Bytes × Bytes) → Option Bytes
joined none = none
joined (some (key, value)) = some (key ++ (lit "=" ++ value))

demo_label : (name : Bytes) → lit "app" ++ (lit "=" ++ name) ≡ lit "app=" ++ name
unfolding lit
demo_label name = refl

effective_twice : (p : Profile) → effective (effective p) ≡ effective p
unfolding effective demo lit ◌==◌
effective_twice p = ground arith

-- The pod selector of a workload is its pod label, in every mode, and there is one exactly when there is
-- the other.
pod_selector-pod_label :
    (p : Profile) (name : Bytes) → pod_selector p name ≡ joined (pod_label p name)
unfolding pod_selector pod_label
pod_selector-pod_label p name = ground (arith, effective_twice p, demo_label name)
