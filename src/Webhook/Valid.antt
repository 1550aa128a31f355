-- ===== src/Webhook/Valid.antt =====
-- The signals that a webhook lets through.
use incident_pilot.Common.{
  ℕ, ◌≤◌, ◌≡◌, refl, ap, subst, ◌⊎◌, inl, inr, Bool, true, false, not, ◌&&◌, ◌||◌, Option, none,
  some, List, [], ◌∷◌, length, ltb, All, arith, Bool-cases, Result, ok, err, ok_injective,
  and_split,
}
use incident_pilot.Common.Int.{pos, eq_int}
use incident_pilot.Text.{Bytes, lit, ◌==◌, ==_iff}
use incident_pilot.Text.Regex.{matches}
use incident_pilot.Time.{Time, is_zero}
use incident_pilot.Json.{unmarshal}
use incident_pilot.Incident.{Signal, detected, resolved}
use incident_pilot.Webhook.{
  Alert, WebhookPayload, WebhookRequest, fingerprint_pattern, name_pattern, is_label, label,
  is_identified, firing, signal_of, signals_of, accept, read_payload, after_body, is_json,
  decode_webhook,
}

-- a signal that an incident can be made of
pub record ValidSignal (s : Signal) : Type 0 where
  pub has_fingerprint : matches fingerprint_pattern s.fingerprint ≡ true
  pub short_name : length s.alert_name ≤ 128
  pub has_name : matches name_pattern s.alert_name ≡ true
  pub has_namespace : is_label s.namespace ≡ true
  pub has_service : is_label s.service ≡ true
  pub has_severity : (s.severity ≡ lit "warning") ⊎ (s.severity ≡ lit "critical")
  pub started : is_zero s.started_at ≡ false
  pub in_order :
      ((s.status ≡ detected) × (s.resolved_at ≡ none))
      ⊎ ((t : Time) × (s.status ≡ resolved) × (s.resolved_at ≡ some t) × (s.started_at ≤ t))

is_false : (b : Bool) → not b ≡ true → b ≡ false
is_false true h = absurd (cc h)
is_false false h = refl

either : (a b : Bool) → (a || b) ≡ true → (a ≡ true) ⊎ (b ≡ true)
either true b h = inl refl
either false b h = inr h

at_most : (n : ℕ) → ltb 128 n ≡ false → n ≤ 128
at_most n h = ground (arith, h)

not_before :
    (a : Alert) → (is_zero a.ends_at || ltb a.ends_at a.starts_at) ≡ false → a.starts_at ≤ a.ends_at
not_before a h = ground (arith, h)

identified_parts :
    (f l n s v w c z : Bool)
    → (f && not l && n && s && v && (w || c) && not z) ≡ true
    → (f ≡ true)
      × (l ≡ false)
      × (n ≡ true)
      × (s ≡ true)
      × (v ≡ true)
      × ((w ≡ true) ⊎ (c ≡ true))
      × (z ≡ false)
identified_parts f l n s v w c z h =
    let (h6, nz) = and_split (f && not l && n && s && v && (w || c)) (not z) h in
    let (h5, wc) = and_split (f && not l && n && s && v) (w || c) h6 in
    let (h4, hv) = and_split (f && not l && n && s) v h5 in
    let (h3, hs) = and_split (f && not l && n) s h4 in
    let (h2, hn) = and_split (f && not l) n h3 in
    let (hf, nl) = and_split f (not l) h2 in
    (hf, is_false l nl, hn, hs, hv, either w c wc, is_false z nz)

firing-ValidSignal : (a : Alert) → is_identified a ≡ true → ValidSignal (firing a)
unfolding is_identified firing
firing-ValidSignal a h =
    let (fingerprint, short, name, namespace, service, severity, started) =
      identified_parts _ _ _ _ _ _ _ _ h in
    record {
      has_fingerprint = fingerprint;
      short_name = at_most (length (label (lit "alertname") a)) short;
      has_name = name;
      has_namespace = namespace;
      has_service = service;
      has_severity = elim severity [
        | inl e ↦ inl ((==_iff (label (lit "severity") a) (lit "warning")).0 e)
        | inr e ↦ inr ((==_iff (label (lit "severity") a) (lit "critical")).0 e)
      ];
      started = started;
      in_order = inl (refl, refl);
    }

signal_of-ValidSignal : (a : Alert) {s : Signal} → signal_of a ≡ ok s → ValidSignal s
unfolding signal_of
signal_of-ValidSignal a {s = s} h = elim (Bool-cases (is_identified a)) [
  | inr e ↦ absurd (cc (rw (e, signal_of) at h))
  | inl e ↦ elim (Bool-cases (a.status == lit "firing")) [
    | inl f ↦ subst ValidSignal (ok_injective (rw (e, f, signal_of) at h)) (firing-ValidSignal a e)
    | inr f ↦ elim (Bool-cases (a.status == lit "resolved")) [
      | inr g ↦ absurd (cc (rw (e, f, g, signal_of) at h))
      | inl g ↦ elim (Bool-cases (is_zero a.ends_at || ltb a.ends_at a.starts_at)) [
        | inl k ↦ absurd (cc (rw (e, f, g, k, signal_of) at h))
        | inr k ↦ subst ValidSignal (ok_injective (rw (e, f, g, k, signal_of) at h)) (ended e k)
      ]
    ]
  ]
]
  where
    ended :
        is_identified a ≡ true
        → (is_zero a.ends_at || ltb a.ends_at a.starts_at) ≡ false
        → ValidSignal (record (firing a) { resolved_at = some a.ends_at; status = resolved })
    ended e k =
        let v = firing-ValidSignal a e in
        record {
          has_fingerprint = v.has_fingerprint;
          short_name = v.short_name;
          has_name = v.has_name;
          has_namespace = v.has_namespace;
          has_service = v.has_service;
          has_severity = v.has_severity;
          started = v.started;
          in_order = inr (a.ends_at, refl, refl, not_before a k);
        }

signals_of-ValidSignal :
    (alerts : List Alert) {ss : List Signal}
    → signals_of alerts ≡ ok ss
    → All ValidSignal ss × (length ss ≡ length alerts)
unfolding signals_of
signals_of-ValidSignal [] h =
    subst (λ ss. All ValidSignal ss × (length ss ≡ 0)) (ok_injective h) (tt, refl)
signals_of-ValidSignal (a ∷ others) {ss = ss} h =
    go (signal_of a) (signals_of others) refl refl
      (λ found k. signals_of-ValidSignal others {ss = found} k)
  where
    go :
        (r : Result Bytes Signal) (rest : Result Bytes (List Signal))
        → signal_of a ≡ r
        → signals_of others ≡ rest
        → ((found : List Signal)
            → signals_of others ≡ ok found
            → All ValidSignal found × (length found ≡ length others))
        → All ValidSignal ss × (length ss ≡ length (a ∷ others))
    go (err text) rest q k rec = absurd (cc (rw (q, signals_of) at h))
    go (ok s) (err text) q k rec = absurd (cc (rw (q, k, signals_of) at h))
    go (ok s) (ok found) q k rec =
        let (valid, same) = rec found k in
        subst (λ l. All ValidSignal l × (length l ≡ length (a ∷ others)))
          (ok_injective (rw (q, k, signals_of) at h))
          ((signal_of-ValidSignal a q, valid), omega (arith, same))

-- the alerts of a body whose media type, whole text and version are as expected
pub record Decoded (parse_time : Bytes → Option Time) (request : WebhookRequest) (ss : List Signal)
    : Type 0 where
  pub json_body : request.media_type ≡ some (lit "application/json")
  pub whole : request.at_end ≡ true
  pub payload : WebhookPayload
  pub decoded : unmarshal (read_payload parse_time) request.body ≡ some payload
  pub has_version : payload.version ≡ lit "4"
  pub all_of_them : length ss ≡ length payload.alerts
  pub at_least_one : 1 ≤ length ss
  pub at_most_fifty : length ss ≤ 50
  pub valid : All ValidSignal ss

-- the alerts' number and signals
abbrev Accepted : WebhookPayload → List Signal → Type 0
Accepted payload ss =
    (payload.version ≡ lit "4")
    × (length ss ≡ length payload.alerts)
    × (1 ≤ length ss)
    × (length ss ≤ 50)
    × All ValidSignal ss

counted :
    (v t : Bool) (n : ℕ)
    → (not v || not t || ltb n 1 || ltb 50 n) ≡ false
    → (v ≡ true) × (1 ≤ n) × (n ≤ 50)
counted v t n h = ground (arith, h)

accept-Accepted :
    (payload : WebhookPayload) {ss : List Signal} → accept payload ≡ ok ss → Accepted payload ss
unfolding accept
accept-Accepted payload {ss = ss} h =
    elim (Bool-cases (
      not (payload.version == lit "4")
      || not (eq_int payload.truncated_alerts (pos 0))
      || ltb (length payload.alerts) 1
      || ltb 50 (length payload.alerts))) [
        | inl e ↦ absurd (cc (rw (e, accept) at h))
        | inr e ↦
            let (version, low, high) = counted _ _ (length payload.alerts) e in
            let (valid, same) = signals_of-ValidSignal payload.alerts (rw (e, accept) at h) in
            (
              (==_iff payload.version (lit "4")).0 version,
              same,
              omega (arith, low, same),
              omega (arith, high, same),
              valid,
            )
      ]

-- A webhook that is decoded is one whole JSON body of version 4. It gives one signal for each of its
-- alerts, between 1 and 50, in which the fingerprint, the alert's name, the namespace and the service
-- are well formed and bounded, the severity is warning or critical, and the start is not the zero time.
-- A signal is either detected, with no end, or resolved, with an end that is not before its start.
pub decode_webhook-Decoded :
    (parse_time : Bytes → Option Time) (request : WebhookRequest) {ss : List Signal}
    → decode_webhook parse_time request ≡ ok ss
    → Decoded parse_time request ss
unfolding decode_webhook after_body is_json
decode_webhook-Decoded parse_time request {ss = ss} h =
    elim (Bool-cases (is_json request.media_type)) [
      | inr e ↦ absurd (cc (rw (e, decode_webhook) at h))
      | inl e ↦ go (unmarshal (read_payload parse_time) request.body) refl e
    ]
  where
    media : (m : Option Bytes) → is_json m ≡ true → m ≡ some (lit "application/json")
    media none k = absurd (cc k)
    media (some m) k = ap some ((==_iff m (lit "application/json")).0 k)

    go :
        (o : Option WebhookPayload)
        → unmarshal (read_payload parse_time) request.body ≡ o
        → is_json request.media_type ≡ true
        → Decoded parse_time request ss
    go none q e = absurd (cc (rw (e, q, decode_webhook) at h))
    go (some payload) q e = elim (Bool-cases request.at_end) [
      | inr f ↦ absurd (cc (rw (e, q, f, decode_webhook) at h))
      | inl f ↦
          let (version, same, low, high, valid) =
            accept-Accepted payload (rw (e, q, f, decode_webhook) at h) in
          record {
            json_body = media request.media_type e;
            whole = f;
            payload = payload;
            decoded = q;
            has_version = version;
            all_of_them = same;
            at_least_one = low;
            at_most_fifty = high;
            valid = valid;
          }
    ]
