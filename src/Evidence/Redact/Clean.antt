-- ===== src/Evidence/Redact/Clean.antt =====
-- What is left of a payload after its redaction.
use incident_pilot.Common.{
  ◌≡◌, refl, ◌∙◌, sym, subst, some, none, Option, inl, inr, false, true, Bool, Bool-cases, arith,
  List, [], ◌∷◌, map, All, All-Memᴰ, Memᴰ, ◌<◌,
}
use incident_pilot.Text.{Bytes, lit, ◌==◌, ==_iff, to_lower, lower_byte, to_lower-ascii}
use incident_pilot.Json.{
  Json, Items, Members, null, bool, num, str, arr, obj, nil, cons, end, member,
}
use incident_pilot.Evidence.Redact.{
  Redactor, is_sensitive, decode_any, redact_value, redact_items, redact_members, redact_payload,
}
use incident_pilot.Evidence.Redact.Inline.Masked.{Masked, scrub-Masked}

abbrev pub secret_names : List Bytes
secret_names =
    lit "password"
    ∷ lit "token"
    ∷ lit "authorization"
    ∷ lit "secret"
    ∷ lit "secretkeyref"
    ∷ lit "stringdata"
    ∷ []

mutual
  -- a value and what is left of it: every text has its inline credentials masked, and the member of a
  -- secret name, in any letter case, holds the marker alone
  pub data Clean : Json → Json → Type 0 where
    text : {s t : Bytes} → Masked false s t → Clean (str s) (str t)
    list : {vs ws : Items} → CleanItems vs ws → Clean (arr vs) (arr ws)
    object : {ms ns : Members} → CleanMembers ms ns → Clean (obj ms) (obj ns)
    number : {n : Bytes} → Clean (num n) (num n)
    truth : {b : Bool} → Clean (bool b) (bool b)
    nothing : Clean null null

  pub data CleanItems : Items → Items → Type 0 where
    no_items : CleanItems nil nil
    item :
        {v w : Json} {vs ws : Items}
        → Clean v w
        → CleanItems vs ws
        → CleanItems (cons v vs) (cons w ws)

  pub data CleanMembers : Members → Members → Type 0 where
    no_members : CleanMembers end end
    hidden :
        {k : Bytes} {v : Json} {ms ns : Members}
        → Memᴰ (to_lower k) secret_names
        → CleanMembers ms ns
        → CleanMembers (member k v ms) (member k (str (lit "<redacted>")) ns)
    shown :
        {k : Bytes} {v w : Json} {ms ns : Members}
        → ¬ Memᴰ (map lower_byte k) secret_names
        → Clean v w
        → CleanMembers ms ns
        → CleanMembers (member k v ms) (member k w ns)

is_sensitive-Memᴰ : (k : Bytes) → is_sensitive k ≡ true → Memᴰ (to_lower k) secret_names
unfolding is_sensitive
is_sensitive-Memᴰ k h = elim (Bool-cases (to_lower k == lit "password")) [
  | inl e ↦ Memᴰ.head ((==_iff _ _).0 e)
  | inr e0 ↦ Memᴰ.tail (elim (Bool-cases (to_lower k == lit "token")) [
    | inl e ↦ Memᴰ.head ((==_iff _ _).0 e)
    | inr e1 ↦ Memᴰ.tail (elim (Bool-cases (to_lower k == lit "authorization")) [
      | inl e ↦ Memᴰ.head ((==_iff _ _).0 e)
      | inr e2 ↦ Memᴰ.tail (elim (Bool-cases (to_lower k == lit "secret")) [
        | inl e ↦ Memᴰ.head ((==_iff _ _).0 e)
        | inr e3 ↦ Memᴰ.tail (elim (Bool-cases (to_lower k == lit "secretkeyref")) [
          | inl e ↦ Memᴰ.head ((==_iff _ _).0 e)
          | inr e4 ↦ Memᴰ.tail (Memᴰ.head ((==_iff _ _).0 (ground (arith, h, e0, e1, e2, e3, e4))))
        ])
      ])
    ])
  ])
]

lowered : (k name : Bytes) → map lower_byte k ≡ name → All (λ c. c < 128) name → to_lower k ≡ name
lowered k name e small = to_lower-ascii k (subst (All (λ c. c < 128)) (sym e) small) ∙ e

small_letters : (name : Bytes) → Memᴰ name secret_names → All (λ c. c < 128) name
unfolding lit
small_letters name m = All-Memᴰ (λ n. All (λ c. c < 128) n) secret_names (ground arith) m

lowered-is_sensitive :
    (k name : Bytes) → to_lower k ≡ name → Memᴰ name secret_names → is_sensitive k ≡ true
unfolding is_sensitive
lowered-is_sensitive k name q m =
    All-Memᴰ Says secret_names
      (
        (λ e. ground (arith, (==_iff (to_lower k) (lit "password")).1 e)),
        (
          (λ e. ground (arith, (==_iff (to_lower k) (lit "token")).1 e)),
          (
            (λ e. ground (arith, (==_iff (to_lower k) (lit "authorization")).1 e)),
            (
              (λ e. ground (arith, (==_iff (to_lower k) (lit "secret")).1 e)),
              (
                (λ e. ground (arith, (==_iff (to_lower k) (lit "secretkeyref")).1 e)),
                ((λ e. ground (arith, (==_iff (to_lower k) (lit "stringdata")).1 e)), tt),
              ),
            ),
          ),
        ),
      )
      m q
  where
    Says : Bytes → Type 0
    Says n = to_lower k ≡ n → is_sensitive k ≡ true

plain_name : (k : Bytes) → is_sensitive k ≡ false → ¬ Memᴰ (map lower_byte k) secret_names
plain_name k h m =
    let s =
      lowered-is_sensitive k (map lower_byte k)
        (lowered k (map lower_byte k) refl (small_letters (map lower_byte k) m)) m in
    cc (h, s)

mutual
  unfolding redact_value

  redact_value-Clean : (v : Json) → Clean v (redact_value v)
  redact_value-Clean (obj ms) = object (redact_members-Clean ms)
  redact_value-Clean (arr vs) = list (redact_items-Clean vs)
  redact_value-Clean (str s) = text (scrub-Masked s)
  redact_value-Clean null = nothing
  redact_value-Clean (bool b) = truth
  redact_value-Clean (num n) = number

  redact_items-Clean : (vs : Items) → CleanItems vs (redact_items vs)
  redact_items-Clean nil = no_items
  redact_items-Clean (cons v vs) = item (redact_value-Clean v) (redact_items-Clean vs)

  redact_members-Clean : (ms : Members) → CleanMembers ms (redact_members ms)
  redact_members-Clean end = no_members
  redact_members-Clean (member k v ms) = elim (Bool-cases (is_sensitive k)) [
    | inl e ↦ rw (e, redact_members) (hidden (is_sensitive-Memᴰ k e) (redact_members-Clean ms))
    | inr e ↦
        rw (e, redact_members)
          (shown (plain_name k e) (redact_value-Clean v) (redact_members-Clean ms))
  ]

-- A payload that the redaction lets through is the payload as it was read, but for two changes, at
-- any depth. The member of one of six secret names, in any letter case, holds the marker alone. In
-- every other text, each inline credential, from left to right, keeps its name only: that is
-- one of four names at a word boundary, in any letter case, then a colon or an equals sign, with
-- or without spaces around it, and a value up to the next space, comma, semicolon, quote or
-- brace. Where no credential starts the text is unchanged.
pub redact_payload-Clean :
    (r : Redactor) (raw : Json) {out : Json}
    → redact_payload r raw ≡ some out
    → (read : Json) × (decode_any r raw ≡ some read) × Clean read out
unfolding redact_payload
redact_payload-Clean r raw {out = out} h = go (decode_any r raw) refl
  where
    go :
        (o : Option Json)
        → decode_any r raw ≡ o
        → (read : Json) × (decode_any r raw ≡ some read) × Clean read out
    go none q = cc (rw (q, redact_payload) at h)
    go (some v) q = (v, q, subst (Clean v) (ground (arith, q, h)) (redact_value-Clean v))
