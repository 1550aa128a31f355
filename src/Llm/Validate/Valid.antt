-- ===== src/Llm/Validate/Valid.antt =====
-- What an accepted answer of a model satisfies.
use incident_pilot.Common.{
  ◌≡◌, ◌≢◌, refl, ◌⊎◌, inl, inr, Bool, true, false, not, ◌&&◌, ◌||◌, Option, none, some, List, [],
  ◌∷◌, any, map, All, All-map, Distinct, Memᴰ, arith, Bool-cases, if◌then◌else◌,
}
use incident_pilot.Text.{Bytes, lit, ◌==◌, ==_iff}
use incident_pilot.Json.{Json, RawMessage, Members, obj}
use incident_pilot.Llm.Validate.{
  ToolCall, Message, ChatRequest, json_object, has_key, no_calls, no_tools, calls_error,
  validate_response,
}

-- the text of a JSON object
abbrev pub IsObject : RawMessage → Type 0
IsObject raw = (ms : Members) × (raw ≡ some (obj ms))

-- a call of an advertised tool, with an ID and an object of arguments
pub record ValidCall (names : List Bytes) (c : ToolCall) : Type 0 where
  pub has_id : c.id ≢ []
  pub advertised : Memᴰ c.name names
  pub has_arguments : IsObject c.arguments

json_object-IsObject : (raw : RawMessage) → json_object raw ≡ true → IsObject raw
unfolding json_object
json_object-IsObject none h = absurd (cc h)
json_object-IsObject (some (obj ms)) h = (ms, refl)
json_object-IsObject (some Json.null) h = absurd (cc h)
json_object-IsObject (some (Json.bool b)) h = absurd (cc h)
json_object-IsObject (some (Json.num n)) h = absurd (cc h)
json_object-IsObject (some (Json.str s)) h = absurd (cc h)
json_object-IsObject (some (Json.arr vs)) h = absurd (cc h)

has_key-Memᴰ : (keys : List Bytes) (k : Bytes) → has_key keys k ≡ true → Memᴰ k keys
unfolding has_key any
has_key-Memᴰ [] k h = absurd (cc h)
has_key-Memᴰ (j ∷ js) k h = elim (Bool-cases (j == k)) [
  | inl e ↦ Memᴰ.head (ground (arith, (==_iff j k).0 e))
  | inr e ↦ Memᴰ.tail (has_key-Memᴰ js k (ground (arith, e, h)))
]

-- an ID that is not among the seen ones differs from each of them
unseen : (keys : List Bytes) (k : Bytes) → has_key keys k ≡ false → All (λ j. j ≢ k) keys
unfolding has_key any
unseen [] k h = tt
unseen (j ∷ js) k h = ((λ e. ground (arith, h, (==_iff j k).1 e)), unseen js k (ground (arith, h)))

-- the IDs of the calls differ from those seen
abbrev Fresh : List Bytes → List ToolCall → Type 0
Fresh seen cs = All (λ c. All (λ j. j ≢ c.id) seen) cs

ids_differ :
    (id : Bytes) (cs : List ToolCall)
    → All (λ c. id ≢ c.id) cs
    → All (λ i. id ≢ i) (map (λ c. c.id) cs)
ids_differ id [] h = tt
ids_differ id (c ∷ cs) h = (h.0, ids_differ id cs h.1)

named : (s : Bytes) → (s == []) ≡ false → s ≢ []
named s h e = ground (arith, h, (==_iff s []).1 e)

calls_error-ValidCall :
    (names seen : List Bytes) (cs : List ToolCall)
    → calls_error names seen cs ≡ none
    → All (ValidCall names) cs × Fresh seen cs × Distinct (map (λ c. c.id) cs)
unfolding calls_error
calls_error-ValidCall names seen [] h = (tt, tt, tt)
calls_error-ValidCall names seen (c ∷ cs) h = elim (Bool-cases (c.id == [] || has_key seen c.id)) [
  | inl e ↦ absurd (cc (rw (e, calls_error) at h))
  | inr e ↦ elim (Bool-cases (has_key names c.name)) [
    | inr f ↦ absurd (cc (rw (e, f, calls_error) at h))
    | inl f ↦ elim (Bool-cases (json_object c.arguments)) [
      | inr g ↦ absurd (cc (rw (e, f, g, calls_error) at h))
      | inl g ↦
          let (valid, fresh, distinct) =
            calls_error-ValidCall names (c.id ∷ seen) cs (rw (e, f, g, calls_error) at h) in
          (
            (
              record {
                has_id = named c.id (ground (arith, e));
                advertised = has_key-Memᴰ names c.name f;
                has_arguments = json_object-IsObject c.arguments g;
              },
              valid,
            ),
            (unseen seen c.id (ground (arith, e)), All-map cs (λ d other. other.1) fresh),
            (ids_differ c.id cs (All-map cs (λ d other. other.0) fresh), distinct),
          )
    ]
  ]
]

-- an answer that the investigator may use
pub record ValidResponse (parse_json : Bytes → RawMessage) (req : ChatRequest) (m : Message)
    : Type 0 where
  pub by_assistant : m.role ≡ lit "assistant"
  pub says_something : (m.content ≢ []) ⊎ (no_calls m.tool_calls ≡ false)
  pub calls_when_required : (req.tool_choice ≢ lit "required") ⊎ (no_calls m.tool_calls ≡ false)
  pub no_calls_when_none : (req.tool_choice ≢ lit "none") ⊎ (no_calls m.tool_calls ≡ true)
  pub valid_calls : All (ValidCall (map (λ t. t.name) req.tools)) m.tool_calls
  pub distinct_ids : Distinct (map (λ c. c.id) m.tool_calls)
  pub structured :
      (req.json_output ≡ false) ⊎ ((no_calls m.tool_calls ≡ true) × IsObject (parse_json m.content))

differs : (s t : Bytes) → (s == t) ≡ false → s ≢ t
differs s t h e = ground (arith, h, (==_iff s t).1 e)

both_fail : (a b : Bool) → (a && b) ≡ false → (a ≡ false) ⊎ (b ≡ false)
both_fail true b h = inr h
both_fail false b h = inl refl

not_taken : (b : Bool) (code : Bytes) → (if b then some code else none) ≡ none → b ≡ false
not_taken true code h = absurd (cc h)
not_taken false code h = refl

-- the two parts of a test that failed
neither : (a b : Bool) → (not a || b) ≡ false → (a ≡ true) × (b ≡ false)
neither true b h = (refl, h)
neither false b h = absurd (cc h)

-- what is known of a text or of the calls when a test of both failed
text_or :
    {Q : Type 0} (s t : Bytes) (b : Bool) → (s == t && b) ≡ false → ((b ≡ false) → Q) → (s ≢ t) ⊎ Q
text_or s t b h f = elim (both_fail (s == t) b h) [
  | inl e ↦ inl (differs s t e)
  | inr e ↦ inr (f e)
]

forbids : (a b c : Bool) → ((a || b) && not c) ≡ false → (a ≡ false) ⊎ (c ≡ true)
forbids true b c h = inr (ground (arith, h))
forbids false b c h = inl refl

structures :
    (a b c : Bool) → (a && (not b || not c)) ≡ false → (a ≡ false) ⊎ ((b ≡ true) × (c ≡ true))
structures true true true h = inr (refl, refl)
structures true true false h = absurd (cc h)
structures true false c h = absurd (cc h)
structures false b c h = inl refl

module _ (parse_json : Bytes → RawMessage) (req : ChatRequest) (m : Message) where
  -- An accepted answer comes from the assistant and is not empty. It calls tools if the request
  -- requires that and none if the request forbids it. Each of its calls has an ID of its own, names a
  -- tool of the request and has a JSON object of arguments. Where structured output was asked for, it
  -- calls no tool and its content is a JSON object.
  pub validate_response-ValidResponse :
      validate_response parse_json req m ≡ none → ValidResponse parse_json req m
  unfolding validate_response
  validate_response-ValidResponse h =
      elim (Bool-cases (not (m.role == lit "assistant") || (m.content == [] && none_called))) [
        | inl e ↦ absurd (cc (rw (e, validate_response) at h))
        | inr e ↦ elim (Bool-cases (req.tool_choice == lit "required" && none_called)) [
          | inl f ↦ absurd (cc (rw (e, f, validate_response) at h))
          | inr f ↦ elim (Bool-cases forbidden) [
            | inl g ↦ absurd (cc (rw (e, f, g, validate_response) at h))
            | inr g ↦
                of_calls e f g (calls_error names [] m.tool_calls) refl
                  (rw (e, f, g, validate_response) at h)
          ]
        ]
      ]
    where
      none_called : Bool
      none_called = no_calls m.tool_calls

      forbidden : Bool
      forbidden = (req.tool_choice == lit "none" || no_tools req.tools) && not none_called

      names : List Bytes
      names = map (λ t. t.name) req.tools

      unstructured : Bool
      unstructured =
          req.json_output && (not none_called || not (json_object (parse_json m.content)))

      of_calls :
          (not (m.role == lit "assistant") || (m.content == [] && none_called)) ≡ false
          → (req.tool_choice == lit "required" && none_called) ≡ false
          → forbidden ≡ false
          → (o : Option Bytes) → calls_error names [] m.tool_calls ≡ o
          → (elim o [
            | some code ↦ some code
            | none ↦ if unstructured then some (lit "structured_json_missing") else none
          ])
            ≡ none
          → ValidResponse parse_json req m
      of_calls e f g (some code) q k = absurd (cc k)
      of_calls e f g none q k =
          let (assistant, says) =
            neither (m.role == lit "assistant") (m.content == [] && none_called) e in
          let (valid, fresh, distinct) = calls_error-ValidCall names [] m.tool_calls q in
          record {
            by_assistant = (==_iff m.role (lit "assistant")).0 assistant;
            says_something = text_or m.content [] none_called says (λ r. r);
            calls_when_required = text_or req.tool_choice (lit "required") none_called f (λ r. r);
            no_calls_when_none =
                elim (forbids (req.tool_choice == lit "none") (no_tools req.tools) none_called g) [
                  | inl r ↦ inl (differs req.tool_choice (lit "none") r)
                  | inr r ↦ inr r
                ];
            valid_calls = valid;
            distinct_ids = distinct;
            structured =
                elim (structures req.json_output none_called (json_object (parse_json m.content))
                  (not_taken unstructured (lit "structured_json_missing") k)) [
                    | inl r ↦ inl r
                    | inr r ↦ inr (r.0, json_object-IsObject (parse_json m.content) r.1)
                  ];
          }
