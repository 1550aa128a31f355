-- ===== src/Agent/Chat.antt =====
-- `chat` of internal/agent/agent.go: the call of the model, with one retry of a rate limit. The
-- context, the provider and the clock answer each turn of the loop through a `Turn`.
use incident_pilot.Common.{
  ℕ, zero, suc, ◌+◌, ◌*◌, ◌≤◌, ◌≡◌, ◌≢◌, Bool, true, not, ◌||◌, Option, none, some, leb, ltb,
  Result, ok, err, arith, ◌⊎◌, inl, inr, if◌then◌else◌,
}
use incident_pilot.Common.Int.{ℤ, pos, eq_int, lt_int, add64}
use incident_pilot.Time.{second}
use incident_pilot.Llm.{ChatResponse, ProviderFailure, http_failure}

abbrev pub max_llm_calls : ℕ
max_llm_calls = 2

abbrev pub max_retry_delay : ℕ
max_retry_delay = 20 * second

-- what one turn of the loop meets
pub record Turn : Type 0 where
  -- ctx.Err() at the start
  pub expired : Option ProviderFailure
  -- Provider.Chat
  pub answer : Result ProviderFailure ChatResponse
  -- the deadline is at most the delay and a second away
  pub too_late : Bool
  -- ctx.Err() when the context ends before the timer
  pub interrupted : Option ProviderFailure

-- the counters of the report
pub record Counters : Type 0 where
  pub llm_calls : ℕ
  pub llm_retries : ℕ
  pub input_tokens : ℤ
  pub output_tokens : ℤ

pub data ChatFailure : Type 0 where
  budget_exhausted : ChatFailure
  failed : ProviderFailure → ChatFailure

-- the error allows no retry
unfoldable pub is_final : ProviderFailure → Counters → Bool
unfolding eq_int lt_int
is_final (http_failure status retry_after detail) c =
    not (eq_int status (pos 429))
    || ltb 0 c.llm_retries
    || leb max_llm_calls c.llm_calls
    || not (lt_int (pos 0) retry_after)
    || lt_int (pos max_retry_delay) retry_after
is_final e c = true

-- the loop, from its n-th turn; `none` when the fuel is used up
unfoldable pub chat :
    ℕ → (ℕ → Turn) → ℕ → Counters → Option (Counters × Result ChatFailure ChatResponse)
unfolding is_final
chat zero turns n c = none
chat (suc fuel) turns n c =
    let turn = turns n in
    let called = record c { llm_calls = c.llm_calls + 1 } in
    let rest = chat fuel turns (n + 1) (record called { llm_retries = c.llm_retries + 1 }) in
    elim turn.expired [
      | some e ↦ some (c, err (failed e))
      | none ↦
          if leb max_llm_calls c.llm_calls
          then some (c, err budget_exhausted)
          else elim turn.answer [
            | ok response ↦ some (
              record called {
                input_tokens = add64 c.input_tokens response.input_tokens;
                output_tokens = add64 c.output_tokens response.output_tokens;
              },
              ok response,
            )
            | err e ↦
                if is_final e called || turn.too_late
                then some (called, err (failed e))
                else elim turn.interrupted [
                  | some ended ↦ some (called, err (failed ended))
                  | none ↦ rest
                ]
          ]
    ]

-- a second turn is the last one: after a retry every error is final
after_retry :
    (turns : ℕ → Turn) (n : ℕ) (c : Counters) → ltb 0 c.llm_retries ≡ true → chat 1 turns n c ≢ none
unfolding chat is_final
after_retry turns n c h = ground arith

-- Two turns are enough: the loop ends, whatever the provider, the context and the clock do, and from
-- any counters.
pub chat_ends : (turns : ℕ → Turn) (c : Counters) → chat 2 turns 0 c ≢ none
unfolding chat
chat_ends turns c = ground (arith, after_retry turns 1)

-- the tokens before and after
abbrev Tokens : Counters → Counters → Result ChatFailure ChatResponse → Type 0
Tokens before after (ok r) =
    (after.input_tokens ≡ add64 before.input_tokens r.input_tokens)
    × (after.output_tokens ≡ add64 before.output_tokens r.output_tokens)
Tokens before after (err e) =
    (after.input_tokens ≡ before.input_tokens) × (after.output_tokens ≡ before.output_tokens)

pub record Counted (before after : Counters) (r : Result ChatFailure ChatResponse) : Type 0 where
  pub calls : after.llm_calls ≤ max_llm_calls
  pub retries : after.llm_retries ≤ 1
  pub more_calls : before.llm_calls ≤ after.llm_calls
  pub more_retries : before.llm_retries ≤ after.llm_retries
  pub one_each : after.llm_calls + before.llm_retries ≤ before.llm_calls + after.llm_retries + 1
  pub tokens : Tokens before after r

abbrev retried : Counters → Counters
retried c = record c { llm_calls = c.llm_calls + 1; llm_retries = c.llm_retries + 1 }

-- a turn ends the loop with one call at most, or is the first call and is followed by a retry
turn_cases :
    (fuel : ℕ) (turns : ℕ → Turn) (n : ℕ) (c : Counters) {after : Counters}
    {r : Result ChatFailure ChatResponse}
    → c.llm_calls ≤ max_llm_calls
    → chat (suc fuel) turns n c ≡ some (after, r)
    → (((after.llm_calls ≤ max_llm_calls)
          × (c.llm_calls ≤ after.llm_calls)
          × (after.llm_calls ≤ c.llm_calls + 1))
        × (after.llm_retries ≡ c.llm_retries)
        × Tokens c after r)
      ⊎ ((c.llm_calls ≡ 0)
          × (c.llm_retries ≡ 0)
          × (chat fuel turns (n + 1) (retried c) ≡ some (after, r)))
unfolding chat is_final
turn_cases fuel turns n c b h = ground arith

-- Within its budget the loop stays there: at most two calls and one retry in all, at most one call
-- beside the retries, and tokens counted exactly when the model answered.
pub chat_budget :
    (fuel : ℕ) (turns : ℕ → Turn) (n : ℕ) (c : Counters) {after : Counters}
    {r : Result ChatFailure ChatResponse}
    → c.llm_calls ≤ max_llm_calls
    → c.llm_retries ≤ 1
    → chat fuel turns n c ≡ some (after, r)
    → Counted c after r
unfolding chat
chat_budget zero turns n c b t h = cc
chat_budget (suc fuel) turns n c b t h = elim (turn_cases fuel turns n c b h) [
  | inl (calls, retries, tokens) ↦ record {
    calls = omega (arith, calls.0);
    retries = omega (arith, retries, t);
    more_calls = omega (arith, calls.1);
    more_retries = omega (arith, retries);
    one_each = omega (arith, retries, calls.2);
    tokens = tokens;
  }
  | inr (calls, retries, again) ↦
      let tail =
        chat_budget fuel turns (n + 1) (retried c) (omega (arith, calls)) (omega (arith, retries))
          again in
      record {
        calls = tail.calls;
        retries = tail.retries;
        more_calls = omega (arith, calls);
        more_retries = omega (arith, retries);
        one_each = omega (arith, tail.one_each);
        tokens = tail.tokens;
      }
]
