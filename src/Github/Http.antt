-- ===== src/Github/Http.antt =====
-- `doJSON` of internal/github/client.go. The server is a parameter: its answer to a request after the
-- requests before. The headers, which are the same in every request, are left out.
pub mod Tame
pub mod Yields
use incident_pilot.Common.{
  ℕ, ◌*◌, Bool, true, false, not, ◌||◌, Option, none, some, List, [], ◌∷◌, ◌++◌, any, ltb, eqb,
  if◌then◌else◌, Result, ok, err,
}
use incident_pilot.Text.{Bytes}
use incident_pilot.Json.{Json, RawMessage, unmarshal}

pub data Method : Type 0 where
  get post put : Method

pub record Request : Type 0 where
  pub method : Method
  -- the path under the base URL, and the query's parameters
  pub path : Bytes
  pub query : List (Bytes × Bytes)
  pub body : Option Json

-- a body that cannot be read counts as one that is not JSON
pub record Response : Type 0 where
  pub status : ℕ
  pub length : ℕ
  pub body : RawMessage

pub record Server : Type 0 where
  -- `none` is an error of the transport, or a request that cannot be built
  pub send : List Request → Request → Option Response
  -- the length of json.Marshal's text
  pub size : Json → ℕ

-- apiError with its status, or another error
pub data ApiError : Type 0 where
  api_status : ℕ → ApiError
  failed : ApiError

-- a computation that sends requests after those already sent
abbrev pub Step : Type 0 → Type 0 → Type 0
Step E A = List Request → Result E A × List Request

unfoldable pub done : {E A : Type 0} → A → Step E A
done a sent = (ok a, sent)

unfoldable pub fail : {E A : Type 0} → E → Step E A
fail e sent = (err e, sent)

infixl 5 ◌>>=◌
unfoldable pub ◌>>=◌ : {E A B : Type 0} → Step E A → (A → Step E B) → Step E B
(m >>= f) sent = elim (m sent).0 [ err e ↦ (err e, (m sent).1) | ok a ↦ f a (m sent).1 ]

-- the result, or the error, of a step as a value
unfoldable pub attempt : {E F A : Type 0} → Step E A → Step F (Result E A)
attempt m sent = (ok (m sent).0, (m sent).1)

-- an error under another name
unfoldable pub or_fail : {E F A : Type 0} → (E → F) → Step E A → Step F A
or_fail name m sent = elim (m sent).0 [
  | err e ↦ (err (name e), (m sent).1)
  | ok a ↦ (ok a, (m sent).1)
]

too_long : (Json → ℕ) → Option Json → Bool
too_long size none = false
too_long size (some input) = ltb (384 * 1024) (size input)

-- the body of an answer, where the caller wants an output
unfoldable pub output : {A : Type 0} → (Json → Option A) → Response → Result ApiError A
unfolding unmarshal
output read response =
    if ltb (512 * 1024) response.length
    then err failed
    else elim (unmarshal read response.body) [ none ↦ err failed | some a ↦ ok a ]

-- the body is dropped
unfoldable pub no_output : Response → Result ApiError (Unit {0})
no_output response = ok tt

answered :
    {A : Type 0} → (Response → Result ApiError A) → List ℕ → Option Response → Result ApiError A
unfolding any
answered read statuses none = err failed
answered read statuses (some response) =
    if any (eqb response.status) statuses then read response else err (api_status response.status)

unfoldable pub do_json :
    {A : Type 0} → (Response → Result ApiError A) → Server → Request → List ℕ → Step ApiError A
unfolding too_long answered
do_json read s request statuses sent =
    if too_long s.size request.body
    then (err failed, sent)
    else (answered read statuses (s.send sent request), sent ++ request ∷ [])
