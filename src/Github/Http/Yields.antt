-- ===== src/Github/Http/Yields.antt =====
-- Steps whose values and errors have a property, whatever was sent before.
use incident_pilot.Common.{
  ◌≡◌, refl, ℕ, ◌*◌, Option, none, some, List, [], ◌∷◌, any, ltb, eqb, eqb→eq, inl, inr, Bool-cases,
  Result, ok, err, arith,
}
use incident_pilot.Json.{Json, unmarshal}
use incident_pilot.Github.Http.{
  Request, Response, Server, ApiError, too_long, answered, output, do_json, Step, done, fail, ◌>>=◌,
  attempt, or_fail,
}

-- a result with the property for its kind
unfoldable pub Outcome : {E A : Type 0} → (A → Type 0) → (E → Type 0) → Result E A → Type 0
Outcome Good Bad (ok a) = Good a
Outcome Good Bad (err e) = Bad e

unfoldable pub Yields : {E A : Type 0} → (A → Type 0) → (E → Type 0) → Step E A → Type 0
unfolding Outcome
Yields Good Bad m = (sent : List Request) → Outcome Good Bad (m sent).0

module _ {E A : Type 0} (Good : A → Type 0) (Bad : E → Type 0) where
  pub done-Yields : (a : A) → Good a → Yields Good Bad (done a)
  unfolding Yields done
  done-Yields a good sent = good

  pub fail-Yields : (e : E) → Bad e → Yields Good Bad (fail e)
  unfolding Yields fail
  fail-Yields e bad sent = bad

  pub bind-Yields :
      {B : Type 0} (Next : B → Type 0) (m : Step E A) (f : A → Step E B)
      → Yields Good Bad m
      → ((a : A) → Good a → Yields Next Bad (f a))
      → Yields Next Bad (m >>= f)
  unfolding Yields ◌>>=◌
  bind-Yields {B = B} Next m f first next sent = go (m sent).0 (first sent)
    where
      go :
          (r : Result E A)
          → Outcome Good Bad r
          → Outcome Next Bad
              (elim r as (λ x. Result E B × List Request) [
                | err e ↦ (err e, (m sent).1)
                | ok a ↦ f a (m sent).1
              ]).0
      go (err e) bad = bad
      go (ok a) good = next a good (m sent).1

  pub attempt-Yields :
      {F : Type 0} (Other : F → Type 0) (m : Step E A)
      → Yields Good Bad m
      → Yields (Outcome Good Bad) Other (attempt m)
  unfolding Yields attempt
  attempt-Yields Other m first = first

  pub or_fail-Yields :
      {F : Type 0} (Other : F → Type 0) (name : E → F) (m : Step E A)
      → Yields Good Bad m
      → ((e : E) → Other (name e))
      → Yields Good Other (or_fail name m)
  unfolding Yields or_fail
  or_fail-Yields {F = F} Other name m first named sent = go (m sent).0 (first sent)
    where
      go :
          (r : Result E A)
          → Outcome Good Bad r
          → Outcome Good Other
              (elim r as (λ x. Result F A × List Request) [
                | err e ↦ (err (name e), (m sent).1)
                | ok a ↦ (ok a, (m sent).1)
              ]).0
      go (err e) bad = named e
      go (ok a) good = good

-- nothing is claimed of what such a step gives
pub any-Yields : {E A : Type 0} (m : Step E A) → Yields (λ a. Unit {0}) (λ e. Unit {0}) m
unfolding Yields
any-Yields {E = E} {A = A} m sent = go (m sent).0
  where
    go : (r : Result E A) → Outcome (λ a. Unit {0}) (λ e. Unit {0}) r
    go (ok a) = tt
    go (err e) = tt

-- what the server's answer to a request, sent after some others, was read as
pub record Got {A : Type 0} (s : Server) (read : Json → Option A) (request : Request) (status : ℕ)
    (a : A) : Type 0 where
  pub before : List Request
  pub answer : Response
  pub was_sent : s.send before request ≡ some answer
  pub has_status : answer.status ≡ status
  pub was_read : unmarshal read answer.body ≡ some a

-- a request with one good status
pub do_json-Got :
    {A : Type 0} (s : Server) (read : Json → Option A) (request : Request) (status : ℕ)
    → Yields
        (Got s read request status)
        (λ e. Unit {0})
        (do_json (output read) s request (status ∷ []))
unfolding Yields do_json answered output any
do_json-Got {A = A} s read request status sent = elim (Bool-cases (too_long s.size request.body)) [
  | inl e ↦ rw (e, do_json, Outcome) tt
  | inr e ↦ rw (e, do_json) (go (s.send sent request) refl)
]
  where
    Fine : Result ApiError A → Type 0
    Fine = Outcome (Got s read request status) (λ e. Unit {0})

    read_as :
        (r : Response)
        → s.send sent request ≡ some r
        → r.status ≡ status
        → (o : Option A) → unmarshal read r.body ≡ o
        → Fine (output read r)
    read_as r q st none u = ground (arith, u)
    read_as r q st (some a) u = elim (Bool-cases (ltb (512 * 1024) r.length)) [
      | inl e ↦ rw (e, output) tt
      | inr e ↦
          rw (e, u, output)
            (record { before = sent; answer = r; was_sent = q; has_status = st; was_read = u })
    ]

    go :
        (o : Option Response)
        → s.send sent request ≡ o
        → Fine (answered (output read) (status ∷ []) o)
    go none q = tt
    go (some r) q = elim (Bool-cases (eqb r.status status)) [
      | inr e ↦ rw (e, answered, any) tt
      | inl e ↦ rw (e, answered, any) (read_as r q (eqb→eq _ _ e) (unmarshal read r.body) refl)
    ]
