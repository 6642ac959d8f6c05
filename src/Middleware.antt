-- ===== src/Middleware.antt =====
-- middleware/auth.py, and the pipeline of middleware that endpoints_v10.py runs around a request.
-- `str.casefold`, the header look-up, the user's `verify` and the set of keys are arguments.
pub mod Auth
pub mod Pipeline
use Prim.Native.String.{len, slice}
use text.Mathlib.Text.{find?}
use a2akit.Prelude.{
  ◌+◌, String, Bool, not, ◌||◌, ◌==◌, Option, none, some, List, [], ◌∷◌, any, if◌then◌else◌,
}
use a2akit.Dict
use a2akit.Dict.{Dict}
use a2akit.Errors.{Error, Result, ok, err, authentication_required, ◌>>=◌, ◌>>◌}
use a2akit.Push.Store.{text_or}

-- What the code reads of a request.
pub record HttpRequest : Type 0 where
  pub path : String
  pub header : String → Option String

-- `RequestEnvelope.context`, its values as texts.
abbrev pub Context : Type 0
Context = Dict String

-- s.partition(" "): what is before the first space and what is after it
unfoldable pub partition : String → String × String
partition s = elim (find? s " ") [
  | none ↦ (s, "")
  | some i ↦ (slice s 0 i, slice s (i + 1) (len s))
]

abbrev default_paths : List String
default_paths = "/v1/health" ∷ ("/v1/health/ready" ∷ [])

-- exclude_paths or {...}
abbrev pub excluded_paths : Option (List String) → List String
excluded_paths none = default_paths
excluded_paths (some []) = default_paths
excluded_paths (some (p ∷ ps)) = p ∷ ps

abbrev pub is_excluded : List String → HttpRequest → Bool
is_excluded paths q = any (λ p. q.path == p) paths

abbrev unauthorized : {A : Type 0} → String → Result A
unauthorized scheme = err (authentication_required scheme)

-- What the claims that `verify` returns are put under, with the token.
abbrev pub with_claims : Context → String → String → Context
with_claims c claims token = Dict.set (Dict.set c "auth_claims" claims) "auth_token" token

abbrev claims_or_refuse : Context → String → Option String → Result Context
claims_or_refuse c token none = unauthorized "Bearer"
claims_or_refuse c token (some claims) = ok (with_claims c claims token)

-- The scheme and the token of the header, empty where it is missing.
abbrev pub credentials : HttpRequest → String × String
credentials q = partition (text_or (q.header "Authorization") "")

module _ (casefold : String → String) (verify : String → Result (Option String)) where
  unfoldable pub check_token : Context → String × String → Result Context
  check_token c (scheme, token) =
      if not (casefold scheme == "bearer") || token == ""
      then unauthorized "Bearer"
      else (verify token >>= λ claims. claims_or_refuse c token claims)

  -- BearerTokenMiddleware.before_dispatch
  unfoldable pub bearer_before_dispatch : List String → HttpRequest → Context → Result Context
  bearer_before_dispatch paths q c =
      if is_excluded paths q then ok c else check_token c (credentials q)

-- ApiKeyMiddleware.before_dispatch; `hmac.compare_digest` is equality.
unfoldable pub api_key_before_dispatch :
    List String → List String → String → HttpRequest → Context → Result Context
api_key_before_dispatch valid_keys paths header q c =
    if is_excluded paths q
    then ok c
    else let key = text_or (q.header header) "" in
      if key == "" || not (any (λ k. key == k) valid_keys)
      then unauthorized "ApiKey"
      else ok (Dict.set c "api_key" key)

-- A middleware: what it does before a request and after one, with the exception that left the
-- request, if any (`_a2a_error`): what it raises, if anything, and the context after it.
pub record Middleware : Type 0 where
  pub name : String
  pub before : Context → Option Error × Context
  pub after : Option Error → Context → Option Error × Context

-- The calls of the pipeline, by the middleware's name.
pub data Call : Type 0 where
  before_of : String → Call
  dispatched : Call
  after_of : String → Call

abbrev pub Outcome : Type 0
Outcome = Option Error × List Call

abbrev pub called : Call → Outcome → Outcome
called call (raised, calls) = (raised, call ∷ calls)

-- The `finally` clause, over the middleware that were started, the last first: one that raises
-- leaves it.
unfoldable pub after_all : Option Error → Context → List Middleware → Outcome
after_all failed c [] = (none, [])
after_all failed c (m ∷ ms) =
    let (raised, c') = m.after failed c in
    let rest = after_all failed c' ms in
    elim raised [ none ↦ called (after_of m.name) rest | some e ↦ (some e, after_of m.name ∷ []) ]

-- An exception of the `finally` clause takes the place of the request's own.
abbrev raised_or : Option Error → Option Error → Option Error
raised_or failed none = failed
raised_or failed (some e) = some e

abbrev pub ended : Option Error → Call → Outcome → Outcome
ended failed call (raised, calls) = (raised_or failed raised, call ∷ calls)

-- `_enforce_middleware_pipeline`, from a middleware on: `started` are those before it, the last
-- first, and `body` is what the request itself raises, if anything.
unfoldable pub run_pipeline :
    (Context → Option Error) → Context → List Middleware → List Middleware → Outcome
run_pipeline body c started [] = ended (body c) dispatched (after_all (body c) c started)
run_pipeline body c started (m ∷ ms) =
    let (failed, c') = m.before c in
    let rest = run_pipeline body c' (m ∷ started) ms in
    elim failed [
      | some e ↦ ended (some e) (before_of m.name) (after_all (some e) c' started)
      | none ↦ called (before_of m.name) rest
    ]
