-- ===== src/Dependencies.antt =====
-- dependencies.py: `DependencyContainer`. A dependency is known by its identity, a number; what its
-- `startup` and `shutdown` do is an argument: nothing, or what they raise.
pub mod Order
pub mod Once
use mathlib.Core.List.{reverse}
use a2akit.Prelude.{
  ℕ, String, Bool, true, false, Option, none, some, List, [], ◌∷◌, ◌++◌, any, eqb, if◌then◌else◌,
}
use a2akit.Errors.{Error, Result, ok, err, is_cancellation}

pub data Value : Type 0 where
  dependency : ℕ → Value
  plain : String → Value

-- The registry's keys are types or texts; only `get` and its kin read them.
pub record Container : Type 0 where
  pub registry : List (String × Value)
  pub started : Bool

pub data Call : Type 0 where
  startup_of : ℕ → Call
  shutdown_of : ℕ → Call

abbrev pub values : List (String × Value) → List Value
values [] = []
values ((k, v) ∷ r) = v ∷ values r

abbrev pub is_seen : ℕ → List ℕ → Bool
is_seen i seen = any (eqb i) seen

-- What a loop of startups comes to: its result, the calls it made, the dependencies that started.
abbrev pub Progress : Type 0
Progress = Result (Unit {0}) × List Call × List ℕ

abbrev called : ℕ → Progress → Progress
called i (r, calls, done) = (r, startup_of i ∷ calls, done)

-- The loop of `startup`.
unfoldable pub start_all : (ℕ → Option Error) → List Value → List ℕ → List ℕ → Progress
start_all starts [] seen done = (ok tt, [], done)
start_all starts (plain s ∷ vs) seen done = start_all starts vs seen done
start_all starts (dependency i ∷ vs) seen done =
    let skipped = start_all starts vs seen done in
    let continued = start_all starts vs (i ∷ seen) (done ++ i ∷ []) in
    if is_seen i seen
    then skipped
    else elim (starts i) [ none ↦ called i continued | some e ↦ (err e, startup_of i ∷ [], done) ]

-- A shutdown that raises is logged and swallowed, unless it is cancelled.
abbrev stopped_by : ℕ → Option Error → Result (Unit {0}) × List Call → Result (Unit {0}) × List Call
stopped_by i none (r, calls) = (r, shutdown_of i ∷ calls)
stopped_by i (some e) (r, calls) =
    if is_cancellation e then (err e, shutdown_of i ∷ []) else (r, shutdown_of i ∷ calls)

-- The rollback.
unfoldable pub stop_each : (ℕ → Option Error) → List ℕ → Result (Unit {0}) × List Call
stop_each stops [] = (ok tt, [])
stop_each stops (i ∷ is) = stopped_by i (stops i) (stop_each stops is)

-- The loop of `shutdown`.
unfoldable pub stop_all : (ℕ → Option Error) → List Value → List ℕ → Result (Unit {0}) × List Call
stop_all stops [] seen = (ok tt, [])
stop_all stops (plain s ∷ vs) seen = stop_all stops vs seen
stop_all stops (dependency i ∷ vs) seen =
    let skipped = stop_all stops vs seen in
    let continued = stop_all stops vs (i ∷ seen) in
    if is_seen i seen then skipped else stopped_by i (stops i) continued

-- What a call raises, the calls that it made, and the container after it.
abbrev pub Outcome : Type 0
Outcome = Result (Unit {0}) × List Call × Container

abbrev rolled_back : (ℕ → Option Error) → Container → Progress → Outcome
rolled_back stops c (ok done, calls, started) = (ok tt, calls, record c { started = true })
rolled_back stops c (err e, calls, started) =
    let (r, undone) = stop_each stops (reverse started) in
    (elim r [ ok done ↦ err e | err f ↦ err f ], calls ++ undone, c)

unfoldable pub startup : (ℕ → Option Error) → (ℕ → Option Error) → Container → Outcome
startup starts stops c =
    if c.started
    then (ok tt, [], c)
    else rolled_back stops c (start_all starts (values c.registry) [] [])

abbrev ended : Container → Result (Unit {0}) × List Call → Outcome
ended c (ok done, calls) = (ok tt, calls, record c { started = false })
ended c (err e, calls) = (err e, calls, c)

unfoldable pub shutdown : (ℕ → Option Error) → Container → Outcome
shutdown stops c =
    if c.started then ended c (stop_all stops (reverse (values c.registry)) []) else (ok tt, [], c)
