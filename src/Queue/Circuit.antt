-- ===== src/Queue/Circuit.antt =====
-- internal/queue/circuit.go and internal/config/circuit.go: the circuit breaker of the targets.
-- Times and durations are nanoseconds, counted from the zero time. An event is handled at one time,
-- and the text of a reason, which formats a time, is a parameter.
pub mod Backoff
pub mod Reached
use Prim.Native.String.{◌++◌ as str_append}
use gauntlet.Core.Types.{CheckResult, is_nil}
use gauntlet.Prelude.{
  ltb, leb, max, min, length, lookup, insert, erase, str_eq, not, ◌+◌, ◌*◌, ◌==◌, ◌&&◌, ◌||◌, ◌++◌,
  if◌then◌else◌, Map, Bool, String, Option, ℕ, List, [], ◌∷◌, none, some, true, false,
}

pub data RunOutcome : Type 0 where
  landed rejected conflict skipped errored : RunOutcome

abbrev pub is_errored : RunOutcome → Bool
is_errored errored = true
is_errored _ = false

abbrev pub is_verdict : RunOutcome → Bool
is_verdict landed = true
is_verdict rejected = true
is_verdict _ = false

-- What the breaker reads of a `core.RunRecord` and of a `core.Event`.
pub record RunRecord : Type 0 where
  pub outcome : RunOutcome
  pub checks : List CheckResult

pub record Event : Type 0 where
  pub target : String
  pub ref : String
  pub sha : String
  pub run_id : String
  pub check : Option CheckResult
  pub ended : Option RunRecord

pub record CircuitBreaker : Type 0 where
  pub threshold : ℕ
  pub window : ℕ
  pub backoff : ℕ
  pub max_backoff : ℕ

-- The test of `validate`, on durations that are not negative.
unfoldable pub is_valid : CircuitBreaker → Bool
is_valid c = not (
    ltb c.threshold 2
    || ltb 100 c.threshold
    || c.window == 0
    || c.backoff == 0
    || ltb c.max_backoff c.backoff
    || ltb 3600000000000 c.max_backoff)

pub record InfrastructureFailure : Type 0 where
  pub revision : String
  pub at : ℕ

pub record Circuit : Type 0 where
  pub probe_run_id : String
  pub failures : List InfrastructureFailure
  pub until : ℕ
  pub backoff : ℕ
  pub reason : String

-- The zero value, which a missing key of the map reads as.
abbrev pub no_circuit : Circuit
no_circuit = record { probe_run_id = ""; failures = []; until = 0; backoff = 0; reason = "" }

abbrev pub circuit_of : String → Map Circuit → Circuit
circuit_of target circuits = elim (lookup target circuits) [ none ↦ no_circuit | some c ↦ c ]

unfoldable pub circuit_blocked : Map Circuit → ℕ → String → Bool
circuit_blocked circuits now target = ltb now (circuit_of target circuits).until

-- `failed`: the check's error decides if the event carries a check.
unfoldable pub is_failure : Event → Bool
is_failure ev = elim ev.check [
  | some check ↦ not (is_nil check.err)
  | none ↦ elim ev.ended [ none ↦ false | some rec ↦ is_errored rec.outcome ]
]

unfoldable pub all_healthy : List CheckResult → Bool
all_healthy [] = true
all_healthy (check ∷ checks) = is_nil check.err && all_healthy checks

-- The end of the probe with a verdict and no infrastructure error.
unfoldable pub is_recovery : Circuit → Event → Bool
is_recovery c ev = elim ev.ended [
  | none ↦ false
  | some rec ↦
      ltb 0 c.backoff
      && not (str_eq ev.run_id "")
      && str_eq ev.run_id c.probe_run_id
      && is_verdict rec.outcome
      && all_healthy rec.checks
]

abbrev pub revision_of : Event → String
revision_of ev = str_append ev.ref (str_append "@" ev.sha)

-- The loop over the failures, with the cutoff `now - window`.
unfoldable pub fresh_failures : ℕ → ℕ → List InfrastructureFailure → List InfrastructureFailure
fresh_failures window now [] = []
fresh_failures window now (f ∷ fs) =
    if ltb now (f.at + window)
    then f ∷ fresh_failures window now fs
    else fresh_failures window now fs

unfoldable pub is_duplicate : String → List InfrastructureFailure → Bool
is_duplicate revision [] = false
is_duplicate revision (f ∷ fs) = str_eq f.revision revision || is_duplicate revision fs

unfoldable pub record_failure : CircuitBreaker → ℕ → String → Circuit → Circuit
record_failure cfg now revision c =
    let fresh = fresh_failures cfg.window now c.failures in
    record c {
      failures =
          if is_duplicate revision fresh
          then fresh
          else fresh ++ (record { revision = revision; at = now } ∷ []);
    }

-- Several events of one failed probe do not compound the backoff.
unfoldable pub back_off : CircuitBreaker → ℕ → Circuit → Circuit
back_off cfg now c =
    if ltb now c.until
    then c
    else let backoff : ℕ = min cfg.max_backoff (max cfg.backoff (2 * c.backoff)) in
      record c { backoff = backoff; until = now + backoff }

module _ (reason_text : ℕ → ℕ → String) where
  unfoldable pub trip : CircuitBreaker → ℕ → Circuit → Circuit
  trip cfg now c =
      if leb cfg.threshold (length c.failures) || ltb 0 c.backoff
      then (let c' = back_off cfg now c in
          record c' { reason = reason_text (length c'.failures) c'.until })
      else c

  unfoldable pub observe_infrastructure :
      Option CircuitBreaker → ℕ → Event → Map Circuit → Map Circuit
  observe_infrastructure none now ev circuits = circuits
  observe_infrastructure (some cfg) now ev circuits =
      let c = circuit_of ev.target circuits in
      if str_eq ev.target "" || str_eq ev.ref ""
      then circuits
      else if is_recovery c ev
      then erase ev.target circuits
      else if not (is_failure ev)
      then circuits
      else insert ev.target (trip cfg now (record_failure cfg now (revision_of ev) c)) circuits

-- `markCircuitProbe`, for a run of a target with its identity and the start of its first member.
unfoldable pub mark_circuit_probe : String → String → ℕ → ℕ → Map Circuit → Map Circuit
mark_circuit_probe target run_id started now circuits =
    let c = circuit_of target circuits in
    if c.backoff == 0 || circuit_blocked circuits now target || str_eq c.probe_run_id run_id
    then circuits
    else if ltb started c.until
    then circuits
    else insert target (record c { probe_run_id = run_id }) circuits
