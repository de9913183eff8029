-- ===== src/Queue/CheckRun/Advance.antt =====
-- queue/checkrun.go: steps (2) to (4) of `advanceChecks`, and the whole of it.
use Prim.Native.String.{◌++◌ as str_append}
use gauntlet.Core.Types.{CheckResult, is_nil}
use gauntlet.Config.Checks.{Check, is_none}
use gauntlet.Prelude.{
  ℕ, suc, ◌+◌, ◌-◌, Bool, String, Option, List, [], ◌∷◌, none, some, true, false, not, ◌||◌, ◌&&◌,
  str_eq, ◌==◌, length, Map, lookup, has, insert, erase, if◌then◌else◌,
}
use text.Mathlib.Text.{starts_with}
use gauntlet.Queue.CheckRun.{
  Flight, Verdict, undecided, green, rejected, errored, started, verified, Run, run_green, Config,
}
use gauntlet.Queue.CheckRun.Results.{consume}
use gauntlet.Queue.CheckRun.Rows.{dep_green, materialize_checks}

-- Step (2): the first result in spec order that is not green.
unfoldable pub first_red : String → List Check → Map CheckResult → Option String
first_red emergency [] results = none
first_red emergency (c ∷ cs) results = elim (lookup c.name results) [
  | none ↦ first_red emergency cs results
  | some res ↦ if run_green emergency res then first_red emergency cs results else some c.name
]

unfoldable pub is_reusable : List Check → String → Bool
is_reusable [] name = false
is_reusable (c ∷ cs) name =
    (str_eq c.name name && elim c.inputs [ none ↦ false | some cmd ↦ not (is_none cmd) ])
    || is_reusable cs name

-- The time that the abandoned checks have run, in nanoseconds.
unfoldable pub abandon : List Check → ℕ → Map Flight → ℕ
abandon checks now [] = 0
abandon checks now ((name, inf) ∷ flights) =
    let rest = abandon checks now flights in
    if is_reusable checks name then rest else (now - inf.start) + rest

unfoldable pub cancel_run : ℕ → Run → Run
cancel_run now r = record r {
  abandoned = r.abandoned + abandon r.checks now r.inflight;
  inflight = [];
}

unfoldable pub cull : ℕ → Run → Run
cull now r =
    if str_eq r.culprit ""
    then elim (first_red r.emergency_reason r.checks r.results) [
      | none ↦ r
      | some name ↦ cancel_run now (record r { culprit = name })
    ]
    else r

abbrev pub verdict_of : Option CheckResult → Verdict
verdict_of none = rejected
verdict_of (some res) = if is_nil res.err then rejected else errored

-- The end of a run with a culprit.
unfoldable pub conclude_red : Run → Run
conclude_red r =
    if is_none r.inflight
    then record (materialize_checks r) { verdict = verdict_of (lookup r.culprit r.results) }
    else r

unfoldable pub all_green : String → Map CheckResult → List String → Bool
all_green emergency results [] = true
all_green emergency results (d ∷ ds) =
    dep_green emergency results d && all_green emergency results ds

-- The queue's side of `startCheck`.
unfoldable pub start_check : ℕ → Check → Run → Run
start_check now c r =
    let waited : ℕ = elim (lookup c.name r.ready_at) [ none ↦ 0 | some at ↦ now - at ] in
    record r {
      ready_at = erase c.name r.ready_at;
      inflight = insert c.name (record { start = now; waited = waited }) r.inflight;
      events = started c.name ∷ r.events;
    }

unfoldable pub is_ready : Check → Run → Bool
is_ready c r =
    not (has c.name r.results)
    && not (has c.name r.inflight)
    && all_green r.emergency_reason r.results c.after

abbrev pub stamp_ready : ℕ → String → Run → Run
stamp_ready now name r =
    if has name r.ready_at then r else record r { ready_at = insert name now r.ready_at }

-- Step (3): `capacity` is the run's own headroom, and `free` how many acquisitions of a slot succeed
-- before one is denied.
unfoldable pub start_checks : ℕ → ℕ → ℕ → List Check → Run → Run
start_checks now capacity free [] r = r
start_checks now ℕ.zero free (c ∷ cs) r = r
start_checks now (ℕ.suc capacity) ℕ.zero (c ∷ cs) r =
    let denied = start_checks now capacity 0 cs (stamp_ready now c.name r) in
    let later = start_checks now (suc capacity) 0 cs r in if is_ready c r then denied else later
start_checks now (ℕ.suc capacity) (ℕ.suc free) (c ∷ cs) r =
    let begun = start_checks now capacity free cs (start_check now c r) in
    let later = start_checks now (suc capacity) (suc free) cs r in
    if is_ready c r then begun else later

abbrev pub emit_verified : Bool → Run → Run
emit_verified true r = record r { verified_emitted = true; events = verified ∷ r.events }
emit_verified false r = r

-- Step (4).
unfoldable pub conclude_green : Config → Run → Run
conclude_green cfg r =
    let r' = record (materialize_checks r) { verdict = green } in
    if (length r.results == length r.checks) && is_none r.inflight
    then emit_verified (cfg.trial_refs && not r'.verified_emitted) r'
    else r

pub record Tick : Type 0 where
  pub now : ℕ
  pub sent : Map CheckResult
  pub free : ℕ

abbrev pub is_undecided : Verdict → Bool
is_undecided undecided = true
is_undecided _ = false

-- `advanceChecks`, from the test of the verdict on.
unfoldable pub advance_checks : Config → Tick → Run → Run
advance_checks cfg t r =
    let culled = cull t.now (consume cfg t.sent r.checks r) in
    let begun =
      start_checks t.now (culled.max_parallel - length culled.inflight) t.free culled.checks
        culled in
    if not (is_undecided r.verdict)
    then r
    else if str_eq culled.culprit ""
    then conclude_green cfg begun
    else conclude_red culled

-- What the executions of a remote graph are kept with: the profiles that run remotely, and the
-- answer of `KeepExecutions`, an error or none. Either may be nil.
pub record Remote : Type 0 where
  pub profiles : Option (String → Bool)
  pub keep : Option (Option String)

unfoldable pub is_remote_graph : Option (String → Bool) → List Check → Bool
is_remote_graph none cs = false
is_remote_graph (some profiles) [] = false
is_remote_graph (some profiles) (c ∷ cs) = profiles c.executor || is_remote_graph (some profiles) cs

abbrev pub clear_recovery : String → String
clear_recovery last_error = if starts_with last_error "worker recovery: " then "" else last_error

-- `advanceChecks`, with the daemon's `LastError`.
unfoldable pub advance_run : Config → Remote → Tick → String → Run → String × Run
advance_run cfg remote t last_error r =
    if is_remote_graph remote.profiles r.checks
    then elim remote.keep [
      | none ↦ (last_error, advance_checks cfg t r)
      | some none ↦ (clear_recovery last_error, advance_checks cfg t r)
      | some (some e) ↦ (str_append "worker recovery: " e, r)
    ]
    else (last_error, advance_checks cfg t r)
