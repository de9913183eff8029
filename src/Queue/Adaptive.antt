-- ===== src/Queue/Adaptive.antt =====
-- internal/queue/adaptive.go: the governor of a target's concurrency. A cost is a whole number of
-- nanoseconds, where the source adds seconds as floating-point numbers; `at` and the snapshot for
-- the dashboard are left out. A run and a target are what the feedback reads of them.
pub mod Limits
pub mod Ledger
pub mod Feedback
use Prim.Native.String.{◌++◌ as str_append}
use gauntlet.Core.Types.{CheckResult, is_skipped}
use gauntlet.Core.Slots.{Slots, saturated}
use gauntlet.Queue.Circuit.{RunOutcome, landed, rejected, conflict, skipped, errored}
use gauntlet.Prelude.{
  lookup, insert, length, drop, contains, ltb, leb, min, max, str_eq, not, ◌&&◌, ◌||◌, ◌==◌, ◌++◌,
  ◌+◌, ◌-◌, ◌/◌, if◌then◌else◌, Map, Bool, String, Option, ℕ, List, [], ◌∷◌, none, some, true,
  false,
}

pub record Adaptive : Type 0 where
  pub start : ℕ
  pub successes : ℕ

pub record Target : Type 0 where
  pub name : String
  pub mode : String
  pub max_batch : ℕ
  pub window : ℕ
  pub adaptive : Option Adaptive

pub record Governor : Type 0 where
  pub limit : ℕ
  pub clean : ℕ
  pub landed_count : ℕ
  pub retried : ℕ
  pub failed : ℕ
  pub invalidated : ℕ
  pub useful : ℕ
  pub wasted : ℕ
  pub reason : String
  pub recent : List String

abbrev pub no_governor : Governor
no_governor = record {
  limit = 0;
  clean = 0;
  landed_count = 0;
  retried = 0;
  failed = 0;
  invalidated = 0;
  useful = 0;
  wasted = 0;
  reason = "";
  recent = [];
}

unfoldable pub scheduling_ceiling : Target → ℕ
scheduling_ceiling t = if str_eq t.mode "batch" then max 1 t.max_batch else max 1 t.window

-- `governor`, with the adaptive settings of the target.
unfoldable pub governor : Target → Adaptive → Map Governor → Governor
governor t a governors =
    let g : Governor = elim (lookup t.name governors) [ none ↦ no_governor | some g ↦ g ] in
    let g' : Governor =
      if g.limit == 0
      then record g { limit = max 1 a.start; reason = "starting conservatively" }
      else g in
    record g' { limit = min (scheduling_ceiling t) (max 1 g'.limit) }

-- `adaptiveLimit`: `pressure` is what the executors report.
unfoldable pub adaptive_limit : Target → Map Governor → Option Slots → Bool → ℕ
adaptive_limit t governors slots pressure = elim t.adaptive [
  | none ↦ scheduling_ceiling t
  | some a ↦
      let g = governor t a governors in
      if saturated slots || pressure then min g.limit (max 1 a.start) else g.limit
]

pub record Run : Type 0 where
  pub run_id : String
  pub members : ℕ
  pub results : List CheckResult
  pub abandoned : ℕ
  pub emergency_reason : String
  -- Its verdict is a rejection or an error of its checks.
  pub judged_red : Bool

unfoldable pub cost_of : CheckResult → ℕ
cost_of res =
    if ltb 0 (res.user_cpu + res.sys_cpu) then res.user_cpu + res.sys_cpu else res.duration

unfoldable pub spent_by : List CheckResult → ℕ
spent_by [] = 0
spent_by (res ∷ rs) = if res.reused then spent_by rs else cost_of res + spent_by rs

unfoldable pub wasted_by : List CheckResult → ℕ
wasted_by [] = 0
wasted_by (res ∷ rs) =
    if res.reused || not (str_eq res.verification_id "")
    then wasted_by rs
    else cost_of res + wasted_by rs

unfoldable pub has_executed : List CheckResult → Bool
has_executed [] = false
has_executed (res ∷ rs) = not res.reused && not (is_skipped res.status) || has_executed rs

unfoldable pub has_retried : List CheckResult → Bool
has_retried [] = false
has_retried (res ∷ rs) = not res.reused && ltb 1 (length res.test_attempts) || has_retried rs

-- The decimal text of the outcome's number.
abbrev pub outcome_text : RunOutcome → String
outcome_text landed = "0"
outcome_text rejected = "1"
outcome_text conflict = "2"
outcome_text skipped = "3"
outcome_text errored = "4"

-- Another outcome of the same run is another identity.
abbrev pub feedback_id : Run → RunOutcome → String
feedback_id r o = str_append r.run_id (str_append "/" (outcome_text o))

unfoldable pub after_landing : Target → Adaptive → Run → Governor → Governor
after_landing t a r g =
    let h = record g {
      landed_count = g.landed_count + r.members;
      useful = g.useful + spent_by r.results;
    } in
    if has_retried r.results
    then record h {
      retried = h.retried + 1;
      clean = 0;
      reason = "retry recovered; holding concurrency";
    }
    else if has_executed r.results
    then (if leb (max 1 a.successes) (h.clean + 1)
        then record h {
          limit = min (scheduling_ceiling t) (h.limit + 1);
          clean = 0;
          reason = "clean landings increased concurrency";
        }
        else record h { clean = h.clean + 1; reason = "clean landing" })
    else record h { reason = "reused evidence; holding concurrency" }

-- The switch over the outcome; `none` leaves the governor as it is stored.
unfoldable pub judge_outcome : Target → Adaptive → Run → Governor → RunOutcome → Option Governor
judge_outcome t a r g o =
    let wasted : ℕ = wasted_by r.results + r.abandoned in
    let red : Option Governor =
      if r.judged_red
      then some (record g {
        failed = g.failed + 1;
        wasted = g.wasted + wasted;
        clean = 0;
        limit = max 1 (g.limit / 2);
        reason = "failed validation reduced concurrency";
      })
      else none in
    elim o [
      | landed ↦ some (after_landing t a r g)
      | rejected ↦ red
      | errored ↦ red
      | skipped ↦
          if wasted == 0
          then none
          else some (record g {
            invalidated = g.invalidated + 1;
            wasted = g.wasted + wasted;
            clean = 0;
            limit = max 1 (g.limit / 2);
            reason = "invalidated work reduced concurrency";
          })
      | conflict ↦ none
    ]

-- The identities of the last 128 runs.
unfoldable pub remember : String → Governor → Governor
remember id g =
    let recent = g.recent ++ (id ∷ []) in
    record g {
      recent = if ltb 128 (length recent) then drop (length recent - 128) recent else recent;
    }

unfoldable pub governor_feedback : Target → Run → RunOutcome → Map Governor → Map Governor
governor_feedback t r o governors = elim t.adaptive [
  | none ↦ governors
  | some a ↦
      let g = governor t a governors in
      if not (str_eq r.emergency_reason "") || contains g.recent (feedback_id r o)
      then governors
      else elim (judge_outcome t a r g o) [
        | none ↦ governors
        | some g' ↦ insert t.name (remember (feedback_id r o) g') governors
      ]
]
