-- ===== src/Queue/CheckRun.antt =====
-- internal/queue/checkrun.go: one run of a candidate's checks, as the reconcile loop advances it. A
-- worker is the environment: a tick says which results lie in the channels. Spans, metrics and the
-- contexts of the workers are left out, and a tick reads one time.
pub mod Results
pub mod Rows
pub mod Advance
pub mod Emergency
pub mod Reached
pub mod Counts
pub mod Frames
pub mod Tracking
pub mod Kept
pub mod Green
pub mod Images
pub mod Settled
pub mod Referenced
pub mod Same
pub mod Idle
pub mod Progress
mod Tests
use Prim.Native.String.{◌++◌ as str_append}
use gauntlet.Core.Types.{
  CheckResult, CheckStatus, zero_result, passed, skipped, failed, blocked, waived, node_green,
  is_nil, is_passed, is_skipped, is_waived,
}
use gauntlet.Config.Checks.{Check, is_none}
use gauntlet.Queue.Captured.{
  RefResult, RefFault, valid, bad_ref, valid_image_ref, ReceiptResult, ReceiptFault, payload,
  bad_receipt, valid_receipt,
}
use gauntlet.Queue.CheckSpec.{image_node_name, receipt_node_name}
use gauntlet.Prelude.{
  ℕ, suc, ◌+◌, ◌-◌, max, leb, Bool, String, Option, List, [], ◌∷◌, ◌++◌, none, some, true, false,
  not, ◌||◌, ◌&&◌, str_eq, ◌==◌, contains, length, Map, lookup, has, insert, erase, if◌then◌else◌,
}

-- `checkInFlight`
pub record Flight : Type 0 where
  pub start : ℕ
  pub waited : ℕ

pub data Verdict : Type 0 where
  undecided green rejected errored : Verdict

pub data Event : Type 0 where
  started : String → Event
  finished : String → CheckResult → Event
  verified : Event

-- The fields of `run` that the checks are advanced by. `records` are the rows of every member, and
-- `events` what was emitted, the last one first.
pub record Run : Type 0 where
  pub checks : List Check
  pub max_parallel : ℕ
  pub emergency_reason : String
  pub inflight : Map Flight
  pub results : Map CheckResult
  pub ready_at : Map ℕ
  pub culprit : String
  pub image_refs : Map String
  pub receipt_payload : Option (List ℕ)
  pub receipt_producer : String
  pub materialized : Bool
  pub records : List CheckResult
  pub verdict : Verdict
  pub verified_emitted : Bool
  pub abandoned : ℕ
  pub events : List Event

-- `run.nodeGreen`
unfoldable pub run_green : String → CheckResult → Bool
run_green emergency res =
    node_green res || (not (str_eq emergency "") && is_nil res.err && is_waived res.status)

-- What the daemon is configured with, and Go's texts of the errors.
pub record Config : Type 0 where
  pub max_bytes : ℕ
  pub trial_refs : Bool
  pub ref_error : RefFault → String
  pub receipt_error : ReceiptFault → String
