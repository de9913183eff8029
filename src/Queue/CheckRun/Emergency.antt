-- ===== src/Queue/CheckRun/Emergency.antt =====
-- internal/queue/controls.go: the bypass of the checks by `prepareEmergency`, behind the match of the
-- command with the run's members.
use Prim.Native.String.{◌++◌ as str_append}
use gauntlet.Config.Checks.{Check}
use gauntlet.Core.Types.{CheckResult, zero_result, waived}
use gauntlet.Queue.CheckRun.{Run}
use gauntlet.Queue.CheckSpec.{image_node_name, receipt_node_name}
use gauntlet.Prelude.{
  ℕ, suc, ◌+◌, Bool, String, Option, List, [], ◌∷◌, none, some, true, false, ◌||◌, ◌&&◌, Map,
  insert, if◌then◌else◌,
}

abbrev pub is_some : Option String → Bool
is_some none = false
is_some (some s) = true

-- The receipt is not waived, nor are the images where receipts are published.
unfoldable pub is_kept : Bool → String → Bool
is_kept receipt_notes name =
    is_some (receipt_node_name name) || (is_some (image_node_name name) && receipt_notes)

abbrev pub waiver : String → ℕ → Check → CheckResult
waiver reason i c = record zero_result {
  name = c.name;
  seq = i + 1;
  command = c.command;
  status = waived;
  output = str_append "Operator bypass: " reason;
}

unfoldable pub waive_from : Bool → String → ℕ → List Check → Map CheckResult → Map CheckResult
waive_from receipt_notes reason i [] results = results
waive_from receipt_notes reason i (c ∷ cs) results =
    waive_from receipt_notes reason (suc i) cs
      (if is_kept receipt_notes c.name then results else insert c.name (waiver reason i c) results)

unfoldable pub bypass_checks : Bool → String → Run → Run
bypass_checks receipt_notes reason r = record r {
  emergency_reason = reason;
  results = waive_from receipt_notes reason 0 r.checks r.results;
}
