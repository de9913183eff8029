-- ===== src/Core/Types.antt =====
-- internal/core/types.go, tests.go and green.go: a check's result and the one rule by which the
-- run-graph schedulers call it green. A nil error is `none`; durations and sizes are numbers.
use gauntlet.Prelude.{ℕ, Bool, true, false, ◌&&◌, ◌||◌, String, List, [], Option, none, some}

pub data CheckStatus : Type 0 where
  failed passed skipped blocked waived : CheckStatus

pub record TestCase : Type 0 where
  pub id : String
  pub status : String
  pub message : String

pub record TestAttempt : Type 0 where
  pub log_digest : String
  pub execution_id : String
  pub worker : String
  pub command : List String
  pub log_path : String
  pub number : ℕ
  pub tests : List TestCase

pub record CheckResult : Type 0 where
  pub execution_id : String
  pub worker : String
  pub tests : List TestCase
  pub test_attempts : List TestAttempt
  pub inputs_key : String
  pub verification_id : String
  pub executed_run : String
  pub executed_sha : String
  pub reused : Bool
  pub suspected_refs : List String
  pub failure_kind : String
  pub name : String
  pub image : String
  pub receipt : Option (List ℕ)
  pub seq : ℕ
  pub command : List String
  pub status : CheckStatus
  pub output : String
  pub log_path : String
  pub duration : ℕ
  pub waited : ℕ
  pub materialized : ℕ
  pub peak_rss : ℕ
  pub user_cpu : ℕ
  pub sys_cpu : ℕ
  pub blocked_by : List String
  pub err : Option String

-- The zero value `core.CheckResult{}`.
abbrev pub zero_result : CheckResult
zero_result = record {
  execution_id = "";
  worker = "";
  tests = [];
  test_attempts = [];
  inputs_key = "";
  verification_id = "";
  executed_run = "";
  executed_sha = "";
  reused = false;
  suspected_refs = [];
  failure_kind = "";
  name = "";
  image = "";
  receipt = none;
  seq = 0;
  command = [];
  status = failed;
  output = "";
  log_path = "";
  duration = 0;
  waited = 0;
  materialized = 0;
  peak_rss = 0;
  user_cpu = 0;
  sys_cpu = 0;
  blocked_by = [];
  err = none;
}

abbrev pub is_nil : Option String → Bool
is_nil none = true
is_nil (some _) = false

abbrev pub is_passed : CheckStatus → Bool
is_passed passed = true
is_passed _ = false

abbrev pub is_skipped : CheckStatus → Bool
is_skipped skipped = true
is_skipped _ = false

abbrev pub is_failed : CheckStatus → Bool
is_failed failed = true
is_failed _ = false

abbrev pub is_waived : CheckStatus → Bool
is_waived waived = true
is_waived _ = false

unfoldable pub node_green : CheckResult → Bool
node_green res = is_nil res.err && (is_passed res.status || is_skipped res.status)
