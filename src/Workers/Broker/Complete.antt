-- ===== src/Workers/Broker/Complete.antt =====
-- workers/broker.go: `Complete`, which stores the result of an attempt, merged into the one of its
-- predecessor. Parameters are Go's quoting of an identity in an error, and the last 65536 bytes of a
-- text as JSON keeps them.
use Prim.Native.String.{len, ◌++◌ as str_append}
use gauntlet.Core.Types.{
  CheckResult, CheckStatus, TestCase, is_nil, is_passed, is_failed, is_skipped, failed,
}
use gauntlet.TestReport.{
  merge_rerun, validate, failed_ids, ReportError, bad_count, too_large, bad_identity, bad_status,
  not_executed,
}
use gauntlet.Workers.Resources.{is_empty}
use gauntlet.Workers.Broker.{
  Broker, Row, Result, BrokerError, stale, error_on_wire, out_of_bounds, bad_verdict, untested,
  no_predecessor, undecodable, completed, is_completed, is_leased, find_job, update_where,
  held_under, notify,
}
use gauntlet.Prelude.{
  ltb, length, max, ◌+◌, ◌&&◌, ◌||◌, not, str_eq, if◌then◌else◌, ◌++◌, Bool, String, Option, ℕ,
  List, [], ◌∷◌, none, some, true, false,
}

abbrev pub bytes_of : Option (List ℕ) → ℕ
bytes_of none = 0
bytes_of (some l) = length l

unfoldable pub exceeds_bounds : Result → Bool
exceeds_bounds res =
    ltb 65536 (len res.check.output)
    || ltb 4096 (len res.error)
    || ltb 1048576 (bytes_of res.check.receipt)
    || ltb 4096 (len res.check.inputs_key)

-- What the scheduler knows of the attempt replaces what the worker says of it.
unfoldable pub stamp : Row → CheckResult → CheckResult
stamp r check = record check {
  name = r.job.name;
  command = r.job.command;
  executed_run = r.job.run_id;
  executed_sha = r.job.merge_sha;
  execution_id = r.id;
  worker = r.worker;
  verification_id = r.job.verification_id;
  reused = false;
}

abbrev pub is_verdict : CheckStatus → Bool
is_verdict s = is_passed s || is_failed s || is_skipped s

-- A passing result of a job that reports tests, whose tests are not all there and passing.
unfoldable pub lacks_tests : Row → Result → Bool
lacks_tests r res =
    not (str_eq r.job.test_results "")
    && str_eq res.error ""
    && is_passed res.check.status
    && (not (is_empty (failed_ids res.check.tests))
        || elim (validate res.check.tests) [ none ↦ false | some _ ↦ true ])

unfoldable pub not_skipped : List TestCase → List String
not_skipped [] = []
not_skipped (t ∷ ts) = if str_eq t.status "skipped" then not_skipped ts else t.id ∷ not_skipped ts

module _ (quote : String → String) (kept_tail : String → String) where
  unfoldable pub error_text : ReportError → String
  error_text bad_count = "test report must contain 1..10000 tests"
  error_text too_large = "test report is too large"
  error_text (bad_identity id) = str_append "invalid or duplicate test identity " (quote id)
  error_text (bad_status id) = str_append "test " (str_append (quote id) ": invalid status")
  error_text (not_executed id) = str_append "retry did not execute failed test " (quote id)

  unfoldable pub merge_tests : Row → CheckResult → String → CheckResult → CheckResult
  merge_tests r previous error check =
      let asked =
        if is_empty r.job.retry_tests then not_skipped previous.tests else r.job.retry_tests in
      if not (is_empty previous.tests) && str_eq error ""
      then (let (merged, refusal) = merge_rerun previous.tests check.tests asked in
          elim refusal [
            | none ↦ record check { tests = merged }
            | some e ↦ record check {
              tests = merged;
              status = failed;
              output = str_append check.output (str_append "\ngauntlet: " (error_text e));
            }
          ])
      else check

  unfoldable pub merge_parent : Row → CheckResult → String → CheckResult → CheckResult
  merge_parent r previous error check = merge_tests r previous error (record check {
    test_attempts = previous.test_attempts;
    duration = check.duration + previous.duration;
    output = str_append previous.output (str_append "\n--- worker retry ---\n" check.output);
    user_cpu = check.user_cpu + previous.user_cpu;
    sys_cpu = check.sys_cpu + previous.sys_cpu;
    peak_rss = max check.peak_rss previous.peak_rss;
    materialized = check.materialized + previous.materialized;
  })

  -- The attempt is appended to the result, and the output is cut.
  unfoldable pub finish : Row → Result → List TestCase → CheckResult → Result
  finish r res raw check = record res {
    check = record check {
      test_attempts =
          check.test_attempts
          ++ (record {
            log_digest = res.log_digest;
            execution_id = r.id;
            worker = r.worker;
            command = r.job.command;
            log_path =
                if str_eq res.attempt_log_path "" then check.log_path else res.attempt_log_path;
            number = length check.test_attempts + 1;
            tests = raw;
          }
              ∷ []);
      output = if ltb 65536 (len check.output) then kept_tail check.output else check.output;
    };
    attempt_log_path = "";
  }

  -- The result of the predecessor, if the job retries one.
  unfoldable pub with_parent :
      Broker → Row → Result → CheckResult → CheckResult × Option BrokerError
  with_parent b r res check =
      if str_eq r.parent "" then (check, none) else elim (find_job r.parent b.jobs) [
        | none ↦ (check, some no_predecessor)
        | some s ↦
            if is_completed s.state
            then elim s.result [
              | none ↦ (check, some undecodable)
              | some previous ↦ (merge_parent r previous.check res.error check, none)
            ]
            else (check, some no_predecessor)
      ]

  -- The update under the lease, once the result is made.
  unfoldable pub store_result : Broker → Row → Result → Broker
  store_result b r res = notify (record b {
    jobs =
        update_where (held_under r.id r.token)
          (λ s. record s { result = some res; state = completed }) b.jobs;
  })

  unfoldable pub judge : Broker → Row → Result → Broker × Option BrokerError
  judge b r res =
      let check = record (stamp r res.check) { test_attempts = [] } in
      if exceeds_bounds res
      then (b, some out_of_bounds)
      else if not (is_verdict res.check.status)
      then (b, some bad_verdict)
      else if lacks_tests r res
      then (b, some untested)
      else let (merged, refusal) = with_parent b r res check in
        elim refusal [
          | some e ↦ (b, some e)
          | none ↦ (store_result b r (finish r res res.check.tests merged), none)
        ]

  unfoldable pub complete : Broker → String → String → Result → Broker × Option BrokerError
  complete b id token res =
      if not (is_nil res.check.err) then (b, some error_on_wire) else elim (find_job id b.jobs) [
        | none ↦ (b, some stale)
        | some r ↦
            if str_eq token "" || not (str_eq token r.token)
            then (b, some stale)
            else if is_completed r.state
            then (b, none)
            else if not (is_leased r.state)
            then (b, some stale)
            else judge b r res
      ]
