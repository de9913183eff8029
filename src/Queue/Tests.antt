-- ===== src/Queue/Tests.antt =====
-- Two revisions of a target fail on infrastructure and the circuit opens; two changes are moved.
use gauntlet.Queue.Circuit.{
  landed, RunOutcome, CircuitBreaker, is_valid, Circuit, circuit_of, circuit_blocked, Event,
  errored, is_recovery, is_failure, revision_of, fresh_failures, is_duplicate, record_failure,
  back_off, trip, observe_infrastructure,
}
use gauntlet.Queue.Circuit.Backoff.{SoundCircuit}
use gauntlet.Queue.Circuit.Reached.{
  Observed, at_start, passes, observes, Observed-SoundCircuit,
  circuit_blocked-observe_infrastructure,
}
use gauntlet.Queue.Scheduling.{position, position_from, keep_where, is_other, reorder}
use gauntlet.Queue.Scheduling.Moves.{beside, keep_where-reorder, reorder-beside}
use gauntlet.Core.Job.{Candidate}
use gauntlet.Queue.Priorities.{Controls, own_priority}
use gauntlet.Queue.Priorities.Ageing.{own_priority_monotone, own_priority_aged}
use gauntlet.Queue.Circuit.{rejected}
use gauntlet.Queue.Adaptive.{
  governor, Target, Run, Governor, no_governor, adaptive_limit, scheduling_ceiling,
  governor_feedback,
}
use gauntlet.Queue.Adaptive.Limits.{adaptive_limit-within}
use gauntlet.Queue.Adaptive.Feedback.{feedbacks, governor_feedback_once}
use gauntlet.Prelude.{
  false, ◌≤◌, List, ◌∷◌, contains, ◌++◌, lookup, insert, length, leb, ltb, ◌||◌, ◌≡◌, arith, Map,
  String, ℕ, [], none, some, true, refl,
}

abbrev breaker : CircuitBreaker
breaker = record { threshold = 2; window = 100; backoff = 10; max_backoff = 40 }

breaker_valid : is_valid breaker ≡ true
unfolding is_valid
breaker_valid = refl

abbrev fails : String → Event
fails sha = record {
  target = "main";
  ref = "refs/heads/for/main/a/b";
  sha = sha;
  run_id = "";
  check = none;
  ended = some (record { outcome = errored; checks = [] });
}

abbrev text : ℕ → ℕ → String
text n until = "failures"

abbrev after_one : Map Circuit
after_one = observe_infrastructure text (some breaker) 5 (fails "1") []

after_one-Observed : Observed text breaker 5 after_one
after_one-Observed = observes (fails "1") (passes 5 (omega arith) at_start)

Observed-SoundCircuit_example : SoundCircuit breaker 5 (circuit_of "main" after_one)
Observed-SoundCircuit_example =
    Observed-SoundCircuit text breaker "main" breaker_valid after_one-Observed

circuit_blocked-observe_infrastructure_example :
    circuit_blocked (observe_infrastructure text (some breaker) 5 (fails "2") after_one) 5 "main"
    ≡ (leb 2 (
          length
            (record_failure breaker 5
              (revision_of (fails "2"))
              (circuit_of "main" after_one)).failures)
        || ltb 0 (circuit_of "main" after_one).backoff)
unfolding record_failure is_failure insert trip is_duplicate fresh_failures
circuit_blocked-observe_infrastructure_example =
    circuit_blocked-observe_infrastructure text breaker (fails "2") breaker_valid after_one-Observed
      (λ e. cc e) (λ e. cc e) (unfold is_recovery observe_infrastructure lookup in refl)
      (unfold is_failure in refl)

-- The second revision opens it.
opens :
    circuit_blocked (observe_infrastructure text (some breaker) 5 (fails "2") after_one) 5 "main"
    ≡ true
unfolding circuit_blocked observe_infrastructure is_recovery is_failure trip back_off record_failure
    fresh_failures is_duplicate lookup insert
opens = refl

abbrev queued : List String
queued = "a" ∷ "b" ∷ "c" ∷ "d" ∷ []

abbrev moved : List String
moved = "d" ∷ "a" ∷ []

-- `a` and `d` move behind `b`.
moves : reorder queued moved "b" true ≡ "b" ∷ "a" ∷ "d" ∷ "c" ∷ []
unfolding reorder keep_where position position_from
moves = refl

keep_where-reorder_example :
    (keep_where (contains moved) (reorder queued moved "b" true)
      ≡ keep_where (contains moved) queued)
    × (keep_where (is_other moved) (reorder queued moved "b" true)
        ≡ keep_where (is_other moved) queued)
keep_where-reorder_example = keep_where-reorder queued moved "b" true

reorder-beside_example :
    (pre : List String) × (post : List String) × (keep_where (is_other moved) queued
      ≡ pre ++ ("b" ∷ post))
    × (reorder queued moved "b" true
        ≡ beside true pre "b" (keep_where (contains moved) queued) post)
reorder-beside_example = reorder-beside queued moved "b" true (λ e. cc e) refl refl

abbrev waiting : Candidate
waiting = record {
  admission_blocked = "";
  skip_checks = false;
  override_pause = false;
  requester = "";
  request_reason = "";
  emergency_id = "";
  request_id = "";
  requested_count = 0;
  ref = "r";
  target = "main";
  user = "";
  topic = "";
  sha = "1";
  source = "";
  source_base = "";
  message = "";
  review_url = "";
  version = "";
  depends_on = "";
  urgent = false;
  priority = "low";
  preempt = false;
}

abbrev controls : Controls
controls = record { priorities = []; enqueued = ("r", 1000) ∷ [] }

own_priority_monotone_example :
    own_priority controls waiting 2000 ≤ own_priority controls waiting 4000000000000
own_priority_monotone_example =
    own_priority_monotone controls waiting 2000 4000000000000 (omega arith)

own_priority_aged_example : 2 ≤ own_priority controls waiting 4000000000000
unfolding lookup
own_priority_aged_example =
    own_priority_aged controls waiting 4000000000000 (λ e. omega (arith, e)) (omega arith)

abbrev main_target : Target
main_target = record {
  name = "main";
  mode = "speculate";
  max_batch = 0;
  window = 4;
  adaptive = some (record { start = 2; successes = 1 });
}

abbrev red_run : Run
red_run = record {
  run_id = "r1";
  members = 1;
  results = [];
  abandoned = 0;
  emergency_reason = "";
  judged_red = true;
}

abbrev at_four : Governor
at_four = record no_governor { limit = 4; clean = 1 }

abbrev at_two : Governor
at_two = record no_governor {
  limit = 2;
  failed = 1;
  reason = "failed validation reduced concurrency";
}

adaptive_limit-within_example :
    (1 ≤ adaptive_limit main_target [] none true)
    × (adaptive_limit main_target [] none true ≤ scheduling_ceiling main_target)
adaptive_limit-within_example = adaptive_limit-within main_target [] none true

-- The same run lands, and another one is rejected, before its rejection comes again.
abbrev between : List (Target × Run × RunOutcome)
between =
    (main_target, red_run, landed) ∷ (main_target, record red_run { run_id = "r2" }, rejected) ∷ []

governor_feedback_once_example :
    governor_feedback main_target red_run rejected
      (feedbacks between (governor_feedback main_target red_run rejected []))
    ≡ feedbacks between (governor_feedback main_target red_run rejected [])
unfolding lookup
governor_feedback_once_example =
    governor_feedback_once main_target (record { start = 2; successes = 1 }) red_run rejected
      between [] refl (unfold governor in refl) (omega arith)
