-- ===== src/Workers/Tests.antt =====
-- A broker with one urgent and two ordinary jobs, and a worker that keeps a slot for urgent work.
use gauntlet.Workers.Broker.Upkeep.{kept_peers, ids_where, maintain}
use gauntlet.Core.Job.{Candidate}
use gauntlet.Workers.Resources.{
  Resources, CheckJob, Worker, accepts, all_labels, fits, subtract, reserved_share,
}
use gauntlet.Workers.Resources.Share.{reserved_share_ceil, reserved_share_int64_exact}
use gauntlet.Workers.Resources.Int64.{reserved_share_int64}
use gauntlet.Workers.Broker.{
  update_where, delete_where, cancel, leased, Result, Row, Broker, pending,
}
use gauntlet.Workers.Broker.Claim.{
  claim, pick, query, claimable, insert_row, comes_first, first_admitted, admits, starves_urgent,
  available, free_of, valid_worker, is_taken, is_draining, find_peer, grant, given,
}
use gauntlet.Workers.Broker.Order.{pick_best}
use gauntlet.Workers.Broker.Capacity.{
  ValidTable, NonNegative, claim_within_capacity, claim_keeps_reserve,
}
use gauntlet.Core.Types.{zero_result, passed}
use gauntlet.Workers.Broker.{stale, completed, find_job, count_where}
use gauntlet.Workers.Broker.Wait.{wait_round, answered}
use gauntlet.Workers.Broker.Complete.{complete, judge, with_parent, exceeds_bounds, lacks_tests}
use gauntlet.Workers.Broker.{update_where, delete_where, cancel, forget_completed}
use gauntlet.Workers.Broker.Upkeep.{maintain, ids_where, kept_peers}
use gauntlet.Workers.Broker.Wait.{enter_wait, leave_wait}
use gauntlet.Workers.Broker.History.{
  perform, act, Operation, enters, leaves, forgets, maintains, closes, claims, cancels, completes,
  renews, submits, history, ValidBroker,
}
use gauntlet.Workers.Broker.Answers.{history-ValidBroker, history-wait_round}
use gauntlet.Workers.Broker.Fencing.{complete_after_claim, complete-wait_round, IsOf}
use gauntlet.Prelude.{
  true, In, lookup, insert, erase, erase, insert, lookup, List, min_ℤ, ◌-ℤ◌, ◌+◌, ◌^◌, ◌<◌, ◌≤◌,
  ◌*◌, ◌≡◌, pos, arith, ◌≤ℤ◌, String, ℕ, [], ◌∷◌, none, some, false, refl, inl,
}

reserved_share_ceil_example :
    (10 * 2 ≤ 3 * reserved_share 10 3 2) × (3 * reserved_share 10 3 2 < 10 * 2 + 3)
reserved_share_ceil_example = reserved_share_ceil 10 3 2 (omega arith)

reserved_share_int64_exact_example :
    (reserved_share_int64 9000000000000000000 3 2 ≡ reserved_share 9000000000000000000 3 2)
    × (reserved_share_int64 9000000000000000000 3 2 < 2 ^ 63)
reserved_share_int64_exact_example =
    reserved_share_int64_exact 9000000000000000000 3 2 (omega arith) (omega arith) (omega arith)
      (omega arith)

abbrev of_size : ℕ → Resources
of_size n = record { slots = pos n; cpu = pos (1000 * n); memory = pos n }

abbrev worker : Worker
worker = record {
  image_profiles = [];
  service_profiles = [];
  id = "w";
  session = "s";
  profiles = "exec" ∷ [];
  labels = [];
  capacity = of_size 3;
  usage = of_size 0;
  urgent_reserve = pos 1;
  draining = false;
}

abbrev no_candidate : Candidate
no_candidate = record {
  admission_blocked = "";
  skip_checks = false;
  override_pause = false;
  requester = "";
  request_reason = "";
  emergency_id = "";
  request_id = "";
  requested_count = 0;
  ref = "";
  target = "";
  user = "";
  topic = "";
  sha = "";
  source = "";
  source_base = "";
  message = "";
  review_url = "";
  version = "";
  depends_on = "";
  urgent = false;
  priority = "";
  preempt = false;
}

abbrev job : CheckJob
job = record {
  record_logs = false;
  history_mtimes = false;
  service_specs = [];
  service_needs = [];
  priority = "";
  previous_execution = "";
  test_results = "";
  retry_command = [];
  retry_tests = [];
  verification_id = "v";
  inputs_capture = false;
  git_dir = "";
  candidates = [];
  run_id = "r";
  target = "";
  name = "test";
  command = "make" ∷ [];
  executor = "exec";
  operator_owned = false;
  image_build = false;
  image = "";
  receipt_capture = false;
  receipt_max_bytes = 0;
  deploy_env = "";
  deploy_node = "";
  deployed_sha = "";
  dir = "";
  log_path = "";
  base_sha = "";
  merge_sha = "sha";
  candidate = no_candidate;
  clean = false;
  service_env = [];
  networks = [];
}

abbrev row : String → ℕ → Row
row id priority = record {
  id = id;
  job = job;
  needs = record { labels = []; resources = of_size 1 };
  priority = priority;
  created = 5;
  wanted = 5;
  state = pending;
  root = "root";
  parent = "";
  owner_epoch = "e";
  worker = "";
  session = "";
  token = "";
  lease_until = 0;
  result = none;
}

abbrev broker : Broker
broker = record {
  epoch = "e";
  born = 0;
  lease = 3000000;
  grace = 0;
  jobs = row "low" 1 ∷ row "high" 2 ∷ [];
  peers = [];
  waiters = [];
  changed = 0;
  closed = false;
}

broker-ValidTable : ValidTable broker.jobs
broker-ValidTable = record {
  keyed = (refl, (refl, tt));
  sized = ((omega arith, omega arith, omega arith), ((omega arith, omega arith, omega arith), tt));
}

picked : pick broker 9000000 worker ≡ some (row "high" 2)
unfolding pick query claimable insert_row comes_first first_admitted admits starves_urgent available
    free_of fits subtract accepts all_labels reserved_share min_ℤ ◌-ℤ◌
picked = refl

pick_best_example :
    In (row "high" 2) broker.jobs
    × (claimable broker 9000000 worker (row "high" 2) ≡ true)
    × (admits worker (available worker broker.jobs) (row "high" 2) ≡ true)
    × (1 ≤ 2)
unfolding min_ℤ ◌-ℤ◌
pick_best_example =
    pick_best broker 9000000 worker (row "high" 2) (row "low" 1) picked (inl refl)
      (unfold claimable in refl)
      (unfold admits starves_urgent available free_of fits subtract accepts all_labels
          reserved_share in
        refl)

claim_keeps_reserve_example :
    let free =
      free_of worker.capacity "w" "s" (grant broker 9000000 worker "t" (row "high" 2)).0.jobs in
    (worker.urgent_reserve ≤ℤ free.slots)
    × (pos (reserved_share 3000 3 1) ≤ℤ free.cpu)
    × (pos (reserved_share 3 3 1) ≤ℤ free.memory)
claim_keeps_reserve_example =
    claim_keeps_reserve broker 9000000 worker "t" (row "high" 2) broker-ValidTable picked
      (omega arith)

claimed : claim broker 9000000 worker "t" ≡ (
  (grant broker 9000000 worker "t" (row "high" 2)).0,
  given (record {
    id = "high";
    token = "t";
    worker = "w";
    lease_until = 12000000;
    lease_millis = 3;
    job = job;
    requirements = record { labels = []; resources = of_size 1 };
  }),
)
unfolding claim valid_worker is_taken is_draining find_peer
claimed = rw picked refl

claim_within_capacity_example :
    NonNegative
      (free_of worker.capacity "w" "s" (grant broker 9000000 worker "t" (row "high" 2)).0.jobs)
claim_within_capacity_example =
    claim_within_capacity broker 9000000 worker "t"
      (grant broker 9000000 worker "t" (row "high" 2)).0 _ broker-ValidTable claimed

abbrev key : String → String → List String → List String → String
key root parent command tests = root

abbrev same : String → String
same s = s

abbrev passing : Result
passing = record {
  attempt_log_path = "";
  check = record zero_result { status = passed };
  error = "";
  log_digest = "";
}

abbrev leased_row : Row
leased_row = record (row "high" 2) {
  state = leased;
  token = "t";
  worker = "w";
  session = "s";
  lease_until = 12;
}

abbrev leased_broker : Broker
leased_broker = record broker { jobs = leased_row ∷ row "low" 1 ∷ [] }

abbrev answered_broker : Broker
answered_broker = record broker {
  jobs = record leased_row { state = completed; result = some passing } ∷ row "low" 1 ∷ [];
}

answered_broker-ValidBroker : ValidBroker answered_broker
unfolding count_where
answered_broker-ValidBroker = record { keyed = (refl, (refl, tt)); bounded = omega arith }

-- Nothing is deleted while someone waits for the answered job.
abbrev some_day : List Operation
some_day =
    enters "high"
    ∷ cancels "high"
    ∷ forgets "high"
    ∷ maintains 9000000000000 1000000 1000000
    ∷ leaves "high"
    ∷ forgets "low"
    ∷ claims 9000000 worker "u"
    ∷ completes "high" "t" passing
    ∷ renews 9000000 "high" "t"
    ∷ submits 9000000 "root" job (record { labels = []; resources = of_size 1 }) 2
    ∷ []

-- The day ends with the deletion of the answered job and with the shutdown.
history-ValidBroker_example :
    ValidBroker (history key same same (forgets "high" ∷ closes ∷ some_day) answered_broker)
history-ValidBroker_example =
    history-ValidBroker key same same (forgets "high" ∷ closes ∷ some_day) answered_broker
      answered_broker-ValidBroker

history-wait_round_example :
    wait_round (history key same same some_day answered_broker) "high" ≡ answered passing
unfolding lookup wait_round find_job insert erase perform act cancel enter_wait leave_wait maintain
    ids_where kept_peers count_where delete_where update_where forget_completed
history-wait_round_example =
    history-wait_round key same same some_day answered_broker "high" passing
      answered_broker-ValidBroker refl refl

complete_after_claim_example :
    complete same same (grant broker 9000000 worker "t" (row "high" 2)).0 "high" "old" passing
    ≡ ((grant broker 9000000 worker "t" (row "high" 2)).0, some stale)
complete_after_claim_example =
    complete_after_claim same same broker 9000000 worker "t" "old" _ _ passing
      broker-ValidTable.keyed claimed (λ e. cc e) refl

accepted :
    complete same same leased_broker "high" "t" passing
    ≡ ((complete same same leased_broker "high" "t" passing).0, none)
unfolding complete judge with_parent find_job exceeds_bounds lacks_tests
accepted = refl

complete-wait_round_example :
    (stored : Result) × (wait_round (complete same same leased_broker "high" "t" passing).0 "high"
      ≡ answered stored)
    × IsOf leased_row stored.check
complete-wait_round_example =
    complete-wait_round same same leased_broker "high" "t" passing _ leased_row accepted
      (unfold find_job in refl) refl refl
