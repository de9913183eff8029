-- ===== src/Deploy/Tests.antt =====
-- Runs of a two-node deploy graph: a migration, and a server that waits for it.
use gauntlet.Config.Checks.{Check, CheckSpec}
use gauntlet.Config.Checks.Graph.{visit as walk, visit_all, visit_deps}
use gauntlet.Deploy.Plan.{Plan, planned, deploy_graph, nodes_of, is_known}
use gauntlet.Deploy.Plan.Scheduled.{deploy_graph-never_ready}
use gauntlet.Config.Checks.Nodes.{
  check_deploy_names, check_deploys, check_edges, check_names, deploy_edges, deploy_names,
  edges_fault, validate_acyclic, validate_deploy_acyclic, validate_deploys,
}
use gauntlet.Config.Checks.Select.{chosen, node_named, pull, pull_each, select_deploy_nodes}
use gauntlet.Config.Checks.Parse.{
  answer, load_spec, parse_checks, reject_duplicate_singletons, repeated_singleton,
}
use gauntlet.Config.Checks.Validate.{
  check_check_names, check_checks, check_fault, check_images, check_receipts, check_services,
  image_names, needs_fault, service_names, validate,
}
use gauntlet.Deploy.Graph.Termination.{Feasible, loop_terminates}
use gauntlet.Deploy.Graph.Starts.{
  HasColour, IsFirstRed, Reachable-bounds, at_first, begins, Reachable-ready, ends,
  Reachable-culprit, Reachable,
}
use gauntlet.Deploy.Graph.Verdict.{run-Describes, run-AllGreen, AllGreen, Describes}
use gauntlet.Deploy.Graph.Accounts.{loop_drained}
use gauntlet.Deploy.Graph.Progress.{run-never_ready, Ranked}
use gauntlet.Core.Types.{node_green, CheckResult, blocked, zero_result, failed, passed, CheckStatus}
use gauntlet.Deploy.Graph.Results.{WellNamed}
use gauntlet.Prelude.{
  pos, Bool, insert, lookup, Distinct, ◌≤◌, length, ◌≢◌, arith, some_inj, ◌≡◌, map, contains, ◌<◌,
  str_eq, All, if◌then◌else◌, subst, String, Option, ℕ, zero, suc, List, [], ◌∷◌, none, some, true,
  false, refl, inl, inr,
}
use gauntlet.Deploy.Graph.{
  node_result, keep, dep_green, launch, visit, start_from, start_ready, store, cull, receive,
  receive_all, end_round, red_deps, materialize_from, materialize, conclude, initial, never_ready,
  loop, first_red, begin_round, ready, ran, run, Node, Scheduler, State, Round, Report,
}

abbrev migrate : Node
migrate = record { name = "migrate"; after = []; command = "up" ∷ []; executor = "" }

abbrev serve : Node
serve = record { name = "serve"; after = "migrate" ∷ []; command = "restart" ∷ []; executor = "" }

abbrev two_nodes : Scheduler
two_nodes = record { nodes = migrate ∷ serve ∷ []; max_parallel = 2 }

abbrev arrives : ℕ → CheckStatus → Round
arrives i status = record {
  ctx_at_start = false;
  arrivals =
      record {
        ctx_first = false;
        idx = i;
        outcome = ran 0 (record zero_result { status = status });
      }
      ∷ [];
  ctx_at_cull = false;
}

abbrev quiet : Round
quiet = record { ctx_at_start = false; arrivals = []; ctx_at_cull = false }

abbrev all_pass : List Round
all_pass = arrives 0 passed ∷ arrives 1 passed ∷ quiet ∷ []

abbrev serve_fails : List Round
serve_fails = arrives 0 passed ∷ arrives 1 failed ∷ quiet ∷ []

two_nodes-WellNamed : WellNamed two_nodes.nodes
two_nodes-WellNamed = record { unrepeated = (refl, (refl, tt)); named = (refl, (refl, tt)) }

abbrev rank : String → ℕ
rank s = if str_eq s "serve" then 1 else 0

two_nodes-Ranked : Ranked rank two_nodes.nodes
two_nodes-Ranked zero n at =
    subst
      (λ m.
        All (λ d. (rank d < rank m.name) × (contains (map (λ x. x.name) two_nodes.nodes) d ≡ true))
          m.after)
      (some_inj at) tt
two_nodes-Ranked (suc zero) n at =
    subst
      (λ m.
        All (λ d. (rank d < rank m.name) × (contains (map (λ x. x.name) two_nodes.nodes) d ≡ true))
          m.after)
      (some_inj at) ((omega arith, refl), tt)
two_nodes-Ranked (suc (suc i)) n at = cc

-- A definition that opens the whole of `Run`.
simulate : Scheduler → List Round → Bool → Option Report
unfolding run loop initial conclude materialize materialize_from red_deps begin_round end_round
    receive_all receive cull first_red store start_ready start_from visit launch ready dep_green
    keep node_result node_green lookup insert
simulate sch rs c = run sch rs c

abbrev passed_row : String → ℕ → CheckResult
passed_row name seq = record zero_result { name = name; seq = seq; status = passed }

abbrev green_report : Report
green_report = record {
  rows = passed_row "migrate" 1 ∷ passed_row "serve" 2 ∷ [];
  culprit = "";
  err = none;
}

green_run : run two_nodes all_pass false ≡ some green_report
unfolding simulate
green_run = refl

-- The server fails: it is the culprit. When the migration fails, the server is blocked by it.
abbrev red_report : Report
red_report = record {
  rows = passed_row "migrate" 1 ∷ record zero_result { name = "serve"; seq = 2 } ∷ [];
  culprit = "serve";
  err = none;
}

red_run : run two_nodes serve_fails false ≡ some red_report
unfolding simulate
red_run = refl

abbrev blocked_report : Report
blocked_report = record {
  rows =
      record zero_result { name = "migrate"; seq = 1 }
      ∷ record zero_result {
        name = "serve";
        seq = 2;
        status = blocked;
        blocked_by = "migrate" ∷ [];
      }
      ∷ [];
  culprit = "migrate";
  err = none;
}

blocked_run : run two_nodes (arrives 0 failed ∷ quiet ∷ []) false ≡ some blocked_report
unfolding simulate
blocked_run = refl

run-AllGreen_example : AllGreen green_report.rows
run-AllGreen_example =
    run-AllGreen two_nodes all_pass false green_report two_nodes-WellNamed green_run refl refl

run-Describes_example : Describes 0 two_nodes.nodes blocked_report.rows
run-Describes_example =
    run-Describes two_nodes (arrives 0 failed ∷ quiet ∷ []) false blocked_report two_nodes-WellNamed
      blocked_run refl

run-never_ready_example : green_report.err ≢ some (never_ready 1 2)
run-never_ready_example =
    run-never_ready two_nodes all_pass false rank 1 2 two_nodes-WellNamed two_nodes-Ranked green_run

-- The state after the first round's starts, after its end, and where the loop breaks.
launched : State
unfolding simulate
launched = begin_round two_nodes (arrives 0 passed) (initial two_nodes.nodes)

abbrev after_first : State
after_first = record {
  results = ("migrate", record zero_result { name = "migrate"; status = passed }) ∷ [];
  started = true ∷ false ∷ [];
  inflight = 0;
  culprit = "";
  ctx_done = false;
  stopped = false;
  running = [];
  starts = 0 ∷ [];
  finishes = 0 ∷ [];
}

after_first-Reachable : Reachable two_nodes after_first
unfolding simulate
after_first-Reachable = ends (arrives 0 passed) (begins (arrives 0 passed) at_first) refl

Reachable-bounds_example :
    let s = begin_round two_nodes (arrives 1 failed) after_first in
    (s.inflight ≡ length s.running) × (s.inflight ≤ 2) × Distinct s.starts
Reachable-bounds_example =
    Reachable-bounds two_nodes (begins (arrives 1 failed) after_first-Reachable)

Reachable-ready_example :
    All
      (HasColour (begin_round two_nodes (arrives 1 failed) after_first).results true)
      ("migrate" ∷ [])
Reachable-ready_example =
    Reachable-ready two_nodes 1 serve two_nodes-WellNamed
      (begins (arrives 1 failed) after_first-Reachable) refl (unfold simulate in refl)

abbrev serve_red : State
serve_red = record {
  results =
      ("migrate", record zero_result { name = "migrate"; status = passed })
      ∷ ("serve", record zero_result { name = "serve"; status = failed })
      ∷ [];
  started = true ∷ true ∷ [];
  inflight = 0;
  culprit = "serve";
  ctx_done = false;
  stopped = true;
  running = [];
  starts = 1 ∷ 0 ∷ [];
  finishes = 1 ∷ 0 ∷ [];
}

serve_red-Reachable : Reachable two_nodes serve_red
unfolding simulate
serve_red-Reachable = ends (arrives 1 failed) (begins (arrives 1 failed) after_first-Reachable) refl

Reachable-culprit_example : IsFirstRed two_nodes.nodes serve_red.results "serve"
Reachable-culprit_example =
    Reachable-culprit two_nodes two_nodes-WellNamed serve_red-Reachable (λ e. cc)

serve_red-loop : loop two_nodes serve_fails (initial two_nodes.nodes) ≡ some serve_red
unfolding simulate
serve_red-loop = refl

loop_drained_example : serve_red.running ≡ []
loop_drained_example = loop_drained two_nodes serve_fails serve_red serve_red-loop

serve_fails-Feasible : Feasible two_nodes serve_fails (initial two_nodes.nodes)
unfolding simulate
serve_fails-Feasible = inr (after_first, refl, inr (serve_red, refl, inl refl))

loop_terminates_example :
    (t : State) × (loop two_nodes serve_fails (initial two_nodes.nodes) ≡ some t)
loop_terminates_example = loop_terminates two_nodes serve_fails (omega arith) serve_fails-Feasible

-- A revision whose spec declares the two nodes.
abbrev lint : Check
lint = record {
  test_results = "";
  retry_command = none;
  inputs = none;
  name = "lint";
  command = "lint" ∷ [];
  needs = [];
  after = [];
  executor = "";
  image = "";
}

abbrev two_node_spec : CheckSpec
two_node_spec = record {
  checks = lint ∷ [];
  services = [];
  images = [];
  receipts = [];
  max_parallel = pos 0;
  deploys =
      record { name = "migrate"; command = "up" ∷ []; after = []; executor = "" }
      ∷ record { name = "serve"; command = "restart" ∷ []; after = "migrate" ∷ []; executor = "" }
      ∷ [];
  workspace = "";
}

make_plan : List String → String → Plan
unfolding deploy_graph parse_checks reject_duplicate_singletons repeated_singleton load_spec
    validate nodes_of is_known select_deploy_nodes chosen pull pull_each node_named validate_deploys
    check_deploy_names check_deploys edges_fault deploy_names validate_deploy_acyclic deploy_edges
    visit_all walk visit_deps lookup insert check_services check_images check_check_names
    check_checks check_fault needs_fault check_receipts validate_acyclic check_edges service_names
    image_names check_names
make_plan names sha =
    deploy_graph answer (parse_checks (λ s. s) (λ text. answer []) (λ text. answer two_node_spec))
      none names sha

two_nodes_planned :
    deploy_graph answer
      (parse_checks (λ s. s) (λ text. answer []) (λ text. answer two_node_spec))
      none
      ("serve" ∷ [])
      "abc"
    ≡ planned two_nodes.nodes
unfolding make_plan
two_nodes_planned = refl

deploy_graph-never_ready_example : green_report.err ≢ some (never_ready 1 2)
deploy_graph-never_ready_example =
    deploy_graph-never_ready (λ s. s) (λ text. answer []) (λ text. answer two_node_spec) answer none
      ("serve" ∷ []) "abc" two_nodes all_pass false 1 2 two_nodes_planned green_run
