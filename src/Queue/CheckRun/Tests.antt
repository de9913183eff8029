-- ===== src/Queue/CheckRun/Tests.antt =====
-- A run of two nodes, in three ticks: an image build, and a check that runs in the image.
use gauntlet.Config.Checks.{Check}
use gauntlet.Core.Types.{CheckResult, zero_result, passed, node_green}
use gauntlet.Deploy.Graph.{materialize}
use gauntlet.Queue.Captured.{
  is_immutable, valid_image_ref, trim_space, trim_left, trim_right, has_blank, all_hex, is_digest,
  is_local_image_id, is_digest_ref,
}
use gauntlet.Queue.CheckRun.{Run, Config, undecided, green, run_green}
use gauntlet.Queue.CheckRun.Advance.{
  Tick, advance_checks, abandon, all_green, cancel_run, conclude_green, conclude_red, cull,
  first_red, is_ready, is_reusable, start_check, start_checks,
}
use gauntlet.Queue.CheckRun.Green.{AllGreen, advance_checks-green}
use gauntlet.Queue.CheckRun.Idle.{Ranked}
use gauntlet.Queue.CheckRun.Progress.{advance_checks-progress}
use gauntlet.Queue.CheckRun.Reached.{IsNew, Reached, built, ticked}
use gauntlet.Queue.CheckRun.Referenced.{Reached-Referenced}
use gauntlet.Queue.CheckRun.Results.{consume, consume_one, settle, settle_image, take_result}
use gauntlet.Queue.CheckRun.Rows.{dep_green, materialize_checks, red_deps, rows_from}
use gauntlet.Queue.CheckRun.Same.{as_node, materialize_checks-materialize}
use gauntlet.Queue.CheckSpec.{cut_prefix, image_node_name, receipt_node_name}
use gauntlet.TestReport.{is_space}
use gauntlet.Config.Checks.Patterns.{codes}
use gauntlet.Prelude.{
  ℕ, if◌then◌else◌, str_eq, ◌<◌, ◌≢◌, arith, erase, insert, lookup, String, [], ◌∷◌, none, some,
  true, false, refl, ◌≡◌, map,
}

abbrev build : Check
build = record {
  test_results = "";
  retry_command = none;
  inputs = none;
  name = "image:app";
  command = "build" ∷ [];
  needs = [];
  after = [];
  executor = "";
  image = "";
}

abbrev unit : Check
unit = record {
  test_results = "";
  retry_command = none;
  inputs = none;
  name = "unit";
  command = "test" ∷ [];
  needs = [];
  after = "image:app" ∷ [];
  executor = "";
  image = "app";
}

abbrev new_run : Run
new_run = record {
  checks = build ∷ unit ∷ [];
  max_parallel = 2;
  emergency_reason = "";
  inflight = [];
  results = [];
  ready_at = [];
  culprit = "";
  image_refs = [];
  receipt_payload = none;
  receipt_producer = "";
  materialized = false;
  records = [];
  verdict = undecided;
  verified_emitted = false;
  abandoned = 0;
  events = [];
}

new_run-IsNew : IsNew new_run
new_run-IsNew = record {
  unrepeated = (refl, (refl, tt));
  named = (refl, (refl, tt));
  idle = refl;
  empty = refl;
  unmaterialized = refl;
}

abbrev plain : Config
plain = record {
  max_bytes = 0;
  trial_refs = true;
  ref_error = λ e. "bad reference";
  receipt_error = λ e. "bad receipt";
}

abbrev app_id : String
app_id = "sha256:0123456789abcdef0123456789abcdef0123456789abcdef0123456789abcdef"

abbrev first_tick : Tick
first_tick = record { now = 1; sent = []; free = 4 }

abbrev build_done : Tick
build_done = record {
  now = 2;
  sent =
      ("image:app", record zero_result { name = "image:app"; status = passed; image = app_id })
      ∷ [];
  free = 4;
}

abbrev tag_built : Tick
tag_built = record {
  now = 2;
  sent =
      (
        "image:app",
        record zero_result { name = "image:app"; status = passed; image = "app:latest" },
      )
      ∷ [];
  free = 4;
}

abbrev unit_done : Tick
unit_done = record {
  now = 3;
  sent = ("unit", record zero_result { name = "unit"; status = passed }) ∷ [];
  free = 4;
}

abbrev started_build : Run
started_build = advance_checks plain first_tick new_run

abbrev started_unit : Run
started_unit = advance_checks plain build_done started_build

-- A definition that opens the whole of a tick.
simulate : Tick → Run → Run
unfolding advance_checks consume consume_one take_result settle settle_image image_node_name
    receipt_node_name cut_prefix valid_image_ref is_immutable is_local_image_id is_digest
    is_digest_ref all_hex codes trim_space trim_left trim_right is_space has_blank cull first_red
    cancel_run abandon is_reusable start_checks start_check is_ready all_green dep_green run_green
    node_green conclude_green conclude_red materialize_checks rows_from red_deps lookup insert erase
simulate t r = advance_checks plain t r

turned_green : (advance_checks plain unit_done started_unit).verdict ≡ green
unfolding simulate
turned_green = refl

not_yet : started_unit.verdict ≡ undecided
unfolding simulate
not_yet = refl

-- A tag is no reference: the build is the culprit.
tag_refused : (advance_checks plain tag_built started_build).culprit ≡ "image:app"
unfolding simulate
tag_refused = refl

started_unit-Reached : Reached plain false started_unit
started_unit-Reached =
    ticked started_build build_done (ticked new_run first_tick (built new_run new_run-IsNew))

advance_checks-green_example :
    AllGreen started_unit (advance_checks plain unit_done started_unit).results
    × ((advance_checks plain unit_done started_unit).inflight ≡ [])
advance_checks-green_example =
    advance_checks-green plain false unit_done started_unit started_unit-Reached not_yet
      turned_green

abbrev build_row : CheckResult
build_row = record zero_result { name = "image:app"; status = passed; image = app_id }

build_row_stored : lookup "image:app" started_unit.results ≡ some build_row
unfolding simulate
build_row_stored = refl

app_node : image_node_name "image:app" ≡ some "app"
unfolding simulate
app_node = refl

build_row_green : node_green build_row ≡ true
unfolding simulate
build_row_green = refl

Reached-Referenced_example :
    (lookup "app" started_unit.image_refs ≡ some app_id) × (is_immutable app_id ≡ true)
Reached-Referenced_example =
    Reached-Referenced plain false started_unit "image:app" "app" build_row started_unit-Reached
      build_row_stored app_node build_row_green

abbrev red_run : Run
red_run = record new_run {
  results = ("image:app", record zero_result { name = "image:app" }) ∷ [];
  culprit = "image:app";
}

materialize_checks-materialize_example :
    (materialize_checks red_run).records
    ≡ materialize (map as_node red_run.checks) red_run.results "image:app"
materialize_checks-materialize_example = materialize_checks-materialize red_run refl refl

abbrev depth : String → ℕ
depth name = if str_eq name "unit" then 1 else 0

started_build-Ranked : Ranked depth started_build.checks
unfolding simulate
started_build-Ranked = (tt, (((omega arith, refl), tt), tt))

unfinished : started_build.verdict ≡ undecided
unfolding simulate
unfinished = refl

room_left : 0 < started_build.max_parallel
unfolding simulate
room_left = omega arith

still_undecided : (advance_checks plain build_done started_build).verdict ≡ undecided
unfolding simulate
still_undecided = refl

advance_checks-progress_example : (advance_checks plain build_done started_build).inflight ≢ []
advance_checks-progress_example =
    advance_checks-progress plain false build_done started_build depth
      (ticked new_run first_tick (built new_run new_run-IsNew)) started_build-Ranked unfinished
      (omega arith) room_left still_undecided
