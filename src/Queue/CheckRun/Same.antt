-- ===== src/Queue/CheckRun/Same.antt =====
-- queue/checkrun.go and deploy/graph.go: the two schedulers report their rows alike.
use gauntlet.Config.Checks.{Check}
use gauntlet.Core.Types.{CheckResult, node_green}
use gauntlet.Deploy.Graph.{Node, materialize, materialize_from}
use gauntlet.Deploy.Graph as Graph
use gauntlet.Queue.CheckRun.{Run, run_green}
use gauntlet.Queue.CheckRun.Rows.{dep_green, red_deps, rows_from, materialize_checks}
use gauntlet.Prelude.{
  ℕ, suc, String, List, [], ◌∷◌, false, refl, ◌≡◌, Map, lookup, map, arith, Bool-cases,
  Option-cases, inl, inr, str_eq, ap, ◌∙◌,
}

-- A check as a node of the deploy scheduler.
abbrev pub as_node : Check → Node
as_node c = record { name = c.name; after = c.after; command = c.command; executor = c.executor }

run_green-node_green : (res : CheckResult) → run_green "" res ≡ node_green res
unfolding run_green
run_green-node_green res = ground arith

dep_green-same :
    (results : Map CheckResult) (dep : String)
    → dep_green "" results dep ≡ Graph.dep_green results dep
unfolding dep_green Graph.dep_green
dep_green-same results dep = elim (Option-cases (lookup dep results)) [
  | inl n ↦ ground (arith, n)
  | inr (res, f) ↦ ground (arith, f, run_green-node_green res)
]

red_deps-same :
    (results : Map CheckResult) (deps : List String)
    → red_deps "" results deps ≡ Graph.red_deps results deps
unfolding red_deps Graph.red_deps
red_deps-same results [] = refl
red_deps-same results (d ∷ ds) = ground (arith, dep_green-same results d, red_deps-same results ds)

rows_from-same :
    (i : ℕ) (cs : List Check) (results : Map CheckResult) (culprit : String)
    → rows_from i cs "" results culprit ≡ materialize_from i (map as_node cs) results culprit
unfolding rows_from materialize_from
rows_from-same i [] results culprit = refl
rows_from-same i (c ∷ cs) results culprit = elim (Option-cases (lookup c.name results)) [
  | inr (res, f) ↦ ground (arith, f, rows_from-same (suc i) cs results culprit)
  | inl n ↦ elim (Bool-cases (str_eq culprit "")) [
    | inl y ↦ ground (arith, n, y, rows_from-same (suc i) cs results culprit)
    | inr f ↦
        ground
          (arith, n, f, rows_from-same (suc i) cs results culprit, red_deps-same results c.after)
  ]
]

-- Without an emergency, the rows that `materializeChecks` writes once are those that the deploy
-- scheduler's `materialize` makes of the same nodes, results and culprit.
pub materialize_checks-materialize :
    (r : Run)
    → r.materialized ≡ false
    → r.emergency_reason ≡ ""
    → (materialize_checks r).records ≡ materialize (map as_node r.checks) r.results r.culprit
unfolding materialize_checks materialize
materialize_checks-materialize r m e =
    let here : (materialize_checks r).records
        ≡ rows_from 0 r.checks r.emergency_reason r.results r.culprit =
      ground (arith, m) in
    here
    ∙ (ap (λ x. rows_from 0 r.checks x r.results r.culprit) e
        ∙ rows_from-same 0 r.checks r.results r.culprit)
