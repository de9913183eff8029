-- ===== src/Queue/CheckRun/Rows.antt =====
-- queue/checkrun.go: `materializeChecks`, the rows of the members' records.
use gauntlet.Core.Types.{CheckResult, zero_result, blocked}
use gauntlet.Config.Checks.{Check}
use gauntlet.Prelude.{
  ℕ, suc, ◌+◌, Bool, String, List, [], ◌∷◌, none, some, true, false, str_eq, Map, lookup,
  if◌then◌else◌,
}
use gauntlet.Queue.CheckRun.{Run, run_green}

unfoldable pub dep_green : String → Map CheckResult → String → Bool
dep_green emergency results dep = elim (lookup dep results) [
  | none ↦ false
  | some res ↦ run_green emergency res
]

unfoldable pub red_deps : String → Map CheckResult → List String → List String
red_deps emergency results [] = []
red_deps emergency results (d ∷ ds) =
    let rest = red_deps emergency results ds in
    if dep_green emergency results d then rest else d ∷ rest

abbrev pub or_culprit : String → List String → List String
or_culprit culprit [] = culprit ∷ []
or_culprit culprit (d ∷ ds) = d ∷ ds

-- The rows of `materializeChecks`, from the check with index `i`.
unfoldable pub rows_from : ℕ → List Check → String → Map CheckResult → String → List CheckResult
rows_from i [] emergency results culprit = []
rows_from i (c ∷ cs) emergency results culprit =
    let rest = rows_from (suc i) cs emergency results culprit in
    elim (lookup c.name results) [
      | some res ↦ record res { seq = i + 1 } ∷ rest
      | none ↦
          if str_eq culprit ""
          then rest
          else (record zero_result {
            name = c.name;
            seq = i + 1;
            status = blocked;
            blocked_by = or_culprit culprit (red_deps emergency results c.after);
          })
            ∷ rest
    ]

unfoldable pub materialize_checks : Run → Run
materialize_checks r = if r.materialized then r else record r {
  materialized = true;
  records = rows_from 0 r.checks r.emergency_reason r.results r.culprit;
}
