-- ===== src/Deploy/Plan.antt =====
-- internal/deploy/run.go: `deployGraph`, the graph that a revision declares for an environment. The
-- file at the revision and the parser of its text are parameters.
pub mod Scheduled
use gauntlet.Config.Checks.Parse.{
  parsed, invalid, malformed, repeated, answer, failed, Answer, Parsed,
}
use gauntlet.Config.Checks.{CheckSpec, DeployNode}
use gauntlet.Config.Checks.Nodes.{SpecError}
use gauntlet.Config.Checks.Select.{selected, unknown_node, undecided, select_deploy_nodes}
use gauntlet.Deploy.Graph.{Node}
use gauntlet.Prelude.{
  ◌||◌, Bool, String, Option, List, [], ◌∷◌, none, some, not, ◌&&◌, str_eq, if◌then◌else◌,
}

-- A rejection, by the rule that is broken.
pub data Rejection : Type 0 where
  unreadable : String → Rejection
  bad_spec : Parsed → Rejection
  no_such_node : String → Rejection
  never_selected : Rejection
  nothing_declared : Rejection
  unknown_profile : String → String → Rejection

pub data Plan : Type 0 where
  planned : List Node → Plan
  rejected : Rejection → Plan

unfoldable pub is_known : Option (String → Bool) → String → Bool
is_known none profile = str_eq profile ""
is_known (some known) profile = str_eq profile "" || known profile

abbrev pub node_of : DeployNode → Node
node_of d = record { name = d.name; after = d.after; command = d.command; executor = d.executor }

-- The loop that makes a scheduler's node of each selected one.
unfoldable pub nodes_of : Option (String → Bool) → List DeployNode → Plan
nodes_of known [] = planned []
nodes_of known (d ∷ ds) =
    let rest = nodes_of known ds in
    if is_known known d.executor
    then elim rest [
      | planned ns ↦ planned (
          record { name = d.name; after = d.after; command = d.command; executor = d.executor }
          ∷ ns)
      | rejected r ↦ rejected r
    ]
    else rejected (unknown_profile d.name d.executor)

abbrev pub non_empty : Option (String → Bool) → List DeployNode → Plan
non_empty known [] = rejected nothing_declared
non_empty known (d ∷ ds) = nodes_of known (d ∷ ds)

module _ (read_file : String → Answer String) (parse : String → Parsed)
    (known : Option (String → Bool)) where
  -- `parse` is `ParseChecks` with its parameters, `names` is `env.Nodes`, and `sha` the revision.
  unfoldable pub deploy_graph : List String → String → Plan
  deploy_graph names sha = elim (read_file sha) [
    | failed e ↦ rejected (unreadable e)
    | answer text ↦ elim (parse text) [
      | repeated n ↦ rejected (bad_spec (repeated n))
      | malformed e ↦ rejected (bad_spec (malformed e))
      | invalid e ↦ rejected (bad_spec (invalid e))
      | parsed spec ↦ elim (select_deploy_nodes spec.deploys names) [
        | unknown_node k ↦ rejected (no_such_node k)
        | undecided ↦ rejected never_selected
        | selected ds ↦ non_empty known ds
      ]
    ]
  ]
