-- ===== src/Config/Checks/Select.antt =====
-- internal/config/checks.go: `SelectDeployNodes`, the nodes that are named and all that they need, in
-- declaration order. The stack of `pull` is fuel.
pub mod Pulls
pub mod Total
pub mod Subgraph
use gauntlet.Config.Checks.{DeployNode}
use gauntlet.Prelude.{
  ℕ, zero, suc, String, Option, List, [], ◌∷◌, none, some, str_eq, contains, length, if◌then◌else◌,
}

pub data Pulled : Type 0 where
  pulled : List String → Pulled
  no_such_node : String → Pulled
  stuck : Pulled

-- `byName[name]`: of two nodes with one name the map keeps the later one.
unfoldable pub node_named : String → List DeployNode → Option DeployNode
node_named name [] = none
node_named name (d ∷ ds) = elim (node_named name ds) [
  | some later ↦ some later
  | none ↦ if str_eq d.name name then some d else none
]

-- A loop that pulls one name after another.
unfoldable pub pull_each : (String → List String → Pulled) → List String → List String → Pulled
pull_each go [] wanted = pulled wanted
pull_each go (a ∷ as') wanted = elim (go a wanted) [
  | pulled w ↦ pull_each go as' w
  | no_such_node n ↦ no_such_node n
  | stuck ↦ stuck
]

unfoldable pub pull : List DeployNode → ℕ → String → List String → Pulled
pull ds zero name wanted = stuck
pull ds (suc fuel) name wanted =
    let rest : Pulled = elim (node_named name ds) [
      | none ↦ no_such_node name
      | some node ↦ pull_each (pull ds fuel) node.after (name ∷ wanted)
    ] in
    if contains wanted name then pulled wanted else rest

unfoldable pub chosen : List String → List DeployNode → List DeployNode
chosen wanted [] = []
chosen wanted (d ∷ ds) = if contains wanted d.name then d ∷ chosen wanted ds else chosen wanted ds

pub data Selection : Type 0 where
  selected : List DeployNode → Selection
  unknown_node : String → Selection
  undecided : Selection

unfoldable pub select_deploy_nodes : List DeployNode → List String → Selection
select_deploy_nodes ds [] = selected ds
select_deploy_nodes ds (n ∷ ns) = elim (pull_each (pull ds (suc (length ds))) (n ∷ ns) []) [
  | pulled wanted ↦ selected (chosen wanted ds)
  | no_such_node name ↦ unknown_node name
  | stuck ↦ undecided
]
