-- ===== src/Config/Checks/Nodes.antt =====
-- internal/config/checks.go: the edges of checks and deploy nodes, `validateAcyclic` and
-- `validateDeploys`. An error is a value that says which rule refuses which node.
pub mod Rules
pub mod Ranks
pub mod Accepts
use text.Mathlib.Text.{starts_with}
use gauntlet.Config.Checks.{CheckSpec, Check, DeployNode, is_none}
use gauntlet.Config.Checks.Graph.{Walk, walked, cycle, out_of_fuel, visit_all}
use gauntlet.Prelude.{
  String, Option, List, Map, [], ◌∷◌, none, some, false, not, str_eq, contains, insert, length,
  ◌<|>◌, reject_if,
}

pub data Fault : Type 0 where
  empty_name duplicate empty_image bad_port bad_ready_timeout bad_idle_ttl bad_memory bad_cpus
        empty_command empty_inputs inputs_need_isolation image_prefix receipt_prefix
        bad_test_results bad_retry_command declared_twice collides_with_check collides_with_image
        undecided :
      Fault
  env_collision unknown_need duplicate_need unknown_image self_edge unknown_edge duplicate_edge
        dependency_cycle :
      String → Fault

pub data SpecError : Type 0 where
  no_checks : SpecError
  at_service at_image at_check at_receipt at_deploy : String → Fault → SpecError
  bad_max_parallel bad_workspace : SpecError

unfoldable pub check_names : List Check → List String
check_names [] = []
check_names (c ∷ cs) = c.name ∷ check_names cs

unfoldable pub deploy_names : List DeployNode → List String
deploy_names [] = []
deploy_names (d ∷ ds) = d.name ∷ deploy_names ds

abbrev pub at_name : (String → Fault → SpecError) → String → Option Fault → Option SpecError
at_name place name none = none
at_name place name (some fault) = some (place name fault)

-- The edges of a node: the self edge is refused where `own` is the node's name.
unfoldable pub edges_fault : Option String → List String → List String → List String → Option Fault
edges_fault own known seen [] = none
edges_fault own known seen (a ∷ as') =
    reject_if (elim own [ none ↦ false | some name ↦ str_eq a name ]) (self_edge a)
    <|> reject_if (not (contains known a)) (unknown_edge a)
    <|> reject_if (contains seen a) (duplicate_edge a)
    <|> edges_fault own known (a ∷ seen) as'

-- `edges[c.Name] = c.After`, for every check in turn.
unfoldable pub check_edges : List Check → Map (List String) → Map (List String)
check_edges [] edges = edges
check_edges (c ∷ cs) edges = check_edges cs (insert c.name c.after edges)

unfoldable pub deploy_edges : List DeployNode → Map (List String) → Map (List String)
deploy_edges [] edges = edges
deploy_edges (d ∷ ds) edges = deploy_edges ds (insert d.name d.after edges)

abbrev pub cycle_error : (String → Fault → SpecError) → Walk → Option SpecError
cycle_error place (walked c) = none
cycle_error place (cycle name dep) = some (place name (dependency_cycle dep))
cycle_error place out_of_fuel = some (place "" undecided)

unfoldable pub validate_acyclic : CheckSpec → Option SpecError
validate_acyclic spec =
    let names = check_names spec.checks in
    cycle_error at_check (visit_all (check_edges spec.checks []) (length names) names [])

unfoldable pub validate_deploy_acyclic : List DeployNode → Option SpecError
validate_deploy_acyclic ds =
    let names = deploy_names ds in
    cycle_error at_deploy (visit_all (deploy_edges ds []) (length names) names [])

unfoldable pub check_deploy_names : List String → List DeployNode → Option SpecError
check_deploy_names seen [] = none
check_deploy_names seen (d ∷ ds) =
    reject_if (str_eq d.name "") (at_deploy "" empty_name)
    <|> reject_if (starts_with d.name "image:") (at_deploy d.name image_prefix)
    <|> reject_if (starts_with d.name "receipt:") (at_deploy d.name receipt_prefix)
    <|> reject_if (contains seen d.name) (at_deploy d.name duplicate)
    <|> check_deploy_names (d.name ∷ seen) ds

unfoldable pub check_deploys : List String → List DeployNode → Option SpecError
check_deploys known [] = none
check_deploys known (d ∷ ds) =
    reject_if (is_none d.command) (at_deploy d.name empty_command)
    <|> at_name at_deploy d.name (edges_fault (some d.name) known [] d.after)
    <|> check_deploys known ds

unfoldable pub validate_deploys : List DeployNode → Option SpecError
validate_deploys ds =
    check_deploy_names [] ds <|> check_deploys (deploy_names ds) ds <|> validate_deploy_acyclic ds
