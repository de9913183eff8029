-- ===== src/Config/Tests.antt =====
-- A deploy graph of two nodes, and specs that are accepted, refused and select nodes.
use gauntlet.Config.Checks.{DeployNode}
use gauntlet.Config.Checks.Graph.{visit, visit_all, visit_deps}
use gauntlet.Config.Checks.Nodes.{
  SpecError, at_deploy, dependency_cycle, check_deploy_names, check_deploys, deploy_edges,
  deploy_names, edges_fault, validate_deploy_acyclic, validate_deploys,
}
use gauntlet.Config.Checks.Nodes.Accepts.{IsDeployGraph, validate_deploys_accepts}
use gauntlet.Config.Checks.Select.{
  Selection, selected, unknown_node, chosen, node_named, pull, pull_each, select_deploy_nodes,
}
use gauntlet.Config.Checks.Select.Pulls.{Pulls}
use gauntlet.Config.Checks.Select.Subgraph.{select_deploy_nodes_least}
use gauntlet.Prelude.{
  All, lookup, insert, String, Option, List, [], ◌∷◌, none, some, true, false, refl, ◌≡◌, ◌⊎◌, ◌↔◌,
  contains,
}

abbrev node : String → List String → DeployNode
node name after = record { name = name; command = "run" ∷ []; after = after; executor = "" }

abbrev two_deploys : List DeployNode
two_deploys = node "serve" ("migrate" ∷ []) ∷ node "migrate" [] ∷ node "notify" [] ∷ []

-- A definition that opens the validation of deploy nodes, and one for the selection.
verify : List DeployNode → Option SpecError
unfolding validate_deploys check_deploy_names check_deploys edges_fault deploy_names
    validate_deploy_acyclic deploy_edges visit_all visit visit_deps lookup insert
verify ds = validate_deploys ds

choose : List DeployNode → List String → Selection
unfolding select_deploy_nodes chosen pull pull_each node_named
choose ds names = select_deploy_nodes ds names

two_deploys_accepted : validate_deploys two_deploys ≡ none
unfolding verify
two_deploys_accepted = refl

cycle_refused :
    validate_deploys (node "a" ("b" ∷ []) ∷ node "b" ("a" ∷ []) ∷ [])
    ≡ some (at_deploy "b" (dependency_cycle "a"))
unfolding verify
cycle_refused = refl

pulled_in :
    select_deploy_nodes two_deploys ("serve" ∷ [])
    ≡ selected (node "serve" ("migrate" ∷ []) ∷ node "migrate" [] ∷ [])
unfolding choose
pulled_in = refl

unknown_refused : select_deploy_nodes two_deploys ("serve" ∷ "web" ∷ []) ≡ unknown_node "web"
unfolding choose
unknown_refused = refl

validate_deploys_accepts_example : (validate_deploys two_deploys ≡ none) ↔ IsDeployGraph two_deploys
validate_deploys_accepts_example = validate_deploys_accepts two_deploys

two_deploys-IsDeployGraph : IsDeployGraph two_deploys
two_deploys-IsDeployGraph = (validate_deploys_accepts two_deploys).0 two_deploys_accepted

select_deploy_nodes_least_example :
    ((got : List String) × ((select_deploy_nodes two_deploys ("serve" ∷ [])
          ≡ selected (chosen got two_deploys))
        × (All (λ a. contains (deploy_names two_deploys) a ≡ true) ("serve" ∷ [])
            × Pulls two_deploys ("serve" ∷ []) [] got)))
    ⊎ ((k : String) × ((select_deploy_nodes two_deploys ("serve" ∷ []) ≡ unknown_node k)
          × ((contains ("serve" ∷ []) k ≡ true) × (contains (deploy_names two_deploys) k ≡ false))))
select_deploy_nodes_least_example =
    select_deploy_nodes_least two_deploys "serve" [] two_deploys-IsDeployGraph
