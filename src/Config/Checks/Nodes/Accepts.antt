-- ===== src/Config/Checks/Nodes/Accepts.antt =====
-- config/checks.go: `validateDeploys` accepts exactly the well-formed deploy graphs.
use gauntlet.Config.Checks.{DeployNode}
use gauntlet.Config.Checks.Graph.{gray, edges_of, visit_all}
use gauntlet.Config.Checks.Graph.Exact.{visit_all_sound, visit_all-ne-cycle}
use gauntlet.Config.Checks.Graph.Fuel.{visit_all_ends}
use gauntlet.Config.Checks.Graph.Search.{Walk-cases}
use gauntlet.Config.Checks.Nodes.{
  at_deploy, cycle_error, deploy_edges, deploy_names, validate_deploy_acyclic, validate_deploys,
  check_deploy_names, check_deploys,
}
use gauntlet.Config.Checks.Nodes.Ranks.{ranked}
use gauntlet.Config.Checks.Nodes.Rules.{
  IsNamed, IsRunnable, check_deploy_names_accepts, check_deploys_accepts,
}
use gauntlet.Prelude.{
  ◌≢◌, All-contains, Bool-cases, ap, subst, <|>-eq-none, All, All-map, Unrepeated, contains, Map,
  lookup, insert, lookup-insert, length, String, ℕ, ◌<◌, List, [], ◌∷◌, none, some, true, false,
  refl, ◌≡◌, ◌<|>◌, arith, ◌↔◌, str_eq, eq_iff, inl, inr,
}

-- Edges are declared for declared names only, and they are the node's own.
deploy_edges-absent :
    (ds : List DeployNode) (edges : Map (List String)) (k : String)
    → contains (deploy_names ds) k ≡ false
    → lookup k (deploy_edges ds edges) ≡ lookup k edges
unfolding deploy_edges deploy_names
deploy_edges-absent [] edges k h = refl
deploy_edges-absent (d ∷ ds) edges k h = ground (
  arith,
  h,
  deploy_edges-absent ds (insert d.name d.after edges) k,
  lookup-insert d.name k d.after edges,
)

deploy_edges-own :
    (ds : List DeployNode) (edges : Map (List String))
    → Unrepeated (deploy_names ds)
    → All (λ d. lookup d.name (deploy_edges ds edges) ≡ some d.after) ds
unfolding deploy_edges deploy_names
deploy_edges-own [] edges u = tt
deploy_edges-own (d ∷ ds) edges u = (
  ground (
    arith,
    deploy_edges-absent ds (insert d.name d.after edges) d.name u.0,
    lookup-insert d.name d.name d.after edges,
    eq_iff d.name d.name,
  ),
  deploy_edges-own ds (insert d.name d.after edges) u.1,
)

-- What the rules ask of a deploy graph: well-formed nodes with names of their own, and edges that
-- do not cycle.
pub record IsDeployGraph (ds : List DeployNode) : Type 0 where
  pub named : All IsNamed ds
  pub unrepeated : Unrepeated (deploy_names ds)
  pub runnable : All (IsRunnable (deploy_names ds)) ds
  pub rank : String → ℕ
  pub falls : All (λ d. All (λ a. rank a < rank d.name) d.after) ds

module _ (ds : List DeployNode) (own : Unrepeated (deploy_names ds)) (P : String → String → Type 0)
    (holds : All (λ d. All (P d.name) d.after) ds) where
  found :
      (k : String) (l : List DeployNode)
      → All (λ d. lookup d.name (deploy_edges ds []) ≡ some d.after) l
      → All (λ d. All (P d.name) d.after) l
      → contains (deploy_names l) k ≡ true
      → All (P k) (edges_of (deploy_edges ds []) k)
  unfolding deploy_names
  found k [] e a m = cc m
  found k (d ∷ l) e a m = elim (Bool-cases (str_eq d.name k)) [
    | inr n ↦ found k l e.1 a.1 (ground (arith, m, n))
    | inl s ↦
        let same : d.name ≡ k = (eq_iff d.name k).0 s in
        subst (λ x. All (P x) (edges_of (deploy_edges ds []) x)) same
          (subst (All (P d.name)) (ground (arith, e.0)) a.0)
  ]

  -- What holds of the edges of the declared nodes holds of the edges of every name.
  every_edge : (k : String) → All (P k) (edges_of (deploy_edges ds []) k)
  unfolding lookup
  every_edge k = elim (Bool-cases (contains (deploy_names ds) k)) [
    | inl m ↦ found k ds (deploy_edges-own ds [] own) holds m
    | inr n ↦
        let q : lookup k (deploy_edges ds []) ≡ none = deploy_edges-absent ds [] k n in
        let e : [] ≡ edges_of (deploy_edges ds []) k = ground (arith, q) in subst (All (P k)) e tt
  ]

-- What holds of the edges of the names holds of the nodes' edges.
edges_of_nodes :
    (P : String → String → Type 0) (edges : Map (List String)) (l : List DeployNode)
    → All (λ d. lookup d.name edges ≡ some d.after) l
    → All (λ k. All (P k) (edges_of edges k)) (deploy_names l)
    → All (λ d. All (P d.name) d.after) l
unfolding deploy_names
edges_of_nodes P edges [] e a = tt
edges_of_nodes P edges (d ∷ l) e a =
    (subst (All (P d.name)) (ground (arith, e.0)) a.0, edges_of_nodes P edges l e.1 a.1)

-- `validateDeployAcyclic` accepts exactly if some rank falls along every edge.
validate_deploy_acyclic-none :
    (ds : List DeployNode)
    → Unrepeated (deploy_names ds)
    → validate_deploy_acyclic ds ≡ none
    → (rank : String → ℕ) × All (λ d. All (λ a. rank a < rank d.name) d.after) ds
unfolding validate_deploy_acyclic
validate_deploy_acyclic-none ds u h =
    let names = deploy_names ds in
    let edges = deploy_edges ds [] in
    elim (Walk-cases (visit_all edges (length names) names [])) [
      | inr (inl (a, b, w)) ↦ cc (rw w at h)
      | inr (inr w) ↦ cc (rw w at h)
      | inl (c, w) ↦
          let (rank, falls) = ranked edges names (visit_all_sound edges (length names) names c w) in
          (rank, edges_of_nodes (λ k d. rank d < rank k) edges ds (deploy_edges-own ds [] u) falls)
    ]

nothing_gray : (k : String) → lookup k [] ≢ some gray
unfolding lookup
nothing_gray k g = cc g

none-validate_deploy_acyclic :
    (ds : List DeployNode)
    → Unrepeated (deploy_names ds)
    → All (λ d. All (λ a. contains (deploy_names ds) a ≡ true) d.after) ds
    → (rank : String → ℕ) → All (λ d. All (λ a. rank a < rank d.name) d.after) ds
    → validate_deploy_acyclic ds ≡ none
unfolding validate_deploy_acyclic
none-validate_deploy_acyclic ds u closed rank falls =
    let names = deploy_names ds in
    let edges = deploy_edges ds [] in
    elim (Walk-cases (visit_all edges (length names) names [])) [
      | inl (c, w) ↦ ap (cycle_error at_deploy) w
      | inr (inl (a, b, w)) ↦ absurd (
          visit_all-ne-cycle edges rank (every_edge ds u (λ k d. rank d < rank k) falls)
            (length names) names [] a b nothing_gray w)
      | inr (inr w) ↦ absurd (
          visit_all_ends edges names
            (every_edge ds u (λ k d. contains (deploy_names ds) d ≡ true) closed) names []
            (All-contains names) w)
    ]

-- `validateDeploys` accepts a graph exactly if it is well formed.
pub validate_deploys_accepts :
    (ds : List DeployNode) → (validate_deploys ds ≡ none) ↔ IsDeployGraph ds
unfolding validate_deploys
validate_deploys_accepts ds = (
  λ h.
      let (names, rest) =
        <|>-eq-none (check_deploy_names [] ds)
          (check_deploys (deploy_names ds) ds <|> validate_deploy_acyclic ds) h in
      let (nodes, acyclic) =
        <|>-eq-none (check_deploys (deploy_names ds) ds) (validate_deploy_acyclic ds) rest in
      let (named, u) = (check_deploy_names_accepts ds).0 names in
      let (rank, falls) = validate_deploy_acyclic-none ds u acyclic in
      record {
        named = named;
        unrepeated = u;
        runnable = (check_deploys_accepts (deploy_names ds) ds).0 nodes;
        rank = rank;
        falls = falls;
      },
  λ g.
      let names = (check_deploy_names_accepts ds).1 (g.named, g.unrepeated) in
      let nodes = (check_deploys_accepts (deploy_names ds) ds).1 g.runnable in
      let acyclic =
        none-validate_deploy_acyclic ds g.unrepeated (All-map (λ d r. r.1.known) ds g.runnable)
          g.rank g.falls in
      ground (arith, names, nodes, acyclic),
)
