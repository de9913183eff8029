-- ===== src/Deploy/Plan/Scheduled.antt =====
-- deploy/run.go, deploy/graph.go: a planned graph is one that the scheduler finishes.
use gauntlet.Config.Checks.{CheckSpec, DeployNode}
use gauntlet.Config.Checks.Nodes.{SpecError, deploy_names}
use gauntlet.Config.Checks.Nodes.Accepts.{IsDeployGraph, validate_deploys_accepts}
use gauntlet.Config.Checks.Nodes.Rules.{IsNamed, IsRunnable}
use gauntlet.Config.Checks.Select.{
  Selection, selected, unknown_node, undecided, select_deploy_nodes,
}
use gauntlet.Config.Checks.Select.Subgraph.{select_deploy_nodes-IsDeployGraph}
use gauntlet.Config.Checks.Parse.{
  Parsed, parsed, repeated, malformed, invalid, Answer, answer, failed, load_spec, parse_checks,
  reject_duplicate_singletons,
}
use gauntlet.Config.Checks.Validate.{validate}
use gauntlet.Deploy.Graph.{Node, Scheduler, Round, Report, run, never_ready}
use gauntlet.Deploy.Graph.Progress.{Ranked, run-never_ready}
use gauntlet.Deploy.Graph.Results.{WellNamed}
use gauntlet.Deploy.Plan.{
  Plan, planned, rejected, Rejection, nodes_of, node_of, deploy_graph, is_known,
}
use gauntlet.Prelude.{
  Option-cases, All, Unrepeated, contains, map, get_elem?, String, Bool, ℕ, zero, suc, ◌<◌, List,
  [], ◌∷◌, none, some, true, false, refl, ◌≡◌, ◌≢◌, ◌⊎◌, inl, inr, Bool-cases, arith, str_eq, ap,
  sym, ◌∙◌, Option, subst, some_inj,
}

planned_nodes :
    (known : Option (String → Bool)) (ds : List DeployNode) (nodes : List Node)
    → nodes_of known ds ≡ planned nodes
    → nodes ≡ map node_of ds
unfolding nodes_of
planned_nodes known [] nodes h = cc h
planned_nodes known (d ∷ ds) nodes h = elim (Bool-cases (is_known known d.executor)) [
  | inr u ↦ cc (rw u at h)
  | inl k ↦ elim (Plan-cases (nodes_of known ds)) [
    | inl (ns, e) ↦
        let here : node_of d ∷ ns ≡ nodes = planned_inj (rw (k, e) at h) in
        sym here ∙ ap (λ l. node_of d ∷ l) (planned_nodes known ds ns e)
    | inr (r, e) ↦ cc (rw (k, e) at h)
  ]
]
  where
    Plan-cases :
        (p : Plan) → ((ns : List Node) × (p ≡ planned ns)) ⊎ ((r : Rejection) × (p ≡ rejected r))
    Plan-cases (planned ns) = inl (ns, refl)
    Plan-cases (rejected r) = inr (r, refl)

    planned_inj : {a b : List Node} → planned a ≡ planned b → a ≡ b
    planned_inj e = cc e

names_of_nodes : (ds : List DeployNode) → map (λ n. n.name) (map node_of ds) ≡ deploy_names ds
unfolding deploy_names
names_of_nodes [] = refl
names_of_nodes (d ∷ ds) = ap (λ l. d.name ∷ l) (names_of_nodes ds)

All-get :
    (P : Node → Type 0) (ds : List DeployNode) (i : ℕ) (n : Node)
    → All (λ d. P (node_of d)) ds
    → get_elem? (map node_of ds) i ≡ some n
    → P n
All-get P [] i n a h = cc h
All-get P (d ∷ ds) zero n a h = subst P (some_inj h) a.0
All-get P (d ∷ ds) (suc i) n a h = All-get P ds i n a.1 h

module _ (ds : List DeployNode) (g : IsDeployGraph ds) where
  nodes-WellNamed : WellNamed (map node_of ds)
  nodes-WellNamed = record {
    unrepeated = subst Unrepeated (sym (names_of_nodes ds)) g.unrepeated;
    named = of_each ds g.named;
  }
    where
      of_each :
          (l : List DeployNode)
          → All IsNamed l
          → All (λ n. str_eq n.name "" ≡ false) (map node_of l)
      of_each [] a = tt
      of_each (d ∷ l) a = (a.0.named, of_each l a.1)

  nodes-Ranked : Ranked g.rank (map node_of ds)
  nodes-Ranked i n at =
      All-get
        (λ m.
          All
            (λ dep.
              (g.rank dep < g.rank m.name)
              × (contains (map (λ x. x.name) (map node_of ds)) dep ≡ true))
            m.after)
        ds i n
        (subst
          (λ names.
            All
              (λ d. All (λ dep. (g.rank dep < g.rank d.name) × (contains names dep ≡ true)) d.after)
              ds)
          (sym (names_of_nodes ds)) (nodes ds g.falls g.runnable))
        at
    where
      edges :
          (r : ℕ) (l : List String)
          → All (λ a. g.rank a < r) l
          → All (λ a. contains (deploy_names ds) a ≡ true) l
          → All (λ a. (g.rank a < r) × (contains (deploy_names ds) a ≡ true)) l
      edges r [] a b = tt
      edges r (x ∷ l) a b = ((a.0, b.0), edges r l a.1 b.1)

      nodes :
          (l : List DeployNode)
          → All (λ d. All (λ a. g.rank a < g.rank d.name) d.after) l
          → All (IsRunnable (deploy_names ds)) l
          → All
              (λ d.
                All
                  (λ dep. (g.rank dep < g.rank d.name) × (contains (deploy_names ds) dep ≡ true))
                  d.after)
              l
      nodes [] a b = tt
      nodes (d ∷ l) a b = (edges (g.rank d.name) d.after a.0 b.0.1.known, nodes l a.1 b.1)

-- A valid spec has a valid deploy graph.
validate-IsDeployGraph :
    (to_upper : String → String) (spec : CheckSpec)
    → validate to_upper spec ≡ none
    → IsDeployGraph spec.deploys
unfolding validate
validate-IsDeployGraph to_upper spec h =
    (validate_deploys_accepts spec.deploys).0 (ground (arith, h))

load_spec-IsDeployGraph :
    (to_upper : String → String) (spec : CheckSpec)
    → (load_spec to_upper spec).1 ≡ none
    → IsDeployGraph (load_spec to_upper spec).0.deploys
unfolding load_spec
load_spec-IsDeployGraph to_upper spec h =
    validate-IsDeployGraph to_upper (load_spec to_upper spec).0 h

Answer-cases :
    {A : Type 0} (r : Answer A) → ((a : A) × (r ≡ answer a)) ⊎ ((e : String) × (r ≡ failed e))
Answer-cases (answer a) = inl (a, refl)
Answer-cases (failed e) = inr (e, refl)

abbrev IsRefused : Parsed → Type 0
IsRefused p =
    ((n : String) × (p ≡ repeated n))
    ⊎ (((e : String) × (p ≡ malformed e)) ⊎ ((e : SpecError) × (p ≡ invalid e)))

Parsed-cases : (p : Parsed) → ((spec : CheckSpec) × (p ≡ parsed spec)) ⊎ IsRefused p
Parsed-cases (parsed spec) = inl (spec, refl)
Parsed-cases (repeated n) = inr (inl (n, refl))
Parsed-cases (malformed e) = inr (inr (inl (e, refl)))
Parsed-cases (invalid e) = inr (inr (inr (e, refl)))

Selection-cases :
    (s : Selection)
    → ((ds : List DeployNode) × (s ≡ selected ds))
      ⊎ (((k : String) × (s ≡ unknown_node k)) ⊎ (s ≡ undecided))
Selection-cases (selected ds) = inl (ds, refl)
Selection-cases (unknown_node k) = inr (inl (k, refl))
Selection-cases undecided = inr (inr refl)

module _ (to_upper : String → String) (node_names : String → Answer (List (Option String)))
    (unmarshal : String → Answer CheckSpec) where
  -- A spec that `ParseChecks` accepts has a valid deploy graph.
  parse_checks-IsDeployGraph :
      (text : String) (spec : CheckSpec)
      → parse_checks to_upper node_names unmarshal text ≡ parsed spec
      → IsDeployGraph spec.deploys
  unfolding parse_checks
  parse_checks-IsDeployGraph text spec h =
      elim (Option-cases (reject_duplicate_singletons (node_names text))) [
        | inr (n, q) ↦ cc (rw (q, parse_checks) at h)
        | inl q ↦ elim (Answer-cases (unmarshal text)) [
          | inr (e, p) ↦ cc (rw (q, p, parse_checks) at h)
          | inl (raw, p) ↦ elim (Option-cases (load_spec to_upper raw).1) [
            | inr (e, v) ↦ cc (rw (q, p, v, parse_checks) at h)
            | inl v ↦
                let same : (load_spec to_upper raw).0 ≡ spec =
                  parsed_inj (rw (q, p, v, parse_checks) at h) in
                subst (λ s. IsDeployGraph s.deploys) same (load_spec-IsDeployGraph to_upper raw v)
          ]
        ]
      ]
    where
      parsed_inj : {a b : CheckSpec} → parsed a ≡ parsed b → a ≡ b
      parsed_inj e = cc e

  module _ (read_file : String → Answer String) (known : Option (String → Bool)) where
    -- What is planned are the nodes of a valid graph.
    planned_inv :
        (names : List String) (sha : String) (nodes : List Node)
        → deploy_graph read_file (parse_checks to_upper node_names unmarshal) known names sha
          ≡ planned nodes
        → (ds : List DeployNode) × (IsDeployGraph ds × (nodes ≡ map node_of ds))
    unfolding deploy_graph
    planned_inv names sha nodes h =
        let parse = parse_checks to_upper node_names unmarshal in
        elim (Answer-cases (read_file sha)) [
          | inr (e, q) ↦ cc (rw (q, deploy_graph) at h)
          | inl (text, q) ↦ elim (Parsed-cases (parse text)) [
            | inr (inl (n, p)) ↦ cc (rw (q, p, deploy_graph) at h)
            | inr (inr (inl (e, p))) ↦ cc (rw (q, p, deploy_graph) at h)
            | inr (inr (inr (e, p))) ↦ cc (rw (q, p, deploy_graph) at h)
            | inl (spec, p) ↦ elim (Selection-cases (select_deploy_nodes spec.deploys names)) [
              | inr (inl (k, s)) ↦ cc (rw (q, p, s, deploy_graph) at h)
              | inr (inr s) ↦ cc (rw (q, p, s, deploy_graph) at h)
              | inl ([], s) ↦ cc (rw (q, p, s, deploy_graph) at h)
              | inl (d ∷ ds, s) ↦ (
                d ∷ ds,
                (
                  select_deploy_nodes-IsDeployGraph spec.deploys names (d ∷ ds)
                      (parse_checks-IsDeployGraph text spec p) s,
                  planned_nodes known (d ∷ ds) nodes (rw (q, p, s, deploy_graph) at h),
                ),
              )
            ]
          ]
        ]

    -- A graph that `deployGraph` plans, with the parser `ParseChecks`, is run by the scheduler
    -- without nodes that never become ready.
    pub deploy_graph-never_ready :
        (names : List String) (sha : String) (sch : Scheduler) (rs : List Round) (ctx_at_end : Bool)
        (left all : ℕ) {rep : Report}
        → deploy_graph read_file (parse_checks to_upper node_names unmarshal) known names sha
          ≡ planned sch.nodes
        → run sch rs ctx_at_end ≡ some rep
        → rep.err ≢ some (never_ready left all)
    deploy_graph-never_ready names sha sch rs b left all {rep} plan r =
        let (ds, (g, q)) = planned_inv names sha sch.nodes plan in
        run-never_ready sch rs b g.rank left all (subst WellNamed (sym q) (nodes-WellNamed ds g))
          (subst (Ranked g.rank) (sym q) (nodes-Ranked ds g)) r
