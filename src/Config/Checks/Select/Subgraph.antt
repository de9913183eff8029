-- ===== src/Config/Checks/Select/Subgraph.antt =====
-- config/checks.go: what `SelectDeployNodes` selects of a valid graph, and that it is valid too.
use gauntlet.Config.Checks.{DeployNode}
use gauntlet.Config.Checks.Nodes.{deploy_names}
use gauntlet.Config.Checks.Nodes.Accepts.{IsDeployGraph}
use gauntlet.Config.Checks.Nodes.Rules.{IsNamed, IsRunnable}
use gauntlet.Config.Checks.Select.Total.{node_named-none}
use gauntlet.Config.Checks.Select.{node_named, chosen, selected, unknown_node, select_deploy_nodes}
use gauntlet.Config.Checks.Select.Pulls.{Pulls}
use gauntlet.Config.Checks.Select.Total.{requested, unwanted_le_length}
use gauntlet.Prelude.{
  Option-cases, ◌<◌, contains_eq, some_inj, subst, All, All-map, Unrepeated, contains, length,
  String, suc, List, [], ◌∷◌, some, true, false, refl, ◌≡◌, ◌⊎◌, inl, inr, Bool-cases, arith,
  str_eq, eq_iff, if◌then◌else◌, ap, ◌∙◌,
}

All-node_named :
    (P : DeployNode → Type 0) (ds : List DeployNode) (k : String) (d : DeployNode)
    → All P ds
    → node_named k ds ≡ some d
    → P d
unfolding node_named
All-node_named P [] k d a h = cc h
All-node_named P (x ∷ xs) k d a h = elim (Option-cases (node_named k xs)) [
  | inr (later, q) ↦ All-node_named P xs k d a.1 (q ∙ (rw (q, node_named) at h))
  | inl q ↦ elim (Bool-cases (str_eq x.name k)) [
    | inl s ↦ subst P (some_inj (rw (q, node_named, s) at h)) a.0
    | inr n ↦ cc (rw (q, node_named, n) at h)
  ]
]

length-deploy_names : (ds : List DeployNode) → length (deploy_names ds) ≡ length ds
unfolding deploy_names
length-deploy_names [] = refl
length-deploy_names (d ∷ ds) = ap suc (length-deploy_names ds)

-- Of a valid graph, asked for at least one name, `SelectDeployNodes` takes the nodes of the least
-- closed set that holds the requested names, all of which are declared; or it names a requested node
-- that is not declared.
pub select_deploy_nodes_least :
    (ds : List DeployNode) (name : String) (names : List String)
    → IsDeployGraph ds
    → ((got : List String) × ((select_deploy_nodes ds (name ∷ names) ≡ selected (chosen got ds))
          × (All (λ a. contains (deploy_names ds) a ≡ true) (name ∷ names)
              × Pulls ds (name ∷ names) [] got)))
      ⊎ ((k : String) × ((select_deploy_nodes ds (name ∷ names) ≡ unknown_node k)
            × ((contains (name ∷ names) k ≡ true) × (contains (deploy_names ds) k ≡ false))))
unfolding select_deploy_nodes
select_deploy_nodes_least ds name names g =
    let bound = unwanted_le_length [] (deploy_names ds) in
    elim (requested ds
      (λ k d at. (All-node_named (IsRunnable (deploy_names ds)) ds k d g.runnable at).1.known)
      (length ds) (name ∷ names) [] (λ k h. cc h) (omega (arith, bound, length-deploy_names ds))) [
        | inl (got, (e, p)) ↦ inl (got, (ground (arith, e), p))
        | inr (k, (e, r)) ↦ inr (k, (ground (arith, e), r))
      ]

weaken_named :
    (x : DeployNode) (xs l : List DeployNode)
    → contains (deploy_names l) x.name ≡ false
    → All (λ d. node_named d.name xs ≡ some d) l
    → All (λ d. node_named d.name (x ∷ xs) ≡ some d) l
unfolding node_named deploy_names
weaken_named x xs [] n a = tt
weaken_named x xs (d ∷ l) n a =
    (rw (a.0, node_named) refl, weaken_named x xs l (ground (arith, n)) a.1)

-- Among names of their own every node is found under its name.
own_node :
    (ds : List DeployNode)
    → Unrepeated (deploy_names ds)
    → All (λ d. node_named d.name ds ≡ some d) ds
unfolding node_named deploy_names
own_node [] u = tt
own_node (d ∷ ds) u = (
  ground (arith, eq_iff d.name d.name, node_named-none d.name ds u.0),
  weaken_named d ds ds u.0 (own_node ds u.1),
)

contains-chosen :
    (got : List String) (ds : List DeployNode) (k : String)
    → contains (deploy_names ds) k ≡ true
    → contains got k ≡ true
    → contains (deploy_names (chosen got ds)) k ≡ true
unfolding chosen deploy_names
contains-chosen got [] k m w = m
contains-chosen got (d ∷ ds) k m w = elim (Bool-cases (str_eq d.name k)) [
  | inl s ↦
      let here : contains got d.name ≡ true =
        contains_eq got d.name k ((eq_iff d.name k).0 s) ∙ w in
      ground (arith, here, s)
  | inr n ↦ ground (arith, contains-chosen got ds k, m, w, n)
]

absent-chosen :
    (got : List String) (ds : List DeployNode) (k : String)
    → contains (deploy_names ds) k ≡ false
    → contains (deploy_names (chosen got ds)) k ≡ false
unfolding chosen deploy_names
absent-chosen got [] k m = m
absent-chosen got (d ∷ ds) k m = ground (arith, m, absent-chosen got ds k)

chosen-Unrepeated :
    (got : List String) (ds : List DeployNode)
    → Unrepeated (deploy_names ds)
    → Unrepeated (deploy_names (chosen got ds))
unfolding chosen deploy_names
chosen-Unrepeated got [] u = tt
chosen-Unrepeated got (d ∷ ds) u =
    ground (arith, u, chosen-Unrepeated got ds u.1, absent-chosen got ds d.name)

-- What holds of every node holds of the chosen ones, which are in the set.
All-chosen :
    (P : DeployNode → Type 0) (got : List String) (ds : List DeployNode)
    → All P ds
    → All (λ d. P d × (contains got d.name ≡ true)) (chosen got ds)
unfolding chosen
All-chosen P got [] a = tt
All-chosen P got (d ∷ ds) a = elim (Bool-cases (contains got d.name)) [
  | inl w ↦
      let e : d ∷ chosen got ds
          ≡ (if contains got d.name then d ∷ chosen got ds else chosen got ds) =
        ground (arith, w) in
      subst (All (λ x. P x × (contains got x.name ≡ true))) e ((a.0, w), All-chosen P got ds a.1)
  | inr n ↦
      let e : chosen got ds ≡ (if contains got d.name then d ∷ chosen got ds else chosen got ds) =
        ground (arith, n) in
      subst (All (λ x. P x × (contains got x.name ≡ true))) e (All-chosen P got ds a.1)
]

-- A subgraph that is chosen by a closed set of names is valid.
chosen-IsDeployGraph :
    (ds : List DeployNode) (names got : List String)
    → IsDeployGraph ds
    → Pulls ds names [] got
    → IsDeployGraph (chosen got ds)
chosen-IsDeployGraph ds names got g p = record {
  named = All-map (λ d a. a.0) (chosen got ds) (All-chosen IsNamed got ds g.named);
  unrepeated = chosen-Unrepeated got ds g.unrepeated;
  runnable =
      All-map
        (λ d a. (
          a.0.0.0,
          record {
            others = a.0.0.1.others;
            known = both d.after a.0.0.1.known (p.closed d.name d a.1 refl a.0.1);
            unrepeated = a.0.0.1.unrepeated;
          },
        ))
        (chosen got ds)
        (All-chosen (λ d. IsRunnable (deploy_names ds) d × (node_named d.name ds ≡ some d)) got ds
          (paired ds g.runnable (own_node ds g.unrepeated)));
  rank = g.rank;
  falls =
      All-map (λ d a. a.0) (chosen got ds)
        (All-chosen (λ d. All (λ a. g.rank a < g.rank d.name) d.after) got ds g.falls);
}
  where
    both :
        (l : List String)
        → All (λ a. contains (deploy_names ds) a ≡ true) l
        → All (λ a. contains got a ≡ true) l
        → All (λ a. contains (deploy_names (chosen got ds)) a ≡ true) l
    both [] a b = tt
    both (x ∷ l) a b = (contains-chosen got ds x a.0 b.0, both l a.1 b.1)

    paired :
        (l : List DeployNode)
        → All (IsRunnable (deploy_names ds)) l
        → All (λ d. node_named d.name ds ≡ some d) l
        → All (λ d. IsRunnable (deploy_names ds) d × (node_named d.name ds ≡ some d)) l
    paired [] a b = tt
    paired (x ∷ l) a b = ((a.0, b.0), paired l a.1 b.1)

-- Whatever `SelectDeployNodes` selects of a valid graph is a valid graph.
pub select_deploy_nodes-IsDeployGraph :
    (ds : List DeployNode) (names : List String) (out : List DeployNode)
    → IsDeployGraph ds
    → select_deploy_nodes ds names ≡ selected out
    → IsDeployGraph out
unfolding select_deploy_nodes
select_deploy_nodes-IsDeployGraph ds [] out g e = subst IsDeployGraph (cc e) g
select_deploy_nodes-IsDeployGraph ds (n ∷ ns) out g e = elim (select_deploy_nodes_least ds n ns g) [
  | inl (got, (h, (ks, p))) ↦
      subst IsDeployGraph (cc (h, e)) (chosen-IsDeployGraph ds (n ∷ ns) got g p)
  | inr (k, (h, r)) ↦ cc (h, e)
]
