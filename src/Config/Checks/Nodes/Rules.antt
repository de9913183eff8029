-- ===== src/Config/Checks/Nodes/Rules.antt =====
-- config/checks.go: the rules of `validateDeploys` for one node, and the loops that test them.
use gauntlet.Config.Checks.{DeployNode, is_none}
use gauntlet.Config.Checks.Nodes.{edges_fault, deploy_names, check_deploy_names, check_deploys}
use gauntlet.Prelude.{
  Fresh-nil, Fresh, Fresh-cons, All, Unrepeated, contains, str_eq, String, List, [], ◌∷◌, none,
  some, true, false, refl, ◌≡◌, arith, ◌↔◌,
}
use text.Mathlib.Text.{starts_with}

-- What the rules ask of one node among the declared names, but for its edges.
pub record IsNamed (d : DeployNode) : Type 0 where
  pub named : str_eq d.name "" ≡ false
  pub no_image : starts_with d.name "image:" ≡ false
  pub no_receipt : starts_with d.name "receipt:" ≡ false

-- The edges of a node name other nodes, each once.
pub record HasEdges (names : List String) (name : String) (after : List String) : Type 0 where
  pub others : All (λ a. str_eq a name ≡ false) after
  pub known : All (λ a. contains names a ≡ true) after
  pub unrepeated : Unrepeated after

edges_fault-none :
    (name : String) (known seen after : List String)
    → edges_fault (some name) known seen after ≡ none
    → All (λ a. str_eq a name ≡ false) after
      × (All (λ a. contains known a ≡ true) after × Fresh seen after)
unfolding edges_fault
edges_fault-none name known seen [] h = (tt, (tt, (tt, tt)))
edges_fault-none name known seen (a ∷ as') h =
    let here : (str_eq a name ≡ false)
        × ((contains known a ≡ true)
            × ((contains seen a ≡ false) × (edges_fault (some name) known (a ∷ seen) as' ≡ none))) =
      ground (arith, h) in
    let (others, (known', fresh)) = edges_fault-none name known (a ∷ seen) as' here.1.1.1 in
    ((here.0, others), ((here.1.0, known'), (Fresh-cons seen a as').1 (here.1.1.0, fresh)))

none-edges_fault :
    (name : String) (known seen after : List String)
    → All (λ a. str_eq a name ≡ false) after
    → All (λ a. contains known a ≡ true) after
    → Fresh seen after
    → edges_fault (some name) known seen after ≡ none
unfolding edges_fault
none-edges_fault name known seen [] o k f = refl
none-edges_fault name known seen (a ∷ as') o k f =
    let (new, fresh) = (Fresh-cons seen a as').0 f in
    ground (arith, o.0, k.0, new, none-edges_fault name known (a ∷ seen) as' o.1 k.1 fresh)

-- The loops of `validateDeploys` accept exactly the nodes that keep these rules.
check_deploy_names-none :
    (seen : List String) (ds : List DeployNode)
    → check_deploy_names seen ds ≡ none
    → All IsNamed ds × Fresh seen (deploy_names ds)
unfolding check_deploy_names deploy_names
check_deploy_names-none seen [] h = (tt, (tt, tt))
check_deploy_names-none seen (d ∷ ds) h =
    let here : (contains seen d.name ≡ false) × (check_deploy_names (d.name ∷ seen) ds ≡ none) =
      ground (arith, h) in
    let (named, fresh) = check_deploy_names-none (d.name ∷ seen) ds here.1 in
    (
      (
        record {
          named = ground (arith, h);
          no_image = ground (arith, h);
          no_receipt = ground (arith, h);
        },
        named,
      ),
      (Fresh-cons seen d.name (deploy_names ds)).1 (here.0, fresh),
    )

none-check_deploy_names :
    (seen : List String) (ds : List DeployNode)
    → All IsNamed ds
    → Fresh seen (deploy_names ds)
    → check_deploy_names seen ds ≡ none
unfolding check_deploy_names deploy_names
none-check_deploy_names seen [] n f = refl
none-check_deploy_names seen (d ∷ ds) n f =
    let (new, fresh) = (Fresh-cons seen d.name (deploy_names ds)).0 f in
    ground (
      arith,
      n.0.named,
      n.0.no_image,
      n.0.no_receipt,
      new,
      none-check_deploy_names (d.name ∷ seen) ds n.1 fresh,
    )

pub check_deploy_names_accepts :
    (ds : List DeployNode)
    → (check_deploy_names [] ds ≡ none) ↔ (All IsNamed ds × Unrepeated (deploy_names ds))
check_deploy_names_accepts ds = (
  λ h. let (n, f) = check_deploy_names-none [] ds h in (n, f.1),
  λ p. none-check_deploy_names [] ds p.0 (Fresh-nil (deploy_names ds) p.1),
)

abbrev pub IsRunnable : List String → DeployNode → Type 0
IsRunnable names d = (is_none d.command ≡ false) × HasEdges names d.name d.after

pub check_deploys_accepts :
    (names : List String) (ds : List DeployNode)
    → (check_deploys names ds ≡ none) ↔ All (IsRunnable names) ds
unfolding check_deploys
check_deploys_accepts names ds = (accepted ds, accepting ds)
  where
    accepted : (l : List DeployNode) → check_deploys names l ≡ none → All (IsRunnable names) l
    accepted [] h = tt
    accepted (d ∷ l) h =
        let e : edges_fault (some d.name) names [] d.after ≡ none = ground (arith, h) in
        let (others, (known, fresh)) = edges_fault-none d.name names [] d.after e in
        (
          (ground (arith, h), record { others = others; known = known; unrepeated = fresh.1 }),
          accepted l (ground (arith, h)),
        )

    accepting : (l : List DeployNode) → All (IsRunnable names) l → check_deploys names l ≡ none
    accepting [] a = refl
    accepting (d ∷ l) a = ground (
      arith,
      a.0.0,
      none-edges_fault d.name names [] d.after a.0.1.others a.0.1.known
          (Fresh-nil d.after a.0.1.unrepeated),
      accepting l a.1,
    )
