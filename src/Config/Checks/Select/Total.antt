-- ===== src/Config/Checks/Select/Total.antt =====
-- config/checks.go: on a graph whose edges are declared the pulling ends, within as many nested
-- calls as there are nodes, and fails exactly at a requested name that is not declared.
use gauntlet.Config.Checks.{DeployNode}
use gauntlet.Config.Checks.Nodes.{deploy_names}
use gauntlet.Config.Checks.Select.{pulled, no_such_node, stuck, node_named, pull_each, pull}
use gauntlet.Config.Checks.Select.Pulls.{Pulls, Pulls-nil, Pulls-cons, Pulls-old, Pulls-new}
use gauntlet.Prelude.{
  Option-cases, contains_eq, All, contains, length, String, ℕ, zero, suc, ◌<◌, ◌≤◌, List, [], ◌∷◌,
  none, some, true, false, refl, ◌≡◌, ◌⊎◌, inl, inr, Bool-cases, arith, str_eq, eq_iff,
  if◌then◌else◌, ap, ◌∙◌,
}

-- The declared names that are not wanted yet.
pub unwanted : List String → List String → ℕ
unwanted wanted [] = 0
unwanted wanted (k ∷ ks) =
    if contains wanted k then unwanted wanted ks else suc (unwanted wanted ks)

unwanted_le :
    (wanted got ks : List String)
    → ((k : String) → contains wanted k ≡ true → contains got k ≡ true)
    → unwanted got ks ≤ unwanted wanted ks
unfolding unwanted
unwanted_le wanted got [] h = omega arith
unwanted_le wanted got (k ∷ ks) h = ground (arith, h k, unwanted_le wanted got ks h)

unwanted-cons :
    (name : String) (wanted ks : List String)
    → contains wanted name ≡ false
    → contains ks name ≡ true
    → unwanted (name ∷ wanted) ks < unwanted wanted ks
unfolding unwanted
unwanted-cons name wanted [] n m = cc m
unwanted-cons name wanted (k ∷ ks) n m =
    let le = unwanted_le wanted (name ∷ wanted) ks (λ x h. ground (arith, h)) in
    elim (Bool-cases (str_eq k name)) [
      | inl s ↦
          let here : contains wanted k ≡ false =
            contains_eq wanted k name ((eq_iff k name).0 s) ∙ n in
          ground (arith, le, here, s, eq_iff name k, eq_iff k name)
      | inr f ↦ ground (arith, m, f, unwanted-cons name wanted ks n, eq_iff name k, eq_iff k name)
    ]

pub unwanted_le_length : (wanted ks : List String) → unwanted wanted ks ≤ length ks
unfolding unwanted
unwanted_le_length wanted [] = omega arith
unwanted_le_length wanted (k ∷ ks) = ground (arith, unwanted_le_length wanted ks)

node_named-some :
    (k : String) (l : List DeployNode)
    → contains (deploy_names l) k ≡ true
    → (d : DeployNode) × (node_named k l ≡ some d)
unfolding node_named deploy_names
node_named-some k [] m = cc m
node_named-some k (d ∷ l) m = elim (Option-cases (node_named k l)) [
  | inr (later, q) ↦ (later, ground (arith, q))
  | inl q ↦ elim (Bool-cases (str_eq d.name k)) [
    | inl s ↦ (d, ground (arith, q, s))
    | inr n ↦ let (e, at) = node_named-some k l (ground (arith, m, n)) in (e, ground (arith, at))
  ]
]

pub node_named-none :
    (k : String) (l : List DeployNode) → contains (deploy_names l) k ≡ false → node_named k l ≡ none
unfolding node_named deploy_names
node_named-none k [] m = refl
node_named-none k (d ∷ l) m = ground (arith, m, node_named-none k l)

module _ (ds : List DeployNode)
    (known : (k : String) (d : DeployNode)
      → node_named k ds ≡ some d
      → All (λ a. contains (deploy_names ds) a ≡ true) d.after) where
  -- Called on a declared name, with more fuel than there are unwanted names, `go` pulls it.
  abbrev Does : ℕ → Type 0
  Does fuel =
      (name : String) (wanted : List String)
      → contains (deploy_names ds) name ≡ true
      → unwanted wanted (deploy_names ds) < fuel
      → (got : List String) × ((pull ds fuel name wanted ≡ pulled got)
          × Pulls ds (name ∷ []) wanted got)

  pull_each-Does :
      (fuel : ℕ) (names wanted : List String)
      → Does fuel
      → All (λ a. contains (deploy_names ds) a ≡ true) names
      → unwanted wanted (deploy_names ds) < fuel
      → (got : List String) × ((pull_each (pull ds fuel) names wanted ≡ pulled got)
          × Pulls ds names wanted got)
  unfolding pull_each
  pull_each-Does fuel [] wanted go k lt = (wanted, (refl, Pulls-nil ds wanted))
  pull_each-Does fuel (a ∷ as') wanted go k lt =
      let (mid, (e, p)) = go a wanted k.0 lt in
      let less = unwanted_le wanted mid (deploy_names ds) p.keeps in
      let (got, (f, q)) = pull_each-Does fuel as' mid go k.1 (omega (arith, less, lt)) in
      (got, (ground (arith, e, f), Pulls-cons ds a as' wanted mid got p q))

  pull-Does : (fuel : ℕ) → Does fuel
  unfolding pull
  pull-Does zero name wanted m lt = absurd (omega (arith, lt))
  pull-Does (suc fuel) name wanted m lt = elim (Bool-cases (contains wanted name)) [
    | inl w ↦ (wanted, (ground (arith, w), Pulls-old ds name wanted w))
    | inr n ↦
        let (node, at) = node_named-some name ds m in
        let less = unwanted-cons name wanted (deploy_names ds) n m in
        let (got, (e, p)) =
          pull_each-Does fuel node.after (name ∷ wanted) (pull-Does fuel) (known name node at)
            (omega (arith, less, lt)) in
        (got, (ground (arith, n, at, e), Pulls-new ds name node wanted got at p))
  ]

  -- The requested names: each is pulled, or one of them is not declared.
  abbrev pub Requested : ℕ → List String → List String → Type 0
  Requested fuel names wanted =
      ((got : List String) × ((pull_each (pull ds fuel) names wanted ≡ pulled got)
          × (All (λ a. contains (deploy_names ds) a ≡ true) names × Pulls ds names wanted got)))
      ⊎ ((k : String) × ((pull_each (pull ds fuel) names wanted ≡ no_such_node k)
            × ((contains names k ≡ true) × (contains (deploy_names ds) k ≡ false))))

  pub requested :
      (fuel : ℕ) (names wanted : List String)
      → ((k : String) → contains wanted k ≡ true → contains (deploy_names ds) k ≡ true)
      → unwanted wanted (deploy_names ds) < suc fuel
      → Requested (suc fuel) names wanted
  unfolding pull_each pull
  requested fuel [] wanted inside lt = inl (wanted, (refl, (tt, Pulls-nil ds wanted)))
  requested fuel (a ∷ as') wanted inside lt = elim (Bool-cases (contains (deploy_names ds) a)) [
    | inr n ↦
        let new : contains wanted a ≡ false = ground (arith, inside a, n) in
        inr (a, (ground (arith, new, node_named-none a ds n), (ground (arith, eq_iff a a), n)))
    | inl m ↦
        let (mid, (e, p)) = pull-Does (suc fuel) a wanted m lt in
        let within =
          p.least (contains (deploy_names ds)) (λ k d h at. known k d at) (m, tt) inside in
        let less = unwanted_le wanted mid (deploy_names ds) p.keeps in
        let here : pull_each (pull ds (suc fuel)) (a ∷ as') wanted
            ≡ pull_each (pull ds (suc fuel)) as' mid =
          ap
            (λ x. elim x [
              | pulled w ↦ pull_each (pull ds (suc fuel)) as' w
              | no_such_node n ↦ no_such_node n
              | stuck ↦ stuck
            ])
            e in
        elim (requested fuel as' mid within (omega (arith, less, lt))) [
          | inl (got, (f, (ks, q))) ↦
              inl (got, (here ∙ f, ((m, ks), Pulls-cons ds a as' wanted mid got p q)))
          | inr (k, (f, (r, u))) ↦ inr (k, (here ∙ f, (ground (arith, r), u)))
        ]
  ]
