-- ===== src/Config/Checks/Select/Pulls.antt =====
-- config/checks.go: the names that `SelectDeployNodes` pulls are the least set that holds the
-- requested names and all that they need.
use gauntlet.Config.Checks.{DeployNode}
use gauntlet.Config.Checks.Select.{node_named}
use gauntlet.Prelude.{
  subst, some_inj, All, All-map, contains, String, Bool, List, [], ◌∷◌, some, true, false, ◌≡◌, inl,
  inr, Bool-cases, arith, str_eq, eq_iff, ap, sym, ◌∙◌,
}

-- The nodes that a set of names needs are in it.
abbrev pub IsClosed : List DeployNode → (String → Bool) → Type 0
IsClosed ds holds =
    (k : String) (d : DeployNode)
    → holds k ≡ true
    → node_named k ds ≡ some d
    → All (λ a. holds a ≡ true) d.after

-- From the set `wanted`, the names of a list were pulled into the set `got`.
pub record Pulls (ds : List DeployNode) (names wanted got : List String) : Type 0 where
  pub keeps : (k : String) → contains wanted k ≡ true → contains got k ≡ true
  pub takes : All (λ a. contains got a ≡ true) names
  pub closed :
      (k : String) (d : DeployNode)
      → contains got k ≡ true
      → contains wanted k ≡ false
      → node_named k ds ≡ some d
      → All (λ a. contains got a ≡ true) d.after
  pub least :
      (holds : String → Bool)
      → IsClosed ds holds
      → All (λ a. holds a ≡ true) names
      → ((k : String) → contains wanted k ≡ true → holds k ≡ true)
      → (k : String) → contains got k ≡ true
      → holds k ≡ true

module _ (ds : List DeployNode) where
  pub Pulls-nil : (wanted : List String) → Pulls ds [] wanted wanted
  Pulls-nil wanted = record {
    keeps = λ k h. h;
    takes = tt;
    closed = λ k d a b e. cc (a, b);
    least = λ holds c n w. w;
  }

  pub Pulls-cons :
      (name : String) (names wanted mid got : List String)
      → Pulls ds (name ∷ []) wanted mid
      → Pulls ds names mid got
      → Pulls ds (name ∷ names) wanted got
  Pulls-cons name names wanted mid got p q = record {
    keeps = λ k h. q.keeps k (p.keeps k h);
    takes = (q.keeps name p.takes.0, q.takes);
    closed = λ k d a b e. elim (Bool-cases (contains mid k)) [
      | inl m ↦ All-map (λ x. q.keeps x) d.after (p.closed k d m b e)
      | inr n ↦ q.closed k d a n e
    ];
    least = λ holds c n w. q.least holds c n.1 (p.least holds c (n.0, tt) w);
  }

  -- A name that is there already.
  pub Pulls-old :
      (name : String) (wanted : List String)
      → contains wanted name ≡ true
      → Pulls ds (name ∷ []) wanted wanted
  Pulls-old name wanted m = record {
    keeps = λ k h. h;
    takes = (m, tt);
    closed = λ k d a b e. cc (a, b);
    least = λ holds c n w. w;
  }

  -- A new name, behind which its node's edges are pulled.
  pub Pulls-new :
      (name : String) (node : DeployNode) (wanted got : List String)
      → node_named name ds ≡ some node
      → Pulls ds node.after (name ∷ wanted) got
      → Pulls ds (name ∷ []) wanted got
  Pulls-new name node wanted got at p = record {
    keeps = λ k h. p.keeps k (ground (arith, h));
    takes = (p.keeps name (ground (arith, eq_iff name name)), tt);
    closed = λ k d a b e. elim (Bool-cases (str_eq name k)) [
      | inl s ↦
          let same : node ≡ d =
            some_inj (sym at ∙ (ap (λ x. node_named x ds) ((eq_iff name k).0 s) ∙ e)) in
          subst (λ x. All (λ y. contains got y ≡ true) x) (ap (λ x. x.after) same) p.takes
      | inr n ↦ p.closed k d a (ground (arith, b, n)) e
    ];
    least = λ holds c n w. p.least holds c (c name node n.0 at) (λ k m.
        elim (Bool-cases (str_eq name k)) [
          | inl s ↦ subst (λ x. holds x ≡ true) ((eq_iff name k).0 s) n.0
          | inr n' ↦ w k (ground (arith, m, n'))
        ]);
  }
