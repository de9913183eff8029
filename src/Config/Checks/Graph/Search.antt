-- ===== src/Config/Checks/Graph/Search.antt =====
-- config/checks.go: what a finished search has shown of the graph, and that it finishes.
use gauntlet.Config.Checks.Graph.{
  gray, black, Colours, Walk, walked, cycle, out_of_fuel, visit_deps, edges_of, visit,
}
use gauntlet.Prelude.{
  ==_iff, ◌==◌, lookup, insert, lookup-insert, str_eq, str_eq_refl, eq_iff, Map, String, Bool, ◌&&◌,
  ℕ, zero, suc, List, [], ◌∷◌, none, some, true, false, refl, inl, inr, All, ◌≡◌, ◌≤◌, max, ◌⊎◌, ap,
  subst, arith, Bool-cases, Option-cases,
}

unfoldable pub all_of : (String → Bool) → List String → Bool
all_of test [] = true
all_of test (k ∷ ks) = test k && all_of test ks

-- Every path of edges from a name is shorter than a number: no cycle can be reached.
unfoldable pub depth_below : Map (List String) → ℕ → String → Bool
depth_below edges zero name = false
depth_below edges (suc n) name = all_of (depth_below edges n) (edges_of edges name)

all_of_weaken :
    (p q : String → Bool) (ks : List String)
    → ((k : String) → p k ≡ true → q k ≡ true)
    → all_of p ks ≡ true
    → all_of q ks ≡ true
unfolding all_of
all_of_weaken p q [] w h = refl
all_of_weaken p q (k ∷ ks) w h = ground (arith, h, w k, all_of_weaken p q ks w)

depth_below-suc :
    (edges : Map (List String)) (n : ℕ) (name : String)
    → depth_below edges n name ≡ true
    → depth_below edges (suc n) name ≡ true
unfolding depth_below
depth_below-suc edges zero name h = cc
depth_below-suc edges (suc n) name h =
    all_of_weaken (depth_below edges n) (depth_below edges (suc n)) (edges_of edges name)
      (λ k. depth_below-suc edges n k) h

pub depth_below_monotone :
    (edges : Map (List String)) (n m : ℕ) (name : String)
    → n ≤ m
    → depth_below edges n name ≡ true
    → depth_below edges m name ≡ true
depth_below_monotone edges n zero name le h =
    subst (λ k. depth_below edges k name ≡ true) (omega (arith, le)) h
depth_below_monotone edges n (suc m) name le h = elim (Bool-cases (n == suc m)) [
  | inl e ↦ subst (λ k. depth_below edges k name ≡ true) ((==_iff n (suc m)).0 e) h
  | inr e ↦
      depth_below-suc edges m name (depth_below_monotone edges n m name (ground (arith, e, le)) h)
]

pub Walk-cases :
    (w : Walk)
    → ((c : Colours) × (w ≡ walked c))
      ⊎ (((a : String) × (b : String) × (w ≡ cycle a b)) ⊎ (w ≡ out_of_fuel))
Walk-cases (walked c) = inl (c, refl)
Walk-cases (cycle a b) = inr (inl (a, b, refl))
Walk-cases out_of_fuel = inr (inr refl)

-- The first edge of a loop that finishes: it leads to a black name, or is visited.
pub visit_deps_inv :
    (go : String → Colours → Walk) (name d : String) (ds : List String) (c c' : Colours)
    → visit_deps go name (d ∷ ds) c ≡ walked c'
    → (c1 : Colours) × (((lookup d c ≡ some black) × (c ≡ c1))
        ⊎ ((lookup d c ≡ none) × (go d c ≡ walked c1)))
      × (visit_deps go name ds c1 ≡ walked c')
unfolding visit_deps
visit_deps_inv go name d ds c c' h = elim (Option-cases (lookup d c)) [
  | inr (gray, q) ↦ cc (rw (q, visit_deps) at h)
  | inr (black, q) ↦ (c, inl (q, refl), rw (q, visit_deps) at h)
  | inl q ↦ elim (Walk-cases (go d c)) [
    | inl (c1, e) ↦ (c1, inr (q, e), rw (q, e, visit_deps) at h)
    | inr (inl (a, b, e)) ↦ cc (rw (q, e, visit_deps) at h)
    | inr (inr e) ↦ cc (rw (q, e, visit_deps) at h)
  ]
]

pub visit_inv :
    (edges : Map (List String)) (fuel : ℕ) (name : String) (c c' : Colours)
    → visit edges (suc fuel) name c ≡ walked c'
    → (c1 : Colours) × (visit_deps
          (visit edges fuel)
          name
          (edges_of edges name)
          (insert name gray c)
        ≡ walked c1)
      × (insert name black c1 ≡ c')
unfolding visit
visit_inv edges fuel name c c' h =
    elim (Walk-cases
      (visit_deps (visit edges fuel) name (edges_of edges name) (insert name gray c))) [
        | inl (c1, e) ↦ (c1, e, walked_inj (rw (e, visit) at h))
        | inr (inl (a, b, e)) ↦ cc (rw (e, visit) at h)
        | inr (inr e) ↦ cc (rw (e, visit) at h)
      ]
  where
    walked_inj : {x y : Colours} → walked x ≡ walked y → x ≡ y
    walked_inj q = cc q

module _ (edges : Map (List String)) where
  -- A black name is off every cycle.
  abbrev pub Grounded : Colours → Type 0
  Grounded c = (k : String) → lookup k c ≡ some black → (n : ℕ) × (depth_below edges n k ≡ true)

  -- A black name stays black, and no name turns grey.
  pub record Grows (c c' : Colours) : Type 0 where
    pub blacks : (k : String) → lookup k c ≡ some black → lookup k c' ≡ some black
    pub grays : (k : String) → lookup k c' ≡ some gray → lookup k c ≡ some gray

  Grows-refl : (c : Colours) → Grows c c
  Grows-refl c = record { blacks = λ k h. h; grays = λ k h. h }

  Grows-trans : {a b c : Colours} → Grows a b → Grows b c → Grows a c
  Grows-trans g h = record {
    blacks = λ k b. h.blacks k (g.blacks k b);
    grays = λ k b. g.grays k (h.grays k b);
  }

  abbrev Goes : (String → Colours → Walk) → Type 0
  Goes go =
      (k : String) (c c' : Colours)
      → lookup k c ≡ none
      → go k c ≡ walked c'
      → (Grounded c → Grounded c') × Grows c c' × (lookup k c' ≡ some black)

  visit_deps-Goes :
      (go : String → Colours → Walk) (name : String) (deps : List String) (c c' : Colours)
      → Goes go
      → visit_deps go name deps c ≡ walked c'
      → (Grounded c → Grounded c') × Grows c c' × All (λ d. lookup d c' ≡ some black) deps
  unfolding visit_deps
  visit_deps-Goes go name [] c c' g h =
      let q : c ≡ c' = ground (arith, h) in (subst Grounded q, subst (Grows c) q (Grows-refl c), tt)
  visit_deps-Goes go name (d ∷ ds) c c' g h =
      let (c1, first, rest) = visit_deps_inv go name d ds c c' h in
      let (x, y, z) = visit_deps-Goes go name ds c1 c' g rest in
      elim first [
        | inl (b, q) ↦ (
          λ v. x (subst Grounded q v),
          Grows-trans (subst (Grows c) q (Grows-refl c)) y,
          (y.blacks d (subst (λ a. lookup d a ≡ some black) q b), z),
        )
        | inr (w, q) ↦
            let (x', y', b) = g d c c1 w q in (λ v. x (x' v), Grows-trans y' y, (y.blacks d b, z))
      ]

  -- Finitely many bounds have a common one.
  bound-All :
      (c : Colours) (ks : List String)
      → Grounded c
      → All (λ d. lookup d c ≡ some black) ks
      → (n : ℕ) × (all_of (depth_below edges n) ks ≡ true)
  unfolding all_of
  bound-All c [] v a = (0, refl)
  bound-All c (k ∷ ks) v a =
      let (n, h) = v k a.0 in
      let (m, t) = bound-All c ks v a.1 in
      (
        max n m,
        ground (
          arith,
          depth_below_monotone edges n (max n m) k (ground arith) h,
          all_of_weaken (depth_below edges m) (depth_below edges (max n m)) ks
              (λ x. depth_below_monotone edges m (max n m) x (ground arith)) t,
        ),
      )

  insert-Grounded :
      (name : String) (c : Colours)
      → ((n : ℕ) × (depth_below edges n name ≡ true))
      → Grounded c
      → Grounded (insert name black c)
  insert-Grounded name c bound v k h = elim (Bool-cases (str_eq name k)) [
    | inl e ↦ subst (λ x. (n : ℕ) × (depth_below edges n x ≡ true)) ((eq_iff name k).0 e) bound
    | inr e ↦ v k (ground (arith, h, e, lookup-insert name k black c))
  ]

  gray-Grounded : (name : String) (c : Colours) → Grounded c → Grounded (insert name gray c)
  gray-Grounded name c v k h = v k (ground (arith, h, lookup-insert name k gray c))

  pub visit-Goes : (fuel : ℕ) → Goes (visit edges fuel)
  unfolding visit depth_below
  visit-Goes zero k c c' w h = cc h
  visit-Goes (suc fuel) k c c' w h =
      let (c1, e, q) = visit_inv edges fuel k c c' h in
      let (x, y, z) =
        visit_deps-Goes (visit edges fuel) k (edges_of edges k) (insert k gray c) c1
          (visit-Goes fuel) e in
      (
        λ v.
            let (n, d) = bound-All c1 (edges_of edges k) (x (gray-Grounded k c v)) z in
            subst Grounded q (insert-Grounded k c1 (suc n, d) (x (gray-Grounded k c v))),
        subst (Grows c) q (record {
          blacks = λ j b. ground (
            arith,
            lookup-insert k j black c1,
            y.blacks j,
            lookup-insert k j gray c,
            b,
            w,
            eq_iff k j,
            ap (λ x. lookup x c),
          );
          grays = λ j b.
              ground (arith, lookup-insert k j black c1, y.grays j, lookup-insert k j gray c, b);
        }),
        subst (λ x. lookup k x ≡ some black) q
            (ground (arith, lookup-insert k k black c1, str_eq_refl k)),
      )
