-- ===== src/Config/Checks/Graph/Exact.antt =====
-- config/checks.go: a search that ends has found a cycle, or shown that there is none.
use gauntlet.Config.Checks.Graph.{
  gray, black, Colours, Walk, walked, cycle, visit_deps, edges_of, visit, visit_all,
}
use gauntlet.Config.Checks.Graph.Search.{depth_below, Grounded, Grows, visit-Goes, Walk-cases}
use gauntlet.Prelude.{
  lookup, insert, lookup-insert, str_eq, eq_iff, Map, String, ℕ, zero, suc, List, [], ◌∷◌, none,
  some, true, inl, inr, All, ◌≡◌, ◌≢◌, ◌≤◌, ◌<◌, ap, subst, arith, Bool-cases, Option-cases,
}

module _ (edges : Map (List String)) where
  -- Between the visits of the declared names no name is grey.
  abbrev NoGray : Colours → Type 0
  NoGray c = (k : String) → lookup k c ≢ some gray

  visit_all-Grounded :
      (fuel : ℕ) (ks : List String) (c c' : Colours)
      → NoGray c
      → Grounded edges c
      → visit_all edges fuel ks c ≡ walked c'
      → Grounded edges c' × Grows edges c c' × All (λ k. lookup k c' ≡ some black) ks
  unfolding visit_all
  visit_all-Grounded fuel [] c c' n v h =
      let q : c ≡ c' = ground (arith, h) in
      (
        subst (Grounded edges) q v,
        subst (Grows edges c) q (record { blacks = λ k b. b; grays = λ k b. b }),
        tt,
      )
  visit_all-Grounded fuel (k ∷ ks) c c' n v h = elim (Option-cases (lookup k c)) [
    | inr (gray, q) ↦ absurd (n k q)
    | inr (black, q) ↦
        let (x, y, z) = visit_all-Grounded fuel ks c c' n v (rw (q, visit_all) at h) in
        (x, y, (y.blacks k q, z))
    | inl q ↦ elim (Walk-cases (visit edges fuel k c)) [
      | inl (c1, w) ↦
          let (ground1, grows1, b) = visit-Goes edges fuel k c c1 q w in
          let (x, y, z) =
            visit_all-Grounded fuel ks c1 c' (λ j g. n j (grows1.grays j g)) (ground1 v)
              (rw (q, w, visit_all) at h) in
          (
            x,
            record {
              blacks = λ j e. y.blacks j (grows1.blacks j e);
              grays = λ j e. grows1.grays j (y.grays j e);
            },
            (y.blacks k b, z),
          )
      | inr (inl (a, b, w)) ↦ cc (rw (q, w, visit_all) at h)
      | inr (inr w) ↦ cc (rw (q, w, visit_all) at h)
    ]
  ]

  -- A search that finishes has shown that no cycle can be reached from a declared name.
  pub visit_all_sound :
      (fuel : ℕ) (ks : List String) (c : Colours)
      → visit_all edges fuel ks [] ≡ walked c
      → All (λ k. (n : ℕ) × (depth_below edges n k ≡ true)) ks
  unfolding lookup
  visit_all_sound fuel ks c h =
      let (v, _, blacks) = visit_all-Grounded fuel ks [] c (λ k g. cc g) (λ k b. cc b) h in
      bounded v ks blacks
    where
      bounded :
          Grounded edges c
          → (l : List String) → All (λ k. lookup k c ≡ some black) l
          → All (λ k. (n : ℕ) × (depth_below edges n k ≡ true)) l
      bounded v [] a = tt
      bounded v (x ∷ xs) a = (v x a.0, bounded v xs a.1)

  module _ (rank : String → ℕ)
      (falls : (k : String) → All (λ d. rank d < rank k) (edges_of edges k)) where
    -- Every grey name lies above the one that is visited.
    abbrev Above : ℕ → Colours → Type 0
    Above r c = (k : String) → lookup k c ≡ some gray → r ≤ rank k

    abbrev NeverCycles : (String → Colours → Walk) → Type 0
    NeverCycles go =
        (k : String) (c : Colours) (a b : String)
        → Above (suc (rank k)) c
        → lookup k c ≡ none
        → go k c ≢ cycle a b

    visit_deps-NeverCycles :
        (fuel : ℕ) (name : String) (ds : List String) (c : Colours) (a b : String)
        → NeverCycles (visit edges fuel)
        → All (λ d. rank d < rank name) ds
        → Above (rank name) c
        → visit_deps (visit edges fuel) name ds c ≢ cycle a b
    unfolding visit_deps
    visit_deps-NeverCycles fuel name [] c a b g low up h = cc h
    visit_deps-NeverCycles fuel name (d ∷ ds) c a b g low up h = elim (Option-cases (lookup d c)) [
      | inr (gray, q) ↦ omega (arith, low.0, up d q)
      | inr (black, q) ↦
          visit_deps-NeverCycles fuel name ds c a b g low.1 up (rw (q, visit_deps) at h)
      | inl q ↦ elim (Walk-cases (visit edges fuel d c)) [
        | inl (c1, w) ↦
            let (_, grows, _) = visit-Goes edges fuel d c c1 q w in
            visit_deps-NeverCycles fuel name ds c1 a b g low.1 (λ k e. up k (grows.grays k e))
              (rw (q, w, visit_deps) at h)
        | inr (inl (x, y, w)) ↦ g d c x y (λ k e. omega (arith, low.0, up k e)) q w
        | inr (inr w) ↦ cc (rw (q, w, visit_deps) at h)
      ]
    ]

    visit-NeverCycles : (fuel : ℕ) → NeverCycles (visit edges fuel)
    unfolding visit
    visit-NeverCycles zero k c a b up w h = cc h
    visit-NeverCycles (suc fuel) k c a b up w h =
        let inner = visit_deps (visit edges fuel) k (edges_of edges k) (insert k gray c) in
        elim (Walk-cases inner) [
          | inl (c1, q) ↦ cc (rw (q, visit) at h)
          | inr (inr q) ↦ cc (rw (q, visit) at h)
          | inr (inl (x, y, q)) ↦
              visit_deps-NeverCycles fuel k (edges_of edges k) (insert k gray c) x y
                (visit-NeverCycles fuel) (falls k)
                (λ j e. elim (Bool-cases (str_eq k j)) [
                  | inl s ↦ omega (arith, ap rank ((eq_iff k j).0 s))
                  | inr s ↦ omega (arith, up j (ground (arith, e, s, lookup-insert k j gray c)))
                ])
                q
        ]

    -- On a graph whose edges go down in some rank the search reports no cycle.
    pub visit_all-ne-cycle :
        (fuel : ℕ) (ks : List String) (c : Colours) (a b : String)
        → ((k : String) → lookup k c ≢ some gray)
        → visit_all edges fuel ks c ≢ cycle a b
    unfolding visit_all
    visit_all-ne-cycle fuel [] c a b n h = cc h
    visit_all-ne-cycle fuel (k ∷ ks) c a b n h = elim (Option-cases (lookup k c)) [
      | inr (v, q) ↦ visit_all-ne-cycle fuel ks c a b n (rw (q, visit_all) at h)
      | inl q ↦ elim (Walk-cases (visit edges fuel k c)) [
        | inl (c1, w) ↦
            let (_, grows, _) = visit-Goes edges fuel k c c1 q w in
            visit_all-ne-cycle fuel ks c1 a b (λ j g. n j (grows.grays j g))
              (rw (q, w, visit_all) at h)
        | inr (inl (x, y, w)) ↦ visit-NeverCycles fuel k c x y (λ j g. absurd (n j g)) q w
        | inr (inr w) ↦ cc (rw (q, w, visit_all) at h)
      ]
    ]
