-- ===== src/Config/Checks/Nodes/Ranks.antt =====
-- config/checks.go: a graph on which the search for a cycle finishes has a rank that falls along
-- every edge.
use gauntlet.Config.Checks.Graph.{edges_of}
use gauntlet.Config.Checks.Graph.Search.{all_of, depth_below, depth_below_monotone}
use gauntlet.Prelude.{
  All-map, Map, String, Bool, ℕ, zero, suc, ◌+◌, ◌<◌, List, [], ◌∷◌, true, false, refl, ◌≡◌, All,
  max, if◌then◌else◌, arith,
}

-- How many of the depths below a bound are too small for a name.
unfoldable pub misses : Map (List String) → ℕ → String → ℕ
misses edges zero k = 0
misses edges (suc n) k = (if depth_below edges n k then 0 else 1) + misses edges n k

all_of-All :
    (test : String → Bool) (ks : List String) → all_of test ks ≡ true → All (λ k. test k ≡ true) ks
unfolding all_of
all_of-All test [] h = tt
all_of-All test (k ∷ ks) h = (ground (arith, h), all_of-All test ks (ground (arith, h)))

module _ (edges : Map (List String)) where
  depth_below-zero : (k : String) → depth_below edges 0 k ≡ false
  unfolding depth_below
  depth_below-zero k = refl

  misses-falls :
      (k d : String)
      → ((n : ℕ) → depth_below edges (suc n) k ≡ true → depth_below edges n d ≡ true)
      → (n : ℕ) → misses edges n d < misses edges (suc n) k
  unfolding misses
  misses-falls k d below zero = ground (arith, depth_below-zero k)
  misses-falls k d below (suc n) = ground (arith, below n, misses-falls k d below n)

  depth_below-edge :
      (n : ℕ) (k : String)
      → depth_below edges (suc n) k ≡ true
      → All (λ d. depth_below edges n d ≡ true) (edges_of edges k)
  unfolding depth_below
  depth_below-edge n k h = all_of-All (depth_below edges n) (edges_of edges k) h

  -- A depth that bounds every name of a list.
  common :
      (ks : List String)
      → All (λ k. (n : ℕ) × (depth_below edges n k ≡ true)) ks
      → (n : ℕ) × All (λ k. depth_below edges n k ≡ true) ks
  common [] a = (0, tt)
  common (k ∷ ks) a =
      let (n, b) = common ks a.1 in
      let m = a.0.0 in
      (
        max m n,
        (
          depth_below_monotone edges m (max m n) k (omega arith) a.0.1,
          All-map (λ j e. depth_below_monotone edges n (max m n) j (omega arith) e) ks b,
        ),
      )

  each_edge :
      (k : String) (ds : List String)
      → ((n : ℕ) → depth_below edges (suc n) k ≡ true → All (λ d. depth_below edges n d ≡ true) ds)
      → All (λ d. (n : ℕ) → depth_below edges (suc n) k ≡ true → depth_below edges n d ≡ true) ds
  each_edge k [] h = tt
  each_edge k (d ∷ ds) h = (λ n e. (h n e).0, each_edge k ds (λ n e. (h n e).1))

  falls_at :
      (n : ℕ) (k : String)
      → depth_below edges n k ≡ true
      → All (λ d. misses edges n d < misses edges n k) (edges_of edges k)
  unfolding misses
  falls_at zero k h = ground (arith, h, depth_below-zero k)
  falls_at (suc n) k h =
      All-map (λ d below. ground (arith, below n h, misses-falls k d below n)) (edges_of edges k)
        (each_edge k (edges_of edges k) (λ m e. depth_below-edge m k e))

  -- Where every declared name has a bounded depth, some rank falls along every edge.
  pub ranked :
      (ks : List String)
      → All (λ k. (n : ℕ) × (depth_below edges n k ≡ true)) ks
      → (rank : String → ℕ) × All (λ k. All (λ d. rank d < rank k) (edges_of edges k)) ks
  ranked ks a = let (n, b) = common ks a in (misses edges n, All-map (λ k e. falls_at n k e) ks b)
