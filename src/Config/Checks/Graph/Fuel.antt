-- ===== src/Config/Checks/Graph/Fuel.antt =====
-- config/checks.go: the search ends within as many nested calls as there are declared names.
use gauntlet.Config.Checks.Graph.{
  Colour, gray, black, Colours, Walk, walked, out_of_fuel, visit_deps, edges_of, visit, visit_all,
}
use gauntlet.Config.Checks.Graph.Search.{Walk-cases, visit_deps_inv, visit_inv}
use gauntlet.Prelude.{
  length, lookup, insert, lookup-insert, contains, str_eq, eq_iff, Map, String, ℕ, zero, suc, List,
  [], ◌∷◌, none, some, true, inl, inr, All, ◌≡◌, ◌≢◌, ◌≤◌, sym, ap, subst, arith, Bool-cases,
  Option-cases,
}

-- The declared names that have no colour.
whites : Colours → List String → ℕ
whites c [] = 0
whites c (k ∷ ks) = elim (lookup k c) [ none ↦ suc (whites c ks) | some _ ↦ whites c ks ]

-- Colours that are given are not taken back.
abbrev Paints : Colours → Colours → Type 0
Paints c c' = (k : String) → lookup k c' ≡ none → lookup k c ≡ none

whites_le : (c c' : Colours) (ks : List String) → Paints c c' → whites c' ks ≤ whites c ks
unfolding whites
whites_le c c' [] p = omega arith
whites_le c c' (k ∷ ks) p = ground (arith, whites_le c c' ks p, p k)

insert-Paints : (k : String) (v : Colour) (c : Colours) → Paints c (insert k v c)
insert-Paints k v c j h = ground (arith, h, lookup-insert k j v c)

whites-insert :
    (k : String) (v : Colour) (c : Colours) (ks : List String)
    → lookup k c ≡ none
    → contains ks k ≡ true
    → suc (whites (insert k v c) ks) ≤ whites c ks
unfolding whites
whites-insert k v c [] w m = cc m
whites-insert k v c (j ∷ js) w m = elim (Bool-cases (str_eq j k)) [
  | inl e ↦ ground (
    arith,
    whites_le c (insert k v c) js (insert-Paints k v c),
    lookup-insert k j v c,
    ap (λ x. lookup x c) ((eq_iff j k).0 e),
    w,
    eq_iff k j,
    eq_iff j k,
    e,
  )
  | inr e ↦
      ground (arith, whites-insert k v c js w, m, e, lookup-insert k j v c, eq_iff k j, eq_iff j k)
]

module _ (edges : Map (List String)) (names : List String)
    (closed : (k : String) → All (λ d. contains names d ≡ true) (edges_of edges k)) where
  -- Called on a white declared name with more fuel than there are white names, `go` ends.
  record Ends (fuel : ℕ) (go : String → Colours → Walk) : Type 0 where
    ends :
        (k : String) (c : Colours)
        → lookup k c ≡ none
        → contains names k ≡ true
        → whites c names ≤ fuel
        → go k c ≢ out_of_fuel
    paints : (k : String) (c c' : Colours) → lookup k c ≡ none → go k c ≡ walked c' → Paints c c'

  visit_deps-Paints :
      (fuel : ℕ) (go : String → Colours → Walk) (name : String) (ds : List String) (c c' : Colours)
      → Ends fuel go
      → visit_deps go name ds c ≡ walked c'
      → Paints c c'
  unfolding visit_deps
  visit_deps-Paints fuel go name [] c c' e h = subst (Paints c) (ground (arith, h)) (λ k w. w)
  visit_deps-Paints fuel go name (d ∷ ds) c c' e h =
      let (c1, first, rest) = visit_deps_inv go name d ds c c' h in
      let later = visit_deps-Paints fuel go name ds c1 c' e rest in
      elim first [
        | inl (b, q) ↦ subst (λ x. Paints x c') (sym q) later
        | inr (w, q) ↦ λ k n. e.paints d c c1 w q k (later k n)
      ]

  visit_deps-Ends :
      (fuel : ℕ) (go : String → Colours → Walk) (name : String) (ds : List String) (c : Colours)
      → Ends fuel go
      → whites c names ≤ fuel
      → All (λ d. contains names d ≡ true) ds
      → visit_deps go name ds c ≢ out_of_fuel
  unfolding visit_deps
  visit_deps-Ends fuel go name [] c e few known h = cc h
  visit_deps-Ends fuel go name (d ∷ ds) c e few known h = elim (Option-cases (lookup d c)) [
    | inr (gray, q) ↦ cc (rw (q, visit_deps) at h)
    | inr (black, q) ↦ visit_deps-Ends fuel go name ds c e few known.1 (rw (q, visit_deps) at h)
    | inl q ↦ elim (Walk-cases (go d c)) [
      | inl (c1, w) ↦
          visit_deps-Ends fuel go name ds c1 e
            (omega (arith, few, whites_le c c1 names (e.paints d c c1 q w))) known.1
            (rw (q, w, visit_deps) at h)
      | inr (inl (a, b, w)) ↦ cc (rw (q, w, visit_deps) at h)
      | inr (inr w) ↦ e.ends d c q known.0 few w
    ]
  ]

  visit-suc-Paints :
      (fuel : ℕ) (k : String) (c c' : Colours)
      → Ends fuel (visit edges fuel)
      → visit edges (suc fuel) k c ≡ walked c'
      → Paints c c'
  visit-suc-Paints fuel k c c' e h =
      let (c1, w, q) = visit_inv edges fuel k c c' h in
      let deps =
        visit_deps-Paints fuel (visit edges fuel) k (edges_of edges k) (insert k gray c) c1 e w in
      λ j n.
        insert-Paints k gray c j
          (deps j (insert-Paints k black c1 j (subst (λ x. lookup j x ≡ none) (sym q) n)))

  visit-suc-Ends :
      (fuel : ℕ) (k : String) (c : Colours)
      → Ends fuel (visit edges fuel)
      → lookup k c ≡ none
      → contains names k ≡ true
      → whites c names ≤ suc fuel
      → visit edges (suc fuel) k c ≢ out_of_fuel
  unfolding visit
  visit-suc-Ends fuel k c e w m few h =
      let inner = visit_deps (visit edges fuel) k (edges_of edges k) (insert k gray c) in
      elim (Walk-cases inner) [
        | inl (c1, q) ↦ cc (rw (q, visit) at h)
        | inr (inl (a, b, q)) ↦ cc (rw (q, visit) at h)
        | inr (inr q) ↦
            visit_deps-Ends fuel (visit edges fuel) k (edges_of edges k) (insert k gray c) e
              (omega (arith, few, whites-insert k gray c names w m)) (closed k) q
      ]

  visit-Ends : (fuel : ℕ) → Ends fuel (visit edges fuel)
  unfolding visit
  visit-Ends zero = record {
    ends = λ k c w m few e. omega (arith, few, whites-insert k gray c names w m);
    paints = λ k c c' w h. cc h;
  }
  visit-Ends (suc fuel) = record {
    ends = λ k c w m few. visit-suc-Ends fuel k c (visit-Ends fuel) w m few;
    paints = λ k c c' w h. visit-suc-Paints fuel k c c' (visit-Ends fuel) h;
  }

  whites_le_length : (c : Colours) (ks : List String) → whites c ks ≤ length ks
  unfolding whites
  whites_le_length c [] = omega arith
  whites_le_length c (k ∷ ks) = ground (arith, whites_le_length c ks)

  -- Fuel for as many nested calls as there are declared names is enough.
  pub visit_all_ends :
      (ks : List String) (c : Colours)
      → All (λ k. contains names k ≡ true) ks
      → visit_all edges (length names) ks c ≢ out_of_fuel
  unfolding visit_all
  visit_all_ends [] c m h = cc h
  visit_all_ends (k ∷ ks) c m h = elim (Option-cases (lookup k c)) [
    | inr (v, q) ↦ visit_all_ends ks c m.1 (rw (q, visit_all) at h)
    | inl q ↦ elim (Walk-cases (visit edges (length names) k c)) [
      | inl (c1, w) ↦ visit_all_ends ks c1 m.1 (rw (q, w, visit_all) at h)
      | inr (inl (a, b, w)) ↦ cc (rw (q, w, visit_all) at h)
      | inr (inr w) ↦ (visit-Ends (length names)).ends k c q m.0 (whites_le_length c names) w
    ]
  ]
