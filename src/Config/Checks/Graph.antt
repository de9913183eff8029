-- ===== src/Config/Checks/Graph.antt =====
-- internal/config/checks.go: the search for a dependency cycle, which `validateAcyclic` and
-- `validateDeployAcyclic` run over the nodes in declaration order. The stack of `visit` is fuel.
pub mod Search
pub mod Fuel
pub mod Exact
use gauntlet.Prelude.{suc, zero, lookup, insert, Map, String, Option, ℕ, List, [], ◌∷◌, none, some}

-- White, an unvisited name, is a name without a colour.
pub data Colour : Type 0 where
  gray black : Colour

abbrev pub Colours : Type 0
Colours = Map Colour

pub data Walk : Type 0 where
  walked : Colours → Walk
  cycle : String → String → Walk
  out_of_fuel : Walk

-- The loop over a node's edges; `go` is `visit`.
unfoldable pub visit_deps : (String → Colours → Walk) → String → List String → Colours → Walk
visit_deps go name [] c = walked c
visit_deps go name (dep ∷ deps) c = elim (lookup dep c) [
  | some gray ↦ cycle name dep
  | some black ↦ visit_deps go name deps c
  | none ↦ elim (go dep c) [
    | walked c' ↦ visit_deps go name deps c'
    | cycle a b ↦ cycle a b
    | out_of_fuel ↦ out_of_fuel
  ]
]

-- `edges[name]`, nil if it is missing.
abbrev pub edges_of : Map (List String) → String → List String
edges_of edges name = elim (lookup name edges) [ none ↦ [] | some after ↦ after ]

unfoldable pub visit : Map (List String) → ℕ → String → Colours → Walk
visit edges zero name c = out_of_fuel
visit edges (suc fuel) name c =
    elim (visit_deps (visit edges fuel) name (edges_of edges name) (insert name gray c)) [
      | walked c' ↦ walked (insert name black c')
      | cycle a b ↦ cycle a b
      | out_of_fuel ↦ out_of_fuel
    ]

-- The loop over the declared nodes.
unfoldable pub visit_all : Map (List String) → ℕ → List String → Colours → Walk
visit_all edges fuel [] c = walked c
visit_all edges fuel (name ∷ names) c = elim (lookup name c) [
  | some _ ↦ visit_all edges fuel names c
  | none ↦ elim (visit edges fuel name c) [
    | walked c' ↦ visit_all edges fuel names c'
    | cycle a b ↦ cycle a b
    | out_of_fuel ↦ out_of_fuel
  ]
]
