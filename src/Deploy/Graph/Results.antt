-- ===== src/Deploy/Graph/Results.antt =====
-- deploy/graph.go: what the results map holds. A node starts only when all of its `after` edges are
-- green, and they stay so; the culprit is the first red node in spec order.
use gauntlet.Core.Types.{CheckResult}
use gauntlet.Deploy.Graph.{Node, ready, dep_green}
use gauntlet.Prelude.{
  [], refl, sym, ◌∙◌, ap, inl, eq_iff, inr, lookup-insert, arith, Bool-cases, some_inj, ◌≢◌, insert,
  has, true, str_eq, if◌then◌else◌, some, false, All, none, ◌∷◌, lookup, ◌≡◌, contains, map,
  get_elem?, Map, Unrepeated, String, List, ℕ, zero, suc,
}

-- The spec gate: names are not empty and not repeated.
pub record WellNamed (nodes : List Node) : Type 0 where
  pub unrepeated : Unrepeated (map (λ n. n.name) nodes)
  pub named : All (λ n. str_eq n.name "" ≡ false) nodes

contains_of_get_elem? :
    (nodes : List Node) (i : ℕ) (n : Node)
    → get_elem? nodes i ≡ some n
    → contains (map (λ m. m.name) nodes) n.name ≡ true
contains_of_get_elem? [] i n h = cc
contains_of_get_elem? (m ∷ ms) zero n h =
    ground (arith, eq_iff m.name n.name, ap (λ x. x.name) (some_inj h))
contains_of_get_elem? (m ∷ ms) (suc i) n h = ground (arith, contains_of_get_elem? ms i n h)

-- Two positions with one name are one position.
pub names_differ :
    (nodes : List Node) (i j : ℕ) (n m : Node)
    → Unrepeated (map (λ n. n.name) nodes)
    → get_elem? nodes i ≡ some n
    → get_elem? nodes j ≡ some m
    → i ≢ j
    → str_eq n.name m.name ≡ false
names_differ [] i j n m u p q h = cc
names_differ (x ∷ xs) zero zero n m u p q h = absurd (h refl)
names_differ (x ∷ xs) zero (suc j) n m u p q h = elim (Bool-cases (str_eq n.name m.name)) [
  | inr e ↦ e
  | inl e ↦
      let same : n.name ≡ m.name = (eq_iff n.name m.name).0 e in
      let first : x.name ≡ n.name = ap (λ y. y.name) (some_inj p) in
      ground (
        arith,
        u.0,
        contains_of_get_elem? xs j m q,
        ap (contains (map (λ y. y.name) xs)) (first ∙ same),
      )
]
names_differ (x ∷ xs) (suc i) zero n m u p q h = elim (Bool-cases (str_eq n.name m.name)) [
  | inr e ↦ e
  | inl e ↦
      let same : n.name ≡ m.name = (eq_iff n.name m.name).0 e in
      let first : x.name ≡ m.name = ap (λ y. y.name) (some_inj q) in
      ground (
        arith,
        u.0,
        contains_of_get_elem? xs i n p,
        ap (contains (map (λ y. y.name) xs)) (first ∙ sym same),
      )
]
names_differ (x ∷ xs) (suc i) (suc j) n m u p q h =
    names_differ xs i j n m u.1 p q (λ e. h (ap suc e))

-- A green edge stays green while results come under new names.
pub dep_green-insert :
    (k dep : String) (res : CheckResult) (results : Map CheckResult)
    → lookup k results ≡ none
    → dep_green results dep ≡ true
    → dep_green (insert k res results) dep ≡ true
unfolding dep_green
dep_green-insert k dep res results new g =
    ground (arith, lookup-insert k dep res results, eq_iff k dep)

pub ready-insert :
    (k : String) (deps : List String) (res : CheckResult) (results : Map CheckResult)
    → lookup k results ≡ none
    → ready results deps ≡ true
    → ready (insert k res results) deps ≡ true
unfolding ready
ready-insert k [] res results new g = refl
ready-insert k (d ∷ ds) res results new g =
    ground (arith, dep_green-insert k d res results new, ready-insert k ds res results new)

-- How many of the nodes have a result.
unfoldable pub count_done : List Node → Map CheckResult → ℕ
count_done [] results = 0
count_done (n ∷ ns) results =
    if has n.name results then suc (count_done ns results) else count_done ns results

count_done_absent :
    (ns : List Node) (k : String) (res : CheckResult) (results : Map CheckResult)
    → contains (map (λ n. n.name) ns) k ≡ false
    → count_done ns (insert k res results) ≡ count_done ns results
unfolding count_done
count_done_absent [] k res results h = refl
count_done_absent (n ∷ ns) k res results h = ground (
  arith,
  lookup-insert k n.name res results,
  count_done_absent ns k res results,
  eq_iff k n.name,
  eq_iff n.name k,
)

pub count_done-insert :
    (ns : List Node) (i : ℕ) (n : Node) (res : CheckResult) (results : Map CheckResult)
    → Unrepeated (map (λ m. m.name) ns)
    → get_elem? ns i ≡ some n
    → lookup n.name results ≡ none
    → count_done ns (insert n.name res results) ≡ suc (count_done ns results)
unfolding count_done
count_done-insert [] i n res results u at new = cc
count_done-insert (m ∷ ms) zero n res results u at new = ground (
  arith,
  ap (λ x. x.name) (some_inj at),
  lookup-insert n.name m.name res results,
  eq_iff n.name m.name,
  count_done_absent ms n.name res results,
)
count_done-insert (m ∷ ms) (suc i) n res results u at new = ground (
  arith,
  lookup-insert n.name m.name res results,
  eq_iff n.name m.name,
  count_done-insert ms i n res results u.1 at new,
  contains_of_get_elem? ms i n at,
)
