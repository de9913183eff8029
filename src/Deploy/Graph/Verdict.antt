-- ===== src/Deploy/Graph/Verdict.antt =====
-- deploy/graph.go: what the rows, the culprit and the error of `Run` say.
use gauntlet.Deploy.Graph.Head.{begin_round-Head, loop-Head, Head}
use gauntlet.Deploy.Graph.Results.{count_done, WellNamed}
use gauntlet.Core.Types.{node_green, CheckResult}
use gauntlet.Prelude.{
  eq_iff, ap, some_inj, ◌⊎◌, sym, subst, ◌∙◌, Bool-cases, arith, ◌+◌, length, Option-cases, str_eq,
  lookup, String, ◌≡◌, ◌≤◌, Bool, Map, ℕ, suc, List, [], ◌∷◌, none, some, true, false, refl, inl,
  inr,
}
use gauntlet.Deploy.Graph.{
  keep, cancelled_if, materialize, conclude, run, initial, loop, first_red, materialize_from, Node,
  Scheduler, State, Round, Report,
}

-- One row for each node, in spec order, with its name and its 1-based position.
abbrev pub Describes : ℕ → List Node → List CheckResult → Type 0
Describes i [] [] = Unit
Describes i [] (_ ∷ _) = ⊥
Describes i (_ ∷ _) [] = ⊥
Describes i (n ∷ ns) (r ∷ rs) = (r.name ≡ n.name) × (r.seq ≡ i + 1) × Describes (suc i) ns rs

abbrev pub AllGreen : List CheckResult → Type 0
AllGreen [] = Unit
AllGreen (r ∷ rs) = (node_green r ≡ true) × AllGreen rs

abbrev Labelled : Map CheckResult → Type 0
Labelled results = (k : String) (res : CheckResult) → lookup k results ≡ some res → res.name ≡ k

pub count_done-le : (ns : List Node) (results : Map CheckResult) → count_done ns results ≤ length ns
unfolding count_done
count_done-le [] results = omega arith
count_done-le (n ∷ ns) results = ground (arith, count_done-le ns results)

-- A failed graph has a row for every node.
materialize_blamed :
    (i : ℕ) (ns : List Node) (results : Map CheckResult) (culprit : String)
    → str_eq culprit "" ≡ false
    → Labelled results
    → Describes i ns (materialize_from i ns results culprit)
unfolding materialize_from
materialize_blamed i [] results culprit bad l = tt
materialize_blamed i (n ∷ ns) results culprit bad l = elim (Option-cases (lookup n.name results)) [
  | inl q ↦
      rw (q, bad, materialize_from)
        (refl, refl, materialize_blamed (suc i) ns results culprit bad l)
  | inr (res, q) ↦
      rw (q, materialize_from)
        (l n.name res q, refl, materialize_blamed (suc i) ns results culprit bad l)
]

-- So has a graph in which every node has a result, whatever the culprit.
materialize_done :
    (i : ℕ) (ns : List Node) (results : Map CheckResult) (culprit : String)
    → count_done ns results ≡ length ns
    → Labelled results
    → Describes i ns (materialize_from i ns results culprit)
unfolding materialize_from count_done
materialize_done i [] results culprit full l = tt
materialize_done i (n ∷ ns) results culprit full l = elim (Option-cases (lookup n.name results)) [
  | inl q ↦ absurd (ground (arith, q, full, count_done-le ns results))
  | inr (res, q) ↦
      rw (q, materialize_from)
        (
          l n.name res q,
          refl,
          materialize_done (suc i) ns results culprit (ground (arith, q, full)) l,
        )
]

node_green-seq : (res : CheckResult) (i : ℕ) → node_green (record res { seq = i }) ≡ node_green res
unfolding node_green
node_green-seq res i = refl

materialize_green :
    (i : ℕ) (ns : List Node) (results : Map CheckResult)
    → first_red ns results ≡ none
    → AllGreen (materialize_from i ns results "")
unfolding materialize_from first_red
materialize_green i [] results clean = tt
materialize_green i (n ∷ ns) results clean = elim (Option-cases (lookup n.name results)) [
  | inl q ↦
      rw (q, materialize_from) (materialize_green (suc i) ns results (rw (q, first_red) at clean))
  | inr (res, q) ↦ elim (Bool-cases (node_green res)) [
    | inl g ↦
        rw (q, materialize_from)
          (
            node_green-seq res (i + 1) ∙ g,
            materialize_green (suc i) ns results (rw (q, g, first_red) at clean),
          )
    | inr g ↦ cc (rw (q, g, first_red) at clean)
  ]
]

-- The state in which the loop breaks satisfies the invariant of its head.
pub exit-Head :
    (sch : Scheduler) (rs : List Round) (t : State)
    → WellNamed sch.nodes
    → loop sch rs (initial sch.nodes) ≡ some t
    → Head sch t
exit-Head sch rs t w e =
    let x = loop-Head sch rs t w e in
    subst (Head sch) (sym x.begun) (begin_round-Head sch x.last x.head x.at_head)

pub run_inv :
    (sch : Scheduler) (rs : List Round) (c : Bool) (rep : Report)
    → run sch rs c ≡ some rep
    → (t : State) × (loop sch rs (initial sch.nodes) ≡ some t)
      × (rep ≡ conclude sch (cancelled_if c t))
unfolding run
run_inv sch rs c rep e = elim (Option-cases (loop sch rs (initial sch.nodes))) [
  | inl q ↦ cc (rw (q, run) at e)
  | inr (t, q) ↦ (t, q, sym (some_inj (rw (q, run) at e)))
]

-- A conclusion without an error: the context lives, and there is a culprit or every node has a
-- result.
conclude_inv :
    (sch : Scheduler) (s : State)
    → (conclude sch s).err ≡ none
    → (s.ctx_done ≡ false)
      × ((str_eq s.culprit "" ≡ false) ⊎ (length s.results ≡ length sch.nodes))
      × (conclude sch s).rows ≡ materialize sch.nodes s.results s.culprit
      × (conclude sch s).culprit ≡ s.culprit
unfolding conclude
conclude_inv sch s h = ground arith

pub keep_alive :
    (s : State) (c : Bool) → s.culprit ≡ "" → (cancelled_if c s).ctx_done ≡ false → keep s ≡ true
unfolding keep
keep_alive s c clear alive = ground (arith, eq_iff s.culprit "")

-- A report without an error has one row for each declared node, in spec order, with its name and
-- its position in the spec, whether the graph is green or has a culprit.
pub run-Describes :
    (sch : Scheduler) (rs : List Round) (ctx_at_end : Bool) (rep : Report)
    → WellNamed sch.nodes
    → run sch rs ctx_at_end ≡ some rep
    → rep.err ≡ none
    → Describes 0 sch.nodes rep.rows
unfolding materialize
run-Describes sch rs ctx_at_end rep w e ok =
    let (t, q, eq) = run_inv sch rs ctx_at_end rep e in
    let s : State = cancelled_if ctx_at_end t in
    let (alive, why, rows, _) = conclude_inv sch s (sym (ap (λ r. r.err) eq) ∙ ok) in
    let (v, c) = exit-Head sch rs t w q in
    subst (Describes 0 sch.nodes) (sym (ap (λ r. r.rows) eq ∙ rows)) (elim why [
      | inl bad ↦ materialize_blamed 0 sch.nodes t.results t.culprit bad v.1.labelled
      | inr full ↦
          materialize_done 0 sch.nodes t.results t.culprit (sym v.1.total ∙ full) v.1.labelled
    ])

-- A report without an error and without a culprit is a success: every row is green.
pub run-AllGreen :
    (sch : Scheduler) (rs : List Round) (ctx_at_end : Bool) (rep : Report)
    → WellNamed sch.nodes
    → run sch rs ctx_at_end ≡ some rep
    → rep.err ≡ none
    → rep.culprit ≡ ""
    → AllGreen rep.rows
unfolding materialize
run-AllGreen sch rs ctx_at_end rep w e ok clear =
    let (t, q, eq) = run_inv sch rs ctx_at_end rep e in
    let s : State = cancelled_if ctx_at_end t in
    let (alive, why, rows, blame) = conclude_inv sch s (sym (ap (λ r. r.err) eq) ∙ ok) in
    let (v, c) = exit-Head sch rs t w q in
    let none_blamed : t.culprit ≡ "" = sym blame ∙ sym (ap (λ r. r.culprit) eq) ∙ clear in
    subst AllGreen
      (sym (ap (λ r. r.rows) eq ∙ rows ∙ ap (materialize sch.nodes t.results) none_blamed))
      (materialize_green 0 sch.nodes t.results (c (keep_alive t ctx_at_end none_blamed alive)))
