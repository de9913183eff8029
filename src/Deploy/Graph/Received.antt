-- ===== src/Deploy/Graph/Received.antt =====
-- deploy/graph.go: receiving a result keeps the invariant on the results map.
use gauntlet.Deploy.Graph.Tracked.{Tracked, Inv}
use gauntlet.Core.Types.{CheckResult}
use gauntlet.Deploy.Graph.Loop.{store_cases, receive_inv, took}
use gauntlet.Deploy.Graph.Results.{count_done-insert, names_differ, ready-insert, WellNamed}
use gauntlet.Prelude.{
  length-insert, elem-remove_ne, str_eq_refl, subst, ==_iff, some_inj, sym, ◌==◌, if◌then◌else◌,
  elem-remove_self, ap, Bool-cases, lookup-insert, ◌∙◌, has, ◌≢◌, remove, eq_iff, insert, String,
  arith, elem, elem_of_remove, lookup, ◌≡◌, get_elem?, ℕ, List, ◌∷◌, none, some, true, false, refl,
  inl, inr,
}
use gauntlet.Deploy.Graph.{
  ran, no_slot, Outcome, node_result, receive, Arrival, keep, Node, Scheduler, State,
}

keep_clear : (s : State) → keep s ≡ true → s.culprit ≡ ""
unfolding keep
keep_clear s h = ground (arith, eq_iff s.culprit "")

-- A receive keeps the invariant only if it was kept before.
keep_before : (a : Arrival) (s : State) → keep (took a s) ≡ true → keep s ≡ true
unfolding keep
keep_before a s h = ground arith

receive-Tracked_dropped :
    (nodes : List Node) (a : Arrival) (s : State)
    → keep (took a s) ≡ false
    → Tracked nodes s
    → Tracked nodes (took a s)
receive-Tracked_dropped nodes a s over v = record {
  fresh = v.fresh;
  awaited = λ j m at h. v.awaited j m at (elem_of_remove a.idx j s.running h);
  justified = v.justified;
  delivered = λ j m at h k e. cc;
  total = v.total;
  labelled = v.labelled;
  blamed = v.blamed;
}

module _ (sch : Scheduler) (w : WellNamed sch.nodes) (a : Arrival) (n : Node) (res : CheckResult)
    (s : State) (label : res.name ≡ n.name) (run : elem a.idx s.running ≡ true)
    (here : get_elem? sch.nodes a.idx ≡ some n) (live : keep (took a s) ≡ true)
    (v : Inv sch s) where
  absent : lookup n.name s.results ≡ none
  absent = v.1.awaited a.idx n here run

  lookup_other :
      (j : ℕ) (m : Node)
      → get_elem? sch.nodes j ≡ some m
      → a.idx ≢ j
      → lookup m.name (insert n.name res s.results) ≡ lookup m.name s.results
  lookup_other j m at ne =
      lookup-insert n.name m.name res s.results
      ∙ ap (λ b. if b then some res else lookup m.name s.results)
          (names_differ sch.nodes a.idx j n m w.unrepeated here at ne)

  has-stored : (k : String) → has k s.results ≡ true → has k (insert n.name res s.results) ≡ true
  has-stored k h = ground (arith, lookup-insert n.name k res s.results)

  not_idx : (j : ℕ) (l : List ℕ) → elem a.idx l ≡ true → elem j l ≡ false → a.idx ≢ j
  not_idx j l h k e = cc (h, k, ap (λ i. elem i l) e)

  not_self : (j : ℕ) → elem j (remove a.idx s.running) ≡ true → a.idx ≢ j
  not_self j h e = cc (
    h,
    ap (λ i. elem i (remove a.idx s.running)) e,
    elem-remove_self a.idx s.running v.0.once_running,
  )

  receive-Tracked_kept :
      Tracked sch.nodes
        (record (took a s) { results = insert n.name res s.results; finishes = a.idx ∷ s.finishes })
  receive-Tracked_kept = record {
    fresh = λ j m at h.
        lookup_other j m at (not_idx j s.starts (v.0.live a.idx run) h) ∙ v.1.fresh j m at h;
    awaited = λ j m at h.
        lookup_other j m at (not_self j h)
        ∙ v.1.awaited j m at (elem_of_remove a.idx j s.running h);
    justified =
        λ j m at h. ready-insert n.name m.after res s.results absent (v.1.justified j m at h);
    delivered = λ j m at h k e. elim (Bool-cases (a.idx == j)) [
      | inl q ↦
          let same : n ≡ m =
            some_inj (sym here ∙ ap (get_elem? sch.nodes) ((==_iff a.idx j).0 q) ∙ at) in
          subst (λ x. has x.name (insert n.name res s.results) ≡ true) same
            (ground (arith, lookup-insert n.name n.name res s.results, str_eq_refl n.name))
      | inr q ↦ has-stored m.name (
          v.1.delivered j m at h
            (sym (elem-remove_ne a.idx j s.running (λ x. cc (q, (==_iff a.idx j).1 x))) ∙ k)
            (keep_before a s live))
    ];
    total =
        length-insert n.name res s.results absent
        ∙ omega (
          arith,
          v.1.total,
          count_done-insert sch.nodes a.idx n res s.results w.unrepeated here absent,
        );
    labelled = λ k r h.
        ground (arith, lookup-insert n.name k res s.results, eq_iff n.name k, v.1.labelled k r);
    blamed = inl (keep_clear (took a s) live);
  }

node_result-name : (n : Node) (o : Outcome) → (node_result n o).name ≡ n.name
unfolding node_result
node_result-name n (no_slot waited e) = refl
node_result-name n (ran waited res) = refl

pub receive-Tracked :
    (sch : Scheduler) (a : Arrival) (s t : State)
    → WellNamed sch.nodes
    → Inv sch s
    → receive sch.nodes a s ≡ some t
    → Tracked sch.nodes t
receive-Tracked sch a s t w v e =
    let (n, run, here, eq) = receive_inv sch.nodes a s t e in
    subst (Tracked sch.nodes) (sym eq) (
      store_cases (Tracked sch.nodes) a.idx n (node_result n a.outcome) (took a s)
        (λ live.
          receive-Tracked_kept sch w a n (node_result n a.outcome) s (node_result-name n a.outcome)
            run here live v)
        (λ over. receive-Tracked_dropped sch.nodes a s over v.1))
