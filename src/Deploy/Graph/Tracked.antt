-- ===== src/Deploy/Graph/Tracked.antt =====
-- deploy/graph.go: the invariant of `Run` on the results map, kept by launches, receives and culls.
use gauntlet.Core.Types.{CheckResult}
use gauntlet.Deploy.Graph.Loop.{cull_cases}
use gauntlet.Deploy.Graph.Results.{WellNamed, count_done}
use gauntlet.Deploy.Graph.Accounts.{Accounts}
use gauntlet.Prelude.{
  subst, ==_iff, some_inj, sym, ◌⊎◌, length, ◌==◌, ap, Bool-cases, ◌∙◌, has, String, arith, elem,
  get_or, lookup, ◌≡◌, Bool, get_elem?, ℕ, List, [], ◌∷◌, none, some, true, false, refl, inl, inr,
}
use gauntlet.Deploy.Graph.{
  cull, first_red, ready, cancelled_if, launch, keep, initial, Node, Scheduler, State,
}

pub record Tracked (nodes : List Node) (s : State) : Type 0 where
  pub fresh :
      (i : ℕ) (n : Node)
      → get_elem? nodes i ≡ some n
      → elem i s.starts ≡ false
      → lookup n.name s.results ≡ none
  pub awaited :
      (i : ℕ) (n : Node)
      → get_elem? nodes i ≡ some n
      → elem i s.running ≡ true
      → lookup n.name s.results ≡ none
  pub justified :
      (i : ℕ) (n : Node)
      → get_elem? nodes i ≡ some n
      → elem i s.starts ≡ true
      → ready s.results n.after ≡ true
  pub delivered :
      (i : ℕ) (n : Node)
      → get_elem? nodes i ≡ some n
      → elem i s.starts ≡ true
      → elem i s.running ≡ false
      → keep s ≡ true
      → has n.name s.results ≡ true
  pub total : length s.results ≡ count_done nodes s.results
  pub labelled : (k : String) (res : CheckResult) → lookup k s.results ≡ some res → res.name ≡ k
  pub blamed : (s.culprit ≡ "") ⊎ (first_red nodes s.results ≡ some s.culprit)

abbrev pub Inv : Scheduler → State → Type 0
Inv sch s = Accounts sch s × Tracked sch.nodes s

count_done-nil : (ns : List Node) → count_done ns [] ≡ 0
unfolding count_done lookup
count_done-nil [] = refl
count_done-nil (n ∷ ns) = count_done-nil ns

pub initial-Tracked : (nodes : List Node) → Tracked nodes (initial nodes)
unfolding initial lookup
initial-Tracked nodes = record {
  fresh = λ i n at h. refl;
  awaited = λ i n at h. refl;
  justified = λ i n at h. cc;
  delivered = λ i n at h. cc;
  total = sym (count_done-nil nodes);
  labelled = λ k res h. cc;
  blamed = inl refl;
}

pub keep-cancelled_if : (c : Bool) (s : State) → keep (cancelled_if c s) ≡ true → keep s ≡ true
unfolding keep
keep-cancelled_if c s h = ground arith

pub cancelled_if-Tracked :
    (nodes : List Node) (c : Bool) (s : State) → Tracked nodes s → Tracked nodes (cancelled_if c s)
cancelled_if-Tracked nodes c s v = record {
  fresh = v.fresh;
  awaited = v.awaited;
  justified = v.justified;
  delivered = λ i n at h k e. v.delivered i n at h k (keep-cancelled_if c s e);
  total = v.total;
  labelled = v.labelled;
  blamed = v.blamed;
}

pub launch-Tracked :
    (sch : Scheduler) (i : ℕ) (n : Node) (s : State)
    → get_elem? sch.nodes i ≡ some n
    → get_or s.started i false ≡ false
    → ready s.results n.after ≡ true
    → Inv sch s
    → Tracked sch.nodes (launch i s)
unfolding launch keep
launch-Tracked sch i n s here new ok (a, v) = record {
  fresh = λ j m at h. v.fresh j m at (ground (arith, h));
  awaited = λ j m at h. elim (Bool-cases (i == j)) [
    | inl e ↦
        v.fresh j m at
          (a.listed j ∙ ap (λ k. get_or s.started k false) (sym ((==_iff i j).0 e)) ∙ new)
    | inr e ↦ v.awaited j m at (ground (arith, h, e))
  ];
  justified = λ j m at h. elim (Bool-cases (i == j)) [
    | inl e ↦
        let same : n ≡ m = some_inj (sym here ∙ ap (get_elem? sch.nodes) ((==_iff i j).0 e) ∙ at) in
        subst (λ x. ready s.results x.after ≡ true) same ok
    | inr e ↦ v.justified j m at (ground (arith, h, e))
  ];
  delivered = λ j m at h k e. v.delivered j m at (ground (arith, h, k)) (ground (arith, k)) e;
  total = v.total;
  labelled = v.labelled;
  blamed = v.blamed;
}

-- The blame of a cull is the first red node, and is never taken back.
pub cull-Tracked :
    (nodes : List Node) (s : State)
    → WellNamed nodes
    → Tracked nodes s
    → Tracked nodes (cull nodes s)
cull-Tracked nodes s w v =
    cull_cases (Tracked nodes) nodes s (λ _. v) (λ _ _. v)
      λ name k q. record {
        fresh = v.fresh;
        awaited = v.awaited;
        justified = v.justified;
        delivered = λ j m at h r e. v.delivered j m at h r k;
        total = v.total;
        labelled = v.labelled;
        blamed = inr q;
      }
