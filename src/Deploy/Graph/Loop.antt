-- ===== src/Deploy/Graph/Loop.antt =====
-- deploy/graph.go: the invariant rule of the loop of `Run`, and of its receives and its scan.
use gauntlet.Core.Types.{CheckResult}
use gauntlet.Prelude.{
  refl, none, String, ◌-◌, elem, remove, insert, some_inj, ℕ, suc, ◌+◌, ◌<◌, ◌≡◌, inl, inr, true,
  false, List, [], ◌∷◌, some, arith, leb, get_elem?, get_or, ◌==◌, Option-cases, Bool-cases, ap,
  ◌∙◌, sym, subst, max,
}
use gauntlet.Deploy.Graph.{
  node_result, store, cull, first_red, cancelled_if, Node, Scheduler, State, Arrival, Round, visit,
  start_from, launch, ready, receive, receive_all, begin_round, end_round, loop, keep, start_ready,
}

abbrev Suffix : List Node → ℕ → List Node → Type 0
Suffix nodes i ns = (j : ℕ) → get_elem? ns j ≡ get_elem? nodes (i + j)

Suffix-head :
    (nodes : List Node) (i : ℕ) (n : Node) (ns : List Node)
    → Suffix nodes i (n ∷ ns)
    → get_elem? nodes i ≡ some n
Suffix-head nodes i n ns at =
    let e : i + 0 ≡ i = omega arith in rw (ap (get_elem? nodes) e) at (sym (at 0))

Suffix-tail :
    (nodes : List Node) (i : ℕ) (n : Node) (ns : List Node)
    → Suffix nodes i (n ∷ ns)
    → Suffix nodes (suc i) ns
Suffix-tail nodes i n ns at j =
    let e : i + suc j ≡ suc i + j = omega arith in at (suc j) ∙ ap (get_elem? nodes) e

-- What a scan keeps, if a launch of an unstarted, ready node below the cap keeps it.
module _ {ℓ} (P : State → Type ℓ) (nodes : List Node) (limit : ℕ)
    (step : (i : ℕ) (n : Node) (s : State)
      → get_elem? nodes i ≡ some n
      → get_or s.started i false ≡ false
      → ready s.results n.after ≡ true
      → s.inflight < limit
      → P s
      → P (launch i s)) where
  visit_keeps :
      (i : ℕ) (n : Node) (s : State)
      → get_elem? nodes i ≡ some n
      → s.inflight < limit
      → P s
      → P (visit i n s)
  unfolding visit
  visit_keeps i n s at room p = elim (Bool-cases (get_or s.started i false)) [
    | inl e ↦ rw (e, visit) p
    | inr e ↦ elim (Bool-cases (ready s.results n.after)) [
      | inl g ↦ rw (e, g, visit) (step i n s at e g room p)
      | inr g ↦ rw (e, g, visit) p
    ]
  ]

  start_from_keeps :
      (i : ℕ) (ns : List Node) (s : State) → Suffix nodes i ns → P s → P (start_from limit i ns s)
  unfolding start_from
  start_from_keeps i [] s at p = p
  start_from_keeps i (n ∷ ns) s at p = elim (Bool-cases (leb limit s.inflight)) [
    | inl e ↦ rw (e, start_from) p
    | inr e ↦
        rw (e, start_from)
          (start_from_keeps (suc i) ns (visit i n s) (Suffix-tail nodes i n ns at)
            (visit_keeps i n s (Suffix-head nodes i n ns at) (ground (arith, e)) p))
  ]

module _ {ℓ} (P : State → Type ℓ) (sch : Scheduler)
    (step : (i : ℕ) (n : Node) (s : State)
      → get_elem? sch.nodes i ≡ some n
      → get_or s.started i false ≡ false
      → ready s.results n.after ≡ true
      → s.inflight < max sch.max_parallel 1
      → P s
      → P (launch i s)) where
  -- Step (1) keeps what its launches keep.
  pub start_ready_keeps : (s : State) → P s → P (start_ready sch s)
  unfolding start_ready
  start_ready_keeps s p = elim (Bool-cases (keep s)) [
    | inl e ↦
        rw (e, start_ready)
          (start_from_keeps P sch.nodes (max sch.max_parallel 1) step 0 sch.nodes s
            (λ j. ap (get_elem? sch.nodes) (omega arith)) p)
    | inr e ↦ rw (e, start_ready) p
  ]

-- What the receives of a round keep, if each receive keeps it.
pub receive_all_keeps {ℓ} :
    (P : State → Type ℓ) (nodes : List Node)
    → ((a : Arrival) (s t : State) → P s → receive nodes a s ≡ some t → P t)
    → (as' : List Arrival) (s t : State) → P s
    → receive_all nodes as' s ≡ some t
    → P t
unfolding receive_all
receive_all_keeps P nodes step [] s t p e = subst P (some_inj e) p
receive_all_keeps P nodes step (a ∷ as') s t p e = elim (Option-cases (receive nodes a s)) [
  | inl q ↦ ground (arith, q)
  | inr (u, q) ↦ receive_all_keeps P nodes step as' u t (step a s u p q) (rw (q, receive_all) at e)
]

-- The state in which the loop breaks: the start of a round from a state of its head, with nothing
-- in flight.
pub record Exit {ℓ} (P : State → Type ℓ) (sch : Scheduler) (t : State) : Type ℓ where
  pub last : Round
  pub head : State
  pub at_head : P head
  pub begun : t ≡ begin_round sch last head
  pub idle : (begin_round sch last head).inflight ≡ 0

module _ {ℓ} (P : State → Type ℓ) (sch : Scheduler)
    (step : (r : Round) (s t : State)
      → P s
      → end_round sch r (begin_round sch r s) ≡ some t
      → P t) where
  -- What every round keeps holds where the loop breaks.
  pub loop_keeps : (rs : List Round) (s t : State) → P s → loop sch rs s ≡ some t → Exit P sch t
  unfolding loop
  loop_keeps [] s t p e = ground arith
  loop_keeps (r ∷ rs) s t p e = elim (Bool-cases ((begin_round sch r s).inflight == 0)) [
    | inl z ↦ record {
      last = r;
      head = s;
      at_head = p;
      begun = sym (some_inj (rw (z, loop) at e));
      idle = ground (arith, z);
    }
    | inr z ↦ elim (Option-cases (end_round sch r (begin_round sch r s))) [
      | inl q ↦ ground (arith, z, q)
      | inr (u, q) ↦ loop_keeps rs u t (step r s u p q) (rw (z, q, loop) at e)
    ]
  ]

-- The state in which a message is stored.
abbrev pub took : Arrival → State → State
took a s =
    cancelled_if a.ctx_first
      (record s { inflight = s.inflight - 1; running = remove a.idx s.running })

-- A receive that happens is of a running node, and stores its message.
pub receive_inv :
    (nodes : List Node) (a : Arrival) (s t : State)
    → receive nodes a s ≡ some t
    → (n : Node) × (elem a.idx s.running ≡ true)
      × (get_elem? nodes a.idx ≡ some n)
      × (t ≡ store a.idx n (node_result n a.outcome) (took a s))
unfolding receive
receive_inv nodes a s t e = elim (Bool-cases (elem a.idx s.running)) [
  | inr q ↦ ground (arith, q)
  | inl q ↦ elim (Option-cases (get_elem? nodes a.idx)) [
    | inl o ↦ ground (arith, q, o)
    | inr (n, o) ↦ (n, q, o, sym (some_inj (rw (q, o, receive) at e)))
  ]
]

-- What holds of both outcomes of a store holds after it.
pub store_cases {ℓ} :
    (P : State → Type ℓ) (i : ℕ) (n : Node) (res : CheckResult) (s : State)
    → (keep s ≡ true
        → P (record s { results = insert n.name res s.results; finishes = i ∷ s.finishes }))
    → (keep s ≡ false → P s)
    → P (store i n res s)
unfolding store
store_cases P i n res s kept dropped = elim (Bool-cases (keep s)) [
  | inl e ↦ rw (e, store) (kept e)
  | inr e ↦ rw (e, store) (dropped e)
]

-- The cull, likewise: it blames the first red node, or changes nothing.
pub cull_cases {ℓ} :
    (P : State → Type ℓ) (nodes : List Node) (s : State)
    → (keep s ≡ false → P s)
    → (keep s ≡ true → first_red nodes s.results ≡ none → P s)
    → ((name : String)
        → keep s ≡ true
        → first_red nodes s.results ≡ some name
        → P (record s { culprit = name; stopped = true }))
    → P (cull nodes s)
unfolding cull
cull_cases P nodes s over clean blame = elim (Bool-cases (keep s)) [
  | inr e ↦ rw (e, cull) (over e)
  | inl e ↦ elim (Option-cases (first_red nodes s.results)) [
    | inl q ↦ rw (e, q, cull) (clean e q)
    | inr (name, q) ↦ rw (e, q, cull) (blame name e q)
  ]
]

-- A round that happens receives at least one message, and culls.
pub end_round_inv :
    (sch : Scheduler) (r : Round) (s t : State)
    → end_round sch r s ≡ some t
    → (a : Arrival) × (as' : List Arrival) × (u : State) × (receive_all sch.nodes (a ∷ as') s
        ≡ some u)
      × (t ≡ cull sch.nodes (cancelled_if r.ctx_at_cull u))
unfolding end_round
end_round_inv sch r s t e = go r.arrivals refl
  where
    go :
        (l : List Arrival)
        → r.arrivals ≡ l
        → (a : Arrival) × (as' : List Arrival) × (u : State) × (receive_all sch.nodes (a ∷ as') s
            ≡ some u)
          × (t ≡ cull sch.nodes (cancelled_if r.ctx_at_cull u))
    go [] q = ground (arith, q)
    go (a ∷ as') q = elim (Option-cases (receive_all sch.nodes (a ∷ as') s)) [
      | inl o ↦ ground (arith, q, o)
      | inr (u, o) ↦ (a, as', u, o, sym (some_inj (rw (q, o, end_round) at e)))
    ]
