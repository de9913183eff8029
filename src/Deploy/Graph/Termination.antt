-- ===== src/Deploy/Graph/Termination.antt =====
-- deploy/graph.go: the loop of `Run` ends. Each message uses up one of the nodes, so a schedule has
-- at most as many rounds with messages as there are nodes, and while something is in flight the
-- next message can be received.
use gauntlet.Deploy.Graph.Loop.{
  cull_cases, receive_all_keeps, took, store_cases, start_ready_keeps, receive_inv, end_round_inv,
}
use gauntlet.Deploy.Graph.Accounts.{
  receive-Accounts, set_rest, lt-length_of_get_elem?, Accounts, initial-Accounts, launch-Accounts,
}
use gauntlet.Prelude.{
  ◌∙◌, sym, elem, length-remove, subst, ◌⊎◌, ==_iff, ap, ℕ, suc, zero, ◌+◌, ◌≤◌, ◌<◌, ◌≡◌, refl,
  arith, Bool, true, false, List, [], ◌∷◌, some, length, replicate, set, get_or, inl, inr,
  Bool-cases, Option-cases, ◌==◌,
}
use gauntlet.Deploy.Graph.{
  store, receive_all, node_result, cancelled_if, max, ready, get_elem?, receive, initial, launch,
  begin_round, end_round, Scheduler, State, Round, Node, Arrival, loop,
}

count_false : List Bool → ℕ
count_false [] = 0
count_false (true ∷ bs) = count_false bs
count_false (false ∷ bs) = suc (count_false bs)

count_false-set :
    (bs : List Bool) (i : ℕ)
    → i < length bs
    → get_or bs i false ≡ false
    → suc (count_false (set bs i true)) ≡ count_false bs
unfolding count_false
count_false-set [] i h e = absurd (omega arith)
count_false-set (true ∷ bs) zero h e = cc
count_false-set (false ∷ bs) zero h e = refl
count_false-set (true ∷ bs) (suc i) h e = count_false-set bs i (omega arith) e
count_false-set (false ∷ bs) (suc i) h e = ap suc (count_false-set bs i (omega arith) e)

count_false-replicate : (n : ℕ) → count_false (replicate n false) ≡ n
unfolding count_false
count_false-replicate zero = refl
count_false-replicate (suc n) = ap suc (count_false-replicate n)

-- The messages still to come: one for each node that did not start or runs.
abbrev pending : State → ℕ
pending s = count_false s.started + s.inflight

abbrev Bounded : Scheduler → ℕ → State → Type 0
Bounded sch k s = Accounts sch s × (pending s ≤ k)

launch-Bounded :
    (sch : Scheduler) (k i : ℕ) (n : Node) (s : State)
    → get_elem? sch.nodes i ≡ some n
    → get_or s.started i false ≡ false
    → ready s.results n.after ≡ true
    → s.inflight < max sch.max_parallel 1
    → Bounded sch k s
    → Bounded sch k (launch i s)
unfolding launch
launch-Bounded sch k i n s at new ok room (v, b) = (
  launch-Accounts sch i n s at new ok room v,
  omega
      (arith, count_false-set s.started i (rw v.sized (lt-length_of_get_elem? sch.nodes i at)) new),
)

begin_round-Bounded :
    (sch : Scheduler) (k : ℕ) (r : Round) (s : State)
    → Bounded sch k s
    → Bounded sch k (begin_round sch r s)
unfolding begin_round
begin_round-Bounded sch k r s (v, b) =
    start_ready_keeps (Bounded sch k) sch (launch-Bounded sch k) (cancelled_if r.ctx_at_start s)
      (set_rest _ _ _ _ _ v, b)

receive-Bounded :
    (sch : Scheduler) (k : ℕ) (a : Arrival) (s t : State)
    → Bounded sch (suc k) s
    → receive sch.nodes a s ≡ some t
    → Bounded sch k t
receive-Bounded sch k a s t (v, b) e = (receive-Accounts sch a s t v e, less)
  where
    less : pending t ≤ k
    less =
        let (n, here, at, eq) = receive_inv sch.nodes a s t e in
        subst (λ u. pending u ≤ k) (sym eq)
          (store_cases (λ u. pending u ≤ k) a.idx n (node_result n a.outcome) (took a s)
            (λ _. omega (arith, v.counted, length-remove a.idx s.running here))
            (λ _. omega (arith, v.counted, length-remove a.idx s.running here)))

receive-Bounded-some :
    (sch : Scheduler) (k : ℕ) (a : Arrival) (s t : State)
    → Bounded sch k s
    → receive sch.nodes a s ≡ some t
    → (j : ℕ) × (k ≡ suc j) × Bounded sch j t
receive-Bounded-some sch zero a s t (v, b) e =
    let (n, here, at, eq) = receive_inv sch.nodes a s t e in
    absurd (omega (arith, v.counted, length-remove a.idx s.running here))
receive-Bounded-some sch (suc k) a s t v e = (k, refl, receive-Bounded sch k a s t v e)

receive-Bounded_le :
    (sch : Scheduler) (k : ℕ) (a : Arrival) (s t : State)
    → Bounded sch k s
    → receive sch.nodes a s ≡ some t
    → Bounded sch k t
receive-Bounded_le sch k a s t v e =
    let (j, kj, b) = receive-Bounded-some sch k a s t v e in (b.0, omega (arith, b.1, kj))

end_round-Bounded :
    (sch : Scheduler) (k : ℕ) (r : Round) (s t : State)
    → Bounded sch k s
    → end_round sch r s ≡ some t
    → (j : ℕ) × (j < k) × Bounded sch j t
unfolding receive_all
end_round-Bounded sch k r s t v e =
    let (a, as', u, got, eq) = end_round_inv sch r s t e in
    elim (Option-cases (receive sch.nodes a s)) [
      | inl q ↦ cc (rw (q, receive_all) at got)
      | inr (w, q) ↦
          let (j, kj, bw) = receive-Bounded-some sch k a s w v q in
          let bu : Bounded sch j u =
            receive_all_keeps (Bounded sch j) sch.nodes (λ b x y. receive-Bounded_le sch j b x y)
              as' w u bw (rw (q, receive_all) at got) in
          (
            j,
            omega (arith, kj),
            subst (Bounded sch j) (sym eq) (
                cull_cases (Bounded sch j) sch.nodes (cancelled_if r.ctx_at_cull u)
                  (λ _. (set_rest _ _ _ _ _ bu.0, bu.1)) (λ _ _. (set_rest _ _ _ _ _ bu.0, bu.1))
                  (λ name _ _. (set_rest _ _ _ _ _ bu.0, bu.1))),
          )
    ]

-- A schedule that can happen: each round receives messages of running nodes. It may stop early.
abbrev pub Feasible : Scheduler → List Round → State → Type 0
Feasible sch [] s = Unit
Feasible sch (r ∷ rs) s =
    ((begin_round sch r s).inflight ≡ 0)
    ⊎ ((t : State) × (end_round sch r (begin_round sch r s) ≡ some t) × Feasible sch rs t)

loop-Bounded :
    (sch : Scheduler) (k : ℕ) (rs : List Round) (s : State)
    → Bounded sch k s
    → k < length rs
    → Feasible sch rs s
    → (t : State) × (loop sch rs s ≡ some t)
unfolding loop
loop-Bounded sch k [] s v h f = absurd (omega arith)
loop-Bounded sch k (r ∷ rs) s v h (inl idle) = (begin_round sch r s, rw ((==_iff _ 0).1 idle))
loop-Bounded sch k (r ∷ rs) s v h (inr (u, q, f)) =
    elim (Bool-cases ((begin_round sch r s).inflight == 0)) [
      | inl z ↦ (begin_round sch r s, rw z)
      | inr z ↦
          let (j, jk, b) =
            end_round-Bounded sch k r (begin_round sch r s) u (begin_round-Bounded sch k r s v) q in
          let (t, e) = loop-Bounded sch j rs u b (omega arith) f in (t, rw (z, q) e)
    ]

-- The loop of `Run` ends within one round more than there are nodes: a schedule of that length that
-- can happen at all reaches the `break`.
pub loop_terminates :
    (sch : Scheduler) (rs : List Round)
    → length sch.nodes < length rs
    → Feasible sch rs (initial sch.nodes)
    → (t : State) × (loop sch rs (initial sch.nodes) ≡ some t)
unfolding initial
loop_terminates sch rs h f =
    loop-Bounded sch (length sch.nodes) rs (initial sch.nodes)
      (initial-Accounts sch, omega (arith, count_false-replicate (length sch.nodes))) h f

lt-length_of_get_or : (bs : List Bool) (i : ℕ) → get_or bs i false ≡ true → i < length bs
lt-length_of_get_or [] i h = cc
lt-length_of_get_or (b ∷ bs) zero h = omega arith
lt-length_of_get_or (b ∷ bs) (suc i) h = omega (arith, lt-length_of_get_or bs i h)

get_elem?_of_lt {ℓ} :
    {A : Type ℓ} (xs : List A) (i : ℕ) → i < length xs → (a : A) × (get_elem? xs i ≡ some a)
get_elem?_of_lt [] i h = absurd (omega arith)
get_elem?_of_lt (x ∷ xs) zero h = (x, refl)
get_elem?_of_lt (x ∷ xs) (suc i) h = get_elem?_of_lt xs i (omega arith)

-- Nothing blocks: whatever node in flight sends next, in a state that satisfies the accounts, its
-- message is received.
pub receive_running :
    (sch : Scheduler) (a : Arrival) (s : State)
    → Accounts sch s
    → elem a.idx s.running ≡ true
    → (t : State) × (receive sch.nodes a s ≡ some t)
unfolding receive
receive_running sch a s v here =
    let begun : get_or s.started a.idx false ≡ true = sym (v.listed a.idx) ∙ v.live a.idx here in
    let inside : a.idx < length sch.nodes =
      omega (arith, lt-length_of_get_or s.started a.idx begun, v.sized) in
    let (n, at) = get_elem?_of_lt sch.nodes a.idx inside in
    (store a.idx n (node_result n a.outcome) (took a s), rw (here, at, receive))
