-- ===== src/Deploy/Graph/Accounts.antt =====
-- deploy/graph.go: who is started and in flight. No node starts twice, `max-parallel` holds, and
-- `Run` returns only when nothing is in flight, after at most as many rounds as there are nodes.
use gauntlet.Prelude.{
  ◌∙◌, Map, String, ℕ, suc, ◌≤◌, ◌<◌, ◌≡◌, refl, sym, subst, inl, inr, Bool, true, false, List, [],
  ◌∷◌, some, arith, get_elem?, get_or, elem, Distinct, ◌==◌, Bool-cases, length, max, length-set,
  get_or-set_self, get_or-set_ne, length-remove, remove-Distinct, elem_of_remove, length-replicate,
  get_or-replicate, ==_iff,
}
use gauntlet.Core.Types.{CheckResult}
use gauntlet.Deploy.Graph.{
  cancelled_if, end_round, loop, start_ready, Round, begin_round, node_result, Node, Scheduler,
  State, Arrival, initial, launch, ready, receive,
}
use gauntlet.Deploy.Graph.Loop.{
  cull_cases, loop_keeps, receive_all_keeps, Exit, end_round_inv, start_ready_keeps, took,
  receive_inv, store_cases,
}

pub record Accounts (sch : Scheduler) (s : State) : Type 0 where
  pub counted : s.inflight ≡ length s.running
  pub within : s.inflight ≤ max sch.max_parallel 1
  pub sized : length s.started ≡ length sch.nodes
  pub once_running : Distinct s.running
  pub once_started : Distinct s.starts
  pub live : (i : ℕ) → elem i s.running ≡ true → elem i s.starts ≡ true
  pub listed : (i : ℕ) → elem i s.starts ≡ get_or s.started i false

pub initial-Accounts : (sch : Scheduler) → Accounts sch (initial sch.nodes)
unfolding initial
initial-Accounts sch = record {
  counted = refl;
  within = omega arith;
  sized = length-replicate (length sch.nodes) false;
  once_running = tt;
  once_started = tt;
  live = λ i h. h;
  listed = λ i. sym (get_or-replicate (length sch.nodes) i false);
}

pub lt-length_of_get_elem? {ℓ} :
    {A : Type ℓ} (xs : List A) (i : ℕ) {a : A} → get_elem? xs i ≡ some a → i < length xs
lt-length_of_get_elem? [] i h = absurd (ground arith)
lt-length_of_get_elem? (x ∷ xs) ℕ.zero h = omega arith
lt-length_of_get_elem? (x ∷ xs) (suc i) h = omega (arith, lt-length_of_get_elem? xs i h)

pub launch-Accounts :
    (sch : Scheduler) (i : ℕ) (n : Node) (s : State)
    → get_elem? sch.nodes i ≡ some n
    → get_or s.started i false ≡ false
    → ready s.results n.after ≡ true
    → s.inflight < max sch.max_parallel 1
    → Accounts sch s
    → Accounts sch (launch i s)
unfolding launch
launch-Accounts sch i n s at new ok room v = record {
  counted = ground (arith, v.counted);
  within = omega arith;
  sized = length-set s.started i true ∙ v.sized;
  once_running = ground (arith, v.live i, v.listed i, v.once_running);
  once_started = ground (arith, v.listed i, v.once_started);
  live = λ j h. ground (arith, v.live j);
  listed = λ j. elim (Bool-cases (i == j)) [
    | inl e ↦
        let q : i ≡ j = (==_iff i j).0 e in
        ground (
          arith,
          e,
          q,
          v.sized,
          get_or-set_self s.started i true false
              (rw v.sized (lt-length_of_get_elem? sch.nodes i at)),
        )
    | inr e ↦ ground (arith, v.listed j, get_or-set_ne s.started i j true false)
  ];
}

took-Accounts :
    (sch : Scheduler) (a : Arrival) (s : State)
    → elem a.idx s.running ≡ true
    → Accounts sch s
    → Accounts sch (took a s)
took-Accounts sch a s here v = record {
  counted = omega (arith, v.counted, length-remove a.idx s.running here);
  within = omega (arith, v.within);
  sized = v.sized;
  once_running = remove-Distinct a.idx s.running v.once_running;
  once_started = v.once_started;
  live = λ j h. v.live j (elem_of_remove a.idx j s.running h);
  listed = v.listed;
}

-- The accounts do not read the results, the culprit or the context.
pub set_rest :
    {sch : Scheduler} {s : State} (results : Map CheckResult) (finishes : List ℕ) (culprit : String)
    (ctx_done stopped : Bool)
    → Accounts sch s
    → Accounts sch (record s {
      results = results;
      finishes = finishes;
      culprit = culprit;
      ctx_done = ctx_done;
      stopped = stopped;
    })
set_rest results finishes culprit ctx_done stopped v = record {
  counted = v.counted;
  within = v.within;
  sized = v.sized;
  once_running = v.once_running;
  once_started = v.once_started;
  live = v.live;
  listed = v.listed;
}

pub receive-Accounts :
    (sch : Scheduler) (a : Arrival) (s t : State)
    → Accounts sch s
    → receive sch.nodes a s ≡ some t
    → Accounts sch t
receive-Accounts sch a s t v e =
    let (n, here, at, eq) = receive_inv sch.nodes a s t e in
    subst (Accounts sch) (sym eq) (
      store_cases (Accounts sch) a.idx n (node_result n a.outcome) (took a s)
        (λ _. set_rest _ _ _ _ _ w) (λ _. w))
  where
    w : Accounts sch (took a s)
    w = took-Accounts sch a s (receive_inv sch.nodes a s t e).1 v

start_ready-Accounts :
    (sch : Scheduler) (s : State) → Accounts sch s → Accounts sch (start_ready sch s)
start_ready-Accounts sch = start_ready_keeps (Accounts sch) sch (launch-Accounts sch)

pub begin_round-Accounts :
    (sch : Scheduler) (r : Round) (s : State) → Accounts sch s → Accounts sch (begin_round sch r s)
unfolding begin_round
begin_round-Accounts sch r s v = start_ready-Accounts sch _ (set_rest _ _ _ _ _ v)

pub end_round-Accounts :
    (sch : Scheduler) (r : Round) (s t : State)
    → Accounts sch s
    → end_round sch r s ≡ some t
    → Accounts sch t
end_round-Accounts sch r s t v e =
    let (a, as', u, got, eq) = end_round_inv sch r s t e in
    let w : Accounts sch u =
      receive_all_keeps (Accounts sch) sch.nodes (receive-Accounts sch) (a ∷ as') s u v got in
    subst (Accounts sch) (sym eq) (
      cull_cases (Accounts sch) sch.nodes (cancelled_if r.ctx_at_cull u) (λ _. set_rest _ _ _ _ _ w)
        (λ _ _. set_rest _ _ _ _ _ w) (λ name _ _. set_rest _ _ _ _ _ w))

pub loop-Accounts :
    (sch : Scheduler) (rs : List Round) (t : State)
    → loop sch rs (initial sch.nodes) ≡ some t
    → Exit (Accounts sch) sch t
loop-Accounts sch rs t e =
    loop_keeps (Accounts sch) sch
      (λ r s u v q.
        end_round-Accounts sch r (begin_round sch r s) u (begin_round-Accounts sch r s v) q)
      rs (initial sch.nodes) t (initial-Accounts sch) e

-- `Run` leaves its loop only when every goroutine that it launched has sent its result.
pub loop_drained :
    (sch : Scheduler) (rs : List Round) (t : State)
    → loop sch rs (initial sch.nodes) ≡ some t
    → t.running ≡ []
loop_drained sch rs t e =
    let x = loop-Accounts sch rs t e in
    let v = begin_round-Accounts sch x.last x.head x.at_head in
    rw (x.begun) (empty _ (omega (arith, v.counted, x.idle)))
  where
    empty : (l : List ℕ) → length l ≡ 0 → l ≡ []
    empty [] h = refl
    empty (y ∷ l) h = absurd (omega arith)
