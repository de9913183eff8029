-- ===== src/Deploy/Graph/Progress.antt =====
-- deploy/graph.go: with `after` edges that name nodes of the graph and do not cycle, a run that is
-- neither red nor cancelled finishes every node, so its "never became ready" error is unreachable.
use gauntlet.Deploy.Graph.Accounts.{loop_drained}
use gauntlet.Deploy.Graph.Verdict.{keep_alive, run_inv, exit-Head}
use gauntlet.Deploy.Graph.Head.{loop-Head}
use gauntlet.Core.Types.{CheckResult}
use gauntlet.Deploy.Graph.Results.{count_done, WellNamed}
use gauntlet.Prelude.{
  All-map, ◌≢◌, length, Bool, max, elem, some_inj, has, subst, ◌∙◌, eq_iff, str_eq, ◌⊎◌, sym, Map,
  ap, leb, Bool-cases, map, arith, contains, ◌+◌, All, ◌≤◌, get_or, ◌≡◌, get_elem?, ◌<◌, String, ℕ,
  zero, suc, List, [], ◌∷◌, none, some, true, false, refl, inl, inr,
}
use gauntlet.Deploy.Graph.{
  never_ready, conclude, cancelled_if, keep, dep_green, initial, start_ready, begin_round,
  first_red, ready, launch, visit, start_from, Node, Scheduler, State, Round, Report,
}
use gauntlet.Deploy.Graph.{run, loop}

-- The `after` edges are closed over the graph and go down in some rank.
abbrev pub Ranked : (String → ℕ) → List Node → Type 0
Ranked rank nodes =
    (i : ℕ) (n : Node)
    → get_elem? nodes i ≡ some n
    → All (λ dep. (rank dep < rank n.name) × (contains (map (λ m. m.name) nodes) dep ≡ true))
        n.after

start_from-inflight :
    (limit i : ℕ) (ns : List Node) (s : State) → s.inflight ≤ (start_from limit i ns s).inflight
unfolding start_from visit launch
start_from-inflight limit i [] s = omega arith
start_from-inflight limit i (n ∷ ns) s = ground (
  arith,
  start_from-inflight limit (suc i) ns s,
  start_from-inflight limit (suc i) ns (launch i s),
)

visit_idle :
    (i : ℕ) (n : Node) (s : State)
    → (visit i n s).inflight ≡ 0
    → (visit i n s ≡ s) × ((get_or s.started i false ≡ true) ⊎ (ready s.results n.after ≡ false))
unfolding visit launch
visit_idle i n s idle = elim (Bool-cases (get_or s.started i false)) [
  | inl e ↦ (rw (e, visit), inl e)
  | inr e ↦ elim (Bool-cases (ready s.results n.after)) [
    | inl g ↦ absurd (ground (arith, e, g, rw (e, g, visit) at idle))
    | inr g ↦ (rw (e, g, visit), inr g)
  ]
]

-- Every node of the list, from index `i` on, has started or is not ready.
abbrev Visited : ℕ → List Node → State → Type 0
Visited i [] s = Unit
Visited i (n ∷ ns) s =
    ((get_or s.started i false ≡ true) ⊎ (ready s.results n.after ≡ false)) × Visited (suc i) ns s

Visited-at :
    (i : ℕ) (ns : List Node) (s : State) (j k : ℕ) (n : Node)
    → Visited i ns s
    → get_elem? ns j ≡ some n
    → k ≡ i + j
    → get_or s.started k false ≡ false
    → ready s.results n.after ≡ false
Visited-at i [] s j k n v at e new = cc
Visited-at i (m ∷ ms) s zero k n v at e new = elim v.0 [
  | inl begun ↦
      let same : k ≡ i = omega arith in cc (begun, new, ap (λ x. get_or s.started x false) same)
  | inr idle ↦ subst (λ x. ready s.results x.after ≡ false) (some_inj at) idle
]
Visited-at i (m ∷ ms) s (suc j) k n v at e new =
    Visited-at (suc i) ms s j k n v.1 at (omega arith) new

-- A scan that leaves nothing in flight launched nothing, since nothing was ready.
start_from_idle :
    (limit i : ℕ) (ns : List Node) (s : State)
    → 0 < limit
    → (start_from limit i ns s).inflight ≡ 0
    → (start_from limit i ns s ≡ s) × Visited i ns s
unfolding start_from
start_from_idle limit i [] s pos idle = (refl, tt)
start_from_idle limit i (n ∷ ns) s pos idle = elim (Bool-cases (leb limit s.inflight)) [
  | inl full ↦ absurd (ground (arith, full, rw (full, start_from) at idle))
  | inr room ↦
      let idle' : (start_from limit (suc i) ns (visit i n s)).inflight ≡ 0 =
        rw (room, start_from) at idle in
      let (same, this) =
        visit_idle i n s
          (omega (arith, idle', start_from-inflight limit (suc i) ns (visit i n s))) in
      let (rest, others) =
        start_from_idle limit (suc i) ns s pos
          (sym (ap (λ u. (start_from limit (suc i) ns u).inflight) same) ∙ idle') in
      (rw (room, start_from) (ap (start_from limit (suc i) ns) same ∙ rest), (this, others))
]

-- Where the loop breaks, nothing was launched in the last scan.
begin_round_idle :
    (sch : Scheduler) (r : Round) (s : State)
    → (begin_round sch r s).inflight ≡ 0
    → keep (cancelled_if r.ctx_at_start s) ≡ true
    → (begin_round sch r s ≡ cancelled_if r.ctx_at_start s)
      × Visited 0 sch.nodes (cancelled_if r.ctx_at_start s)
unfolding begin_round start_ready
begin_round_idle sch r s idle k =
    let (same, v) =
      start_from_idle (max sch.max_parallel 1) 0 sch.nodes (cancelled_if r.ctx_at_start s)
        (omega arith) (rw (k, start_ready) at idle) in
    (rw (k, start_ready) same, v)

keep-begin_round :
    (sch : Scheduler) (r : Round) (s : State)
    → keep (begin_round sch r s) ≡ true
    → keep (cancelled_if r.ctx_at_start s) ≡ true
unfolding begin_round start_ready
keep-begin_round sch r s k = elim (Bool-cases (keep (cancelled_if r.ctx_at_start s))) [
  | inl e ↦ e
  | inr e ↦ rw (e, start_ready) at k
]

-- Where the loop breaks with the run neither red nor cancelled, no node is ready but unstarted.
exit-Visited :
    (sch : Scheduler) (rs : List Round) (t : State)
    → WellNamed sch.nodes
    → loop sch rs (initial sch.nodes) ≡ some t
    → keep t ≡ true
    → Visited 0 sch.nodes t
exit-Visited sch rs t w e k =
    let x = loop-Head sch rs t w e in
    let (same, v) =
      begin_round_idle sch x.last x.head x.idle
        (keep-begin_round sch x.last x.head (subst (λ u. keep u ≡ true) x.begun k)) in
    subst (Visited 0 sch.nodes) (sym (x.begun ∙ same)) v

first_red_green :
    (ns : List Node) (results : Map CheckResult) (i : ℕ) (n : Node)
    → first_red ns results ≡ none
    → get_elem? ns i ≡ some n
    → has n.name results ≡ true
    → dep_green results n.name ≡ true
unfolding first_red dep_green
first_red_green [] results i n clean at h = cc
first_red_green (m ∷ ms) results zero n clean at h = ground (arith, ap (λ x. x.name) (some_inj at))
first_red_green (m ∷ ms) results (suc i) n clean at h =
    ground (arith, first_red_green ms results i n)

-- A name of the graph stands somewhere in it.
position :
    (ns : List Node) (k : String)
    → contains (map (λ n. n.name) ns) k ≡ true
    → (i : ℕ) × (n : Node) × (get_elem? ns i ≡ some n) × (n.name ≡ k)
position [] k h = cc
position (n ∷ ns) k h = elim (Bool-cases (str_eq n.name k)) [
  | inl e ↦ (0, n, refl, (eq_iff n.name k).0 e)
  | inr e ↦ let (i, m, at, q) = position ns k (ground (arith, e, h)) in (suc i, m, at, q)
]

-- All edges of a list are green if each is.
ready_intro :
    (results : Map CheckResult) (deps : List String)
    → All (λ d. dep_green results d ≡ true) deps
    → ready results deps ≡ true
unfolding ready
ready_intro results [] a = refl
ready_intro results (d ∷ ds) a = ground (arith, a.0, ready_intro results ds a.1)

module _ (sch : Scheduler) (rs : List Round) (t : State) (rank : String → ℕ)
    (w : WellNamed sch.nodes) (r : Ranked rank sch.nodes)
    (e : loop sch rs (initial sch.nodes) ≡ some t) (k : keep t ≡ true) where
  below :
      (bound i : ℕ) (n : Node)
      → get_elem? sch.nodes i ≡ some n
      → rank n.name < bound
      → has n.name t.results ≡ true
  below zero i n at h = absurd (omega arith)
  below (suc bound) i n at h = elim (Bool-cases (elem i t.starts)) [
    | inl begun ↦
        (exit-Head sch rs t w e).0.1.delivered i n at begun (ap (elem i) (loop_drained sch rs t e))
          k
    | inr not_begun ↦
        let v = exit-Head sch rs t w e in
        let idle : ready t.results n.after ≡ false =
          Visited-at 0 sch.nodes t i i n (exit-Visited sch rs t w e k) at (omega arith)
            (sym (v.0.0.listed i) ∙ not_begun) in
        let green : All (λ d. dep_green t.results d ≡ true) n.after =
          All-map
            (λ d p.
              let (j, m, at', q) = position sch.nodes d p.1 in
              subst (λ x. dep_green t.results x ≡ true) q
                (first_red_green sch.nodes t.results j m (v.1 k) at'
                  (below bound j m at' (omega (arith, ap rank q, p.0)))))
            n.after (r i n at) in
        cc (idle, ready_intro t.results n.after green)
  ]

  -- Where the loop breaks with the run neither red nor cancelled, every node has a result.
  pub loop_finishes :
      (i : ℕ) (n : Node) → get_elem? sch.nodes i ≡ some n → has n.name t.results ≡ true
  loop_finishes i n at = below (suc (rank n.name)) i n at (omega arith)

-- If every node has a result, the number of results is the number of nodes.
count_done_full :
    (ns : List Node) (results : Map CheckResult)
    → ((i : ℕ) (n : Node) → get_elem? ns i ≡ some n → has n.name results ≡ true)
    → count_done ns results ≡ length ns
unfolding count_done
count_done_full [] results h = refl
count_done_full (n ∷ ns) results h =
    ground (arith, h 0 n refl, count_done_full ns results (λ i m at. h (suc i) m at))

-- The report that some node never became ready: what the state must be for it.
never_ready_inv :
    (sch : Scheduler) (s : State) (left all : ℕ)
    → (conclude sch s).err ≡ some (never_ready left all)
    → (s.ctx_done ≡ false) × (s.culprit ≡ "") × (length s.results ≢ length sch.nodes)
unfolding conclude
never_ready_inv sch s left all h = ground (arith, eq_iff s.culprit "")

-- On a graph whose `after` edges name nodes of the graph and do not cycle, `Run` never reports that
-- nodes never became ready.
pub run-never_ready :
    (sch : Scheduler) (rs : List Round) (ctx_at_end : Bool) (rank : String → ℕ) (left all : ℕ)
    {rep : Report}
    → WellNamed sch.nodes
    → Ranked rank sch.nodes
    → run sch rs ctx_at_end ≡ some rep
    → rep.err ≢ some (never_ready left all)
run-never_ready sch rs ctx_at_end rank left all {rep} w r e stuck =
    let (t, q, eq) = run_inv sch rs ctx_at_end rep e in
    let (alive, clear, short) =
      never_ready_inv sch (cancelled_if ctx_at_end t) left all (sym (ap (λ x. x.err) eq) ∙ stuck) in
    let k : keep t ≡ true = keep_alive t ctx_at_end clear alive in
    short (
      (exit-Head sch rs t w q).0.1.total
      ∙ count_done_full sch.nodes t.results (loop_finishes sch rs t rank w r q k))
