-- ===== src/Deploy/Graph.antt =====
-- internal/deploy/graph.go: one run of a deploy node-graph. The goroutines and the context are the
-- environment: a schedule says which results arrive in each round of the loop, in which order, and
-- between which steps the context is cancelled. Go's `""` stands for no culprit, as in the source.
pub mod Loop
pub mod Accounts
pub mod Termination
pub mod Results
pub mod Tracked
pub mod Received
pub mod Head
pub mod Verdict
pub mod Progress
pub mod Starts
use gauntlet.Prelude.{
  ℕ, suc, ◌+◌, ◌-◌, Bool, true, false, ◌&&◌, ◌||◌, not, String, List, [], ◌∷◌, Option, none, some,
  Map, lookup, insert, length, get_or, get_elem?, set, replicate, elem, remove, leb, ◌==◌, str_eq,
  if◌then◌else◌, max,
}
use gauntlet.Core.Types.{CheckResult, zero_result, blocked, node_green}

pub record Node : Type 0 where
  pub name : String
  pub after : List String
  pub command : List String
  pub executor : String

-- `Scheduler`, without its callbacks: `Exec`, the slots and the clock act through the schedule, and
-- the calls of `OnStart` and `OnFinish` are recorded in the state.
pub record Scheduler : Type 0 where
  pub nodes : List Node
  pub max_parallel : ℕ

-- What a node's goroutine met: no slot before its context died, or the executor's answer.
pub data Outcome : Type 0 where
  no_slot : ℕ → String → Outcome
  ran : ℕ → CheckResult → Outcome

-- `start`'s goroutine: the message that it sends.
unfoldable pub node_result : Node → Outcome → CheckResult
node_result n (no_slot waited e) = record zero_result {
  name = n.name;
  waited = waited;
  err = some e;
}
node_result n (ran waited res) = record res { name = n.name; waited = waited }

-- The variables of `Run`. `running` is the set of goroutines that have not sent yet, `ctx_done`
-- says whether `ctx.Err()` is set, and `stopped` whether `cancel` was called.
pub record State : Type 0 where
  pub results : Map CheckResult
  pub started : List Bool
  pub inflight : ℕ
  pub culprit : String
  pub ctx_done : Bool
  pub stopped : Bool
  pub running : List ℕ
  pub starts : List ℕ
  pub finishes : List ℕ

unfoldable pub initial : List Node → State
initial nodes = record {
  results = [];
  started = replicate (length nodes) false;
  inflight = 0;
  culprit = "";
  ctx_done = false;
  stopped = false;
  running = [];
  starts = [];
  finishes = [];
}

-- The closure `keep`.
unfoldable pub keep : State → Bool
keep s = str_eq s.culprit "" && not s.ctx_done

unfoldable pub dep_green : Map CheckResult → String → Bool
dep_green results dep = elim (lookup dep results) [ none ↦ false | some res ↦ node_green res ]

-- The readiness test: every `after` edge is green.
unfoldable pub ready : Map CheckResult → List String → Bool
ready results [] = true
ready results (dep ∷ deps) = dep_green results dep && ready results deps

unfoldable pub launch : ℕ → State → State
launch i s = record s {
  started = set s.started i true;
  inflight = s.inflight + 1;
  running = i ∷ s.running;
  starts = i ∷ s.starts;
}

unfoldable pub visit : ℕ → Node → State → State
visit i n s =
    if get_or s.started i false then s else if ready s.results n.after then launch i s else s

-- Step (1): the scan over the nodes from index `i`, in spec order.
unfoldable pub start_from : ℕ → ℕ → List Node → State → State
start_from limit i [] s = s
start_from limit i (n ∷ ns) s =
    if leb limit s.inflight then s else start_from limit (suc i) ns (visit i n s)

unfoldable pub start_ready : Scheduler → State → State
start_ready sch s = if keep s then start_from (max sch.max_parallel 1) 0 sch.nodes s else s

-- The closure `store`, for a message of node `i`.
unfoldable pub store : ℕ → Node → CheckResult → State → State
store i n res s =
    if keep s
    then record s { results = insert n.name res s.results; finishes = i ∷ s.finishes }
    else s

abbrev pub cancelled_if : Bool → State → State
cancelled_if c s = record s { ctx_done = s.ctx_done || c }

-- A message: whether the context was cancelled before it was stored, its node and the outcome.
pub record Arrival : Type 0 where
  pub ctx_first : Bool
  pub idx : ℕ
  pub outcome : Outcome

-- Step (2), one receive. A message of a node that does not run cannot be in the channel: `none`.
unfoldable pub receive : List Node → Arrival → State → Option State
receive nodes a s =
    if elem a.idx s.running
    then elim (get_elem? nodes a.idx) [
      | none ↦ none
      | some n ↦ some (
          store a.idx n (node_result n a.outcome) (
            cancelled_if a.ctx_first
              (record s { inflight = s.inflight - 1; running = remove a.idx s.running })))
    ]
    else none

unfoldable pub receive_all : List Node → List Arrival → State → Option State
receive_all nodes [] s = some s
receive_all nodes (a ∷ as') s = elim (receive nodes a s) [
  | none ↦ none
  | some s' ↦ receive_all nodes as' s'
]

-- The first non-green result in spec order.
unfoldable pub first_red : List Node → Map CheckResult → Option String
first_red [] results = none
first_red (n ∷ ns) results = elim (lookup n.name results) [
  | none ↦ first_red ns results
  | some res ↦ if node_green res then first_red ns results else some n.name
]

-- Step (3).
unfoldable pub cull : List Node → State → State
cull nodes s =
    if keep s
    then elim (first_red nodes s.results) [
      | none ↦ s
      | some name ↦ record s { culprit = name; stopped = true }
    ]
    else s

-- One round of the loop: the context may be cancelled before the starts and before the cull, and
-- at least one message arrives if anything is in flight.
pub record Round : Type 0 where
  pub ctx_at_start : Bool
  pub arrivals : List Arrival
  pub ctx_at_cull : Bool

unfoldable pub begin_round : Scheduler → Round → State → State
begin_round sch r s = start_ready sch (cancelled_if r.ctx_at_start s)

-- Steps (2) and (3) of a round in which something is in flight.
unfoldable pub end_round : Scheduler → Round → State → Option State
end_round sch r s = elim r.arrivals [
  | [] ↦ none
  | a ∷ as' ↦ elim (receive_all sch.nodes (a ∷ as') s) [
    | none ↦ none
    | some s' ↦ some (cull sch.nodes (cancelled_if r.ctx_at_cull s'))
  ]
]

-- The loop of `Run`, up to its `break`. A schedule that is over too soon, or that cannot happen, is
-- `none`.
unfoldable pub loop : Scheduler → List Round → State → Option State
loop sch [] s = none
loop sch (r ∷ rs) s =
    let rest : Option State = elim (end_round sch r (begin_round sch r s)) [
      | none ↦ none
      | some s' ↦ loop sch rs s'
    ] in
    if (begin_round sch r s).inflight == 0 then some (begin_round sch r s) else rest

pub data RunError : Type 0 where
  cancelled : RunError
  never_ready : ℕ → ℕ → RunError

-- The names of a node's edges that are not green.
unfoldable pub red_deps : Map CheckResult → List String → List String
red_deps results [] = []
red_deps results (dep ∷ deps) =
    if dep_green results dep then red_deps results deps else dep ∷ red_deps results deps

abbrev pub or_culprit : String → List String → List String
or_culprit culprit [] = culprit ∷ []
or_culprit culprit (d ∷ ds) = d ∷ ds

-- `materialize`, from the node with index `i`.
unfoldable pub materialize_from : ℕ → List Node → Map CheckResult → String → List CheckResult
materialize_from i [] results culprit = []
materialize_from i (n ∷ ns) results culprit =
    let rest = materialize_from (suc i) ns results culprit in
    elim (lookup n.name results) [
      | some res ↦ record res { seq = i + 1 } ∷ rest
      | none ↦
          if str_eq culprit ""
          then rest
          else (record zero_result {
            name = n.name;
            seq = i + 1;
            status = blocked;
            blocked_by = or_culprit culprit (red_deps results n.after);
          })
            ∷ rest
    ]

unfoldable pub materialize : List Node → Map CheckResult → String → List CheckResult
materialize nodes results culprit = materialize_from 0 nodes results culprit

pub record Report : Type 0 where
  pub rows : List CheckResult
  pub culprit : String
  pub err : Option RunError

-- The `switch` after the loop and the result of `Run`.
unfoldable pub conclude : Scheduler → State → Report
conclude sch s =
    if s.ctx_done
    then record { rows = materialize sch.nodes s.results ""; culprit = ""; err = some cancelled }
    else record {
      rows = materialize sch.nodes s.results s.culprit;
      culprit = s.culprit;
      err =
          if str_eq s.culprit "" && not (length s.results == length sch.nodes)
          then some (never_ready (length sch.nodes - length s.results) (length sch.nodes))
          else none;
    }

-- `Run` over a schedule; `ctx_at_end` says whether the context is cancelled before the `switch`.
unfoldable pub run : Scheduler → List Round → Bool → Option Report
run sch rs ctx_at_end = elim (loop sch rs (initial sch.nodes)) [
  | none ↦ none
  | some s ↦ some (conclude sch (cancelled_if ctx_at_end s))
]
