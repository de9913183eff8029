-- ===== src/Workers/Broker/Claim.antt =====
-- workers/broker.go: `Claim`, which leases the first acceptable job of the queue to a worker.
use Prim.Native.String.{compare as str_compare}
use text.Mathlib.Text.{is_le}
use gauntlet.Prelude.{
  leb, ◌*◌, leb_ℤ, ◌+◌, ◌&&◌, pos, pos_part, not, ◌||◌, ltb_ℤ, contains, str_eq, ltb, ◌-ℤ◌, ℤ,
  String, Bool, Option, if◌then◌else◌, min_ℤ, ℕ, List, [], ◌∷◌, none, some, true, false,
}
use gauntlet.Workers.Resources.{
  reserved_share, fits, accepts, Requirements, subtract, CheckJob, Worker, Resources,
}
use gauntlet.Workers.Broker.{
  is_pending, active_elsewhere, invalid, update_where, notify, leased, is_leased, BrokerError,
  unix_milli, Broker, Row, Peer,
}

abbrev pub ltb_zero : ℤ → Bool
ltb_zero a = ltb_ℤ a (pos 0)

unfoldable pub valid_worker : Worker → Bool
valid_worker w =
    not (str_eq w.id "")
    && not (str_eq w.session "")
    && leb_ℤ (pos 1) w.capacity.slots
    && leb_ℤ w.capacity.slots (pos 4096)
    && ltb_ℤ (pos 0) w.capacity.cpu
    && ltb_ℤ (pos 0) w.capacity.memory
    && not (ltb_zero w.usage.slots)
    && not (ltb_zero w.usage.cpu)
    && not (ltb_zero w.usage.memory)
    && not (ltb_zero w.urgent_reserve)
    && ltb_ℤ w.urgent_reserve w.capacity.slots

unfoldable pub find_peer : String → List Peer → Option Peer
find_peer id [] = none
find_peer id (p ∷ ps) = if str_eq p.id id then some p else find_peer id ps

-- `INSERT … ON CONFLICT(id) DO UPDATE`: a known peer keeps its draining mark.
unfoldable pub upsert_peer : Worker → ℕ → List Peer → List Peer
upsert_peer w now [] =
    record {
      id = w.id;
      session = w.session;
      seen = unix_milli now;
      advertised = w;
      draining = false;
    }
    ∷ []
upsert_peer w now (p ∷ ps) =
    if str_eq p.id w.id
    then record p { session = w.session; seen = unix_milli now; advertised = w } ∷ ps
    else p ∷ upsert_peer w now ps

-- Another session of the same identity was seen within a lease.
unfoldable pub is_taken : Broker → ℕ → Worker → Bool
is_taken b now w = elim (find_peer w.id b.peers) [
  | none ↦ false
  | some p ↦ not (str_eq p.session w.session) && ltb now (p.seen * 1000000 + b.lease)
]

abbrev pub leased_to : String → String → Row → Bool
leased_to id session r = is_leased r.state && str_eq r.worker id && str_eq r.session session

-- The loop that subtracts what the worker's session holds.
unfoldable pub free_of : Resources → String → String → List Row → Resources
free_of available id session [] = available
free_of available id session (r ∷ rs) =
    free_of (if leased_to id session r then subtract available r.needs.resources else available) id
      session rs

unfoldable pub available : Worker → List Row → Resources
available w rows =
    let free = free_of w.capacity w.id w.session rows in
    record {
      slots = min_ℤ free.slots (w.capacity.slots -ℤ w.usage.slots);
      cpu = min_ℤ free.cpu (w.capacity.cpu -ℤ w.usage.cpu);
      memory = min_ℤ free.memory (w.capacity.memory -ℤ w.usage.memory);
    }

unfoldable pub is_draining : Worker → List Peer → Bool
is_draining w peers =
    w.draining || elim (find_peer w.id peers) [ none ↦ false | some p ↦ p.draining ]

-- The `WHERE` of the query for work.
unfoldable pub claimable : Broker → ℕ → Worker → Row → Bool
claimable b now w r =
    contains w.profiles r.job.executor
    && ((is_pending r.state && str_eq r.owner_epoch b.epoch)
        || (is_leased r.state
            && str_eq r.owner_epoch b.epoch
            && ltb r.lease_until (unix_milli now)
            && leb (unix_milli (b.born + b.grace)) (unix_milli now)))

-- `ORDER BY priority DESC,created,id`
unfoldable pub comes_first : Row → Row → Bool
comes_first r s =
    if ltb s.priority r.priority
    then true
    else if ltb r.priority s.priority
    then false
    else if ltb r.created s.created
    then true
    else if ltb s.created r.created
    then false
    else is_le (str_compare r.id s.id)

unfoldable pub insert_row : Row → List Row → List Row
insert_row r [] = r ∷ []
insert_row r (s ∷ ss) = if comes_first r s then r ∷ s ∷ ss else s ∷ insert_row r ss

unfoldable pub query : (Row → Bool) → List Row → List Row
query test [] = []
query test (r ∷ rs) = if test r then insert_row r (query test rs) else query test rs

-- Whether an ordinary job would leave less than the reserve for urgent ones.
unfoldable pub starves_urgent : Worker → Resources → Row → Bool
starves_urgent w free r =
    let after = subtract free r.needs.resources in
    let slots = pos_part w.capacity.slots in
    let reserve = pos_part w.urgent_reserve in
    ltb_ℤ after.slots w.urgent_reserve
    || ltb_ℤ after.cpu (pos (reserved_share (pos_part w.capacity.cpu) slots reserve))
    || ltb_ℤ after.memory (pos (reserved_share (pos_part w.capacity.memory) slots reserve))

unfoldable pub admits : Worker → Resources → Row → Bool
admits w free r =
    if not (accepts w r.job r.needs) || not (fits r.needs.resources free)
    then false
    else if ltb r.priority 3
    then not (starves_urgent w free r)
    else true

-- The loop over the query's rows.
unfoldable pub first_admitted : Worker → Resources → List Row → Option Row
first_admitted w free [] = none
first_admitted w free (r ∷ rs) = if admits w free r then some r else first_admitted w free rs

pub record Attempt : Type 0 where
  pub id : String
  pub token : String
  pub worker : String
  pub lease_until : ℕ
  pub lease_millis : ℕ
  pub job : CheckJob
  pub requirements : Requirements

pub data Claimed : Type 0 where
  refused : BrokerError → Claimed
  nothing : Claimed
  given : Attempt → Claimed

unfoldable pub lease_row : Broker → ℕ → Worker → String → Row → Row
lease_row b now w token r = record r {
  state = leased;
  worker = w.id;
  session = w.session;
  token = token;
  lease_until = unix_milli (now + b.lease);
}

abbrev pub grant : Broker → ℕ → Worker → String → Row → Broker × Claimed
grant b now w token r = (
  notify (record b {
    jobs = update_where (λ s. str_eq s.id r.id) (lease_row b now w token) b.jobs;
    peers = upsert_peer w now b.peers;
  }),
  given (record {
    id = r.id;
    token = token;
    worker = w.id;
    lease_until = now + b.lease;
    lease_millis = unix_milli b.lease;
    job = r.job;
    requirements = r.needs;
  }),
)

unfoldable pub pick : Broker → ℕ → Worker → Option Row
pick b now w = first_admitted w (available w b.jobs) (query (claimable b now w) b.jobs)

unfoldable pub claim : Broker → ℕ → Worker → String → Broker × Claimed
claim b now w token =
    if not (valid_worker w)
    then (b, refused invalid)
    else if is_taken b now w
    then (b, refused active_elsewhere)
    else if is_draining w b.peers
    then (record b { peers = upsert_peer w now b.peers }, nothing)
    else elim (pick b now w) [
      | none ↦ (record b { peers = upsert_peer w now b.peers }, nothing)
      | some r ↦ grant b now w token r
    ]
