-- ===== src/Workers/Broker.antt =====
-- internal/workers/broker.go: the broker's tables and its operations. A SQL statement is a function
-- on the list of rows, which stand in the order of their rowid; statements succeed until `Close`, and
-- JSON keeps what it is given. Times are nanoseconds, and `unix_milli` those that the tables keep. A
-- random token is an argument of `claim`, and `changed` counts the broadcasts.
pub mod Claim
pub mod Order
pub mod Submit
pub mod Complete
pub mod Wait
pub mod Upkeep
pub mod Leases
pub mod Table
pub mod Effects
pub mod UpkeepEffects
pub mod History
pub mod Kept
pub mod Deletions
pub mod Maintenance
pub mod Answers
pub mod Fencing
pub mod Capacity
use gauntlet.Core.Types.{CheckResult}
use gauntlet.Prelude.{
  map, suc, ◌&&◌, ◌==◌, str_eq, Option, lookup, Map, ◌||◌, if◌then◌else◌, Bool, ◌+◌, ◌/◌, String, ℕ,
  List, [], ◌∷◌, none, some, true, false,
}
use Prim.Native.String
use gauntlet.Workers.Resources.{Requirements, CheckJob, Worker, Resources}

pub data JobState : Type 0 where
  pending leased completed cancelled : JobState

abbrev pub is_pending : JobState → Bool
is_pending pending = true
is_pending _ = false

abbrev pub is_leased : JobState → Bool
is_leased leased = true
is_leased _ = false

abbrev pub is_completed : JobState → Bool
is_completed completed = true
is_completed _ = false

abbrev pub is_cancelled : JobState → Bool
is_cancelled cancelled = true
is_cancelled _ = false

-- `Result`: the error interface of the check is a string on the wire.
pub record Result : Type 0 where
  pub attempt_log_path : String
  pub check : CheckResult
  pub error : String
  pub log_digest : String

-- A row of `worker_jobs`.
pub record Row : Type 0 where
  pub id : String
  pub job : CheckJob
  pub needs : Requirements
  pub priority : ℕ
  pub created : ℕ
  pub wanted : ℕ
  pub state : JobState
  pub root : String
  pub parent : String
  pub owner_epoch : String
  pub worker : String
  pub session : String
  pub token : String
  pub lease_until : ℕ
  pub result : Option Result

-- A row of `worker_peers`.
pub record Peer : Type 0 where
  pub id : String
  pub session : String
  pub seen : ℕ
  pub advertised : Worker
  pub draining : Bool

pub record Broker : Type 0 where
  pub epoch : String
  pub born : ℕ
  pub lease : ℕ
  pub grace : ℕ
  pub jobs : List Row
  pub peers : List Peer
  pub waiters : Map ℕ
  pub changed : ℕ
  pub closed : Bool

-- The errors, by where the operations return them.
pub data BrokerError : Type 0 where
  stale full invalid active_elsewhere no_row not_completed error_on_wire out_of_bounds bad_verdict
        untested no_predecessor is_closed undecodable unknown_worker :
      BrokerError

abbrev pub unix_milli : ℕ → ℕ
unix_milli t = t / 1000000

abbrev pub notify : Broker → Broker
notify b = record b { changed = b.changed + 1 }

-- `SELECT … WHERE id=?`
unfoldable pub find_job : String → List Row → Option Row
find_job id [] = none
find_job id (r ∷ rs) = if str_eq r.id id then some r else find_job id rs

-- `UPDATE … WHERE …`
unfoldable pub update_where : (Row → Bool) → (Row → Row) → List Row → List Row
update_where test f [] = []
update_where test f (r ∷ rs) = (if test r then f r else r) ∷ update_where test f rs

-- The rows that an `UPDATE` affects, and `SELECT COUNT(*)`.
unfoldable pub count_where : (Row → Bool) → List Row → ℕ
count_where test [] = 0
count_where test (r ∷ rs) = if test r then suc (count_where test rs) else count_where test rs

abbrev pub is_active : Row → Bool
is_active r = is_pending r.state || is_leased r.state

-- `Renew`
abbrev pub held_under : String → String → Row → Bool
held_under id token r = str_eq r.id id && str_eq r.token token && is_leased r.state

abbrev pub touch_peer : ℕ → String → String → List Row → Peer → Peer
touch_peer now id token rows p =
    elim (count_where
      (λ r.
        str_eq r.id id
        && str_eq r.token token
        && str_eq r.worker p.id
        && str_eq r.session p.session)
      rows) [ ℕ.zero ↦ p | suc _ ↦ record p { seen = unix_milli now } ]

unfoldable pub renew : Broker → ℕ → String → String → Broker × Option BrokerError
renew b now id token =
    let n = count_where (held_under id token) b.jobs in
    let rows =
      update_where (held_under id token)
        (λ r. record r { lease_until = unix_milli (now + b.lease) }) b.jobs in
    if n == 1
    then (record b { jobs = rows; peers = map (touch_peer now id token rows) b.peers }, none)
    else (record b { jobs = rows }, some stale)

-- `Cancel`
unfoldable pub cancel : Broker → String → Broker
cancel b id = notify (record b {
  jobs =
      update_where (λ r. str_eq r.id id && is_active r) (λ r. record r { state = cancelled })
        b.jobs;
})

unfoldable pub delete_where : (Row → Bool) → List Row → List Row
delete_where test [] = []
delete_where test (r ∷ rs) = if test r then delete_where test rs else r ∷ delete_where test rs

-- `forgetCompleted`
unfoldable pub forget_completed : Broker → String → Broker
forget_completed b id = elim (lookup id b.waiters) [
  | some (suc _) ↦ b
  | _ ↦ record b { jobs = delete_where (λ r. str_eq r.id id && is_completed r.state) b.jobs }
]
