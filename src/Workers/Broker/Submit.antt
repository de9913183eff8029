-- ===== src/Workers/Broker/Submit.antt =====
-- workers/broker.go: `Submit`, which finds the latest attempt of a check or adds a job. The key of a
-- job, a digest of the package `verification`, is a parameter. A transaction that is rolled back
-- leaves the broker as it was.
use gauntlet.Workers.Resources.{Requirements, CheckJob, is_empty}
use gauntlet.Workers.Broker.{
  Broker, Row, pending, BrokerError, full, invalid, no_row, not_completed, find_job, update_where,
  count_where, is_active, is_cancelled, is_completed, notify, unix_milli,
}
use gauntlet.Prelude.{
  ltb_ℤ, leb, pos, not, str_eq, ◌||◌, if◌then◌else◌, Bool, String, Option, ℕ, List, [], ◌∷◌, none,
  some,
}

pub data Submitted : Type 0 where
  submitted : String → Submitted
  rejected : BrokerError → Submitted

-- `SELECT … WHERE root=? ORDER BY rowid DESC LIMIT 1`
unfoldable pub latest_of : String → List Row → Option Row
latest_of root [] = none
latest_of root (r ∷ rs) = elim (latest_of root rs) [
  | some s ↦ some s
  | none ↦ if str_eq r.root root then some r else none
]

abbrev pub max_backlog : ℕ
max_backlog = 10000

unfoldable pub is_full : Broker → Bool
is_full b = leb max_backlog (count_where is_active b.jobs)

-- `INSERT … ON CONFLICT(id) DO UPDATE`
unfoldable pub upsert_job : Row → List Row → List Row
upsert_job r [] = r ∷ []
upsert_job r (s ∷ ss) =
    if str_eq s.id r.id
    then record s { wanted = r.wanted; priority = r.priority; owner_epoch = r.owner_epoch } ∷ ss
    else s ∷ upsert_job r ss

abbrev pub revive : Row → Row
revive r = record r { state = pending; token = ""; lease_until = 0; worker = ""; session = "" }

abbrev pub want : Broker → ℕ → Row → Row
want b now r = record r { wanted = unix_milli now; owner_epoch = b.epoch }

-- The branch of a root that has an attempt already.
unfoldable pub resume : Broker → ℕ → Row → Broker × Submitted
resume b now latest =
    let same : Row → Bool = λ r. str_eq r.id latest.id in
    if is_cancelled latest.state
    then (if is_full b then (b, rejected full) else (
      record b { jobs = update_where same (want b now) (update_where same revive b.jobs) },
      submitted latest.id,
    ))
    else (record b { jobs = update_where same (want b now) b.jobs }, submitted latest.id)

abbrev pub new_row : Broker → ℕ → String → String → CheckJob → Requirements → ℕ → String → Row
new_row b now root parent job needs priority id = record {
  id = id;
  job = job;
  needs = needs;
  priority = priority;
  created = unix_milli now;
  wanted = unix_milli now;
  state = pending;
  root = root;
  parent = parent;
  owner_epoch = b.epoch;
  worker = "";
  session = "";
  token = "";
  lease_until = 0;
  result = none;
}

unfoldable pub enqueue : Broker → Row → Broker × Submitted
enqueue b r =
    if is_full b
    then (b, rejected full)
    else (notify (record b { jobs = upsert_job r b.jobs }), submitted r.id)

module _ (key : String → String → List String → List String → String) where
  unfoldable pub submit : Broker → ℕ → String → CheckJob → Requirements → ℕ → Broker × Submitted
  submit b now root job needs priority =
      let parent = job.previous_execution in
      let fresh : String → Broker × Submitted = λ root'. enqueue b (
        new_row b now root' parent job needs priority
          (key root' parent job.command job.retry_tests)) in
      if str_eq root ""
        || is_empty job.command
        || ltb_ℤ needs.resources.slots (pos 1)
        || ltb_ℤ needs.resources.cpu (pos 0)
        || ltb_ℤ needs.resources.memory (pos 0)
      then (b, rejected invalid)
      else if not (str_eq parent "")
      then elim (find_job parent b.jobs) [
        | none ↦ (b, rejected no_row)
        | some r ↦
            if str_eq r.root "" || not (is_completed r.state)
            then (b, rejected not_completed)
            else fresh r.root
      ]
      else elim (latest_of root b.jobs) [ some r ↦ resume b now r | none ↦ fresh root ]
