-- ===== src/Workers/Broker/Wait.antt =====
-- workers/broker.go: `Wait`, one pass of its loop, and the count of those who wait.
use gauntlet.Workers.Broker.{
  Broker, Result, BrokerError, stale, no_row, is_closed, undecodable, pending, leased, completed,
  cancelled, find_job,
}
use gauntlet.Prelude.{lookup, insert, erase, ◌+◌, ◌-◌, ◌==◌, if◌then◌else◌, String, ℕ, none, some}

pub data Waited : Type 0 where
  answered : Result → Waited
  gave_up : BrokerError → Waited
  waits : ℕ → Waited

abbrev pub waiting_for : Broker → String → ℕ
waiting_for b id = elim (lookup id b.waiters) [ none ↦ 0 | some n ↦ n ]

unfoldable pub enter_wait : Broker → String → Broker
enter_wait b id = record b { waiters = insert id (waiting_for b id + 1) b.waiters }

unfoldable pub leave_wait : Broker → String → Broker
leave_wait b id =
    if waiting_for b id - 1 == 0
    then record b { waiters = erase id b.waiters }
    else record b { waiters = insert id (waiting_for b id - 1) b.waiters }

-- What a pass of the loop finds: an answer, or the broadcast to wait for.
unfoldable pub wait_round : Broker → String → Waited
wait_round b id = if b.closed then gave_up is_closed else elim (find_job id b.jobs) [
  | none ↦ gave_up no_row
  | some r ↦ elim r.state [
    | cancelled ↦ gave_up stale
    | completed ↦ elim r.result [ none ↦ gave_up undecodable | some res ↦ answered res ]
    | pending ↦ waits b.changed
    | leased ↦ waits b.changed
  ]
]
