-- ===== src/Workers/Broker/History.antt =====
-- workers/broker.go, workers/status.go: the operations of the broker one after another.
use gauntlet.Workers.Resources.{Requirements, CheckJob, Worker}
use gauntlet.Workers.Broker.{
  Broker, Result, count_where, is_active, renew, cancel, forget_completed,
}
use gauntlet.Workers.Broker.Leases.{job_ids}
use gauntlet.Workers.Broker.Submit.{submit}
use gauntlet.Workers.Broker.Complete.{complete}
use gauntlet.Workers.Broker.Wait.{enter_wait, leave_wait}
use gauntlet.Workers.Broker.Upkeep.{
  close_broker, drain, maintain, cancel_unwatched, keep_run, drain_for_removal,
}
use gauntlet.Workers.Broker.Claim.{claim}
use gauntlet.Prelude.{
  ◌&&◌, if◌then◌else◌, Bool, String, ℕ, List, [], ◌∷◌, ◌≤◌, Unrepeated, true, false,
}

pub data Operation : Type 0 where
  claims : ℕ → Worker → String → Operation
  renews : ℕ → String → String → Operation
  completes : String → String → Result → Operation
  cancels abandons forgets : String → Operation
  submits : ℕ → String → CheckJob → Requirements → ℕ → Operation
  drains : String → Bool → Operation
  maintains : ℕ → ℕ → ℕ → Operation
  keeps_run : ℕ → String → String → Operation
  removes : ℕ → String → ℕ → Bool → Operation
  enters leaves : String → Operation
  closes : Operation

-- All but the count of those who wait, and `Close` itself, is a statement of the database.
abbrev pub is_statement : Operation → Bool
is_statement (enters id) = false
is_statement (leaves id) = false
is_statement closes = false
is_statement _ = true

-- The table's key, and the bound on the backlog.
pub record ValidBroker (b : Broker) : Type 0 where
  pub keyed : Unrepeated (job_ids b.jobs)
  pub bounded : count_where is_active b.jobs ≤ 10000

-- The digest of a job, and the parameters of `complete`.
module _ (key : String → String → List String → List String → String)
    (quote kept_tail : String → String) where
  -- The operation on a database that is open.
  unfoldable pub act : Operation → Broker → Broker
  act (claims now w token) b = (claim b now w token).0
  act (renews now id token) b = (renew b now id token).0
  act (completes id token res) b = (complete quote kept_tail b id token res).0
  act (cancels id) b = cancel b id
  act (abandons id) b = cancel_unwatched b id
  act (forgets id) b = forget_completed b id
  act (submits now root job needs priority) b = (submit key b now root job needs priority).0
  act (drains worker draining) b = (drain b worker draining).0
  act (maintains now orphan_grace retention) b = maintain b now orphan_grace retention
  act (keeps_run now run_id sha) b = keep_run b now run_id sha
  act (removes now worker before offline) b = (drain_for_removal b now worker before offline).0
  act (enters id) b = enter_wait b id
  act (leaves id) b = leave_wait b id
  act closes b = close_broker b

  -- A closed database refuses every statement, and nothing changes.
  unfoldable pub perform : Operation → Broker → Broker
  perform o b = if b.closed && is_statement o then b else act o b

  unfoldable pub history : List Operation → Broker → Broker
  history [] b = b
  history (o ∷ os) b = history os (perform o b)
