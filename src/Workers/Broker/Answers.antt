-- ===== src/Workers/Broker/Answers.antt =====
-- workers/broker.go, workers/status.go: the backlog stays bounded, and when an answer is final.
use gauntlet.Workers.Broker.{Broker, Result, find_job}
use gauntlet.Workers.Broker.Wait.{wait_round, answered, waiting_for, enter_wait, leave_wait}
use gauntlet.Workers.Broker.Upkeep.{close_broker, is_older}
use gauntlet.Workers.Broker.Effects.{
  Effect, kept, submit-Effect, cancel-Effect, complete-Effect, renew-Effect, claim-Effect,
}
use gauntlet.Workers.Broker.UpkeepEffects.{
  drain-Effect, cancel_unwatched-Effect, keep_run-Effect, drain_for_removal-Effect,
}
use gauntlet.Workers.Broker.Kept.{
  Effect-ValidBroker, Answered, Answered-wait_round, wait_round-Answered, Effect-Answered,
}
use gauntlet.Workers.Broker.Deletions.{forget_completed-ValidBroker, forget_completed-Answered}
use gauntlet.Workers.Broker.Maintenance.{maintain-ValidBroker, maintain-Answered}
use gauntlet.Workers.Broker.History.{
  Operation, claims, renews, completes, cancels, abandons, forgets, submits, drains, maintains,
  keeps_run, removes, enters, leaves, closes, is_statement, ValidBroker, act, perform, history,
}
use gauntlet.Prelude.{
  ◌||◌, ◌&&◌, not, ltb, str_eq, Bool, String, List, [], ◌∷◌, some, none, true, false, refl, inl,
  inr, ◌≡◌, arith, Bool-cases,
}

-- Whether an operation leaves the completed row of an identity in a database that is open: all do but
-- `Close`, and the two that delete, when nobody waits for the identity: `forgetCompleted` of the
-- identity itself, and `Maintain` when the row was last wanted longer ago than the retention.
abbrev pub spares : String → Operation → Broker → Bool
spares id (forgets k) b = not (str_eq k id) || ltb 0 (waiting_for b id)
spares id (maintains now orphan_grace retention) b =
    ltb 0 (waiting_for b id)
    || elim (find_job id b.jobs) [ none ↦ true | some r ↦ not (is_older now retention r) ]
spares id closes b = false
spares id _ b = true

close_broker-ValidBroker : (b : Broker) → ValidBroker b → ValidBroker (close_broker b)
unfolding close_broker
close_broker-ValidBroker b v = record { keyed = v.keyed; bounded = v.bounded }

wait-Effect : (b : Broker) (id : String) → Effect b (enter_wait b id) × Effect b (leave_wait b id)
unfolding enter_wait leave_wait
wait-Effect b id = (kept refl refl, kept (ground arith) (ground arith))

module _ (key : String → String → List String → List String → String)
    (quote kept_tail : String → String) where
  act-ValidBroker :
      (o : Operation) (b : Broker) → ValidBroker b → ValidBroker (act key quote kept_tail o b)
  unfolding act
  act-ValidBroker (claims now w token) b v =
      Effect-ValidBroker v (claim-Effect b now w token v.keyed)
  act-ValidBroker (renews now id token) b v = Effect-ValidBroker v (renew-Effect b now id token)
  act-ValidBroker (completes id token res) b v =
      Effect-ValidBroker v (complete-Effect quote kept_tail b id token res)
  act-ValidBroker (cancels id) b v = Effect-ValidBroker v (cancel-Effect b id)
  act-ValidBroker (abandons id) b v = Effect-ValidBroker v (cancel_unwatched-Effect b id)
  act-ValidBroker (forgets id) b v = forget_completed-ValidBroker b id v
  act-ValidBroker (submits now root job needs priority) b v =
      Effect-ValidBroker v (submit-Effect key b now root job needs priority v.keyed)
  act-ValidBroker (drains worker draining) b v =
      Effect-ValidBroker v (drain-Effect b worker draining)
  act-ValidBroker (maintains now orphan_grace retention) b v =
      maintain-ValidBroker b now orphan_grace retention v
  act-ValidBroker (keeps_run now run_id sha) b v =
      Effect-ValidBroker v (keep_run-Effect b now run_id sha)
  act-ValidBroker (removes now worker before offline) b v =
      Effect-ValidBroker v (drain_for_removal-Effect b now worker before offline)
  act-ValidBroker (enters id) b v = Effect-ValidBroker v (wait-Effect b id).0
  act-ValidBroker (leaves id) b v = Effect-ValidBroker v (wait-Effect b id).1
  act-ValidBroker closes b v = close_broker-ValidBroker b v

  perform-ValidBroker :
      (o : Operation) (b : Broker) → ValidBroker b → ValidBroker (perform key quote kept_tail o b)
  unfolding perform
  perform-ValidBroker o b v = elim (Bool-cases (b.closed && is_statement o)) [
    | inl e ↦ rw (e, perform) v
    | inr e ↦ rw (e, perform) (act-ValidBroker o b v)
  ]

  -- From a table in which no two rows have the same identity and at most ten thousand jobs are
  -- pending or leased, any operations in any order with any arguments lead to such a table.
  pub history-ValidBroker :
      (os : List Operation) (b : Broker)
      → ValidBroker b
      → ValidBroker (history key quote kept_tail os b)
  unfolding history
  history-ValidBroker [] b v = v
  history-ValidBroker (o ∷ os) b v =
      history-ValidBroker os (perform key quote kept_tail o b) (perform-ValidBroker o b v)

  -- Every operation of a history spares the row of the identity, in the state where it is called.
  abbrev pub all_spare : String → List Operation → Broker → Bool
  all_spare id [] b = true
  all_spare id (o ∷ os) b = spares id o b && all_spare id os (perform key quote kept_tail o b)

  act-Answered :
      (o : Operation) (b : Broker) (id : String) (res : Result)
      → ValidBroker b
      → spares id o b ≡ true
      → Answered id res b
      → Answered id res (act key quote kept_tail o b)
  unfolding act
  act-Answered (claims now w token) b id res v s a =
      Effect-Answered id res (claim-Effect b now w token v.keyed) a
  act-Answered (renews now k token) b id res v s a =
      Effect-Answered id res (renew-Effect b now k token) a
  act-Answered (completes k token r) b id res v s a =
      Effect-Answered id res (complete-Effect quote kept_tail b k token r) a
  act-Answered (cancels k) b id res v s a = Effect-Answered id res (cancel-Effect b k) a
  act-Answered (abandons k) b id res v s a = Effect-Answered id res (cancel_unwatched-Effect b k) a
  act-Answered (forgets k) b id res v s a = forget_completed-Answered b k id res s a
  act-Answered (submits now root job needs priority) b id res v s a =
      Effect-Answered id res (submit-Effect key b now root job needs priority v.keyed) a
  act-Answered (drains worker draining) b id res v s a =
      Effect-Answered id res (drain-Effect b worker draining) a
  act-Answered (maintains now orphan_grace retention) b id res v s a =
      maintain-Answered b now orphan_grace retention id res v.keyed a (rw a.1 at s)
  act-Answered (keeps_run now run_id sha) b id res v s a =
      Effect-Answered id res (keep_run-Effect b now run_id sha) a
  act-Answered (removes now worker before offline) b id res v s a =
      Effect-Answered id res (drain_for_removal-Effect b now worker before offline) a
  act-Answered (enters k) b id res v s a = Effect-Answered id res (wait-Effect b k).0 a
  act-Answered (leaves k) b id res v s a = Effect-Answered id res (wait-Effect b k).1 a
  act-Answered closes b id res v s a = cc s

  perform-Answered :
      (o : Operation) (b : Broker) (id : String) (res : Result)
      → ValidBroker b
      → spares id o b ≡ true
      → Answered id res b
      → Answered id res (perform key quote kept_tail o b)
  unfolding perform
  perform-Answered o b id res v s a = elim (Bool-cases (b.closed && is_statement o)) [
    | inl e ↦ rw (e, perform) a
    | inr e ↦ rw (e, perform) (act-Answered o b id res v s a)
  ]

  history-Answered :
      (os : List Operation) (b : Broker) (id : String) (res : Result)
      → ValidBroker b
      → all_spare id os b ≡ true
      → Answered id res b
      → Answered id res (history key quote kept_tail os b)
  unfolding history
  history-Answered [] b id res v s a = a
  history-Answered (o ∷ os) b id res v s a =
      let both = and_parts (spares id o b) (all_spare id os (perform key quote kept_tail o b)) s in
      history-Answered os (perform key quote kept_tail o b) id res (perform-ValidBroker o b v)
        both.1 (perform-Answered o b id res v both.0 a)
    where
      and_parts : (p q : Bool) → p && q ≡ true → (p ≡ true) × (q ≡ true)
      and_parts p q h = (ground (arith, h), ground (arith, h))

  -- On a table without repeated identities and within the backlog, a result that `Wait` has returned
  -- stays the result of `Wait` through any further operations, as long as the broker is not closed
  -- and no deletion is due: `forgetCompleted` of this job is called only while someone waits for it,
  -- and `Maintain` only while someone does or the job was wanted within the retention.
  pub history-wait_round :
      (os : List Operation) (b : Broker) (id : String) (res : Result)
      → ValidBroker b
      → all_spare id os b ≡ true
      → wait_round b id ≡ answered res
      → wait_round (history key quote kept_tail os b) id ≡ answered res
  history-wait_round os b id res v s h =
      wait_round-Answered id res (history key quote kept_tail os b)
        (history-Answered os b id res v s (Answered-wait_round id res b h))
