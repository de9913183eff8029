-- ===== src/Workers/Broker/UpkeepEffects.antt =====
-- workers/status.go: what its updates do to the table of jobs.
use gauntlet.Workers.Broker.{Broker, count_where, unix_milli}
use gauntlet.Workers.Broker.Claim.{find_peer}
use gauntlet.Workers.Broker.Effects.{Effect, kept, updated, cancel-Effect}
use gauntlet.Workers.Broker.Wait.{waiting_for}
use gauntlet.Workers.Broker.Upkeep.{
  drain, cancel_unwatched, keep_run, drain_for_removal, return_row, leased_by,
}
use gauntlet.Prelude.{
  ◌==◌, ◌&&◌, ◌||◌, ◌+◌, leb, ltb, Bool, String, ℕ, refl, inl, inr, arith, Bool-cases, Option-cases,
}

pub drain-Effect :
    (b : Broker) (worker : String) (draining : Bool) → Effect b (drain b worker draining).0
unfolding drain
drain-Effect b worker draining = elim (Option-cases (find_peer worker b.peers)) [
  | inl q ↦ kept (ground (arith, q)) (ground (arith, q))
  | inr (p, q) ↦ kept (ground (arith, q)) (ground (arith, q))
]

pub cancel_unwatched-Effect : (b : Broker) (id : String) → Effect b (cancel_unwatched b id)
unfolding cancel_unwatched
cancel_unwatched-Effect b id = elim (Bool-cases (waiting_for b id == 0)) [
  | inl e ↦ rw (e, cancel_unwatched) (cancel-Effect b id)
  | inr e ↦ kept (ground (arith, e)) (ground (arith, e))
]

pub keep_run-Effect :
    (b : Broker) (now : ℕ) (run_id sha : String) → Effect b (keep_run b now run_id sha)
unfolding keep_run
keep_run-Effect b now run_id sha =
    updated _ (λ r. record r { wanted = unix_milli now; owner_epoch = b.epoch }) (λ r. refl)
      (λ r m t a. a) (λ r m t c. (refl, refl)) refl refl

pub drain_for_removal-Effect :
    (b : Broker) (now : ℕ) (worker : String) (before : ℕ) (offline : Bool)
    → Effect b (drain_for_removal b now worker before offline).0
unfolding drain_for_removal
drain_for_removal-Effect b now worker before offline =
    elim (Option-cases (find_peer worker b.peers)) [
      | inl q ↦ kept (ground (arith, q)) (ground (arith, q))
      | inr (p, q) ↦ elim (Bool-cases offline) [
        | inr off ↦ kept (ground (arith, q, off)) (ground (arith, q, off))
        | inl off ↦
            elim (Bool-cases (leb (unix_milli before) p.seen || ltb now (b.born + b.grace))) [
              | inl early ↦ kept (ground (arith, q, off, early)) (ground (arith, q, off, early))
              | inr early ↦
                  elim (Bool-cases (
                    count_where (λ r. leased_by worker r && leb (unix_milli now) r.lease_until)
                      b.jobs
                    == 0)) [
                      | inr held ↦
                          kept (ground (arith, q, off, early, held))
                            (ground (arith, q, off, early, held))
                      | inl held ↦
                          updated (leased_by worker) return_row (λ r. refl)
                            (λ r m t a. ground (arith, t))
                            (λ r m t c. absurd (ground (arith, t, c)))
                            (ground (arith, q, off, early, held))
                            (ground (arith, q, off, early, held))
                    ]
            ]
      ]
    ]
