-- ===== src/Workers/Broker/Fencing.antt =====
-- workers/broker.go: a lease that was given to another worker fences the old one off, and what a
-- completed attempt answers.
use gauntlet.TestReport.{merge_rerun}
use gauntlet.Core.Types.{CheckResult}
use gauntlet.Workers.Resources.{is_empty, Worker}
use gauntlet.Workers.Broker.{
  completed, Broker, Row, Result, stale, find_job, update_where, is_leased, is_completed,
  held_under,
}
use gauntlet.Workers.Broker.Capacity.{claim-given}
use gauntlet.Workers.Broker.Claim.{claim, given, Attempt, grant, lease_row}
use gauntlet.Workers.Broker.Order.{pick_sound}
use gauntlet.Workers.Broker.Complete.{
  not_skipped, complete, judge, finish, with_parent, merge_parent, merge_tests, stamp, store_result,
}
use gauntlet.Workers.Broker.Wait.{wait_round, answered}
use gauntlet.Workers.Broker.Leases.{job_ids}
use gauntlet.Workers.Broker.Table.{find_job-update_where, find_job-In, changed_by}
use gauntlet.Prelude.{
  ◌&&◌, not, if◌then◌else◌, String, ℕ, [], none, some, true, false, refl, inl, inr, ◌≡◌, ◌≢◌, ◌∙◌,
  sym, ap, arith, eq_iff, str_eq, str_eq_refl, Unrepeated, Bool-cases, Option-cases,
}

-- The row of an attempt that a claim gave.
claimed_row :
    (b : Broker) (now : ℕ) (w : Worker) (token : String) (b' : Broker) (t : Attempt)
    → Unrepeated (job_ids b.jobs)
    → claim b now w token ≡ (b', given t)
    → (r : Row) × (find_job t.id b'.jobs ≡ some (lease_row b now w token r))
unfolding lease_row
claimed_row b now w token b' t u h =
    let (r, q, eq, same, _) = claim-given b now w token b' t h in
    let (_, m, _) = pick_sound b now w r q in
    let id : t.id ≡ r.id = cc same in
    (
      r,
      ap (λ x. find_job t.id x.jobs) eq
          ∙ ap (λ k. find_job k (grant b now w token r).0.jobs) id
          ∙ find_job-update_where (λ s. str_eq s.id r.id) (lease_row b now w token) r.id b.jobs
              (λ s. refl)
          ∙ ap (changed_by (λ s. str_eq s.id r.id) (lease_row b now w token))
              (find_job-In b.jobs r u m)
          ∙ ap (λ x. some (if x then lease_row b now w token r else r)) (str_eq_refl r.id),
    )

-- The fields of a result that say whose it is.
abbrev pub IsOf : Row → CheckResult → Type 0
IsOf r check =
    (check.execution_id ≡ r.id)
    × (check.worker ≡ r.worker)
    × (check.name ≡ r.job.name)
    × (check.command ≡ r.job.command)
    × (check.executed_run ≡ r.job.run_id)
    × (check.executed_sha ≡ r.job.merge_sha)
    × (check.verification_id ≡ r.job.verification_id)
    × (check.reused ≡ false)

module _ (quote kept_tail : String → String) where
  -- On a table without repeated identities: after a claim gives an attempt under a token, a
  -- well-formed completion under any other token is stale and changes nothing.
  pub complete_after_claim :
      (b : Broker) (now : ℕ) (w : Worker) (token old : String) (b' : Broker) (t : Attempt)
      (res : Result)
      → Unrepeated (job_ids b.jobs)
      → claim b now w token ≡ (b', given t)
      → token ≢ old
      → res.check.err ≡ none
      → complete quote kept_tail b' t.id old res ≡ (b', some stale)
  unfolding complete lease_row
  complete_after_claim b now w token old b' t res u h other clean =
      let (r, found) = claimed_row b now w token b' t u h in
      let differs : str_eq old token ≡ false = elim (Bool-cases (str_eq old token)) [
        | inl e ↦ absurd (other (sym ((eq_iff old token).0 e)))
        | inr e ↦ e
      ] in
      rw (clean, found, differs, complete) (ground arith)

  merge_tests-IsOf :
      (r : Row) (previous : CheckResult) (error : String) (check : CheckResult)
      → IsOf r check
      → IsOf r (merge_tests quote kept_tail r previous error check)
  unfolding merge_tests
  merge_tests-IsOf r previous error check h =
      let asked =
        if is_empty r.job.retry_tests then not_skipped previous.tests else r.job.retry_tests in
      elim (Bool-cases (not (is_empty previous.tests) && str_eq error "")) [
        | inr e ↦ rw (e, merge_tests) h
        | inl e ↦ elim (Option-cases (merge_rerun previous.tests check.tests asked).1) [
          | inl q ↦ rw (e, q, merge_tests) h
          | inr (x, q) ↦ rw (e, q, merge_tests) h
        ]
      ]

  merge_parent-IsOf :
      (r : Row) (previous : CheckResult) (error : String) (check : CheckResult)
      → IsOf r check
      → IsOf r (merge_parent quote kept_tail r previous error check)
  unfolding merge_parent
  merge_parent-IsOf r previous error check h = merge_tests-IsOf r previous error _ h

  with_parent-IsOf :
      (b : Broker) (r : Row) (res : Result) (check : CheckResult)
      → IsOf r check
      → IsOf r (with_parent quote kept_tail b r res check).0
  unfolding with_parent
  with_parent-IsOf b r res check h = elim (Bool-cases (str_eq r.parent "")) [
    | inl e ↦ rw (e, with_parent) h
    | inr e ↦ elim (Option-cases (find_job r.parent b.jobs)) [
      | inl q ↦ rw (e, q, with_parent) h
      | inr (s, q) ↦ elim (Bool-cases (is_completed s.state)) [
        | inr c ↦ rw (e, q, c, with_parent) h
        | inl c ↦ elim (Option-cases s.result) [
          | inl o ↦ rw (e, q, c, o, with_parent) h
          | inr (p, o) ↦
              rw (e, q, c, o, with_parent) (merge_parent-IsOf r p.check res.error check h)
        ]
      ]
    ]
  ]

  judge_inv :
      (b : Broker) (r : Row) (res : Result) (b' : Broker)
      → judge quote kept_tail b r res ≡ (b', none)
      → (check : CheckResult) × IsOf r check
        × (b'
            ≡ store_result quote kept_tail b r (finish quote kept_tail r res res.check.tests check))
  unfolding judge stamp
  judge_inv b r res b' h =
      let check : CheckResult = record (stamp r res.check) { test_attempts = [] } in
      elim (Option-cases (with_parent quote kept_tail b r res check).1) [
        | inr (x, q) ↦ absurd (ground (arith, q, h))
        | inl q ↦ (
          (with_parent quote kept_tail b r res check).0,
          with_parent-IsOf b r res check (refl, refl, refl, refl, refl, refl, refl, refl),
          ground (arith, q, h),
        )
      ]

  complete_inv :
      (b : Broker) (id token : String) (res : Result) (b' : Broker) (r : Row)
      → complete quote kept_tail b id token res ≡ (b', none)
      → find_job id b.jobs ≡ some r
      → is_leased r.state ≡ true
      → judge quote kept_tail b r res ≡ (b', none)
  unfolding complete
  complete_inv b id token res b' r h found leased = ground (arith, h, found, leased)

  store_result-wait_round :
      (b : Broker) (id : String) (r : Row) (res : Result)
      → find_job id b.jobs ≡ some r
      → is_leased r.state ≡ true
      → b.closed ≡ false
      → wait_round (store_result quote kept_tail b r res) id ≡ answered res
  unfolding wait_round store_result
  store_result-wait_round b id r res found leased open' =
      let f : Row → Row = λ s. record s { result = some res; state = completed } in
      let mine : held_under r.id r.token r ≡ true =
        rw (str_eq_refl r.id, str_eq_refl r.token) leased in
      let at : find_job id (update_where (held_under r.id r.token) f b.jobs) ≡ some (f r) =
        find_job-update_where (held_under r.id r.token) f id b.jobs (λ s. refl)
        ∙ ap (changed_by (held_under r.id r.token) f) found
        ∙ ap (λ x. some (if x then f r else r)) mine in
      rw (at, open') refl

  -- While the broker is open, a completion that is accepted for a leased attempt answers the waiters with a result that
  -- carries the identity, worker, command, revision and verification of the scheduler's own row.
  pub complete-wait_round :
      (b : Broker) (id token : String) (res : Result) (b' : Broker) (r : Row)
      → complete quote kept_tail b id token res ≡ (b', none)
      → find_job id b.jobs ≡ some r
      → is_leased r.state ≡ true
      → b.closed ≡ false
      → (stored : Result) × (wait_round b' id ≡ answered stored) × IsOf r stored.check
  unfolding finish
  complete-wait_round b id token res b' r h found leased open' =
      let (check, of, eq) =
        judge_inv b r res b' (complete_inv b id token res b' r h found leased) in
      let stored = finish quote kept_tail r res res.check.tests check in
      (
        stored,
        ap (λ x. wait_round x id) eq ∙ store_result-wait_round b id r stored found leased open',
        of,
      )
