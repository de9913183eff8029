-- ===== src/Workers/Broker/Effects.antt =====
-- workers/broker.go: what each operation of the broker does to the table of jobs.
use gauntlet.Core.Types.{is_nil}
use gauntlet.Workers.Resources.{is_empty, Requirements, CheckJob, Worker}
use gauntlet.Workers.Broker.{
  is_leased, cancelled, unix_milli, Broker, Row, Result, find_job, update_where, is_active,
  is_completed, is_cancelled, held_under, renew, cancel, completed,
}
use gauntlet.Workers.Broker.Leases.{job_ids}
use gauntlet.Workers.Broker.Table.{update_where-update_where, find_job-In, In-latest_of}
use gauntlet.Workers.Broker.Submit.{
  revive, want, submit, resume, enqueue, upsert_job, latest_of, is_full,
}
use gauntlet.Workers.Broker.Complete.{
  finish, stamp, lacks_tests, is_verdict, exceeds_bounds, complete, judge, store_result,
  with_parent,
}
use gauntlet.Workers.Broker.Claim.{
  is_draining, is_taken, valid_worker, claim, pick, grant, lease_row, claimable,
}
use gauntlet.Workers.Broker.Order.{pick_sound}
use gauntlet.Prelude.{
  pos, ltb_ℤ, not, ◌||◌, ◌+◌, ◌&&◌, Bool, String, ℕ, List, [], some, true, false, refl, inl, inr,
  ◌≡◌, ◌∙◌, sym, ap, arith, eq_iff, str_eq, Unrepeated, In, Bool-cases, Option-cases, some_inj,
  subst,
}

-- What an operation does to the rows: nothing, an update, or an upsert that the guard allows.
pub data Effect (b : Broker) : Broker → Type 0 where
  kept : {b' : Broker} → b'.jobs ≡ b.jobs → b'.closed ≡ b.closed → Effect b b'
  updated :
      {b' : Broker} (test : Row → Bool) (f : Row → Row)
      → ((r : Row) → (f r).id ≡ r.id)
      → ((r : Row) → In r b.jobs → test r ≡ true → is_active (f r) ≡ true → is_active r ≡ true)
      → ((r : Row)
          → In r b.jobs
          → test r ≡ true
          → is_completed r.state ≡ true
          → ((f r).state ≡ r.state) × ((f r).result ≡ r.result))
      → b'.jobs ≡ update_where test f b.jobs
      → b'.closed ≡ b.closed
      → Effect b b'
  revived :
      {b' : Broker} (k : String) (f : Row → Row)
      → ((r : Row) → (f r).id ≡ r.id)
      → ((r : Row) → In r b.jobs → str_eq r.id k ≡ true → is_completed r.state ≡ false)
      → is_full b ≡ false
      → b'.jobs ≡ update_where (λ s. str_eq s.id k) f b.jobs
      → b'.closed ≡ b.closed
      → Effect b b'
  upserted :
      {b' : Broker} (r : Row)
      → is_full b ≡ false
      → b'.jobs ≡ upsert_job r b.jobs
      → b'.closed ≡ b.closed
      → Effect b b'

pub renew-Effect : (b : Broker) (now : ℕ) (id token : String) → Effect b (renew b now id token).0
unfolding renew
renew-Effect b now id token =
    updated (held_under id token) (λ r. record r { lease_until = unix_milli (now + b.lease) })
      (λ r. refl) (λ r m t a. a) (λ r m t c. (refl, refl)) (ground arith) (ground arith)

pub cancel-Effect : (b : Broker) (id : String) → Effect b (cancel b id)
unfolding cancel
cancel-Effect b id =
    updated (λ r. str_eq r.id id && is_active r) (λ r. record r { state = cancelled }) (λ r. refl)
      (λ r m t a. cc a) (λ r m t c. absurd (ground (arith, t, c))) refl refl

-- Of the rows with a key there is one.
pub only_row :
    (rows : List Row) (r s : Row)
    → Unrepeated (job_ids rows)
    → In r rows
    → In s rows
    → str_eq s.id r.id ≡ true
    → s ≡ r
only_row rows r s u m n e = some_inj (
    sym (find_job-In rows s u n)
    ∙ ap (λ k. find_job k rows) ((eq_iff s.id r.id).0 e)
    ∙ find_job-In rows r u m)

grant-Effect :
    (b : Broker) (now : ℕ) (w : Worker) (token : String) (r : Row)
    → Unrepeated (job_ids b.jobs)
    → pick b now w ≡ some r
    → Effect b (grant b now w token r).0
unfolding claimable lease_row
grant-Effect b now w token r u q =
    let (t, m, _) = pick_sound b now w r q in
    let active : is_active r ≡ true = ground (arith, t) in
    updated (λ s. str_eq s.id r.id) (lease_row b now w token) (λ s. refl)
      (λ s n e a. subst (λ x. is_active x ≡ true) (sym (only_row b.jobs r s u m n e)) active)
      (λ s n e c. absurd (
        ground (
          arith,
          active,
          subst (λ x. is_completed x.state ≡ true) (only_row b.jobs r s u m n e) c,
        )))
      refl refl

pub claim-Effect :
    (b : Broker) (now : ℕ) (w : Worker) (token : String)
    → Unrepeated (job_ids b.jobs)
    → Effect b (claim b now w token).0
unfolding claim
claim-Effect b now w token u = elim (Bool-cases (valid_worker w)) [
  | inr e ↦ kept (ground (arith, e)) (ground (arith, e))
  | inl e ↦ elim (Bool-cases (is_taken b now w)) [
    | inl t ↦ kept (ground (arith, e, t)) (ground (arith, e, t))
    | inr t ↦ elim (Bool-cases (is_draining w b.peers)) [
      | inl d ↦ kept (ground (arith, e, t, d)) (ground (arith, e, t, d))
      | inr d ↦ elim (Option-cases (pick b now w)) [
        | inl q ↦ kept (ground (arith, e, t, d, q)) (ground (arith, e, t, d, q))
        | inr (r, q) ↦ rw (e, t, d, q, claim) (grant-Effect b now w token r u q)
      ]
    ]
  ]
]

resume-Effect :
    (b : Broker) (now : ℕ) (r : Row)
    → Unrepeated (job_ids b.jobs)
    → In r b.jobs
    → Effect b (resume b now r).0
unfolding resume
resume-Effect b now r u m = elim (Bool-cases (is_cancelled r.state)) [
  | inr e ↦
      updated (λ s. str_eq s.id r.id) (want b now) (λ s. refl) (λ s n t a. a)
        (λ s n t c. (refl, refl)) (ground (arith, e)) (ground (arith, e))
  | inl e ↦ elim (Bool-cases (is_full b)) [
    | inl f ↦ kept (ground (arith, e, f)) (ground (arith, e, f))
    | inr f ↦
        revived r.id (λ s. want b now (revive s)) (λ s. refl)
          (λ s n t. ground (arith, e, ap (λ x. x.state) (only_row b.jobs r s u m n t))) f
          (ground
            (arith, e, f, update_where-update_where r.id revive (want b now) b.jobs (λ s. refl)))
          (ground (arith, e, f))
  ]
]

enqueue-Effect : (b : Broker) (r : Row) → Effect b (enqueue b r).0
unfolding enqueue
enqueue-Effect b r = elim (Bool-cases (is_full b)) [
  | inl f ↦ kept (ground (arith, f)) (ground (arith, f))
  | inr f ↦ upserted r f (ground (arith, f)) (ground (arith, f))
]

judge-Effect :
    (quote kept_tail : String → String) (b : Broker) (r : Row) (res : Result)
    → Effect b (judge quote kept_tail b r res).0
unfolding judge store_result
judge-Effect quote kept_tail b r res = elim (Bool-cases (exceeds_bounds res)) [
  | inl e ↦ kept (ground (arith, e)) (ground (arith, e))
  | inr e ↦ elim (Bool-cases (is_verdict res.check.status)) [
    | inr v ↦ kept (ground (arith, e, v)) (ground (arith, e, v))
    | inl v ↦ elim (Bool-cases (lacks_tests r res)) [
      | inl t ↦ kept (ground (arith, e, v, t)) (ground (arith, e, v, t))
      | inr t ↦
          elim (Option-cases
            (with_parent quote kept_tail b r res
              (record (stamp r res.check) { test_attempts = [] })).1) [
                | inr (x, q) ↦ kept (ground (arith, e, v, t, q)) (ground (arith, e, v, t, q))
                | inl q ↦
                    updated (held_under r.id r.token)
                      (λ s. record s {
                        result = some (
                            finish quote kept_tail r res res.check.tests
                              (with_parent quote kept_tail b r res
                                (record (stamp r res.check) { test_attempts = [] })).0);
                        state = completed;
                      })
                      (λ s. refl) (λ s m h a. cc a) (λ s m h c. absurd (ground (arith, h, c)))
                      (ground (arith, e, v, t, q)) (ground (arith, e, v, t, q))
              ]
    ]
  ]
]

pub complete-Effect :
    (quote kept_tail : String → String) (b : Broker) (id token : String) (res : Result)
    → Effect b (complete quote kept_tail b id token res).0
unfolding complete
complete-Effect quote kept_tail b id token res = elim (Bool-cases (is_nil res.check.err)) [
  | inr e ↦ kept (ground (arith, e)) (ground (arith, e))
  | inl e ↦ elim (Option-cases (find_job id b.jobs)) [
    | inl q ↦ kept (ground (arith, e, q)) (ground (arith, e, q))
    | inr (r, q) ↦ elim (Bool-cases (str_eq token "" || not (str_eq token r.token))) [
      | inl t ↦ kept (rw (e, q, t, complete) refl) (rw (e, q, t, complete) refl)
      | inr t ↦ elim (Bool-cases (is_completed r.state)) [
        | inl c ↦ kept (rw (e, q, t, c, complete) refl) (rw (e, q, t, c, complete) refl)
        | inr c ↦ elim (Bool-cases (is_leased r.state)) [
          | inr l ↦ kept (rw (e, q, t, c, l, complete) refl) (rw (e, q, t, c, l, complete) refl)
          | inl l ↦ rw (e, q, t, c, l, complete) (judge-Effect quote kept_tail b r res)
        ]
      ]
    ]
  ]
]

pub submit-Effect :
    (key : String → String → List String → List String → String) (b : Broker) (now : ℕ)
    (root : String) (job : CheckJob) (needs : Requirements) (priority : ℕ)
    → Unrepeated (job_ids b.jobs)
    → Effect b (submit key b now root job needs priority).0
unfolding submit
submit-Effect key b now root job needs priority u =
    elim (Bool-cases (
      str_eq root ""
      || is_empty job.command
      || ltb_ℤ needs.resources.slots (pos 1)
      || ltb_ℤ needs.resources.cpu (pos 0)
      || ltb_ℤ needs.resources.memory (pos 0))) [
        | inl g ↦ kept (rw (g, submit) refl) (rw (g, submit) refl)
        | inr g ↦ elim (Bool-cases (str_eq job.previous_execution "")) [
          | inr p ↦ elim (Option-cases (find_job job.previous_execution b.jobs)) [
            | inl q ↦ kept (rw (g, p, q, submit) refl) (rw (g, p, q, submit) refl)
            | inr (r, q) ↦ elim (Bool-cases (str_eq r.root "" || not (is_completed r.state))) [
              | inl t ↦ kept (rw (g, p, q, t, submit) refl) (rw (g, p, q, t, submit) refl)
              | inr t ↦ rw (g, p, q, t, submit) (enqueue-Effect b _)
            ]
          ]
          | inl p ↦ elim (Option-cases (latest_of root b.jobs)) [
            | inl q ↦ rw (g, p, q, submit) (enqueue-Effect b _)
            | inr (r, q) ↦
                rw (g, p, q, submit) (resume-Effect b now r u (In-latest_of root b.jobs r q))
          ]
        ]
      ]
