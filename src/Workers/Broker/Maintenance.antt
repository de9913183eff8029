-- ===== src/Workers/Broker/Maintenance.antt =====
-- workers/status.go: what `Maintain` keeps.
use gauntlet.Workers.Broker.{Broker, Row, Result, delete_where, update_where, cancelled}
use gauntlet.Workers.Broker.Leases.{job_ids}
use gauntlet.Workers.Broker.Table.{find_job-id, In-find_job}
use gauntlet.Workers.Broker.Effects.{Effect, updated, only_row}
use gauntlet.Workers.Broker.History.{ValidBroker}
use gauntlet.Workers.Broker.Kept.{Effect-ValidBroker, Effect-Answered, Answered}
use gauntlet.Workers.Broker.Wait.{waiting_for}
use gauntlet.Workers.Broker.Upkeep.{maintain, ids_where, is_orphan, is_expired, is_older}
use gauntlet.Prelude.{
  ◌⊎◌, ◌||◌, ◌+◌, not, ltb, str_eq, contains, Bool, String, ℕ, List, [], ◌∷◌, true, false, refl,
  inl, inr, ◌≡◌, ◌∙◌, sym, ap, arith, In, Unrepeated, Bool-cases,
}
use gauntlet.Workers.Broker.Deletions.{delete_where-ValidBroker, delete_where-Answered}

-- The row of a picked identity is one that the test picks.
ids_where_sound :
    (test : Row → Bool) (rows : List Row) (id : String)
    → contains (ids_where test rows) id ≡ true
    → (r : Row) × In r rows × (str_eq r.id id ≡ true) × (test r ≡ true)
unfolding ids_where
ids_where_sound test [] id h = cc
ids_where_sound test (x ∷ xs) id h = elim (Bool-cases (test x)) [
  | inr t ↦
      let (r, m, e, p) = ids_where_sound test xs id (rw (t, ids_where) at h) in (r, inr m, e, p)
  | inl t ↦ elim (Bool-cases (str_eq x.id id)) [
    | inl e ↦ (x, inl refl, e, t)
    | inr e ↦
        let (r, m, e', p) = ids_where_sound test xs id (ground (arith, h, t, e)) in
        (r, inr m, e', p)
  ]
]

picked :
    (test : Row → Bool) (rows : List Row) (r : Row)
    → Unrepeated (job_ids rows)
    → In r rows
    → contains (ids_where test rows) r.id ≡ true
    → test r ≡ true
picked test rows r u m h =
    let (s, n, e, p) = ids_where_sound test rows r.id h in
    ap test (sym (only_row rows r s u m n e)) ∙ p

-- The table after the first loop of `Maintain`.
cancel_orphans : Broker → ℕ → ℕ → Broker
cancel_orphans b now orphan_grace = record b {
  jobs =
      update_where (λ r. contains (ids_where (is_orphan b now orphan_grace) b.jobs) r.id)
        (λ r. record r { state = cancelled }) b.jobs;
}

cancel_orphans-Effect :
    (b : Broker) (now orphan_grace : ℕ)
    → Unrepeated (job_ids b.jobs)
    → Effect b (cancel_orphans b now orphan_grace)
unfolding cancel_orphans
cancel_orphans-Effect b now orphan_grace u =
    updated _ (λ r. record r { state = cancelled }) (λ r. refl) (λ r m t a. cc a)
      (λ r m t c. absurd (ground (arith, c, picked (is_orphan b now orphan_grace) b.jobs r u m t)))
      refl refl

maintain_cases :
    (b : Broker) (now orphan_grace retention : ℕ)
    → (maintain b now orphan_grace retention ≡ b)
      ⊎ ((ltb now (b.born + b.grace) ≡ false)
          × ((maintain b now orphan_grace retention).jobs
              ≡ delete_where
                  (λ r. contains (ids_where (is_expired b now orphan_grace retention) b.jobs) r.id)
                  (cancel_orphans b now orphan_grace).jobs)
          × ((maintain b now orphan_grace retention).closed ≡ b.closed))
unfolding maintain cancel_orphans
maintain_cases b now orphan_grace retention = elim (Bool-cases (ltb now (b.born + b.grace))) [
  | inl e ↦ inl (ground (arith, e))
  | inr e ↦ inr (e, ground (arith, e), ground (arith, e))
]

pub maintain-ValidBroker :
    (b : Broker) (now orphan_grace retention : ℕ)
    → ValidBroker b
    → ValidBroker (maintain b now orphan_grace retention)
maintain-ValidBroker b now orphan_grace retention v =
    elim (maintain_cases b now orphan_grace retention) [
      | inl same ↦ rw same v
      | inr (_, q, _) ↦
          delete_where-ValidBroker _ (cancel_orphans b now orphan_grace) _ q
            (Effect-ValidBroker v (cancel_orphans-Effect b now orphan_grace v.keyed))
    ]

-- What is left of a completed job that someone waits for, or that was wanted within the retention.
pub maintain-Answered :
    (b : Broker) (now orphan_grace retention : ℕ) (id : String) (res : Result)
    → Unrepeated (job_ids b.jobs)
    → (a : Answered id res b) → ltb 0 (waiting_for b id) || not (is_older now retention a.0) ≡ true
    → Answered id res (maintain b now orphan_grace retention)
maintain-Answered b now orphan_grace retention id res u a spared =
    elim (maintain_cases b now orphan_grace retention) [
      | inl same ↦ rw same a
      | inr (_, q, o) ↦
          let b1 = cancel_orphans b now orphan_grace in
          let a1 = Effect-Answered id res (cancel_orphans-Effect b now orphan_grace u) a in
          delete_where-Answered _ id res b1 (maintain b now orphan_grace retention) q
            (o ∙ same_closed) a1
            (ap (contains (ids_where (is_expired b now orphan_grace retention) b.jobs))
                (find_job-id id b1.jobs a1.0 a1.1)
              ∙ not_expired)
    ]
  where
    same_closed : b.closed ≡ (cancel_orphans b now orphan_grace).closed
    same_closed = unfold cancel_orphans in refl

    not_expired : contains (ids_where (is_expired b now orphan_grace retention) b.jobs) id ≡ false
    not_expired =
        let own = find_job-id id b.jobs a.0 a.1 in
        elim (Bool-cases
          (contains (ids_where (is_expired b now orphan_grace retention) b.jobs) id)) [
            | inr e ↦ e
            | inl e ↦
                let hit =
                  picked (is_expired b now orphan_grace retention) b.jobs a.0 u
                    (In-find_job id b.jobs a.0 a.1)
                    (ap (contains (ids_where (is_expired b now orphan_grace retention) b.jobs)) own
                      ∙ e) in
                let waits = ap (waiting_for b) own in absurd (ground (arith, spared, hit, waits))
          ]
