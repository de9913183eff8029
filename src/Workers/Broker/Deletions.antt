-- ===== src/Workers/Broker/Deletions.antt =====
-- workers/broker.go and workers/status.go: what the operations that delete rows keep.
use gauntlet.Workers.Broker.{
  Broker, Row, Result, find_job, delete_where, count_where, is_active, is_completed,
  forget_completed,
}
use gauntlet.Workers.Broker.Leases.{job_ids}
use gauntlet.Workers.Broker.Table.{find_job-id}
use gauntlet.Workers.Broker.History.{ValidBroker}
use gauntlet.Workers.Broker.Kept.{Answered}
use gauntlet.Workers.Broker.Wait.{waiting_for}
use gauntlet.Prelude.{
  ◌⊎◌, ◌&&◌, ◌||◌, not, ltb, str_eq, eq_iff, lookup, contains, Bool, String, ℕ, List, [], ◌∷◌, some,
  true, false, refl, inl, inr, ◌≡◌, ◌≤◌, ◌∙◌, sym, ap, arith, Unrepeated, some_inj, Bool-cases,
  Option-cases, zero, suc,
}

contains-delete_where :
    (test : Row → Bool) (k : String) (rows : List Row)
    → contains (job_ids rows) k ≡ false
    → contains (job_ids (delete_where test rows)) k ≡ false
unfolding delete_where
contains-delete_where test k [] h = refl
contains-delete_where test k (r ∷ rs) h = ground (arith, h, contains-delete_where test k rs)

delete_where-Unrepeated :
    (test : Row → Bool) (rows : List Row)
    → Unrepeated (job_ids rows)
    → Unrepeated (job_ids (delete_where test rows))
unfolding delete_where
delete_where-Unrepeated test [] u = u
delete_where-Unrepeated test (r ∷ rs) u = elim (Bool-cases (test r)) [
  | inl e ↦ rw (e, delete_where) (delete_where-Unrepeated test rs u.1)
  | inr e ↦
      rw (e, delete_where)
        (contains-delete_where test r.id rs u.0, delete_where-Unrepeated test rs u.1)
]

count_where-delete_where :
    (test : Row → Bool) (rows : List Row)
    → count_where is_active (delete_where test rows) ≤ count_where is_active rows
unfolding count_where delete_where
count_where-delete_where test [] = omega arith
count_where-delete_where test (r ∷ rs) = ground (arith, count_where-delete_where test rs)

find_job-delete_where :
    (test : Row → Bool) (id : String) (rows : List Row) (r : Row)
    → find_job id rows ≡ some r
    → test r ≡ false
    → find_job id (delete_where test rows) ≡ some r
unfolding find_job delete_where
find_job-delete_where test id [] r h t = cc
find_job-delete_where test id (x ∷ xs) r h t = elim (Bool-cases (str_eq x.id id)) [
  | inl e ↦
      let q : x ≡ r = some_inj (rw (e, find_job) at h) in
      rw (ap test q ∙ t, delete_where, e, find_job) (ap some q)
  | inr e ↦
      let rest = find_job-delete_where test id xs r (rw (e, find_job) at h) t in
      elim (Bool-cases (test x)) [
        | inl d ↦ rw (d, delete_where) rest
        | inr d ↦ rw (d, delete_where, e, find_job) rest
      ]
]

pub delete_where-ValidBroker :
    (test : Row → Bool) (b b' : Broker)
    → b'.jobs ≡ delete_where test b.jobs
    → ValidBroker b
    → ValidBroker b'
delete_where-ValidBroker test b b' q v = record {
  keyed = rw q (delete_where-Unrepeated test b.jobs v.keyed);
  bounded = rw q (omega (arith, v.bounded, count_where-delete_where test b.jobs));
}

pub delete_where-Answered :
    (test : Row → Bool) (id : String) (res : Result) (b b' : Broker)
    → b'.jobs ≡ delete_where test b.jobs
    → b'.closed ≡ b.closed
    → (a : Answered id res b) → test a.0 ≡ false
    → Answered id res b'
delete_where-Answered test id res b b' q o (r, found, c, e, open') t =
    (r, rw q (find_job-delete_where test id b.jobs r found t), c, e, o ∙ open')

forget_completed_cases :
    (b : Broker) (id : String)
    → (forget_completed b id ≡ b)
      ⊎ ((waiting_for b id ≡ 0)
          × ((forget_completed b id).jobs
              ≡ delete_where (λ r. str_eq r.id id && is_completed r.state) b.jobs)
          × ((forget_completed b id).closed ≡ b.closed))
unfolding forget_completed
forget_completed_cases b id = elim (Option-cases (lookup id b.waiters)) [
  | inl q ↦ inr (ground (arith, q), ground (arith, q), ground (arith, q))
  | inr (n, q) ↦ counted n q
]
  where
    counted :
        (n : ℕ)
        → lookup id b.waiters ≡ some n
        → (forget_completed b id ≡ b)
          ⊎ ((waiting_for b id ≡ 0)
              × ((forget_completed b id).jobs
                  ≡ delete_where (λ r. str_eq r.id id && is_completed r.state) b.jobs)
              × ((forget_completed b id).closed ≡ b.closed))
    counted zero q = inr (ground (arith, q), ground (arith, q), ground (arith, q))
    counted (suc n) q = inl (ground (arith, q))

pub forget_completed-ValidBroker :
    (b : Broker) (id : String) → ValidBroker b → ValidBroker (forget_completed b id)
forget_completed-ValidBroker b id v = elim (forget_completed_cases b id) [
  | inl same ↦ rw same v
  | inr (_, q, _) ↦ delete_where-ValidBroker _ b (forget_completed b id) q v
]

-- A completed job is forgotten under its own identity, and while nobody waits for it.
pub forget_completed-Answered :
    (b : Broker) (k id : String) (res : Result)
    → not (str_eq k id) || ltb 0 (waiting_for b id) ≡ true
    → Answered id res b
    → Answered id res (forget_completed b k)
forget_completed-Answered b k id res spared a = elim (forget_completed_cases b k) [
  | inl same ↦ rw same a
  | inr (idle, q, o) ↦
      delete_where-Answered _ id res b (forget_completed b k) q o a
        (elim (Bool-cases (str_eq k id)) [
          | inl e ↦
              let none_waits = ap (waiting_for b) (sym ((eq_iff k id).0 e)) ∙ idle in
              absurd (ground (arith, spared, e, none_waits))
          | inr e ↦
              let own = find_job-id id b.jobs a.0 a.1 in
              ground (arith, ap (λ x. str_eq x k) own, e, eq_iff id k, eq_iff k id)
        ])
]
