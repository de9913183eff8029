-- ===== src/Workers/Broker/Kept.antt =====
-- workers/broker.go: an effect on the table keeps it well formed and keeps an answer.
use gauntlet.Workers.Broker.{
  Broker, Row, Result, find_job, update_where, count_where, is_active, is_completed,
}
use gauntlet.Workers.Broker.Table.{
  changed_by, find_job-update_where, job_ids-update_where, upsert_job-Unrepeated,
  count_where-update_where_le, count_where-update_where_one, count_where-upsert_job, In-find_job,
  find_job-upsert_job,
}
use gauntlet.Workers.Broker.Submit.{is_full}
use gauntlet.Workers.Broker.Wait.{wait_round, answered}
use gauntlet.Workers.Broker.Effects.{Effect, kept, updated, revived, upserted}
use gauntlet.Workers.Broker.History.{ValidBroker}
use gauntlet.Prelude.{
  if◌then◌else◌, str_eq, Bool, String, some, true, false, refl, inl, inr, ◌≡◌, ◌<◌, ◌∙◌, ap, arith,
  Bool-cases, Option-cases,
}

has_room : (b : Broker) → is_full b ≡ false → count_where is_active b.jobs < 10000
unfolding is_full
has_room b h = ground (arith, h)

pub Effect-ValidBroker : {b b' : Broker} → ValidBroker b → Effect b b' → ValidBroker b'
Effect-ValidBroker v (kept q c) = record { keyed = rw q v.keyed; bounded = rw q v.bounded }
Effect-ValidBroker {b} v (updated test f keeps quiet same q c) = record {
  keyed = rw (q, job_ids-update_where test f b.jobs keeps) v.keyed;
  bounded = rw q (omega (arith, v.bounded, count_where-update_where_le test f b.jobs quiet));
}
Effect-ValidBroker {b} v (revived k f keeps live room q c) = record {
  keyed = rw (q, job_ids-update_where (λ s. str_eq s.id k) f b.jobs keeps) v.keyed;
  bounded = rw q (omega (arith, has_room b room, count_where-update_where_one k f b.jobs v.keyed));
}
Effect-ValidBroker {b} v (upserted r room q c) = record {
  keyed = rw q (upsert_job-Unrepeated r b.jobs v.keyed);
  bounded = rw q (omega (arith, has_room b room, count_where-upsert_job r b.jobs));
}

-- The table holds an answer.
abbrev pub Answered : String → Result → Broker → Type 0
Answered id res b =
    (r : Row) × (find_job id b.jobs ≡ some r)
    × (is_completed r.state ≡ true)
    × (r.result ≡ some res)
    × (b.closed ≡ false)

pub Answered-wait_round :
    (id : String) (res : Result) (b : Broker) → wait_round b id ≡ answered res → Answered id res b
unfolding wait_round
Answered-wait_round id res b h = elim (Option-cases (find_job id b.jobs)) [
  | inl q ↦ absurd (ground (arith, q, h))
  | inr (r, q) ↦ (r, q, ground (arith, q, h), ground (arith, q, h), ground (arith, q, h))
]

pub wait_round-Answered :
    (id : String) (res : Result) (b : Broker) → Answered id res b → wait_round b id ≡ answered res
unfolding wait_round
wait_round-Answered id res b (r, q, c, e, o) = ground (arith, q, c, e, o)

pub changed_answer :
    (id : String) (res : Result) (test : Row → Bool) (f : Row → Row) (b b' : Broker)
    → ((r : Row) → (f r).id ≡ r.id)
    → b'.jobs ≡ update_where test f b.jobs
    → b'.closed ≡ b.closed
    → (a : Answered id res b)
    → (test a.0 ≡ true → ((f a.0).state ≡ a.0.state) × ((f a.0).result ≡ a.0.result))
    → Answered id res b'
changed_answer id res test f b b' keeps q o (r, found, c, e, open') same =
    elim (Bool-cases (test r)) [
      | inl t ↦
          (f r, here (λ x. if x then f r else r) refl t, rw (same t).0 c, (same t).1 ∙ e, o ∙ open')
      | inr t ↦ (r, here (λ x. if x then f r else r) refl t, c, e, o ∙ open')
    ]
  where
    here :
        (g : Bool → Row) {x : Bool}
        → changed_by test f (some r) ≡ some (g (test r))
        → test r ≡ x
        → find_job id b'.jobs ≡ some (g x)
    here g same' t =
        ap (find_job id) q
        ∙ find_job-update_where test f id b.jobs keeps
        ∙ ap (changed_by test f) found
        ∙ same'
        ∙ ap (λ y. some (g y)) t

pub Effect-Answered :
    (id : String) (res : Result) {b b' : Broker}
    → Effect b b'
    → Answered id res b
    → Answered id res b'
Effect-Answered id res (kept q o) (r, found, c, e, open') = (r, rw q found, c, e, o ∙ open')
Effect-Answered id res {b} {b'} (updated test f keeps quiet same q o) a =
    changed_answer id res test f b b' keeps q o a
      (λ t. same a.0 (In-find_job id b.jobs a.0 a.1) t a.2)
Effect-Answered id res {b} {b'} (revived k f keeps live room q o) a =
    changed_answer id res (λ s. str_eq s.id k) f b b' keeps q o a
      (λ t. absurd (cc (live a.0 (In-find_job id b.jobs a.0 a.1) t, a.2)))
Effect-Answered id res {b} (upserted r room q o) (s, found, c, e, open') =
    let (s', here, same, answer) = find_job-upsert_job id r b.jobs s found in
    (s', rw q here, rw same c, answer ∙ e, o ∙ open')
