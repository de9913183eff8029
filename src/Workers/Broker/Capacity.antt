-- ===== src/Workers/Broker/Capacity.antt =====
-- workers/broker.go: a claim never overcommits the worker that it serves.
use gauntlet.Workers.Broker.Leases.{job_ids, free_of-update_where}
use gauntlet.Workers.Broker.Order.{pick_sound}
use gauntlet.Workers.Broker.Claim.{
  lease_row, starves_urgent, admits, available, valid_worker, grant, pick, given, Attempt, claim,
  free_of,
}
use gauntlet.Prelude.{
  min_ℤ-le_left, sym, ◌<◌, Option-cases, pos_part, int_laws, subst, In, ◌≤ℤ◌, arith, All,
  Unrepeated, pos, ◌-ℤ◌, ◌≡◌, String, ℕ, List, [], ◌∷◌, some, true, false, inl, inr, refl,
}
use gauntlet.Workers.Resources.{reserved_share, fits, subtract, Worker, Resources}
use gauntlet.Workers.Broker.{Broker, Row}

abbrev pub NonNegative : Resources → Type 0
NonNegative r = (pos 0 ≤ℤ r.slots) × (pos 0 ≤ℤ r.cpu) × (pos 0 ≤ℤ r.memory)

-- The table's constraints: the primary key, and the requirements that `Submit` accepts.
pub record ValidTable (rows : List Row) : Type 0 where
  pub keyed : Unrepeated (job_ids rows)
  pub sized : All (λ r. NonNegative r.needs.resources) rows

pub claim-given :
    (b : Broker) (now : ℕ) (w : Worker) (token : String) (b' : Broker) (t : Attempt)
    → claim b now w token ≡ (b', given t)
    → (r : Row) × (pick b now w ≡ some r)
      × (b' ≡ (grant b now w token r).0)
      × (given t ≡ (grant b now w token r).1)
      × (valid_worker w ≡ true)
unfolding claim
claim-given b now w token b' t h = elim (Option-cases (pick b now w)) [
  | inl q ↦ absurd (ground (arith, q, h))
  | inr (r, q) ↦ (r, q, ground (arith, q, h), ground (arith, q, h), ground (arith, q, h))
]

slots_needs :
    (rows : List Row)
    → All (λ r. NonNegative r.needs.resources) rows
    → All (λ r. pos 0 ≤ℤ r.needs.resources.slots) rows
slots_needs [] a = tt
slots_needs (r ∷ rs) a = (a.0.0, slots_needs rs a.1)

cpu_needs :
    (rows : List Row)
    → All (λ r. NonNegative r.needs.resources) rows
    → All (λ r. pos 0 ≤ℤ r.needs.resources.cpu) rows
cpu_needs [] a = tt
cpu_needs (r ∷ rs) a = (a.0.1, cpu_needs rs a.1)

memory_needs :
    (rows : List Row)
    → All (λ r. NonNegative r.needs.resources) rows
    → All (λ r. pos 0 ≤ℤ r.needs.resources.memory) rows
memory_needs [] a = tt
memory_needs (r ∷ rs) a = (a.0.2, memory_needs rs a.1)

-- What is free after a claim is at least what was available, less what the job needs.
free_of-grant :
    (b : Broker) (now : ℕ) (w : Worker) (token : String) (r : Row)
    → ValidTable b.jobs
    → In r b.jobs
    → let free = free_of w.capacity w.id w.session (grant b now w token r).0.jobs in
      let left = available w b.jobs in
      (left.slots -ℤ r.needs.resources.slots ≤ℤ free.slots)
      × (left.cpu -ℤ r.needs.resources.cpu ≤ℤ free.cpu)
      × (left.memory -ℤ r.needs.resources.memory ≤ℤ free.memory)
unfolding available lease_row subtract
free_of-grant b now w token r v m =
    let g = lease_row b now w token in
    let before = free_of w.capacity w.id w.session b.jobs in
    (
      omega (
        int_laws,
        free_of-update_where (λ x. x.slots) (λ x y. refl) w.id w.session w.capacity g b.jobs r
            (λ s. refl) v.keyed (slots_needs b.jobs v.sized) m,
        min_ℤ-le_left before.slots (w.capacity.slots -ℤ w.usage.slots),
      ),
      omega (
        int_laws,
        free_of-update_where (λ x. x.cpu) (λ x y. refl) w.id w.session w.capacity g b.jobs r
            (λ s. refl) v.keyed (cpu_needs b.jobs v.sized) m,
        min_ℤ-le_left before.cpu (w.capacity.cpu -ℤ w.usage.cpu),
      ),
      omega (
        int_laws,
        free_of-update_where (λ x. x.memory) (λ x y. refl) w.id w.session w.capacity g b.jobs r
            (λ s. refl) v.keyed (memory_needs b.jobs v.sized) m,
        min_ℤ-le_left before.memory (w.capacity.memory -ℤ w.usage.memory),
      ),
    )

admits_inv :
    (w : Worker) (free : Resources) (r : Row)
    → admits w free r ≡ true
    → (r.needs.resources.slots ≤ℤ free.slots)
      × (r.needs.resources.cpu ≤ℤ free.cpu)
      × (r.needs.resources.memory ≤ℤ free.memory)
unfolding admits fits
admits_inv w free r h = ground (arith, h)

admits_ordinary :
    (w : Worker) (free : Resources) (r : Row)
    → admits w free r ≡ true
    → r.priority < 3
    → starves_urgent w free r ≡ false
unfolding admits
admits_ordinary w free r h low = ground (arith, h)

starves_urgent_inv :
    (w : Worker) (free : Resources) (r : Row)
    → starves_urgent w free r ≡ false
    → (w.urgent_reserve ≤ℤ free.slots -ℤ r.needs.resources.slots)
      × (pos (
            reserved_share
              (pos_part w.capacity.cpu)
              (pos_part w.capacity.slots)
              (pos_part w.urgent_reserve))
          ≤ℤ free.cpu -ℤ r.needs.resources.cpu)
      × (pos (
            reserved_share
              (pos_part w.capacity.memory)
              (pos_part w.capacity.slots)
              (pos_part w.urgent_reserve))
          ≤ℤ free.memory -ℤ r.needs.resources.memory)
unfolding starves_urgent subtract
starves_urgent_inv w free r h = ground (arith, h)

-- After a claim that gives a job, on a table without repeated identities or negative needs, what the
-- session's leases hold together stays within the capacity that the worker advertised: slots, CPU
-- and memory.
pub claim_within_capacity :
    (b : Broker) (now : ℕ) (w : Worker) (token : String) (b' : Broker) (t : Attempt)
    → ValidTable b.jobs
    → claim b now w token ≡ (b', given t)
    → NonNegative (free_of w.capacity w.id w.session b'.jobs)
claim_within_capacity b now w token b' t v h =
    let (r, q, eq, _, _) = claim-given b now w token b' t h in
    let (_, m, a) = pick_sound b now w r q in
    let (s, c, k) = free_of-grant b now w token r v m in
    let (s', c', k') = admits_inv w (available w b.jobs) r a in
    subst (λ x. NonNegative (free_of w.capacity w.id w.session x.jobs)) (sym eq)
      (omega (int_laws, s, s'), omega (int_laws, c, c'), omega (int_laws, k, k'))

-- After a claim, on such a table, that gives a job below urgent priority, the session still has free
-- the reserved slots and the reserved shares of CPU and memory.
pub claim_keeps_reserve :
    (b : Broker) (now : ℕ) (w : Worker) (token : String) (r : Row)
    → ValidTable b.jobs
    → pick b now w ≡ some r
    → r.priority < 3
    → let free = free_of w.capacity w.id w.session (grant b now w token r).0.jobs in
      let slots = pos_part w.capacity.slots in
      let reserve = pos_part w.urgent_reserve in
      (w.urgent_reserve ≤ℤ free.slots)
      × (pos (reserved_share (pos_part w.capacity.cpu) slots reserve) ≤ℤ free.cpu)
      × (pos (reserved_share (pos_part w.capacity.memory) slots reserve) ≤ℤ free.memory)
claim_keeps_reserve b now w token r v q low =
    let (_, m, a) = pick_sound b now w r q in
    let (s, c, k) = free_of-grant b now w token r v m in
    let (s', c', k') =
      starves_urgent_inv w (available w b.jobs) r
        (admits_ordinary w (available w b.jobs) r a low) in
    (omega (int_laws, s, s'), omega (int_laws, c, c'), omega (int_laws, k, k'))
