-- ===== src/Queue/Priorities/Ageing.antt =====
-- queue/scheduling.go: waiting raises a priority, and never to the urgent one.
use gauntlet.Core.Job.{Candidate}
use gauntlet.Queue.Priorities.{
  Controls, half_hour, declared_priority, enqueued_at, aged, own_priority,
}
use gauntlet.Prelude.{ltb, ◌+◌, ◌-◌, ◌/◌, ◌*◌, ℕ, ◌≡◌, ◌≢◌, ◌≤◌, arith}

aged_monotone : (value at now later : ℕ) → now ≤ later → aged value at now ≤ aged value at later
unfolding aged
aged_monotone value at now later le =
    let more : (now - at) / half_hour ≤ (later - at) / half_hour = omega (arith, le) in
    ground (arith, more)

aged_enough : (value at now : ℕ) → at ≢ 0 → at + 2 * half_hour ≤ now → 2 ≤ aged value at now
unfolding aged
aged_enough value at now placed waited =
    let two : 2 ≤ (now - at) / half_hour = omega (arith, waited) in ground (arith, two, placed)

-- The priority of a change never falls while it waits.
pub own_priority_monotone :
    (s : Controls) (c : Candidate) (now later : ℕ)
    → now ≤ later
    → own_priority s c now ≤ own_priority s c later
unfolding own_priority
own_priority_monotone s c now later le =
    aged_monotone (declared_priority s c) (enqueued_at s c) now later le

-- A change that has waited for an hour has at least the rank of a high priority, whatever its class.
pub own_priority_aged :
    (s : Controls) (c : Candidate) (now : ℕ)
    → enqueued_at s c ≢ 0
    → enqueued_at s c + 2 * half_hour ≤ now
    → 2 ≤ own_priority s c now
unfolding own_priority
own_priority_aged s c now placed waited =
    aged_enough (declared_priority s c) (enqueued_at s c) now placed waited

-- Waiting alone makes no change urgent: a change ranks above high exactly by its declared priority.
own_priority_urgent :
    (s : Controls) (c : Candidate) (now : ℕ)
    → ltb 2 (own_priority s c now) ≡ ltb 2 (declared_priority s c)
unfolding own_priority aged
own_priority_urgent s c now = ground arith
