-- ===== src/Queue/Priorities.antt =====
-- internal/queue/scheduling.go: the priority of a change by itself, which rises while it waits.
-- Times are nanoseconds from the zero time.
pub mod Ageing
use gauntlet.Core.Job.{Candidate}
use gauntlet.Queue.Scheduling.{priority_rank}
use gauntlet.Prelude.{
  lookup, ltb, min, str_eq, not, ◌&&◌, ◌||◌, ◌==◌, ◌+◌, ◌-◌, ◌/◌, if◌then◌else◌, Map, Bool, String,
  Option, ℕ, none, some, true, false,
}

-- `core.Revision`
pub record Revision : Type 0 where
  pub ref : String
  pub sha : String
  pub version : String

pub record PriorityEntry : Type 0 where
  pub revision : Revision
  pub class : String

-- The part of the control state that the priorities read.
pub record Controls : Type 0 where
  pub priorities : Map PriorityEntry
  pub enqueued : Map ℕ

abbrev pub half_hour : ℕ
half_hour = 1800000000000

-- The rank, which is 0 for an unknown class.
abbrev pub rank_of : String → ℕ
rank_of class = elim (priority_rank class) [ none ↦ 0 | some n ↦ n ]

-- The operator's class for this very revision.
unfoldable pub operator_class : Map PriorityEntry → Candidate → Option String
operator_class priorities c = elim (lookup c.ref priorities) [
  | none ↦ none
  | some entry ↦
      if str_eq entry.revision.sha c.sha && str_eq entry.revision.version c.version
      then some entry.class
      else none
]

-- The value before ageing.
unfoldable pub declared_priority : Controls → Candidate → ℕ
declared_priority s c = elim (operator_class s.priorities c) [
  | some class ↦ rank_of class
  | none ↦ if c.urgent then 3 else rank_of c.priority
]

-- `s.Enqueued[ref]`, zero if it is missing.
abbrev pub enqueued_at : Controls → Candidate → ℕ
enqueued_at s c = elim (lookup c.ref s.enqueued) [ none ↦ 0 | some at ↦ at ]

unfoldable pub aged : ℕ → ℕ → ℕ → ℕ
aged value at now =
    if not (at == 0) && ltb value 2
    then (if ltb 0 ((now - at) / half_hour) then min 2 (value + (now - at) / half_hour) else value)
    else value

unfoldable pub own_priority : Controls → Candidate → ℕ → ℕ
own_priority s c now = aged (declared_priority s c) (enqueued_at s c) now
