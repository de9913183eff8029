-- ===== src/Queue/Adaptive/Limits.antt =====
-- queue/adaptive.go: the limits that the governor gives.
use gauntlet.Core.Slots.{Slots}
use gauntlet.Queue.Circuit.{RunOutcome, landed, rejected, conflict, skipped, errored}
use gauntlet.Queue.Adaptive.{
  Adaptive, Target, Governor, scheduling_ceiling, governor, adaptive_limit, Run, judge_outcome,
}
use gauntlet.Prelude.{
  ◌*◌, ◌≢◌, max, Map, Bool, Option, some, refl, inl, inr, ◌≡◌, ◌≤◌, arith, Option-cases,
}

scheduling_ceiling-positive : (t : Target) → 1 ≤ scheduling_ceiling t
unfolding scheduling_ceiling
scheduling_ceiling-positive t = ground arith

governor-within :
    (t : Target) (a : Adaptive) (governors : Map Governor)
    → (1 ≤ (governor t a governors).limit) × ((governor t a governors).limit ≤ scheduling_ceiling t)
unfolding governor
governor-within t a governors = ground (arith, scheduling_ceiling-positive t)

-- Whatever is stored for a target, and whatever the pressure, at least one trial is admitted and no
-- more than the ceiling of its mode.
pub adaptive_limit-within :
    (t : Target) (governors : Map Governor) (slots : Option Slots) (pressure : Bool)
    → (1 ≤ adaptive_limit t governors slots pressure)
      × (adaptive_limit t governors slots pressure ≤ scheduling_ceiling t)
unfolding adaptive_limit
adaptive_limit-within t governors slots pressure = elim (Option-cases t.adaptive) [
  | inl e ↦ ground (arith, e, scheduling_ceiling-positive t)
  | inr (a, e) ↦ ground (arith, e, governor-within t a governors)
]

-- Any other outcome than a landing that is recorded halves the limit, down to one at least, and the
-- count of clean landings starts again.
judge_outcome_red :
    (t : Target) (a : Adaptive) (r : Run) (g g' : Governor) (o : RunOutcome)
    → o ≢ landed
    → judge_outcome t a r g o ≡ some g'
    → (1 ≤ g'.limit) × (2 * g'.limit ≤ max 2 g.limit) × (g'.clean ≡ 0)
unfolding judge_outcome
judge_outcome_red t a r g g' landed other h = absurd (other refl)
judge_outcome_red t a r g g' rejected other h = ground (arith, h)
judge_outcome_red t a r g g' errored other h = ground (arith, h)
judge_outcome_red t a r g g' skipped other h = ground (arith, h)
judge_outcome_red t a r g g' conflict other h = cc h
