-- ===== src/Queue/Scheduling.antt =====
-- internal/queue/scheduling.go: the priority classes, and the order that `PlanSchedule` gives to the
-- queued changes when a selection is moved or preempts. References stand for the changes.
pub mod Moves
use gauntlet.Core.Job.{Candidate}
use gauntlet.Prelude.{
  length, take, drop, contains, lookup, str_eq, ltb, not, ◌&&◌, ◌||◌, ◌++◌, ◌+◌, if◌then◌else◌, Map,
  Bool, String, Option, ℕ, List, [], ◌∷◌, none, some, true, false, suc,
}

-- `PriorityRank`; an unknown class has no rank.
unfoldable pub priority_rank : String → Option ℕ
priority_rank class =
    if str_eq class "low"
    then some 0
    else if str_eq class "" || str_eq class "normal"
    then some 1
    else if str_eq class "high"
    then some 2
    else if str_eq class "urgent"
    then some 3
    else none

-- The loop that splits the order into the selected changes and the others.
unfoldable pub keep_where : (String → Bool) → List String → List String
keep_where test [] = []
keep_where test (ref ∷ refs) = if test ref then ref ∷ keep_where test refs else keep_where test refs

abbrev pub is_other : List String → String → Bool
is_other selected ref = not (contains selected ref)

-- The loop that looks for the anchor among the others, from index `i`.
unfoldable pub position_from : ℕ → String → Bool → List String → ℕ
position_from i anchor after [] = 0
position_from i anchor after (ref ∷ refs) =
    if str_eq ref anchor
    then (if after then suc i else i)
    else position_from (suc i) anchor after refs

unfoldable pub position : String → Bool → List String → ℕ
position anchor after remaining =
    if str_eq anchor "" then 0 else position_from 0 anchor after remaining

unfoldable pub reorder : List String → List String → String → Bool → List String
reorder original selected anchor after =
    let block = keep_where (contains selected) original in
    let remaining = keep_where (is_other selected) original in
    let at = position anchor after remaining in take at remaining ++ (block ++ drop at remaining)

-- `positions[ref]`, where a later index replaces an earlier one.
unfoldable pub position_in : ℕ → String → List String → Option ℕ
position_in i ref [] = none
position_in i ref (x ∷ xs) = elim (position_in (suc i) ref xs) [
  | some n ↦ some n
  | none ↦ if str_eq x ref then some i else none
]

abbrev pub or_zero : Option ℕ → ℕ
or_zero none = 0
or_zero (some n) = n

-- The loop over `byRef`: the first change that stands before its prerequisite.
unfoldable pub misplaced : List String → Map Candidate → Option String
misplaced order [] = none
misplaced order ((ref, c) ∷ entries) = elim (position_in 0 c.depends_on order) [
  | none ↦ misplaced order entries
  | some parent ↦
      if ltb (or_zero (position_in 0 ref order)) parent then some ref else misplaced order entries
]

-- The move, or the change that refuses it.
unfoldable pub plan_move :
    List String → List String → String → Bool → Map Candidate → List String × Option String
plan_move original selected anchor after by_ref =
    let order = reorder original selected anchor after in (order, misplaced order by_ref)
