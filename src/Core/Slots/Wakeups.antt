-- ===== src/Core/Slots/Wakeups.antt =====
-- core/slots.go: the broadcast channel loses no wake-up of `Acquire`.
use gauntlet.Prelude.{
  ℕ, ◌-◌, ◌≤◌, ◌<◌, ◌≡◌, ◌⊎◌, inl, inr, true, false, none, some, arith, List, [], ◌∷◌, Option-cases,
}
use gauntlet.Core.Slots.{Slots, acquire_round, waits}
use gauntlet.Core.Slots.Ledger.{Ledger, Call, tries, releases, step, run}

-- Between two states either a broadcast happened, or no slot came back.
abbrev Later : Slots → Slots → Type 0
Later s t =
    (s.limit ≡ t.limit)
    × (s.reserve ≡ t.reserve)
    × (s.changed ≤ t.changed)
    × ((s.changed < t.changed) ⊎ (s.used ≤ t.used))

step-Later : (l : Ledger) (c : Call) {m : Ledger} → step l c ≡ some m → Later l.slots m.slots
unfolding step
step-Later l (tries true) e = ground arith
step-Later l (tries false) e = ground arith
step-Later l (releases true) e = ground arith
step-Later l (releases false) e = ground arith

Later-trans : (s t u : Slots) → Later s t → Later t u → Later s u
Later-trans s t u h k = ground arith

run-Later : (l : Ledger) (cs : List Call) {m : Ledger} → run l cs ≡ some m → Later l.slots m.slots
unfolding run
run-Later l [] e = ground arith
run-Later l (c ∷ cs) {m} e = elim (Option-cases (step l c)) [
  | inl q ↦ ground (arith, q)
  | inr (k, q) ↦
      Later-trans l.slots k.slots m.slots (step-Later l c q) (run-Later k cs (rw (q, run) at e))
]

-- When `Acquire` waits after having seen some broadcast, and calls of others later leave room for
-- ordinary work, another broadcast has happened meanwhile: the waiter is awake.
pub acquire_round_wakes :
    (l : Ledger) (cs : List Call) (seen : ℕ) {m : Ledger}
    → acquire_round none l.slots ≡ waits seen
    → run l cs ≡ some m
    → m.slots.used < m.slots.limit - m.slots.reserve
    → seen < m.slots.changed
unfolding acquire_round
acquire_round_wakes l cs seen w e room = ground (arith, run-Later l cs e)
