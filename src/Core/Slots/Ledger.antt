-- ===== src/Core/Slots/Ledger.antt =====
-- core/slots.go seen by its callers: every holder remembers whether it took its slot as urgent work.
use gauntlet.Prelude.{
  ℕ, ◌+◌, ◌-◌, ◌≤◌, ◌<◌, ◌≡◌, refl, Bool, true, false, not, Option, none, some, arith, ◌==◌,
  if◌then◌else◌, List, [], ◌∷◌, Option-cases, inl, inr,
}
use gauntlet.Core.Slots.{
  Slots, new_reserved_slots, acquire, release, try_acquire_priority, saturated,
}

pub record Ledger : Type 0 where
  pub slots : Slots
  pub ordinary : ℕ
  pub urgent : ℕ

pub data Call : Type 0 where
  tries : Bool → Call
  releases : Bool → Call

-- A call by a client that releases only what it holds: another release is `none`.
unfoldable pub step : Ledger → Call → Option Ledger
unfolding acquire release
step l (tries true) =
    let (s, ok) = acquire l.slots true in
    some (record l { slots = s; urgent = if ok then l.urgent + 1 else l.urgent })
step l (tries false) =
    let (s, ok) = acquire l.slots false in
    some (record l { slots = s; ordinary = if ok then l.ordinary + 1 else l.ordinary })
step l (releases true) = if l.urgent == 0 then none else elim (release l.slots) [
  | none ↦ none
  | some s ↦ some (record l { slots = s; urgent = l.urgent - 1 })
]
step l (releases false) = if l.ordinary == 0 then none else elim (release l.slots) [
  | none ↦ none
  | some s ↦ some (record l { slots = s; ordinary = l.ordinary - 1 })
]

unfoldable pub run : Ledger → List Call → Option Ledger
run l [] = some l
run l (c ∷ cs) = elim (step l c) [ none ↦ none | some l' ↦ run l' cs ]

abbrev pub opened : Slots → Ledger
opened s = record { slots = s; ordinary = 0; urgent = 0 }

pub record Inv (l : Ledger) : Type 0 where
  pub counted : l.slots.used ≡ l.ordinary + l.urgent
  pub within : l.slots.used ≤ l.slots.limit
  pub kept_free : l.ordinary + l.slots.reserve ≤ l.slots.limit
  pub reserved : l.slots.reserve < l.slots.limit

new-Inv : (n reserve : ℕ) {s : Slots} → new_reserved_slots n reserve ≡ some s → Inv (opened s)
unfolding new_reserved_slots
new-Inv n reserve h = ground arith

pub step-Inv : (l : Ledger) (c : Call) {l' : Ledger} → Inv l → step l c ≡ some l' → Inv l'
unfolding step
step-Inv l (tries true) v e = ground arith
step-Inv l (tries false) v e = ground arith
step-Inv l (releases true) v e = ground arith
step-Inv l (releases false) v e = ground arith

run-Inv : (l : Ledger) (cs : List Call) {l' : Ledger} → Inv l → run l cs ≡ some l' → Inv l'
unfolding run
run-Inv l [] v e = ground arith
run-Inv l (c ∷ cs) v e = elim (Option-cases (step l c)) [
  | inl q ↦ ground (arith, q)
  | inr (m, q) ↦ run-Inv m cs (step-Inv l c v q) (rw (q, run) at e)
]

-- After any history of calls on fresh slots the slots in use are exactly the held ones and stay
-- within the limit, and ordinary work never holds any of the reserved capacity.
pub run_new-Inv :
    (n reserve : ℕ) (cs : List Call) {s : Slots} {l : Ledger}
    → new_reserved_slots n reserve ≡ some s
    → run (opened s) cs ≡ some l
    → Inv l
run_new-Inv n reserve cs {s} {l} h e = run-Inv (opened s) cs (new-Inv n reserve h) e

-- After any history of calls on fresh slots, urgent work that holds less than the reserve is
-- given a slot, whatever ordinary work holds.
pub urgent_admitted :
    (n reserve : ℕ) (cs : List Call) {s : Slots} {l : Ledger}
    → new_reserved_slots n reserve ≡ some s
    → run (opened s) cs ≡ some l
    → l.urgent < l.slots.reserve
    → (try_acquire_priority (some l.slots) true).1 ≡ true
unfolding try_acquire_priority
urgent_admitted n reserve cs h e u = ground (arith, run_new-Inv n reserve cs h e)

-- `Saturated` answers exactly whether an ordinary acquisition would be refused.
pub saturated-acquire : (s : Option Slots) → (try_acquire_priority s false).1 ≡ not (saturated s)
unfolding saturated try_acquire_priority
saturated-acquire none = refl
saturated-acquire (some s) = ground arith
