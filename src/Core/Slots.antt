-- ===== src/Core/Slots.antt =====
-- internal/core/slots.go. A method takes the slots by value and returns them; the mutex makes each
-- call one step. `changed` counts the closings of the broadcast channel, so a waiter that saw the
-- count n is woken when the count is no longer n. A panic is `none`.
pub mod Ledger
pub mod Wakeups
use gauntlet.Prelude.{
  ℕ, ◌+◌, ◌-◌, ◌≤◌, ◌<◌, ◌≡◌, refl, Bool, true, false, ◌&&◌, ◌||◌, not, Option, none, some, arith,
  ltb, leb, ◌==◌, if◌then◌else◌, String, List, [], ◌∷◌,
}

pub record Slots : Type 0 where
  pub limit : ℕ
  pub reserve : ℕ
  pub used : ℕ
  pub changed : ℕ

-- Capacities are naturals here, so the test for a negative reserve has no counterpart.
unfoldable pub new_reserved_slots : ℕ → ℕ → Option Slots
new_reserved_slots n reserve =
    if leb n 0 || leb n reserve
    then none
    else some (record { limit = n; reserve = reserve; used = 0; changed = 0 })

unfoldable pub new_slots : ℕ → Option Slots
unfolding new_reserved_slots
new_slots n = new_reserved_slots n 0

-- `acquire`, under the lock.
unfoldable pub acquire : Slots → Bool → Slots × Bool
acquire s urgent =
    let limit : ℕ = if urgent then s.limit else s.limit - s.reserve in
    if leb limit s.used then (s, false) else (record s { used = s.used + 1 }, true)

-- `TryAcquirePriority`; the nil receiver is unlimited.
unfoldable pub try_acquire_priority : Option Slots → Bool → Option Slots × Bool
unfolding acquire
try_acquire_priority none urgent = (none, true)
try_acquire_priority (some s) urgent = let (s', taken) = acquire s urgent in (some s', taken)

unfoldable pub try_acquire : Option Slots → Option Slots × Bool
unfolding try_acquire_priority
try_acquire s = try_acquire_priority s false

-- `Release`: one slot back, and everybody who waits is woken.
unfoldable pub release : Slots → Option Slots
release s =
    if s.used == 0 then none else some (record s { used = s.used - 1; changed = s.changed + 1 })

unfoldable pub in_use : Option Slots → ℕ
in_use none = 0
in_use (some s) = s.used

unfoldable pub saturated : Option Slots → Bool
saturated none = false
saturated (some s) = leb (s.limit - s.reserve) s.used

-- One round of the loop of `Acquire`, under the lock: the context's error, a slot, or a wait for
-- the broadcast after the one that was seen.
pub data AcquireRound : Type 0 where
  gave_up : String → AcquireRound
  taken : Slots → AcquireRound
  waits : ℕ → AcquireRound

unfoldable pub acquire_round : Option String → Slots → AcquireRound
unfolding acquire
acquire_round (some e) s = gave_up e
acquire_round none s = let (s', ok) = acquire s false in if ok then taken s' else waits s'.changed
