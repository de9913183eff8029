-- ===== src/Core/Tests.antt =====
-- Runs of the execution slots: three slots, one of them reserved for urgent work.
use gauntlet.Core.Slots.Wakeups.{acquire_round_wakes}
use gauntlet.Core.Slots.Ledger.{
  saturated-acquire, opened, releases, urgent_admitted, run_new-Inv, step, tries, run, Inv, Ledger,
  Call,
}
use gauntlet.Prelude.{arith, not, ◌≡◌, ◌<◌, List, [], ◌∷◌, some, true, false, refl}
use gauntlet.Core.Slots.{
  release, saturated, acquire_round, acquire, try_acquire_priority, new_reserved_slots, Slots,
}

abbrev three_slots : Slots
three_slots = record { limit = 3; reserve = 1; used = 0; changed = 0 }

abbrev full_of_ordinary : Slots
full_of_ordinary = record { limit = 3; reserve = 1; used = 2; changed = 0 }

three_slots_new : new_reserved_slots 3 1 ≡ some three_slots
unfolding new_reserved_slots
three_slots_new = refl

abbrev busy : List Call
busy = tries false ∷ tries false ∷ tries false ∷ []

busy-run :
    run (opened three_slots) busy
    ≡ some (record { slots = full_of_ordinary; ordinary = 2; urgent = 0 })
unfolding run step acquire
busy-run = refl

run_new-Inv_example : Inv (record { slots = full_of_ordinary; ordinary = 2; urgent = 0 })
run_new-Inv_example = run_new-Inv 3 1 busy three_slots_new busy-run

urgent_admitted_example : (try_acquire_priority (some full_of_ordinary) true).1 ≡ true
urgent_admitted_example = urgent_admitted 3 1 busy three_slots_new busy-run (omega arith)

saturated-acquire_example :
    (try_acquire_priority (some full_of_ordinary) false).1 ≡ not (saturated (some full_of_ordinary))
saturated-acquire_example = saturated-acquire (some full_of_ordinary)

abbrev held : Ledger
held = record { slots = full_of_ordinary; ordinary = 2; urgent = 0 }

acquire_round_wakes_example : 0 < 1
acquire_round_wakes_example =
    acquire_round_wakes held (releases false ∷ []) 0
      {m = record {
        slots = record { limit = 3; reserve = 1; used = 1; changed = 1 };
        ordinary = 1;
        urgent = 0;
      }}
      (unfold acquire_round acquire in refl) (unfold run step release in refl) (omega arith)
