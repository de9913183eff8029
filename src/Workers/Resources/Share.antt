-- ===== src/Workers/Resources/Share.antt =====
-- workers/types.go: `reservedShare` is the reserved fraction of a capacity, rounded up, computed
-- without overflow.
use gauntlet.Workers.Resources.{reserved_share}
use gauntlet.Workers.Resources.Int64.{
  reserved_share_int64, add64, sub64, mul64, div64, add64_exact, sub64_exact, mul64_exact,
  div64_exact, rem64_exact,
}
use gauntlet.Prelude.{ap, ap₂, ◌∙◌, ◌%◌, ◌-◌, ◌/◌, ◌≡◌, ◌^◌, ◌+◌, ◌≤◌, ◌*◌, ◌<◌, ℕ, arith}
use native.Mathlib.Nat.{div-add-mod, mod-lt}

share_arith :
    (c s n q r e m : ℕ)
    → 0 < s
    → s * q + r ≡ c
    → s * e + m ≡ r * n + s - 1
    → m < s
    → (c * n ≤ s * (q * n + e)) × (s * (q * n + e) < c * n + s)
share_arith c s n q r e m pos whole part small =
    let w : (s * q + r) * n ≡ c * n = ap (λ (t : ℕ). t * n) whole in omega (arith, w)

-- For a positive number of slots the share is capacity * reserve / slots, rounded up: it covers the
-- exact fraction, and one less does not.
pub reserved_share_ceil :
    (capacity slots reserve : ℕ)
    → 0 < slots
    → (capacity * reserve ≤ slots * reserved_share capacity slots reserve)
      × (slots * reserved_share capacity slots reserve < capacity * reserve + slots)
unfolding reserved_share
reserved_share_ceil capacity slots reserve pos =
    share_arith capacity slots reserve (capacity / slots) (capacity % slots)
      ((capacity % slots * reserve + slots - 1) / slots)
      ((capacity % slots * reserve + slots - 1) % slots) pos (div-add-mod capacity slots)
      (div-add-mod (capacity % slots * reserve + slots - 1) slots) (mod-lt _ pos)

part_le : (c s n q r : ℕ) → s * q + r ≡ c → n ≤ s → q * n ≤ c
part_le c s n q r whole h = grind arith

rest_le : (s n r : ℕ) → r < s → n < s → s ≤ 4096 → r * n + s ≤ 4096 * 4096 + 4096
rest_le s n r h k few = grind arith

cancel_lt : (s a b : ℕ) → 0 < s → s * a < s * b → a < b
cancel_lt s a b pos h = grind arith

scaled_le : (c s n : ℕ) → n ≤ s → c * n + s ≤ s * (c + 1)
scaled_le c s n h = grind arith

-- For a capacity that an int64 holds, on a worker of at most 4096 slots that keeps fewer than all of
-- them, the share computed with the wrapping arithmetic of an int64 is the exact one: nothing
-- overflows on the way, and the result is not negative.
pub reserved_share_int64_exact :
    (capacity slots reserve : ℕ)
    → 0 < slots
    → slots ≤ 4096
    → reserve < slots
    → capacity < 2 ^ 63
    → (reserved_share_int64 capacity slots reserve ≡ reserved_share capacity slots reserve)
      × (reserved_share_int64 capacity slots reserve < 2 ^ 63)
unfolding reserved_share reserved_share_int64
reserved_share_int64_exact capacity slots reserve pos few less fits =
    let whole = div-add-mod capacity slots in
    let (_, above) = reserved_share_ceil capacity slots reserve pos in
    let share : reserved_share capacity slots reserve < capacity + 1 =
      cancel_lt slots _ (capacity + 1) pos
        (omega (arith, above, scaled_le capacity slots reserve (omega arith))) in
    let part =
      part_le capacity slots reserve (capacity / slots) (capacity % slots) whole (omega arith) in
    let rest = rest_le slots reserve (capacity % slots) (mod-lt capacity pos) less few in
    let slots_fit : slots < 2 ^ 63 = omega (arith, few) in
    let exact =
      ap₂ add64
        (ap (λ q. mul64 q reserve) (div64_exact capacity slots fits slots_fit)
          ∙ mul64_exact (capacity / slots) reserve (omega (arith, part, fits)))
        (ap (λ d. div64 d slots)
            (ap (λ m. sub64 m 1)
                (ap (λ m. add64 m slots)
                    (ap (λ r. mul64 r reserve) (rem64_exact capacity slots fits slots_fit)
                      ∙ mul64_exact (capacity % slots) reserve (omega (arith, rest)))
                  ∙ add64_exact (capacity % slots * reserve) slots (omega (arith, rest)))
              ∙ sub64_exact (capacity % slots * reserve + slots) 1 (omega (arith, pos))
                  (omega (arith, rest)))
          ∙ div64_exact (capacity % slots * reserve + slots - 1) slots (omega (arith, rest))
              slots_fit)
      ∙ add64_exact (capacity / slots * reserve) ((capacity % slots * reserve + slots - 1) / slots)
          (omega (arith, share, fits)) in
    (exact, omega (arith, exact, share, fits))
