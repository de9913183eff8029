-- ===== src/Workers/Resources/Int64.antt =====
-- workers/types.go: `reservedShare` in the arithmetic of an int64. A value is its bit pattern, below
-- 2 ^ 64; sums, differences and products wrap around, and division truncates towards zero.
use gauntlet.Prelude.{
  ◌+◌, ◌-◌, ◌*◌, ◌/◌, ◌%◌, ◌^◌, ◌<◌, ◌≡◌, ◌≤◌, leb, if◌then◌else◌, Bool, ℕ, arith,
}

abbrev pub wrap : ℕ → ℕ
wrap n = n % 2 ^ 64

abbrev pub is_negative : ℕ → Bool
is_negative a = leb (2 ^ 63) a

abbrev pub magnitude : ℕ → ℕ
magnitude a = if is_negative a then 2 ^ 64 - a else a

unfoldable pub add64 : ℕ → ℕ → ℕ
add64 a b = wrap (a + b)

unfoldable pub sub64 : ℕ → ℕ → ℕ
sub64 a b = wrap (a + 2 ^ 64 - b)

unfoldable pub mul64 : ℕ → ℕ → ℕ
mul64 a b = wrap (a * b)

-- The quotient is negative where the signs differ; the remainder has the sign of the dividend.
unfoldable pub div64 : ℕ → ℕ → ℕ
div64 a b =
    let q : ℕ = magnitude a / magnitude b in
    if is_negative a
    then (if is_negative b then wrap q else wrap (2 ^ 64 - q))
    else if is_negative b
    then wrap (2 ^ 64 - q)
    else q

unfoldable pub rem64 : ℕ → ℕ → ℕ
rem64 a b = let r : ℕ = magnitude a % magnitude b in if is_negative a then wrap (2 ^ 64 - r) else r

-- `reservedShare`.
unfoldable pub reserved_share_int64 : ℕ → ℕ → ℕ → ℕ
reserved_share_int64 capacity slots reserve =
    add64 (mul64 (div64 capacity slots) reserve)
      (div64 (sub64 (add64 (mul64 (rem64 capacity slots) reserve) slots) 1) slots)

-- Where the true result fits, it is the result.
pub add64_exact : (a b : ℕ) → a + b < 2 ^ 63 → add64 a b ≡ a + b
unfolding add64
add64_exact a b h = omega (arith, h)

pub sub64_exact : (a b : ℕ) → b ≤ a → a < 2 ^ 63 → sub64 a b ≡ a - b
unfolding sub64
sub64_exact a b h k = omega (arith, h, k)

pub mul64_exact : (a b : ℕ) → a * b < 2 ^ 63 → mul64 a b ≡ a * b
unfolding mul64
mul64_exact a b h = omega (arith, h)

pub div64_exact : (a b : ℕ) → a < 2 ^ 63 → b < 2 ^ 63 → div64 a b ≡ a / b
unfolding div64
div64_exact a b h k = ground (arith, h, k)

pub rem64_exact : (a b : ℕ) → a < 2 ^ 63 → b < 2 ^ 63 → rem64 a b ≡ a % b
unfolding rem64
rem64_exact a b h k = ground (arith, h, k)
