-- ===== src/Config/Checks/Patterns.antt =====
-- internal/config/checks.go: the patterns of the limits, and the names of environment variables.
-- Go's upper-casing of a text is a parameter.
use Prim.Native.Char.{code}
use gauntlet.Config.Checks.{is_none}
use gauntlet.Prelude.{
  ℕ, leb, Bool, String, Option, List, [], ◌∷◌, none, some, true, false, ◌||◌, ◌&&◌, ◌==◌, elem, map,
  if◌then◌else◌,
}

unfoldable pub codes : String → List ℕ
codes String.[] = []
codes (String.◌∷◌ c s) = code c ∷ codes s

abbrev pub in_range : ℕ → ℕ → ℕ → Bool
in_range low high c = leb low c && leb c high

abbrev pub is_digit : ℕ → Bool
is_digit c = in_range 48 57 c

unfoldable pub drop_digits : List ℕ → List ℕ
drop_digits [] = []
drop_digits (c ∷ cs) = if is_digit c then drop_digits cs else c ∷ cs

abbrev pub starts_digit : List ℕ → Bool
starts_digit [] = false
starts_digit (c ∷ cs) = is_digit c

-- `(?i)^[0-9]+[bkmg]?$`, where the Kelvin sign folds to k.
unfoldable pub matches_memory : List ℕ → Bool
matches_memory cs = starts_digit cs && elim (drop_digits cs) [
  | [] ↦ true
  | c ∷ rest ↦ is_none rest && elem c (98 ∷ 107 ∷ 109 ∷ 103 ∷ 66 ∷ 75 ∷ 77 ∷ 71 ∷ 0x212a ∷ [])
]

-- `^[0-9]+(\.[0-9]+)?$`
unfoldable pub matches_cpus : List ℕ → Bool
matches_cpus cs = starts_digit cs && elim (drop_digits cs) [
  | [] ↦ true
  | c ∷ rest ↦ (c == 46) && starts_digit rest && is_none (drop_digits rest)
]

-- The mapping of `envSafeName`, on an upper-cased text.
abbrev pub env_safe_code : ℕ → ℕ
env_safe_code c = if in_range 65 90 c || is_digit c then c else 95

unfoldable pub env_safe_name : (String → String) → String → List ℕ
env_safe_name to_upper name = map env_safe_code (codes (to_upper name))

-- `envNames`: a list of mangled names with their services.
unfoldable pub same_codes : List ℕ → List ℕ → Bool
same_codes [] [] = true
same_codes (a ∷ as') (b ∷ bs) = (a == b) && same_codes as' bs
same_codes [] (b ∷ bs) = false
same_codes (a ∷ as') [] = false

unfoldable pub owner_of : List ℕ → List (List ℕ × String) → Option String
owner_of env [] = none
owner_of env ((e, name) ∷ owners) = if same_codes e env then some name else owner_of env owners
