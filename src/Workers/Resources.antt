-- ===== src/Workers/Resources.antt =====
-- internal/workers/types.go: resources, requirements, workers, and the share of a worker that is
-- kept for urgent jobs. Quantities are integers, since what is left may go below zero; the share is
-- computed on a validated worker, whose capacity and slots are positive.
pub mod Int64
pub mod Share
pub use gauntlet.Core.Job.{CheckJob}
use gauntlet.Prelude.{
  ◌-◌, str_eq, ◌%◌, not, ◌&&◌, ◌+◌, leb_ℤ, contains, ◌*◌, if◌then◌else◌, ◌-ℤ◌, ℤ, String, ◌/◌, Bool,
  ℕ, List, [], ◌∷◌, none, some, true, false,
}

pub record Resources : Type 0 where
  pub slots : ℤ
  pub cpu : ℤ
  pub memory : ℤ

unfoldable pub fits : Resources → Resources → Bool
fits r available =
    leb_ℤ r.slots available.slots && leb_ℤ r.cpu available.cpu && leb_ℤ r.memory available.memory

unfoldable pub subtract : Resources → Resources → Resources
subtract r used = record {
  slots = r.slots -ℤ used.slots;
  cpu = r.cpu -ℤ used.cpu;
  memory = r.memory -ℤ used.memory;
}

pub record Requirements : Type 0 where
  pub labels : List String
  pub resources : Resources

pub record Worker : Type 0 where
  pub image_profiles : List String
  pub service_profiles : List String
  pub id : String
  pub session : String
  pub profiles : List String
  pub labels : List String
  pub capacity : Resources
  pub usage : Resources
  pub urgent_reserve : ℤ
  pub draining : Bool

abbrev pub is_empty {ℓ} : {A : Type ℓ} → List A → Bool
is_empty [] = true
is_empty (x ∷ xs) = false

unfoldable pub all_labels : List String → List String → Bool
all_labels has_labels [] = true
all_labels has_labels (label ∷ labels) = contains has_labels label && all_labels has_labels labels

unfoldable pub accepts : Worker → CheckJob → Requirements → Bool
accepts w job needs =
    if not (str_eq job.image "") && not (contains w.image_profiles job.executor)
    then false
    else if not (is_empty job.service_needs) && not (contains w.service_profiles job.executor)
    then false
    else if not (contains w.profiles job.executor)
    then false
    else all_labels w.labels needs.labels

-- `reservedShare`, the formula over unbounded numbers. `Int64.reserved_share_int64` is the same in the
-- arithmetic of an int64.
unfoldable pub reserved_share : ℕ → ℕ → ℕ → ℕ
reserved_share capacity slots reserve =
    capacity / slots * reserve + (capacity % slots * reserve + slots - 1) / slots
