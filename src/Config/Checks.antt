-- ===== src/Config/Checks.antt =====
-- internal/config/checks.go: the check spec that a repository declares. A slice that may be nil and
-- is told from an empty one is optional; numbers and durations that may be negative are integers.
-- The parser of the KDL text is not modelled, nor the comments of a field.
pub mod Graph
pub mod Patterns
pub mod Nodes
pub mod Validate
pub mod Parse
pub mod Select
use gauntlet.Prelude.{
  ℤ, pos, leb_ℤ, ℕ, Bool, String, Option, List, [], ◌∷◌, none, some, true, false, ◌||◌, ◌&&◌,
  str_eq, if◌then◌else◌,
}

pub record EnvVar : Type 0 where
  pub name : String
  pub value : String

pub record Service : Type 0 where
  pub name : String
  pub image : String
  pub port : ℤ
  pub env : List EnvVar
  pub ready_command : List String
  pub ready_timeout : ℤ
  pub idle_ttl : ℤ
  pub memory : String
  pub cpus : String

pub record Image : Type 0 where
  pub name : String
  pub command : List String
  pub executor : String

pub record Receipt : Type 0 where
  pub name : String
  pub command : List String
  pub executor : String
  pub image : String
  pub after : List String

pub record DeployNode : Type 0 where
  pub name : String
  pub command : List String
  pub after : List String
  pub executor : String

pub record Check : Type 0 where
  pub test_results : String
  pub retry_command : Option (List String)
  pub inputs : Option (List String)
  pub name : String
  pub command : List String
  pub needs : List String
  pub after : List String
  pub executor : String
  pub image : String

pub record CheckSpec : Type 0 where
  pub checks : List Check
  pub services : List Service
  pub images : List Image
  pub receipts : List Receipt
  pub max_parallel : ℤ
  pub deploys : List DeployNode
  pub workspace : String

abbrev pub is_none {ℓ} : {A : Type ℓ} → List A → Bool
is_none [] = true
is_none (x ∷ xs) = false

unfoldable pub any_needs : List Check → Bool
any_needs [] = false
any_needs (c ∷ cs) = elim c.needs [ [] ↦ any_needs cs | _ ∷ _ ↦ true ]

unfoldable pub requires_services : CheckSpec → Bool
requires_services spec = elim spec.services [ [] ↦ any_needs spec.checks | _ ∷ _ ↦ true ]

abbrev pub default_ready_timeout : ℤ
default_ready_timeout = pos 60000000000

abbrev pub default_idle_ttl : ℤ
default_idle_ttl = pos 1800000000000

abbrev pub or_default : ℤ → ℤ → ℤ
or_default (pos ℕ.zero) d = d
or_default n d = n

unfoldable pub apply_service_defaults : Service → Service
apply_service_defaults svc = record svc {
  ready_timeout = or_default svc.ready_timeout default_ready_timeout;
  idle_ttl = or_default svc.idle_ttl default_idle_ttl;
}

unfoldable pub is_isolated : CheckSpec → Bool
is_isolated spec = str_eq spec.workspace "isolated"

-- `Receipt`
unfoldable pub receipt_of : CheckSpec → Option Receipt
receipt_of spec = elim spec.receipts [ [] ↦ none | r ∷ _ ↦ some r ]
