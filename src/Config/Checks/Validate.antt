-- ===== src/Config/Checks/Validate.antt =====
-- internal/config/checks.go: `validate`, with Go's upper-casing of a text as a parameter.
use gauntlet.Config.Checks.Patterns.{matches_cpus, codes, matches_memory, owner_of, env_safe_name}
use gauntlet.Config.Checks.Nodes.{
  bad_cpus, bad_memory, bad_workspace, bad_max_parallel, receipt_prefix, edges_fault, env_collision,
  unknown_image, image_prefix, validate_deploys, bad_idle_ttl, bad_ready_timeout, empty_command,
  declared_twice, validate_acyclic, inputs_need_isolation, collides_with_image, bad_retry_command,
  no_checks, empty_inputs, collides_with_check, at_receipt, at_service, bad_port, duplicate_need,
  duplicate, at_check, empty_name, empty_image, unknown_need, bad_test_results, at_image, at_name,
  check_names, SpecError, Fault,
}
use text.Mathlib.Text.{starts_with}
use gauntlet.Config.Checks.{CheckSpec, Check, Service, Image, Receipt, is_none}
use gauntlet.Prelude.{
  pos, ltb_ℤ, leb_ℤ, ℕ, Bool, String, Option, List, [], ◌∷◌, none, some, false, not, ◌||◌, ◌&&◌,
  str_eq, contains, ◌<|>◌, reject_if,
}

unfoldable pub service_names : List Service → List String
service_names [] = []
service_names (s ∷ ss) = s.name ∷ service_names ss

unfoldable pub image_names : List Image → List String
image_names [] = []
image_names (i ∷ is) = i.name ∷ image_names is

-- The limits of one service, after its name is found to be new.
unfoldable pub service_fault : Service → Option Fault
service_fault s =
    reject_if (str_eq s.image "") empty_image
    <|> reject_if (ltb_ℤ s.port (pos 1) || ltb_ℤ (pos 65535) s.port) bad_port
    <|> reject_if (leb_ℤ s.ready_timeout (pos 0)) bad_ready_timeout
    <|> reject_if (leb_ℤ s.idle_ttl (pos 0)) bad_idle_ttl
    <|> reject_if (not (str_eq s.memory "") && not (matches_memory (codes s.memory))) bad_memory
    <|> reject_if (not (str_eq s.cpus "") && not (matches_cpus (codes s.cpus))) bad_cpus

unfoldable pub check_services :
    (String → String) → List String → List (List ℕ × String) → List Service → Option SpecError
check_services to_upper seen owners [] = none
check_services to_upper seen owners (s ∷ ss) =
    let env = env_safe_name to_upper s.name in
    reject_if (str_eq s.name "") (at_service "" empty_name)
    <|> reject_if (contains seen s.name) (at_service s.name duplicate)
    <|> at_name at_service s.name
        (elim (owner_of env owners) [ none ↦ none | some o ↦ some (env_collision o) ])
    <|> at_name at_service s.name (service_fault s)
    <|> check_services to_upper (s.name ∷ seen) ((env, s.name) ∷ owners) ss

unfoldable pub check_images : List String → List Image → Option SpecError
check_images seen [] = none
check_images seen (i ∷ is) =
    reject_if (str_eq i.name "") (at_image "" empty_name)
    <|> reject_if (contains seen i.name) (at_image i.name duplicate)
    <|> reject_if (is_none i.command) (at_image i.name empty_command)
    <|> check_images (i.name ∷ seen) is

abbrev pub inputs_empty : Option (List String) → Bool
inputs_empty none = false
inputs_empty (some cmd) = is_none cmd

abbrev pub inputs_given : Option (List String) → Bool
inputs_given none = false
inputs_given (some cmd) = not (is_none cmd)

-- The first pass over the checks: their names.
unfoldable pub check_check_names : String → List String → List Check → Option SpecError
check_check_names workspace seen [] = none
check_check_names workspace seen (c ∷ cs) =
    reject_if (inputs_empty c.inputs) (at_check c.name empty_inputs)
    <|> reject_if (inputs_given c.inputs && not (str_eq workspace "isolated"))
        (at_check c.name inputs_need_isolation)
    <|> reject_if (str_eq c.name "") (at_check "" empty_name)
    <|> reject_if (starts_with c.name "image:") (at_check c.name image_prefix)
    <|> reject_if (starts_with c.name "receipt:") (at_check c.name receipt_prefix)
    <|> reject_if (contains seen c.name) (at_check c.name duplicate)
    <|> check_check_names workspace (c.name ∷ seen) cs

unfoldable pub needs_fault : List String → List String → List String → Option Fault
needs_fault services seen [] = none
needs_fault services seen (n ∷ ns) =
    reject_if (not (contains services n)) (unknown_need n)
    <|> reject_if (contains seen n) (duplicate_need n)
    <|> needs_fault services (n ∷ seen) ns

abbrev pub is_retry_fault : Option (List String) → String → Bool
is_retry_fault none results = false
is_retry_fault (some cmd) results = is_none cmd || str_eq results ""

unfoldable pub check_fault : List String → List String → List String → Check → Option Fault
check_fault services images known c =
    reject_if (not (contains ("" ∷ "json" ∷ "junit" ∷ "trx" ∷ []) c.test_results)) bad_test_results
    <|> reject_if (is_retry_fault c.retry_command c.test_results) bad_retry_command
    <|> reject_if (is_none c.command) empty_command
    <|> needs_fault services [] c.needs
    <|> reject_if (not (str_eq c.image "") && not (contains images c.image)) (unknown_image c.image)
    <|> edges_fault (some c.name) known [] c.after

unfoldable pub check_checks :
    List String → List String → List String → List Check → Option SpecError
check_checks services images known [] = none
check_checks services images known (c ∷ cs) =
    at_name at_check c.name (check_fault services images known c)
    <|> check_checks services images known cs

unfoldable pub receipt_fault : List String → List String → Receipt → Option Fault
receipt_fault images known r =
    reject_if (str_eq r.name "") empty_name
    <|> reject_if (contains known r.name) collides_with_check
    <|> reject_if (contains images r.name) collides_with_image
    <|> reject_if (is_none r.command) empty_command
    <|> reject_if (not (str_eq r.image "") && not (contains images r.image)) (unknown_image r.image)
    <|> edges_fault none known [] r.after

unfoldable pub check_receipts : List String → List String → List Receipt → Option SpecError
check_receipts images known [] = none
check_receipts images known (r ∷ []) = at_name at_receipt r.name (receipt_fault images known r)
check_receipts images known (r ∷ s ∷ rs) = some (at_receipt "" declared_twice)

abbrev pub max_allowed_max_parallel : ℕ
max_allowed_max_parallel = 64

module _ (to_upper : String → String) where
  unfoldable pub validate : CheckSpec → Option SpecError
  validate spec =
      let services = service_names spec.services in
      let images = image_names spec.images in
      let known = check_names spec.checks in
      reject_if (is_none spec.checks) no_checks
      <|> check_services to_upper [] [] spec.services
      <|> check_images [] spec.images
      <|> check_check_names spec.workspace [] spec.checks
      <|> check_checks services images known spec.checks
      <|> check_receipts images known spec.receipts
      <|> validate_acyclic spec
      <|> validate_deploys spec.deploys
      <|> reject_if (ltb_ℤ spec.max_parallel (pos 0)) bad_max_parallel
      <|> reject_if (ltb_ℤ (pos max_allowed_max_parallel) spec.max_parallel) bad_max_parallel
      <|> reject_if (not (contains ("" ∷ "isolated" ∷ []) spec.workspace)) bad_workspace
