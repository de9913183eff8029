-- ===== src/Queue/CheckSpec/Tests.antt =====
-- A spec with an image, a check that runs in it, and a receipt; and specs that the gate refuses.
use gauntlet.Config.Checks.{
  CheckSpec, Check, Image, Receipt, any_needs, is_isolated, receipt_of, requires_services,
}
use gauntlet.Config.Checks.Graph.{visit, visit_all, visit_deps}
use gauntlet.Config.Checks.Nodes.{
  SpecError, check_deploy_names, check_deploys, check_edges, check_names, deploy_edges,
  deploy_names, edges_fault, validate_acyclic, validate_deploy_acyclic, validate_deploys,
}
use gauntlet.Config.Checks.Validate.{
  check_check_names, check_checks, check_fault, check_images, check_receipts, check_services,
  image_names, needs_fault, receipt_fault, service_names, validate,
}
use gauntlet.Queue.CheckSpec.{
  Reason, any_remote, build_node, check_node, image_on_incapable_profile, incapable_profile,
  incapable_checks, receipt_node, scan_checks, spec_reject_reason, unknown_executor_profile,
  unresolved_checks, unresolved_images,
}
use gauntlet.Queue.CheckSpec.Names.{Decodes, validate-Decodes}
use gauntlet.Prelude.{
  pos, lookup, insert, String, Option, [], ◌∷◌, none, some, true, false, refl, ◌≡◌, All, Bool,
}

abbrev app_image : Image
app_image = record { name = "app"; command = "build" ∷ []; executor = "" }

abbrev unit_check : Check
unit_check = record {
  test_results = "";
  retry_command = none;
  inputs = none;
  name = "unit";
  command = "test" ∷ [];
  needs = [];
  after = [];
  executor = "";
  image = "app";
}

abbrev proof_receipt : Receipt
proof_receipt = record {
  name = "proof";
  command = "sign" ∷ [];
  executor = "";
  image = "";
  after = "unit" ∷ [];
}

abbrev image_spec : CheckSpec
image_spec = record {
  checks = unit_check ∷ [];
  services = [];
  images = app_image ∷ [];
  receipts = proof_receipt ∷ [];
  max_parallel = pos 0;
  deploys = [];
  workspace = "";
}

-- A definition that opens the validation, and one for the gate.
verify : CheckSpec → Option SpecError
unfolding validate validate_deploys check_deploy_names check_deploys edges_fault deploy_names
    validate_deploy_acyclic deploy_edges visit_all visit visit_deps lookup insert check_services
    check_images check_check_names check_checks check_fault needs_fault check_receipts receipt_fault
    validate_acyclic check_edges service_names image_names check_names
verify spec = validate (λ s. s) spec

gate : CheckSpec → Option (String → Bool) → Bool → Option Reason
unfolding spec_reject_reason scan_checks any_remote unknown_executor_profile unresolved_checks
    unresolved_images image_on_incapable_profile incapable_checks is_isolated receipt_of
    requires_services any_needs
gate spec capable receipts = spec_reject_reason spec false none capable receipts none

image_spec_accepted : validate (λ s. s) image_spec ≡ none
unfolding verify
image_spec_accepted = refl

gate_opens : spec_reject_reason image_spec false none (some (λ p. true)) true none ≡ none
unfolding gate
gate_opens = refl

gate_refuses_profile :
    spec_reject_reason image_spec false none none true none ≡ some (incapable_profile "unit" "app")
unfolding gate
gate_refuses_profile = refl

validate-Decodes_example :
    All (λ i. Decodes (build_node i).name (some i.name) none) image_spec.images
    × (All (λ c. Decodes (check_node c).name none none) image_spec.checks
        × All (λ r. Decodes (receipt_node r.name) none (some r.name)) image_spec.receipts)
validate-Decodes_example = validate-Decodes (λ s. s) image_spec image_spec_accepted
