-- ===== src/Config/Checks/Parse.antt =====
-- internal/config/checks.go: `ParseChecks`. The KDL parser (`kdl.Parse`, of which the names of the
-- top-level nodes are read, and `kdl.Unmarshal`) and Go's upper-casing are parameters.
use gauntlet.Config.Checks.{CheckSpec, apply_service_defaults}
use gauntlet.Config.Checks.Nodes.{SpecError}
use gauntlet.Config.Checks.Validate.{validate}
use gauntlet.Prelude.{String, Option, List, [], ◌∷◌, none, some, map, contains, if◌then◌else◌}

-- A call that returns a value or an error's text.
pub data Answer (A : Type 0) : Type 0 where
  answer : A → Answer A
  failed : String → Answer A

pub data Parsed : Type 0 where
  parsed : CheckSpec → Parsed
  repeated : String → Parsed
  malformed : String → Parsed
  invalid : SpecError → Parsed

abbrev pub singleton_nodes : List String
singleton_nodes = "workspace" ∷ "max-parallel" ∷ []

-- The count of a name reaches two where it was seen before. A node may have no name.
unfoldable pub repeated_singleton : List String → List (Option String) → Option String
repeated_singleton seen [] = none
repeated_singleton seen (none ∷ ns) = repeated_singleton seen ns
repeated_singleton seen (some n ∷ ns) =
    let counted = repeated_singleton (n ∷ seen) ns in
    let skipped = repeated_singleton seen ns in
    if contains singleton_nodes n then if contains seen n then some n else counted else skipped

unfoldable pub reject_duplicate_singletons : Answer (List (Option String)) → Option String
reject_duplicate_singletons (failed e) = none
reject_duplicate_singletons (answer names) = repeated_singleton [] names

module _ (to_upper : String → String) where
  unfoldable pub load_spec : CheckSpec → CheckSpec × Option SpecError
  load_spec spec =
      let filled = record spec { services = map apply_service_defaults spec.services } in
      (filled, validate to_upper filled)

  module _ (node_names : String → Answer (List (Option String)))
      (unmarshal : String → Answer CheckSpec) where
    unfoldable pub parse_checks : String → Parsed
    parse_checks text = elim (reject_duplicate_singletons (node_names text)) [
      | some n ↦ repeated n
      | none ↦ elim (unmarshal text) [
        | failed e ↦ malformed e
        | answer spec ↦ elim (load_spec spec).1 [
          | some e ↦ invalid e
          | none ↦ parsed (load_spec spec).0
        ]
      ]
    ]
