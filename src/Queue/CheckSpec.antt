-- ===== src/Queue/CheckSpec.antt =====
-- internal/queue/checkspec.go: the gate of a check spec and the nodes of a run's graph. A reason is a
-- value, with the names that its text quotes.
pub mod Names
mod Tests
use Prim.Native.Char.{code}
use Prim.Native.String.{◌++◌ as str_append}
use gauntlet.Config.Checks.{
  CheckSpec, Check, Image, Receipt, is_isolated, receipt_of, requires_services, is_none,
}
use gauntlet.Prelude.{
  pos, negsuc, ℕ, Bool, String, Option, List, [], ◌∷◌, none, some, true, false, not, ◌||◌, ◌&&◌,
  ◌++◌, str_eq, ◌==◌, map, if◌then◌else◌, ◌<|>◌, reject_if,
}

pub data Reason : Type 0 where
  remote_checks_shared remote_images_shared remote_receipts_shared no_services_block
        receipt_missing :
      Reason
  unknown_profile : String → String → Reason
  incapable_profile : String → String → Reason
  receipt_unwanted : String → Reason

abbrev pub is_in : Option (String → Bool) → String → Bool
is_in none name = false
is_in (some profiles) name = profiles name

-- The loop over the checks; the Boolean is `hasRemoteServices`.
unfoldable pub scan_checks :
    Bool → Bool → Option (String → Bool) → Bool → List Check → Option Reason × Bool
scan_checks isolated has_services remote seen [] = (none, seen)
scan_checks isolated has_services remote seen (c ∷ cs) =
    let here = is_in remote c.executor in
    let needs = not (is_none c.needs) in
    let rest = scan_checks isolated has_services remote (seen || (needs && here)) cs in
    if here && not isolated
    then (some remote_checks_shared, seen)
    else if needs && not here && not has_services
    then (some no_services_block, seen)
    else rest

unfoldable pub any_remote : Option (String → Bool) → List Image → Bool
any_remote remote [] = false
any_remote remote (i ∷ is) = is_in remote i.executor || any_remote remote is

abbrev pub image_node_prefix : String
image_node_prefix = "image:"

abbrev pub receipt_node_prefix : String
receipt_node_prefix = "receipt:"

abbrev pub image_node : String → String
image_node name = str_append image_node_prefix name

abbrev pub receipt_node : String → String
receipt_node name = str_append receipt_node_prefix name

-- `strings.CutPrefix`
unfoldable pub cut_prefix : String → String → Option String
cut_prefix s String.[] = some s
cut_prefix String.[] (String.◌∷◌ d p) = none
cut_prefix (String.◌∷◌ c s) (String.◌∷◌ d p) =
    let rest = cut_prefix s p in if code c == code d then rest else none

unfoldable pub image_node_name : String → Option String
image_node_name node = cut_prefix node image_node_prefix

unfoldable pub receipt_node_name : String → Option String
receipt_node_name node = cut_prefix node receipt_node_prefix

-- A selection that does not resolve: the node and its profile.
abbrev pub unresolved : Option (String → Bool) → String → String → Option (String × String)
unresolved known node profile =
    reject_if (not (str_eq profile "") && not (is_in known profile)) (node, profile)

unfoldable pub unresolved_checks : Option (String → Bool) → List Check → Option (String × String)
unresolved_checks known [] = none
unresolved_checks known (c ∷ cs) = unresolved known c.name c.executor <|> unresolved_checks known cs

unfoldable pub unresolved_images : Option (String → Bool) → List Image → Option (String × String)
unresolved_images known [] = none
unresolved_images known (i ∷ is) =
    unresolved known (image_node i.name) i.executor <|> unresolved_images known is

unfoldable pub unknown_executor_profile :
    CheckSpec → Option (String → Bool) → Option (String × String)
unknown_executor_profile spec known =
    unresolved_checks known spec.checks
    <|> unresolved_images known spec.images
    <|> elim (receipt_of spec) [
      | none ↦ none
      | some r ↦ unresolved known (receipt_node r.name) r.executor
    ]

abbrev pub incapable : Option (String → Bool) → String → String → String → Option (String × String)
incapable capable node image profile =
    reject_if (not (str_eq image "") && not (is_in capable profile)) (node, image)

unfoldable pub incapable_checks : Option (String → Bool) → List Check → Option (String × String)
incapable_checks capable [] = none
incapable_checks capable (c ∷ cs) =
    incapable capable c.name c.image c.executor <|> incapable_checks capable cs

unfoldable pub image_on_incapable_profile :
    CheckSpec → Option (String → Bool) → Option (String × String)
image_on_incapable_profile spec capable =
    incapable_checks capable spec.checks <|> elim (receipt_of spec) [
      | none ↦ none
      | some r ↦ incapable capable (receipt_node r.name) r.image r.executor
    ]

abbrev pub at_pair : (String → String → Reason) → Option (String × String) → Option Reason
at_pair reason none = none
at_pair reason (some (a, b)) = some (reason a b)

abbrev pub receipt_gate : Bool → Option Receipt → Option Reason
receipt_gate true none = some receipt_missing
receipt_gate true (some r) = none
receipt_gate false none = none
receipt_gate false (some r) = some (receipt_unwanted r.name)

abbrev pub is_remote_receipt : Option (String → Bool) → Option Receipt → Bool
is_remote_receipt remote none = false
is_remote_receipt remote (some r) = is_in remote r.executor

unfoldable pub spec_reject_reason :
    CheckSpec
    → Bool
    → Option (String → Bool)
    → Option (String → Bool)
    → Bool
    → Option (String → Bool)
    → Option Reason
spec_reject_reason spec has_services known image_capable receipt_policy remote =
    let isolated = is_isolated spec in
    let scanned = scan_checks isolated has_services remote false spec.checks in
    scanned.0
    <|> reject_if (any_remote remote spec.images && not isolated) remote_images_shared
    <|> reject_if (is_remote_receipt remote (receipt_of spec) && not isolated)
        remote_receipts_shared
    <|> reject_if (requires_services spec && not has_services && not scanned.1) no_services_block
    <|> at_pair unknown_profile (unknown_executor_profile spec known)
    <|> at_pair incapable_profile (image_on_incapable_profile spec image_capable)
    <|> receipt_gate receipt_policy (receipt_of spec)

-- The nodes of images, of checks and of the receipt.
abbrev pub build_node : Image → Check
build_node i = record {
  test_results = "";
  retry_command = none;
  inputs = none;
  name = image_node i.name;
  command = i.command;
  needs = [];
  after = [];
  executor = i.executor;
  image = "";
}

abbrev pub with_image : String → List String → List String
with_image image after = if str_eq image "" then after else after ++ (image_node image ∷ [])

abbrev pub check_node : Check → Check
check_node c = record c { after = with_image c.image c.after }

abbrev pub receipt_nodes : Option Receipt → List Check
receipt_nodes none = []
receipt_nodes (some r) =
    record {
      test_results = "";
      retry_command = none;
      inputs = none;
      name = receipt_node r.name;
      command = r.command;
      needs = [];
      after = with_image r.image r.after;
      executor = r.executor;
      image = r.image;
    }
    ∷ []

abbrev pub no_receipt : Option Receipt → Bool
no_receipt none = true
no_receipt (some r) = false

unfoldable pub build_run_nodes : CheckSpec → List Check
build_run_nodes spec =
    if is_none spec.images && no_receipt (receipt_of spec)
    then spec.checks
    else map build_node spec.images
      ++ (map check_node spec.checks ++ receipt_nodes (receipt_of spec))

unfoldable pub effective_max_parallel : CheckSpec → ℕ
effective_max_parallel spec = elim spec.max_parallel [
  | pos ℕ.zero ↦ 1
  | pos (ℕ.suc n) ↦ ℕ.suc n
  | negsuc n ↦ 1
]
