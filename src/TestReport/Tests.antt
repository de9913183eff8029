-- ===== src/TestReport/Tests.antt =====
-- A report of three tests, and reruns of its failure.
use gauntlet.Core.Types.{TestCase}
use gauntlet.TestReport.{
  not_executed, merge_rerun, validate, validate_from, is_blank, is_space, is_status, index,
  first_missing, replace_tests, new_tests,
}
use gauntlet.TestReport.Answer.{find_test, or_else}
use gauntlet.TestReport.Merge.{find_test-merge_rerun, requested-merge_rerun}
use gauntlet.TestReport.Refused.{merge_rerun_refusal, Executed, NotExecuted}
use gauntlet.Prelude.{
  All, true, contains, ◌⊎◌, lookup, insert, erase, str_eq, ◌≡◌, String, List, [], ◌∷◌, none, some,
  false, refl,
}

abbrev case : String → String → TestCase
case id status = record { id = id; status = status; message = "" }

abbrev first_run : List TestCase
first_run = case "a" "passed" ∷ case "b" "failed" ∷ []

abbrev second_run : List TestCase
second_run = case "b" "passed" ∷ case "c" "passed" ∷ []

abbrev merged_run : List TestCase
merged_run = case "a" "passed" ∷ case "b" "passed" ∷ case "c" "passed" ∷ []

merged : merge_rerun first_run second_run ("b" ∷ []) ≡ (merged_run, none)
unfolding merge_rerun validate validate_from is_blank is_space is_status index first_missing
    replace_tests new_tests lookup insert erase
merged = refl

find_test-merge_rerun_example :
    find_test "b" merged_run ≡ or_else (find_test "b" second_run) (find_test "b" first_run)
find_test-merge_rerun_example =
    find_test-merge_rerun "b" first_run second_run ("b" ∷ []) merged_run merged

requested-merge_rerun_example :
    (t : TestCase) × (find_test "b" second_run ≡ some t)
    × (find_test "b" merged_run ≡ some t)
    × (str_eq t.status "skipped" ≡ false)
requested-merge_rerun_example =
    requested-merge_rerun "b" first_run second_run ("b" ∷ []) merged_run merged refl

-- A rerun that leaves out the failed test, and the error that names it.
abbrev partial_run : List TestCase
partial_run = case "c" "passed" ∷ []

refused : merge_rerun first_run partial_run ("b" ∷ []) ≡ (first_run, some (not_executed "b"))
unfolding merge_rerun validate validate_from is_blank is_space is_status index first_missing lookup
    insert
refused = refl

merge_rerun_refusal_example :
    ((first_run ≡ first_run)
      × ((validate partial_run ≡ some (not_executed "b"))
          ⊎ ((missing : String) × (not_executed "b" ≡ not_executed missing)
              × (contains ("b" ∷ []) missing ≡ true)
              × NotExecuted partial_run missing)))
    ⊎ ((validate first_run ≡ some (not_executed "b"))
        × All (Executed partial_run) ("b" ∷ [])
        × (find_test "a" first_run ≡ or_else (find_test "a" partial_run) (find_test "a" first_run)))
merge_rerun_refusal_example =
    merge_rerun_refusal "a" first_run partial_run ("b" ∷ []) first_run (not_executed "b") refused
