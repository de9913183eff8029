-- ===== src/TestReport.antt =====
-- internal/testreport/report.go: the validation of a report's tests and the merge of a rerun. A
-- returned error is a value; the parsers of JSON and XML are not modelled.

pub mod Answer
pub mod Merge
pub mod Refused
mod Tests
use Prim.Native.Char.{code}
use Prim.Native.String.{len}
use gauntlet.Prelude.{
  ◌||◌, ◌*◌, ◌==◌, str_eq, ltb, has, length, erase, ◌&&◌, elem, lookup, ◌+◌, insert, contains,
  if◌then◌else◌, ◌++◌, Bool, Map, String, Option, ℕ, List, [], ◌∷◌, none, some, true, false,
}
use gauntlet.Core.Types.{TestCase}

abbrev pub max_bytes : ℕ
max_bytes = 1048576

abbrev pub max_tests : ℕ
max_tests = 10000

pub data ReportError : Type 0 where
  bad_count : ReportError
  too_large : ReportError
  bad_identity : String → ReportError
  bad_status : String → ReportError
  not_executed : String → ReportError

-- The characters that `strings.TrimSpace` takes off.
unfoldable pub is_space : ℕ → Bool
is_space c = elem c (
    9 ∷ 10 ∷ 11 ∷ 12 ∷ 13 ∷ 32 ∷ 0x85 ∷ 0xa0 ∷ 0x1680 ∷ 0x2000 ∷ 0x2001 ∷ 0x2002 ∷ 0x2003 ∷ 0x2004
    ∷ 0x2005 ∷ 0x2006 ∷ 0x2007 ∷ 0x2008 ∷ 0x2009 ∷ 0x200a ∷ 0x2028 ∷ 0x2029 ∷ 0x202f ∷ 0x205f
    ∷ 0x3000 ∷ [])

-- `strings.TrimSpace(s) == ""`
unfoldable pub is_blank : String → Bool
is_blank String.[] = true
is_blank (String.◌∷◌ c s) = is_space (code c) && is_blank s

unfoldable pub is_status : String → Bool
is_status s = contains ("passed" ∷ "failed" ∷ "skipped" ∷ []) s

-- The loop of `Validate`, with the identities seen and the bytes counted so far.
unfoldable pub validate_from : List String → ℕ → List TestCase → Option ReportError
validate_from seen total [] = none
validate_from seen total (t ∷ ts) =
    let total' : ℕ = total + (len t.id + len t.message) in
    let rest = validate_from (t.id ∷ seen) total' ts in
    if ltb (2 * max_bytes) total'
    then some too_large
    else if is_blank t.id || ltb 2048 (len t.id) || contains seen t.id || ltb 8192 (len t.message)
    then some (bad_identity t.id)
    else if is_status t.status
    then rest
    else some (bad_status t.id)

unfoldable pub validate : List TestCase → Option ReportError
validate tests =
    if length tests == 0 || ltb max_tests (length tests)
    then some bad_count
    else validate_from [] 0 tests

-- `Failed`, up to the order of the sorted result, which its callers in the broker do not read.
unfoldable pub failed_ids : List TestCase → List String
failed_ids [] = []
failed_ids (t ∷ ts) = if str_eq t.status "failed" then t.id ∷ failed_ids ts else failed_ids ts

-- The map `byID`.
unfoldable pub index : List TestCase → Map TestCase → Map TestCase
index [] by_id = by_id
index (t ∷ ts) by_id = index ts (insert t.id t by_id)

-- The first requested test that the rerun lacks or skipped.
unfoldable pub first_missing : Map TestCase → List String → Option String
first_missing by_id [] = none
first_missing by_id (id ∷ ids) = elim (lookup id by_id) [
  | none ↦ some id
  | some t ↦ if str_eq t.status "skipped" then some id else first_missing by_id ids
]

-- The loop over `merged`: a replaced test leaves the map.
unfoldable pub replace_tests : Map TestCase → List TestCase → List TestCase × Map TestCase
replace_tests by_id [] = ([], by_id)
replace_tests by_id (t ∷ ts) = elim (lookup t.id by_id) [
  | none ↦ let (rest, left) = replace_tests by_id ts in (t ∷ rest, left)
  | some new ↦ let (rest, left) = replace_tests (erase t.id by_id) ts in (new ∷ rest, left)
]

-- The tests of the rerun that replaced nothing.
unfoldable pub new_tests : Map TestCase → List TestCase → List TestCase
new_tests left [] = []
new_tests left (t ∷ ts) = if has t.id left then t ∷ new_tests left ts else new_tests left ts

unfoldable pub merge_rerun :
    List TestCase → List TestCase → List String → List TestCase × Option ReportError
merge_rerun previous rerun requested = elim (validate rerun) [
  | some e ↦ (previous, some e)
  | none ↦ elim (first_missing (index rerun []) requested) [
    | some id ↦ (previous, some (not_executed id))
    | none ↦
        let (replaced, left) = replace_tests (index rerun []) previous in
        let merged = replaced ++ new_tests left rerun in (merged, validate merged)
  ]
]
