-- ===== src/TestReport/Answer.antt =====
-- testreport/report.go: what `Validate` guarantees, and what each loop of `MergeRerun` answers for a
-- test.
use gauntlet.Core.Types.{TestCase}
use gauntlet.TestReport.{len, new_tests, replace_tests, validate, validate_from, index}
use gauntlet.Prelude.{
  lookup-insert, ◌+◌, insert, eq_iff, lookup-erase, All, str_eq, has, Option-cases, arith, erase,
  contains, map, ◌++◌, if◌then◌else◌, Unrepeated, ◌≡◌, lookup, Bool, Map, Option, String, ℕ, List,
  [], ◌∷◌, none, some, true, false, refl, inl, inr,
}

-- The first test with an identity.
unfoldable pub find_test : String → List TestCase → Option TestCase
find_test id [] = none
find_test id (t ∷ ts) = if str_eq t.id id then some t else find_test id ts

abbrev pub or_else {ℓ} : {A : Type ℓ} → Option A → Option A → Option A
or_else none o = o
or_else (some a) o = some a

abbrev ids : List TestCase → List String
ids = map (λ t. t.id)

-- The identities of a validated report are new and not repeated.
validate_from-Unrepeated :
    (seen : List String) (total : ℕ) (ts : List TestCase)
    → validate_from seen total ts ≡ none
    → Unrepeated (ids ts) × All (λ id. contains seen id ≡ false) (ids ts)
unfolding validate_from
validate_from-Unrepeated seen total [] h = (tt, tt)
validate_from-Unrepeated seen total (t ∷ ts) h =
    let rest : validate_from (t.id ∷ seen) (total + (len t.id + len t.message)) ts ≡ none =
      ground (arith, h) in
    let (u, a) =
      validate_from-Unrepeated (t.id ∷ seen) (total + (len t.id + len t.message)) ts rest in
    ((absent (ids ts) a, u), (ground (arith, h), All-weaken (ids ts) a))
  where
    absent :
        (l : List String)
        → All (λ id. contains (t.id ∷ seen) id ≡ false) l
        → contains l t.id ≡ false
    absent [] a = refl
    absent (x ∷ xs) a = ground (arith, a.0, eq_iff x t.id, eq_iff t.id x, absent xs a.1)

    All-weaken :
        (l : List String)
        → All (λ id. contains (t.id ∷ seen) id ≡ false) l
        → All (λ id. contains seen id ≡ false) l
    All-weaken [] a = tt
    All-weaken (x ∷ xs) a = (ground (arith, a.0), All-weaken xs a.1)

pub validate-Unrepeated : (ts : List TestCase) → validate ts ≡ none → Unrepeated (ids ts)
unfolding validate
validate-Unrepeated ts h = (validate_from-Unrepeated [] 0 ts (ground (arith, h))).0

pub find_test-id :
    (id : String) (ts : List TestCase) (t : TestCase) → find_test id ts ≡ some t → t.id ≡ id
unfolding find_test
find_test-id id [] t h = cc
find_test-id id (x ∷ xs) t h = ground (arith, eq_iff x.id id, find_test-id id xs t)

pub find_test_absent :
    (id : String) (ts : List TestCase) → contains (ids ts) id ≡ false → find_test id ts ≡ none
unfolding find_test
find_test_absent id [] h = refl
find_test_absent id (x ∷ xs) h = ground (arith, find_test_absent id xs)

pub find_test-append :
    (id : String) (xs ys : List TestCase)
    → find_test id (xs ++ ys) ≡ or_else (find_test id xs) (find_test id ys)
unfolding find_test
find_test-append id [] ys = refl
find_test-append id (x ∷ xs) ys = ground (arith, find_test-append id xs ys)

-- The map of a report with no repetition finds what the report holds.
pub lookup-index :
    (id : String) (ts : List TestCase) (by_id : Map TestCase)
    → Unrepeated (ids ts)
    → lookup id (index ts by_id) ≡ or_else (find_test id ts) (lookup id by_id)
unfolding index find_test
lookup-index id [] by_id u = refl
lookup-index id (t ∷ ts) by_id u = ground (
  arith,
  lookup-index id ts (insert t.id t by_id) u.1,
  lookup-insert t.id id t by_id,
  eq_iff t.id id,
  find_test_absent t.id ts u.0,
)

-- A map in which every test stands under its identity.
abbrev pub Keyed : Map TestCase → Type 0
Keyed by_id = (k : String) (t : TestCase) → lookup k by_id ≡ some t → t.id ≡ k

erase-Keyed : (id : String) (by_id : Map TestCase) → Keyed by_id → Keyed (erase id by_id)
erase-Keyed id by_id k key t h = ground (arith, lookup-erase id key by_id, k key t)

abbrev pub answer : Option TestCase → Option TestCase → Option TestCase
answer none new = none
answer (some old) none = some old
answer (some old) (some new) = some new

abbrev pub left_over : Option TestCase → Option TestCase → Option TestCase
left_over none new = new
left_over (some old) new = none

-- The replacement loop answers by the map for the tests that it has, and takes them out of it.
pub find_test-replace_tests :
    (id : String) (by_id : Map TestCase) (ts : List TestCase)
    → Keyed by_id
    → (find_test id (replace_tests by_id ts).0 ≡ answer (find_test id ts) (lookup id by_id))
      × (lookup id (replace_tests by_id ts).1 ≡ left_over (find_test id ts) (lookup id by_id))
unfolding find_test replace_tests
find_test-replace_tests id by_id [] k = (refl, refl)
find_test-replace_tests id by_id (t ∷ ts) k = elim (Option-cases (lookup t.id by_id)) [
  | inl q ↦ ground (arith, q, find_test-replace_tests id by_id ts k, eq_iff t.id id)
  | inr (new, q) ↦ ground (
    arith,
    q,
    k t.id new q,
    find_test-replace_tests id (erase t.id by_id) ts (erase-Keyed t.id by_id k),
    lookup-erase t.id id by_id,
    eq_iff t.id id,
  )
]

abbrev pub kept_if : Bool → Option TestCase → Option TestCase
kept_if true o = o
kept_if false o = none

pub find_test-new_tests :
    (id : String) (left : Map TestCase) (ts : List TestCase)
    → find_test id (new_tests left ts) ≡ kept_if (has id left) (find_test id ts)
unfolding find_test new_tests
find_test-new_tests id left [] = ground arith
find_test-new_tests id left (t ∷ ts) =
    ground (arith, find_test-new_tests id left ts, eq_iff t.id id)
