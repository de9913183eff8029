-- ===== src/TestReport/Merge.antt =====
-- testreport/report.go: what `MergeRerun` answers for each test.
use gauntlet.TestReport.Answer.{
  find_test, or_else, validate-Unrepeated, find_test-id, find_test-append, lookup-index, Keyed,
  answer, left_over, kept_if, find_test-replace_tests, find_test-new_tests,
}
use gauntlet.Core.Types.{TestCase}
use gauntlet.TestReport.{first_missing, new_tests, merge_rerun, replace_tests, validate, index}
use gauntlet.Prelude.{
  ap₂, Bool-cases, ◌∙◌, sym, ap, eq_iff, str_eq, Option-cases, arith, contains, ◌++◌, ◌≡◌, lookup,
  Map, Option, String, List, [], ◌∷◌, none, some, true, false, refl, inl, inr,
}

-- What a rerun that is accepted went through.
merge_rerun_inv :
    (previous rerun : List TestCase) (requested : List String) (merged : List TestCase)
    → merge_rerun previous rerun requested ≡ (merged, none)
    → (validate rerun ≡ none)
      × (first_missing (index rerun []) requested ≡ none)
      × (merged
          ≡ (replace_tests (index rerun []) previous).0
            ++ new_tests (replace_tests (index rerun []) previous).1 rerun)
unfolding merge_rerun
merge_rerun_inv previous rerun requested merged h = elim (Option-cases (validate rerun)) [
  | inr (e, q) ↦ cc (ap (λ p. p.1) (rw (q, merge_rerun) at h))
  | inl q ↦ elim (Option-cases (first_missing (index rerun []) requested)) [
    | inr (id, o) ↦ cc (ap (λ p. p.1) (rw (q, o, merge_rerun) at h))
    | inl o ↦ (q, o, sym (ap (λ p. p.0) (rw (q, o, merge_rerun) at h)))
  ]
]

pub lookup-index_nil :
    (id : String) (rerun : List TestCase)
    → validate rerun ≡ none
    → lookup id (index rerun []) ≡ find_test id rerun
unfolding lookup
lookup-index_nil id rerun ok =
    lookup-index id rerun [] (validate-Unrepeated rerun ok) ∙ or_else_none (find_test id rerun)
  where
    or_else_none : (o : Option TestCase) → or_else o none ≡ o
    or_else_none none = refl
    or_else_none (some t) = refl

index-Keyed : (rerun : List TestCase) → validate rerun ≡ none → Keyed (index rerun [])
index-Keyed rerun ok k t h = find_test-id k rerun t (sym (lookup-index_nil k rerun ok) ∙ h)

-- The three sources of an answer, put together.
or_else-parts :
    (a b c : Option TestCase)
    → b ≡ c
    → or_else (answer a b) (kept_if (elim (left_over a b) [ none ↦ false | some _ ↦ true ]) c)
      ≡ or_else c a
or_else-parts none none c e = ground arith
or_else-parts none (some t) c e = ground arith
or_else-parts (some t) none c e = ground arith
or_else-parts (some t) (some u) c e = ground arith

-- The answers of the report that a valid rerun is merged into.
pub find_test-merged :
    (id : String) (previous rerun merged : List TestCase)
    → validate rerun ≡ none
    → merged
      ≡ (replace_tests (index rerun []) previous).0
        ++ new_tests (replace_tests (index rerun []) previous).1 rerun
    → find_test id merged ≡ or_else (find_test id rerun) (find_test id previous)
find_test-merged id previous rerun merged ok eq =
    let by_id = index rerun [] in
    let (here, left) = find_test-replace_tests id by_id previous (index-Keyed rerun ok) in
    ap (find_test id) eq
    ∙ find_test-append id (replace_tests by_id previous).0
        (new_tests (replace_tests by_id previous).1 rerun)
    ∙ ap₂ or_else here (
        find_test-new_tests id (replace_tests by_id previous).1 rerun
        ∙ ap (λ o. kept_if (elim o [ none ↦ false | some _ ↦ true ]) (find_test id rerun)) left)
    ∙ or_else-parts (find_test id previous) (lookup id by_id) (find_test id rerun)
        (lookup-index_nil id rerun ok)

-- After a rerun that is accepted, a test has the rerun's answer if the rerun reports it, and
-- otherwise the previous one.
pub find_test-merge_rerun :
    (id : String) (previous rerun : List TestCase) (requested : List String)
    (merged : List TestCase)
    → merge_rerun previous rerun requested ≡ (merged, none)
    → find_test id merged ≡ or_else (find_test id rerun) (find_test id previous)
find_test-merge_rerun id previous rerun requested merged h =
    let (ok, _, eq) = merge_rerun_inv previous rerun requested merged h in
    find_test-merged id previous rerun merged ok eq

pub first_missing_inv :
    (by_id : Map TestCase) (requested : List String) (id : String)
    → first_missing by_id requested ≡ none
    → contains requested id ≡ true
    → (t : TestCase) × (lookup id by_id ≡ some t) × (str_eq t.status "skipped" ≡ false)
unfolding first_missing
first_missing_inv by_id [] id h asked = cc
first_missing_inv by_id (x ∷ xs) id h asked = elim (Option-cases (lookup x by_id)) [
  | inl q ↦ cc (rw (q, first_missing) at h)
  | inr (t, q) ↦
      let both : (str_eq t.status "skipped" ≡ false) × (first_missing by_id xs ≡ none) =
        ground (arith, q, h) in
      elim (Bool-cases (str_eq x id)) [
        | inl e ↦ (t, ap (λ k. lookup k by_id) (sym ((eq_iff x id).0 e)) ∙ q, both.0)
        | inr e ↦ first_missing_inv by_id xs id both.1 (ground (arith, asked, e))
      ]
]

-- After a rerun that is accepted, every requested test was reported by the rerun and not skipped,
-- and the merged report holds what the rerun reported.
pub requested-merge_rerun :
    (id : String) (previous rerun : List TestCase) (requested : List String)
    (merged : List TestCase)
    → merge_rerun previous rerun requested ≡ (merged, none)
    → contains requested id ≡ true
    → (t : TestCase) × (find_test id rerun ≡ some t)
      × (find_test id merged ≡ some t)
      × (str_eq t.status "skipped" ≡ false)
requested-merge_rerun id previous rerun requested merged h asked =
    let (ok, complete, _) = merge_rerun_inv previous rerun requested merged h in
    let (t, q, ran) = first_missing_inv (index rerun []) requested id complete asked in
    let found : find_test id rerun ≡ some t = sym (lookup-index_nil id rerun ok) ∙ q in
    (
      t,
      found,
      find_test-merge_rerun id previous rerun requested merged h
          ∙ ap (λ o. or_else o (find_test id previous)) found,
      ran,
    )
