-- ===== src/TestReport/Refused.antt =====
-- testreport/report.go: why `MergeRerun` refuses a rerun, and the report that it then returns.
use gauntlet.TestReport.Answer.{find_test, or_else}
use gauntlet.TestReport.Merge.{find_test-merged, lookup-index_nil, first_missing_inv}
use gauntlet.Core.Types.{TestCase}
use gauntlet.TestReport.{ReportError, not_executed, first_missing, merge_rerun, validate, index}
use gauntlet.Prelude.{
  Bool-cases, ◌⊎◌, ◌∙◌, sym, ap, str_eq, str_eq_refl, Option-cases, arith, contains, ◌≡◌, lookup,
  String, List, [], ◌∷◌, none, some, true, false, inl, inr, All, some_inj,
}

-- The rerun reports the test and did not skip it; it lacks the test or skipped it.
abbrev pub Executed : List TestCase → String → Type 0
Executed rerun id =
    (t : TestCase) × (find_test id rerun ≡ some t) × (str_eq t.status "skipped" ≡ false)

abbrev pub NotExecuted : List TestCase → String → Type 0
NotExecuted rerun id =
    (find_test id rerun ≡ none)
    ⊎ ((t : TestCase) × (find_test id rerun ≡ some t) × (str_eq t.status "skipped" ≡ true))

-- What the loop over the requested tests finds in the index of a valid rerun.
first_missing-some :
    (rerun : List TestCase) (requested : List String) (id : String)
    → validate rerun ≡ none
    → first_missing (index rerun []) requested ≡ some id
    → (contains requested id ≡ true) × NotExecuted rerun id
unfolding first_missing
first_missing-some rerun [] id ok h = cc
first_missing-some rerun (x ∷ xs) id ok h = elim (Option-cases (lookup x (index rerun []))) [
  | inl q ↦
      let same : x ≡ id = some_inj (rw (q, first_missing) at h) in
      (
        ground (arith, ap (λ k. str_eq k id) same, str_eq_refl id),
        inl (ap (λ k. find_test k rerun) (sym same) ∙ sym (lookup-index_nil x rerun ok) ∙ q),
      )
  | inr (t, q) ↦ elim (Bool-cases (str_eq t.status "skipped")) [
    | inl e ↦
        let same : x ≡ id = some_inj (rw (q, first_missing, e) at h) in
        (
          ground (arith, ap (λ k. str_eq k id) same, str_eq_refl id),
          inr (
            t,
            ap (λ k. find_test k rerun) (sym same) ∙ sym (lookup-index_nil x rerun ok) ∙ q,
            e,
          ),
        )
    | inr e ↦
        let (asked, why) = first_missing-some rerun xs id ok (rw (q, first_missing, e) at h) in
        (ground (arith, asked), why)
  ]
]

first_missing-none :
    (rerun : List TestCase) (requested : List String)
    → validate rerun ≡ none
    → first_missing (index rerun []) requested ≡ none
    → All (Executed rerun) requested
unfolding first_missing
first_missing-none rerun [] ok h = tt
first_missing-none rerun (x ∷ xs) ok h =
    let (t, q, ran) =
      first_missing_inv (index rerun []) (x ∷ xs) x h (ground (arith, str_eq_refl x)) in
    let rest : first_missing (index rerun []) xs ≡ none = ground (arith, q, ran, h) in
    ((t, sym (lookup-index_nil x rerun ok) ∙ q, ran), first_missing-none rerun xs ok rest)

-- A rerun is refused for one of three reasons. If the rerun is not valid, or a requested test is
-- missing from it or skipped in it, the previous report comes back as it was, and the error is that
-- of the rerun or names such a test. Otherwise the merged report itself is not valid: it comes back
-- with its error; the rerun executed every requested test, and a test of the merged report has the
-- rerun's answer if the rerun reports it, and otherwise the previous one.
pub merge_rerun_refusal :
    (id : String) (previous rerun : List TestCase) (requested : List String)
    (merged : List TestCase) (e : ReportError)
    → merge_rerun previous rerun requested ≡ (merged, some e)
    → ((merged ≡ previous)
        × ((validate rerun ≡ some e)
            ⊎ ((missing : String) × (e ≡ not_executed missing)
                × (contains requested missing ≡ true)
                × NotExecuted rerun missing)))
      ⊎ ((validate merged ≡ some e)
          × All (Executed rerun) requested
          × (find_test id merged ≡ or_else (find_test id rerun) (find_test id previous)))
unfolding merge_rerun
merge_rerun_refusal id previous rerun requested merged e h = elim (Option-cases (validate rerun)) [
  | inr (x, q) ↦
      let back : (previous, some x) ≡ (merged, some e) = rw (q, merge_rerun) at h in
      inl (sym (ap (λ p. p.0) back), inl (q ∙ ap (λ p. p.1) back))
  | inl q ↦ elim (Option-cases (first_missing (index rerun []) requested)) [
    | inr (missing, o) ↦
        let back : (previous, some (not_executed missing)) ≡ (merged, some e) =
          rw (q, o, merge_rerun) at h in
        inl (
          sym (ap (λ p. p.0) back),
          (let (asked, why) = first_missing-some rerun requested missing q o in
              inr (missing, sym (some_inj (ap (λ p. p.1) back)), asked, why)),
        )
    | inl o ↦
        let back = rw (q, o, merge_rerun) at h in
        let eq = sym (ap (λ p. p.0) back) in
        inr (
          ap validate eq ∙ ap (λ p. p.1) back,
          first_missing-none rerun requested q o,
          find_test-merged id previous rerun merged q eq,
        )
  ]
]
