-- ===== src/Queue/CheckRun/Tracking.antt =====
-- queue/checkrun.go: what the steps of a tick read and write of a run whose results stand under the
-- names of its checks.
use gauntlet.Config.Checks.{Check}
use gauntlet.Core.Types.{CheckResult}
use gauntlet.Queue.CheckRun.{Run, Config, run_green}
use gauntlet.Queue.CheckRun.Advance.{cull, cancel_run, first_red, start_check, start_checks}
use gauntlet.Queue.CheckRun.Counts.{count_has, insert-counted}
use gauntlet.Queue.CheckRun.Frames.{Frame, Frame-refl, consume-keeps, start_checks-keeps}
use gauntlet.Queue.CheckRun.Results.{take_result, consume}
use gauntlet.Prelude.{
  some_inj, ℕ, String, List, [], ◌∷◌, none, some, true, false, refl, sym, ◌≡◌, ◌∙◌, Map, lookup,
  has, insert, length, map, contains, Unrepeated, All, All-contains, arith, Bool-cases,
  Option-cases, inl, inr, str_eq, subst,
}

abbrev pub names_of : List Check → List String
names_of cs = map (λ c. c.name) cs

-- The results stand under the names of the checks, which are distinct and not empty.
pub record Tracked (r : Run) : Type 0 where
  pub unrepeated : Unrepeated (names_of r.checks)
  pub named : All (λ c. str_eq c.name "" ≡ false) r.checks
  pub counted : length r.results ≡ count_has (names_of r.checks) r.results

All-names : (P : String → Type 0) (cs : List Check) → All P (names_of cs) → All (λ c. P c.name) cs
All-names P [] a = tt
All-names P (c ∷ cs) a = (a.0, All-names P cs a.1)

pub own_names : (cs : List Check) → All (λ c. contains (names_of cs) c.name ≡ true) cs
own_names cs = All-names (λ k. contains (names_of cs) k ≡ true) cs (All-contains (names_of cs))

abbrev Consumed : Run → Run → Type 0
Consumed r s = Frame r s × (length s.results ≡ count_has (names_of r.checks) s.results)

pub consume-Frame :
    (cfg : Config) (sent : Map CheckResult) (r : Run)
    → Tracked r
    → Consumed r (consume cfg sent r.checks r)
unfolding take_result
consume-Frame cfg sent r t =
    consume-keeps cfg sent (Consumed r) (λ c. contains (names_of r.checks) c.name ≡ true)
      (λ c inf res s q f p. (
        record {
          checks = p.0.checks;
          max_parallel = p.0.max_parallel;
          emergency = p.0.emergency;
          culprit = p.0.culprit;
          materialized = p.0.materialized;
          verdict = p.0.verdict;
        },
        insert-counted (names_of r.checks) c.name _ s.results t.unrepeated q p.1,
      ))
      r.checks r (own_names r.checks) (Frame-refl r, t.counted)

abbrev Started : Run → ℕ → Run → Type 0
Started r n s = Frame r s × (s.results ≡ r.results)

pub start_checks-Frame :
    (now n free : ℕ) (r : Run)
    → Frame r (start_checks now n free r.checks r)
      × ((start_checks now n free r.checks r).results ≡ r.results)
unfolding start_check
start_checks-Frame now n free r =
    (start_checks-keeps now (Started r)
      (λ m c s y p. (
        record {
          checks = p.0.checks;
          max_parallel = p.0.max_parallel;
          emergency = p.0.emergency;
          culprit = p.0.culprit;
          materialized = p.0.materialized;
          verdict = p.0.verdict;
        },
        p.1,
      ))
      (λ m c s p. elim (Bool-cases (has c.name s.ready_at)) [
        | inl h ↦ subst (Started r m) (ground (arith, h)) p
        | inr h ↦
            subst (Started r m) {x = record s { ready_at = insert c.name now s.ready_at }}
              (ground (arith, h))
              (
                record {
                  checks = p.0.checks;
                  max_parallel = p.0.max_parallel;
                  emergency = p.0.emergency;
                  culprit = p.0.culprit;
                  materialized = p.0.materialized;
                  verdict = p.0.verdict;
                },
                p.1,
              )
      ])
      n free r.checks r (Frame-refl r, refl)).1

-- A scan that finds no red result.
pub first_red-none :
    (e : String) (cs : List Check) (results : Map CheckResult)
    → first_red e cs results ≡ none
    → All (λ c. (res : CheckResult) → lookup c.name results ≡ some res → run_green e res ≡ true) cs
unfolding first_red
first_red-none e [] results h = tt
first_red-none e (c ∷ cs) results h = elim (Option-cases (lookup c.name results)) [
  | inl n ↦ (λ res at. cc (n, at), first_red-none e cs results (rw (n, first_red) at h))
  | inr (res, f) ↦ elim (Bool-cases (run_green e res)) [
    | inl g ↦ (
      λ x at. subst (λ y. run_green e y ≡ true) (some_inj (sym f ∙ at)) g,
      first_red-none e cs results (ground (arith, h, f, g)),
    )
    | inr b ↦ cc (rw (f, b, first_red) at h)
  ]
]

first_red-named :
    (e : String) (cs : List Check) (results : Map CheckResult) (name : String)
    → All (λ c. str_eq c.name "" ≡ false) cs
    → first_red e cs results ≡ some name
    → str_eq name "" ≡ false
unfolding first_red
first_red-named e [] results name a h = cc h
first_red-named e (c ∷ cs) results name a h = elim (Option-cases (lookup c.name results)) [
  | inl n ↦ first_red-named e cs results name a.1 (rw (n, first_red) at h)
  | inr (res, f) ↦ elim (Bool-cases (run_green e res)) [
    | inl g ↦ first_red-named e cs results name a.1 (ground (arith, h, f, g))
    | inr b ↦
        let same : c.name ≡ name = some_inj (rw (f, b, first_red) at h) in
        subst (λ x. str_eq x "" ≡ false) same a.0
  ]
]

-- Where no culprit is named the cull changes nothing, and no result is red.
pub cull-clear :
    (now : ℕ) (r : Run)
    → All (λ c. str_eq c.name "" ≡ false) r.checks
    → str_eq (cull now r).culprit "" ≡ true
    → (cull now r ≡ r) × (first_red r.emergency_reason r.checks r.results ≡ none)
unfolding cull cancel_run
cull-clear now r a h = elim (Bool-cases (str_eq r.culprit "")) [
  | inr n ↦ cc (n, rw (n, cull) at h)
  | inl y ↦ elim (Option-cases (first_red r.emergency_reason r.checks r.results)) [
    | inl f ↦ (ground (arith, y, f), f)
    | inr (name, f) ↦
        cc (first_red-named r.emergency_reason r.checks r.results name a f, rw (y, f, cull) at h)
  ]
]
