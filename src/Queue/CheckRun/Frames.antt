-- ===== src/Queue/CheckRun/Frames.antt =====
-- queue/checkrun.go: what the steps of `advanceChecks` leave as it is.
use gauntlet.Config.Checks.{Check}
use gauntlet.Core.Types.{CheckResult}
use gauntlet.Queue.CheckRun.{Run, Config, Flight}
use gauntlet.Queue.CheckRun.Results.{take_result, consume_one, consume}
use gauntlet.Queue.CheckRun.Advance.{start_check, start_checks, stamp_ready, is_ready}
use gauntlet.Prelude.{
  All, subst, ℕ, zero, suc, List, [], ◌∷◌, some, true, refl, ◌≡◌, ◌∙◌, Map, lookup, arith,
  Bool-cases, Option-cases, inl, inr,
}

-- The fields of a run that no result and no start changes.
pub record Frame (r s : Run) : Type 0 where
  pub checks : s.checks ≡ r.checks
  pub max_parallel : s.max_parallel ≡ r.max_parallel
  pub emergency : s.emergency_reason ≡ r.emergency_reason
  pub culprit : s.culprit ≡ r.culprit
  pub materialized : s.materialized ≡ r.materialized
  pub verdict : s.verdict ≡ r.verdict

pub Frame-refl : (r : Run) → Frame r r
Frame-refl r = record {
  checks = refl;
  max_parallel = refl;
  emergency = refl;
  culprit = refl;
  materialized = refl;
  verdict = refl;
}

pub Frame-trans : (r s t : Run) → Frame r s → Frame s t → Frame r t
Frame-trans r s t f g = record {
  checks = g.checks ∙ f.checks;
  max_parallel = g.max_parallel ∙ f.max_parallel;
  emergency = g.emergency ∙ f.emergency;
  culprit = g.culprit ∙ f.culprit;
  materialized = g.materialized ∙ f.materialized;
  verdict = g.verdict ∙ f.verdict;
}

-- A property of runs that a taken result keeps holds after the whole of step (1).
module _ (cfg : Config) (sent : Map CheckResult) (P : Run → Type 0) (Q : Check → Type 0)
    (keeps : (c : Check) (inf : Flight) (res : CheckResult) (r : Run)
      → Q c
      → lookup c.name r.inflight ≡ some inf
      → P r
      → P (take_result cfg c.name inf res r)) where
  consume_one-keeps : (c : Check) (r : Run) → Q c → P r → P (consume_one cfg sent c.name r)
  unfolding consume_one
  consume_one-keeps c r q p = elim (Option-cases (lookup c.name r.inflight)) [
    | inl n ↦ subst P (ground (arith, n)) p
    | inr (inf, f) ↦ elim (Option-cases (lookup c.name sent)) [
      | inl n ↦ subst P (ground (arith, f, n)) p
      | inr (res, g) ↦ subst P (ground (arith, f, g)) (keeps c inf res r q f p)
    ]
  ]

  pub consume-keeps : (cs : List Check) (r : Run) → All Q cs → P r → P (consume cfg sent cs r)
  unfolding consume
  consume-keeps [] r q p = p
  consume-keeps (c ∷ cs) r q p =
      consume-keeps cs (consume_one cfg sent c.name r) q.1 (consume_one-keeps c r q.0 p)

-- A property of runs that a start and a stamp keep holds after the whole of step (3).
module _ (now : ℕ) (P : ℕ → Run → Type 0)
    (starts : (n : ℕ) (c : Check) (r : Run)
      → is_ready c r ≡ true
      → P (suc n) r
      → P n (start_check now c r))
    (stamps : (n : ℕ) (c : Check) (r : Run) → P (suc n) r → P n (stamp_ready now c.name r)) where
  pub start_checks-keeps :
      (n free : ℕ) (cs : List Check) (r : Run)
      → P n r
      → (m : ℕ) × P m (start_checks now n free cs r)
  unfolding start_checks
  start_checks-keeps n free [] r p = (n, p)
  start_checks-keeps zero free (c ∷ cs) r p = (0, p)
  start_checks-keeps (suc n) zero (c ∷ cs) r p = elim (Bool-cases (is_ready c r)) [
    | inl y ↦
        let (m, q) = start_checks-keeps n 0 cs (stamp_ready now c.name r) (stamps n c r p) in
        (m, subst (P m) (ground (arith, y)) q)
    | inr f ↦
        let (m, q) = start_checks-keeps (suc n) 0 cs r p in (m, subst (P m) (ground (arith, f)) q)
  ]
  start_checks-keeps (suc n) (suc free) (c ∷ cs) r p = elim (Bool-cases (is_ready c r)) [
    | inl y ↦
        let (m, q) = start_checks-keeps n free cs (start_check now c r) (starts n c r y p) in
        (m, subst (P m) (ground (arith, y)) q)
    | inr f ↦
        let (m, q) = start_checks-keeps (suc n) (suc free) cs r p in
        (m, subst (P m) (ground (arith, f)) q)
  ]
