-- ===== src/Queue/CheckRun/Kept.antt =====
-- queue/checkrun.go: the invariant of the results, at every tick and bypass.
use gauntlet.Config.Checks.{Check}
use gauntlet.Core.Types.{CheckResult}
use gauntlet.Queue.CheckRun.{Run, Config}
use gauntlet.Queue.CheckRun.Advance.{
  Tick, advance_checks, cull, cancel_run, conclude_green, conclude_red, is_undecided, start_checks,
}
use gauntlet.Queue.CheckRun.Counts.{count_has, insert-counted}
use gauntlet.Queue.CheckRun.Emergency.{waiver, bypass_checks, waive_from, is_kept}
use gauntlet.Queue.CheckRun.Reached.{Reached, built, ticked, bypassed}
use gauntlet.Queue.CheckRun.Results.{consume}
use gauntlet.Queue.CheckRun.Rows.{materialize_checks}
use gauntlet.Queue.CheckRun.Tracking.{
  Tracked, names_of, own_names, consume-Frame, start_checks-Frame,
}
use gauntlet.Prelude.{
  ℕ, suc, ◌-◌, Bool, String, List, [], ◌∷◌, true, false, refl, sym, ◌≡◌, ◌∙◌, Map, lookup, insert,
  length, contains, Unrepeated, All, arith, Bool-cases, inl, inr, if◌then◌else◌, str_eq, subst,
}

-- The checks and the results of two runs are the same.
abbrev pub Same : Run → Run → Type 0
Same r s = (s.checks ≡ r.checks) × (s.results ≡ r.results)

cull-Same : (now : ℕ) (r : Run) → Same r (cull now r)
unfolding cull cancel_run
cull-Same now r = (ground arith, ground arith)

conclude_red-Same : (r : Run) → Same r (conclude_red r)
unfolding conclude_red materialize_checks
conclude_red-Same r = (ground arith, ground arith)

conclude_green-Same : (cfg : Config) (r : Run) → Same r (conclude_green cfg r)
unfolding conclude_green materialize_checks
conclude_green-Same cfg r = (ground arith, ground arith)

module _ (cfg : Config) (t : Tick) (r : Run) where
  abbrev pub culled : Run
  culled = cull t.now (consume cfg t.sent r.checks r)

  abbrev pub begun : Run
  begun =
      start_checks t.now (culled.max_parallel - length culled.inflight) t.free culled.checks culled

  pub begun-Same : Same (consume cfg t.sent r.checks r) begun
  begun-Same =
      let (c, d) = cull-Same t.now (consume cfg t.sent r.checks r) in
      let (f, e) =
        start_checks-Frame t.now (culled.max_parallel - length culled.inflight) t.free culled in
      (f.checks ∙ c, e ∙ d)

  -- The results after a tick are the consumed ones.
  pub advance_checks-Same :
      is_undecided r.verdict ≡ true → Same (consume cfg t.sent r.checks r) (advance_checks cfg t r)
  unfolding advance_checks
  advance_checks-Same u = elim (Bool-cases (str_eq culled.culprit "")) [
    | inl y ↦
        let (a, b) = begun-Same in
        let (c, d) = conclude_green-Same cfg begun in
        let e : conclude_green cfg begun ≡ advance_checks cfg t r = ground (arith, u, y) in
        subst (Same (consume cfg t.sent r.checks r)) e (c ∙ a, d ∙ b)
    | inr n ↦
        let (a, b) = cull-Same t.now (consume cfg t.sent r.checks r) in
        let (c, d) = conclude_red-Same culled in
        let e : conclude_red culled ≡ advance_checks cfg t r = ground (arith, u, n) in
        subst (Same (consume cfg t.sent r.checks r)) e (c ∙ a, d ∙ b)
  ]

Tracked-Same :
    (r s : Run)
    → s.checks ≡ r.checks
    → length s.results ≡ count_has (names_of r.checks) s.results
    → Tracked r
    → Tracked s
Tracked-Same r s e n t = record {
  unrepeated = subst (λ cs. Unrepeated (names_of cs)) (sym e) t.unrepeated;
  named = subst (λ cs. All (λ c. str_eq c.name "" ≡ false) cs) (sym e) t.named;
  counted = subst (λ cs. length s.results ≡ count_has (names_of cs) s.results) (sym e) n;
}

advance_checks-Tracked :
    (cfg : Config) (t : Tick) (r : Run) → Tracked r → Tracked (advance_checks cfg t r)
unfolding advance_checks
advance_checks-Tracked cfg t r v = elim (Bool-cases (is_undecided r.verdict)) [
  | inr d ↦ subst Tracked (ground (arith, d)) v
  | inl u ↦
      let (f, n) = consume-Frame cfg t.sent r v in
      let (c, e) = advance_checks-Same cfg t r u in
      Tracked-Same r (advance_checks cfg t r) (c ∙ f.checks)
        (subst (λ m. length m ≡ count_has (names_of r.checks) m) (sym e) n) v
]

waive_from-counted :
    (receipt_notes : Bool) (reason : String) (i : ℕ) (ks : List String) (cs : List Check)
    (m : Map CheckResult)
    → Unrepeated ks
    → All (λ c. contains ks c.name ≡ true) cs
    → length m ≡ count_has ks m
    → length (waive_from receipt_notes reason i cs m)
      ≡ count_has ks (waive_from receipt_notes reason i cs m)
unfolding waive_from
waive_from-counted notes reason i ks [] m u a e = e
waive_from-counted notes reason i ks (c ∷ cs) m u a e =
    let added = insert-counted ks c.name (waiver reason i c) m u a.0 e in
    waive_from-counted notes reason (suc i) ks cs
      (if is_kept notes c.name then m else insert c.name (waiver reason i c) m) u a.1
      (kept (is_kept notes c.name) (insert c.name (waiver reason i c) m) added)
  where
    kept :
        (b : Bool) (m' : Map CheckResult)
        → length m' ≡ count_has ks m'
        → length (if b then m else m') ≡ count_has ks (if b then m else m')
    kept true m' f = e
    kept false m' f = f

none_counted : (ks : List String) → count_has {V = CheckResult} ks [] ≡ 0
unfolding count_has lookup
none_counted [] = refl
none_counted (k ∷ ks) = none_counted ks

pub Reached-Tracked :
    (cfg : Config) (receipt_notes : Bool) (r : Run) → Reached cfg receipt_notes r → Tracked r
unfolding bypass_checks
Reached-Tracked cfg notes s (built r n) = record {
  unrepeated = n.unrepeated;
  named = n.named;
  counted =
      subst (λ m. length m ≡ count_has (names_of r.checks) m) (sym n.empty)
        (sym (none_counted (names_of r.checks)));
}
Reached-Tracked cfg notes s (ticked r t h) =
    advance_checks-Tracked cfg t r (Reached-Tracked cfg notes r h)
Reached-Tracked cfg notes s (bypassed r reason h) =
    let v = Reached-Tracked cfg notes r h in
    Tracked-Same r (bypass_checks notes reason r) refl
      (waive_from-counted notes reason 0 (names_of r.checks) r.checks r.results v.unrepeated
        (own_names r.checks) v.counted)
      v
