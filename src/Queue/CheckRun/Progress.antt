-- ===== src/Queue/CheckRun/Progress.antt =====
-- queue/checkrun.go: a run never wedges. A tick that finds a free slot leaves something in flight, or
-- a verdict.
use gauntlet.Config.Checks.{is_none}
use gauntlet.Core.Types.{CheckResult}
use gauntlet.Queue.CheckRun.{Run, Config, undecided, green, run_green}
use gauntlet.Queue.CheckRun.Advance.{
  Tick, advance_checks, conclude_green, conclude_red, is_undecided, start_checks, verdict_of,
}
use gauntlet.Queue.CheckRun.Counts.{count_has}
use gauntlet.Queue.CheckRun.Green.{is_none-eq}
use gauntlet.Queue.CheckRun.Kept.{Reached-Tracked, begun, begun-Same, culled}
use gauntlet.Queue.CheckRun.Reached.{Reached}
use gauntlet.Queue.CheckRun.Results.{consume}
use gauntlet.Queue.CheckRun.Rows.{materialize_checks}
use gauntlet.Queue.CheckRun.Tracking.{consume-Frame, cull-clear, first_red-none, names_of}
use gauntlet.Prelude.{
  ==_iff, ◌&&◌, ℕ, ◌<◌, ◌-◌, length, length-map, Bool, String, Option, [], none, some, true, false,
  sym, ◌≡◌, ◌≢◌, ◌∙◌, lookup, All, arith, Bool-cases, inl, inr, str_eq, ap, subst, ◌==◌,
}
use gauntlet.Queue.CheckRun.Idle.{
  Ranked, idle_scan, blocked_checks, count_has_all, start_checks-busy, all_settled,
}

verdict_of-decided : (o : Option CheckResult) → verdict_of o ≢ undecided
verdict_of-decided none h = cc h
verdict_of-decided (some res) h = ground (arith, h)

conclude_red-ends :
    (r : Run) → (conclude_red r).inflight ≡ [] → (conclude_red r).verdict ≢ undecided
unfolding conclude_red materialize_checks
conclude_red-ends r q h = elim (Bool-cases (is_none r.inflight)) [
  | inl y ↦
      let e : (conclude_red r).verdict ≡ verdict_of (lookup r.culprit r.results) =
        ground (arith, y) in
      verdict_of-decided (lookup r.culprit r.results) (sym e ∙ h)
  | inr n ↦
      let e : conclude_red r ≡ r = ground (arith, n) in
      cc (n, ap is_none (sym (ap (λ x. x.inflight) e) ∙ q))
]

conclude_green-ends :
    (cfg : Config) (r : Run)
    → (conclude_green cfg r).verdict ≡ undecided
    → (conclude_green cfg r).inflight ≡ []
    → (r.inflight ≡ []) × (length r.results ≢ length r.checks)
unfolding conclude_green materialize_checks
conclude_green-ends cfg r v q =
    elim (Bool-cases ((length r.results == length r.checks) && is_none r.inflight)) [
      | inl y ↦ let e : (conclude_green cfg r).verdict ≡ green = ground (arith, y) in cc (e, v)
      | inr n ↦
          let e : conclude_green cfg r ≡ r = ground (arith, n) in
          let idle : r.inflight ≡ [] = sym (ap (λ x. x.inflight) e) ∙ q in
          (
            idle,
            λ len. cc (n, (==_iff (length r.results) (length r.checks)).1 len, ap is_none idle),
          )
    ]

-- With room and a free slot, an idle run without a red result whose results stand under the names of
-- its checks has a result for every check.
idle_full :
    (now free : ℕ) (r : Run) (rank : String → ℕ)
    → length r.results ≡ count_has (names_of r.checks) r.results
    → Ranked rank r.checks
    → All
        (λ c.
          (res : CheckResult)
          → lookup c.name r.results ≡ some res
          → run_green r.emergency_reason res ≡ true)
        r.checks
    → 0 < free
    → 0 < r.max_parallel
    → (start_checks now (r.max_parallel - length r.inflight) free r.checks r).inflight ≡ []
    → length r.results ≡ length r.checks
idle_full now free r rank n ranked greens q room still = elim (Bool-cases (is_none r.inflight)) [
  | inr busy ↦
      let b = start_checks-busy now (r.max_parallel - length r.inflight) free r.checks r busy in
      cc (b, ap is_none still)
  | inl y ↦
      let idle = is_none-eq r.inflight y in
      let none_runs : length r.inflight ≡ 0 = ap length idle in
      let unready =
        idle_scan now (r.max_parallel - length r.inflight) free r.checks r
          (omega (arith, none_runs, room)) q (ap is_none still) in
      let all =
        all_settled r.emergency_reason r.results rank r.checks ranked greens
          (blocked_checks r r.checks idle unready) in
      n ∙ (count_has_all (names_of r.checks) r.results all ∙ length-map (λ c. c.name) r.checks)
]

-- In a reached run whose edges name its checks and do not cycle, a tick with a free slot, at a
-- parallelism of at least one, leaves something in flight unless it gives the verdict.
pub advance_checks-progress :
    (cfg : Config) (receipt_notes : Bool) (t : Tick) (r : Run) (rank : String → ℕ)
    → Reached cfg receipt_notes r
    → Ranked rank r.checks
    → r.verdict ≡ undecided
    → 0 < t.free
    → 0 < r.max_parallel
    → (advance_checks cfg t r).verdict ≡ undecided
    → (advance_checks cfg t r).inflight ≢ []
unfolding advance_checks
advance_checks-progress cfg notes t r rank h ranked v free room pending idle =
    let u : is_undecided r.verdict ≡ true = ap is_undecided v in
    let tracked = Reached-Tracked cfg notes r h in
    let consumed = consume cfg t.sent r.checks r in
    let (f, n) = consume-Frame cfg t.sent r tracked in
    let c = culled cfg t r in
    elim (Bool-cases (str_eq c.culprit "")) [
      | inr bad ↦
          let e : advance_checks cfg t r ≡ conclude_red c = ground (arith, u, bad) in
          conclude_red-ends c (sym (ap (λ x. x.inflight) e) ∙ idle)
            (sym (ap (λ x. x.verdict) e) ∙ pending)
      | inl clear ↦
          let b = begun cfg t r in
          let e : advance_checks cfg t r ≡ conclude_green cfg b = ground (arith, u, clear) in
          let named =
            subst (λ cs. All (λ x. str_eq x.name "" ≡ false) cs) (sym f.checks) tracked.named in
          let (same, reds) = cull-clear t.now consumed named clear in
          let (still, short) =
            conclude_green-ends cfg b (sym (ap (λ x. x.verdict) e) ∙ pending)
              (sym (ap (λ x. x.inflight) e) ∙ idle) in
          let greens =
            first_red-none consumed.emergency_reason consumed.checks consumed.results reds in
          let counted =
            subst (λ cs. length consumed.results ≡ count_has (names_of cs) consumed.results)
              (sym f.checks) n in
          let full =
            idle_full t.now t.free consumed rank counted (subst (Ranked rank) (sym f.checks) ranked)
              greens free (subst (λ m. 0 < m) (sym f.max_parallel) room)
              (subst
                (λ x.
                  (start_checks t.now (x.max_parallel - length x.inflight) t.free x.checks
                    x).inflight
                  ≡ [])
                same still) in
          let (bc, br) = begun-Same cfg t r in short (ap length br ∙ (full ∙ sym (ap length bc)))
    ]
