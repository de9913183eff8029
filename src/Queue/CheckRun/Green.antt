-- ===== src/Queue/CheckRun/Green.antt =====
-- queue/checkrun.go: the tick that turns a reached run green.
use gauntlet.Config.Checks.{Check, is_none}
use gauntlet.Core.Types.{CheckResult}
use gauntlet.Queue.CheckRun.{Run, Config, undecided, green, run_green}
use gauntlet.Queue.CheckRun.Advance.{
  Tick, advance_checks, cull, cancel_run, conclude_green, conclude_red, is_undecided,
}
use gauntlet.Queue.CheckRun.Counts.{count_has, count_has_full}
use gauntlet.Queue.CheckRun.Reached.{Reached}
use gauntlet.Queue.CheckRun.Results.{consume}
use gauntlet.Queue.CheckRun.Rows.{materialize_checks}
use gauntlet.Queue.CheckRun.Tracking.{
  names_of, consume-Frame, start_checks-Frame, cull-clear, first_red-none,
}
use gauntlet.Prelude.{
  ◌≢◌, ℕ, ◌-◌, Bool, String, List, [], ◌∷◌, some, true, false, refl, sym, ◌≡◌, ◌∙◌, Map, lookup,
  has, length, length-map, All, arith, Bool-cases, Option-cases, inl, inr, str_eq, ap, subst,
}
use gauntlet.Queue.CheckRun.Kept.{Reached-Tracked, advance_checks-Same, begun, begun-Same, culled}

pub cull-verdict : (now : ℕ) (r : Run) → (cull now r).verdict ≡ r.verdict
unfolding cull cancel_run
cull-verdict now r = ground arith

conclude_red-ne-green : (r : Run) → is_undecided r.verdict ≡ true → (conclude_red r).verdict ≢ green
unfolding conclude_red
conclude_red-ne-green r u h = ground (arith, u, h)

conclude_green_inv :
    (cfg : Config) (r : Run)
    → is_undecided r.verdict ≡ true
    → (conclude_green cfg r).verdict ≡ green
    → (length r.results ≡ length r.checks)
      × ((is_none r.inflight ≡ true) × ((conclude_green cfg r).inflight ≡ r.inflight))
unfolding conclude_green materialize_checks
conclude_green_inv cfg r u h = (ground (arith, u, h), (ground (arith, u, h), ground arith))

pub is_none-eq : {A : Type 0} (xs : List A) → is_none xs ≡ true → xs ≡ []
is_none-eq [] h = refl
is_none-eq (x ∷ xs) h = cc h

-- The results of a run, by its checks.
abbrev pub AllGreen : Run → Map CheckResult → Type 0
AllGreen r results =
    All
      (λ c.
        (res : CheckResult) × ((lookup c.name results ≡ some res)
          × (run_green r.emergency_reason res ≡ true)))
      r.checks

green_everywhere :
    (e : String) (results : Map CheckResult) (cs : List Check)
    → All (λ k. has k results ≡ true) (names_of cs)
    → All (λ c. (res : CheckResult) → lookup c.name results ≡ some res → run_green e res ≡ true) cs
    → All
        (λ c. (res : CheckResult) × ((lookup c.name results ≡ some res) × (run_green e res ≡ true)))
        cs
green_everywhere e results [] h g = tt
green_everywhere e results (c ∷ cs) h g = elim (Option-cases (lookup c.name results)) [
  | inl n ↦ cc (n, h.0)
  | inr (res, f) ↦ ((res, (f, g.0 res f)), green_everywhere e results cs h.1 g.1)
]

-- A tick that turns a reached run green leaves it with a green result for every check, and nothing
-- in flight. Green is `nodeGreen`: in an emergency, a waived check counts.
pub advance_checks-green :
    (cfg : Config) (receipt_notes : Bool) (t : Tick) (r : Run)
    → Reached cfg receipt_notes r
    → r.verdict ≡ undecided
    → (advance_checks cfg t r).verdict ≡ green
    → AllGreen r (advance_checks cfg t r).results × ((advance_checks cfg t r).inflight ≡ [])
unfolding advance_checks
advance_checks-green cfg notes t r h v g =
    let u : is_undecided r.verdict ≡ true = ap is_undecided v in
    let tracked = Reached-Tracked cfg notes r h in
    let consumed = consume cfg t.sent r.checks r in
    let (f, n) = consume-Frame cfg t.sent r tracked in
    elim (Bool-cases (str_eq (culled cfg t r).culprit "")) [
      | inr bad ↦
          let e : advance_checks cfg t r ≡ conclude_red (culled cfg t r) = ground (arith, u, bad) in
          let w : is_undecided (culled cfg t r).verdict ≡ true =
            ap is_undecided (cull-verdict t.now consumed ∙ (f.verdict ∙ v)) in
          absurd (conclude_red-ne-green (culled cfg t r) w (sym (ap (λ x. x.verdict) e) ∙ g))
      | inl clear ↦
          let e : advance_checks cfg t r ≡ conclude_green cfg (begun cfg t r) =
            ground (arith, u, clear) in
          let named =
            subst (λ cs. All (λ c. str_eq c.name "" ≡ false) cs) (sym f.checks) tracked.named in
          let (same, reds) = cull-clear t.now consumed named clear in
          let (sf, sr) =
            start_checks-Frame t.now
              ((culled cfg t r).max_parallel - length (culled cfg t r).inflight) t.free
              (culled cfg t r) in
          let w : is_undecided (begun cfg t r).verdict ≡ true =
            ap is_undecided (sf.verdict ∙ (cull-verdict t.now consumed ∙ (f.verdict ∙ v))) in
          let (len, (idle, still)) =
            conclude_green_inv cfg (begun cfg t r) w (sym (ap (λ x. x.verdict) e) ∙ g) in
          let (bc, br) = begun-Same cfg t r in
          let (_, after) = advance_checks-Same cfg t r u in
          let full : count_has (names_of r.checks) consumed.results ≡ length (names_of r.checks) =
            sym n
            ∙ (sym (ap length br)
                ∙ (len ∙ (ap length (bc ∙ f.checks) ∙ sym (length-map (λ c. c.name) r.checks)))) in
          let greens =
            first_red-none consumed.emergency_reason consumed.checks consumed.results reds in
          let greens' =
            subst
              (λ e.
                All
                  (λ c.
                    (res : CheckResult)
                    → lookup c.name consumed.results ≡ some res
                    → run_green e res ≡ true)
                  consumed.checks)
              f.emergency greens in
          let greens'' =
            subst
              (λ cs.
                All
                  (λ c.
                    (res : CheckResult)
                    → lookup c.name consumed.results ≡ some res
                    → run_green r.emergency_reason res ≡ true)
                  cs)
              f.checks greens' in
          (
            subst (AllGreen r) (sym after) (
                green_everywhere r.emergency_reason consumed.results r.checks
                  (count_has_full (names_of r.checks) consumed.results full) greens''),
            ap (λ x. x.inflight) e ∙ (still ∙ is_none-eq (begun cfg t r).inflight idle),
          )
    ]
