-- ===== src/Queue/CheckRun/Idle.antt =====
-- queue/checkrun.go: what a scan with a free slot says if it starts nothing.
use gauntlet.Config.Checks.{Check, is_none}
use gauntlet.Core.Types.{CheckResult}
use gauntlet.Queue.CheckRun.{Run, Flight, run_green}
use gauntlet.Queue.CheckRun.Advance.{all_green, is_ready, start_check, start_checks}
use gauntlet.Queue.CheckRun.Counts.{count_has}
use gauntlet.Queue.CheckRun.Frames.{start_checks-keeps}
use gauntlet.Queue.CheckRun.Rows.{dep_green}
use gauntlet.Queue.CheckRun.Tracking.{names_of}
use gauntlet.Prelude.{
  All-contains, All-map, ℕ, zero, suc, ◌<◌, length, String, List, [], ◌∷◌, some, true, false, refl,
  ◌≡◌, ◌∙◌, Map, lookup, has, insert, contains, All, arith, Bool-cases, Option-cases, inl, inr,
  str_eq, eq_iff, ap, subst,
}

is_none-insert : {V : Type 0} (k : String) (v : V) (m : Map V) → is_none (insert k v m) ≡ false
unfolding insert
is_none-insert k v [] = refl
is_none-insert k v ((at, x) ∷ m) = ground arith

-- What is in flight stays in flight while checks are started.
pub start_checks-busy :
    (now n free : ℕ) (cs : List Check) (r : Run)
    → is_none r.inflight ≡ false
    → is_none (start_checks now n free cs r).inflight ≡ false
unfolding start_check
start_checks-busy now n free cs r b =
    (start_checks-keeps now (λ m s. is_none s.inflight ≡ false)
      (λ m c s y p. is_none-insert c.name _ s.inflight)
      (λ m c s p. elim (Bool-cases (has c.name s.ready_at)) [
        | inl h ↦ ground (arith, h, p)
        | inr h ↦ ground (arith, h, p)
      ])
      n free cs r b).1

-- With room and a free slot, a scan that leaves nothing in flight has found no ready check.
start_checks-idle :
    (now n free : ℕ) (cs : List Check) (r : Run)
    → is_none (start_checks now (suc n) (suc free) cs r).inflight ≡ true
    → (is_none r.inflight ≡ true) × All (λ c. is_ready c r ≡ false) cs
unfolding start_checks start_check
start_checks-idle now n free [] r h = (h, tt)
start_checks-idle now n free (c ∷ cs) r h = elim (Bool-cases (is_ready c r)) [
  | inr f ↦
      let (idle, rest) = start_checks-idle now n free cs r (rw (f, start_checks) at h) in
      (idle, (f, rest))
  | inl y ↦
      let busy =
        start_checks-busy now n free cs (start_check now c r)
          (is_none-insert c.name _ r.inflight) in
      let idle : is_none (start_checks now n free cs (start_check now c r)).inflight ≡ true =
        rw (y, start_checks) at h in
      cc (busy, idle)
]

-- The edges of the checks name checks, and go down in some rank.
abbrev pub Ranked : (String → ℕ) → List Check → Type 0
Ranked rank cs =
    All (λ c. All (λ a. (rank a < rank c.name) × (contains (names_of cs) a ≡ true)) c.after) cs

module _ (e : String) (results : Map CheckResult) (rank : String → ℕ) (cs : List Check)
    (ranked : Ranked rank cs)
    (greens : All
      (λ c. (res : CheckResult) → lookup c.name results ≡ some res → run_green e res ≡ true)
      cs)
    (stuck : All
      (λ c. (has c.name results ≡ false) → (all_green e results c.after ≡ false))
      cs) where
  abbrev Settled : String → Type 0
  Settled k = dep_green e results k ≡ true

  all_green_intro : (l : List String) → All Settled l → all_green e results l ≡ true
  unfolding all_green
  all_green_intro [] a = refl
  all_green_intro (k ∷ l) a = ground (arith, a.0, all_green_intro l a.1)

  -- What is known of a check with a name.
  abbrev Known : String → Check → Type 0
  Known k c =
      (c.name ≡ k)
      × (All (λ a. (rank a < rank c.name) × (contains (names_of cs) a ≡ true)) c.after
          × (((res : CheckResult) → lookup c.name results ≡ some res → run_green e res ≡ true)
              × ((has c.name results ≡ false) → (all_green e results c.after ≡ false))))

  known :
      (k : String) (l : List Check)
      → All (λ c. All (λ a. (rank a < rank c.name) × (contains (names_of cs) a ≡ true)) c.after) l
      → All (λ c. (res : CheckResult) → lookup c.name results ≡ some res → run_green e res ≡ true) l
      → All (λ c. (has c.name results ≡ false) → (all_green e results c.after ≡ false)) l
      → contains (names_of l) k ≡ true
      → (c : Check) × Known k c
  known k [] a b d m = cc m
  known k (c ∷ l) a b d m = elim (Bool-cases (str_eq c.name k)) [
    | inl y ↦ (c, ((eq_iff c.name k).0 y, (a.0, (b.0, d.0))))
    | inr n ↦ known k l a.1 b.1 d.1 (ground (arith, m, n))
  ]

  -- Every check below a bound has a green result.
  settled : (bound : ℕ) (k : String) → contains (names_of cs) k ≡ true → rank k < bound → Settled k
  unfolding dep_green
  settled zero k m lt = absurd (omega (arith, lt))
  settled (suc bound) k m lt =
      let (c, (same, (edges, (green_if, stuck_if)))) = known k cs ranked greens stuck m in
      elim (Option-cases (lookup c.name results)) [
        | inr (res, f) ↦ subst Settled same (ground (arith, f, green_if res f))
        | inl n ↦
            let deps : All Settled c.after =
              All-map (λ a p. settled bound a p.1 (omega (arith, p.0, lt, ap rank same))) c.after
                edges in
            cc (all_green_intro c.after deps, stuck_if (ground (arith, n)))
      ]

  -- Every check has a result.
  pub all_settled : All (λ k. has k results ≡ true) (names_of cs)
  unfolding dep_green
  all_settled =
      All-map (λ k m. let g = settled (suc (rank k)) k m (omega arith) in ground (arith, g))
        (names_of cs) (All-contains (names_of cs))

pub count_has_all :
    {V : Type 0} (ks : List String) (m : Map V)
    → All (λ k. has k m ≡ true) ks
    → count_has ks m ≡ length ks
unfolding count_has
count_has_all [] m a = refl
count_has_all (k ∷ ks) m a = ground (arith, a.0, count_has_all ks m a.1)

pub idle_scan :
    (now m free : ℕ) (cs : List Check) (r : Run)
    → 0 < m
    → 0 < free
    → is_none (start_checks now m free cs r).inflight ≡ true
    → All (λ c. is_ready c r ≡ false) cs
idle_scan now zero free cs r p q h = absurd (omega (arith, p))
idle_scan now (suc m) zero cs r p q h = absurd (omega (arith, q))
idle_scan now (suc m) (suc free) cs r p q h = (start_checks-idle now m free cs r h).1

has-empty : (k : String) → has {V = Flight} k [] ≡ false
unfolding lookup
has-empty k = refl

-- A check that is not ready in an idle run has a result or an edge that is not green.
pub blocked_checks :
    (r : Run) (cs : List Check)
    → r.inflight ≡ []
    → All (λ c. is_ready c r ≡ false) cs
    → All
        (λ c.
          (has c.name r.results ≡ false) → (all_green r.emergency_reason r.results c.after ≡ false))
        cs
unfolding is_ready
blocked_checks r [] q a = tt
blocked_checks r (c ∷ cs) q a =
    let idle : has c.name r.inflight ≡ false = ap (has c.name) q ∙ has-empty c.name in
    (λ n. ground (arith, a.0, n, idle), blocked_checks r cs q a.1)
