-- ===== src/Workers/Broker/Order.antt =====
-- workers/broker.go: which job `Claim` picks.
use gauntlet.Workers.Broker.Claim.{
  available, admits, claimable, pick, insert_row, first_admitted, query, comes_first,
}
use gauntlet.Prelude.{
  All-In, subst, ◌∙◌, some_inj, ap, ◌⊎◌, In, Bool-cases, arith, Bool, ◌≡◌, All, ◌≤◌, ℕ, List, [],
  ◌∷◌, some, true, false, inl, inr, refl,
}
use gauntlet.Workers.Resources.{Worker, Resources}
use gauntlet.Workers.Broker.{Broker, Row}

abbrev Falling : List Row → Type 0
Falling [] = Unit
Falling (r ∷ rs) = All (λ s. s.priority ≤ r.priority) rs × Falling rs

comes_first-priority : (r s : Row) → comes_first r s ≡ true → s.priority ≤ r.priority
unfolding comes_first
comes_first-priority r s h = ground (arith, h)

comes_first-false_priority : (r s : Row) → comes_first r s ≡ false → r.priority ≤ s.priority
unfolding comes_first
comes_first-false_priority r s h = ground (arith, h)

All-insert_row {κ} :
    (P : Row → Type κ) (r : Row) (l : List Row) → P r → All P l → All P (insert_row r l)
unfolding insert_row
All-insert_row P r [] p a = (p, tt)
All-insert_row P r (s ∷ ss) p a = elim (Bool-cases (comes_first r s)) [
  | inl e ↦ rw (e, insert_row) (p, a)
  | inr e ↦ rw (e, insert_row) (a.0, All-insert_row P r ss p a.1)
]

All-le :
    (r s : Row) (l : List Row)
    → s.priority ≤ r.priority
    → All (λ x. x.priority ≤ s.priority) l
    → All (λ x. x.priority ≤ r.priority) l
All-le r s [] h a = tt
All-le r s (x ∷ xs) h a = (omega (arith, a.0), All-le r s xs h a.1)

insert_row-Falling : (r : Row) (l : List Row) → Falling l → Falling (insert_row r l)
unfolding insert_row
insert_row-Falling r [] f = (tt, tt)
insert_row-Falling r (s ∷ ss) f = elim (Bool-cases (comes_first r s)) [
  | inl e ↦ let h = comes_first-priority r s e in rw (e, insert_row) ((h, All-le r s ss h f.0), f)
  | inr e ↦
      rw (e, insert_row)
        (
          All-insert_row (λ x. x.priority ≤ s.priority) r ss (comes_first-false_priority r s e) f.0,
          insert_row-Falling r ss f.1,
        )
]

query-Falling : (test : Row → Bool) (rows : List Row) → Falling (query test rows)
unfolding query
query-Falling test [] = tt
query-Falling test (r ∷ rs) = elim (Bool-cases (test r)) [
  | inl e ↦ rw (e, query) (insert_row-Falling r (query test rs) (query-Falling test rs))
  | inr e ↦ rw (e, query) (query-Falling test rs)
]

In-insert_row : (r s : Row) (l : List Row) → (s ≡ r) ⊎ In r l → In r (insert_row s l)
unfolding insert_row
In-insert_row r s [] m = m
In-insert_row r s (x ∷ xs) m = elim (Bool-cases (comes_first s x)) [
  | inl e ↦ rw (e, insert_row) m
  | inr e ↦ rw (e, insert_row) (later (In-insert_row r s xs) m)
]
  where
    later :
        ((s ≡ r) ⊎ In r xs → In r (insert_row s xs))
        → (s ≡ r) ⊎ ((x ≡ r) ⊎ In r xs)
        → (x ≡ r) ⊎ In r (insert_row s xs)
    later put (inl q) = inr (put (inl q))
    later put (inr (inl q)) = inl q
    later put (inr (inr q)) = inr (put (inr q))

In-query :
    (test : Row → Bool) (rows : List Row) (r : Row)
    → In r rows
    → test r ≡ true
    → In r (query test rows)
unfolding query
In-query test [] r m h = elim m [ ]
In-query test (x ∷ xs) r (inl e) h =
    let hx : test x ≡ true = ap test e ∙ h in
    rw (hx, query) (In-insert_row r x (query test xs) (inl e))
In-query test (x ∷ xs) r (inr m) h = elim (Bool-cases (test x)) [
  | inl e ↦ rw (e, query) (In-insert_row r x (query test xs) (inr (In-query test xs r m h)))
  | inr e ↦ rw (e, query) (In-query test xs r m h)
]

-- Every row of the query comes from the table and passes the test.
query_sound :
    (test : Row → Bool) (rows : List Row) → All (λ r. (test r ≡ true) × In r rows) (query test rows)
unfolding query
query_sound test [] = tt
query_sound test (x ∷ xs) = elim (Bool-cases (test x)) [
  | inl e ↦
      rw (e, query)
        (All-insert_row (λ r. (test r ≡ true) × In r (x ∷ xs)) x (query test xs) (e, inl refl)
          (weaken (query test xs) (query_sound test xs)))
  | inr e ↦ rw (e, query) (weaken (query test xs) (query_sound test xs))
]
  where
    weaken :
        (l : List Row)
        → All (λ r. (test r ≡ true) × In r xs) l
        → All (λ r. (test r ≡ true) × In r (x ∷ xs)) l
    weaken [] a = tt
    weaken (y ∷ ys) a = ((a.0.0, inr a.0.1), weaken ys a.1)

first_admitted_sound :
    (w : Worker) (free : Resources) (l : List Row) (r : Row)
    → first_admitted w free l ≡ some r
    → (admits w free r ≡ true) × In r l
unfolding first_admitted
first_admitted_sound w free [] r h = cc
first_admitted_sound w free (x ∷ xs) r h = elim (Bool-cases (admits w free x)) [
  | inl e ↦
      let q : x ≡ r = some_inj (rw (e, first_admitted) at h) in
      (subst (λ y. admits w free y ≡ true) q e, inl q)
  | inr e ↦
      let (a, m) = first_admitted_sound w free xs r (rw (e, first_admitted) at h) in (a, inr m)
]

first_admitted_best :
    (w : Worker) (free : Resources) (l : List Row) (r s : Row)
    → Falling l
    → first_admitted w free l ≡ some r
    → In s l
    → admits w free s ≡ true
    → s.priority ≤ r.priority
unfolding first_admitted
first_admitted_best w free [] r s f h m a = elim m [ ]
first_admitted_best w free (x ∷ xs) r s f h m a = elim (Bool-cases (admits w free x)) [
  | inl e ↦
      let q : x ≡ r = some_inj (rw (e, first_admitted) at h) in
      subst (λ y. s.priority ≤ y.priority) q (top m)
  | inr e ↦ first_admitted_best w free xs r s f.1 (rw (e, first_admitted) at h) (tail e m) a
]
  where
    top : (x ≡ s) ⊎ In s xs → s.priority ≤ x.priority
    top (inl q) = omega (arith, ap (λ y. y.priority) q)
    top (inr m') = All-In (λ y. y.priority ≤ x.priority) xs s f.0 m'

    tail : admits w free x ≡ false → (x ≡ s) ⊎ In s xs → In s xs
    tail e (inl q) = cc (e, a, ap (admits w free) q)
    tail e (inr m') = m'

-- The row that a claim picks is in the table, may be claimed, and is admitted by the worker.
pub pick_sound :
    (b : Broker) (now : ℕ) (w : Worker) (r : Row)
    → pick b now w ≡ some r
    → (claimable b now w r ≡ true) × In r b.jobs × (admits w (available w b.jobs) r ≡ true)
unfolding pick
pick_sound b now w r h =
    let (a, m) =
      first_admitted_sound w (available w b.jobs) (query (claimable b now w) b.jobs) r h in
    let (t, i) =
      All-In _ (query (claimable b now w) b.jobs) r (query_sound (claimable b now w) b.jobs) m in
    (t, i, a)

-- The worker is given a job of the table that it may claim and admits, and no other such job has a
-- higher priority.
pub pick_best :
    (b : Broker) (now : ℕ) (w : Worker) (r s : Row)
    → pick b now w ≡ some r
    → In s b.jobs
    → claimable b now w s ≡ true
    → admits w (available w b.jobs) s ≡ true
    → In r b.jobs
      × (claimable b now w r ≡ true)
      × (admits w (available w b.jobs) r ≡ true)
      × (s.priority ≤ r.priority)
unfolding pick
pick_best b now w r s h m t a =
    let (own, here, admitted) = pick_sound b now w r h in
    let best =
      first_admitted_best w (available w b.jobs) (query (claimable b now w) b.jobs) r s
        (query-Falling (claimable b now w) b.jobs) h (In-query (claimable b now w) b.jobs s m t)
        a in
    (here, own, admitted, best)
