-- ===== src/Workers/Broker/Table.antt =====
-- workers/broker.go: what the statements on the table of jobs do to the row of an identity and to
-- the number of active rows.
use gauntlet.Workers.Broker.{Row, find_job, update_where, count_where, is_active}
use gauntlet.Workers.Broker.Leases.{job_ids, contains-job_ids, update_where_absent}
use gauntlet.Workers.Broker.Submit.{upsert_job, latest_of}
use gauntlet.Prelude.{
  contains_eq, Bool, String, Option, ℕ, List, [], ◌∷◌, none, some, true, false, refl, inl, inr, suc,
  ◌≡◌, ◌≤◌, ◌∙◌, sym, ap, arith, eq_iff, str_eq, str_eq_refl, contains, Unrepeated, In, Bool-cases,
  Option-cases, some_inj, subst, if◌then◌else◌,
}

abbrev KeepsId : (Row → Row) → Type 0
KeepsId f = (r : Row) → (f r).id ≡ r.id

abbrev pub changed_by : (Row → Bool) → (Row → Row) → Option Row → Option Row
changed_by test f none = none
changed_by test f (some r) = some (if test r then f r else r)

pub find_job-update_where :
    (test : Row → Bool) (f : Row → Row) (id : String) (rows : List Row)
    → ((r : Row) → (f r).id ≡ r.id)
    → find_job id (update_where test f rows) ≡ changed_by test f (find_job id rows)
unfolding find_job update_where
find_job-update_where test f id [] keeps = refl
find_job-update_where test f id (r ∷ rs) keeps =
    ground (arith, find_job-update_where test f id rs keeps, keeps r)

pub job_ids-update_where :
    (test : Row → Bool) (f : Row → Row) (rows : List Row)
    → ((r : Row) → (f r).id ≡ r.id)
    → job_ids (update_where test f rows) ≡ job_ids rows
unfolding update_where
job_ids-update_where test f [] keeps = refl
job_ids-update_where test f (r ∷ rs) keeps =
    ground (arith, job_ids-update_where test f rs keeps, keeps r)

contains-upsert_job :
    (r : Row) (k : String) (rows : List Row)
    → contains (job_ids rows) k ≡ false
    → str_eq r.id k ≡ false
    → contains (job_ids (upsert_job r rows)) k ≡ false
unfolding upsert_job
contains-upsert_job r k [] h d = ground (arith, d)
contains-upsert_job r k (s ∷ ss) h d = ground (arith, h, d, contains-upsert_job r k ss)

pub upsert_job-Unrepeated :
    (r : Row) (rows : List Row)
    → Unrepeated (job_ids rows)
    → Unrepeated (job_ids (upsert_job r rows))
unfolding upsert_job
upsert_job-Unrepeated r [] u = (refl, tt)
upsert_job-Unrepeated r (s ∷ ss) u = elim (Bool-cases (str_eq s.id r.id)) [
  | inl e ↦ rw (e, upsert_job) u
  | inr e ↦
      rw (e, upsert_job)
        (
          contains-upsert_job r s.id ss u.0 (ground (arith, e, eq_iff r.id s.id, eq_iff s.id r.id)),
          upsert_job-Unrepeated r ss u.1,
        )
]

-- A row of the table is the one that its identity finds.
pub find_job-In :
    (rows : List Row) (r : Row)
    → Unrepeated (job_ids rows)
    → In r rows
    → find_job r.id rows ≡ some r
unfolding find_job
find_job-In [] r u m = elim m [ ]
find_job-In (x ∷ xs) r u (inl e) =
    subst (λ y. find_job y.id (x ∷ xs) ≡ some y) e (ground (arith, str_eq_refl x.id))
find_job-In (x ∷ xs) r u (inr m) =
    ground (arith, u.0, contains-job_ids xs r m, eq_iff x.id r.id, find_job-In xs r u.1 m)

pub In-latest_of :
    (root : String) (rows : List Row) (r : Row) → latest_of root rows ≡ some r → In r rows
unfolding latest_of
In-latest_of root [] r h = cc
In-latest_of root (x ∷ xs) r h = elim (Option-cases (latest_of root xs)) [
  | inr (s, q) ↦ inr (In-latest_of root xs r (q ∙ (rw (q, latest_of) at h)))
  | inl q ↦ inl (here (rw (q, latest_of) at h))
]
  where
    here : (if str_eq x.root root then some x else none) ≡ some r → x ≡ r
    here h' = elim (Bool-cases (str_eq x.root root)) [
      | inl e ↦ some_inj (rw e at h')
      | inr e ↦ cc (rw e at h')
    ]

-- An update that makes no row active leaves no more active rows than there were.
pub count_where-update_where_le :
    (test : Row → Bool) (f : Row → Row) (rows : List Row)
    → ((r : Row) → In r rows → test r ≡ true → is_active (f r) ≡ true → is_active r ≡ true)
    → count_where is_active (update_where test f rows) ≤ count_where is_active rows
unfolding count_where update_where
count_where-update_where_le test f [] h = omega arith
count_where-update_where_le test f (x ∷ xs) h =
    let rest = count_where-update_where_le test f xs (λ r m. h r (inr m)) in
    ground (arith, rest, h x (inl refl))

-- An update of one row makes at most one row active.
pub count_where-update_where_one :
    (k : String) (f : Row → Row) (rows : List Row)
    → Unrepeated (job_ids rows)
    → count_where is_active (update_where (λ s. str_eq s.id k) f rows)
      ≤ suc (count_where is_active rows)
unfolding count_where update_where
count_where-update_where_one k f [] u = omega arith
count_where-update_where_one k f (x ∷ xs) u = elim (Bool-cases (str_eq x.id k)) [
  | inl e ↦
      rw
        (
          e,
          update_where_absent k f xs
              (contains_eq (job_ids xs) k x.id (sym ((eq_iff x.id k).0 e)) ∙ u.0),
        )
        (one (is_active (f x)) (is_active x) (count_where is_active xs))
  | inr e ↦ rw e (rest (is_active x) (count_where-update_where_one k f xs u.1))
]
  where
    one : (p q : Bool) (n : ℕ) → (if p then suc n else n) ≤ suc (if q then suc n else n)
    one p q n = ground arith

    rest :
        (p : Bool) {m n : ℕ} → m ≤ suc n → (if p then suc m else m) ≤ suc (if p then suc n else n)
    rest true h = omega (arith, h)
    rest false h = h

pub count_where-upsert_job :
    (r : Row) (rows : List Row)
    → count_where is_active (upsert_job r rows) ≤ suc (count_where is_active rows)
unfolding count_where upsert_job
count_where-upsert_job r [] = ground arith
count_where-upsert_job r (s ∷ ss) = ground (arith, count_where-upsert_job r ss)

-- Two updates of the same row are one.
pub update_where-update_where :
    (k : String) (f g : Row → Row) (rows : List Row)
    → ((r : Row) → (f r).id ≡ r.id)
    → update_where (λ s. str_eq s.id k) g (update_where (λ s. str_eq s.id k) f rows)
      ≡ update_where (λ s. str_eq s.id k) (λ s. g (f s)) rows
unfolding update_where
update_where-update_where k f g [] keeps = refl
update_where-update_where k f g (x ∷ xs) keeps =
    ground (arith, update_where-update_where k f g xs keeps, keeps x)

pub find_job-id : (id : String) (rows : List Row) (r : Row) → find_job id rows ≡ some r → r.id ≡ id
unfolding find_job
find_job-id id [] r h = cc
find_job-id id (x ∷ xs) r h = elim (Bool-cases (str_eq x.id id)) [
  | inl e ↦
      let q : x ≡ r = some_inj (rw (e, find_job) at h) in
      ap (λ y. y.id) (sym q) ∙ (eq_iff x.id id).0 e
  | inr e ↦ find_job-id id xs r (rw (e, find_job) at h)
]

pub In-find_job : (id : String) (rows : List Row) (r : Row) → find_job id rows ≡ some r → In r rows
unfolding find_job
In-find_job id [] r h = cc
In-find_job id (x ∷ xs) r h = elim (Bool-cases (str_eq x.id id)) [
  | inl e ↦ inl (some_inj (rw (e, find_job) at h))
  | inr e ↦ inr (In-find_job id xs r (rw (e, find_job) at h))
]

-- An upsert keeps the state and the result of every row.
pub find_job-upsert_job :
    (id : String) (r : Row) (rows : List Row) (s : Row)
    → find_job id rows ≡ some s
    → (s' : Row) × (find_job id (upsert_job r rows) ≡ some s')
      × (s'.state ≡ s.state)
      × (s'.result ≡ s.result)
unfolding find_job upsert_job
find_job-upsert_job id r [] s h = cc
find_job-upsert_job id r (x ∷ xs) s h = elim (Bool-cases (str_eq x.id id)) [
  | inl e ↦
      let q : x ≡ s = some_inj (rw (e, find_job) at h) in
      elim (Bool-cases (str_eq x.id r.id)) [
        | inl f ↦ (
          record x { wanted = r.wanted; priority = r.priority; owner_epoch = r.owner_epoch },
          rw (f, upsert_job, e, find_job) refl,
          ap (λ y. y.state) q,
          ap (λ y. y.result) q,
        )
        | inr f ↦
            (x, rw (f, upsert_job, e, find_job) refl, ap (λ y. y.state) q, ap (λ y. y.result) q)
      ]
  | inr e ↦ elim (Bool-cases (str_eq x.id r.id)) [
    | inl f ↦ (s, rw (f, upsert_job, e, find_job) (rw (e, find_job) at h), refl, refl)
    | inr f ↦
        rw (f, upsert_job, e, find_job) (find_job-upsert_job id r xs s (rw (e, find_job) at h))
  ]
]
