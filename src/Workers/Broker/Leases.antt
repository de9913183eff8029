-- ===== src/Workers/Broker/Leases.antt =====
-- workers/broker.go: what the leases of a session need together, one quantity of the resources at a
-- time.
use gauntlet.Workers.Broker.Claim.{available, leased_to, free_of}
use gauntlet.Prelude.{
  neg_part, pos_part, sub_sub, str_eq_refl, ap, eq_iff, ◌∙◌, Bool, int_laws, subst, Bool-cases, In,
  -ℤ_parts, -ℤ_parts, ◌≤ℤ◌, ◌+ℤ◌, arith, All, str_eq, if◌then◌else◌, Unrepeated, eq_of_parts,
  contains, pos, ◌-ℤ◌, ◌≡◌, map, ℤ, String, List, [], ◌∷◌, true, false, inl, inr, refl,
}
use gauntlet.Workers.Resources.{subtract, Resources}
use gauntlet.Workers.Broker.{update_where, Row}

abbrev pub job_ids : List Row → List String
job_ids = map (λ r. r.id)

head_arith :
    (p q : Bool) (n n' t : ℤ)
    → n' ≡ n
    → pos 0 ≤ℤ n
    → (if p then n' +ℤ t else t) ≤ℤ n +ℤ (if q then n +ℤ t else t)
head_arith true true n n' t e h = omega (int_laws, ap pos_part e, ap neg_part e)
head_arith true false n n' t e h = omega (int_laws, ap pos_part e, ap neg_part e)
head_arith false true n n' t e h = omega int_laws
head_arith false false n n' t e h = omega int_laws

tail_arith :
    (p : Bool) (n t t' k : ℤ)
    → t' ≤ℤ k +ℤ t
    → (if p then n +ℤ t' else t') ≤ℤ k +ℤ (if p then n +ℤ t else t)
tail_arith true n t t' k h = omega int_laws
tail_arith false n t t' k h = h

pub contains-job_ids : (rows : List Row) (r : Row) → In r rows → contains (job_ids rows) r.id ≡ true
contains-job_ids [] r m = elim m [ ]
contains-job_ids (x ∷ xs) r (inl e) = ground (arith, eq_iff x.id r.id, ap (λ y. y.id) e)
contains-job_ids (x ∷ xs) r (inr m) = ground (arith, contains-job_ids xs r m)

pub update_where_absent :
    (k : String) (g : Row → Row) (rows : List Row)
    → contains (job_ids rows) k ≡ false
    → update_where (λ s. str_eq s.id k) g rows ≡ rows
unfolding update_where
update_where_absent k g [] h = refl
update_where_absent k g (r ∷ rs) h = ground (arith, update_where_absent k g rs)

-- One of the three quantities of a resource.
module _ (f : Resources → ℤ) (f-subtract : (a b : Resources) → f (subtract a b) ≡ f a -ℤ f b)
    (id session : String) where
  -- What the rows leased to a session need together.
  total : List Row → ℤ
  total [] = pos 0
  total (r ∷ rs) = if leased_to id session r then f r.needs.resources +ℤ total rs else total rs

  free_of-total :
      (available : Resources) (rows : List Row)
      → f (free_of available id session rows) ≡ f available -ℤ total rows
  unfolding free_of total
  free_of-total available [] = eq_of_parts _ _ (omega (arith, -ℤ_parts (f available) (pos 0)))
  free_of-total available (r ∷ rs) = elim (Bool-cases (leased_to id session r)) [
    | inl e ↦
        rw (e, free_of)
          (free_of-total (subtract available r.needs.resources) rs
            ∙ ap (λ x. x -ℤ total rs) (f-subtract available r.needs.resources)
            ∙ sub_sub (f available) (f r.needs.resources) (total rs))
    | inr e ↦ rw (e, free_of) (free_of-total available rs)
  ]

  -- A lease adds at most the needs of the leased row.
  total-update_where :
      (g : Row → Row) (rows : List Row) (r : Row)
      → ((s : Row) → (g s).needs ≡ s.needs)
      → Unrepeated (job_ids rows)
      → All (λ s. pos 0 ≤ℤ f s.needs.resources) rows
      → In r rows
      → total (update_where (λ s. str_eq s.id r.id) g rows) ≤ℤ f r.needs.resources +ℤ total rows
  unfolding update_where total
  total-update_where g [] r same u a m = elim m [ ]
  total-update_where g (x ∷ xs) r same u a (inl e) =
      subst
        (λ y.
          total (update_where (λ s. str_eq s.id y.id) g (x ∷ xs))
          ≤ℤ f y.needs.resources +ℤ total (x ∷ xs))
        e
        (rw (str_eq_refl x.id, update_where_absent x.id g xs u.0)
          (head_arith (leased_to id session (g x)) (leased_to id session x) (f x.needs.resources)
            (f (g x).needs.resources) (total xs) (ap (λ n. f n.resources) (same x)) a.0))
  total-update_where g (x ∷ xs) r same u a (inr m) =
      let other : str_eq x.id r.id ≡ false =
        ground (arith, u.0, contains-job_ids xs r m, eq_iff x.id r.id) in
      rw other (
        tail_arith (leased_to id session x) (f x.needs.resources) (total xs)
          (total (update_where (λ s. str_eq s.id r.id) g xs)) (f r.needs.resources)
          (total-update_where g xs r same u.1 a.1 m))

  -- After the lease the session has left what it had free, less the needs of the leased row.
  pub free_of-update_where :
      (capacity : Resources) (g : Row → Row) (rows : List Row) (r : Row)
      → ((s : Row) → (g s).needs ≡ s.needs)
      → Unrepeated (job_ids rows)
      → All (λ s. pos 0 ≤ℤ f s.needs.resources) rows
      → In r rows
      → f (free_of capacity id session rows) -ℤ f r.needs.resources
        ≤ℤ f (free_of capacity id session (update_where (λ s. str_eq s.id r.id) g rows))
  free_of-update_where capacity g rows r same u a m =
      rw
        (
          free_of-total capacity rows,
          free_of-total capacity (update_where (λ s. str_eq s.id r.id) g rows),
        )
        (omega (int_laws, total-update_where g rows r same u a m))
