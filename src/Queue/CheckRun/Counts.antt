-- ===== src/Queue/CheckRun/Counts.antt =====
-- Counting how many of some names a map has: a map that has entries under these names only has as
-- many entries.
use gauntlet.Prelude.{
  ◌∙◌, sym, subst, ℕ, suc, String, List, [], ◌∷◌, none, some, true, false, refl, ◌≡◌, Map, lookup,
  has, insert, lookup-insert, length-insert, length, contains, Unrepeated, str_eq, eq_iff,
  if◌then◌else◌, arith, Bool-cases, Option-cases, inl, inr, ap, All, ◌≤◌,
}

module _ {V : Type 0} where
  unfoldable pub count_has : List String → Map V → ℕ
  count_has [] m = 0
  count_has (k ∷ ks) m = if has k m then suc (count_has ks m) else count_has ks m

  pub length-insert_old :
      (k : String) (v old : V) (m : Map V)
      → lookup k m ≡ some old
      → length (insert k v m) ≡ length m
  unfolding lookup insert
  length-insert_old k v old [] h = cc h
  length-insert_old k v old ((at, x) ∷ m) h = ground (arith, h, length-insert_old k v old m)

  count_has-insert_old :
      (ks : List String) (k : String) (v old : V) (m : Map V)
      → lookup k m ≡ some old
      → count_has ks (insert k v m) ≡ count_has ks m
  unfolding count_has
  count_has-insert_old [] k v old m h = refl
  count_has-insert_old (j ∷ ks) k v old m h = elim (Bool-cases (str_eq k j)) [
    | inl s ↦
        let here : lookup j m ≡ some old = ap (λ x. lookup x m) (sym ((eq_iff k j).0 s)) ∙ h in
        ground (arith, here, s, lookup-insert k j v m, count_has-insert_old ks k v old m h)
    | inr f ↦ ground (arith, f, lookup-insert k j v m, count_has-insert_old ks k v old m h)
  ]

  count_has-absent :
      (ks : List String) (k : String) (v : V) (m : Map V)
      → contains ks k ≡ false
      → count_has ks (insert k v m) ≡ count_has ks m
  unfolding count_has
  count_has-absent [] k v m h = refl
  count_has-absent (j ∷ ks) k v m h =
      ground (arith, h, lookup-insert k j v m, eq_iff k j, eq_iff j k, count_has-absent ks k v m)

  count_has-insert_new :
      (ks : List String) (k : String) (v : V) (m : Map V)
      → Unrepeated ks
      → contains ks k ≡ true
      → lookup k m ≡ none
      → count_has ks (insert k v m) ≡ suc (count_has ks m)
  unfolding count_has
  count_has-insert_new [] k v m u c n = cc c
  count_has-insert_new (j ∷ ks) k v m u c n = elim (Bool-cases (str_eq j k)) [
    | inl s ↦
        let same : j ≡ k = (eq_iff j k).0 s in
        let gone : contains ks k ≡ false = subst (λ x. contains ks x ≡ false) same u.0 in
        let off : lookup j m ≡ none = subst (λ x. lookup x m ≡ none) (sym same) n in
        ground (
          arith,
          off,
          s,
          lookup-insert k j v m,
          eq_iff k j,
          eq_iff j k,
          count_has-absent ks k v m gone,
        )
    | inr f ↦ ground (
      arith,
      c,
      f,
      lookup-insert k j v m,
      eq_iff k j,
      eq_iff j k,
      count_has-insert_new ks k v m u.1,
      n,
    )
  ]

  -- A write under one of the names keeps the map counted.
  pub insert-counted :
      (ks : List String) (k : String) (v : V) (m : Map V)
      → Unrepeated ks
      → contains ks k ≡ true
      → length m ≡ count_has ks m
      → length (insert k v m) ≡ count_has ks (insert k v m)
  insert-counted ks k v m u c e = elim (Option-cases (lookup k m)) [
    | inl n ↦ omega (arith, length-insert k v m n, count_has-insert_new ks k v m u c n, e)
    | inr (old, o) ↦
        omega (arith, length-insert_old k v old m o, count_has-insert_old ks k v old m o, e)
  ]

  count_has_le : (ks : List String) (m : Map V) → count_has ks m ≤ length ks
  unfolding count_has
  count_has_le [] m = omega arith
  count_has_le (k ∷ ks) m = ground (arith, count_has_le ks m)

  -- A count that is full has every name.
  pub count_has_full :
      (ks : List String) (m : Map V) → count_has ks m ≡ length ks → All (λ k. has k m ≡ true) ks
  unfolding count_has
  count_has_full [] m e = tt
  count_has_full (k ∷ ks) m e =
      let le = count_has_le ks m in
      (ground (arith, e, le), count_has_full ks m (ground (arith, e, le)))
