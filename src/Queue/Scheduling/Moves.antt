-- ===== src/Queue/Scheduling/Moves.antt =====
-- queue/scheduling.go: a move loses no change, keeps the order within the selection and outside it,
-- and puts the selection next to its anchor.
use gauntlet.Queue.Scheduling.{keep_where, is_other, position_from, position, reorder}
use gauntlet.Prelude.{
  take, drop, contains, str_eq, eq_iff, not, ◌++◌, if◌then◌else◌, Bool, String, ℕ, List, [], ◌∷◌,
  true, false, refl, inl, inr, zero, suc, ◌≡◌, ◌≢◌, ◌∙◌, sym, ap, arith, Bool-cases,
}

keep_where-append :
    (test : String → Bool) (xs ys : List String)
    → keep_where test (xs ++ ys) ≡ keep_where test xs ++ keep_where test ys
unfolding keep_where
keep_where-append test [] ys = refl
keep_where-append test (x ∷ xs) ys = ground (arith, keep_where-append test xs ys)

-- Two filters in a row, of which the first implies, or excludes, the second.
keep_where_same :
    (test : String → Bool) (xs : List String)
    → keep_where test (keep_where test xs) ≡ keep_where test xs
unfolding keep_where
keep_where_same test [] = refl
keep_where_same test (x ∷ xs) = elim (Bool-cases (test x)) [
  | inl e ↦ rw (e, keep_where, e) (ap (λ l. x ∷ l) (keep_where_same test xs))
  | inr e ↦ rw (e, keep_where) (keep_where_same test xs)
]

keep_where_opposite :
    (p q : String → Bool) (xs : List String)
    → ((x : String) → p x ≡ not (q x))
    → keep_where p (keep_where q xs) ≡ []
unfolding keep_where
keep_where_opposite p q [] opp = refl
keep_where_opposite p q (x ∷ xs) opp = elim (Bool-cases (q x)) [
  | inl e ↦ rw (e, keep_where, opp x, e) (keep_where_opposite p q xs opp)
  | inr e ↦ rw (e, keep_where) (keep_where_opposite p q xs opp)
]

take-drop : (n : ℕ) (xs : List String) → take n xs ++ drop n xs ≡ xs
take-drop zero xs = refl
take-drop (suc n) [] = refl
take-drop (suc n) (x ∷ xs) = ap (λ l. x ∷ l) (take-drop n xs)

append_nil : (xs : List String) → xs ++ [] ≡ xs
append_nil [] = refl
append_nil (x ∷ xs) = ap (λ l. x ∷ l) (append_nil xs)

-- A filter of the parts of a move.
keep_where-insert :
    (test : String → Bool) (n : ℕ) (block rest : List String)
    → keep_where test (take n rest ++ (block ++ drop n rest))
      ≡ keep_where test (take n rest) ++ (keep_where test block ++ keep_where test (drop n rest))
keep_where-insert test n block rest =
    keep_where-append test (take n rest) (block ++ drop n rest)
    ∙ ap (λ l. keep_where test (take n rest) ++ l) (keep_where-append test block (drop n rest))

keep_where-split :
    (test : String → Bool) (n : ℕ) (rest : List String)
    → keep_where test (take n rest) ++ keep_where test (drop n rest) ≡ keep_where test rest
keep_where-split test n rest =
    sym (keep_where-append test (take n rest) (drop n rest))
    ∙ ap (keep_where test) (take-drop n rest)

-- If the test rejects all of the rest, the filter keeps only the block's part, and conversely.
no_rest : (a b c : List String) → a ++ c ≡ [] → a ++ (b ++ c) ≡ b
no_rest [] b [] h = append_nil b
no_rest [] b (x ∷ c) h = cc h
no_rest (x ∷ a) b c h = cc h

-- A move neither loses nor invents a change: the selected ones stand in their old order, and so do
-- the others.
pub keep_where-reorder :
    (original selected : List String) (anchor : String) (after : Bool)
    → (keep_where (contains selected) (reorder original selected anchor after)
        ≡ keep_where (contains selected) original)
      × (keep_where (is_other selected) (reorder original selected anchor after)
          ≡ keep_where (is_other selected) original)
unfolding reorder
keep_where-reorder original selected anchor after =
    let block = keep_where (contains selected) original in
    let rest = keep_where (is_other selected) original in
    let n = position anchor after rest in
    (
      keep_where-insert (contains selected) n block rest
          ∙ no_rest _ _ _ (
              keep_where-split (contains selected) n rest
              ∙ keep_where_opposite (contains selected) (is_other selected) original
                  (λ x. not_not (contains selected x)))
          ∙ keep_where_same (contains selected) original,
      keep_where-insert (is_other selected) n block rest
          ∙ ap
              (λ l.
                keep_where (is_other selected) (take n rest)
                ++ (l ++ keep_where (is_other selected) (drop n rest)))
              (keep_where_opposite (is_other selected) (contains selected) original (λ x. refl))
          ∙ keep_where-split (is_other selected) n rest
          ∙ keep_where_same (is_other selected) original,
    )
  where
    not_not : (b : Bool) → b ≡ not (not b)
    not_not true = refl
    not_not false = refl

position_from-suc :
    (i : ℕ) (anchor : String) (after : Bool) (rest : List String)
    → contains rest anchor ≡ true
    → position_from (suc i) anchor after rest ≡ suc (position_from i anchor after rest)
unfolding position_from
position_from-suc i anchor after [] h = cc
position_from-suc i anchor after (x ∷ xs) h =
    ground (arith, h, position_from-suc (suc i) anchor after xs)

-- The block on its side of the anchor.
abbrev pub beside : Bool → List String → String → List String → List String → List String
beside true pre anchor block post = pre ++ (anchor ∷ (block ++ post))
beside false pre anchor block post = pre ++ (block ++ (anchor ∷ post))

insert-beside :
    (anchor : String) (after : Bool) (block rest : List String)
    → contains rest anchor ≡ true
    → let n = position_from 0 anchor after rest in
      (pre : List String) × (post : List String) × (rest ≡ pre ++ (anchor ∷ post))
      × (take n rest ++ (block ++ drop n rest) ≡ beside after pre anchor block post)
unfolding position_from
insert-beside anchor after block [] h = cc
insert-beside anchor after block (x ∷ xs) h = elim (Bool-cases (str_eq x anchor)) [
  | inl e ↦ (
    [],
    xs,
    ap (λ y. y ∷ xs) ((eq_iff x anchor).0 e),
    rw (e, position_from) (here after ((eq_iff x anchor).0 e)),
  )
  | inr e ↦
      let found : contains xs anchor ≡ true = ground (arith, e, h) in
      let (pre, post, split, eq) = insert-beside anchor after block xs found in
      (
        x ∷ pre,
        post,
        ap (λ l. x ∷ l) split,
        rw (e, position_from, position_from-suc 0 anchor after xs found)
            (ap (λ l. x ∷ l) eq ∙ there after pre post),
      )
]
  where
    here :
        (a : Bool)
        → x ≡ anchor
        → take (if a then 1 else 0) (x ∷ xs) ++ (block ++ drop (if a then 1 else 0) (x ∷ xs))
          ≡ beside a [] anchor block xs
    here true q = ap (λ y. y ∷ (block ++ xs)) q
    here false q = ap (λ y. block ++ (y ∷ xs)) q

    there :
        (a : Bool) (pre post : List String)
        → x ∷ beside a pre anchor block post ≡ beside a (x ∷ pre) anchor block post
    there true pre post = refl
    there false pre post = refl

contains-keep_where :
    (test : String → Bool) (k : String) (xs : List String)
    → test k ≡ true
    → contains xs k ≡ true
    → contains (keep_where test xs) k ≡ true
unfolding keep_where
contains-keep_where test k [] t h = cc
contains-keep_where test k (x ∷ xs) t h = elim (Bool-cases (str_eq x k)) [
  | inl e ↦ ground (arith, e, ap test ((eq_iff x k).0 e), t)
  | inr e ↦ ground (arith, e, h, contains-keep_where test k xs t)
]

-- With an anchor that is queued and not selected, the selection stands as one block directly before
-- it or, for a move after it, directly behind it.
pub reorder-beside :
    (original selected : List String) (anchor : String) (after : Bool)
    → anchor ≢ ""
    → contains original anchor ≡ true
    → contains selected anchor ≡ false
    → (pre : List String) × (post : List String) × (keep_where (is_other selected) original
        ≡ pre ++ (anchor ∷ post))
      × (reorder original selected anchor after
          ≡ beside after pre anchor (keep_where (contains selected) original) post)
unfolding reorder position
reorder-beside original selected anchor after named queued free =
    let rest = keep_where (is_other selected) original in
    let differs : str_eq anchor "" ≡ false = ground (arith, named, eq_iff anchor "") in
    let there = contains-keep_where (is_other selected) anchor original (ap not free) queued in
    rw (differs) (insert-beside anchor after (keep_where (contains selected) original) rest there)
