-- ===== src/Queue/Adaptive/Ledger.antt =====
-- queue/adaptive.go: how long the ledger of a governor keeps an identity.
use gauntlet.Queue.Adaptive.{Governor, remember}
use gauntlet.Prelude.{
  ◌-◌, zero, suc, length, drop, length-append, contains, ltb, ◌++◌, str_eq_refl, String, ℕ, List,
  [], ◌∷◌, true, refl, inl, inr, ◌≡◌, ◌≤◌, ◌∙◌, ap, arith, Bool-cases,
}

drop-append : (n : ℕ) (xs ys : List String) → n ≤ length xs → drop n (xs ++ ys) ≡ drop n xs ++ ys
drop-append zero xs ys h = refl
drop-append (suc n) [] ys h = absurd (omega (arith, h))
drop-append (suc n) (x ∷ xs) ys h = drop-append n xs ys (omega (arith, h))

contains-append : (xs ys : List String) (id : String) → contains (xs ++ (id ∷ ys)) id ≡ true
contains-append [] ys id = ground (arith, str_eq_refl id)
contains-append (x ∷ xs) ys id = ground (arith, contains-append xs ys id)

append_last :
    (xs ys : List String) (id x : String)
    → (xs ++ (id ∷ ys)) ++ (x ∷ []) ≡ xs ++ (id ∷ (ys ++ (x ∷ [])))
append_last [] ys id x = refl
append_last (y ∷ xs) ys id x = ap (λ l. y ∷ l) (append_last xs ys id x)

-- An identity with at most `k` later ones in the ledger.
pub record Holds (id : String) (k : ℕ) (ledger : List String) : Type 0 where
  pub before : List String
  pub later : List String
  pub parts : ledger ≡ before ++ (id ∷ later)
  pub few : length later ≤ k

pub Holds-contains : (id : String) (k : ℕ) (l : List String) → Holds id k l → contains l id ≡ true
Holds-contains id k l h = rw h.parts (contains-append h.before h.later id)

-- A ledger of 128 keeps what has at most 126 later identities when one more is added.
pub remember-Holds :
    (id x : String) (k : ℕ) (g : Governor)
    → k ≤ 126
    → Holds id k g.recent
    → Holds id (suc k) (remember x g).recent
unfolding remember
remember-Holds id x k g bound h =
    let whole : g.recent ++ (x ∷ []) ≡ h.before ++ (id ∷ (h.later ++ (x ∷ []))) =
      ap (λ l. l ++ (x ∷ [])) h.parts ∙ append_last h.before h.later id x in
    let size = length-append h.later (x ∷ []) in
    let total = ap length whole ∙ length-append h.before (id ∷ (h.later ++ (x ∷ []))) in
    elim (Bool-cases (ltb 128 (length (g.recent ++ (x ∷ []))))) [
      | inl e ↦ record {
        before = drop (length (g.recent ++ (x ∷ [])) - 128) h.before;
        later = h.later ++ (x ∷ []);
        parts =
            rw (e, remember)
              (ap (drop (length (g.recent ++ (x ∷ [])) - 128)) whole
                ∙ drop-append _ h.before (id ∷ (h.later ++ (x ∷ [])))
                    (omega (arith, size, total, h.few)));
        few = omega (arith, size, h.few);
      }
      | inr e ↦ record {
        before = h.before;
        later = h.later ++ (x ∷ []);
        parts = rw (e, remember) whole;
        few = omega (arith, size, h.few);
      }
    ]

pub remember_first : (id : String) (g : Governor) → Holds id 0 (remember id g).recent
unfolding remember
remember_first id g =
    let size = length-append g.recent (id ∷ []) in
    elim (Bool-cases (ltb 128 (length (g.recent ++ (id ∷ []))))) [
      | inl e ↦ record {
        before = drop (length (g.recent ++ (id ∷ [])) - 128) g.recent;
        later = [];
        parts = rw (e, remember) (drop-append _ g.recent (id ∷ []) (omega (arith, size)));
        few = omega arith;
      }
      | inr e ↦ record {
        before = g.recent;
        later = [];
        parts = rw (e, remember) refl;
        few = omega arith;
      }
    ]

pub Holds-le : (id : String) (k m : ℕ) (l : List String) → k ≤ m → Holds id k l → Holds id m l
Holds-le id k m l le h = record {
  before = h.before;
  later = h.later;
  parts = h.parts;
  few = omega (arith, le, h.few);
}
