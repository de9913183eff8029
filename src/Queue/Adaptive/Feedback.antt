-- ===== src/Queue/Adaptive/Feedback.antt =====
-- queue/adaptive.go: `governorFeedback` counts an outcome of a run once.
use gauntlet.Queue.Circuit.{RunOutcome, landed, rejected, conflict, skipped, errored}
use gauntlet.Queue.Adaptive.{
  Adaptive, Target, Governor, governor, Run, feedback_id, judge_outcome, remember,
  governor_feedback, after_landing,
}
use gauntlet.Prelude.{
  eq_iff, ◌+◌, ◌⊎◌, suc, lookup, insert, lookup-insert, length, contains, ◌||◌, not, str_eq,
  str_eq_refl, if◌then◌else◌, Map, Bool, String, ℕ, List, [], ◌∷◌, some, none, true, false, refl,
  inl, inr, ◌≡◌, ◌≤◌, ◌∙◌, ap, arith, Bool-cases, Option-cases,
}
use gauntlet.Queue.Adaptive.Ledger.{Holds, Holds-contains, Holds-le, remember-Holds, remember_first}

-- One feedback after another, for any targets, runs and outcomes.
abbrev pub feedbacks : List (Target × Run × RunOutcome) → Map Governor → Map Governor
feedbacks [] governors = governors
feedbacks ((t, r, o) ∷ rest) governors = feedbacks rest (governor_feedback t r o governors)

after_landing-recent :
    (t : Target) (a : Adaptive) (r : Run) (g : Governor) → (after_landing t a r g).recent ≡ g.recent
unfolding after_landing
after_landing-recent t a r g = ground arith

judge_outcome-recent :
    (t : Target) (a : Adaptive) (r : Run) (g g' : Governor) (o : RunOutcome)
    → judge_outcome t a r g o ≡ some g'
    → g'.recent ≡ g.recent
unfolding judge_outcome
judge_outcome-recent t a r g g' landed h = ground (arith, h, after_landing-recent t a r g)
judge_outcome-recent t a r g g' rejected h = ground (arith, h)
judge_outcome-recent t a r g g' errored h = ground (arith, h)
judge_outcome-recent t a r g g' skipped h = ground (arith, h)
judge_outcome-recent t a r g g' conflict h = cc h

-- Whether an outcome counts is decided by the run and the outcome.
judge_outcome-none :
    (t : Target) (a : Adaptive) (r : Run) (g g' : Governor) (o : RunOutcome)
    → judge_outcome t a r g o ≡ none
    → judge_outcome t a r g' o ≡ none
unfolding judge_outcome
judge_outcome-none t a r g g' landed h = cc h
judge_outcome-none t a r g g' rejected h = ground (arith, h)
judge_outcome-none t a r g g' errored h = ground (arith, h)
judge_outcome-none t a r g g' skipped h = ground (arith, h)
judge_outcome-none t a r g g' conflict h = refl

governor-recent :
    (t : Target) (a : Adaptive) (governors : Map Governor) (g : Governor)
    → lookup t.name governors ≡ some g
    → (governor t a governors).recent ≡ g.recent
unfolding governor
governor-recent t a governors g h = ground (arith, h)

governor_feedback_seen :
    (t : Target) (a : Adaptive) (r : Run) (o : RunOutcome) (governors : Map Governor)
    → t.adaptive ≡ some a
    → contains (governor t a governors).recent (feedback_id r o) ≡ true
    → governor_feedback t r o governors ≡ governors
unfolding governor_feedback
governor_feedback_seen t a r o governors e seen = ground (arith, e, seen)

-- What the run and the outcome alone rule out.
governor_feedback_emergency :
    (t : Target) (r : Run) (o : RunOutcome) (governors : Map Governor)
    → str_eq r.emergency_reason "" ≡ false
    → governor_feedback t r o governors ≡ governors
unfolding governor_feedback
governor_feedback_emergency t r o governors e = elim (Option-cases t.adaptive) [
  | inl q ↦ ground (arith, q)
  | inr (a, q) ↦ ground (arith, q, e)
]

governor_feedback_idle :
    (t : Target) (a : Adaptive) (r : Run) (o : RunOutcome) (g : Governor) (governors : Map Governor)
    → t.adaptive ≡ some a
    → judge_outcome t a r g o ≡ none
    → governor_feedback t r o governors ≡ governors
unfolding governor_feedback
governor_feedback_idle t a r o g governors e j =
    ground (arith, e, judge_outcome-none t a r g (governor t a governors) o j)

governor_feedback_counted :
    (t : Target) (a : Adaptive) (r : Run) (o : RunOutcome) (g : Governor) (governors : Map Governor)
    → t.adaptive ≡ some a
    → str_eq r.emergency_reason "" ≡ true
    → contains (governor t a governors).recent (feedback_id r o) ≡ false
    → judge_outcome t a r (governor t a governors) o ≡ some g
    → governor_feedback t r o governors ≡ insert t.name (remember (feedback_id r o) g) governors
unfolding governor_feedback
governor_feedback_counted t a r o g governors e q fresh j = ground (arith, e, q, fresh, j)

-- A feedback is ignored, or it adds its identity to the ledger of its target.
governor_feedback_cases :
    (t : Target) (r : Run) (o : RunOutcome) (governors : Map Governor)
    → (governor_feedback t r o governors ≡ governors)
      ⊎ ((a : Adaptive) × (g : Governor) × (g.recent ≡ (governor t a governors).recent)
          × (governor_feedback t r o governors
              ≡ insert t.name (remember (feedback_id r o) g) governors))
unfolding governor_feedback
governor_feedback_cases t r o governors = elim (Option-cases t.adaptive) [
  | inl e ↦ inl (ground (arith, e))
  | inr (a, e) ↦
      let g = governor t a governors in
      elim (Bool-cases
        (not (str_eq r.emergency_reason "") || contains g.recent (feedback_id r o))) [
          | inl q ↦ inl (ground (arith, e, q))
          | inr q ↦ elim (Option-cases (judge_outcome t a r g o)) [
            | inl j ↦ inl (ground (arith, e, q, j))
            | inr (g', j) ↦
                inr (a, g', judge_outcome-recent t a r g g' o j, ground (arith, e, q, j))
          ]
        ]
]

-- The ledger of a target holds an identity with at most `k` later ones.
record Recorded (id name : String) (k : ℕ) (governors : Map Governor) : Type 0 where
  stored : Governor
  found : lookup name governors ≡ some stored
  holds : Holds id k stored.recent

inserted :
    (written key : String) (new : Governor) (governors : Map Governor) {x : Bool}
    → str_eq written key ≡ x
    → lookup key (insert written new governors) ≡ (if x then some new else lookup key governors)
inserted written key new governors e =
    lookup-insert written key new governors
    ∙ ap (λ (b : Bool). if b then some new else lookup key governors) e

governor_feedback-Recorded :
    (id name : String) (k : ℕ) (t : Target) (r : Run) (o : RunOutcome) (governors : Map Governor)
    → k ≤ 126
    → Recorded id name k governors
    → Recorded id name (suc k) (governor_feedback t r o governors)
governor_feedback-Recorded id name k t r o governors bound w =
    elim (governor_feedback_cases t r o governors) [
      | inl same ↦ record {
        stored = w.stored;
        found = rw same w.found;
        holds = Holds-le id k (suc k) w.stored.recent (omega arith) w.holds;
      }
      | inr (a, g, recent, eq) ↦ elim (Bool-cases (str_eq t.name name)) [
        | inr e ↦ record {
          stored = w.stored;
          found = rw eq (inserted t.name name _ governors e ∙ w.found);
          holds = Holds-le id k (suc k) w.stored.recent (omega arith) w.holds;
        }
        | inl e ↦
            let own = ap (λ n. lookup n governors) ((eq_iff t.name name).0 e) ∙ w.found in
            record {
              stored = remember (feedback_id r o) g;
              found = rw eq (inserted t.name name _ governors e);
              holds =
                  remember-Holds id (feedback_id r o) k g bound
                    (rw (recent ∙ governor-recent t a governors w.stored own) w.holds);
            }
      ]
    ]

feedbacks-Recorded :
    (id name : String) (k : ℕ) (fs : List (Target × Run × RunOutcome)) (governors : Map Governor)
    → k + length fs ≤ 127
    → Recorded id name k governors
    → Recorded id name 127 (feedbacks fs governors)
feedbacks-Recorded id name k [] governors bound w = record {
  stored = w.stored;
  found = w.found;
  holds = Holds-le id k 127 w.stored.recent (omega (arith, bound)) w.holds;
}
feedbacks-Recorded id name k ((t, r, o) ∷ fs) governors bound w =
    feedbacks-Recorded id name (suc k) fs (governor_feedback t r o governors) (omega (arith, bound))
      (governor_feedback-Recorded id name k t r o governors (omega (arith, bound)) w)

-- A run's outcome that the ledger of its target does not hold yet is counted at most once: after it
-- and at most 127 further feedbacks, for any targets, runs and outcomes, the same run with the same
-- outcome changes nothing.
pub governor_feedback_once :
    (t : Target) (a : Adaptive) (r : Run) (o : RunOutcome) (fs : List (Target × Run × RunOutcome))
    (governors : Map Governor)
    → t.adaptive ≡ some a
    → contains (governor t a governors).recent (feedback_id r o) ≡ false
    → length fs ≤ 127
    → governor_feedback t r o (feedbacks fs (governor_feedback t r o governors))
      ≡ feedbacks fs (governor_feedback t r o governors)
governor_feedback_once t a r o fs governors e fresh few =
    elim (Bool-cases (str_eq r.emergency_reason "")) [
      | inr q ↦ governor_feedback_emergency t r o _ q
      | inl q ↦ elim (Option-cases (judge_outcome t a r (governor t a governors) o)) [
        | inl j ↦ governor_feedback_idle t a r o (governor t a governors) _ e j
        | inr (g, j) ↦
            let w =
              feedbacks-Recorded (feedback_id r o) t.name 0 fs (governor_feedback t r o governors)
                (omega (arith, few)) (counted g q j) in
            governor_feedback_seen t a r o _ e (
              ap (λ l. contains l (feedback_id r o)) (governor-recent t a _ w.stored w.found)
              ∙ Holds-contains (feedback_id r o) _ w.stored.recent w.holds)
      ]
    ]
  where
    counted :
        (g : Governor)
        → str_eq r.emergency_reason "" ≡ true
        → judge_outcome t a r (governor t a governors) o ≡ some g
        → Recorded (feedback_id r o) t.name 0 (governor_feedback t r o governors)
    counted g q j = record {
      stored = remember (feedback_id r o) g;
      found =
          ap (lookup t.name) (governor_feedback_counted t a r o g governors e q fresh j)
          ∙ inserted t.name t.name _ governors (str_eq_refl t.name);
      holds = remember_first (feedback_id r o) g;
    }
