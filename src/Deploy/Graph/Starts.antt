-- ===== src/Deploy/Graph/Starts.antt =====
-- deploy/graph.go: what holds of `Run` in every state between its steps.
use gauntlet.Core.Types.{node_green, CheckResult}
use gauntlet.Deploy.Graph.Results.{WellNamed}
use gauntlet.Deploy.Graph.Accounts.{
  end_round-Accounts, begin_round-Accounts, initial-Accounts, Accounts,
}
use gauntlet.Prelude.{
  ◌∙◌, sym, Map, String, List, Bool, lookup, zero, suc, Bool-cases, Option-cases, All, arith, subst,
  some_inj, [], ◌∷◌, false, refl, ◌<◌, inr, Distinct, max, inl, ◌≤◌, elem, length, get_elem?, ◌≢◌,
  ◌≡◌, ℕ, some, true,
}
use gauntlet.Deploy.Graph.{
  dep_green, ready, first_red, end_round, begin_round, initial, Scheduler, State, Round, Node,
}
use gauntlet.Deploy.Graph.Tracked.{initial-Tracked, Inv}
use gauntlet.Deploy.Graph.Head.{end_round-Head, begin_round-Inv}

-- The states of a run after some of its starts, drains and culls.
pub data Reachable (sch : Scheduler) : State → Type 0 where
  at_first : Reachable sch (initial sch.nodes)
  begins : {s : State} (r : Round) → Reachable sch s → Reachable sch (begin_round sch r s)
  ends : {s t : State} (r : Round) → Reachable sch s → end_round sch r s ≡ some t → Reachable sch t

Reachable-Accounts : (sch : Scheduler) {s : State} → Reachable sch s → Accounts sch s
Reachable-Accounts sch at_first = initial-Accounts sch
Reachable-Accounts sch (begins {s} r h) = begin_round-Accounts sch r s (Reachable-Accounts sch h)
Reachable-Accounts sch (ends {s} {t} r h e) =
    end_round-Accounts sch r s t (Reachable-Accounts sch h) e

Reachable-Head : (sch : Scheduler) {s : State} → WellNamed sch.nodes → Reachable sch s → Inv sch s
Reachable-Head sch w at_first = (initial-Accounts sch, initial-Tracked sch.nodes)
Reachable-Head sch w (begins {s} r h) = begin_round-Inv sch r s (Reachable-Head sch w h)
Reachable-Head sch w (ends {s} {t} r h e) =
    (end_round-Head sch r s t w (Reachable-Head sch w h) e).0

-- At any time at most `max-parallel` nodes are in flight (one, if it is not positive), the counter
-- of the loop says how many, and no node has been started twice.
pub Reachable-bounds :
    (sch : Scheduler) {s : State}
    → Reachable sch s
    → (s.inflight ≡ length s.running) × (s.inflight ≤ max sch.max_parallel 1) × Distinct s.starts
Reachable-bounds sch h = let v = Reachable-Accounts sch h in (v.counted, v.within, v.once_started)

-- A stored result, and its colour.
abbrev pub HasColour : Map CheckResult → Bool → String → Type 0
HasColour results green k =
    (res : CheckResult) × (lookup k results ≡ some res) × (node_green res ≡ green)

-- The first node with a red result, described by its position.
abbrev pub IsFirstRed : List Node → Map CheckResult → String → Type 0
IsFirstRed nodes results name =
    (i : ℕ) × (n : Node) × (get_elem? nodes i ≡ some n)
    × (n.name ≡ name)
    × HasColour results false name
    × ((j : ℕ) (m : Node) → j < i → get_elem? nodes j ≡ some m → ¬ HasColour results false m.name)

ready_green :
    (results : Map CheckResult) (deps : List String)
    → ready results deps ≡ true
    → All (HasColour results true) deps
unfolding ready dep_green
ready_green results [] h = tt
ready_green results (d ∷ ds) h = elim (Option-cases (lookup d results)) [
  | inl q ↦ cc (rw (q, ready, dep_green) at h)
  | inr (res, q) ↦
      let both : (node_green res ≡ true) × (ready results ds ≡ true) = ground (arith, q, h) in
      ((res, q, both.0), ready_green results ds both.1)
]

first_red_sound :
    (nodes : List Node) (results : Map CheckResult) (name : String)
    → first_red nodes results ≡ some name
    → IsFirstRed nodes results name
unfolding first_red
first_red_sound [] results name h = cc
first_red_sound (n ∷ ns) results name h = elim (Option-cases (lookup n.name results)) [
  | inl q ↦
      later (λ (res, o, _). cc (q, o)) (first_red_sound ns results name (rw (q, first_red) at h))
  | inr (res, q) ↦ elim (Bool-cases (node_green res)) [
    | inl g ↦
        later (λ (res', o, r). red_not_green (some_inj (sym q ∙ o)) g r)
          (first_red_sound ns results name (rw (q, g, first_red) at h))
    | inr g ↦
        let e : n.name ≡ name = some_inj (rw (q, g, first_red) at h) in
        (
          0,
          n,
          refl,
          e,
          subst (HasColour results false) e (res, q, g),
          λ j m less at. absurd (omega (arith, less)),
        )
  ]
]
  where
    red_not_green : {r r' : CheckResult} → r ≡ r' → node_green r ≡ true → ¬ node_green r' ≡ false
    red_not_green e g g' = cc (e, g, g')

    later :
        ¬ HasColour results false n.name
        → IsFirstRed ns results name
        → IsFirstRed (n ∷ ns) results name
    later clean (i, m, at, e, red, before) = (suc i, m, at, e, red, earlier i before)
      where
        earlier :
            (i : ℕ)
            → ((j : ℕ) (m : Node)
                → j < i
                → get_elem? ns j ≡ some m
                → ¬ HasColour results false m.name)
            → (j : ℕ) (m : Node) → j < suc i
            → get_elem? (n ∷ ns) j ≡ some m
            → ¬ HasColour results false m.name
        earlier i before zero m less at =
            subst (λ x. ¬ HasColour results false x.name) (some_inj at) clean
        earlier i before (suc j) m less at = before j m (omega (arith, less)) at

-- Every node that was started has only green `after` edges, at its start and ever after: each edge
-- has a stored result, and it is green.
pub Reachable-ready :
    (sch : Scheduler) (i : ℕ) (n : Node) {s : State}
    → WellNamed sch.nodes
    → Reachable sch s
    → get_elem? sch.nodes i ≡ some n
    → elem i s.starts ≡ true
    → All (HasColour s.results true) n.after
Reachable-ready sch i n {s} w h at begun =
    ready_green s.results n.after ((Reachable-Head sch w h).1.justified i n at begun)

-- A culprit, once named, is the first node in spec order whose stored result is red, whatever the
-- order of completion.
pub Reachable-culprit :
    (sch : Scheduler) {s : State}
    → WellNamed sch.nodes
    → Reachable sch s
    → s.culprit ≢ ""
    → IsFirstRed sch.nodes s.results s.culprit
Reachable-culprit sch {s} w h c = elim (Reachable-Head sch w h).1.blamed [
  | inl e ↦ absurd (c e)
  | inr e ↦ first_red_sound sch.nodes s.results s.culprit e
]
