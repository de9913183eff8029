-- ===== src/Deploy/Graph/Head.antt =====
-- deploy/graph.go: the invariant of `Run` at the head of its loop.
use gauntlet.Deploy.Graph.Tracked.{
  Tracked, Inv, keep-cancelled_if, cancelled_if-Tracked, launch-Tracked, cull-Tracked,
  initial-Tracked,
}
use gauntlet.Deploy.Graph.Received.{receive-Tracked}
use gauntlet.Core.Types.{CheckResult}
use gauntlet.Deploy.Graph.Loop.{
  receive_all_keeps, loop_keeps, end_round_inv, Exit, start_ready_keeps, cull_cases,
}
use gauntlet.Deploy.Graph.Results.{WellNamed}
use gauntlet.Deploy.Graph.Accounts.{
  end_round-Accounts, initial-Accounts, receive-Accounts, set_rest, launch-Accounts,
}
use gauntlet.Prelude.{
  All, str_eq, Map, subst, sym, ap, String, arith, lookup, ◌≡◌, List, [], ◌∷◌, none, some, true,
  false, refl,
}
use gauntlet.Deploy.Graph.{
  Round, loop, end_round, cull, begin_round, first_red, cancelled_if, launch, keep, initial, Node,
  Scheduler, State,
}

first_red-nil : (nodes : List Node) → first_red nodes [] ≡ none
unfolding first_red lookup
first_red-nil [] = refl
first_red-nil (n ∷ ns) = first_red-nil ns

-- At the head of the loop no red result is unnoticed while the run goes on.
abbrev pub Clean : List Node → State → Type 0
Clean nodes s = keep s ≡ true → first_red nodes s.results ≡ none

abbrev pub Head : Scheduler → State → Type 0
Head sch s = Inv sch s × Clean sch.nodes s

keep_culled :
    (name : String) (s : State)
    → str_eq name "" ≡ false
    → keep (record s { culprit = name; stopped = true }) ≡ false
unfolding keep
keep_culled name s h = ground (arith, h)

first_red_named :
    (nodes : List Node) (results : Map CheckResult) (name : String)
    → All (λ n. str_eq n.name "" ≡ false) nodes
    → first_red nodes results ≡ some name
    → str_eq name "" ≡ false
unfolding first_red
first_red_named [] results name w e = cc
first_red_named (n ∷ ns) results name w e =
    ground (arith, first_red_named ns results name w.1, ap (λ x. str_eq x ""))

cull-Clean : (nodes : List Node) (s : State) → WellNamed nodes → Clean nodes (cull nodes s)
cull-Clean nodes s w =
    cull_cases (Clean nodes) nodes s (λ over k. cc) (λ _ q _. q)
      λ name k q e. cc (e, keep_culled name s (first_red_named nodes s.results name w.named q))

pub begin_round-Head :
    (sch : Scheduler) (r : Round) (s : State) → Head sch s → Head sch (begin_round sch r s)
unfolding begin_round launch keep
begin_round-Head sch r s (v, c) =
    start_ready_keeps (Head sch) sch
      (λ i n u at new ok room (x, d).
        ((launch-Accounts sch i n u at new ok room x.0, launch-Tracked sch i n u at new ok x), d))
      (cancelled_if r.ctx_at_start s)
      (
        (set_rest _ _ _ _ _ v.0, cancelled_if-Tracked sch.nodes r.ctx_at_start s v.1),
        λ k. c (keep-cancelled_if r.ctx_at_start s k),
      )

pub begin_round-Inv :
    (sch : Scheduler) (r : Round) (s : State) → Inv sch s → Inv sch (begin_round sch r s)
unfolding begin_round
begin_round-Inv sch r s v =
    start_ready_keeps (Inv sch) sch
      (λ i n u at new ok room x.
        (launch-Accounts sch i n u at new ok room x.0, launch-Tracked sch i n u at new ok x))
      (cancelled_if r.ctx_at_start s)
      (set_rest _ _ _ _ _ v.0, cancelled_if-Tracked sch.nodes r.ctx_at_start s v.1)

pub end_round-Head :
    (sch : Scheduler) (r : Round) (s t : State)
    → WellNamed sch.nodes
    → Inv sch s
    → end_round sch r s ≡ some t
    → Head sch t
end_round-Head sch r s t w v e =
    let (a, as', u, got, eq) = end_round_inv sch r s t e in
    let (x, y) : Inv sch u =
      receive_all_keeps (Inv sch) sch.nodes
        (λ b p q i h. (receive-Accounts sch b p q i.0 h, receive-Tracked sch b p q w i h)) (a ∷ as')
        s u v got in
    (
      (
        end_round-Accounts sch r s t v.0 e,
        subst (Tracked sch.nodes) (sym eq)
            (cull-Tracked sch.nodes _ w (cancelled_if-Tracked sch.nodes r.ctx_at_cull u y)),
      ),
      subst (Clean sch.nodes) (sym eq) (cull-Clean sch.nodes (cancelled_if r.ctx_at_cull u) w),
    )

pub loop-Head :
    (sch : Scheduler) (rs : List Round) (t : State)
    → WellNamed sch.nodes
    → loop sch rs (initial sch.nodes) ≡ some t
    → Exit (Head sch) sch t
unfolding initial
loop-Head sch rs t w e =
    loop_keeps (Head sch) sch
      (λ r s u v q. end_round-Head sch r (begin_round sch r s) u w (begin_round-Head sch r s v).0 q)
      rs (initial sch.nodes) t
      ((initial-Accounts sch, initial-Tracked sch.nodes), λ _. first_red-nil sch.nodes) e
