-- ===== src/Queue/CheckRun/Referenced.antt =====
-- queue/checkrun.go: the references of the image builds that a reached run calls green.
use gauntlet.Queue.CheckRun.Tracking.{own_names, names_of}
use gauntlet.Config.Checks.{Check}
use gauntlet.Core.Types.{CheckResult, node_green}
use gauntlet.Queue.Captured.{is_immutable}
use gauntlet.Queue.CheckRun.{Run, Config, Flight}
use gauntlet.Queue.CheckRun.Advance.{
  Tick, advance_checks, cull, cancel_run, conclude_green, conclude_red, is_undecided, start_check,
  start_checks,
}
use gauntlet.Queue.CheckRun.Emergency.{bypass_checks, waive_from, waiver, is_kept}
use gauntlet.Queue.CheckRun.Frames.{consume-keeps, start_checks-keeps}
use gauntlet.Queue.CheckRun.Kept.{culled, begun, advance_checks-Same}
use gauntlet.Queue.CheckRun.Images.{image_node_name-inj, node_green-status}
use gauntlet.Queue.CheckRun.Reached.{Reached, built, ticked, bypassed}
use gauntlet.Queue.CheckRun.Results.{settle, take_result, consume}
use gauntlet.Queue.CheckRun.Rows.{materialize_checks}
use gauntlet.Queue.CheckSpec.{image_node_name}
use gauntlet.Prelude.{
  contains, ◌≢◌, ℕ, suc, ◌-◌, length, Bool, String, List, [], ◌∷◌, some, true, refl, sym, ◌≡◌, ◌∙◌,
  Map, lookup, has, insert, lookup-insert, arith, Bool-cases, inl, inr, str_eq, eq_iff, ap, subst,
  some_inj,
}
use gauntlet.Queue.CheckRun.Settled.{settle-HasRef, settle-ref, lookup-add_ref, lookup-add_ref_ne}

-- An image build with a green result has that result's reference, which is immutable.
abbrev pub Referenced : Run → Type 0
Referenced r =
    (name image : String) (res : CheckResult)
    → lookup name r.results ≡ some res
    → image_node_name name ≡ some image
    → node_green res ≡ true
    → (lookup image r.image_refs ≡ some res.image) × (is_immutable res.image ≡ true)

take_result-Referenced :
    (cfg : Config) (name : String) (inf : Flight) (res : CheckResult) (r : Run)
    → Referenced r
    → Referenced (take_result cfg name inf res r)
unfolding take_result
take_result-Referenced cfg name inf res r v k image x at q g =
    let s = settle cfg name (record res { waited = inf.waited }) in
    elim (Bool-cases (str_eq name k)) [
      | inl y ↦
          let same : s.res ≡ x =
            some_inj (ground (arith, y, at, lookup-insert name k s.res r.results)) in
          let own : image_node_name name ≡ some image =
            ap image_node_name ((eq_iff name k).0 y) ∙ q in
          let (ref, fixed) =
            settle-HasRef cfg name image (record res { waited = inf.waited }) own
              (ap node_green same ∙ g) in
          (
            lookup-add_ref s.ref r.image_refs image x.image
                (ref ∙ ap (λ z. some (image, z.image)) same),
            subst (λ z. is_immutable z.image ≡ true) same fixed,
          )
      | inr n ↦
          let old : lookup k r.results ≡ some x =
            ground (arith, n, at, lookup-insert name k s.res r.results) in
          let (ref, fixed) = v k image x old q g in
          (
            lookup-add_ref_ne s.ref r.image_refs image (λ p e.
                  elim (Bool-cases (str_eq p.0 image)) [
                    | inr f ↦ f
                    | inl y ↦
                        let own = settle-ref cfg name (record res { waited = inf.waited }) p e in
                        let same =
                          image_node_name-inj name k image (own ∙ ap some ((eq_iff p.0 image).0 y))
                            q in
                        cc (n, (eq_iff name k).1 same)
                  ])
                ∙ ref,
            fixed,
          )
    ]

waive_from-old :
    (notes : Bool) (reason : String) (i : ℕ) (cs : List Check) (m : Map CheckResult) (k : String)
    (x : CheckResult)
    → lookup k (waive_from notes reason i cs m) ≡ some x
    → node_green x ≡ true
    → lookup k m ≡ some x
unfolding waive_from
waive_from-old notes reason i [] m k x at g = at
waive_from-old notes reason i (c ∷ cs) m k x at g = elim (Bool-cases (is_kept notes c.name)) [
  | inl y ↦ waive_from-old notes reason (suc i) cs m k x (rw (y, waive_from) at at) g
  | inr n ↦
      let inner =
        waive_from-old notes reason (suc i) cs (insert c.name (waiver reason i c) m) k x
          (rw (n, waive_from) at at) g in
      elim (Bool-cases (str_eq c.name k)) [
        | inr f ↦ ground (arith, inner, f, lookup-insert c.name k (waiver reason i c) m)
        | inl e ↦
            let row : waiver reason i c ≡ x =
              some_inj (ground (arith, inner, e, lookup-insert c.name k (waiver reason i c) m)) in
            cc (node_green-status (waiver reason i c) (ap node_green row ∙ g))
      ]
]

start_checks-refs :
    (now n free : ℕ) (r : Run) → (start_checks now n free r.checks r).image_refs ≡ r.image_refs
unfolding start_check
start_checks-refs now n free r =
    (start_checks-keeps now (λ m s. s.image_refs ≡ r.image_refs) (λ m c s y p. p)
      (λ m c s p. elim (Bool-cases (has c.name s.ready_at)) [
        | inl h ↦ ground (arith, h, p)
        | inr h ↦ ground (arith, h, p)
      ])
      n free r.checks r refl).1

cull-refs : (now : ℕ) (r : Run) → (cull now r).image_refs ≡ r.image_refs
unfolding cull cancel_run
cull-refs now r = ground arith

conclude_red-refs : (r : Run) → (conclude_red r).image_refs ≡ r.image_refs
unfolding conclude_red materialize_checks
conclude_red-refs r = ground arith

conclude_green-refs : (cfg : Config) (r : Run) → (conclude_green cfg r).image_refs ≡ r.image_refs
unfolding conclude_green materialize_checks
conclude_green-refs cfg r = ground arith

advance_checks-refs :
    (cfg : Config) (t : Tick) (r : Run)
    → is_undecided r.verdict ≡ true
    → (advance_checks cfg t r).image_refs ≡ (consume cfg t.sent r.checks r).image_refs
unfolding advance_checks
advance_checks-refs cfg t r u =
    let c = culled cfg t r in
    let consumed = cull-refs t.now (consume cfg t.sent r.checks r) in
    elim (Bool-cases (str_eq c.culprit "")) [
      | inl y ↦
          let e : advance_checks cfg t r ≡ conclude_green cfg (begun cfg t r) =
            ground (arith, u, y) in
          ap (λ x. x.image_refs) e
          ∙ (conclude_green-refs cfg (begun cfg t r)
              ∙ (start_checks-refs t.now (c.max_parallel - length c.inflight) t.free c ∙ consumed))
      | inr n ↦
          let e : advance_checks cfg t r ≡ conclude_red c = ground (arith, u, n) in
          ap (λ x. x.image_refs) e ∙ (conclude_red-refs c ∙ consumed)
    ]

empty_lookup : (k : String) (x : CheckResult) → lookup k [] ≢ some x
unfolding lookup
empty_lookup k x h = cc h

consume-Referenced :
    (cfg : Config) (sent : Map CheckResult) (r : Run)
    → Referenced r
    → Referenced (consume cfg sent r.checks r)
consume-Referenced cfg sent r v =
    consume-keeps cfg sent Referenced (λ c. contains (names_of r.checks) c.name ≡ true)
      (λ c inf res s q f p. take_result-Referenced cfg c.name inf res s p) r.checks r
      (own_names r.checks) v

advance_checks-Referenced :
    (cfg : Config) (t : Tick) (r : Run) → Referenced r → Referenced (advance_checks cfg t r)
unfolding advance_checks
advance_checks-Referenced cfg t r v = elim (Bool-cases (is_undecided r.verdict)) [
  | inr d ↦ let e : r ≡ advance_checks cfg t r = ground (arith, d) in subst Referenced e v
  | inl u ↦
      let (_, same) = advance_checks-Same cfg t r u in
      let refs = advance_checks-refs cfg t r u in
      λ name image res at q g.
        let (ref, fixed) =
          consume-Referenced cfg t.sent r v name image res (ap (lookup name) (sym same) ∙ at) q g in
        (ap (lookup image) refs ∙ ref, fixed)
]

-- In every run that is reached, an image build with a green result has the reference of that result,
-- and the reference is immutable: a local image id or a digest, never a tag.
pub Reached-Referenced :
    (cfg : Config) (receipt_notes : Bool) (r : Run) (name image : String) (res : CheckResult)
    → Reached cfg receipt_notes r
    → lookup name r.results ≡ some res
    → image_node_name name ≡ some image
    → node_green res ≡ true
    → (lookup image r.image_refs ≡ some res.image) × (is_immutable res.image ≡ true)
unfolding bypass_checks
Reached-Referenced cfg notes r name image res h = reached r h name image res
  where
    reached : (s : Run) → Reached cfg notes s → Referenced s
    reached s (built s' n) =
        λ k i x at q g. absurd (empty_lookup k x (ap (lookup k) (sym n.empty) ∙ at))
    reached s (ticked s' t h') = advance_checks-Referenced cfg t s' (reached s' h')
    reached s (bypassed s' reason h') = λ k i x at q g.
        reached s' h' k i x (waive_from-old notes reason 0 s'.checks s'.results k x at g) q g
