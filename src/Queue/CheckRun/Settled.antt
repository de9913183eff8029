-- ===== src/Queue/CheckRun/Settled.antt =====
-- queue/checkrun.go: the reference that a result of an image build adds to the run.
use gauntlet.Core.Types.{CheckResult, node_green, is_nil}
use gauntlet.Queue.CheckRun.{Config}
use gauntlet.Queue.CheckRun.Images.{node_green-nil, HasRef, settle_image-HasRef, settle_image-ref}
use gauntlet.Queue.CheckRun.Results.{settle, settle_image, settle_receipt, add_ref}
use gauntlet.Queue.CheckSpec.{image_node_name, receipt_node_name}
use gauntlet.Prelude.{
  String, Option, none, some, true, false, refl, sym, ◌≡◌, ◌∙◌, Map, lookup, lookup-insert, arith,
  Bool-cases, Option-cases, inl, inr, str_eq, eq_iff, ap, subst, some_inj,
}

pub settle-HasRef :
    (cfg : Config) (name image : String) (res : CheckResult)
    → image_node_name name ≡ some image
    → node_green (settle cfg name res).res ≡ true
    → HasRef image (settle cfg name res)
unfolding settle
settle-HasRef cfg name image res q g = elim (Bool-cases (is_nil res.err)) [
  | inl n ↦
      let e : settle_image cfg image res ≡ settle cfg name res = ground (arith, n, q) in
      subst (HasRef image) e
        (settle_image-HasRef cfg image res res.status refl (ap (λ s. node_green s.res) e ∙ g))
  | inr n ↦
      let e : res ≡ (settle cfg name res).res = ground (arith, n) in
      cc (node_green-nil res (ap node_green e ∙ g), n)
]

settle_receipt-ref :
    (cfg : Config) (name : String) (res : CheckResult) → (settle_receipt cfg name res).ref ≡ none
unfolding settle_receipt
settle_receipt-ref cfg name res = ground arith

pub settle-ref :
    (cfg : Config) (name : String) (res : CheckResult) (at : String × String)
    → (settle cfg name res).ref ≡ some at
    → image_node_name name ≡ some at.0
unfolding settle
settle-ref cfg name res at h = elim (Bool-cases (is_nil res.err)) [
  | inr n ↦ cc (rw (n, settle) at h)
  | inl n ↦ elim (Option-cases (image_node_name name)) [
    | inl i ↦ elim (Option-cases (receipt_node_name name)) [
      | inl p ↦ cc (rw (n, i, p, settle) at h)
      | inr (rcp, p) ↦
          let q : (settle_receipt cfg rcp res).ref ≡ some at = rw (n, i, p, settle) at h in
          cc (settle_receipt-ref cfg rcp res, q)
    ]
    | inr (image, i) ↦
        let q : (settle_image cfg image res).ref ≡ some at = rw (n, i, settle) at h in
        i ∙ ap some (sym (settle_image-ref cfg image res res.status at refl q))
  ]
]

pub lookup-add_ref :
    (o : Option (String × String)) (refs : Map String) (image ref : String)
    → o ≡ some (image, ref)
    → lookup image (add_ref o refs) ≡ some ref
lookup-add_ref none refs image ref h = cc h
lookup-add_ref (some (i, x)) refs image ref h =
    let a : i ≡ image = ap (λ p. p.0) (some_inj h) in
    let b : x ≡ ref = ap (λ p. p.1) (some_inj h) in
    ground (arith, lookup-insert i image x refs, eq_iff i image, a, b)

pub lookup-add_ref_ne :
    (o : Option (String × String)) (refs : Map String) (image : String)
    → ((at : String × String) → o ≡ some at → str_eq at.0 image ≡ false)
    → lookup image (add_ref o refs) ≡ lookup image refs
lookup-add_ref_ne none refs image f = refl
lookup-add_ref_ne (some (i, x)) refs image f =
    ground (arith, lookup-insert i image x refs, f (i, x) refl)
