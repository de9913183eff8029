-- ===== src/Queue/CheckRun/Images.antt =====
-- queue/checkrun.go: an image build that a reached run calls green has an immutable reference.
use gauntlet.Config.Checks.Patterns.{codes}
use Prim.Native.Char.{code}
use text.Mathlib.TextEquality.{Char-path}
use gauntlet.Core.Types.{
  is_skipped, is_passed, CheckResult, CheckStatus, node_green, is_nil, passed, skipped, failed,
  blocked, waived,
}
use gauntlet.Queue.Captured.{
  RefResult, valid, bad_ref, valid_image_ref, is_immutable, has_blank, trim_space,
}
use gauntlet.Queue.CheckRun.{Config}
use gauntlet.Queue.CheckRun.Results.{Settled, settle_image, settle_ref}
use gauntlet.Queue.CheckSpec.{cut_prefix, image_node_name, image_node_prefix}
use gauntlet.Prelude.{
  ◌||◌, some_inj, String, some, true, refl, sym, ◌≡◌, ◌∙◌, arith, Bool-cases, inl, inr, str_eq, ap,
  subst, ◌==◌, ==_iff,
}

-- The text behind a prefix tells the text.
cut_prefix-inj : (s s' p t : String) → cut_prefix s p ≡ some t → cut_prefix s' p ≡ some t → s ≡ s'
unfolding cut_prefix
cut_prefix-inj s s' String.[] t h k = cc (h, k)
cut_prefix-inj String.[] s' (String.◌∷◌ d p) t h k = cc h
cut_prefix-inj (String.◌∷◌ c s) String.[] (String.◌∷◌ d p) t h k = cc k
cut_prefix-inj (String.◌∷◌ c s) (String.◌∷◌ c' s') (String.◌∷◌ d p) t h k =
    elim (Bool-cases (code c == code d)) [
      | inr n ↦ cc (rw n at h)
      | inl e ↦ elim (Bool-cases (code c' == code d)) [
        | inr n ↦ cc (rw n at k)
        | inl e' ↦
            let first : c ≡ c' =
              Char-path c c'
                ((==_iff (code c) (code d)).0 e ∙ sym ((==_iff (code c') (code d)).0 e')) in
            let rest : s ≡ s' = cut_prefix-inj s s' p t (rw e at h) (rw e' at k) in cc (first, rest)
      ]
    ]

pub image_node_name-inj :
    (s s' image : String)
    → image_node_name s ≡ some image
    → image_node_name s' ≡ some image
    → s ≡ s'
unfolding image_node_name
image_node_name-inj s s' image h k = cut_prefix-inj s s' image_node_prefix image h k

valid_image_ref-immutable :
    (raw ref : String) → valid_image_ref raw ≡ valid ref → is_immutable ref ≡ true
unfolding valid_image_ref
valid_image_ref-immutable raw ref h = elim (Bool-cases (is_immutable (trim_space raw))) [
  | inl y ↦ elim (Bool-cases (str_eq (trim_space raw) "")) [
    | inl e ↦ cc (rw (e, valid_image_ref) at h)
    | inr e ↦ elim (Bool-cases (has_blank (codes (trim_space raw)))) [
      | inl b ↦ cc (rw (e, b, valid_image_ref) at h)
      | inr b ↦
          let same : valid (trim_space raw) ≡ valid ref = rw (e, b, y, valid_image_ref) at h in
          subst (λ x. is_immutable x ≡ true) (valid_inj same) y
    ]
  ]
  | inr n ↦ ground (arith, h, n)
]
  where
    valid_inj : {a b : String} → valid a ≡ valid b → a ≡ b
    valid_inj e = cc e

-- What a green result of an image build says of the reference.
abbrev pub HasRef : String → Settled → Type 0
HasRef image s = (s.ref ≡ some (image, s.res.image)) × (is_immutable s.res.image ≡ true)

settle_ref-HasRef :
    (cfg : Config) (image : String) (res : CheckResult) (v : RefResult)
    → ((ref : String) → v ≡ valid ref → is_immutable ref ≡ true)
    → node_green (settle_ref cfg image res v).res ≡ true
    → HasRef image (settle_ref cfg image res v)
unfolding node_green
settle_ref-HasRef cfg image res (valid ref) i g = (refl, i ref refl)
settle_ref-HasRef cfg image res (bad_ref e) i g = ground (arith, g)

pub node_green-status :
    (res : CheckResult)
    → node_green res ≡ true
    → (is_passed res.status || is_skipped res.status) ≡ true
unfolding node_green
node_green-status res g = ground (arith, g)

pub node_green-nil : (res : CheckResult) → node_green res ≡ true → is_nil res.err ≡ true
unfolding node_green
node_green-nil res g = ground (arith, g)

pub settle_image-HasRef :
    (cfg : Config) (image : String) (res : CheckResult) (status : CheckStatus)
    → res.status ≡ status
    → node_green (settle_image cfg image res).res ≡ true
    → HasRef image (settle_image cfg image res)
unfolding settle_image
settle_image-HasRef cfg image res passed q g =
    let e : settle_ref cfg image res (valid_image_ref res.image) ≡ settle_image cfg image res =
      ground (arith, q) in
    subst (HasRef image) e (
      settle_ref-HasRef cfg image res (valid_image_ref res.image)
        (λ ref v. valid_image_ref-immutable res.image ref v) (ap (λ s. node_green s.res) e ∙ g))
settle_image-HasRef cfg image res skipped q g =
    let n = node_green-status (settle_image cfg image res).res g in cc (rw (settle_image, q) at n)
settle_image-HasRef cfg image res failed q g =
    let n = node_green-status (settle_image cfg image res).res g in cc (rw (settle_image, q) at n)
settle_image-HasRef cfg image res blocked q g =
    let n = node_green-status (settle_image cfg image res).res g in cc (rw (settle_image, q) at n)
settle_image-HasRef cfg image res waived q g =
    let n = node_green-status (settle_image cfg image res).res g in cc (rw (settle_image, q) at n)

settle_ref-ref :
    (cfg : Config) (image : String) (res : CheckResult) (v : RefResult) (at : String × String)
    → (settle_ref cfg image res v).ref ≡ some at
    → at.0 ≡ image
settle_ref-ref cfg image res (valid ref) at h = ap (λ x. x.0) (sym (some_inj h))
settle_ref-ref cfg image res (bad_ref e) at h = cc h

pub settle_image-ref :
    (cfg : Config) (image : String) (res : CheckResult) (status : CheckStatus)
    (at : String × String)
    → res.status ≡ status
    → (settle_image cfg image res).ref ≡ some at
    → at.0 ≡ image
unfolding settle_image
settle_image-ref cfg image res passed at q h =
    let e : settle_ref cfg image res (valid_image_ref res.image) ≡ settle_image cfg image res =
      ground (arith, q) in
    settle_ref-ref cfg image res (valid_image_ref res.image) at (ap (λ s. s.ref) e ∙ h)
settle_image-ref cfg image res skipped at q h = cc (rw (settle_image, q) at h)
settle_image-ref cfg image res failed at q h = cc (rw (settle_image, q) at h)
settle_image-ref cfg image res blocked at q h = cc (rw (settle_image, q) at h)
settle_image-ref cfg image res waived at q h = cc (rw (settle_image, q) at h)
