-- ===== src/Queue/CheckSpec/Names.antt =====
-- queue/checkspec.go, config/checks.go: the names of a run's nodes tell images, checks and the
-- receipt apart.
use Prim.Native.Char.{code}
use Prim.Native.String.{char_at, ◌++◌ as str_append}
use Prim.Native.String.append
use text.Mathlib.Text.{starts_with}
use text.Mathlib.TextEquality.{Char-path}
use text.Mathlib.TextPositions.{starts_with_of_prefix}
use gauntlet.Config.Checks.{CheckSpec, Check, Image, Receipt}
use gauntlet.Config.Checks.Validate.{check_check_names, validate}
use gauntlet.Queue.CheckSpec.{
  cut_prefix, image_node, receipt_node, image_node_prefix, receipt_node_prefix, image_node_name,
  receipt_node_name, build_node, check_node,
}
use gauntlet.Prelude.{
  All-map, some_inj, String, Option, List, [], ◌∷◌, none, some, false, sym, ◌≡◌, ◌∙◌, ap, All,
  arith, Bool-cases, Option-cases, inl, inr, ◌==◌, ==_iff,
}

cut_prefix-append : (p s : String) → cut_prefix (str_append p s) p ≡ some s
unfolding cut_prefix
cut_prefix-append String.[] s = ap some (append.nil s)
cut_prefix-append (String.◌∷◌ d p) s =
    ap (λ x. cut_prefix x (String.◌∷◌ d p)) (append.cons d p s)
    ∙ ground (arith, cut_prefix-append p s)

cut_prefix-some : (s p t : String) → cut_prefix s p ≡ some t → str_append p t ≡ s
unfolding cut_prefix
cut_prefix-some s String.[] t h = append.nil t ∙ sym (some_inj h)
cut_prefix-some String.[] (String.◌∷◌ d p) t h = cc h
cut_prefix-some (String.◌∷◌ c s) (String.◌∷◌ d p) t h = elim (Bool-cases (code c == code d)) [
  | inr n ↦ cc (rw n at h)
  | inl e ↦
      let first : c ≡ d = Char-path c d ((==_iff (code c) (code d)).0 e) in
      let rest : str_append p t ≡ s = cut_prefix-some s p t (rw e at h) in
      append.cons d p t ∙ cc (first, rest)
]

-- A name without a prefix is not cut.
cut_prefix-none : (s p : String) → starts_with s p ≡ false → cut_prefix s p ≡ none
cut_prefix-none s p f = elim (Option-cases (cut_prefix s p)) [
  | inl n ↦ n
  | inr (t, h) ↦ cc (f, starts_with_of_prefix p s (t, cut_prefix-some s p t h))
]

image_node-decode :
    (n : String)
    → (image_node_name (image_node n) ≡ some n) × (receipt_node_name (image_node n) ≡ none)
unfolding image_node_name receipt_node_name cut_prefix
image_node-decode n = (
  cut_prefix-append image_node_prefix n,
  ap (λ x. cut_prefix x receipt_node_prefix) (append.cons (char_at "i" 0) "mage:" n),
)

receipt_node-decode :
    (n : String)
    → (receipt_node_name (receipt_node n) ≡ some n) × (image_node_name (receipt_node n) ≡ none)
unfolding image_node_name receipt_node_name cut_prefix
receipt_node-decode n = (
  cut_prefix-append receipt_node_prefix n,
  ap (λ x. cut_prefix x image_node_prefix) (append.cons (char_at "r" 0) "eceipt:" n),
)

unprefixed :
    (workspace : String) (seen : List String) (cs : List Check)
    → check_check_names workspace seen cs ≡ none
    → All (λ c. (starts_with c.name "image:" ≡ false) × (starts_with c.name "receipt:" ≡ false)) cs
unfolding check_check_names
unprefixed workspace seen [] h = tt
unprefixed workspace seen (c ∷ cs) h = (
  (ground (arith, h), ground (arith, h)),
  unprefixed workspace (c.name ∷ seen) cs (ground (arith, h)),
)

validate-check_names :
    (to_upper : String → String) (spec : CheckSpec)
    → validate to_upper spec ≡ none
    → check_check_names spec.workspace [] spec.checks ≡ none
unfolding validate
validate-check_names to_upper spec h = ground (arith, h)

-- What the name of a node is decoded to: an image, a receipt, or neither.
abbrev pub Decodes : String → Option String → Option String → Type 0
Decodes node image receipt = (image_node_name node ≡ image) × (receipt_node_name node ≡ receipt)

-- In the run of a valid spec the name of an image's node is decoded to that image, the receipt's to
-- that receipt, and a check's to neither.
pub validate-Decodes :
    (to_upper : String → String) (spec : CheckSpec)
    → validate to_upper spec ≡ none
    → All (λ i. Decodes (build_node i).name (some i.name) none) spec.images
      × (All (λ c. Decodes (check_node c).name none none) spec.checks
          × All (λ r. Decodes (receipt_node r.name) none (some r.name)) spec.receipts)
unfolding image_node_name receipt_node_name
validate-Decodes to_upper spec h = (
  images spec.images,
  (
    All-map
        (λ c p. (
          cut_prefix-none c.name image_node_prefix p.0,
          cut_prefix-none c.name receipt_node_prefix p.1,
        ))
        spec.checks
        (unprefixed spec.workspace [] spec.checks (validate-check_names to_upper spec h)),
    receipts spec.receipts,
  ),
)
  where
    images : (is : List Image) → All (λ i. Decodes (build_node i).name (some i.name) none) is
    images [] = tt
    images (i ∷ is) = (image_node-decode i.name, images is)

    receipts : (rs : List Receipt) → All (λ r. Decodes (receipt_node r.name) none (some r.name)) rs
    receipts [] = tt
    receipts (r ∷ rs) = let d = receipt_node-decode r.name in ((d.1, d.0), receipts rs)
