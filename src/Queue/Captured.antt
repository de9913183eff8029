-- ===== src/Queue/Captured.antt =====
-- internal/queue/checkspec.go: the tests of a captured image reference and of a receipt. An error is
-- a value, with the text that it quotes.
use gauntlet.Queue.CheckSpec.{cut_prefix}
use Prim.Native.Char.{code}
use gauntlet.Config.Checks.Patterns.{codes, in_range, is_digit}
use gauntlet.TestReport.{is_space}
use gauntlet.Prelude.{
  ℕ, ltb, Bool, String, Option, List, [], ◌∷◌, none, some, true, false, ◌||◌, ◌&&◌, str_eq, ◌==◌,
  elem, length, if◌then◌else◌,
}

-- `strings.TrimSpace`
unfoldable pub trim_left : String → String
trim_left String.[] = String.[]
trim_left (String.◌∷◌ c s) =
    let rest = trim_left s in if is_space (code c) then rest else String.◌∷◌ c s

unfoldable pub trim_right : String → String
trim_right String.[] = String.[]
trim_right (String.◌∷◌ c s) =
    let rest = trim_right s in
    if is_space (code c) && str_eq rest "" then String.[] else String.◌∷◌ c rest

unfoldable pub trim_space : String → String
trim_space s = trim_left (trim_right s)

pub data RefFault : Type 0 where
  no_reference : RefFault
  several_references : String → RefFault
  mutable_reference : String → RefFault

-- `strings.ContainsAny(ref, " \t\n\r")`
unfoldable pub has_blank : List ℕ → Bool
has_blank [] = false
has_blank (c ∷ cs) = elem c (32 ∷ 9 ∷ 10 ∷ 13 ∷ []) || has_blank cs

unfoldable pub all_hex : List ℕ → Bool
all_hex [] = true
all_hex (c ∷ cs) = (is_digit c || in_range 97 102 c) && all_hex cs

-- The text behind `sha256:` in both patterns.
unfoldable pub is_digest : Option String → Bool
is_digest none = false
is_digest (some s) = (length (codes s) == 64) && all_hex (codes s)

-- `^sha256:[0-9a-f]{64}$`
unfoldable pub is_local_image_id : String → Bool
is_local_image_id s = is_digest (cut_prefix s "sha256:")

-- `[a-zA-Z0-9._/:-]`
abbrev pub is_repo_code : ℕ → Bool
is_repo_code c =
    in_range 97 122 c || in_range 65 90 c || is_digit c || elem c (46 ∷ 95 ∷ 47 ∷ 58 ∷ 45 ∷ [])

-- `^[a-zA-Z0-9._/:-]+@sha256:[0-9a-f]{64}$`; the Boolean says that a letter of the name was read.
unfoldable pub is_digest_ref : Bool → String → Bool
is_digest_ref named String.[] = false
is_digest_ref named (String.◌∷◌ c s) =
    let rest = is_digest_ref true s in
    let behind = is_local_image_id s in
    if code c == 64 then named && behind else is_repo_code (code c) && rest

unfoldable pub is_immutable : String → Bool
is_immutable ref = is_local_image_id ref || is_digest_ref false ref

pub data RefResult : Type 0 where
  valid : String → RefResult
  bad_ref : RefFault → RefResult

unfoldable pub valid_image_ref : String → RefResult
valid_image_ref raw =
    let ref = trim_space raw in
    if str_eq ref ""
    then bad_ref no_reference
    else if has_blank (codes ref)
    then bad_ref (several_references ref)
    else if is_immutable ref
    then valid ref
    else bad_ref (mutable_reference ref)

pub data ReceiptFault : Type 0 where
  unreadable_receipt empty_receipt : ReceiptFault
  oversize_receipt : ℕ → ℕ → ReceiptFault

pub data ReceiptResult : Type 0 where
  payload : List ℕ → ReceiptResult
  bad_receipt : ReceiptFault → ReceiptResult

-- A ceiling that is not positive is 0.
unfoldable pub valid_receipt : Option (List ℕ) → ℕ → ReceiptResult
valid_receipt none max_bytes = bad_receipt unreadable_receipt
valid_receipt (some []) max_bytes = bad_receipt empty_receipt
valid_receipt (some (b ∷ raw)) max_bytes =
    if ltb 0 max_bytes && ltb max_bytes (length (b ∷ raw))
    then bad_receipt (oversize_receipt max_bytes (length (b ∷ raw)))
    else payload (b ∷ raw)
