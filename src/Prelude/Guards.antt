-- ===== src/Prelude/Guards.antt =====
-- A validation is an optional error: the first that a check finds.
use mathlib.Core.Path.{◌≡◌, refl}
use mathlib.Core.Bool.{Bool, true, false}
use mathlib.Core.Option.{Option, none, some}

-- The error of the first check or, if it passes, of the second.
infixr 20 ◌<|>◌
abbrev pub ◌<|>◌ {ℓ} : {E : Type ℓ} → Option E → Option E → Option E
some e <|> o = some e
none <|> o = o

-- `if test { return e }`
abbrev pub reject_if {ℓ} : {E : Type ℓ} → Bool → E → Option E
reject_if true e = some e
reject_if false e = none

pub <|>-eq-none {ℓ} : {E : Type ℓ} (o p : Option E) → (o <|> p) ≡ none → (o ≡ none) × (p ≡ none)
<|>-eq-none none p h = (refl, h)
<|>-eq-none (some e) p h = cc h

pub reject_if-eq-none {ℓ} : {E : Type ℓ} (b : Bool) (e : E) → reject_if b e ≡ none → b ≡ false
reject_if-eq-none true e h = cc h
reject_if-eq-none false e h = refl
