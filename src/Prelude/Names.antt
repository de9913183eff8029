-- ===== src/Prelude/Names.antt =====
-- Lists of names in which none is repeated and none was seen before: what a loop over a set of
-- seen names tests.
use Prim.Native.String.{String}
use mathlib.Core.Path.{◌≡◌, refl}
use mathlib.Core.Logic.{◌↔◌}
use mathlib.Core.Bool.{true, false}
use mathlib.Core.List.{List, [], ◌∷◌}
use native.Mathlib.Omega.{arith}
use text.Mathlib.TextEquality.{eq_iff}
use gauntlet.Prelude.Lists.{All, All-map, contains, Unrepeated}

abbrev pub Fresh : List String → List String → Type 0
Fresh seen xs = All (λ x. contains seen x ≡ false) xs × Unrepeated xs

avoids :
    (seen : List String) (x : String) (ys : List String)
    → All (λ y. contains (x ∷ seen) y ≡ false) ys
    → All (λ y. contains seen y ≡ false) ys × (contains ys x ≡ false)
avoids seen x [] a = (tt, refl)
avoids seen x (y ∷ ys) a =
    let (b, c) = avoids seen x ys a.1 in
    ((ground (arith, a.0), b), ground (arith, a.0, c, eq_iff y x, eq_iff x y))

adds :
    (seen : List String) (x : String) (ys : List String)
    → All (λ y. contains seen y ≡ false) ys
    → contains ys x ≡ false
    → All (λ y. contains (x ∷ seen) y ≡ false) ys
adds seen x [] a c = tt
adds seen x (y ∷ ys) a c =
    (ground (arith, a.0, c, eq_iff y x, eq_iff x y), adds seen x ys a.1 (ground (arith, c)))

-- The step of the loop.
pub Fresh-cons :
    (seen : List String) (x : String) (xs : List String)
    → Fresh seen (x ∷ xs) ↔ ((contains seen x ≡ false) × Fresh (x ∷ seen) xs)
Fresh-cons seen x xs = (
  λ f. (f.0.0, (adds seen x xs f.0.1 f.1.0, f.1.1)),
  λ f. let (a, b) = avoids seen x xs f.1.0 in ((f.0, a), (b, f.1.1)),
)

pub Fresh-nil : (xs : List String) → Unrepeated xs → Fresh [] xs
Fresh-nil xs u = (each xs, u)
  where
    each : (ys : List String) → All (λ y. contains [] y ≡ false) ys
    each [] = tt
    each (y ∷ ys) = (refl, each ys)

pub All-contains : (xs : List String) → All (λ x. contains xs x ≡ true) xs
All-contains [] = tt
All-contains (x ∷ xs) =
    (ground (arith, eq_iff x x), All-map (λ y m. ground (arith, m)) xs (All-contains xs))
