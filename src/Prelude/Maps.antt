-- ===== src/Prelude/Maps.antt =====
-- A Go map with string keys as an association list in which a key stands at most once.
use Prim.Native.Nat.{◌+◌}
use Prim.Native.String.{String}
use mathlib.Core.Path.{◌≡◌}
use mathlib.Core.Bool.{Bool, true, false}
use mathlib.Core.List.{List, [], ◌∷◌}
use mathlib.Core.Option.{Option, none, some}
use native.Mathlib.Omega.{arith}
use text.Mathlib.Text.{◌==◌ as str_eq}
use text.Mathlib.TextEquality.{eq_iff}
use gauntlet.Prelude.Tests.{if◌then◌else◌}
use gauntlet.Prelude.Lists.{length}

abbrev pub Map {ℓ} : Type ℓ → Type ℓ
Map V = List (String × V)

module _ {ℓ} {V : Type ℓ} where
  -- `v, ok := entries[key]`
  unfoldable pub lookup : String → Map V → Option V
  lookup key [] = none
  lookup key ((at, value) ∷ entries) = elim (str_eq at key) [
    | true ↦ some value
    | false ↦ lookup key entries
  ]

  abbrev pub has : String → Map V → Bool
  has key entries = elim (lookup key entries) [ none ↦ false | some _ ↦ true ]

  -- `delete(entries, key)`
  unfoldable pub erase : String → Map V → Map V
  erase key [] = []
  erase key ((at, value) ∷ entries) =
      let rest = erase key entries in if str_eq at key then rest else (at, value) ∷ rest

  -- `entries[key] = new`
  unfoldable pub insert : String → V → Map V → Map V
  insert key new [] = (key, new) ∷ []
  insert key new ((at, old) ∷ entries) = elim (str_eq at key) [
    | true ↦ (at, new) ∷ entries
    | false ↦ (at, old) ∷ insert key new entries
  ]

  pub lookup-erase :
      (gone key : String) (entries : Map V)
      → lookup key (erase gone entries) ≡ (if str_eq gone key then none else lookup key entries)
  unfolding lookup erase
  lookup-erase gone key [] = ground arith
  lookup-erase gone key ((at, value) ∷ entries) =
      ground (arith, lookup-erase gone key entries, eq_iff gone key, eq_iff at gone, eq_iff at key)

  -- `len(entries)` grows by one at a new key.
  pub length-insert :
      (key : String) (new : V) (entries : Map V)
      → lookup key entries ≡ none
      → length (insert key new entries) ≡ length entries + 1
  unfolding lookup insert
  length-insert key new [] h = omega arith
  length-insert key new ((at, old) ∷ entries) h = ground (arith, length-insert key new entries)

  -- A write shows at its key only.
  pub lookup-insert :
      (written key : String) (new : V) (entries : Map V)
      → lookup key (insert written new entries)
        ≡ (if str_eq written key then some new else lookup key entries)
  unfolding lookup insert
  lookup-insert written key new [] = ground arith
  lookup-insert written key new ((at, old) ∷ entries) = ground (
    arith,
    lookup-insert written key new entries,
    eq_iff written key,
    eq_iff at key,
    eq_iff at written,
  )
