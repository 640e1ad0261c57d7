-- ===== src/Base/Map.antt =====
-- A Go map with string keys, as an association list.
use Prim.Native.String.{String}
use mathlib.Core.Path.{◌≡◌, refl, ap}
use mathlib.Core.Logic.{inl, inr}
use mathlib.Core.Option.{Option, none, some, none-ne-some}
use mathlib.Core.List.{List, [], ◌∷◌}
use native.Mathlib.Omega.{arith}
use metalwatch.Base.Tests.{if◌then◌else◌, Bool-cases, str_eq, eq_iff}
use metalwatch.Base.Lists.{Among, found, later}

abbrev pub Map {ℓ} : Type ℓ → Type ℓ
Map V = List (String × V)

module _ {ℓ} {V : Type ℓ} where
  unfoldable pub lookup : String → Map V → Option V
  lookup key [] = none
  lookup key ((at, held) ∷ rest) = if str_eq at key then some held else lookup key rest

  unfoldable pub insert : String → V → Map V → Map V
  insert key new [] = (key, new) ∷ []
  insert key new ((at, held) ∷ rest) =
      let later = insert key new rest in
      if str_eq at key then (key, new) ∷ rest else (at, held) ∷ later

  -- `delete(m, k)`
  unfoldable pub erase : String → Map V → Map V
  erase key [] = []
  erase key ((at, held) ∷ rest) =
      let later = erase key rest in if str_eq at key then later else (at, held) ∷ later

  pub lookup-insert :
      (key other : String) (new : V) (m : Map V)
      → lookup other (insert key new m) ≡ (if str_eq key other then some new else lookup other m)
  unfolding lookup insert
  lookup-insert key other new [] = refl
  lookup-insert key other new ((at, held) ∷ rest) =
      ground
        (arith, lookup-insert key other new rest, eq_iff at other, eq_iff at key, eq_iff key other)

  pub lookup-erase :
      (key other : String) (m : Map V)
      → lookup other (erase key m) ≡ (if str_eq key other then none else lookup other m)
  unfolding lookup erase
  lookup-erase key other [] = ground arith
  lookup-erase key other ((at, held) ∷ rest) =
      ground (arith, lookup-erase key other rest, eq_iff at other, eq_iff at key, eq_iff key other)

  pub lookup-insert_twice :
      (key other : String) (new old : V) (m : Map V)
      → lookup other (insert key new (insert key old m))
        ≡ (if str_eq key other then some new else lookup other m)
  lookup-insert_twice key other new old m =
      ground (arith, lookup-insert key other new (insert key old m), lookup-insert key other old m)

  -- No key stands twice.
  abbrev pub HasUniqueKeys : Map V → Type ℓ
  HasUniqueKeys [] = Unit {ℓ}
  HasUniqueKeys ((at, held) ∷ rest) = (lookup at rest ≡ none) × HasUniqueKeys rest

  pub insert-HasUniqueKeys :
      (key : String) (new : V) (m : Map V) → HasUniqueKeys m → HasUniqueKeys (insert key new m)
  unfolding insert lookup
  insert-HasUniqueKeys key new [] u = (refl, tt)
  insert-HasUniqueKeys key new ((at, held) ∷ rest) (n, u) = elim (Bool-cases (str_eq at key)) [
    | inl same ↦
        rw same (ground (arith, n, ap (λ (k : String). lookup k rest) ((eq_iff at key).0 same)), u)
    | inr other ↦ rw other (
      ground (arith, lookup-insert key at new rest, n, other, eq_iff at key, eq_iff key at),
      insert-HasUniqueKeys key new rest u,
    )
  ]

  pub lookup-Among : (key : String) (v : V) (m : Map V) → lookup key m ≡ some v → Among (key, v) m
  unfolding lookup
  lookup-Among key v [] e = absurd (none-ne-some v e)
  lookup-Among key v ((at, held) ∷ rest) e = elim (Bool-cases (str_eq at key)) [
    | inl same ↦ found (ground (arith, e, same, eq_iff at key))
    | inr other ↦ later (lookup-Among key v rest (ground (arith, e, other)))
  ]

  -- Every entry is the one that a lookup finds.
  pub Among-lookup :
      (key : String) (v : V) (m : Map V)
      → HasUniqueKeys m
      → Among (key, v) m
      → lookup key m ≡ some v
  unfolding lookup
  Among-lookup key v ((at, held) ∷ rest) (n, u) (found e) = ground (arith, e, eq_iff at key)
  Among-lookup key v ((at, held) ∷ rest) (n, u) (later m) =
      let there = Among-lookup key v rest u m in
      ground (arith, there, n, eq_iff at key, ap (λ (k : String). lookup k rest))
  Among-lookup key v [] u m = elim m [ ]
