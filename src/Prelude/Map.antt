-- ===== src/Prelude/Map.antt =====
-- Go maps with text keys, as association lists. Where the source ranges over a map the order is not
-- fixed; the list's order stands for the one of a run.
use native.Mathlib.Omega.{arith}
use mathlib.Core.Bool.{Bool}
use mathlib.Core.List.{List, [], ◌∷◌}
use mathlib.Core.Path.{◌≡◌, refl}
use mathlib.Core.Option.{Option, none, some}
use text.Mathlib.Text.{◌==◌}
use kube_sre_mcp.Prelude.Tests.{if◌then◌else◌}
use text.Mathlib.TextEquality.{eq_iff}
use text.Mathlib.TextPositions.{eq_refl}
use Prim.Native.String.{String}

abbrev pub StringMap {ℓ} : Type ℓ → Type ℓ
StringMap V = List (String × V)

module _ {ℓ} {V : Type ℓ} where
  -- m[k], where `none` says that the key is missing
  unfoldable pub lookup : String → StringMap V → Option V
  lookup key [] = none
  lookup key ((i, held) ∷ entries) =
      let later = lookup key entries in if i == key then some held else later

  -- delete(m, k)
  unfoldable pub remove : String → StringMap V → StringMap V
  remove k [] = []
  remove k ((j, v) ∷ m) = let rest = remove k m in if j == k then rest else (j, v) ∷ rest

  -- m[k] = v
  unfoldable pub insert : String → V → StringMap V → StringMap V
  unfolding remove
  insert key new entries = (key, new) ∷ remove key entries

  -- the values that a test rejects are deleted
  unfoldable pub keep : (V → Bool) → StringMap V → StringMap V
  keep p [] = []
  keep p ((j, v) ∷ m) = let rest = keep p m in if p v then (j, v) ∷ rest else rest

  pub lookup-remove :
      (k j : String) (m : StringMap V)
      → lookup j (remove k m) ≡ (if k == j then none else lookup j m)
  unfolding lookup remove
  lookup-remove k j [] = ground arith
  lookup-remove k j ((i, v) ∷ m) =
      ground (arith, lookup-remove k j m, eq_iff i k, eq_iff i j, eq_iff k j)

  pub lookup-insert :
      (key j : String) (new : V) (entries : StringMap V)
      → lookup j (insert key new entries) ≡ (if key == j then some new else lookup j entries)
  unfolding lookup insert
  lookup-insert key j new entries = ground (arith, lookup-remove key j entries)

  -- a key that is bound once has its value kept or dropped; a second binding of it never shows
  abbrev pub HasUniqueKeys : StringMap V → Type ℓ
  HasUniqueKeys [] = Unit
  HasUniqueKeys ((k, _) ∷ m) = (lookup k m ≡ none) × HasUniqueKeys m

  pub lookup-keep-none :
      (p : V → Bool) (j : String) (m : StringMap V) → lookup j m ≡ none → lookup j (keep p m) ≡ none
  unfolding lookup keep
  lookup-keep-none p j [] h = refl
  lookup-keep-none p j ((i, v) ∷ m) h = ground (arith, lookup-keep-none p j m)

  pub lookup-keep :
      (p : V → Bool) (j : String) (m : StringMap V)
      → HasUniqueKeys m
      → lookup j (keep p m)
        ≡ (elim (lookup j m) [ none ↦ none | some v ↦ if p v then some v else none ])
  unfolding lookup keep
  lookup-keep p j [] u = refl
  lookup-keep p j ((i, v) ∷ m) (n, u) =
      ground (arith, eq_iff i j, lookup-keep p j m u, lookup-keep-none p i m n)

  pub remove-HasUniqueKeys :
      (k : String) (m : StringMap V) → HasUniqueKeys m → HasUniqueKeys (remove k m)
  unfolding lookup remove
  remove-HasUniqueKeys k [] u = tt
  remove-HasUniqueKeys k ((i, w) ∷ m) (n, u) =
      ground (arith, eq_iff i k, eq_iff k i, lookup-remove k i m, remove-HasUniqueKeys k m u)

  pub insert-HasUniqueKeys :
      (key : String) (new : V) (entries : StringMap V)
      → HasUniqueKeys entries
      → HasUniqueKeys (insert key new entries)
  unfolding insert
  insert-HasUniqueKeys key new entries u = (
    ground (arith, lookup-remove key key entries, eq_refl key),
    remove-HasUniqueKeys key entries u,
  )

  pub keep-HasUniqueKeys :
      (p : V → Bool) (m : StringMap V) → HasUniqueKeys m → HasUniqueKeys (keep p m)
  unfolding keep
  keep-HasUniqueKeys p [] u = tt
  keep-HasUniqueKeys p ((i, w) ∷ m) (n, u) =
      ground (arith, lookup-keep-none p i m n, keep-HasUniqueKeys p m u)
