-- ===== src/Prelude/Assoc.antt =====
-- Go's maps with integer keys, as association lists; a key stands at most once where the list was
-- built by `insert` and `remove`.
use Prim.Native.Nat.{ℕ}
use mathlib.Core.Path.{◌≡◌, refl}
use mathlib.Core.Option.{Option, none, some}
use mathlib.Core.List.{List, [], ◌∷◌}
use native.Mathlib.Omega.{arith}
use chirpstack_network_serve.Prelude.Tests.{◌==◌, if◌then◌else◌}

abbrev pub Assoc {ℓ} : Type ℓ → Type ℓ
Assoc V = List (ℕ × V)

module _ {ℓ} {V : Type ℓ} where
  -- value, ok := entries[key]
  unfoldable pub lookup : ℕ → Assoc V → Option V
  lookup key [] = none
  lookup key ((i, value) ∷ entries) = if i == key then some value else lookup key entries

  -- entries[key] = value
  unfoldable pub insert : ℕ → V → Assoc V → Assoc V
  insert key value [] = (key, value) ∷ []
  insert key value ((i, old) ∷ entries) =
      let rest = insert key value entries in
      if i == key then (key, value) ∷ entries else (i, old) ∷ rest

  -- delete(entries, key)
  unfoldable pub remove : ℕ → Assoc V → Assoc V
  remove key [] = []
  remove key ((i, value) ∷ entries) =
      let rest = remove key entries in if i == key then rest else (i, value) ∷ rest

  pub lookup-insert :
      (key other : ℕ) (value : V) (entries : Assoc V)
      → lookup other (insert key value entries)
        ≡ (if key == other then some value else lookup other entries)
  unfolding insert lookup
  lookup-insert key other value [] = refl
  lookup-insert key other value (e ∷ entries) =
      ground (arith, lookup-insert key other value entries)

  pub lookup-remove :
      (key other : ℕ) (entries : Assoc V)
      → lookup other (remove key entries) ≡ (if key == other then none else lookup other entries)
  unfolding remove lookup
  lookup-remove key other [] = ground arith
  lookup-remove key other (e ∷ entries) = ground (arith, lookup-remove key other entries)
