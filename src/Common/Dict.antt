-- ===== src/Common/Dict.antt =====
-- std::map with numbers for keys: its entries in the order of their keys.
use jules_solidity_pppascal.Common.Tests.{ltb, ◌==◌, if◌then◌else◌}
use Prim.Native.Nat.{ℕ}
use mathlib.Core.List.{List, [], ◌∷◌}
use mathlib.Core.Option.{Option, none, some}
use mathlib.Core.Path.{◌≡◌, refl}
use native.Mathlib.Omega.{arith}

module _ {ℓ} {V : Type ℓ} where
  -- find
  unfoldable pub lookup : ℕ → List (ℕ × V) → Option V
  lookup key [] = none
  lookup key ((known, value) ∷ entries) = if known == key then some value else lookup key entries

  -- m[k] = v
  unfoldable pub insert : ℕ → V → List (ℕ × V) → List (ℕ × V)
  insert k v [] = (k, v) ∷ []
  insert k v ((j, w) ∷ m) =
      let later = insert k v m in
      if ltb k j then (k, v) ∷ (j, w) ∷ m else if j == k then (k, v) ∷ m else (j, w) ∷ later

  -- What is found after a write.
  pub lookup-insert :
      (written k : ℕ) (new : V) (entries : List (ℕ × V))
      → lookup k (insert written new entries)
        ≡ (if written == k then some new else lookup k entries)
  unfolding lookup insert
  lookup-insert written k new [] = refl
  lookup-insert written k new (entry ∷ entries) =
      ground (arith, lookup-insert written k new entries)
