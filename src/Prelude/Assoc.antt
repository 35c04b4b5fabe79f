-- ===== src/Prelude/Assoc.antt =====
-- Go's maps with integer keys, as association lists: a write replaces, a deletion of a missing key
-- does nothing, `len` counts the entries.
use mathlib.Core.List.{List, [], ◌∷◌}
use mathlib.Core.Option.{Option, none, some}
use mathlib.Core.Path.{◌≡◌, refl}
use Prim.Native.Nat.{ℕ, ◌+◌, ◌≤◌}
use native.Mathlib.Omega.{arith}
use multisocket.Prelude.Tests.{◌==◌, if◌then◌else◌}
use multisocket.Prelude.Lists.{length}

module _ {ℓ} {V : Type ℓ} where
  unfoldable pub lookup : ℕ → List (ℕ × V) → Option V
  lookup key [] = none
  lookup key ((k, val) ∷ rest) = if k == key then some val else lookup key rest

  unfoldable pub insert : ℕ → V → List (ℕ × V) → List (ℕ × V)
  insert key new [] = (key, new) ∷ []
  insert key new ((k, val) ∷ rest) =
      if k == key then (k, new) ∷ rest else (k, val) ∷ insert key new rest

  unfoldable pub delete : ℕ → List (ℕ × V) → List (ℕ × V)
  delete key [] = []
  delete key ((k, val) ∷ rest) = if k == key then delete key rest else (k, val) ∷ delete key rest

  pub lookup-insert :
      (key other : ℕ) (new : V) (m : List (ℕ × V))
      → lookup other (insert key new m) ≡ (if key == other then some new else lookup other m)
  unfolding lookup insert
  lookup-insert key other new [] = refl
  lookup-insert key other new ((k, val) ∷ rest) = ground (arith, lookup-insert key other new rest)

  pub lookup-delete :
      (key other : ℕ) (m : List (ℕ × V))
      → lookup other (delete key m) ≡ (if key == other then none else lookup other m)
  unfolding lookup delete
  lookup-delete key other [] = ground arith
  lookup-delete key other ((k, val) ∷ rest) = ground (arith, lookup-delete key other rest)

  pub length-insert :
      (key : ℕ) (new : V) (m : List (ℕ × V)) → length (insert key new m) ≤ length m + 1
  unfolding insert
  length-insert key new [] = omega arith
  length-insert key new ((k, val) ∷ rest) = ground (arith, length-insert key new rest)

  pub length-delete : (key : ℕ) (m : List (ℕ × V)) → length (delete key m) ≤ length m
  unfolding delete
  length-delete key [] = omega arith
  length-delete key ((k, val) ∷ rest) = ground (arith, length-delete key rest)
