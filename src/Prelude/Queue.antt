-- ===== src/Prelude/Queue.antt =====
-- Buffered Go channels, oldest entry first.
use mathlib.Core.List.{List, [], ◌∷◌, ◌++◌}
use mathlib.Core.Option.{Option, none, some}
use mathlib.Core.Bool.{Bool, true}
use Prim.Native.Nat.{ℕ, ◌≤◌}
use mathlib.Core.Path.{◌≡◌}
use native.Mathlib.Omega.{arith}
use multisocket.Prelude.Tests.{ltb}
use multisocket.Prelude.Lists.{length, length-append}

pub record Chan {ℓ} (A : Type ℓ) : Type ℓ where
  pub size : ℕ
  pub items : List A

module _ {ℓ} {A : Type ℓ} where
  abbrev pub make : ℕ → Chan A
  make n = record { size = n; items = [] }

  -- A send on the channel can proceed without a waiting receiver.
  abbrev pub has_room : Chan A → Bool
  has_room c = ltb (length c.items) c.size

  abbrev pub enqueue : A → Chan A → Chan A
  enqueue a c = record c { items = c.items ++ (a ∷ []) }

  abbrev pub dequeue_list : List A → Option (A × List A)
  dequeue_list [] = none
  dequeue_list (x ∷ xs) = some (x, xs)

  abbrev pub IsBounded : Chan A → Type 0
  IsBounded c = length c.items ≤ c.size

  pub enqueue-IsBounded : (a : A) (c : Chan A) → has_room c ≡ true → IsBounded (enqueue a c)
  enqueue-IsBounded a c h = ground (arith, length-append c.items (a ∷ []))
