-- ===== src/Utils/Id.antt =====
-- utils/id.go: RecyclableIDGenerator, which hands out the ids of pipes.
pub mod Search
pub mod Fresh
use multisocket.Prelude.{
  ℕ, zero, suc, ◌+◌, ◌%◌, ◌^◌, Bool, true, false, Option, none, some, List, [], ◌∷◌, length, ◌==◌,
  ◌||◌, not, ◌&&◌, if◌then◌else◌,
}
use multisocket.Prelude.Bytes.{u32}

-- The set of ids in use, and the uint32 counter.
pub record RecyclableIdGenerator : Type 0 where
  pub ids : List ℕ
  pub next : ℕ

unfoldable pub contains : List ℕ → ℕ → Bool
contains [] id = false
contains (x ∷ xs) id = x == id || contains xs id

unfoldable pub remove : ℕ → List ℕ → List ℕ
remove id [] = []
remove id (x ∷ xs) = if x == id then remove id xs else x ∷ remove id xs

unfoldable pub new_recyclable_id_generator : RecyclableIdGenerator
new_recyclable_id_generator = record { ids = []; next = 0 }

-- `id = g.next & 0x7fffffff` keeps the low 31 bits.
abbrev pub id_bits : ℕ → ℕ
id_bits next = next % 2 ^ 31

-- An id that the loop returns: not 0, and not in use.
abbrev pub is_free : List ℕ → ℕ → Bool
is_free ids id = not (id == 0) && not (contains ids id)

-- The `for` loop of NextID, `fuel` rounds at most. `none` means that the fuel ran out.
unfoldable pub next_loop : ℕ → RecyclableIdGenerator → Option (ℕ × RecyclableIdGenerator)
next_loop zero g = none
next_loop (suc fuel) g =
    let id = id_bits g.next in
    let next = u32 (g.next + 1) in
    let again = next_loop fuel (record g { next = next }) in
    if is_free g.ids id then some (id, record { ids = id ∷ g.ids; next = next }) else again

-- The fuel is two rounds more than there are ids in use.
unfoldable pub next_id : RecyclableIdGenerator → Option (ℕ × RecyclableIdGenerator)
unfolding next_loop
next_id g = next_loop (length g.ids + 2) g

unfoldable pub recycle : ℕ → RecyclableIdGenerator → RecyclableIdGenerator
unfolding remove
recycle id g = record g { ids = remove id g.ids }
