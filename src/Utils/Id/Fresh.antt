-- ===== src/Utils/Id/Fresh.antt =====
-- utils/id.go: the ids that NextID returns and those in use.
use multisocket.Prelude.{
  ℕ, zero, suc, ◌+◌, ◌^◌, ◌<◌, ◌≡◌, refl, ◌≢◌, false, Option, none, some, List, [], ◌∷◌, length,
  arith, if◌then◌else◌, ◌==◌,
}
use multisocket.Prelude.Bytes.{u32, IsU32}
use multisocket.Utils.Id.{
  RecyclableIdGenerator, contains, remove, next_loop, next_id, recycle, new_recyclable_id_generator,
}
use multisocket.Utils.Id.Search.{contains-remove}

next_loop_fresh :
    (fuel : ℕ) (g : RecyclableIdGenerator) (id : ℕ) (g' : RecyclableIdGenerator)
    → next_loop fuel g ≡ some (id, g')
    → (id ≢ 0) × (id < 2 ^ 31) × (contains g.ids id ≡ false) × (g'.ids ≡ id ∷ g.ids) × IsU32 g'.next
unfolding next_loop
next_loop_fresh zero g id g' e = absurd (cc)
next_loop_fresh (suc fuel) g id g' e =
    ground (arith, next_loop_fresh fuel (record g { next = u32 (g.next + 1) }) id g')

-- The id that NextID returns is not 0, fits 31 bits and was not in use; it is in use afterwards, with
-- the ids that were in use before, and the counter is a uint32.
pub next_id_fresh :
    (g : RecyclableIdGenerator) (id : ℕ) (g' : RecyclableIdGenerator)
    → next_id g ≡ some (id, g')
    → (id ≢ 0) × (id < 2 ^ 31) × (contains g.ids id ≡ false) × (g'.ids ≡ id ∷ g.ids) × IsU32 g'.next
unfolding next_id
next_id_fresh g id g' e = next_loop_fresh (length g.ids + 2) g id g' e

-- No id is in use twice.
abbrev pub IsDistinct : List ℕ → Type 0
IsDistinct [] = Unit {0}
IsDistinct (x ∷ xs) = (contains xs x ≡ false) × IsDistinct xs

remove-IsDistinct : (c : ℕ) (ids : List ℕ) → IsDistinct ids → IsDistinct (remove c ids)
unfolding remove
remove-IsDistinct c [] d = tt
remove-IsDistinct c (x ∷ ids) d =
    ground (arith, remove-IsDistinct c ids d.1, contains-remove c x ids)

-- The calls on a generator: a pipe takes an id, or gives one back.
pub data Use : Type 0 where
  takes : Use
  returns : ℕ → Use

after : RecyclableIdGenerator → Option (ℕ × RecyclableIdGenerator) → RecyclableIdGenerator
after g none = g
after g (some (id, g')) = g'

use_id : RecyclableIdGenerator → Use → RecyclableIdGenerator
unfolding after
use_id g takes = after g (next_id g)
use_id g (returns id) = recycle id g

pub use_ids : RecyclableIdGenerator → List Use → RecyclableIdGenerator
use_ids g [] = g
use_ids g (u ∷ us) = use_ids (use_id g u) us

after-IsDistinct :
    (g : RecyclableIdGenerator) (r : Option (ℕ × RecyclableIdGenerator))
    → next_id g ≡ r
    → IsDistinct g.ids
    → IsDistinct (after g r).ids
unfolding after
after-IsDistinct g none e d = d
after-IsDistinct g (some (id, g')) e d =
    let (nonzero, small, unused, now, wide) = next_id_fresh g id g' e in rw now (unused, d)

use_id-IsDistinct :
    (g : RecyclableIdGenerator) (u : Use) → IsDistinct g.ids → IsDistinct (use_id g u).ids
unfolding use_id
use_id-IsDistinct g takes d = after-IsDistinct g (next_id g) refl d
use_id-IsDistinct g (returns id) d = unfold recycle in remove-IsDistinct id g.ids d

use_ids-IsDistinct :
    (g : RecyclableIdGenerator) (us : List Use) → IsDistinct g.ids → IsDistinct (use_ids g us).ids
unfolding use_ids
use_ids-IsDistinct g [] d = d
use_ids-IsDistinct g (u ∷ us) d = use_ids-IsDistinct (use_id g u) us (use_id-IsDistinct g u d)

-- Whatever the history of NextID and Recycle calls on a new generator, the ids in use differ.
pub live_ids-IsDistinct : (us : List Use) → IsDistinct (use_ids new_recyclable_id_generator us).ids
unfolding new_recyclable_id_generator
live_ids-IsDistinct us = use_ids-IsDistinct _ us tt

-- An id that is given back leaves the set, and no other id does.
pub contains-recycle :
    (g : RecyclableIdGenerator) (id j : ℕ)
    → contains (recycle id g).ids j ≡ (if id == j then false else contains g.ids j)
unfolding recycle
contains-recycle g id j = contains-remove id j g.ids
