-- ===== src/Bytespool.antt =====
-- bytespool/bytespool.go: pools of byte slices by capacity.
pub mod Laws
use multisocket.Prelude.{
  ℕ, zero, suc, ◌+◌, ◌*◌, List, [], ◌∷◌, ◌++◌, length, take, replicate, leb, ◌==◌, if◌then◌else◌,
  Bool, true, false, ◌≡◌,
}

-- `for i := 2; i <= 64; i++ { pools = append(pools, newPoolInfo(i*8*1024)) }`, `n` rounds from `i`.
unfoldable pub init_loop : ℕ → ℕ → List ℕ
init_loop zero i = []
init_loop (suc n) i = i * 8 * 1024 ∷ init_loop n (i + 1)

-- The sizes of the pools, in order.
unfoldable pub pools : List ℕ
unfolding init_loop
pools =
    (4
      ∷ 8
      ∷ 16
      ∷ 32
      ∷ 64
      ∷ 128
      ∷ 256
      ∷ 512
      ∷ 1024
      ∷ 2 * 1024
      ∷ 4 * 1024
      ∷ 8 * 1024
      ∷ 16 * 1024
      ∷ [])
    ++ init_loop 63 2

-- `get s` is the array that the pool of size `s` hands out: a used one, or a new one.
unfoldable pub alloc_from : (ℕ → List ℕ) → List ℕ → ℕ → List ℕ
alloc_from get [] sz = replicate sz 0
alloc_from get (s ∷ ps) sz = if leb sz s then take sz (get s) else alloc_from get ps sz

unfoldable pub alloc : (ℕ → List ℕ) → ℕ → List ℕ
unfolding alloc_from
alloc get sz = if leb sz 0 then [] else alloc_from get pools sz

-- The capacity of what `alloc` returns: that of the pool's array.
unfoldable pub cap_from : List ℕ → ℕ → ℕ
cap_from [] sz = sz
cap_from (s ∷ ps) sz = if leb sz s then s else cap_from ps sz

unfoldable pub alloc_cap : ℕ → ℕ
unfolding cap_from
alloc_cap sz = if leb sz 0 then 0 else cap_from pools sz

-- The pools that `Free` of a slice of capacity `cap` puts the slice into.
unfoldable pub free_into : List ℕ → ℕ → List ℕ
free_into [] cap = []
free_into (s ∷ ps) cap = if cap == s then s ∷ free_into ps cap else free_into ps cap

unfoldable pub free : ℕ → List ℕ
unfolding free_into
free cap = if leb cap 0 then [] else free_into pools cap

-- The arrays of a pool have its capacity: what sync.Pool hands out was put there or is new.
abbrev pub IsHanded : (ℕ → List ℕ) → Type 0
IsHanded get = (s : ℕ) → length (get s) ≡ s
