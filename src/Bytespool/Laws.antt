-- ===== src/Bytespool/Laws.antt =====
-- bytespool/bytespool.go: sizes and capacities.
use multisocket.Prelude.{
  ℕ, ◌*◌, ◌≤◌, ◌<◌, ◌≡◌, refl, ◌≢◌, ◌⊎◌, inl, inr, List, [], ◌∷◌, length, leb, false, Bool-cases,
  length-take, length-replicate, arith, All,
}
use multisocket.Bytespool.{pools, alloc_from, alloc, cap_from, alloc_cap, free_into, free, IsHanded}

length-alloc_from :
    (get : ℕ → List ℕ) (ps : List ℕ) (sz : ℕ) → IsHanded get → length (alloc_from get ps sz) ≡ sz
unfolding alloc_from
length-alloc_from get [] sz h = length-replicate sz 0
length-alloc_from get (s ∷ ps) sz h =
    ground (arith, h s, length-take sz (get s), length-alloc_from get ps sz h)

-- A slice that is allocated has the length that was asked for.
pub length-alloc : (get : ℕ → List ℕ) (sz : ℕ) → IsHanded get → length (alloc get sz) ≡ sz
unfolding alloc
length-alloc get sz h = elim (Bool-cases (leb sz 0)) [
  | inl e ↦ rw e (ground arith)
  | inr e ↦ rw e (length-alloc_from get pools sz h)
]

free_into-All : (ps : List ℕ) (cap : ℕ) → All (λ s. s ≡ cap) (free_into ps cap)
unfolding free_into
free_into-All [] cap = tt
free_into-All (s ∷ ps) cap = ground (arith, free_into-All ps cap)

free_into-mem : (ps : List ℕ) (cap : ℕ) → (free_into (cap ∷ ps) cap) ≢ []
unfolding free_into
free_into-mem ps cap = ground arith

le-cap_from : (ps : List ℕ) (sz : ℕ) → sz ≤ cap_from ps sz
unfolding cap_from
le-cap_from [] sz = omega arith
le-cap_from (s ∷ ps) sz = ground (arith, le-cap_from ps sz)

cap_from-pooled :
    (ps : List ℕ) (sz : ℕ)
    → (free_into ps (cap_from ps sz) ≢ []) ⊎ ((cap_from ps sz ≡ sz) × All (λ s. s < sz) ps)
unfolding cap_from free_into
cap_from-pooled [] sz = inr (refl, tt)
cap_from-pooled (s ∷ ps) sz = ground (arith, cap_from-pooled ps sz)

free_into-none : (ps : List ℕ) (sz : ℕ) → All (λ s. s < sz) ps → free_into ps sz ≡ []
unfolding free_into
free_into-none [] sz h = refl
free_into-none (s ∷ ps) sz h = ground (arith, free_into-none ps sz h.1)

pools-le : (sz : ℕ) → 512 * 1024 < sz → All (λ s. s < sz) pools
unfolding pools
pools-le sz h = omega arith

pools-max : (sz : ℕ) → All (λ s. s < sz) pools → 512 * 1024 < sz
unfolding pools
pools-max sz h = omega arith

-- A slice of at most 512 KB is cut from an array that holds it, and Free puts it back into a pool,
-- only into pools of exactly its capacity.
pub alloc_free :
    (sz : ℕ)
    → 1 ≤ sz
    → sz ≤ 512 * 1024
    → (sz ≤ alloc_cap sz)
      × (free (alloc_cap sz) ≢ [])
      × All (λ s. s ≡ alloc_cap sz) (free (alloc_cap sz))
unfolding alloc_cap free
alloc_free sz h k =
    let positive : leb sz 0 ≡ false = ground arith in
    let fits = le-cap_from pools sz in
    let nonzero : leb (cap_from pools sz) 0 ≡ false = ground (arith, fits) in
    rw (positive, nonzero) (fits, kept (cap_from-pooled pools sz), free_into-All pools _)
  where
    kept :
        (free_into pools (cap_from pools sz) ≢ [])
          ⊎ ((cap_from pools sz ≡ sz) × All (λ s. s < sz) pools)
        → free_into pools (cap_from pools sz) ≢ []
    kept (inl e) = e
    kept (inr (e, all)) = absurd (omega (arith, pools-max sz all))

cap_from-none : (ps : List ℕ) (sz : ℕ) → All (λ s. s < sz) ps → cap_from ps sz ≡ sz
unfolding cap_from
cap_from-none [] sz h = refl
cap_from-none (s ∷ ps) sz h = ground (arith, cap_from-none ps sz h.1)

-- A larger slice is made for the call, has no room to spare, and Free leaves it to the collector.
pub alloc_large : (sz : ℕ) → 512 * 1024 < sz → (alloc_cap sz ≡ sz) × (free (alloc_cap sz) ≡ [])
unfolding alloc_cap free
alloc_large sz h =
    let positive : leb sz 0 ≡ false = ground arith in
    let all = pools-le sz h in
    let e = cap_from-none pools sz all in
    rw (positive, e, positive) (refl, free_into-none pools sz all)
