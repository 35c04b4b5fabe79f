-- ===== src/Utils/Id/Search.antt =====
-- utils/id.go: the loop of NextID.
use multisocket.Prelude.{
  ℕ, zero, suc, ◌+◌, ◌^◌, ◌≤◌, ◌<◌, ◌≡◌, true, false, none, some, List, [], ◌∷◌, length, ◌==◌,
  if◌then◌else◌, arith, inl, inr, Option-cases,
}
use multisocket.Prelude.Bytes.{u32}
use multisocket.Utils.Id.{RecyclableIdGenerator, contains, remove, id_bits, next_loop, next_id}

pub contains-remove :
    (c x : ℕ) (ids : List ℕ)
    → contains (remove c ids) x ≡ (if c == x then false else contains ids x)
unfolding contains remove
contains-remove c x [] = ground arith
contains-remove c x (y ∷ ids) = ground (arith, contains-remove c x ids)

length-remove-le : (c : ℕ) (ids : List ℕ) → length (remove c ids) ≤ length ids
unfolding remove
length-remove-le c [] = omega arith
length-remove-le c (y ∷ ids) = ground (arith, length-remove-le c ids)

length-remove-lt :
    (c : ℕ) (ids : List ℕ) → contains ids c ≡ true → length (remove c ids) < length ids
unfolding contains remove
length-remove-lt c [] h = absurd (cc)
length-remove-lt c (y ∷ ids) h = ground (arith, length-remove-le c ids, length-remove-lt c ids)

-- Pigeonhole: a set that holds `n` numbers in a row, up to the wrap at 2 ^ 31, has `n` entries.
run_of_used :
    (n start : ℕ) (ids : List ℕ)
    → n ≤ 2 ^ 31
    → ((i : ℕ) → i < n → contains ids (id_bits (start + i)) ≡ true)
    → n ≤ length ids
run_of_used zero start ids h used = omega arith
run_of_used (suc n) start ids h used =
    let c = id_bits (start + 0) in
    let rest =
      run_of_used n (start + 1) (remove c ids) (omega arith)
        (λ i lt. later i lt (used (suc i) (omega arith))) in
    omega (arith, rest, length-remove-lt c ids (used 0 (omega arith)))
  where
    later :
        (i : ℕ)
        → i < n
        → contains ids (id_bits (start + suc i)) ≡ true
        → contains (remove (id_bits (start + 0)) ids) (id_bits (start + 1 + i)) ≡ true
    later i lt e =
        ground (arith, contains-remove (id_bits (start + 0)) (id_bits (start + 1 + i)) ids, e)

-- Where the loop runs out of rounds, each number that it tried was 0 or in use.
next_loop-none :
    (fuel : ℕ) (g : RecyclableIdGenerator)
    → next_loop fuel g ≡ none
    → (i : ℕ) → i < fuel
    → contains (0 ∷ g.ids) (id_bits (g.next + i)) ≡ true
unfolding next_loop contains
next_loop-none zero g e i h = elim h [ ]
next_loop-none (suc fuel) g e zero h = ground arith
next_loop-none (suc fuel) g e (suc i) h =
    ground (arith, next_loop-none fuel (record g { next = u32 (g.next + 1) }) (ground arith) i)

-- While fewer than 2 ^ 31 - 1 ids are in use, the loop of NextID ends, within two rounds more than
-- there are ids in use.
pub next_id_total :
    (g : RecyclableIdGenerator)
    → length g.ids + 2 ≤ 2 ^ 31
    → (r : ℕ × RecyclableIdGenerator) × (next_id g ≡ some r)
unfolding next_id
next_id_total g h = elim (Option-cases (next_loop (length g.ids + 2) g)) [
  | inl e ↦ absurd (
      omega (
        arith,
        run_of_used (length g.ids + 2) g.next (0 ∷ g.ids) h (next_loop-none (length g.ids + 2) g e),
      ))
  | inr (r, e) ↦ (r, e)
]
