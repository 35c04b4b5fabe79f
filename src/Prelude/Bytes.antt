-- ===== src/Prelude/Bytes.antt =====
-- Byte slices as lists of numbers below 256: Go's `copy`, sub-slices, big-endian words.
use mathlib.Core.List.{List, [], ◌∷◌, ◌++◌, append_assoc}
use mathlib.Core.Path.{◌≡◌, refl, ap, sym, ◌∙◌}
use Prim.Native.Nat.{ℕ, suc, ◌+◌, ◌-◌, ◌*◌, ◌/◌, ◌%◌, ◌^◌, ◌<◌}
use native.Mathlib.Omega.{arith}
use multisocket.Prelude.Lists.{
  length, take, drop, length-append, take-append, drop-append, length-take, length-drop,
  take-append-drop,
}

abbrev pub IsByte : ℕ → Type 0
IsByte b = b < 256

abbrev pub IsU32 : ℕ → Type 0
IsU32 v = v < 2 ^ 32

-- uint8 arithmetic wraps.
abbrev pub u8 : ℕ → ℕ
u8 n = n % 2 ^ 8

abbrev pub u32 : ℕ → ℕ
u32 n = n % 2 ^ 32

-- The builtin `copy(dst, src)`: the shorter of the two decides.
unfoldable pub copy : List ℕ → List ℕ → List ℕ
copy [] src = []
copy (d ∷ ds) [] = d ∷ ds
copy (d ∷ ds) (s ∷ src) = s ∷ copy ds src

pub copy-same : (dst src : List ℕ) → length dst ≡ length src → copy dst src ≡ src
unfolding copy
copy-same [] [] h = refl
copy-same [] (s ∷ src) h = absurd (omega arith)
copy-same (d ∷ ds) [] h = absurd (omega arith)
copy-same (d ∷ ds) (s ∷ src) h = ap (◌∷◌ s) (copy-same ds src (omega arith))

pub length-copy : (dst src : List ℕ) → length (copy dst src) ≡ length dst
unfolding copy
length-copy [] src = refl
length-copy (d ∷ ds) [] = refl
length-copy (d ∷ ds) (s ∷ src) = ap suc (length-copy ds src)

-- buf[from:to]
unfoldable pub slice : List ℕ → ℕ → ℕ → List ℕ
slice buf from to = take (to - from) (drop from buf)

-- copy(buf[from:to], src), as a change of buf.
unfoldable pub copy_at : List ℕ → ℕ → ℕ → List ℕ → List ℕ
unfolding slice
copy_at buf from to src = take from buf ++ (copy (slice buf from to) src ++ drop to buf)

-- binary.BigEndian.PutUint32 and Uint32.
unfoldable pub put_u32 : ℕ → List ℕ
put_u32 v = v / 2 ^ 24 % 256 ∷ v / 2 ^ 16 % 256 ∷ v / 2 ^ 8 % 256 ∷ v % 256 ∷ []

unfoldable pub get_u32 : List ℕ → ℕ
get_u32 (a ∷ b ∷ c ∷ d ∷ rest) = a * 2 ^ 24 + b * 2 ^ 16 + c * 2 ^ 8 + d
get_u32 _ = 0

pub get_u32-put_u32 : (v : ℕ) (rest : List ℕ) → IsU32 v → get_u32 (put_u32 v ++ rest) ≡ v
unfolding get_u32 put_u32
get_u32-put_u32 v rest h = omega arith

pub length-put_u32 : (v : ℕ) → length (put_u32 v) ≡ 4
unfolding put_u32
length-put_u32 v = refl

pub copy-append : (dst src rest : List ℕ) → length dst ≡ length src → copy dst (src ++ rest) ≡ src
unfolding copy
copy-append [] [] rest h = refl
copy-append [] (s ∷ src) rest h = absurd (omega arith)
copy-append (d ∷ ds) [] rest h = absurd (omega arith)
copy-append (d ∷ ds) (s ∷ src) rest h = ap (◌∷◌ s) (copy-append ds src rest (omega arith))

-- Any list of n + k bytes is one of n and one of k.
pub split_at :
    (n k : ℕ) (buf : List ℕ)
    → length buf ≡ n + k
    → (a b : List ℕ) × (buf ≡ a ++ b) × (length a ≡ n) × (length b ≡ k)
split_at n k buf h = (
  take n buf,
  drop n buf,
  sym (take-append-drop n buf),
  omega (arith, length-take n buf),
  omega (arith, length-drop n buf),
)

-- A slice that is one of three parts, and a copy into it.
module _ (a b c : List ℕ) (from to : ℕ) (starts : from ≡ length a)
    (ends : to ≡ from + length b) where
  pub slice-parts : slice (a ++ (b ++ c)) from to ≡ b
  unfolding slice
  slice-parts =
      ap (take (to - from)) (drop-append from a (b ++ c) starts)
      ∙ take-append (to - from) b c (omega arith)

  drop-parts : drop to (a ++ (b ++ c)) ≡ c
  drop-parts =
      ap (drop to) (sym (append_assoc a b c))
      ∙ drop-append to (a ++ b) c (omega (arith, length-append a b))

  pub copy_at-parts : (src : List ℕ) → copy_at (a ++ (b ++ c)) from to src ≡ a ++ (copy b src ++ c)
  unfolding copy_at
  copy_at-parts src = rw (take-append from a (b ++ c) starts, slice-parts, drop-parts) refl
