-- ===== src/Options/Numbers.antt =====
-- What the options use of Go's strings and strconv: texts as bytes, ToLower on ASCII, decimal numbers.
use multisocket.Prelude.{
  ℕ, zero, suc, ◌+◌, ◌-◌, ◌*◌, ◌^◌, ◌<◌, ◌≡◌, Bool, true, false, Option, none, some, List, [], ◌∷◌,
  map, ltb, leb, ◌==◌, ◌&&◌, if◌then◌else◌, arith, ◌↔◌,
}
use multisocket.Prelude.Int.{ℤ, pos, negsuc, in_range}

abbrev pub Text : Type 0
Text = List ℕ

abbrev pub text_eq : Text → Text → Bool
text_eq [] [] = true
text_eq [] (b ∷ t) = false
text_eq (a ∷ s) [] = false
text_eq (a ∷ s) (b ∷ t) = a == b && text_eq s t

pub text_eq_iff : (s t : Text) → (text_eq s t ≡ true) ↔ (s ≡ t)
text_eq_iff [] [] = ground arith
text_eq_iff [] (b ∷ t) = ground arith
text_eq_iff (a ∷ s) [] = ground arith
text_eq_iff (a ∷ s) (b ∷ t) = ground (arith, text_eq_iff s t)

abbrev pub lower : ℕ → ℕ
lower c = if leb b'A' c && leb c b'Z' then c + 32 else c

abbrev pub to_lower : Text → Text
to_lower = map lower

-- The digits of a number, after `n`.
unfoldable pub digits_from : ℕ → Text → Option ℕ
digits_from n [] = some n
digits_from n (c ∷ s) =
    let rest = digits_from (n * 10 + (c - b'0')) s in
    if leb b'0' c && leb c b'9' then rest else none

unfoldable pub digits : Text → Option ℕ
unfolding digits_from
digits [] = none
digits (c ∷ s) = digits_from 0 (c ∷ s)

abbrev pub check_size : ℕ → Option ℕ → Option ℕ
check_size limit none = none
check_size limit (some n) = if ltb n limit then some n else none

-- strconv.ParseUint(s, 10, bits)
unfoldable pub parse_uint : ℕ → Text → Option ℕ
unfolding digits
parse_uint bits s = check_size (2 ^ bits) (digits s)

abbrev pub signed : Bool → ℕ → ℤ
signed true zero = pos 0
signed true (suc n) = negsuc n
signed false n = pos n

abbrev pub check_sign : ℕ → Bool → Option ℕ → Option ℤ
check_sign cutoff neg none = none
check_sign cutoff neg (some n) =
    if (if neg then leb n cutoff else ltb n cutoff) then some (signed neg n) else none

-- strconv.ParseInt(s, 10, bits): a sign, and digits within the range.
unfoldable pub parse_int : ℕ → Text → Option ℤ
unfolding digits
parse_int bits [] = none
parse_int bits (c ∷ s) =
    let cutoff = 2 ^ (bits - 1) in
    if c == b'-'
    then check_sign cutoff true (digits s)
    else if c == b'+'
    then check_sign cutoff false (digits s)
    else check_sign cutoff false (digits (c ∷ s))

pub parse_uint-lt : (bits n : ℕ) (s : Text) → parse_uint bits s ≡ some n → n < 2 ^ bits
unfolding parse_uint
parse_uint-lt bits n s e = ground arith

pub check_sign-in_range :
    (cutoff : ℕ) (neg : Bool) (o : Option ℕ) (x : ℤ)
    → 0 < cutoff
    → check_sign cutoff neg o ≡ some x
    → in_range cutoff (cutoff - 1) x ≡ true
check_sign-in_range cutoff neg none x h e = absurd (cc)
check_sign-in_range cutoff true (some zero) x h e = ground arith
check_sign-in_range cutoff true (some (suc n)) x h e = ground arith
check_sign-in_range cutoff false (some n) x h e = ground arith

pub parse_int-in_range :
    (cutoff bits : ℕ) (x : ℤ) (s : Text)
    → cutoff ≡ 2 ^ (bits - 1)
    → 0 < cutoff
    → parse_int bits s ≡ some x
    → in_range cutoff (cutoff - 1) x ≡ true
unfolding parse_int
parse_int-in_range cutoff bits x [] c h e = absurd (cc)
parse_int-in_range cutoff bits x (b ∷ s) c h e = ground (
  arith,
  check_sign-in_range cutoff true (digits s) x,
  check_sign-in_range cutoff false (digits s) x,
  check_sign-in_range cutoff false (digits (b ∷ s)) x,
)
