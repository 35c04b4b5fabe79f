-- ===== src/Options/Values.antt =====
-- options/options.go: what Validate and Parse return.
use multisocket.Prelude.{
  ◌-◌, ◌^◌, ◌<◌, ◌≤◌, ◌≡◌, refl, ◌≢◌, Bool, true, false, Option, none, some, ltb, arith, ◌⊎◌, inl,
  inr, Bool-cases,
}
use mathlib.Core.Option
use multisocket.Prelude.Int.{ℤ, pos, in_range}
use multisocket.Options.Numbers.{Text, parse_int, parse_uint, parse_uint-lt, parse_int-in_range}
use multisocket.Options.{
  Value, Kind, fit, validate, parse, parse_bool, any_option, bool_option, string_option,
  time_duration_option, int_option, uint8_option, uint16_option, uint32_option, int32_option, bool,
  string, duration, int, int32, int64, uint8, uint16, uint32, uint64,
}

-- The value lies in the range of its Go type.
abbrev pub IsGo : Value → Type 0
IsGo (duration x) = in_range (2 ^ 63) (2 ^ 63 - 1) x ≡ true
IsGo (int x) = in_range (2 ^ 63) (2 ^ 63 - 1) x ≡ true
IsGo (int32 x) = in_range (2 ^ 31) (2 ^ 31 - 1) x ≡ true
IsGo (int64 x) = in_range (2 ^ 63) (2 ^ 63 - 1) x ≡ true
IsGo (uint8 x) = x < 2 ^ 8
IsGo (uint16 x) = x < 2 ^ 16
IsGo (uint32 x) = x < 2 ^ 32
IsGo (uint64 x) = x < 2 ^ 64
IsGo v = Unit {0}

-- The dynamic type that the option's `Value` method asserts.
abbrev pub is_of : Kind → Value → Bool
is_of any_option v = true
is_of bool_option (bool b) = true
is_of string_option (string s) = true
is_of time_duration_option (duration d) = true
is_of int_option (int x) = true
is_of uint8_option (uint8 x) = true
is_of uint16_option (uint16 x) = true
is_of uint32_option (uint32 x) = true
is_of int32_option (int32 x) = true
is_of k v = false

-- The number that a value stands for.
abbrev pub number : Value → Option ℤ
number (int x) = some x
number (int32 x) = some x
number (int64 x) = some x
number (uint8 x) = some (pos x)
number (uint16 x) = some (pos x)
number (uint32 x) = some (pos x)
number (uint64 x) = some (pos x)
number v = none

-- What Validate lets through has the option's type and lies in that type's range, so that the type
-- assertion of the option's Value method does not panic; and validating it again changes nothing.
pub validate_typed :
    (k : Kind) (v w : Value)
    → IsGo v
    → validate k v ≡ some w
    → (is_of k w ≡ true) × IsGo w × (validate k w ≡ some w)
unfolding validate
validate_typed any_option v w g e = ground arith
validate_typed bool_option v w g e = ground arith
validate_typed string_option v w g e = ground arith
validate_typed time_duration_option v w g e = ground arith
validate_typed int_option v w g e = ground arith
validate_typed uint8_option v w g e = ground arith
validate_typed uint16_option v w g e = ground arith
validate_typed uint32_option v w g e = ground arith
validate_typed int32_option v w g e = ground arith

-- A uint64 that is too large for a uint32.
abbrev pub IsWide : Kind → Value → Type 0
IsWide uint32_option (uint64 n) = 2 ^ 32 ≤ n
IsWide k v = ⊥

fit_keeps : (b : Bool) (v w : Value) → fit b v ≡ some w → (b ≡ true) × (v ≡ w)
fit_keeps true v w e = (refl, ground arith)
fit_keeps false v w e = absurd (cc)

-- Validate keeps the number that it is given, whatever integer type that has, except that a uint32
-- option takes a uint64 of 2 ^ 32 or more and keeps its low 32 bits only, another number.
pub validate-number :
    (k : Kind) (v w : Value)
    → IsGo v
    → validate k v ≡ some w
    → (number w ≡ number v) ⊎ (IsWide k v × (number w ≢ number v))
unfolding validate
validate-number any_option v w g e = inl (cc)
validate-number bool_option (bool b) w g e = inl (ground arith)
validate-number bool_option v w g e = inl (ground arith)
validate-number string_option v w g e = inl (ground arith)
validate-number time_duration_option v w g e = inl (ground arith)
validate-number int_option v w g e = inl (ground arith)
validate-number uint8_option v w g e = inl (ground arith)
validate-number uint16_option v w g e = inl (ground arith)
validate-number uint32_option (uint64 n) w g e = elim (Bool-cases (ltb n (2 ^ 32))) [
  | inl h ↦ inl (ground arith)
  | inr h ↦ inr (ground arith, λ same. ground arith)
]
validate-number uint32_option v w g e = inl (ground arith)
validate-number int32_option v w g e = inl (ground arith)

parse_bool-IsBool :
    (s : Text) (v : Value)
    → parse_bool s ≡ some v
    → (validate bool_option v ≡ some v) × (is_of bool_option v ≡ true)
unfolding parse_bool validate
parse_bool-IsBool s v e = ground arith

map-some {ℓ κ} :
    {A : Type ℓ} {B : Type κ} (f : A → B) (o : Option A) {b : B}
    → Option.map f o ≡ some b
    → (a : A) × (o ≡ some a) × (f a ≡ b)
map-some f none e = absurd (cc)
map-some f (some a) e = (a, refl, ground arith)

-- A text that an option parses makes a value that the same option validates, of the option's type and
-- with the number that was parsed. time.ParseDuration is a parameter: nothing is assumed of it.
pub validate-parse :
    (parse_duration : Text → Option ℤ) (k : Kind) (s : Text) (v : Value)
    → parse parse_duration k s ≡ some v
    → (w : Value) × (validate k v ≡ some w) × (is_of k w ≡ true) × (number w ≡ number v)
unfolding parse
validate-parse pd any_option s v e = (v, unfold validate in refl, refl, refl)
validate-parse pd bool_option s v e =
    let (same, typed) = parse_bool-IsBool s v e in (v, same, typed, refl)
validate-parse pd string_option s v e = (v, unfold validate in ground arith, ground arith, refl)
validate-parse pd time_duration_option s v e =
    let (d, _, f) = map-some duration (pd s) e in
    (v, unfold validate in ground (arith, f), ground (arith, f), refl)
validate-parse pd int_option s v e =
    let (x, p, f) = map-some int64 (parse_int 64 s) e in
    (int x, unfold validate in ground (arith, f), refl, ground (arith, f))
validate-parse pd uint8_option s v e =
    let (x, p, f) = map-some uint64 (parse_uint 8 s) e in
    (uint8 x, unfold validate in ground (arith, f, parse_uint-lt 8 x s p), refl, ground (arith, f))
validate-parse pd uint16_option s v e =
    let (x, p, f) = map-some uint64 (parse_uint 16 s) e in
    (
      uint16 x,
      unfold validate in ground (arith, f, parse_uint-lt 16 x s p),
      refl,
      ground (arith, f),
    )
validate-parse pd uint32_option s v e =
    let (x, p, f) = map-some uint64 (parse_uint 32 s) e in
    (
      uint32 x,
      unfold validate in ground (arith, f, parse_uint-lt 32 x s p),
      refl,
      ground (arith, f),
    )
validate-parse pd int32_option s v e =
    let (x, p, f) = map-some int64 (parse_int 32 s) e in
    (
      int32 x,
      unfold validate in
          ground (arith, f, parse_int-in_range (2 ^ 31) 32 x s (omega arith) (omega arith) p),
      refl,
      ground (arith, f),
    )

-- A value that was validated is validated to itself.
pub validate_again : (k : Kind) (v w : Value) → validate k v ≡ some w → validate k w ≡ some w
unfolding validate
validate_again any_option v w e = ground arith
validate_again bool_option v w e = ground arith
validate_again string_option v w e = ground arith
validate_again time_duration_option v w e = ground arith
validate_again int_option v w e = ground arith
validate_again uint8_option v w e = ground arith
validate_again uint16_option v w e = ground arith
validate_again uint32_option v w e = ground arith
validate_again int32_option v w e = ground arith
