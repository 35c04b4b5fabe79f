-- ===== src/Options.antt =====
-- options/options.go: the kinds of options, their values, `Validate` and `Parse`.
pub mod Numbers
pub mod Registry
pub mod Sets
pub mod Values
use multisocket.Prelude.{
  ℕ, zero, suc, ◌+◌, ◌-◌, ◌*◌, ◌%◌, ◌^◌, ◌<◌, ◌≤◌, ◌≡◌, Bool, true, false, Option, none, some, List,
  [], ◌∷◌, map, ltb, leb, ◌==◌, ◌&&◌, ◌||◌, if◌then◌else◌,
}
use mathlib.Core.Option
use multisocket.Prelude.Bytes.{u32}
use multisocket.Prelude.Int.{ℤ, pos, negsuc, in_range}
use Numbers.{Text, text_eq, to_lower, parse_int, parse_uint}

-- A value of a Go interface, by its dynamic type. An int is 64 bits wide. `opaque` stands for a value
-- of any other type.
pub data Value : Type 0 where
  nil : Value
  bool : Bool → Value
  string : Text → Value
  duration : ℤ → Value
  int : ℤ → Value
  int32 : ℤ → Value
  int64 : ℤ → Value
  uint8 : ℕ → Value
  uint16 : ℕ → Value
  uint32 : ℕ → Value
  uint64 : ℕ → Value
  opaque : ℕ → Value

pub data Kind : Type 0 where
  any_option bool_option string_option time_duration_option int_option : Kind
  uint8_option uint16_option uint32_option int32_option : Kind

-- An option is a pointer, which `key` stands for, to its kind and default value.
pub record OptionItem : Type 0 where
  pub key : ℕ
  pub kind : Kind
  pub default_value : Value

pub data Error : Type 0 where
  invalid_option_value unsupported_option option_not_found : Error

-- The integers that an option takes from an int or from a parsed number: min ≤ x ≤ max.
abbrev pub fit : Bool → Value → Option Value
fit true v = some v
fit false v = none

-- The conversions of Go: uint8(x), uint16(x) and uint32(x) keep the low bits, also of a negative
-- number in two's complement, and int32(x) reads the low 32 bits as a signed number.
abbrev pub to_uint : ℕ → ℤ → ℕ
to_uint modulus (pos n) = n % modulus
to_uint modulus (negsuc n) = modulus - 1 - n % modulus

abbrev pub signed_32 : ℕ → ℤ
signed_32 n = if ltb n (2 ^ 31) then pos n else negsuc (2 ^ 32 - 1 - n)

abbrev pub to_int32 : ℤ → ℤ
to_int32 x = signed_32 (to_uint (2 ^ 32) x)

-- `none` is ErrInvalidOptionValue. The test of a uint64 against MaxUint64 always passes, and the
-- conversion to uint32 then drops the high bits.
unfoldable pub validate : Kind → Value → Option Value
validate any_option v = some v
validate bool_option (bool b) = some (bool b)
validate bool_option _ = none
validate string_option (string s) = some (string s)
validate string_option _ = none
validate time_duration_option (duration d) = some (duration d)
validate time_duration_option _ = none
validate int_option (int x) = some (int x)
validate int_option (int64 x) = some (int x)
validate int_option _ = none
validate uint8_option (uint8 x) = some (uint8 x)
validate uint8_option (int x) = fit (in_range 0 (2 ^ 8 - 1) x) (uint8 (to_uint (2 ^ 8) x))
validate uint8_option (uint64 x) = fit (leb x (2 ^ 8 - 1)) (uint8 (x % 2 ^ 8))
validate uint8_option _ = none
validate uint16_option (uint16 x) = some (uint16 x)
validate uint16_option (int x) = fit (in_range 0 (2 ^ 16 - 1) x) (uint16 (to_uint (2 ^ 16) x))
validate uint16_option (uint64 x) = fit (leb x (2 ^ 16 - 1)) (uint16 (x % 2 ^ 16))
validate uint16_option _ = none
validate uint32_option (uint32 x) = some (uint32 x)
validate uint32_option (int x) = fit (in_range 0 (2 ^ 32 - 1) x) (uint32 (to_uint (2 ^ 32) x))
validate uint32_option (uint64 x) = fit (leb x (2 ^ 64 - 1)) (uint32 (u32 x))
validate uint32_option _ = none
validate int32_option (int32 x) = some (int32 x)
validate int32_option (int x) = fit (in_range (2 ^ 31) (2 ^ 31 - 1) x) (int32 (to_int32 x))
validate int32_option (int64 x) = fit (in_range (2 ^ 31) (2 ^ 31 - 1) x) (int32 (to_int32 x))
validate int32_option _ = none

-- boolOption.Parse: the lowercase text in one of two lists.
unfoldable pub parse_bool : Text → Option Value
parse_bool s =
    let l = to_lower s in
    if text_eq l []
      || text_eq l (b't' ∷ b'r' ∷ b'u' ∷ b'e' ∷ [])
      || text_eq l (b't' ∷ [])
      || text_eq l (b'1' ∷ [])
    then some (bool true)
    else if text_eq l (b'f' ∷ b'a' ∷ b'l' ∷ b's' ∷ b'e' ∷ [])
        || text_eq l (b'f' ∷ [])
        || text_eq l (b'0' ∷ [])
    then some (bool false)
    else none

-- `none` is an error. Numbers come back as int64 or uint64. `parse_duration` is time.ParseDuration.
unfoldable pub parse : (Text → Option ℤ) → Kind → Text → Option Value
unfolding parse_bool
parse parse_duration any_option s = some (string s)
parse parse_duration bool_option s = parse_bool s
parse parse_duration string_option s = some (string s)
parse parse_duration time_duration_option s = Option.map duration (parse_duration s)
parse parse_duration int_option s = Option.map int64 (parse_int 64 s)
parse parse_duration uint8_option s = Option.map uint64 (parse_uint 8 s)
parse parse_duration uint16_option s = Option.map uint64 (parse_uint 16 s)
parse parse_duration uint32_option s = Option.map uint64 (parse_uint 32 s)
parse parse_duration int32_option s = Option.map int64 (parse_int 32 s)
