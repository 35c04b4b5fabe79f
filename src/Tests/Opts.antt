-- ===== src/Tests/Opts.antt =====
-- options/options.go at concrete inputs.
use multisocket.Prelude.{
  ℕ, ◌+◌, ◌^◌, ◌≡◌, ◌≢◌, refl, false, Option, none, some, [], ◌∷◌, arith, ◌⊎◌,
}
use multisocket.Prelude.Int.{ℤ, pos, negsuc}
use multisocket.Prelude.Assoc.{lookup}
use multisocket.Options.{Value, Kind, OptionItem, Error, validate, parse}
use multisocket.Options.Numbers.{Text}
use multisocket.Options.Values.{number, IsWide, validate-number}
use multisocket.Options.Sets.{
  OptionSet, Store, Hooks, run_hooks, get_option, set_option, accept_option, mem,
}
use multisocket.Options.Sets.Get.{owner}
use multisocket.Options.Sets.Set.{get_option-set_option}
use multisocket.Options.Registry.{
  Registry, Entries, Parsed, register_option, register_at, put, find, parse_option, split,
  split_from,
}
use multisocket.Options.Registry.Laws.{parse_option-register_option}

-- A uint64 of 2 ^ 32 + 5 becomes the uint32 5.
validate-number_example :
    (number (Value.uint32 5) ≡ number (Value.uint64 (2 ^ 32 + 5)))
    ⊎ (IsWide Kind.uint32_option (Value.uint64 (2 ^ 32 + 5))
        × (number (Value.uint32 5) ≢ number (Value.uint64 (2 ^ 32 + 5))))
unfolding validate
validate-number_example =
    validate-number Kind.uint32_option (Value.uint64 (2 ^ 32 + 5)) (Value.uint32 5) (omega arith)
      refl

abbrev no_duration : Text → Option ℤ
no_duration s = none

abbrev limit_option : OptionItem
limit_option = record { key = 1; kind = Kind.int_option; default_value = Value.int (negsuc 0) }

abbrev ttl_option : OptionItem
ttl_option = record { key = 2; kind = Kind.uint8_option; default_value = Value.uint8 16 }

-- Set 1 accepts the ttl only and passes the rest on to set 2.
abbrev two_sets : Store
two_sets =
    (
      1,
      record {
        opts = [];
        accepts = some (2 ∷ []);
        sub_options = [];
        downstream = some 2;
        option_change_hooks = [];
      },
    )
    ∷ (
      2,
      record {
        opts = [];
        accepts = none;
        sub_options = [];
        downstream = none;
        option_change_hooks = 7 ∷ [];
      },
    )
    ∷ []

abbrev quiet : Hooks
quiet = record { run = λ h opt old val. none }

get_option-set_option_example :
    (o : OptionSet) × (lookup 2 two_sets ≡ some o)
    × ((set_option 3 quiet two_sets 1 limit_option (Value.int (pos 5))).0
        ≡ run_hooks quiet o.option_change_hooks limit_option (lookup 1 o.opts) (Value.int (pos 5)))
    × (get_option 3
          ((set_option 3 quiet two_sets 1 limit_option (Value.int (pos 5))).1)
          1
          limit_option
        ≡ some (Value.int (pos 5)))
    × ((depth k : ℕ)
        → get_option depth
            ((set_option 3 quiet two_sets 1 limit_option (Value.int (pos 5))).1)
            k
            ttl_option
          ≡ get_option depth two_sets k ttl_option)
unfolding validate owner lookup accept_option mem
get_option-set_option_example =
    get_option-set_option quiet two_sets limit_option ttl_option 3 1 2 (Value.int (pos 5))
      (Value.int (pos 5)) (λ e. omega (arith, e)) refl refl

abbrev empty_registry : Registry
empty_registry = record { locked = false; registered_options = Entries.nil }

abbrev s_ttl : Text
s_ttl = b's' ∷ b'.' ∷ b't' ∷ b't' ∷ b'l' ∷ []

abbrev with_ttl : Registry
with_ttl = record {
  locked = false;
  registered_options =
      Entries.entry (b's' ∷ [])
        (multisocket.Options.Registry.Node.domain (
          Entries.entry (b't' ∷ b't' ∷ b'l' ∷ []) (multisocket.Options.Registry.Node.item 2)
            Entries.nil))
        Entries.nil;
}

parse_option-register_option_example :
    (parse_option with_ttl s_ttl ≡ (Parsed.found 2, with_ttl)) × (with_ttl.locked ≡ false)
unfolding register_option register_at put find split split_from
parse_option-register_option_example =
    parse_option-register_option empty_registry with_ttl 2 (b'T' ∷ b'T' ∷ b'L' ∷ [])
      ((b'S' ∷ []) ∷ []) s_ttl refl refl refl
