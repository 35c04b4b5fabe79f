-- ===== src/Options/Sets.antt =====
-- options/options.go: option sets, which share sub-sets and downstream sets by pointer.
pub mod Get
pub mod Set
use multisocket.Prelude.{
  ℕ, zero, suc, ◌+◌, ◌<◌, ◌≤◌, ◌≡◌, Bool, true, false, Option, none, some, List, [], ◌∷◌, ◌++◌,
  length, ◌==◌, ◌||◌, if◌then◌else◌,
}
use multisocket.Prelude.Assoc.{lookup, insert}
use multisocket.Options.{
  Value, OptionItem, Error, invalid_option_value, unsupported_option, validate,
}

-- The fields of an options struct. An option stands for itself by its key. `accepts` is `none` for the
-- nil map, which accepts every option. Hooks are named by numbers.
pub record OptionSet : Type 0 where
  pub opts : List (ℕ × Value)
  pub accepts : Option (List ℕ)
  pub sub_options : List ℕ
  pub downstream : Option ℕ
  pub option_change_hooks : List ℕ

-- The sets that exist, by address: a set names its sub-sets and its downstream set by address.
abbrev pub Store : Type 0
Store = List (ℕ × OptionSet)

unfoldable pub mem : ℕ → List ℕ → Bool
mem k [] = false
mem k (x ∷ xs) = x == k || mem k xs

unfoldable pub accept_option : OptionSet → OptionItem → Bool
unfolding mem
accept_option o opt = elim (o.accepts) [ none ↦ true | some keys ↦ mem opt.key keys ]

abbrev pub first_some : (ℕ → Option Value) → List ℕ → Option Value
first_some get [] = none
first_some get (j ∷ js) = elim (get j) [ some v ↦ some v | none ↦ first_some get js ]

-- What GetOption answers in the set itself: its value, or else the first one of a sub-set.
abbrev pub own_or_sub : (ℕ → Option Value) → OptionSet → OptionItem → Option Value
own_or_sub get o opt = elim (lookup opt.key o.opts) [
  | some v ↦ some v
  | none ↦ first_some get o.sub_options
]

-- The body of GetOption on the set that an address names; `get` asks another set.
unfoldable pub answer : (ℕ → Option Value) → Option OptionSet → OptionItem → Option Value
unfolding accept_option
answer get none opt = none
answer get (some o) opt = elim (accept_option o opt) [
  | true ↦ own_or_sub get o opt
  | false ↦ elim (o.downstream) [ none ↦ none | some d ↦ get d ]
]

-- `fuel` bounds how deep sets name other sets.
unfoldable pub get_option : ℕ → Store → ℕ → OptionItem → Option Value
unfolding answer
get_option zero st i opt = none
get_option (suc fuel) st i opt = answer (λ j. get_option fuel st j opt) (lookup i st) opt

-- GetOptionDefault and the package's valueFrom, over several sets.
unfoldable pub get_option_default : ℕ → Store → ℕ → OptionItem → Value
unfolding get_option
get_option_default fuel st i opt = elim (get_option fuel st i opt) [
  | some v ↦ v
  | none ↦ opt.default_value
]

unfoldable pub value_from : ℕ → Store → OptionItem → List ℕ → Value
unfolding get_option
value_from fuel st opt [] = opt.default_value
value_from fuel st opt (i ∷ is) =
    let rest = value_from fuel st opt is in
    elim (get_option fuel st i opt) [ some v ↦ v | none ↦ rest ]

-- A hook is called with the option, the old value and the new one; it may fail.
pub record Hooks : Type 0 where
  pub run : ℕ → OptionItem → Option Value → Value → Option Error

-- The loop over the hooks stops at the first that fails, and returns its error.
unfoldable pub run_hooks : Hooks → List ℕ → OptionItem → Option Value → Value → Option Error
run_hooks hs [] opt old val = none
run_hooks hs (h ∷ rest) opt old val =
    let later = run_hooks hs rest opt old val in
    elim (hs.run h opt old val) [ some e ↦ some e | none ↦ later ]

-- The value is written before the hooks run, and stays if one fails.
unfoldable pub do_set_option :
    Hooks → Store → ℕ → OptionSet → OptionItem → Value → Option Error × Store
unfolding run_hooks
do_set_option hs st i o opt val = (
  run_hooks hs o.option_change_hooks opt (lookup opt.key o.opts) val,
  insert i (record o { opts = insert opt.key val o.opts }) st,
)

-- The set accepts the option, or passes the call to its downstream set, which `next` calls.
abbrev pub pass_on : (ℕ → Option Error × Store) → Store → OptionSet → Option Error × Store
pass_on next st o = elim (o.downstream) [ none ↦ (some unsupported_option, st) | some d ↦ next d ]

abbrev pub set_in :
    Hooks
    → Store
    → ℕ
    → (ℕ → Option Error × Store)
    → Option OptionSet
    → OptionItem
    → Value
    → Option Error × Store
set_in hs st i next none opt val = (none, st)
set_in hs st i next (some o) opt val = elim (accept_option o opt) [
  | true ↦ do_set_option hs st i o opt val
  | false ↦ pass_on next st o
]

-- The error, if any, and the store. The value is validated again by each set on the way downstream.
unfoldable pub set_option : ℕ → Hooks → Store → ℕ → OptionItem → Value → Option Error × Store
unfolding accept_option do_set_option
set_option zero hs st i opt val = (none, st)
set_option (suc fuel) hs st i opt val = elim (validate opt.kind val) [
  | none ↦ (some invalid_option_value, st)
  | some val' ↦ set_in hs st i (λ d. set_option fuel hs st d opt val') (lookup i st) opt val'
]

abbrev pub set_new_in :
    Hooks
    → Store
    → ℕ
    → (ℕ → Option Error × Store)
    → Option OptionSet
    → OptionItem
    → Value
    → Option Error × Store
set_new_in hs st i next none opt val = (none, st)
set_new_in hs st i next (some o) opt val = elim (accept_option o opt) [
  | true ↦ elim (lookup opt.key o.opts) [
    | some old ↦ (none, st)
    | none ↦ do_set_option hs st i o opt val
  ]
  | false ↦ pass_on next st o
]

unfoldable pub set_option_if_not_exists :
    ℕ → Hooks → Store → ℕ → OptionItem → Value → Option Error × Store
unfolding accept_option do_set_option
set_option_if_not_exists zero hs st i opt val = (none, st)
set_option_if_not_exists (suc fuel) hs st i opt val = elim (validate opt.kind val) [
  | none ↦ (some invalid_option_value, st)
  | some val' ↦
      set_new_in hs st i (λ d. set_option_if_not_exists fuel hs st d opt val') (lookup i st) opt
        val'
]

unfoldable pub add_option_change_hook : Store → ℕ → ℕ → Store
add_option_change_hook st i hook = elim (lookup i st) [
  | none ↦ st
  | some o ↦ insert i (record o { option_change_hooks = o.option_change_hooks ++ (hook ∷ []) }) st
]

-- The constructors, which put a new set at the address `i`. Values that a set does not take are
-- dropped: the errors of SetOption are not looked at.
unfoldable pub set_all : ℕ → Hooks → Store → ℕ → List (OptionItem × Value) → Store
unfolding set_option
set_all fuel hs st i [] = st
set_all fuel hs st i ((opt, val) ∷ ovs) =
    set_all fuel hs ((set_option fuel hs st i opt val).1) i ovs

abbrev pub empty_set : OptionSet
empty_set = record {
  opts = [];
  accepts = none;
  sub_options = [];
  downstream = none;
  option_change_hooks = [];
}

unfoldable pub new_options_with_values_and_subs :
    ℕ → Hooks → Store → ℕ → List (OptionItem × Value) → List ℕ → Store
unfolding set_all
new_options_with_values_and_subs fuel hs st i ovs subs =
    set_all fuel hs (insert i (record empty_set { sub_options = subs }) st) i ovs

unfoldable pub new_options_with_values : ℕ → Hooks → Store → ℕ → List (OptionItem × Value) → Store
unfolding set_all
new_options_with_values fuel hs st i ovs = set_all fuel hs (insert i empty_set st) i ovs

unfoldable pub new_options_with_down_streams_and_accepts : Store → ℕ → Option ℕ → List ℕ → Store
new_options_with_down_streams_and_accepts st i downstream accepts =
    insert i (record empty_set { downstream = downstream; accepts = some accepts }) st

unfoldable pub option_values : Store → ℕ → List (ℕ × Value)
option_values st i = elim (lookup i st) [ none ↦ [] | some o ↦ o.opts ]
