-- ===== src/Options/Registry.antt =====
-- options/options.go: the registry of options by name, RegisterOption and ParseOption.
pub mod Laws
use multisocket.Prelude.{
  ℕ, zero, suc, Bool, true, false, Option, none, some, List, [], ◌∷◌, ◌==◌, if◌then◌else◌,
}
use multisocket.Errs.{Outcome, ok, err, panic, ◌>>=◌}
use multisocket.Options.Numbers.{Text, text_eq, to_lower}

-- A map[string]interface{}, whose values are options or maps again.
mutual
  pub data Node : Type 0 where
    item : ℕ → Node
    domain : Entries → Node

  pub data Entries : Type 0 where
    nil : Entries
    entry : Text → Node → Entries → Entries

unfoldable pub find : Text → Entries → Option Node
find k nil = none
find k (entry j v es) = if text_eq j k then some v else find k es

unfoldable pub put : Text → Node → Entries → Entries
put k v nil = entry k v nil
put k v (entry j w es) = if text_eq j k then entry k v es else entry j w (put k v es)

-- The walk down the domains; a domain whose name is an option's makes the type assertion panic.
abbrev pub sub_entries : Option Node → Outcome Entries
sub_entries none = ok nil
sub_entries (some (domain es)) = ok es
sub_entries (some (item opt)) = panic

unfoldable pub register_at : List Text → Text → ℕ → Entries → Outcome Entries
register_at [] name opt es = ok (put (to_lower name) (item opt) es)
register_at (d ∷ ds) name opt es = sub_entries (find (to_lower d) es) >>= λ sub.
    (register_at ds name opt sub >>= λ sub'. ok (put (to_lower d) (domain sub') es))

abbrev pub as_item : Option Node → Option ℕ
as_item (some (item opt)) = some opt
as_item (some (domain es)) = none
as_item none = none

abbrev pub as_domain : Option Node → Option Entries
as_domain (some (domain es)) = some es
as_domain (some (item opt)) = none
as_domain none = none

unfoldable pub find_at : List Text → Text → Entries → Option ℕ
find_at [] name es = as_item (find (to_lower name) es)
find_at (d ∷ ds) name es = elim (as_domain (find (to_lower d) es)) [
  | none ↦ none
  | some sub ↦ find_at ds name sub
]

-- strings.Split(s, "."): the names before the last, and the last. `word` is read so far.
unfoldable pub split_from : Text → Text → List Text × Text
split_from word [] = ([], mathlib.Core.List.reverse word)
split_from word (c ∷ s) =
    let rest = split_from [] s in
    let more = split_from (c ∷ word) s in
    if c == b'.' then (mathlib.Core.List.reverse word ∷ rest.0, rest.1) else more

unfoldable pub split : Text → List Text × Text
unfolding split_from
split s = split_from [] s

-- The package's lock, and its map.
pub record Registry : Type 0 where
  pub locked : Bool
  pub registered_options : Entries

-- `blocks`: the call waits for the lock for ever.
pub data Parsed : Type 0 where
  found : ℕ → Parsed
  not_found : Parsed
  blocks : Parsed

-- The two returns of ErrOptionNotFound leave the lock taken.
abbrev pub looked_up : Registry → Option ℕ → Parsed × Registry
looked_up r (some opt) = (found opt, r)
looked_up r none = (not_found, record r { locked = true })

unfoldable pub parse_option : Registry → Text → Parsed × Registry
unfolding find_at split
parse_option r s =
    if r.locked
    then (blocks, r)
    else looked_up r (find_at ((split s).0) ((split s).1) r.registered_options)

-- `none` waits for the lock for ever; a panic leaves the lock taken, too.
unfoldable pub register_option : Registry → ℕ → Text → List Text → Option (Outcome Registry)
unfolding register_at
register_option r opt name domains =
    if r.locked
    then none
    else some (
        register_at domains name opt r.registered_options >>= λ es.
        ok (record r { registered_options = es }))
