-- ===== src/Options/Registry/Laws.antt =====
-- options/options.go: ParseOption after RegisterOption and after a failure.
use multisocket.Prelude.{
  ℕ, ◌≡◌, refl, ap, sym, ◌∙◌, Bool, true, false, Option, none, some, List, [], ◌∷◌, map,
  if◌then◌else◌, arith, inl, inr, Bool-cases,
}
use multisocket.Errs.{Outcome, ok, err, panic, ◌>>=◌}
use multisocket.Options.Numbers.{Text, text_eq, text_eq_iff, to_lower}
use multisocket.Options.Registry.{
  Node, Entries, nil, entry, item, domain, find, put, sub_entries, register_at, as_item, find_at,
  split, Registry, Parsed, found, not_found, blocks, parse_option, register_option, looked_up,
}

find-put : (k : Text) (v : Node) (es : Entries) → find k (put k v es) ≡ some v
unfolding find put
find-put k v nil = ground (arith, text_eq_iff k k)
find-put k v (entry j w es) = elim (Bool-cases (text_eq j k)) [
  | inl e ↦ rw (e, put) (ground (arith, text_eq_iff k k))
  | inr e ↦ rw (e, put) (rw (e, find) (find-put k v es))
]

ok->>= {ℓ κ} :
    {A : Type ℓ} {B : Type κ} (first : Outcome A) (next : A → Outcome B) {b : B}
    → (first >>= next) ≡ ok b
    → (a : A) × (first ≡ ok a) × (next a ≡ ok b)
ok->>= panic next h = absurd (cc)
ok->>= (err e) next h = absurd (cc)
ok->>= (ok a) next h = (a, refl, h)

-- What stands under a name in the map that `put` made, for any spelling of the name.
find-put-any :
    (k k' : Text) (v : Node) (es es' : Entries) → k ≡ k' → put k v es ≡ es' → find k' es' ≡ some v
find-put-any k k' v es es' p w =
    ap (find k') (sym w) ∙ ap (λ (x : Text). find x (put k v es)) (sym p) ∙ find-put k v es

-- An option that was registered is found under its domains and its name, in any case of letters.
find_at-register_at :
    (ds ds' : List Text) (name name' : Text) (opt : ℕ) (es es' : Entries)
    → map to_lower ds ≡ map to_lower ds'
    → to_lower name ≡ to_lower name'
    → register_at ds name opt es ≡ ok es'
    → find_at ds' name' es' ≡ some opt
unfolding register_at find_at
find_at-register_at [] [] name name' opt es es' p q e =
    ap as_item (find-put-any (to_lower name) (to_lower name') (item opt) es es' q (cc e))
find_at-register_at [] (d ∷ ds') name name' opt es es' p q e = absurd (cc)
find_at-register_at (d ∷ ds) [] name name' opt es es' p q e = absurd (cc)
find_at-register_at (d ∷ ds) (d' ∷ ds') name name' opt es es' p q e =
    let (sub, _, e1) = ok->>= (sub_entries (find (to_lower d) es)) _ e in
    let (sub', e2, e3) = ok->>= (register_at ds name opt sub) _ e1 in
    let deeper = find_at-register_at ds ds' name name' opt sub sub' (cc p) q e2 in
    let here = find-put-any (to_lower d) (to_lower d') (domain sub') es es' (cc p) (cc e3) in
    rw (here, find_at) deeper

parse_option_free :
    (r : Registry) (s : Text) (opt : ℕ)
    → r.locked ≡ false
    → find_at ((split s).0) ((split s).1) r.registered_options ≡ some opt
    → parse_option r s ≡ (found opt, r)
unfolding parse_option
parse_option_free r s opt l e = simp (l, e)

parse_option_locks :
    (r r' : Registry) (s : Text) → parse_option r s ≡ (not_found, r') → r'.locked ≡ true
unfolding parse_option
parse_option_locks r r' s e = elim (Bool-cases (r.locked)) [
  | inl l ↦ absurd (ground (arith, l, e))
  | inr l ↦ at_free (find_at ((split s).0) ((split s).1) r.registered_options) l (
      sym (
        ap
          (λ (b : Bool).
            if b
            then (blocks, r)
            else looked_up r (find_at ((split s).0) ((split s).1) r.registered_options))
          l)
      ∙ e)
]
  where
    at_free : (o : Option ℕ) → r.locked ≡ false → looked_up r o ≡ (not_found, r') → r'.locked ≡ true
    at_free none l f = ap (λ (p : Parsed × Registry). (p.1).locked) (sym f)
    at_free (some opt) l f = absurd (ground (arith, f))

-- After RegisterOption, ParseOption finds the option under its full name, in any case of letters, and
-- leaves the lock free.
pub parse_option-register_option :
    (r r' : Registry) (opt : ℕ) (name : Text) (domains : List Text) (s : Text)
    → register_option r opt name domains ≡ some (ok r')
    → map to_lower domains ≡ map to_lower ((split s).0)
    → to_lower name ≡ to_lower ((split s).1)
    → (parse_option r' s ≡ (found opt, r')) × (r'.locked ≡ false)
unfolding register_option
parse_option-register_option r r' opt name domains s e p q = elim (Bool-cases (r.locked)) [
  | inl l ↦ absurd (ground (arith, l, e))
  | inr l ↦ at_free l (register_at domains name opt r.registered_options) refl
]
  where
    at_free :
        r.locked ≡ false
        → (o : Outcome Entries) → register_at domains name opt r.registered_options ≡ o
        → (parse_option r' s ≡ (found opt, r')) × (r'.locked ≡ false)
    at_free l (ok es) f =
        let same : record r { registered_options = es } ≡ r' = ground (arith, l, e, f) in
        let free : r'.locked ≡ false = ground (arith, same, l) in
        let there : find_at ((split s).0) ((split s).1) r'.registered_options ≡ some opt =
          ap (λ (x : Registry). find_at ((split s).0) ((split s).1) x.registered_options) (sym same)
          ∙ find_at-register_at domains ((split s).0) name ((split s).1) opt r.registered_options es
              p q f in
        (parse_option_free r' s opt free there, free)
    at_free l (err x) f = absurd (ground (arith, l, e, f))
    at_free l panic f = absurd (ground (arith, l, e, f))

-- After a ParseOption that did not find its option, every later ParseOption waits for the lock for
-- ever, and so does every RegisterOption.
pub parse_option_deadlocks :
    (r r' : Registry) (s : Text)
    → parse_option r s ≡ (not_found, r')
    → ((t : Text) → parse_option r' t ≡ (blocks, r'))
      × ((opt : ℕ) (name : Text) (domains : List Text) → register_option r' opt name domains ≡ none)
unfolding parse_option register_option
parse_option_deadlocks r r' s e =
    let l = parse_option_locks r r' s e in
    ((λ t. ground (arith, l)), λ opt name domains. ground (arith, l))
