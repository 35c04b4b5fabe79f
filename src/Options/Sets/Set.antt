-- ===== src/Options/Sets/Set.antt =====
-- options/options.go: SetOption and SetOptionIfNotExists, and what GetOption answers afterwards.
use multisocket.Prelude.{
  ℕ, zero, suc, ◌≡◌, refl, ap, sym, ◌∙◌, ◌≢◌, Bool, true, false, Option, none, some, arith,
}
use multisocket.Prelude.Assoc.{lookup, insert}
use multisocket.Options.{Value, OptionItem, Error, invalid_option_value, validate}
use multisocket.Options.Values.{validate_again}
use multisocket.Options.Sets.{
  OptionSet, Store, Hooks, accept_option, get_option, run_hooks, do_set_option, set_option,
  set_option_if_not_exists, set_in,
}
use multisocket.Options.Sets.Get.{written, owner, owner_of, get_option-other, get_option-owner}

-- The owner is a set that exists and accepts the option.
owner_found :
    (fuel : ℕ) (st : Store) (i : ℕ) (opt : OptionItem) (j : ℕ)
    → owner fuel st i opt ≡ some j
    → (o : OptionSet) × (lookup j st ≡ some o) × (accept_option o opt ≡ true)
unfolding owner
owner_found zero st i opt j e = absurd (cc)
owner_found (suc fuel) st i opt j e =
    at_entry (lookup i st) refl e (λ d. owner_found fuel st d opt j)
  where
    Found : Type 0
    Found = (o : OptionSet) × (lookup j st ≡ some o) × (accept_option o opt ≡ true)

    at_set :
        (o : OptionSet) (accept : Bool) (down : Option ℕ)
        → lookup i st ≡ some o
        → accept_option o opt ≡ accept
        → o.downstream ≡ down
        → owner_of (λ d. owner fuel st d opt) i (some o) opt ≡ some j
        → ((d : ℕ) → owner fuel st d opt ≡ some j → Found)
        → Found
    at_set o true down l a d f below = (o, ground (arith, l, a, f), a)
    at_set o false none l a d f below = absurd (ground (arith, a, d, f))
    at_set o false (some k) l a d f below = below k (ground (arith, a, d, f))

    at_entry :
        (entry : Option OptionSet)
        → lookup i st ≡ entry
        → owner_of (λ d. owner fuel st d opt) i entry opt ≡ some j
        → ((d : ℕ) → owner fuel st d opt ≡ some j → Found)
        → Found
    at_entry none l f below = absurd (cc)
    at_entry (some o) l f below = at_set o (accept_option o opt) o.downstream l refl refl f below

module _ (hs : Hooks) (st : Store) (opt : OptionItem) (j : ℕ) (o : OptionSet) (w : Value)
    (found : lookup j st ≡ some o) where
  -- What a write to the owner gives: the answer of its hooks, and the store with the value.
  abbrev pub finished : Option Error × Store
  finished = (
    run_hooks hs o.option_change_hooks opt (lookup opt.key o.opts) w,
    insert j (written o opt.key w) st,
  )

  set_in-owner :
      (i : ℕ) (next_owner : ℕ → Option ℕ) (next : ℕ → Option Error × Store)
      (entry : Option OptionSet)
      → lookup i st ≡ entry
      → owner_of next_owner i entry opt ≡ some j
      → ((d : ℕ) → next_owner d ≡ some j → next d ≡ finished)
      → set_in hs st i next entry opt w ≡ finished
  unfolding do_set_option
  set_in-owner i next_owner next none l e below = absurd (cc)
  set_in-owner i next_owner next (some o') l e below =
      downward (accept_option o' opt) o'.downstream refl refl
    where
      downward :
          (accept : Bool) (down : Option ℕ)
          → accept_option o' opt ≡ accept
          → o'.downstream ≡ down
          → set_in hs st i next (some o') opt w ≡ finished
      downward true down a d =
          let at_j : i ≡ j = ground (arith, a, e) in
          let this : some o' ≡ some o = sym l ∙ ap (λ (k : ℕ). lookup k st) at_j ∙ found in
          ground (arith, a, at_j, this)
      downward false none a d = absurd (ground (arith, a, d, e))
      downward false (some k) a d = ground (arith, a, d, e, below k)

  -- The value reaches the owner, validated, and the hooks of the owner run on it.
  set_option-owner :
      (fuel i : ℕ) (val : Value)
      → validate opt.kind val ≡ some w
      → owner fuel st i opt ≡ some j
      → set_option fuel hs st i opt val ≡ finished
  unfolding set_option owner
  set_option-owner zero i val v e = absurd (cc)
  set_option-owner (suc fuel) i val v e =
      rw (v, set_option)
        (set_in-owner i (λ d. owner fuel st d opt) (λ d. set_option fuel hs st d opt w)
          (lookup i st) refl e
          (λ d f. set_option-owner fuel d w (validate_again opt.kind val w v) f))

-- Once SetOption has written a valid value, GetOption on the same set answers that value, as it was
-- validated, whether the set holds it or passes it downstream, and also if a hook failed; and any
-- other option has the value that it had, in every set. The call returns what the hooks of the set
-- that holds the value return.
pub get_option-set_option :
    (hs : Hooks) (st : Store) (opt other : OptionItem) (fuel i j : ℕ) (val w : Value)
    → opt.key ≢ other.key
    → validate opt.kind val ≡ some w
    → owner fuel st i opt ≡ some j
    → (o : OptionSet) × (lookup j st ≡ some o)
      × ((set_option fuel hs st i opt val).0
          ≡ run_hooks hs o.option_change_hooks opt (lookup opt.key o.opts) w)
      × (get_option fuel ((set_option fuel hs st i opt val).1) i opt ≡ some w)
      × ((depth k : ℕ)
          → get_option depth ((set_option fuel hs st i opt val).1) k other
            ≡ get_option depth st k other)
get_option-set_option hs st opt other fuel i j val w h v e =
    let (o, found, accepts) = owner_found fuel st i opt j e in
    let done = set_option-owner hs st opt j o w found fuel i val v e in
    (
      o,
      found,
      ap (λ (r : Option Error × Store). r.0) done,
      ap (λ (r : Option Error × Store). get_option fuel (r.1) i opt) done
          ∙ get_option-owner st j opt.key o w found fuel i opt refl e,
      λ depth k.
          ap (λ (r : Option Error × Store). get_option depth (r.1) k other) done
          ∙ get_option-other st j opt.key o w found depth k other h,
    )

-- A value that the option does not validate is refused and changes nothing, in either call.
pub set_option_invalid :
    (hs : Hooks) (st : Store) (opt : OptionItem) (fuel i : ℕ) (val : Value)
    → validate opt.kind val ≡ none
    → (set_option (suc fuel) hs st i opt val ≡ (some invalid_option_value, st))
      × (set_option_if_not_exists (suc fuel) hs st i opt val ≡ (some invalid_option_value, st))
unfolding set_option set_option_if_not_exists
set_option_invalid hs st opt fuel i val v = (rw (v, set_option), rw (v, set_option_if_not_exists))
