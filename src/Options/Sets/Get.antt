-- ===== src/Options/Sets/Get.antt =====
-- options/options.go: what GetOption sees after a write.
use mathlib.Core.Path.{fun_ext}
use multisocket.Prelude.{
  ℕ, zero, suc, ◌≡◌, refl, ap, sym, ◌∙◌, ◌≢◌, Bool, true, false, Option, none, some, ◌==◌,
  if◌then◌else◌, arith, ==_iff,
}
use multisocket.Prelude.Assoc.{lookup, insert, lookup-insert}
use multisocket.Options.{Value, OptionItem}
use multisocket.Options.Sets.{OptionSet, Store, accept_option, get_option, answer}

-- A set with one value written.
abbrev pub written : OptionSet → ℕ → Value → OptionSet
written o key val = record o { opts = insert key val o.opts }

-- The set that a call on the set `i` about `opt` reaches: `i`, if it accepts the option, or the set
-- that the downstream sets lead to.
abbrev pub owner_of : (ℕ → Option ℕ) → ℕ → Option OptionSet → OptionItem → Option ℕ
owner_of next i none opt = none
owner_of next i (some o) opt = elim (accept_option o opt) [
  | true ↦ some i
  | false ↦ elim (o.downstream) [ none ↦ none | some d ↦ next d ]
]

unfoldable pub owner : ℕ → Store → ℕ → OptionItem → Option ℕ
owner zero st i opt = none
owner (suc fuel) st i opt = owner_of (λ d. owner fuel st d opt) i (lookup i st) opt

answer-other :
    (get : ℕ → Option Value) (o : OptionSet) (opt : OptionItem) (key : ℕ) (w : Value)
    → key ≢ opt.key
    → answer get (some (written o key w)) opt ≡ answer get (some o) opt
unfolding answer
answer-other get o opt key w h = ground (arith, lookup-insert key opt.key w o.opts, h)

module _ (st : Store) (j key : ℕ) (o : OptionSet) (w : Value) (found : lookup j st ≡ some o) where
  abbrev pub after : Store
  after = insert j (written o key w) st

  pub lookup-after :
      (i : ℕ) → lookup i after ≡ (if j == i then some (written o key w) else lookup i st)
  lookup-after i = lookup-insert j i (written o key w) st

  same : (i : ℕ) → (j == i) ≡ true → lookup i st ≡ some o
  same i e = ap (λ (k : ℕ). lookup k st) (sym ((==_iff j i).0 e)) ∙ found

  -- Another option has the value that it had, in every set.
  pub get_option-other :
      (fuel i : ℕ) (opt : OptionItem)
      → key ≢ opt.key
      → get_option fuel after i opt ≡ get_option fuel st i opt
  unfolding get_option accept_option
  get_option-other zero i opt h = refl
  get_option-other (suc fuel) i opt h =
      ap (λ (g : ℕ → Option Value). answer g (lookup i after) opt)
        (fun_ext (λ k. get_option-other fuel k opt h))
      ∙ ap (λ (e : Option OptionSet). answer (λ k. get_option fuel st k opt) e opt) (lookup-after i)
      ∙ at_entry (j == i) (same i)
    where
      at_entry :
          (b : Bool)
          → (b ≡ true → lookup i st ≡ some o)
          → answer
              (λ k. get_option fuel st k opt)
              (if b then some (written o key w) else lookup i st)
              opt
            ≡ answer (λ k. get_option fuel st k opt) (lookup i st) opt
      at_entry true e =
          answer-other (λ k. get_option fuel st k opt) o opt key w h
          ∙ ap (λ (x : Option OptionSet). answer (λ k. get_option fuel st k opt) x opt)
              (sym (e refl))
      at_entry false e = refl

  owned_entry :
      (i : ℕ) (opt : OptionItem) (next : ℕ → Option ℕ) (get : ℕ → Option Value)
      → key ≡ opt.key
      → ((d : ℕ) → next d ≡ some j → get d ≡ some w)
      → (b : Bool) (entry : Option OptionSet) → (j == i) ≡ b
      → (b ≡ true → entry ≡ some o)
      → owner_of next i entry opt ≡ some j
      → answer get (if b then some (written o key w) else entry) opt ≡ some w
  unfolding answer
  owned_entry i opt next get h below true none t f g = absurd (cc (f refl))
  owned_entry i opt next get h below true (some o') t f g =
      downward (accept_option o opt) o.downstream refl refl
        (ap (λ (x : Option OptionSet). owner_of next i x opt) (sym (f refl)) ∙ g)
    where
      downward :
          (accept : Bool) (down : Option ℕ)
          → accept_option o opt ≡ accept
          → o.downstream ≡ down
          → owner_of next i (some o) opt ≡ some j
          → answer get (some (written o key w)) opt ≡ some w
      downward true down a d g = ground (arith, lookup-insert key opt.key w o.opts, a, h)
      downward false none a d g = absurd (ground (arith, a, d, g))
      downward false (some k) a d g = ground (arith, a, d, g, below k)
  owned_entry i opt next get h below false none t f g = absurd (cc)
  owned_entry i opt next get h below false (some o') t f g =
      downward (accept_option o' opt) o'.downstream refl refl
    where
      downward :
          (accept : Bool) (down : Option ℕ)
          → accept_option o' opt ≡ accept
          → o'.downstream ≡ down
          → answer get (some o') opt ≡ some w
      downward true down a d = absurd (ground (arith, a, g, t))
      downward false none a d = absurd (ground (arith, a, d, g))
      downward false (some k) a d = ground (arith, a, d, g, below k)

  -- The option has the new value in its owner, and in every set that passes the question on to it.
  pub get_option-owner :
      (fuel i : ℕ) (opt : OptionItem)
      → key ≡ opt.key
      → owner fuel st i opt ≡ some j
      → get_option fuel after i opt ≡ some w
  unfolding get_option owner
  get_option-owner zero i opt h e = absurd (cc)
  get_option-owner (suc fuel) i opt h e =
      ap (λ (x : Option OptionSet). answer (λ k. get_option fuel after k opt) x opt)
        (lookup-after i)
      ∙ owned_entry i opt (λ d. owner fuel st d opt) (λ k. get_option fuel after k opt) h
          (λ d. get_option-owner fuel d opt h) (j == i) (lookup i st) refl (same i) e
