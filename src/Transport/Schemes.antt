-- ===== src/Transport/Schemes.antt =====
-- transport/transport.go: schemes of addresses, and the registry of transports by scheme.
use mathlib.Core.List.{append_assoc}
use mathlib.Core.Option
use multisocket.Prelude.{
  ℕ, zero, suc, ◌+◌, ◌≡◌, ◌≢◌, refl, ap, sym, ◌∙◌, Bool, true, false, Option, none, some, [], ◌∷◌,
  ◌++◌, length, take, drop, take-append, drop-append, length-append, ◌==◌, ◌&&◌, if◌then◌else◌,
  arith, All, Bool-cases, Option-cases, inl, inr,
}
use multisocket.Errs.{Outcome, ok, err, bad_transport}
use multisocket.Options.Numbers.{Text, text_eq, text_eq_iff}

-- strings.Index(addr, "://").
abbrev pub separator : Text
separator = b':' ∷ b'/' ∷ b'/' ∷ []

abbrev pub separates : Text → Bool
separates (a ∷ b ∷ c ∷ s) = a == b':' && (b == b'/' && c == b'/')
separates _ = false

unfoldable pub index : Text → Option ℕ
index [] = none
index (c ∷ s) = let later = index s in if separates (c ∷ s) then some 0 else Option.map suc later

abbrev pub scheme_at : Text → Option ℕ → Text
scheme_at addr none = []
scheme_at addr (some i) = take i addr

unfoldable pub parse_scheme : Text → Text
parse_scheme addr = scheme_at addr (index addr)

abbrev pub rest_at : Text → Option ℕ → Outcome Text
rest_at addr none = err bad_transport
rest_at addr (some i) = ok (drop (i + 3) addr)

unfoldable pub strip_scheme : Text → Outcome Text
strip_scheme addr = rest_at addr (index addr)

-- The map of transports, which numbers stand for: RegisterTransport under the transport's own scheme,
-- RegisterTransportWithScheme under any.
unfoldable pub register_transport : ℕ → Text → (Text → Option ℕ) → Text → Option ℕ
register_transport t scheme transports s = if text_eq s scheme then some t else transports s

unfoldable pub get_transport_from_addr : (Text → Option ℕ) → Text → Option ℕ
get_transport_from_addr transports addr = transports (parse_scheme addr)

separates_lem : (s : Text) → separates s ≡ true → separator ++ drop 3 s ≡ s
separates_lem [] h = absurd (ground (arith, h))
separates_lem (a ∷ []) h = absurd (ground (arith, h))
separates_lem (a ∷ b ∷ []) h = absurd (ground (arith, h))
separates_lem (a ∷ b ∷ c ∷ s) h = ground (arith, h)

later_zero : (found : Option ℕ) → Option.map suc found ≢ some 0
later_zero none h = absurd (cc h)
later_zero (some i) h = absurd (ground (arith, h))

later_suc : (found : Option ℕ) (i : ℕ) → Option.map suc found ≡ some (suc i) → found ≡ some i
later_suc none i h = absurd (cc h)
later_suc (some j) i h = ground (arith, h)

index_lem :
    (addr : Text) (i : ℕ)
    → index addr ≡ some i
    → take i addr ++ (separator ++ drop (i + 3) addr) ≡ addr
unfolding index
index_lem [] i h = absurd (cc h)
index_lem (c ∷ s) zero h = elim (Bool-cases (separates (c ∷ s))) [
  | inl e ↦ separates_lem (c ∷ s) e
  | inr e ↦ absurd (later_zero (index s) (sym (rw e refl) ∙ h))
]
index_lem (c ∷ s) (suc i) h = elim (Bool-cases (separates (c ∷ s))) [
  | inl e ↦ absurd (ground (arith, e, h))
  | inr e ↦
      let held : index s ≡ some i = later_suc (index s) i (sym (rw e refl) ∙ h) in
      let step : suc i + 3 ≡ suc (i + 3) = omega arith in rw step (ap (◌∷◌ c) (index_lem s i held))
]

-- Of every address that StripScheme accepts, ParseScheme gives the part in front of the separator: the
-- two and the separator make up the address.
pub parse_scheme-strip_scheme :
    (addr rest : Text)
    → strip_scheme addr ≡ ok rest
    → parse_scheme addr ++ (separator ++ rest) ≡ addr
unfolding strip_scheme parse_scheme
parse_scheme-strip_scheme addr rest h = elim (Option-cases (index addr)) [
  | inl e ↦ absurd (ground (arith, e, h))
  | inr (i, e) ↦
      let same : drop (i + 3) addr ≡ rest = ground (arith, e, h) in
      ap (λ (f : Option ℕ). scheme_at addr f ++ (separator ++ rest)) e
      ∙ ap (λ (x : Text). take i addr ++ (separator ++ x)) (sym same)
      ∙ index_lem addr i e
]

no_colon : (c : ℕ) (s : Text) → c ≢ b':' → separates (c ∷ s) ≡ false
no_colon c [] h = refl
no_colon c (a ∷ []) h = refl
no_colon c (a ∷ b ∷ s) h = ground (arith, h)

-- The first separator stands behind a scheme without a colon.
index-scheme :
    (scheme rest : Text)
    → All (λ c. c ≢ b':') scheme
    → index (scheme ++ (separator ++ rest)) ≡ some (length scheme)
unfolding index
index-scheme [] rest h = refl
index-scheme (c ∷ s) rest h =
    rw (no_colon c (s ++ (separator ++ rest)) (h.0))
      (ap (Option.map suc) (index-scheme s rest (h.1)))

-- A transport that was registered under a scheme without a colon is the one for every address with
-- that scheme, whatever was registered before, and StripScheme gives the rest of such an address;
-- every other scheme keeps its transport.
pub get_transport-register_transport :
    (t : ℕ) (scheme rest other : Text) (transports : Text → Option ℕ)
    → All (λ c. c ≢ b':') scheme
    → text_eq other scheme ≡ false
    → (get_transport_from_addr
          (register_transport t scheme transports)
          (scheme ++ (separator ++ rest))
        ≡ some t)
      × (strip_scheme (scheme ++ (separator ++ rest)) ≡ ok rest)
      × (register_transport t scheme transports other ≡ transports other)
unfolding get_transport_from_addr register_transport parse_scheme strip_scheme
get_transport-register_transport t scheme rest other transports h o =
    let addr = scheme ++ (separator ++ rest) in
    let at = index-scheme scheme rest h in
    let name : parse_scheme addr ≡ scheme =
      ap (scheme_at addr) at ∙ take-append (length scheme) scheme (separator ++ rest) refl in
    let longer : length (scheme ++ separator) ≡ length scheme + 3 =
      length-append scheme separator in
    (
      ap (λ (s : Text). if text_eq s scheme then some t else transports s) name
          ∙ rw ((text_eq_iff scheme scheme).1 refl) refl,
      ap (rest_at addr) at
          ∙ ap ok (
              ap (drop (length scheme + 3)) (sym (append_assoc scheme separator rest))
              ∙ drop-append (length scheme + 3) (scheme ++ separator) rest (sym longer)),
      rw o refl,
    )
