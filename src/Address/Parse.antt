-- ===== src/Address/Parse.antt =====
-- address/address.go: what ParseMultiSocketAddress returns, and what one failure does to later calls.
use mathlib.Core.Path.{subst}
use multisocket.Prelude.{
  ℕ, ◌≡◌, refl, ap, sym, ◌∙◌, Bool, true, if◌then◌else◌, Option, none, some, List, [], ◌∷◌, arith,
  All, inl, inr, Bool-cases, ◌==◌,
}
use multisocket.Prelude.Int.{ℤ}
use multisocket.Prelude.Assoc.{lookup, insert, lookup-insert}
use multisocket.Options.{Value, OptionItem, parse, validate}
use multisocket.Options.Numbers.{Text}
use multisocket.Options.Values.{is_of, validate-parse}
use multisocket.Options.Registry.{
  Registry, Parsed, found, not_found, blocks, looked_up, find_at, split, parse_option,
}
use multisocket.Options.Registry.Laws.{parse_option_deadlocks}
use multisocket.Address.{
  OptionValues, Url, ConnType, MultiSocketAddress, Answer, answer, fails, hangs, addr_of,
  conn_type_of, with_value, with_option, parse_query, built, parse_typed, parse_from,
  parse_multi_socket_address, option_not_found,
}

module _ (parse_url : Text → Option Url) (parse_duration : Text → Option ℤ)
    (item_of : ℕ → OptionItem) where
  abbrev query_of : List (Text × Text) → Registry → OptionValues → Answer OptionValues × Registry
  query_of q r ovs = parse_query parse_url parse_duration item_of q r ovs

  abbrev parsed : Text → Registry → Answer MultiSocketAddress × Registry
  parsed s r = parse_multi_socket_address parse_url parse_duration item_of s r

  -- Validate accepts the value, and makes one of the option's type of it.
  abbrev pub IsAccepted : ℕ × Value → Type 0
  IsAccepted (o, v) =
      (w : Value) × (validate (item_of o).kind v ≡ some w) × (is_of (item_of o).kind w ≡ true)

  All-insert :
      (o : ℕ) (v : Value) (ovs : OptionValues)
      → IsAccepted (o, v)
      → All IsAccepted ovs
      → All IsAccepted (insert o v ovs)
  unfolding insert
  All-insert o v [] a hs = (a, tt)
  All-insert o v ((k, w) ∷ ovs) a hs = elim (Bool-cases (k == o)) [
    | inl e ↦
        let same : o ≡ k = ground (arith, e) in
        rw e (subst (λ (x : ℕ). IsAccepted (x, v)) same a, hs.1)
    | inr e ↦ rw e (hs.0, All-insert o v ovs a (hs.1))
  ]

  -- The value that a query gives to the option `o`, told apart from the loop: that of the last key
  -- which names the option, and `own` without one. A key that names no option, or a value that the
  -- option does not parse, gives nothing.
  abbrev pub named : ℕ → Text → Option Value → Parsed → Option Value
  named o v own (found opt) = if opt == o then parse parse_duration (item_of opt).kind v else own
  named o v own not_found = none
  named o v own blocks = none

  abbrev pub query_value : Registry → ℕ → List (Text × Text) → Option Value → Option Value
  query_value r o [] own = own
  query_value r o ((k, v) ∷ q) own = query_value r o q (named o v own (parse_option r k).0)

  looked_keeps :
      (r r1 : Registry) (opt : ℕ) (x : Option ℕ) → looked_up r x ≡ (found opt, r1) → r ≡ r1
  looked_keeps r r1 opt none e = absurd (cc)
  looked_keeps r r1 opt (some y) e = cc e

  found_keeps : (r r1 : Registry) (k : Text) (opt : ℕ) → parse_option r k ≡ (found opt, r1) → r ≡ r1
  unfolding parse_option
  found_keeps r r1 k opt e = elim (Bool-cases r.locked) [
    | inl l ↦ absurd (ground (arith, l, e))
    | inr l ↦
        let x = find_at ((split k).0) ((split k).1) r.registered_options in
        looked_keeps r r1 opt x
          (sym (ap (λ (b : Bool). if b then (blocks, r) else looked_up r x) l) ∙ e)
  ]

  query-value :
      (o : ℕ) (q : List (Text × Text)) (r r' : Registry) (ovs ovs' : OptionValues)
      → query_of q r ovs ≡ (answer ovs', r')
      → lookup o ovs' ≡ query_value r o q (lookup o ovs)
  unfolding parse_query
  query-value o [] r r' ovs ovs' e = let same : ovs ≡ ovs' = cc e in ap (lookup o) (sym same)
  query-value o ((k, v) ∷ q) r r' ovs ovs' e =
      go (parse_option r k) refl (λ ovs1. query-value o q r r' ovs1 ovs') e
    where
      Further : Type 0
      Further =
          (ovs1 : OptionValues)
          → query_of q r ovs1 ≡ (answer ovs', r')
          → lookup o ovs' ≡ query_value r o q (lookup o ovs1)

      value :
          (opt : ℕ) (x : Option Value)
          → parse_option r k ≡ (found opt, r)
          → parse parse_duration (item_of opt).kind v ≡ x
          → Further
          → with_value parse_url parse_duration item_of (query_of q) opt r ovs x ≡ (answer ovs', r')
          → lookup o ovs' ≡ query_value r o ((k, v) ∷ q) (lookup o ovs)
      value opt none p m further f = absurd (cc)
      value opt (some val) p m further f =
          further (insert opt val ovs) f
          ∙ ap (query_value r o q) (
              lookup-insert opt o val ovs
              ∙ ap (λ (x : Option Value). if opt == o then x else lookup o ovs) (sym m)
              ∙ ap (λ (x : Parsed × Registry). named o v (lookup o ovs) x.0) (sym p))

      go :
          (x : Parsed × Registry)
          → parse_option r k ≡ x
          → Further
          → with_option parse_url parse_duration item_of (query_of q) v ovs x ≡ (answer ovs', r')
          → lookup o ovs' ≡ query_value r o ((k, v) ∷ q) (lookup o ovs)
      go (found opt, r1) p further f =
          let same : r ≡ r1 = found_keeps r r1 k opt p in
          value opt (parse parse_duration (item_of opt).kind v)
            (p ∙ ap (λ (x : Registry). (found opt, x)) (sym same)) refl further
            (ap
                (λ (x : Registry).
                  with_value parse_url parse_duration item_of (query_of q) opt x ovs
                    (parse parse_duration (item_of opt).kind v))
                same
              ∙ f)
      go (not_found, r1) p further f = absurd (cc)
      go (blocks, r1) p further f = absurd (cc)

  query-All :
      (q : List (Text × Text)) (r r' : Registry) (ovs ovs' : OptionValues)
      → All IsAccepted ovs
      → query_of q r ovs ≡ (answer ovs', r')
      → All IsAccepted ovs'
  unfolding parse_query
  query-All [] r r' ovs ovs' hs e = let same : ovs ≡ ovs' = cc e in subst (All IsAccepted) same hs
  query-All ((k, v) ∷ q) r r' ovs ovs' hs e =
      go (parse_option r k) (λ r1 ovs1. query-All q r1 r' ovs1 ovs') e
    where
      Further : Type 0
      Further =
          (r1 : Registry) (ovs1 : OptionValues)
          → All IsAccepted ovs1
          → query_of q r1 ovs1 ≡ (answer ovs', r')
          → All IsAccepted ovs'

      value :
          (opt : ℕ) (r1 : Registry) (o : Option Value)
          → parse parse_duration (item_of opt).kind v ≡ o
          → Further
          → with_value parse_url parse_duration item_of (query_of q) opt r1 ovs o
            ≡ (answer ovs', r')
          → All IsAccepted ovs'
      value opt r1 none p further e = absurd (cc)
      value opt r1 (some val) p further e =
          let (w, valid, typed, _) = validate-parse parse_duration (item_of opt).kind v val p in
          further r1 (insert opt val ovs) (All-insert opt val ovs (w, valid, typed) hs) e

      go :
          (o : Parsed × Registry)
          → Further
          → with_option parse_url parse_duration item_of (query_of q) v ovs o ≡ (answer ovs', r')
          → All IsAccepted ovs'
      go (found opt, r1) further e =
          value opt r1 (parse parse_duration (item_of opt).kind v) refl further e
      go (not_found, r1) further e = absurd (cc)
      go (blocks, r1) further e = absurd (cc)

  -- After a query that names an option that is not registered, every lookup waits.
  query_locks :
      (q : List (Text × Text)) (r r' : Registry) (ovs : OptionValues)
      → query_of q r ovs ≡ (fails option_not_found, r')
      → (t : Text) → parse_option r' t ≡ (blocks, r')
  unfolding parse_query
  query_locks [] r r' ovs e t = absurd (cc)
  query_locks ((k, v) ∷ q) r r' ovs e t =
      go (parse_option r k) refl (λ r1 ovs1 f. query_locks q r1 r' ovs1 f t) e
    where
      Further : Type 0
      Further =
          (r1 : Registry) (ovs1 : OptionValues)
          → query_of q r1 ovs1 ≡ (fails option_not_found, r')
          → parse_option r' t ≡ (blocks, r')

      value :
          (opt : ℕ) (r1 : Registry) (o : Option Value)
          → Further
          → with_value parse_url parse_duration item_of (query_of q) opt r1 ovs o
            ≡ (fails option_not_found, r')
          → parse_option r' t ≡ (blocks, r')
      value opt r1 none further f = absurd (cc)
      value opt r1 (some val) further f = further r1 (insert opt val ovs) f

      go :
          (o : Parsed × Registry)
          → parse_option r k ≡ o
          → Further
          → with_option parse_url parse_duration item_of (query_of q) v ovs o
            ≡ (fails option_not_found, r')
          → parse_option r' t ≡ (blocks, r')
      go (found opt, r1) p further f =
          value opt r1 (parse parse_duration (item_of opt).kind v) further f
      go (not_found, r1) p further f =
          let same : r1 ≡ r' = cc f in
          (parse_option_deadlocks r r' k (p ∙ ap (λ (x : Registry). (not_found, x)) same)).0 t
      go (blocks, r1) p further f = absurd (cc)

  address_locks :
      (s : Text) (r r' : Registry)
      → parsed s r ≡ (fails option_not_found, r')
      → (t : Text) → parse_option r' t ≡ (blocks, r')
  unfolding parse_multi_socket_address
  address_locks s r r' e t = at_url (parse_url s) e
    where
      at_query :
          (type : ConnType) (u : Url) (o : Answer OptionValues × Registry)
          → parse_query parse_url parse_duration item_of u.query r [] ≡ o
          → built parse_url parse_duration item_of s type u o ≡ (fails option_not_found, r')
          → parse_option r' t ≡ (blocks, r')
      at_query type u (answer ovs, r1) q f = absurd (cc)
      at_query type u (hangs, r1) q f = absurd (cc)
      at_query type u (fails x, r1) q f =
          let error : x ≡ option_not_found = cc f in
          let same : r1 ≡ r' = cc f in
          query_locks u.query r r' [] (q ∙ (λ i. (fails (error i), same i))) t

      at_type :
          (u : Url) (o : Option ConnType)
          → parse_typed parse_url parse_duration item_of s r u o ≡ (fails option_not_found, r')
          → parse_option r' t ≡ (blocks, r')
      at_type u none f = absurd (cc)
      at_type u (some type) f =
          at_query type u (parse_query parse_url parse_duration item_of u.query r []) refl f

      at_url :
          (o : Option Url)
          → parse_from parse_url parse_duration item_of s r o ≡ (fails option_not_found, r')
          → parse_option r' t ≡ (blocks, r')
      at_url none f = absurd (cc)
      at_url (some u) f = at_type u (conn_type_of u.fragment) f

  -- An address whose query names an option that is not registered makes every later parse of an
  -- address with a query and a good fragment wait for ever.
  pub parse_after_unknown :
      (s t : Text) (r r' : Registry) (u : Url) (type : ConnType) (k v : Text)
      (q : List (Text × Text))
      → parsed s r ≡ (fails option_not_found, r')
      → parse_url t ≡ some u
      → conn_type_of u.fragment ≡ some type
      → u.query ≡ (k, v) ∷ q
      → parsed t r' ≡ (hangs, r')
  unfolding parse_multi_socket_address
  parse_after_unknown s t r r' u type k v q e url good query =
      ap (parse_from parse_url parse_duration item_of t r') url
      ∙ ap (parse_typed parse_url parse_duration item_of t r' u) good
      ∙ ap
          (λ (x : List (Text × Text)).
            built parse_url parse_duration item_of t type u
              (parse_query parse_url parse_duration item_of x r' []))
          query
      ∙ ap (built parse_url parse_duration item_of t type u) first
    where
      first : parse_query parse_url parse_duration item_of ((k, v) ∷ q) r' [] ≡ (hangs, r')
      first =
          unfold parse_query in
          ap (with_option parse_url parse_duration item_of (query_of q) v [])
            (address_locks s r r' e k)

  abbrev pub IsOf : Text → Registry → MultiSocketAddress → Type 0
  IsOf s r sa =
      (u : Url) × (parse_url s ≡ some u)
      × (conn_type_of u.fragment ≡ some sa.conn_type)
      × (sa.addr ≡ addr_of u)
      × All IsAccepted sa.ovs
      × ((o : ℕ) → lookup o sa.ovs ≡ query_value r o u.query none)

  -- An address that is parsed has the connect type of the fragment and the scheme, the host and the
  -- path of its URL. Its options are those that the keys of the query name, each with the value that
  -- it parses from the text of the last key which names it; and each value is one that the option's
  -- Validate accepts and turns into a value of the option's type.
  pub parse_address_accepted :
      (s : Text) (r r' : Registry) (sa : MultiSocketAddress)
      → parsed s r ≡ (answer sa, r')
      → IsOf s r sa
  unfolding parse_multi_socket_address
  parse_address_accepted s r r' sa e = at_url (parse_url s) refl e
    where
      at_query :
          (type : ConnType) (u : Url) (o : Answer OptionValues × Registry)
          → parse_url s ≡ some u
          → conn_type_of u.fragment ≡ some type
          → parse_query parse_url parse_duration item_of u.query r [] ≡ o
          → built parse_url parse_duration item_of s type u o ≡ (answer sa, r')
          → IsOf s r sa
      at_query type u (answer ovs, r1) url good q f =
          let same : record { raw = s; conn_type = type; addr = addr_of u; ovs = ovs } ≡ sa =
            cc f in
          subst (IsOf s r) same (
            u,
            url,
            good,
            refl,
            query-All u.query r r1 [] ovs tt q,
            λ o. query-value o u.query r r1 [] ovs q ∙ (unfold lookup in refl),
          )
      at_query type u (hangs, r1) url good q f = absurd (cc)
      at_query type u (fails x, r1) url good q f = absurd (cc)

      at_type :
          (u : Url) (o : Option ConnType)
          → parse_url s ≡ some u
          → conn_type_of u.fragment ≡ o
          → parse_typed parse_url parse_duration item_of s r u o ≡ (answer sa, r')
          → IsOf s r sa
      at_type u none url good f = absurd (cc)
      at_type u (some type) url good f =
          at_query type u (parse_query parse_url parse_duration item_of u.query r []) url good refl
            f

      at_url :
          (o : Option Url)
          → parse_url s ≡ o
          → parse_from parse_url parse_duration item_of s r o ≡ (answer sa, r')
          → IsOf s r sa
      at_url none url f = absurd (cc)
      at_url (some u) url f = at_type u (conn_type_of u.fragment) url refl f
