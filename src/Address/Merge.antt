-- ===== src/Address/Merge.antt =====
-- address/address.go: which value an option has when Connect passes it on, and to which call.
use multisocket.Prelude.{
  ℕ, ◌≡◌, refl, ap, ◌∙◌, Option, none, some, List, [], ◌∷◌, arith, inl, inr, Bool-cases, ◌==◌,
}
use multisocket.Prelude.Assoc.{lookup, lookup-insert}
use multisocket.Options.{Value}
use multisocket.Address.{
  OptionValues, MultiSocketAddress, ConnType, conn_dial, conn_listen, conn_missing,
  connect_type_missing, put_all, merge_into, merge, DialListener, dial, listen, connect, connect_as,
}

abbrev pub either : Option Value → Option Value → Option Value
either (some v) other = some v
either none other = other

-- The value in the last map that has the option, and otherwise `own`.
abbrev pub last_value : ℕ → Option Value → List OptionValues → Option Value
last_value k own [] = own
last_value k own (m ∷ ms) = last_value k (either (lookup k m) own) ms

lookup-put_all :
    (k : ℕ) (m n : OptionValues) → lookup k (put_all m n) ≡ either (lookup k m) (lookup k n)
unfolding put_all lookup
lookup-put_all k [] n = refl
lookup-put_all k ((o, v) ∷ m) n = elim (Bool-cases (o == k)) [
  | inl e ↦ ground (arith, lookup-insert o k v (put_all m n), e)
  | inr e ↦ ground (arith, lookup-insert o k v (put_all m n), e, lookup-put_all k m n)
]

lookup-merge_into :
    (k : ℕ) (ms : List OptionValues) (xovs : OptionValues)
    → lookup k (merge_into xovs ms) ≡ last_value k (lookup k xovs) ms
unfolding merge_into
lookup-merge_into k [] xovs = refl
lookup-merge_into k (m ∷ ms) xovs =
    lookup-merge_into k ms (put_all m xovs)
    ∙ ap (λ (o : Option Value). last_value k o ms) (lookup-put_all k m xovs)

either-none : (o : Option Value) → either o none ≡ o
either-none none = refl
either-none (some v) = refl

lookup-merge :
    (k : ℕ) (ovs : OptionValues) (ms : List OptionValues)
    → lookup k (merge ovs ms) ≡ last_value k (lookup k ovs) ms
unfolding merge
lookup-merge k ovs ms =
    lookup-merge_into k ms (put_all ovs [])
    ∙ ap (λ (o : Option Value). last_value k o ms)
        (lookup-put_all k ovs [] ∙ (unfold lookup in either-none (lookup k ovs)))

-- Connect on an address calls DialOptions or ListenOptions, by the connect type, with the address and
-- options in which each option has the value of the last map of arguments that sets it, and otherwise
-- that of the address, or none; without a connect type it calls neither, and says so.
pub connect_cases {ℓ} :
    {S : Type ℓ} (ctr : DialListener S) (sa : MultiSocketAddress) (ms : List OptionValues) (s : S)
    → (xovs : OptionValues) × ((k : ℕ) → lookup k xovs ≡ last_value k (lookup k sa.ovs) ms)
      × (connect ctr sa ms s ≡ elim (sa.conn_type) [
        | conn_dial ↦ ctr.dial_options sa.addr xovs s
        | conn_listen ↦ ctr.listen_options sa.addr xovs s
        | conn_missing ↦ (s, some connect_type_missing)
      ])
unfolding connect dial listen
connect_cases ctr sa ms s = (merge sa.ovs ms, (λ k. lookup-merge k sa.ovs ms), by_type sa.conn_type)
  where
    by_type :
        (type : ConnType)
        → connect_as ctr type sa ms s ≡ elim type [
          | conn_dial ↦ ctr.dial_options sa.addr (merge sa.ovs ms) s
          | conn_listen ↦ ctr.listen_options sa.addr (merge sa.ovs ms) s
          | conn_missing ↦ (s, some connect_type_missing)
        ]
    by_type conn_dial = refl
    by_type conn_listen = refl
    by_type conn_missing = refl
