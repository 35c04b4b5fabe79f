-- ===== src/Address.antt =====
-- address/address.go: addresses with a connect type in the fragment and options in the query.
-- `parse_url` is url.Parse, with the first value of each key of the query, in the order in which the
-- range over the query visits them; `item_of` is the registered option that a key stands for.
pub mod Merge
pub mod Parse
use multisocket.Prelude.{
  ℕ, ◌≡◌, Bool, true, false, Option, none, some, List, [], ◌∷◌, ◌++◌, if◌then◌else◌,
}
use multisocket.Prelude.Int.{ℤ}
use multisocket.Prelude.Assoc.{insert}
use multisocket.Errs.{Err}
use multisocket.Options.{Value, OptionItem, parse}
use multisocket.Options.Numbers.{Text, text_eq}
use multisocket.Options.Registry.{Registry, Parsed, found, not_found, blocks, parse_option}

-- An OptionValues map: an option is a pointer, which its key stands for.
abbrev pub OptionValues : Type 0
OptionValues = List (ℕ × Value)

pub record Url : Type 0 where
  pub scheme : Text
  pub host : Text
  pub path : Text
  pub fragment : Text
  pub query : List (Text × Text)

pub data ConnType : Type 0 where
  conn_dial conn_listen conn_missing : ConnType

pub record MultiSocketAddress : Type 0 where
  pub raw : Text
  pub conn_type : ConnType
  pub addr : Text
  pub ovs : OptionValues

-- `other` is an error of the DialListener.
pub data Error : Type 0 where
  bad_url bad_connect_type connect_type_missing option_not_found bad_value : Error
  other : Err → Error

-- What a call does that may wait for the registry's lock for ever.
pub data Answer {ℓ} (A : Type ℓ) : Type ℓ where
  answer : A → Answer A
  fails : Error → Answer A
  hangs : Answer A

-- The switch on the fragment; `none` is ErrBadConnectType.
unfoldable pub conn_type_of : Text → Option ConnType
conn_type_of fragment =
    if text_eq fragment (b'd' ∷ b'i' ∷ b'a' ∷ b'l' ∷ [])
    then some conn_dial
    else if text_eq fragment (b'l' ∷ b'i' ∷ b's' ∷ b't' ∷ b'e' ∷ b'n' ∷ [])
    then some conn_listen
    else if text_eq fragment []
    then some conn_missing
    else none

-- `fmt.Sprintf("%s://%s%s", u.Scheme, u.Host, u.Path)`
abbrev pub addr_of : Url → Text
addr_of u = u.scheme ++ ((b':' ∷ b'/' ∷ b'/' ∷ []) ++ (u.host ++ u.path))

module _ (parse_url : Text → Option Url) (parse_duration : Text → Option ℤ)
    (item_of : ℕ → OptionItem) where
  abbrev pub with_value :
      (Registry → OptionValues → Answer OptionValues × Registry)
      → ℕ
      → Registry
      → OptionValues
      → Option Value
      → Answer OptionValues × Registry
  with_value next opt r ovs none = (fails bad_value, r)
  with_value next opt r ovs (some val) = next r (insert opt val ovs)

  abbrev pub with_option :
      (Registry → OptionValues → Answer OptionValues × Registry)
      → Text
      → OptionValues
      → Parsed × Registry
      → Answer OptionValues × Registry
  with_option next v ovs (found opt, r) =
      with_value next opt r ovs (parse parse_duration (item_of opt).kind v)
  with_option next v ovs (not_found, r) = (fails option_not_found, r)
  with_option next v ovs (blocks, r) = (hangs, r)

  -- The loop over the query.
  unfoldable pub parse_query :
      List (Text × Text) → Registry → OptionValues → Answer OptionValues × Registry
  parse_query [] r ovs = (answer ovs, r)
  parse_query ((k, v) ∷ q) r ovs = with_option (parse_query q) v ovs (parse_option r k)

  abbrev pub built :
      Text → ConnType → Url → Answer OptionValues × Registry → Answer MultiSocketAddress × Registry
  built s type u (answer ovs, r) =
      (answer (record { raw = s; conn_type = type; addr = addr_of u; ovs = ovs }), r)
  built s type u (fails e, r) = (fails e, r)
  built s type u (hangs, r) = (hangs, r)

  abbrev pub parse_typed :
      Text → Registry → Url → Option ConnType → Answer MultiSocketAddress × Registry
  parse_typed s r u none = (fails bad_connect_type, r)
  parse_typed s r u (some type) = built s type u (parse_query u.query r [])

  abbrev pub parse_from : Text → Registry → Option Url → Answer MultiSocketAddress × Registry
  parse_from s r none = (fails bad_url, r)
  parse_from s r (some u) = parse_typed s r u (conn_type_of u.fragment)

  unfoldable pub parse_multi_socket_address : Text → Registry → Answer MultiSocketAddress × Registry
  unfolding parse_query conn_type_of
  parse_multi_socket_address s r = parse_from s r (parse_url s)

-- Two ranges over maps that write into `xovs`; a range may visit a map's entries in any order, here
-- from the last to the first.
unfoldable pub put_all : OptionValues → OptionValues → OptionValues
put_all [] xovs = xovs
put_all ((o, v) ∷ ovs) xovs = insert o v (put_all ovs xovs)

unfoldable pub merge_into : OptionValues → List OptionValues → OptionValues
unfolding put_all
merge_into xovs [] = xovs
merge_into xovs (ovs ∷ ovses) = merge_into (put_all ovs xovs) ovses

-- The options that Dial and Listen pass on.
unfoldable pub merge : OptionValues → List OptionValues → OptionValues
unfolding merge_into
merge ovs ovses = merge_into (put_all ovs []) ovses

-- A DialListener, by what its two methods do to its state.
pub record DialListener {ℓ} (S : Type ℓ) : Type ℓ where
  pub dial_options : Text → OptionValues → S → S × Option Error
  pub listen_options : Text → OptionValues → S → S × Option Error

module _ {ℓ} {S : Type ℓ} (ctr : DialListener S) where
  unfoldable pub dial : MultiSocketAddress → List OptionValues → S → S × Option Error
  unfolding merge
  dial sa ovses s = ctr.dial_options sa.addr (merge sa.ovs ovses) s

  unfoldable pub listen : MultiSocketAddress → List OptionValues → S → S × Option Error
  unfolding merge
  listen sa ovses s = ctr.listen_options sa.addr (merge sa.ovs ovses) s

  abbrev pub connect_as : ConnType → MultiSocketAddress → List OptionValues → S → S × Option Error
  connect_as conn_dial sa ovses s = dial sa ovses s
  connect_as conn_listen sa ovses s = listen sa ovses s
  connect_as conn_missing sa ovses s = (s, some connect_type_missing)

  unfoldable pub connect : MultiSocketAddress → List OptionValues → S → S × Option Error
  unfolding dial listen
  connect sa ovses s = connect_as sa.conn_type sa ovses s

  -- The package's Connect, Dial and Listen: they parse first. `none`: the call waits for ever.
  abbrev pub parsed_then :
      (MultiSocketAddress → S → S × Option Error)
      → S
      → Answer MultiSocketAddress × Registry
      → Option (S × Option Error) × Registry
  parsed_then call s (answer sa, r) = (some (call sa s), r)
  parsed_then call s (fails e, r) = (some (s, some e), r)
  parsed_then call s (hangs, r) = (none, r)

module _ {ℓ} {S : Type ℓ} (parse_url : Text → Option Url) (parse_duration : Text → Option ℤ)
    (item_of : ℕ → OptionItem) (ctr : DialListener S) where
  unfoldable pub connect_to :
      Text → List OptionValues → S → Registry → Option (S × Option Error) × Registry
  unfolding connect parse_multi_socket_address
  connect_to addr ovses s r =
      parsed_then ctr (λ sa. connect ctr sa ovses) s
        (parse_multi_socket_address parse_url parse_duration item_of addr r)

  unfoldable pub dial_to :
      Text → List OptionValues → S → Registry → Option (S × Option Error) × Registry
  unfolding dial parse_multi_socket_address
  dial_to addr ovses s r =
      parsed_then ctr (λ sa. dial ctr sa ovses) s
        (parse_multi_socket_address parse_url parse_duration item_of addr r)

  unfoldable pub listen_to :
      Text → List OptionValues → S → Registry → Option (S × Option Error) × Registry
  unfolding listen parse_multi_socket_address
  listen_to addr ovses s r =
      parsed_then ctr (λ sa. listen ctr sa ovses) s
        (parse_multi_socket_address parse_url parse_duration item_of addr r)
