-- ===== src/Tests/Addresses.antt =====
-- address/address.go at concrete inputs.
use multisocket.Prelude.{ℕ, ◌≡◌, refl, true, false, Option, none, some, List, [], ◌∷◌, ◌==◌}
use multisocket.Prelude.Int.{ℤ, pos}
use multisocket.Prelude.Assoc.{lookup, insert}
use multisocket.Options.{Value, Kind, OptionItem, parse}
use multisocket.Options.Numbers.{Text}
use multisocket.Options.Registry.{Registry, Entries, parse_option}
use multisocket.Address.{
  OptionValues, Url, ConnType, MultiSocketAddress, DialListener, Error, Answer, conn_type_of,
  connect, parse_multi_socket_address, option_not_found, addr_of, connect_type_missing,
}
use multisocket.Address.Merge.{last_value, connect_cases}
use multisocket.Address.Parse.{parse_address_accepted, parse_after_unknown, IsAccepted, query_value}

-- A caller that writes down what it was asked to do.
abbrev log : DialListener (List (Text × OptionValues))
log = record {
  dial_options = λ a ovs s. ((a, ovs) ∷ s, none);
  listen_options = λ a ovs s. ((a, ovs) ∷ s, none);
}

abbrev peer : MultiSocketAddress
peer = record {
  raw = [];
  conn_type = ConnType.conn_dial;
  addr = b'a' ∷ [];
  ovs = (1, Value.int (pos 5)) ∷ (2, Value.bool true) ∷ [];
}

-- The option 1 is overruled.
connect_cases_example :
    (xovs : OptionValues) × ((k : ℕ)
      → lookup k xovs ≡ last_value k (lookup k peer.ovs) (((1, Value.int (pos 7)) ∷ []) ∷ []))
    × (connect log peer (((1, Value.int (pos 7)) ∷ []) ∷ []) [] ≡ ((b'a' ∷ [], xovs) ∷ [], none))
connect_cases_example = connect_cases log peer (((1, Value.int (pos 7)) ∷ []) ∷ []) []

-- "t://h/p#dial" with the option "x", which is registered, or with the option "y", which is not.
abbrev url_of : Text → Url
url_of k = record {
  scheme = b't' ∷ [];
  host = b'h' ∷ [];
  path = b'/' ∷ b'p' ∷ [];
  fragment = b'd' ∷ b'i' ∷ b'a' ∷ b'l' ∷ [];
  query = (k, b'4' ∷ b'2' ∷ []) ∷ [];
}

-- The text is the name of the option.
abbrev parse_url : Text → Option Url
parse_url s = some (url_of s)

abbrev no_duration : Text → Option ℤ
no_duration s = none

abbrev small : ℕ → OptionItem
small opt = record { key = opt; kind = Kind.uint8_option; default_value = Value.uint8 16 }

abbrev registry : Registry
registry = record {
  locked = false;
  registered_options =
      Entries.entry (b'x' ∷ []) (multisocket.Options.Registry.Node.item 2) Entries.nil;
}

abbrev with_x : MultiSocketAddress
with_x = record {
  raw = b'x' ∷ [];
  conn_type = ConnType.conn_dial;
  addr = addr_of (url_of (b'x' ∷ []));
  ovs = (2, Value.uint64 42) ∷ [];
}

parse_address_accepted_example :
    (u : Url) × (parse_url (b'x' ∷ []) ≡ some u)
    × (conn_type_of u.fragment ≡ some ConnType.conn_dial)
    × (with_x.addr ≡ addr_of u)
    × multisocket.Prelude.All (IsAccepted parse_url no_duration small) with_x.ovs
    × ((o : ℕ)
        → lookup o with_x.ovs ≡ query_value parse_url no_duration small registry o u.query none)
unfolding parse_multi_socket_address multisocket.Address.parse_query conn_type_of parse_option parse
    insert multisocket.Options.Registry.find_at multisocket.Options.Registry.find
    multisocket.Options.Registry.split multisocket.Options.Registry.split_from
    multisocket.Options.Numbers.parse_uint multisocket.Options.Numbers.digits_from
parse_address_accepted_example =
    parse_address_accepted parse_url no_duration small (b'x' ∷ []) registry registry with_x refl

parse_after_unknown_example :
    parse_multi_socket_address parse_url no_duration small
      (b'x' ∷ [])
      (record registry { locked = true })
    ≡ (Answer.hangs, record registry { locked = true })
unfolding parse_multi_socket_address multisocket.Address.parse_query conn_type_of parse_option
    multisocket.Options.Registry.find_at multisocket.Options.Registry.find
    multisocket.Options.Registry.split multisocket.Options.Registry.split_from
parse_after_unknown_example =
    parse_after_unknown parse_url no_duration small (b'y' ∷ []) (b'x' ∷ []) registry
      (record registry { locked = true }) (url_of (b'x' ∷ [])) ConnType.conn_dial (b'x' ∷ [])
      (b'4' ∷ b'2' ∷ []) [] refl refl refl refl
