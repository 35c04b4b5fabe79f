-- ===== src/Transport/Conn.antt =====
-- transport/conn.go and transport/types.go: the addresses of a connection.
pub mod Addresses
use multisocket.Prelude.{Bool, true, false, List, [], ◌∷◌, ◌++◌}
use multisocket.Options.Numbers.{Text}
use multisocket.Transport.Schemes.{separator}

-- A net.Addr, or an Address of the package.
pub record NetAddr : Type 0 where
  pub network : Text
  pub string : Text

unfoldable pub new_address : Text → Text → NetAddr
new_address scheme addr = record { network = scheme; string = addr }

-- A connection: the scheme of its transport, and the two addresses that NewConnection writes.
pub record Connection : Type 0 where
  pub transport : Text
  pub local_address : Text
  pub remote_address : Text

-- `fmt.Sprintf("%s://%s", …)`
abbrev pub join : Text → Text → Text
join scheme addr = scheme ++ (separator ++ addr)

-- The end that accepted has the transport's scheme in its own address, the end that dialed in the
-- address of the peer.
unfoldable pub new_connection : Text → NetAddr → NetAddr → Bool → Connection
new_connection transport laddr raddr true = record {
  transport = transport;
  local_address = join transport laddr.string;
  remote_address = join raddr.network raddr.string;
}
new_connection transport laddr raddr false = record {
  transport = transport;
  local_address = join laddr.network laddr.string;
  remote_address = join transport raddr.string;
}
