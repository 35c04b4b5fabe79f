-- ===== src/Transport/Ws/Dial.antt =====
-- transport/ws/ws.go: the transports ws.rw and ws.sr, their addresses, and Dial. `parse_url` is
-- url.Parse.
use multisocket.Prelude.{Bool, true, false, Option, none, some, [], ◌∷◌, if◌then◌else◌}
use multisocket.Errs.{Outcome, ok, err, ◌>>=◌, bad_protocol, other}
use multisocket.Options.Numbers.{Text, text_eq}
use multisocket.Transport.Schemes.{strip_scheme}
use multisocket.Transport.Conn.{NetAddr, new_address, Connection, new_connection}

pub record WsTran : Type 0 where
  pub scheme : Text
  pub is_sr : Bool
  pub is_rw : Bool

abbrev pub rw_transport : WsTran
rw_transport = record {
  scheme = b'w' ∷ b's' ∷ b'.' ∷ b'r' ∷ b'w' ∷ [];
  is_sr = false;
  is_rw = true;
}

abbrev pub sr_transport : WsTran
sr_transport = record {
  scheme = b'w' ∷ b's' ∷ b'.' ∷ b's' ∷ b'r' ∷ [];
  is_sr = true;
  is_rw = false;
}

pub record Url : Type 0 where
  pub scheme : Text
  pub host : Text
  pub path : Text

-- strings.TrimSuffix, for a suffix that is not empty.
abbrev pub trim_suffix : Text → Text → Text
trim_suffix suffix [] = []
trim_suffix suffix (c ∷ s) =
    let rest = trim_suffix suffix s in if text_eq (c ∷ s) suffix then [] else c ∷ rest

abbrev pub url_or_err : Text → Option Url → Outcome (Url × Text)
url_or_err addr none = err (other 0)
url_or_err addr (some u) = ok (u, addr)

unfoldable pub parse_address_to_url : (Text → Option Url) → Text → Outcome (Url × Text)
unfolding strip_scheme
parse_address_to_url parse_url address = do
  addr ← strip_scheme address
  url_or_err addr (parse_url address)

abbrev pub trimmed : WsTran → Url → Url
trimmed t u =
    if t.is_sr
    then record u { scheme = trim_suffix (b'.' ∷ b's' ∷ b'r' ∷ []) u.scheme }
    else if t.is_rw
    then record u { scheme = trim_suffix (b'.' ∷ b'r' ∷ b'w' ∷ []) u.scheme }
    else u

-- A dialer, or what a listener serves: the URL and the address without its scheme.
unfoldable pub new_dialer : (Text → Option Url) → WsTran → Text → Outcome (Url × Text)
unfolding parse_address_to_url
new_dialer parse_url t address = do
  (u, addr) ← parse_address_to_url parse_url address
  ok (trimmed t u, addr)

abbrev pub with_path : Url → Url
with_path u = if text_eq u.path [] then record u { path = b'/' ∷ [] } else u

unfoldable pub new_listener : (Text → Option Url) → WsTran → Text → Outcome (Url × Text)
unfolding parse_address_to_url
new_listener parse_url t address = do
  (u, addr) ← parse_address_to_url parse_url address
  ok (trimmed t (with_path u), addr)

-- Dial: `dialed` is the local address of the websocket that the gorilla dialer made, and whether it
-- has one of the two subprotocols. The Boolean says that the connection sends and receives packets.
abbrev pub connected : WsTran → Text → NetAddr → Bool → Outcome (Connection × Bool)
connected t addr laddr false = err bad_protocol
connected t addr laddr true =
    ok (new_connection rw_transport.scheme laddr (new_address t.scheme addr) false, t.is_sr)

unfoldable pub dial : WsTran → Text → Outcome (NetAddr × Bool) → Outcome (Connection × Bool)
unfolding new_connection new_address
dial t addr dialed = do (laddr, known) ← dialed; connected t addr laddr known
