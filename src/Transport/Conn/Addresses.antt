-- ===== src/Transport/Conn/Addresses.antt =====
-- transport/conn.go: which transport the addresses of a connection lead back to.
use multisocket.Prelude.{ℕ, ◌≡◌, ◌≢◌, refl, true, false, Option, some, [], ◌∷◌, All, arith}
use multisocket.Errs.{ok}
use multisocket.Options.Numbers.{Text, text_eq}
use multisocket.Transport.Schemes.{
  register_transport, get_transport_from_addr, strip_scheme, get_transport-register_transport,
}
use multisocket.Transport.Conn.{NetAddr, Connection, new_connection, new_address}
use multisocket.Transport.Ws.Dial.{rw_transport, sr_transport, dial}

-- The address of the peer on a connection that was dialed, and the own address on one that was
-- accepted, lead to the transport that made the connection, if that is registered under its scheme;
-- and without the scheme they are the address that package net gives.
pub addresses-get_transport :
    (t : ℕ) (scheme : Text) (laddr raddr : NetAddr) (transports : Text → Option ℕ)
    → All (λ c. c ≢ b':') scheme
    → (get_transport_from_addr
          (register_transport t scheme transports)
          (new_connection scheme laddr raddr false).remote_address
        ≡ some t)
      × (strip_scheme (new_connection scheme laddr raddr false).remote_address ≡ ok raddr.string)
      × (get_transport_from_addr
            (register_transport t scheme transports)
            (new_connection scheme laddr raddr true).local_address
          ≡ some t)
      × (strip_scheme (new_connection scheme laddr raddr true).local_address ≡ ok laddr.string)
unfolding new_connection
addresses-get_transport t scheme laddr raddr transports h =
    let (a, b, _) =
      get_transport-register_transport t scheme raddr.string (b':' ∷ scheme) transports h
        (other scheme h) in
    let (c, d, _) =
      get_transport-register_transport t scheme laddr.string (b':' ∷ scheme) transports h
        (other scheme h) in
    (a, b, c, d)
  where
    other : (s : Text) → All (λ c. c ≢ b':') s → text_eq (b':' ∷ s) s ≡ false
    other [] h = refl
    other (c ∷ s) h = let n = h.0 in ground (arith, n)

-- A websocket that is dialed by the transport ws.sr, with two transports registered, has the address
-- of a peer of ws.rw, and leads back to that transport.
pub dial-sr_transport :
    (rw sr : ℕ) (addr : Text) (laddr : NetAddr) (transports : Text → Option ℕ)
    → (c : Connection) × (dial sr_transport addr (ok (laddr, true)) ≡ ok (c, true))
      × (c.transport ≡ rw_transport.scheme)
      × (get_transport_from_addr
            (register_transport rw rw_transport.scheme
              (register_transport sr sr_transport.scheme transports))
            c.remote_address
          ≡ some rw)
unfolding dial new_connection new_address
dial-sr_transport rw sr addr laddr transports = (
  new_connection rw_transport.scheme laddr (new_address sr_transport.scheme addr) false,
  refl,
  refl,
  (get_transport-register_transport rw rw_transport.scheme addr sr_transport.scheme
      (register_transport sr sr_transport.scheme transports)
      (
        (λ e. omega (arith, e)),
        (
          (λ e. omega (arith, e)),
          ((λ e. omega (arith, e)), ((λ e. omega (arith, e)), ((λ e. omega (arith, e)), tt))),
        ),
      )
      refl).0,
)
