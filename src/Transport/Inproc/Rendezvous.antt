-- ===== src/Transport/Inproc/Rendezvous.antt =====
-- transport/inproc/inproc.go: the map of listeners under Dial and Accept.
use multisocket.Prelude.{ℕ, ◌≡◌, ◌≢◌, refl, ap, sym, ◌∙◌, true, false, none, some, ==_iff, arith}
use multisocket.Prelude.Assoc.{lookup, delete, lookup-delete}
use multisocket.Errs.{addr_in_use}
use multisocket.Transport.Inproc.{
  Listener, Tran, new_transport, is_listening, same_pointer, add_listener, remove_listener, listen,
  close, waits_for, is_shut,
}
use multisocket.Transport.Inproc.Served.{IsServed}

pub new-IsServed : IsServed new_transport
unfolding new_transport lookup
new-IsServed a k e = absurd (cc e)

-- A Dial that waits for a listener which was closed.
abbrev pub IsAbandoned : ℕ → Tran → Type 0
IsAbandoned d t =
    (l : ℕ) × (lookup d t.dialings ≡ some (waits_for l)) × (is_shut (lookup l t.listeners) ≡ true)

-- While a listener has an address, Listen of another one on it fails and changes nothing; after the
-- first one has been closed, it succeeds.
pub listen-close :
    (l m : ℕ) (x y : Listener) (t : Tran)
    → lookup x.addr t.by_addr ≡ some l
    → l ≢ m
    → y.addr ≡ x.addr
    → x.is_closed ≡ false
    → y.is_closed ≡ false
    → (listen m y t ≡ (t, some addr_in_use)) × ((listen m y ((close l x t).0)).1 ≡ none)
unfolding listen close add_listener remove_listener is_listening
listen-close l m x y t at other same ox oy =
    let taken : lookup y.addr t.by_addr ≡ some l = ap (λ a. lookup a t.by_addr) same ∙ at in
    let gone : lookup y.addr (delete x.addr t.by_addr) ≡ none =
      lookup-delete x.addr y.addr t.by_addr ∙ rw ((==_iff x.addr y.addr).1 (sym same)) refl in
    let own : same_pointer l (lookup x.addr t.by_addr) ≡ true = ground (arith, at) in
    (ground (arith, taken, other, oy), ground (arith, gone, own, ox, oy))
