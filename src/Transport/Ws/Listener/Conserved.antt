-- ===== src/Transport/Ws/Listener/Conserved.antt =====
-- transport/ws/ws.go: what becomes of the connections that the upgrader makes.
use multisocket.Prelude.{
  ℕ, ◌+◌, ◌≡◌, refl, ap, Bool, true, false, not, Option, none, some, List, [], ◌∷◌, count,
  count-append, arith, ◌&&◌, if◌then◌else◌,
}
use multisocket.Prelude.Queue.{Chan}
use multisocket.Errs.{ok, err, closed, bad_operate_state}
use multisocket.Transport.Ws.Listener.{
  new_listener, accepted, accept_failed, accept_waits, items_of, set_items, take_pending, accept,
  close,
}
use multisocket.Transport.Ws.Listener.Calls.{
  Call, Run, count_sending, sends, meets, after_accept, after_close, step, steps, start, Balances,
  listens, serves, puts, accepts, shuts,
}
use multisocket.Transport.Ws.Listener.Sends.{
  listens-Balances, serves-Balances, sends-Balances, meets-Balances, puts-Balances,
}

set_items-items :
    (cs : List ℕ) (o : Option (Chan ℕ)) (c : ℕ) (ds : List ℕ)
    → items_of o ≡ c ∷ ds
    → items_of (set_items cs o) ≡ cs
set_items-items cs none c ds e = absurd (cc)
set_items-items cs (some q) c ds e = refl

pub set_items-none : (o : Option (Chan ℕ)) → items_of (set_items [] o) ≡ []
set_items-none none = refl
set_items-none (some q) = refl

take_pending-Balances :
    (test : ℕ → Bool) (pick : Bool) (r : Run) (cs : List ℕ)
    → items_of r.listener.pending ≡ cs
    → Balances test r
    → Balances test (after_accept r (take_pending pick r.listener cs))
take_pending-Balances test pick r [] e b = go r.listener.is_closed
  where
    go :
        (c : Bool)
        → Balances test (after_accept r (if c then accept_failed closed else accept_waits))
    go true = b
    go false = b
take_pending-Balances test pick r (c ∷ cs) e b = go (r.listener.is_closed && pick)
  where
    go :
        (shut : Bool)
        → Balances test (
            after_accept r (
              if shut
              then accept_failed closed
              else accepted c (record (r.listener) { pending = set_items cs r.listener.pending })))
    go true = b
    go false = omega (
      arith,
      b,
      ap (count test) e,
      ap (count test) (set_items-items cs r.listener.pending c cs e),
    )

accepts-Balances :
    (test : ℕ → Bool) (pick : Bool) (r : Run)
    → Balances test r
    → Balances test (step (accepts pick) r)
unfolding step accept
accepts-Balances test pick r b = go (not r.listener.external_listen && not r.listener.has_listener)
  where
    go :
        (c : Bool)
        → Balances test (
            after_accept r (
              if c
              then accept_failed bad_operate_state
              else take_pending pick r.listener (items_of r.listener.pending)))
    go true = b
    go false = take_pending-Balances test pick r (items_of r.listener.pending) refl b

shuts-Balances : (test : ℕ → Bool) (r : Run) → Balances test r → Balances test (step shuts r)
unfolding step close
shuts-Balances test r b = go r.listener.is_closed
  where
    go :
        (c : Bool)
        → Balances test (
            after_close r (
              if c
              then err closed
              else ok (
                record (r.listener) { is_closed = true; pending = set_items [] r.listener.pending },
                items_of r.listener.pending,
              )))
    go true = b
    go false = omega (
      arith,
      b,
      ap (count test) (set_items-none r.listener.pending),
      count-append test (items_of r.listener.pending) r.shut,
    )

step-Balances : (test : ℕ → Bool) (c : Call) (r : Run) → Balances test r → Balances test (step c r)
step-Balances test (listens o resolved bound) r b = listens-Balances test o resolved bound r b
step-Balances test (serves known c) r b = serves-Balances test known c r b
step-Balances test (sends c) r b = sends-Balances test c r b
step-Balances test (puts c) r b = puts-Balances test c r b
step-Balances test (meets c) r b = meets-Balances test c r b
step-Balances test (accepts pick) r b = accepts-Balances test pick r b
step-Balances test shuts r b = shuts-Balances test r b

steps-Balances :
    (test : ℕ → Bool) (cs : List Call) (r : Run) → Balances test r → Balances test (steps cs r)
unfolding steps
steps-Balances test [] r b = b
steps-Balances test (c ∷ cs) r b = steps-Balances test cs (step c r) (step-Balances test c r b)

start-Balances : (test : ℕ → Bool) → Balances test start
unfolding new_listener
start-Balances test = omega arith

-- Whatever calls of Listen, ServeHTTP, Accept and Close a new listener takes, in any order and
-- interleaved, as many of the connections that were upgraded, by any test, are on their way to a send,
-- wait in a send, were returned by Accept, were closed, are in a queue that a later Listen replaced, or
-- are pending. So no connection is returned twice, or returned and closed; but those in a queue that
-- was replaced are lost.
pub conns_conserved :
    (cs : List Call) (test : ℕ → Bool)
    → count test (steps cs start).upgraded
      ≡ count test (steps cs start).in_flight
        + count_sending test (steps cs start).sending
        + count test (steps cs start).given
        + count test (steps cs start).shut
        + count test (steps cs start).lost
        + count test (items_of (steps cs start).listener.pending)
conns_conserved cs test = steps-Balances test cs start (start-Balances test)
