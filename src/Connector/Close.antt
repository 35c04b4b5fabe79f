-- ===== src/Connector/Close.antt =====
-- connector/connector.go: what Close leaves, and a connection that comes after it.
use multisocket.Prelude.{
  ℕ, suc, ◌≡◌, refl, true, false, Option, none, List, [], ◌∷◌, ◌++◌, arith, ◌⊎◌, inl, inr,
}
use multisocket.Prelude.Int.{pos}
use multisocket.Errs.{Err, err, panic, closed}
use multisocket.Connector.Dialer
use multisocket.Connector.Dialer.{Dialer}
use multisocket.Connector.Listener
use multisocket.Connector.Listener.{Listener}
use multisocket.Connector.{
  Connector, PipeRef, each_dialer, each_listener, add_pipe, new_dialer, new_listener, close,
  is_no_limit, close_events,
}

-- Nothing is registered.
abbrev pub NoDialers : List (ℕ × Dialer) → Type 0
NoDialers [] = Unit {0}
NoDialers ((k, d) ∷ ds) = (d.registered ≡ false) × NoDialers ds

abbrev pub NoListeners : List (ℕ × Listener) → Type 0
NoListeners [] = Unit {0}
NoListeners ((k, l) ∷ ls) = (l.registered ≡ false) × NoListeners ls

each_dialer-close :
    (ds : List (ℕ × Dialer))
    → NoDialers (each_dialer (λ d. Dialer.close (record d { registered = false })) ds)
unfolding Dialer.close
each_dialer-close [] = tt
each_dialer-close ((k, d) ∷ ds) = (ground arith, each_dialer-close ds)

each_listener-close :
    (ls : List (ℕ × Listener))
    → NoListeners (each_listener (λ l. Listener.close (record l { registered = false })) ls)
unfolding Listener.close
each_listener-close [] = tt
each_listener-close ((k, l) ∷ ls) = (ground arith, each_listener-close ls)

-- Close of an open connector takes every dialer, listener and pipe out and starts the close of each
-- pipe; a second Close changes nothing; afterwards NewDialer and NewListener answer ErrClosed.
pub close_lem :
    (c : Connector)
    → c.is_closed ≡ false
    → NoDialers (close c).dialers
      × NoListeners (close c).listeners
      × ((close c).pipes ≡ [])
      × ((close c).events ≡ close_events c.pipes ++ c.events)
      × (close (close c) ≡ close c)
      × ((k : ℕ) (t : Option Err) (d : Dialer) → new_dialer k t d (close c) ≡ err closed)
      × ((k : ℕ) (t : Option Err) (l : Listener) → new_listener k t l (close c) ≡ err closed)
unfolding close new_dialer new_listener
close_lem c o = simp o (
  each_dialer-close c.dialers,
  each_listener-close c.listeners,
  refl,
  refl,
  refl,
  (λ k t d. refl),
  λ k t l. refl,
)

-- A connection that is made while its connector is being closed makes add_pipe panic, unless the
-- limit is 0 or below -1: the map of pipes is nil by then, and add_pipe does not ask whether the
-- connector is closed.
pub add_pipe-close :
    (p : PipeRef) (c : Connector)
    → (is_no_limit c.limit ≡ true) ⊎ ((n : ℕ) × (c.limit ≡ pos (suc n)))
    → c.is_closed ≡ false
    → add_pipe none p (close c) ≡ panic
unfolding close add_pipe
add_pipe-close p c (inl h) o = simp (o, h)
add_pipe-close p c (inr (n, h)) o = simp (o, h) (ground arith)
