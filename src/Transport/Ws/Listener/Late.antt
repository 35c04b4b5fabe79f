-- ===== src/Transport/Ws/Listener/Late.antt =====
-- transport/ws/ws.go: a request that comes through beside Close.
use multisocket.Prelude.{
  ℕ, ◌≤◌, ◌≡◌, refl, ap, sym, ◌∙◌, Bool, true, Option, some, List, [], ◌∷◌, arith, if◌then◌else◌,
  inl, inr, Bool-cases,
}
use mathlib.Core.Path.{subst}
use multisocket.Prelude.Queue.{Chan}
use multisocket.Errs.{ok, err, closed}
use multisocket.Transport.Ws.Listener.{
  Listener, items_of, set_items, close, closes, serve_http, put_pending,
}

abbrev shut_down : Listener → Chan ℕ → Listener
shut_down l q = record l { is_closed = true; pending = some (record { size = q.size; items = [] }) }

put_pending-shut_down :
    (c : ℕ) (l : Listener) (q : Chan ℕ)
    → 1 ≤ q.size
    → put_pending c (shut_down l q)
      ≡ some (record (shut_down l q) { pending = some (record { size = q.size; items = c ∷ [] }) })
unfolding put_pending
put_pending-shut_down c l q room = ground (arith, room)

-- Close empties the queue, and then no request is served further; but a ServeHTTP that had asked
-- before puts its connection into the queue of the closed listener, if the queue has a place, and a
-- second Close does not close it.
pub put_after_close :
    (c : ℕ) (l l' : Listener) (shut : List ℕ) (q : Chan ℕ)
    → close l ≡ ok (l', shut)
    → l.pending ≡ some q
    → 1 ≤ q.size
    → (items_of l'.pending ≡ [])
      × (shut ≡ q.items)
      × ((known : Bool) → serve_http known l' ≡ closes)
      × ((l'' : Listener) × (put_pending c l' ≡ some l'')
          × (items_of l''.pending ≡ c ∷ [])
          × (close l'' ≡ err closed))
unfolding close serve_http
put_after_close c l l' shut q e p room = elim (Bool-cases l.is_closed) [
  | inl h ↦ absurd (ground (arith, e, h))
  | inr h ↦
      let done : ok
            (record l { is_closed = true; pending = set_items [] l.pending }, items_of l.pending)
          ≡ ok (l', shut) =
        sym (
          ap
            (λ (b : Bool).
              if b
              then err closed
              else ok (
                record l { is_closed = true; pending = set_items [] l.pending },
                items_of l.pending,
              ))
            h)
        ∙ e in
      let now : record l { is_closed = true; pending = set_items [] l.pending } ≡ l' = cc done in
      let closed_ones : items_of l.pending ≡ shut = cc done in
      let same : shut_down l q ≡ l' =
        ap (λ (o : Option (Chan ℕ)). record l { is_closed = true; pending = set_items [] o })
          (sym p)
        ∙ now in
      subst
        (λ (x : Listener).
          (items_of x.pending ≡ [])
          × (shut ≡ q.items)
          × ((known : Bool) → serve_http known x ≡ closes)
          × ((l'' : Listener) × (put_pending c x ≡ some l'')
              × (items_of l''.pending ≡ c ∷ [])
              × (close l'' ≡ err closed)))
        same
        (
          refl,
          sym closed_ones ∙ ap items_of p,
          (λ known. refl),
          (
            record (shut_down l q) { pending = some (record { size = q.size; items = c ∷ [] }) },
            put_pending-shut_down c l q room,
            refl,
            refl,
          ),
        )
]
