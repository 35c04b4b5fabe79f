-- ===== src/Transport/Contract/Local.antt =====
-- transport/inproc/inproc.go: a listener as an implementation of the interface Listener.
use multisocket.Prelude.{
  ℕ, ◌≡◌, refl, ap, sym, ◌∙◌, Bool, true, false, Option, none, some, arith, if◌then◌else◌, not,
}
use multisocket.Prelude.Assoc.{lookup, insert, delete, lookup-insert, lookup-delete}
use multisocket.Errs.{Err, closed, not_listening}
use multisocket.Transport.Inproc
use mathlib.Core.Path.{subst}
use multisocket.Transport.Contract.{Accepted, ListenerOps, IsOver, Closes, connection, fails, waits}

-- The in-process listener with the pointer `l`, as a part of its transport.
abbrev pub inproc_accepted : Inproc.Accepted → Accepted Inproc.Tran
inproc_accepted (Inproc.accepted d n t) = connection d t
inproc_accepted (Inproc.accept_failed e) = fails e
inproc_accepted Inproc.accept_waits = waits

abbrev pub closed_at : Option Inproc.Listener → Bool
closed_at none = true
closed_at (some x) = x.is_closed

abbrev pub listen_at : ℕ → Inproc.Tran → Option Inproc.Listener → Inproc.Tran × Option Err
listen_at l t none = (t, some closed)
listen_at l t (some x) = Inproc.listen l x t

abbrev pub accept_at : Bool → ℕ → Inproc.Tran → Option Inproc.Listener → Accepted Inproc.Tran
accept_at pick l t none = fails closed
accept_at pick l t (some x) = inproc_accepted (Inproc.accept pick l x t)

abbrev pub close_at : ℕ → Inproc.Tran → Option Inproc.Listener → Inproc.Tran × Option Err
close_at l t none = (t, some closed)
close_at l t (some x) = Inproc.close l x t

abbrev pub inproc_ops : Bool → ℕ → ListenerOps Inproc.Tran
inproc_ops pick l = record {
  is_closed = λ t. closed_at (lookup l t.listeners);
  listen = λ t. listen_at l t (lookup l t.listeners);
  accept = λ t. accept_at pick l t (lookup l t.listeners);
  close = λ t. close_at l t (lookup l t.listeners);
}

-- The transport after Close of the listener.
abbrev pub gone : ℕ → Inproc.Listener → Inproc.Tran → Inproc.Tran
gone l x t =
    Inproc.remove_listener l x.addr
      (record t { listeners = insert l (record x { is_closed = true }) t.listeners })

pub gone-lookup :
    (l : ℕ) (x : Inproc.Listener) (t : Inproc.Tran)
    → lookup l (gone l x t).listeners ≡ some (record x { is_closed = true })
unfolding Inproc.remove_listener
gone-lookup l x t = go (Inproc.is_listening l x.addr closing)
  where
    closing : Inproc.Tran
    closing = record t { listeners = insert l (record x { is_closed = true }) t.listeners }

    there : lookup l closing.listeners ≡ some (record x { is_closed = true })
    there = ground (arith, lookup-insert l l (record x { is_closed = true }) t.listeners)

    go :
        (b : Bool)
        → lookup l
            (if b
              then record closing { by_addr = delete x.addr closing.by_addr }
              else closing).listeners
          ≡ some (record x { is_closed = true })
    go true = there
    go false = there

pub gone-unregistered :
    (l : ℕ) (x : Inproc.Listener) (t : Inproc.Tran)
    → Inproc.is_listening l x.addr (gone l x t) ≡ false
unfolding Inproc.remove_listener Inproc.is_listening
gone-unregistered l x t = go (Inproc.same_pointer l (lookup x.addr t.by_addr)) refl
  where
    closing : Inproc.Tran
    closing = record t { listeners = insert l (record x { is_closed = true }) t.listeners }

    go :
        (b : Bool)
        → Inproc.same_pointer l (lookup x.addr t.by_addr) ≡ b
        → Inproc.same_pointer l (
            lookup x.addr
              (if b
                then record closing { by_addr = delete x.addr closing.by_addr }
                else closing).by_addr)
          ≡ false
    go true e =
        let none_left : lookup x.addr (delete x.addr t.by_addr) ≡ none =
          ground (arith, lookup-delete x.addr x.addr t.by_addr) in
        ap (Inproc.same_pointer l) none_left
    go false e = e

pub inproc-Closes :
    (pick : Bool) (l : ℕ) (x : Inproc.Listener) (t : Inproc.Tran)
    → lookup l t.listeners ≡ some x
    → x.is_closed ≡ false
    → Closes (inproc_ops pick l) t
unfolding Inproc.listen Inproc.accept Inproc.close
inproc-Closes pick l x t there h = subst (IsOver (inproc_ops pick l)) (sym to) (record {
  shut = ap closed_at here;
  close_again = ap (close_at l after) here;
  listen_again = ap (listen_at l after) here;
  accept_fails = (
    not_listening,
    ap (accept_at pick l after) here
        ∙ ap
            (λ (b : Bool). inproc_accepted (
              if not b
              then Inproc.accept_failed not_listening
              else Inproc.accept_wait pick l (record x { is_closed = true }) after))
            (gone-unregistered l x t),
  );
})
  where
    after : Inproc.Tran
    after = gone l x t

    here : lookup l after.listeners ≡ some (record x { is_closed = true })
    here = gone-lookup l x t

    to : (close_at l t (lookup l t.listeners)).0 ≡ after
    to =
        ap (λ (o : Option Inproc.Listener). (close_at l t o).0) there
        ∙ (unfold Inproc.close in simp h refl)
