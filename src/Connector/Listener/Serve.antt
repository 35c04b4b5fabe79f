-- ===== src/Connector/Listener/Serve.antt =====
-- connector/listener.go: the loop of serve, on a listener of a transport that was closed.
use multisocket.Prelude.{
  ◌⊎◌, inl, inr, Bool-cases, ◌||◌, ℕ, zero, suc, ◌≡◌, refl, ap, ◌∙◌, Bool, true, false, Option,
  some, if◌then◌else◌, not,
}
use multisocket.Prelude.Assoc.{lookup}
use multisocket.Errs.{Err, Outcome, closed, not_listening}
use multisocket.Connector.Listener.{Listener, Served, ends, closes, adds, waits, serve}
use multisocket.Connector.Listener
use multisocket.Transport.Tcp
use multisocket.Transport.Ipc
use multisocket.Transport.Inproc
use multisocket.Transport.Contract.{Accepted, connection, fails, ListenerOps, tcp_ops, ipc_ops}
use multisocket.Transport.Contract.Local.{
  inproc_ops, close_at, accept_at, gone, gone-lookup, gone-unregistered, inproc_accepted,
}

-- One round of serve, by what Accept came to: whether the loop ends, and the state that it goes on with.
abbrev pub round_of {ℓ} : {S : Type ℓ} → Listener → S → Accepted S → Served × S
round_of l s (connection c s') = (serve l (Listener.connection c), s')
round_of l s (fails e) = (serve l (Listener.failed e), s)
round_of l s Accepted.waits = (waits, s)

abbrev pub next_round {ℓ} : {S : Type ℓ} → (S → Bool) → Served × S → Bool
next_round later (ends, s) = true
next_round later (closes c, s) = later s
next_round later (adds c, s) = later s
next_round later (waits, s) = later s

-- `n` rounds of serve at most; whether the loop has ended.
unfoldable pub serve_loop {ℓ} : {S : Type ℓ} → ℕ → Listener → ListenerOps S → S → Bool
unfolding serve
serve_loop zero l ops s = false
serve_loop (suc n) l ops s = next_round (serve_loop n l ops) (round_of l s (ops.accept s))

-- The rounds from an Accept on that has waited, by what it comes to.
unfoldable pub serve_woken {ℓ} : {S : Type ℓ} → ℕ → Listener → ListenerOps S → S → Accepted S → Bool
unfolding serve serve_loop
serve_woken n l ops s a = next_round (serve_loop n l ops) (round_of l s a)

ends_at_once {ℓ} :
    {S : Type ℓ} (n : ℕ) (l : Listener) (ops : ListenerOps S) (s : S)
    → ops.accept s ≡ fails closed
    → serve_loop (suc n) l ops s ≡ true
unfolding serve_loop serve
ends_at_once n l ops s e = ap (λ a. next_round (serve_loop n l ops) (round_of l s a)) e

spins {ℓ} :
    {S : Type ℓ} (n : ℕ) (l : Listener) (ops : ListenerOps S) (s : S)
    → ops.accept s ≡ fails not_listening
    → serve_loop n l ops s ≡ false
unfolding serve_loop serve
spins zero l ops s e = refl
spins (suc n) l ops s e =
    ap (λ a. next_round (serve_loop n l ops) (round_of l s a)) e ∙ spins n l ops s e

closed_to :
    (k : ℕ) (x : Inproc.Listener) (t : Inproc.Tran)
    → lookup k t.listeners ≡ some x
    → x.is_closed ≡ false
    → (close_at k t (lookup k t.listeners)).0 ≡ gone k x t
unfolding Inproc.close
closed_to k x t there h =
    ap (λ (o : Option Inproc.Listener). (close_at k t o).0) there ∙ simp h refl

inproc-accept :
    (pick : Bool) (k : ℕ) (x : Inproc.Listener) (t : Inproc.Tran)
    → lookup k t.listeners ≡ some x
    → x.is_closed ≡ false
    → (inproc_ops pick k).accept ((inproc_ops pick k).close t).0 ≡ fails not_listening
inproc-accept pick k x t there h =
    ap (λ (u : Inproc.Tran). accept_at pick k u (lookup k u.listeners)) (closed_to k x t there h)
    ∙ ap (accept_at pick k (gone k x t)) (gone-lookup k x t)
    ∙ (unfold Inproc.accept in
        ap
          (λ (b : Bool). inproc_accepted (
            if not b
            then Inproc.accept_failed not_listening
            else Inproc.accept_wait pick k (record x { is_closed = true }) (gone k x t)))
          (gone-unregistered k x t))

-- What an Accept that waits in its select comes to when Close wakes it.
abbrev pub woken : Bool → ℕ → Inproc.Listener → Inproc.Tran → Accepted Inproc.Tran
woken pick k x t =
    inproc_accepted (Inproc.accept_wait pick k (record x { is_closed = true }) (gone k x t))

woken-closed :
    (pick : Bool) (k : ℕ) (x : Inproc.Listener) (t : Inproc.Tran)
    → Inproc.nobody x.accepts ≡ true
    → woken pick k x t ≡ fails closed
unfolding Inproc.accept_wait
woken-closed pick k x t e =
    ap
      (λ (b : Bool). inproc_accepted (
        if b
        then Inproc.accept_failed closed
        else Inproc.take_from k (record x { is_closed = true }) x.accepts (gone k x t)))
      (any_or pick e)
  where
    any_or : (b : Bool) {c : Bool} → c ≡ true → (b || c) ≡ true
    any_or true h = refl
    any_or false h = h

-- When serve calls Accept after Close, the loop ends on a TCP or a UNIX listener. On an in-process
-- listener it ends if serve waits in Accept for a dialer when Close comes; but a serve that calls
-- Accept later never ends: Accept answers that the listener is not listening, which is not the error
-- that ends the loop, in every round.
pub serve_after_close :
    (n : ℕ) (l : Listener) (answer : Tcp.Setting → Option Err) (o : Tcp.Opts)
    (removed bound shut : Option Err) (came : Outcome ℕ) (tcp : Tcp.Listener) (ipc : Ipc.Listener)
    (file : Ipc.File) (pick : Bool) (k : ℕ) (x : Inproc.Listener) (t : Inproc.Tran)
    → tcp.is_closed ≡ false
    → ipc.is_closed ≡ false
    → lookup k t.listeners ≡ some x
    → x.is_closed ≡ false
    → (serve_loop
          (suc n)
          l
          (tcp_ops answer o bound came shut)
          ((tcp_ops answer o bound came shut).close tcp).0
        ≡ true)
      × (serve_loop
            (suc n)
            l
            (ipc_ops removed bound came shut)
            ((ipc_ops removed bound came shut).close (ipc, file)).0
          ≡ true)
      × ((Inproc.nobody x.accepts ≡ false)
          ⊎ (serve_woken n l (inproc_ops pick k) (gone k x t) (woken pick k x t) ≡ true))
      × (((inproc_ops pick k).close t).0 ≡ gone k x t)
      × (serve_loop n l (inproc_ops pick k) ((inproc_ops pick k).close t).0 ≡ false)
unfolding Tcp.close Tcp.accept Ipc.close Ipc.accept
serve_after_close n l answer o removed bound shut came tcp ipc file pick k x t ht hi there hx = (
  ends_at_once n l (tcp_ops answer o bound came shut) _ (simp ht refl),
  ends_at_once n l (ipc_ops removed bound came shut) _ (simp hi refl),
  elim (Bool-cases (Inproc.nobody x.accepts)) [
    | inl e ↦ inr (
        unfold serve_woken serve in
        ap (λ a. next_round (serve_loop n l (inproc_ops pick k)) (round_of l (gone k x t) a))
          (woken-closed pick k x t e))
    | inr e ↦ inl e
  ],
  closed_to k x t there hx,
  spins n l (inproc_ops pick k) _ (inproc-accept pick k x t there hx),
)
