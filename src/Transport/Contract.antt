-- ===== src/Transport/Contract.antt =====
-- transport/types.go: the interface Listener, as the operations of a state, and what its four
-- implementations do before Listen and after Close.
pub mod Local
pub mod Close
use multisocket.Prelude.{
  ℕ, ◌≡◌, refl, ap, sym, ◌∙◌, Bool, true, false, Option, none, some, List, [], ◌∷◌, arith,
  if◌then◌else◌, not, ◌&&◌,
}
use multisocket.Prelude.Assoc.{lookup, insert, delete, lookup-insert, lookup-delete}
use multisocket.Errs.{Err, Outcome, ok, err, panic, closed, bad_operate_state, not_listening}
use multisocket.Transport.Tcp
use multisocket.Transport.Ipc
use multisocket.Transport.Inproc
use multisocket.Transport.Ws.Listener
use multisocket.Transport.Ws.Listener.Conserved.{set_items-none}
use mathlib.Core.Path.{subst}

-- What Accept comes to: a connection and the listener after it, an error, or a wait.
pub data Accepted {ℓ} (S : Type ℓ) : Type ℓ where
  connection : ℕ → S → Accepted S
  fails : Err → Accepted S
  waits : Accepted S

pub record ListenerOps {ℓ} (S : Type ℓ) : Type ℓ where
  pub is_closed : S → Bool
  pub listen : S → S × Option Err
  pub accept : S → Accepted S
  pub close : S → S × Option Err

-- A state in which Close and Listen answer ErrClosed and change nothing, and Accept fails, and does not
-- wait.
pub record IsOver {ℓ} {S : Type ℓ} (ops : ListenerOps S) (s : S) : Type ℓ where
  pub shut : ops.is_closed s ≡ true
  pub close_again : ops.close s ≡ (s, some closed)
  pub listen_again : ops.listen s ≡ (s, some closed)
  pub accept_fails : (e : Err) × (ops.accept s ≡ fails e)

abbrev pub Closes {ℓ} : {S : Type ℓ} → ListenerOps S → S → Type ℓ
Closes ops s = IsOver ops (ops.close s).0

-- Calls of the interface, one after the other; whether each was refused, Listen and Close with
-- ErrClosed, and the state at the end.
pub data Call : Type 0 where
  listens accepts closes : Call

abbrev pub is_closed_error : Option Err → Bool
is_closed_error (some closed) = true
is_closed_error (some e) = false
is_closed_error none = false

abbrev pub accepted_or {ℓ} : {S : Type ℓ} → S → Accepted S → S × Bool
accepted_or s (connection c s') = (s', false)
accepted_or s (fails e) = (s, true)
accepted_or s waits = (s, false)

abbrev pub call {ℓ} : {S : Type ℓ} → ListenerOps S → Call → S → S × Bool
call ops listens s = let r = ops.listen s in (r.0, is_closed_error r.1)
call ops accepts s = accepted_or s (ops.accept s)
call ops closes s = let r = ops.close s in (r.0, is_closed_error r.1)

abbrev pub also_refused {ℓ} : {S : Type ℓ} → Bool → S × Bool → S × Bool
also_refused b (s, bs) = (s, b && bs)

unfoldable pub calls {ℓ} : {S : Type ℓ} → ListenerOps S → List Call → S → S × Bool
calls ops [] s = (s, true)
calls ops (c ∷ cs) s = let r = call ops c s in also_refused r.1 (calls ops cs r.0)

call-IsOver {ℓ} :
    {S : Type ℓ} (ops : ListenerOps S) (c : Call) (s : S) → IsOver ops s → call ops c s ≡ (s, true)
call-IsOver ops listens s h = ap (λ r. (r.0, is_closed_error r.1)) h.listen_again
call-IsOver ops accepts s h = ap (accepted_or s) ((h.accept_fails).1)
call-IsOver ops closes s h = ap (λ r. (r.0, is_closed_error r.1)) h.close_again

pub calls-IsOver {ℓ} :
    {S : Type ℓ} (ops : ListenerOps S) (cs : List Call) (s : S)
    → IsOver ops s
    → calls ops cs s ≡ (s, true)
unfolding calls
calls-IsOver ops [] s h = refl
calls-IsOver ops (c ∷ cs) s h =
    ap (λ r. also_refused r.1 (calls ops cs r.0)) (call-IsOver ops c s h)
    ∙ ap (also_refused true) (calls-IsOver ops cs s h)

abbrev pub from_outcome {ℓ} : {S : Type ℓ} → S → Outcome ℕ → Accepted S
from_outcome s (ok c) = connection c s
from_outcome s (err e) = fails e
from_outcome s panic = waits

-- The listeners, by what the packages net and os, and the other goroutines, do.
abbrev pub tcp_ops :
    (Tcp.Setting → Option Err)
    → Tcp.Opts
    → Option Err
    → Outcome ℕ
    → Option Err
    → ListenerOps Tcp.Listener
tcp_ops answer o bound came shut = record {
  is_closed = λ l. l.is_closed;
  listen = Tcp.listen bound;
  accept = λ l. from_outcome l (Tcp.accept answer o came l).0;
  close = Tcp.close shut;
}

abbrev pub ipc_ops :
    Option Err → Option Err → Outcome ℕ → Option Err → ListenerOps (Ipc.Listener × Ipc.File)
ipc_ops removed bound came shut = record {
  is_closed = λ s. s.0.is_closed;
  listen = λ s. let r = Ipc.listen removed bound s.0 s.1 in ((r.0, r.1), r.2);
  accept = λ s. from_outcome s (Ipc.accept came s.0);
  close = λ s. let r = Ipc.close shut s.0 in ((r.0, s.1), r.1);
}

tcp-Closes :
    (answer : Tcp.Setting → Option Err) (o : Tcp.Opts) (bound : Option Err) (came : Outcome ℕ)
    (shut : Option Err) (l : Tcp.Listener)
    → l.is_closed ≡ false
    → Closes (tcp_ops answer o bound came shut) l
unfolding Tcp.listen Tcp.accept Tcp.close
tcp-Closes answer o bound came shut l h = record {
  shut = simp h refl;
  close_again = simp h refl;
  listen_again = simp h refl;
  accept_fails = (closed, simp h refl);
}

ipc-Closes :
    (removed bound : Option Err) (came : Outcome ℕ) (shut : Option Err) (l : Ipc.Listener)
    (file : Ipc.File)
    → l.is_closed ≡ false
    → Closes (ipc_ops removed bound came shut) (l, file)
unfolding Ipc.listen Ipc.accept Ipc.close
ipc-Closes removed bound came shut l file h = record {
  shut = simp h refl;
  close_again = simp h refl;
  listen_again = simp h refl;
  accept_fails = (closed, simp h refl);
}

-- A websocket listener: what the calls make of the results of package ws.
abbrev pub ws_closed :
    Listener.Listener → Outcome (Listener.Listener × List ℕ) → Listener.Listener × Option Err
ws_closed l (ok (l', cs)) = (l', none)
ws_closed l (err e) = (l, some e)
ws_closed l panic = (l, none)

abbrev pub ws_accepted : Listener.Accepted → Accepted Listener.Listener
ws_accepted (Listener.accepted c l) = connection c l
ws_accepted (Listener.accept_failed e) = fails e
ws_accepted Listener.accept_waits = waits

abbrev pub ws_ops : Listener.Opts → Option Err → Option Err → Bool → ListenerOps Listener.Listener
ws_ops o resolved bound pick = record {
  is_closed = λ l. l.is_closed;
  listen = Listener.listen o resolved bound;
  accept = λ l. ws_accepted (Listener.accept pick l);
  close = λ l. ws_closed l (Listener.close l);
}

ws_accept_closed :
    (pick : Bool) (l : Listener.Listener)
    → l.is_closed ≡ true
    → Listener.items_of l.pending ≡ []
    → (e : Err) × (ws_accepted (Listener.accept pick l) ≡ fails e)
unfolding Listener.accept
ws_accept_closed pick l h none_left = go (not l.external_listen && not l.has_listener)
  where
    empty : (cs : List ℕ) → cs ≡ [] → ws_accepted (Listener.take_pending pick l cs) ≡ fails closed
    empty [] e = simp h refl
    empty (c ∷ cs) e = absurd (cc)

    go :
        (b : Bool)
        → (e : Err) × (ws_accepted (
              if b
              then Listener.accept_failed bad_operate_state
              else Listener.take_pending pick l (Listener.items_of l.pending))
            ≡ fails e)
    go true = (bad_operate_state, refl)
    go false = (closed, empty (Listener.items_of l.pending) none_left)

ws-Closes :
    (o : Listener.Opts) (resolved bound : Option Err) (pick : Bool) (l : Listener.Listener)
    → l.is_closed ≡ false
    → Closes (ws_ops o resolved bound pick) l
unfolding Listener.listen Listener.close
ws-Closes o resolved bound pick l h = record {
  shut = simp h refl;
  close_again = simp h refl;
  listen_again = simp h refl;
  accept_fails =
      subst
        (λ (x : Listener.Listener). (e : Err) × (ws_accepted (Listener.accept pick x) ≡ fails e))
        (sym (simp h refl))
        (ws_accept_closed pick
          (record l { is_closed = true; pending = Listener.set_items [] l.pending }) refl
          (set_items-none l.pending));
}
