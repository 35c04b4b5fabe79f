-- ===== src/Socket/Stop/Laws.antt =====
-- socket.go: what becomes of the messages of a pipe that stops.
use mathlib.Core.List.{append-nil}
use mathlib.Core.Path.{subst}
use multisocket.Prelude.{
  ℕ, ◌+◌, ◌≡◌, ◌≢◌, refl, ap, sym, ◌∙◌, Bool, true, false, Option, none, some, List, [], ◌∷◌, ◌++◌,
  arith, All, if◌then◌else◌, inl, inr, Bool-cases,
}
use multisocket.Errs.{Err, bad_msg}
use multisocket.Message.{Message, send_type, send_type_to_one}
use multisocket.Socket.{
  Socket, SocketPipe, Done, done, fails, waiting, panics, resend_msg, do_send_msg, after_resend,
}
use multisocket.Socket.Sender.Conserved.{resend_msg-items, resend_msg-fails}
use multisocket.Socket.Stop.{Turn, Drained, drop_last, and_sent, after_turn, drain, stop_pipe}

the_same : (d d' : Drained) → some d ≡ some d' → d ≡ d'
the_same d d' e = cc e

-- What became of each message is known, in order; the shared queue gained what was put back.
pub record IsAccounted (ms : List Message) (s : Socket) (d : Drained) : Type 0 where
  pub all : ms ≡ d.sent ++ (d.put_back ++ d.dropped)
  pub shared : d.socket.sendq.items ≡ s.sendq.items ++ d.put_back

drop_last-IsAccounted :
    (ms : List Message) (s : Socket) (d : Drained) → drop_last s ms ≡ some d → IsAccounted ms s d
drop_last-IsAccounted ms s d e =
    subst (IsAccounted ms s)
      (the_same (record { socket = s; sent = []; put_back = []; dropped = ms }) d e)
      (record { all = refl; shared = sym (append-nil s.sendq.items) })

and_sent-IsAccounted :
    (m : Message) (ms : List Message) (s : Socket) (o : Option Drained) (d : Drained)
    → ((d' : Drained) → o ≡ some d' → IsAccounted ms s d')
    → and_sent m o ≡ some d
    → IsAccounted (m ∷ ms) s d
and_sent-IsAccounted m ms s none d further e = absurd (cc)
and_sent-IsAccounted m ms s (some d') d further e =
    let a = further d' refl in
    subst (IsAccounted (m ∷ ms) s) (the_same (record d' { sent = m ∷ d'.sent }) d e)
      (record { all = ap (◌∷◌ m) a.all; shared = a.shared })

after_turn-IsAccounted :
    (m : Message) (ms : List Message) (s : Socket) (next : Socket → Option Drained) (pick : Bool)
    (p : SocketPipe) (answer : Option Err) (d : Drained)
    → ((s' : Socket) (d' : Drained) → next s' ≡ some d' → IsAccounted ms s' d')
    → after_turn m ms next (do_send_msg pick p m answer s) ≡ some d
    → IsAccounted (m ∷ ms) s d
after_turn-IsAccounted m ms s next pick p none d further e =
    and_sent-IsAccounted m ms s (next s) d (further s) e
after_turn-IsAccounted m ms s next pick p (some x) d further e = go (resend_msg pick m s) refl e
  where
    go :
        (o : Done)
        → resend_msg pick m s ≡ o
        → after_turn m ms next (after_resend x o) ≡ some d
        → IsAccounted (m ∷ ms) s d
    go (done s') h e =
        subst (IsAccounted (m ∷ ms) s)
          (the_same (record { socket = s'; sent = []; put_back = m ∷ []; dropped = ms }) d e)
          (record { all = refl; shared = resend_msg-items pick m s s' h })
    go (fails s' y) h e =
        subst (IsAccounted (m ∷ ms) s)
          (the_same (record { socket = s'; sent = []; put_back = []; dropped = m ∷ ms }) d e)
          (record {
            all = refl;
            shared =
                ap (λ (x : Socket). x.sendq.items) (sym (resend_msg-fails pick m s s' y h))
                ∙ sym (append-nil s.sendq.items);
          })
    go waiting h e = absurd (cc)
    go panics h e = absurd (cc)

drain-IsAccounted :
    (turns : ℕ → Turn) (n : ℕ) (p : SocketPipe) (ms : List Message) (s : Socket) (d : Drained)
    → drain turns n p ms s ≡ some d
    → IsAccounted ms s d
unfolding drain
drain-IsAccounted turns n p [] s d e = drop_last-IsAccounted [] s d e
drain-IsAccounted turns n p (m ∷ ms) s d e =
    go (turns n).stops (drain-IsAccounted turns (n + 1) p ms) e
  where
    go :
        (b : Bool)
        → ((s' : Socket) (d' : Drained)
            → drain turns (n + 1) p ms s' ≡ some d'
            → IsAccounted ms s' d')
        → (if b
            then drop_last s (m ∷ ms)
            else after_turn m ms
                (drain turns (n + 1) p ms)
                (do_send_msg (turns n).pick p m (turns n).answer s))
          ≡ some d
        → IsAccounted (m ∷ ms) s d
    go true further e = drop_last-IsAccounted (m ∷ ms) s d e
    go false further e =
        after_turn-IsAccounted m ms s (drain turns (n + 1) p ms) (turns n).pick p (turns n).answer d
          further e

-- A message that is not for one receiver is never put back.
abbrev pub IsRouted : Message → Type 0
IsRouted m = send_type m.meta ≢ send_type_to_one

-- What draining a queue of such messages leaves.
pub record IsDrained (ms : List Message) (s : Socket) (d : Drained) : Type 0 where
  pub same_socket : d.socket ≡ s
  pub none_back : d.put_back ≡ []
  pub in_order : ms ≡ d.sent ++ d.dropped

resend_msg-IsRouted :
    (pick : Bool) (m : Message) (s : Socket) → IsRouted m → resend_msg pick m s ≡ fails s bad_msg
unfolding resend_msg
resend_msg-IsRouted pick m s h = ground (arith, h)

-- The outcome of draining a queue: the calls all end.
abbrev pub Drains : List Message → Socket → Option Drained → Type 0
Drains ms s o = (d : Drained) × (o ≡ some d) × IsDrained ms s d

dropped-Drains : (ms : List Message) (s : Socket) → Drains ms s (drop_last s ms)
dropped-Drains ms s = (
  record { socket = s; sent = []; put_back = []; dropped = ms },
  refl,
  record { same_socket = refl; none_back = refl; in_order = refl },
)

after_turn-Drains :
    (m : Message) (ms : List Message) (s : Socket) (next : Socket → Option Drained) (pick : Bool)
    (p : SocketPipe) (answer : Option Err)
    → IsRouted m
    → Drains ms s (next s)
    → Drains (m ∷ ms) s (after_turn m ms next (do_send_msg pick p m answer s))
after_turn-Drains m ms s next pick p none h (d, e, i) = (
  record d { sent = m ∷ d.sent },
  ap (and_sent m) e,
  record { same_socket = i.same_socket; none_back = i.none_back; in_order = ap (◌∷◌ m) i.in_order },
)
after_turn-Drains m ms s next pick p (some x) h further =
    subst (λ (o : Done). Drains (m ∷ ms) s (after_turn m ms next (after_resend x o)))
      (sym (resend_msg-IsRouted pick m s h)) (dropped-Drains (m ∷ ms) s)

pub drain-Drains :
    (turns : ℕ → Turn) (n : ℕ) (p : SocketPipe) (ms : List Message) (s : Socket)
    → All IsRouted ms
    → Drains ms s (drain turns n p ms s)
unfolding drain
drain-Drains turns n p [] s h = dropped-Drains [] s
drain-Drains turns n p (m ∷ ms) s h = elim (Bool-cases (turns n).stops) [
  | inl b ↦ rw b (dropped-Drains (m ∷ ms) s)
  | inr b ↦ rw b (
      after_turn-Drains m ms s (drain turns (n + 1) p ms) (turns n).pick p (turns n).answer (h.0)
        (drain-Drains turns (n + 1) p ms s (h.1)))
]

-- Whatever stops a pipe, when its loops end each message of its own queue was sent, was put back, or
-- was freed unsent, in this order and none twice; and the shared queue has gained exactly the messages
-- that were put back, at its end.
pub stop_pipe_accounts :
    (turns : ℕ → Turn) (p : SocketPipe) (s : Socket) (d : Drained)
    → stop_pipe turns p s ≡ some d
    → (p.sendq.items ≡ d.sent ++ (d.put_back ++ d.dropped))
      × (d.socket.sendq.items ≡ s.sendq.items ++ d.put_back)
unfolding stop_pipe
stop_pipe_accounts turns p s d e =
    let a = drain-IsAccounted turns 0 p p.sendq.items s d e in (a.all, a.shared)
