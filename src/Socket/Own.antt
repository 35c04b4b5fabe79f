-- ===== src/Socket/Own.antt =====
-- socket.go: the own queues of the pipes over the calls on the socket, and a pipe that is removed.
pub mod Copies
pub mod Ends
use multisocket.Prelude.{
  ℕ, ◌≡◌, refl, ap, sym, ◌∙◌, Bool, true, false, Option, none, some, List, [], ◌∷◌, ◌++◌, arith,
  All, All-append, if◌then◌else◌, inl, inr, Bool-cases, ◌==◌, Option-cases,
}
use mathlib.Core.Path.{subst}
use multisocket.Prelude.Assoc.{lookup, insert, delete}
use multisocket.Prelude.Queue.{make, enqueue, Chan}
use multisocket.Errs.{Outcome, ok, err, panic}
use multisocket.Message.{
  Message, FreeLevel, cur_id, bytes_of, dup, send_type, send_type_to_one, send_type_to_dest,
  send_type_to_all,
}
use multisocket.Message.Flags.{send_type-new_send_message}
use multisocket.Message.Send.{new_send_message}
use multisocket.Socket.{
  Socket, SocketPipe, Done, done, fails, waiting, panics, add_pipe, rem_pipe, removed, after_push,
  push_shared, push_to_pipe, route, send_to, push_all, pushed_copy, all_pushed, send_to_all,
  by_type, send_msg, send, send_to_path, send_all,
}
use multisocket.Socket.Queues.{Pushed, pushed, failed, blocks, do_push_msg}
use multisocket.Socket.Send.{do_push_msg-pushed}
use multisocket.Socket.Stop.{Turn, Drained, remove_pipe, stop_removed, stop_pipe}
use multisocket.Socket.Stop.Laws.{IsRouted, drain-Drains}

-- No pipe's own queue holds a message for one receiver.
abbrev pub IsOwn : ℕ × SocketPipe → Type 0
IsOwn (id, p) = All IsRouted p.sendq.items

abbrev pub AreOwn : Socket → Type 0
AreOwn s = All IsOwn s.pipes

All-insert :
    (id : ℕ) (p : SocketPipe) (ps : List (ℕ × SocketPipe))
    → All IsRouted p.sendq.items
    → All IsOwn ps
    → All IsOwn (insert id p ps)
unfolding insert
All-insert id p [] h hs = (h, tt)
All-insert id p ((k, q) ∷ ps) h hs = elim (Bool-cases (k == id)) [
  | inl e ↦ rw e (h, hs.1)
  | inr e ↦ rw e (hs.0, All-insert id p ps h (hs.1))
]

All-delete : (id : ℕ) (ps : List (ℕ × SocketPipe)) → All IsOwn ps → All IsOwn (delete id ps)
unfolding delete
All-delete id [] hs = tt
All-delete id ((k, q) ∷ ps) hs = elim (Bool-cases (k == id)) [
  | inl e ↦ rw e (All-delete id ps (hs.1))
  | inr e ↦ rw e (hs.0, All-delete id ps (hs.1))
]

All-lookup :
    (id : ℕ) (p : SocketPipe) (ps : List (ℕ × SocketPipe))
    → All IsOwn ps
    → lookup id ps ≡ some p
    → All IsRouted p.sendq.items
unfolding lookup
All-lookup id p [] hs e = absurd (cc)
All-lookup id p ((k, q) ∷ ps) hs e = elim (Bool-cases (k == id)) [
  | inl b ↦
      let same : q ≡ p = ground (arith, b, e) in
      subst (λ (x : SocketPipe). All IsRouted x.sendq.items) same (hs.0)
  | inr b ↦
      let there : lookup id ps ≡ some p = ground (arith, b, e) in All-lookup id p ps (hs.1) there
]

-- The socket after a call, whatever the call answers.
abbrev pub after : Socket → Done → Socket
after s (done s') = s'
after s (fails s' e) = s'
after s waiting = s
after s panics = s

either_way :
    (b : Bool) (s : Socket) (x y : Done)
    → AreOwn (after s x)
    → AreOwn (after s y)
    → AreOwn (after s (if b then x else y))
either_way true s x y hx hy = hx
either_way false s x y hx hy = hy

-- A push on one queue keeps the invariant if putting the queue back does.
after_push-AreOwn :
    (pick : Bool) (m : Message) (q : Chan Message) (s : Socket) (put : Chan Message → Socket)
    → AreOwn s
    → AreOwn (put (enqueue m q))
    → AreOwn (after s (after_push s put (do_push_msg s.best_effort s.closedq_closed pick m q)))
after_push-AreOwn pick m q s put h k = go (do_push_msg s.best_effort s.closedq_closed pick m q) refl
  where
    go :
        (o : Pushed)
        → do_push_msg s.best_effort s.closedq_closed pick m q ≡ o
        → AreOwn (after s (after_push s put o))
    go (pushed q') e =
        subst (λ (x : Chan Message). AreOwn (put x))
          (sym ((do_push_msg-pushed s.best_effort s.closedq_closed pick m q q' e).0)) k
    go (failed x) e = h
    go blocks e = h

push_to_pipe-AreOwn :
    (pick : Bool) (m : Message) (id : ℕ) (o : Option SocketPipe) (s : Socket)
    → IsRouted m
    → AreOwn s
    → lookup id s.pipes ≡ o
    → AreOwn (after s (push_to_pipe pick m id o s))
push_to_pipe-AreOwn pick m id none s r h e = h
push_to_pipe-AreOwn pick m id (some p) s r h e =
    after_push-AreOwn pick m p.sendq s
      (λ q. record s { pipes = insert id (record p { sendq = q }) s.pipes }) h
      (All-insert id (record p { sendq = enqueue m p.sendq }) s.pipes
        (All-append IsRouted p.sendq.items (m ∷ []) (All-lookup id p s.pipes h e) (r, tt)) h)

route-AreOwn :
    (pick : Bool) (m : Message) (o : Outcome ℕ) (s : Socket)
    → IsRouted m
    → AreOwn s
    → AreOwn (after s (route pick m o s))
route-AreOwn pick m (ok id) s r h = push_to_pipe-AreOwn pick m id (lookup id s.pipes) s r h refl
route-AreOwn pick m (err e) s r h = h
route-AreOwn pick m panic s r h = h

send_to-AreOwn :
    (pick : Bool) (m : Message) (s : Socket)
    → IsRouted m
    → AreOwn s
    → AreOwn (after s (send_to pick m s))
unfolding send_to
send_to-AreOwn pick m s r h = elim (Bool-cases (m.meta.distance == 0)) [
  | inl e ↦ rw e h
  | inr e ↦ rw e (route-AreOwn pick m (cur_id (bytes_of m.buf m.destination)) s r h)
]

push_shared-AreOwn :
    (pick : Bool) (m : Message) (s : Socket) → AreOwn s → AreOwn (after s (push_shared pick m s))
push_shared-AreOwn pick m s h = after_push-AreOwn pick m s.sendq s (λ q. record s { sendq = q }) h h

pub rem_pipe-found :
    (id : ℕ) (p : SocketPipe) (s : Socket)
    → lookup id s.pipes ≡ some p
    → rem_pipe id s
      ≡ (record s { pipes = delete id s.pipes }, some (record p { stopq_closed = true }))
unfolding rem_pipe
rem_pipe-found id p s e = ap (removed id s) e

pub rem_pipe-missing : (id : ℕ) (s : Socket) → lookup id s.pipes ≡ none → rem_pipe id s ≡ (s, none)
unfolding rem_pipe
rem_pipe-missing id s e = ap (removed id s) e

rem_pipe-AreOwn : (id : ℕ) (s : Socket) → AreOwn s → AreOwn (rem_pipe id s).0
rem_pipe-AreOwn id s h = elim (Option-cases (lookup id s.pipes)) [
  | inl e ↦ subst (λ (r : Socket × Option SocketPipe). AreOwn r.0) (sym (rem_pipe-missing id s e)) h
  | inr (p, e) ↦
      subst (λ (r : Socket × Option SocketPipe). AreOwn r.0) (sym (rem_pipe-found id p s e))
        (All-delete id s.pipes h)
]
