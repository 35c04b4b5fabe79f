-- ===== src/Socket/Own/Copies.antt =====
-- socket.go: sendToAll, and SendMsg by the type of the message, on the own queues of the pipes.
use multisocket.Prelude.{
  ℕ, ◌≡◌, refl, sym, Bool, Option, none, some, List, [], ◌∷◌, ◌++◌, arith, All, All-append, inl,
  inr, Bool-cases, ◌==◌, Option-cases,
}
use mathlib.Core.Path.{subst}
use multisocket.Prelude.Queue.{enqueue, Chan}
use multisocket.Message.{
  Message, dup, send_type, send_type_to_one, send_type_to_dest, send_type_to_all,
}
use multisocket.Socket.{Socket, SocketPipe, push_all, pushed_copy, all_pushed, send_to_all, by_type}
use multisocket.Socket.Queues.{Pushed, pushed, failed, blocks, do_push_msg}
use multisocket.Socket.Send.{do_push_msg-pushed}
use multisocket.Socket.Stop.Laws.{IsRouted}
use multisocket.Socket.Own.{IsOwn, AreOwn, after, send_to-AreOwn, push_shared-AreOwn}

dup-IsRouted : (alloc : ℕ → List ℕ) (m : Message) → IsRouted m → IsRouted (dup alloc m)
unfolding dup
dup-IsRouted alloc m r = r

pushed_copy-IsOwn :
    (p p' : SocketPipe) (best is_closed pick : Bool) (m : Message)
    → IsRouted m
    → All IsRouted p.sendq.items
    → pushed_copy p (do_push_msg best is_closed pick m p.sendq) ≡ some p'
    → All IsRouted p'.sendq.items
pushed_copy-IsOwn p p' best is_closed pick m r h =
    go (do_push_msg best is_closed pick m p.sendq) refl
  where
    more : All IsRouted (p.sendq.items ++ (m ∷ []))
    more = All-append IsRouted p.sendq.items (m ∷ []) h (r, tt)

    go :
        (o : Pushed)
        → do_push_msg best is_closed pick m p.sendq ≡ o
        → pushed_copy p o ≡ some p'
        → All IsRouted p'.sendq.items
    go (pushed q) d e =
        let full : q ≡ enqueue m p.sendq =
          (do_push_msg-pushed best is_closed pick m p.sendq q d).0 in
        let same : record p { sendq = q } ≡ p' = cc e in
        subst (λ (x : SocketPipe). All IsRouted x.sendq.items) same
          (subst (λ (x : Chan Message). All IsRouted x.items) (sym full) more)
    go (failed x) d e =
        let same : p ≡ p' = cc e in subst (λ (x : SocketPipe). All IsRouted x.sendq.items) same h
    go blocks d e = absurd (cc)

push_all-AreOwn :
    (alloc : ℕ → List ℕ) (best is_closed : Bool) (picks : ℕ → Bool) (m : Message)
    (ps ps' : List (ℕ × SocketPipe))
    → IsRouted m
    → All IsOwn ps
    → push_all alloc best is_closed picks m ps ≡ some ps'
    → All IsOwn ps'
unfolding push_all
push_all-AreOwn alloc best is_closed picks m [] ps' r h e =
    let same : [] ≡ ps' = cc e in subst (All IsOwn) same tt
push_all-AreOwn alloc best is_closed picks m ((id, p) ∷ ps) ps' r h e =
    elim (Option-cases
      (pushed_copy p (do_push_msg best is_closed (picks id) (dup alloc m) p.sendq))) [
        | inl n ↦ absurd (ground (arith, e, n))
        | inr (p', f) ↦ elim (Option-cases (push_all alloc best is_closed picks m ps)) [
          | inl n ↦ absurd (ground (arith, e, f, n))
          | inr (qs, g) ↦
              let same : (id, p') ∷ qs ≡ ps' = ground (arith, e, f, g) in
              subst (All IsOwn) same (
                pushed_copy-IsOwn p p' best is_closed (picks id) (dup alloc m)
                    (dup-IsRouted alloc m r) (h.0) f,
                push_all-AreOwn alloc best is_closed picks m ps qs r (h.1) g,
              )
        ]
      ]

pub send_to_all-AreOwn :
    (alloc : ℕ → List ℕ) (picks : ℕ → Bool) (m : Message) (s : Socket)
    → IsRouted m
    → AreOwn s
    → AreOwn (after s (send_to_all alloc picks m s))
unfolding send_to_all
send_to_all-AreOwn alloc picks m s r h =
    go (push_all alloc s.best_effort s.closedq_closed picks m s.pipes) refl
  where
    go :
        (o : Option (List (ℕ × SocketPipe)))
        → push_all alloc s.best_effort s.closedq_closed picks m s.pipes ≡ o
        → AreOwn (after s (all_pushed s o))
    go none e = h
    go (some ps) e = push_all-AreOwn alloc s.best_effort s.closedq_closed picks m s.pipes ps r h e

pub by_type-AreOwn :
    (alloc : ℕ → List ℕ) (picks : ℕ → Bool) (pick : Bool) (m : Message) (s : Socket)
    → AreOwn s
    → AreOwn (after s (by_type alloc picks pick m (send_type m.meta) s))
by_type-AreOwn alloc picks pick m s h = elim (Bool-cases (send_type m.meta == send_type_to_dest)) [
  | inl d ↦ rw d (send_to-AreOwn pick m s (λ e. ground (arith, d, e)) h)
  | inr d ↦ elim (Bool-cases (send_type m.meta == send_type_to_one)) [
    | inl o ↦ rw (d, o) (push_shared-AreOwn pick m s h)
    | inr o ↦ elim (Bool-cases (send_type m.meta == send_type_to_all)) [
      | inl a ↦ rw (d, o, a) (send_to_all-AreOwn alloc picks m s (λ e. ground (arith, o, e)) h)
      | inr a ↦ rw (d, o, a) h
    ]
  ]
]
