-- ===== src/Socket/Send.antt =====
-- socket.go: where SendMsg and the calls under it put a message.
use multisocket.Prelude.{
  ℕ, ◌≡◌, ◌≢◌, refl, ap, sym, ◌∙◌, Bool, true, false, not, Option, none, some, List, [], ◌∷◌, ◌==◌,
  ◌||◌, if◌then◌else◌, arith, ◌⊎◌, inl, inr, Bool-cases, Option-cases,
}
use mathlib.Core.Path.{subst}
use multisocket.Prelude.Assoc.{lookup, insert, lookup-insert}
use multisocket.Prelude.Queue.{Chan, has_room, enqueue}
use multisocket.Errs.{Err, Outcome, ok, err, panic}
use multisocket.Message.{Message, cur_id, bytes_of, dup, send_type, send_type_to_one}
use multisocket.Socket.{
  Socket, SocketPipe, done, send_to, route, push_to_pipe, after_push, push_all, pushed_copy,
  resend_msg, do_send_msg, requeued, lost, stuck,
}
use multisocket.Socket.Queues.{Pushed, pushed, failed, blocks, do_push_msg}

-- A push that succeeds.
pub do_push_msg-pushed :
    (best is_closed pick : Bool) (m : Message) (q q' : Chan Message)
    → do_push_msg best is_closed pick m q ≡ pushed q'
    → (q' ≡ enqueue m q) × (has_room q ≡ true)
unfolding do_push_msg
do_push_msg-pushed best is_closed pick m q q' h = ground (arith, h)

-- With best effort, or on a closed socket, a push does not wait.
do_push_msg-ready :
    (best is_closed pick : Bool) (m : Message) (q : Chan Message)
    → (best || is_closed) ≡ true
    → do_push_msg best is_closed pick m q ≢ blocks
unfolding do_push_msg
do_push_msg-ready best is_closed pick m q h e = ground (arith, h, e)

abbrev pub IsSentTo : Message → Socket → Socket → Type 0
IsSentTo m s s' =
    (id : ℕ) × (p : SocketPipe) × (cur_id (bytes_of m.buf m.destination) ≡ ok id)
    × (lookup id s.pipes ≡ some p)
    × (has_room p.sendq ≡ true)
    × (s' ≡ record s { pipes = insert id (record p { sendq = enqueue m p.sendq }) s.pipes })
    × ((j : ℕ)
        → lookup j s'.pipes
          ≡ (if id == j then some (record p { sendq = enqueue m p.sendq }) else lookup j s.pipes))

after_pushed :
    (pick : Bool) (m : Message) (id : ℕ) (p : SocketPipe) (s s' : Socket) (r : Pushed)
    → do_push_msg s.best_effort s.closedq_closed pick m p.sendq ≡ r
    → after_push s (λ q. record s { pipes = insert id (record p { sendq = q }) s.pipes }) r
      ≡ done s'
    → cur_id (bytes_of m.buf m.destination) ≡ ok id
    → lookup id s.pipes ≡ some p
    → IsSentTo m s s'
after_pushed pick m id p s s' (failed e) d h c l = absurd (ground (arith, h))
after_pushed pick m id p s s' blocks d h c l = absurd (ground (arith, h))
after_pushed pick m id p s s' (pushed q) d h c l =
    let (same, room) = do_push_msg-pushed s.best_effort s.closedq_closed pick m p.sendq q d in
    let next : record s { pipes = insert id (record p { sendq = q }) s.pipes } ≡ s' =
      ground (arith, h) in
    (
      id,
      p,
      c,
      l,
      room,
      sym next
          ∙ ap
              (λ (x : Chan Message). record s {
                pipes = insert id (record p { sendq = x }) s.pipes;
              })
              same,
      λ j.
          ap (λ (x : Socket). lookup j x.pipes) (sym next)
          ∙ lookup-insert id j (record p { sendq = q }) s.pipes
          ∙ ap
              (λ (x : Chan Message).
                if id == j then some (record p { sendq = x }) else lookup j s.pipes)
              same,
    )

routed :
    (pick : Bool) (m : Message) (s s' : Socket) (o : Outcome ℕ)
    → cur_id (bytes_of m.buf m.destination) ≡ o
    → route pick m o s ≡ done s'
    → IsSentTo m s s'
routed pick m s s' (err e) c h = absurd (ground (arith, h))
routed pick m s s' panic c h = absurd (ground (arith, h))
routed pick m s s' (ok id) c h = elim (Option-cases (lookup id s.pipes)) [
  | inl l ↦ absurd (ground (arith, h, l))
  | inr (p, l) ↦
      after_pushed pick m id p s s' (do_push_msg s.best_effort s.closedq_closed pick m p.sendq) refl
        (sym (ap (λ (o : Option SocketPipe). push_to_pipe pick m id o s) l) ∙ h) c l
]

-- When sendTo succeeds on a message that has not arrived, the message is the last in the queue of the
-- pipe that the next step of its path names, which had room; every other pipe, and all else of the
-- socket, is as it was.
pub send_to_delivers :
    (pick : Bool) (m : Message) (s s' : Socket)
    → m.meta.distance ≢ 0
    → send_to pick m s ≡ done s'
    → IsSentTo m s s'
unfolding send_to
send_to_delivers pick m s s' d h =
    routed pick m s s' (cur_id (bytes_of m.buf m.destination)) refl (ground (arith, d, h))

-- The same as a pipe whose copy of the message was pushed or not.
abbrev pub IsCopied : (ℕ → List ℕ) → Bool → Message → SocketPipe → SocketPipe → Type 0
IsCopied alloc is_closed m p p' =
    ((has_room p.sendq ≡ true) × (p' ≡ record p { sendq = enqueue (dup alloc m) p.sendq }))
    ⊎ (((is_closed || not (has_room p.sendq)) ≡ true) × (p' ≡ p))

abbrev pub IsPushed : (ℕ → List ℕ) → Bool → Message → Option SocketPipe → Option SocketPipe → Type 0
IsPushed alloc is_closed m none none = Unit {0}
IsPushed alloc is_closed m none (some p) = ⊥
IsPushed alloc is_closed m (some p) none = ⊥
IsPushed alloc is_closed m (some p) (some p') = IsCopied alloc is_closed m p p'

pushed_copy-IsCopied :
    (alloc : ℕ → List ℕ) (best is_closed pick : Bool) (m : Message) (p p' : SocketPipe)
    → pushed_copy p (do_push_msg best is_closed pick (dup alloc m) p.sendq) ≡ some p'
    → IsCopied alloc is_closed m p p'
unfolding do_push_msg
pushed_copy-IsCopied alloc best is_closed pick m p p' h = ground (arith, h)

pushed_copy-ready :
    (best is_closed pick : Bool) (m : Message) (p : SocketPipe)
    → (best || is_closed) ≡ true
    → (p' : SocketPipe) × (pushed_copy p (do_push_msg best is_closed pick m p.sendq) ≡ some p')
unfolding do_push_msg
pushed_copy-ready best is_closed pick m p h =
    elim (Option-cases (pushed_copy p (do_push_msg best is_closed pick m p.sendq))) [
      | inl n ↦ absurd (ground (arith, h, n))
      | inr r ↦ r
    ]

IsPushed-step :
    (alloc : ℕ → List ℕ) (is_closed : Bool) (m : Message) (id j : ℕ) (p p' : SocketPipe)
    (ps qs : List (ℕ × SocketPipe))
    → IsCopied alloc is_closed m p p'
    → IsPushed alloc is_closed m (lookup j ps) (lookup j qs)
    → IsPushed alloc is_closed m (lookup j ((id, p) ∷ ps)) (lookup j ((id, p') ∷ qs))
unfolding lookup
IsPushed-step alloc is_closed m id j p p' ps qs hp hq = elim (Bool-cases (id == j)) [
  | inl b ↦ rw b hp
  | inr b ↦ rw b hq
]

-- sendToAll touches every pipe once: its queue gains a copy of the message as its last entry, if there
-- was room, or stays, because the socket is closed or there was none; no pipe appears or goes.
pub push_all-copies :
    (alloc : ℕ → List ℕ) (best is_closed : Bool) (picks : ℕ → Bool) (m : Message)
    (ps ps' : List (ℕ × SocketPipe))
    → push_all alloc best is_closed picks m ps ≡ some ps'
    → (j : ℕ) → IsPushed alloc is_closed m (lookup j ps) (lookup j ps')
unfolding push_all lookup
push_all-copies alloc best is_closed picks m [] ps' h j =
    let same : [] ≡ ps' = ground (arith, h) in
    subst (λ x. IsPushed alloc is_closed m none (lookup j x)) same tt
push_all-copies alloc best is_closed picks m ((id, p) ∷ ps) ps' h j =
    let copy = do_push_msg best is_closed (picks id) (dup alloc m) p.sendq in
    elim (Option-cases (pushed_copy p copy)) [
      | inl n ↦ absurd (ground (arith, h, n))
      | inr (p', e) ↦ elim (Option-cases (push_all alloc best is_closed picks m ps)) [
        | inl n ↦ absurd (ground (arith, h, e, n))
        | inr (qs, es) ↦
            let same : (id, p') ∷ qs ≡ ps' = ground (arith, h, e, es) in
            subst (λ x. IsPushed alloc is_closed m (lookup j ((id, p) ∷ ps)) (lookup j x)) same
              (IsPushed-step alloc is_closed m id j p p' ps qs
                (pushed_copy-IsCopied alloc best is_closed (picks id) m p p' e)
                (push_all-copies alloc best is_closed picks m ps qs es j))
      ]
    ]

-- With best effort, and on a closed socket, sendToAll does not wait for a pipe.
pub push_all_returns :
    (alloc : ℕ → List ℕ) (best is_closed : Bool) (picks : ℕ → Bool) (m : Message)
    (ps : List (ℕ × SocketPipe))
    → (best || is_closed) ≡ true
    → (ps' : List (ℕ × SocketPipe)) × (push_all alloc best is_closed picks m ps ≡ some ps')
unfolding push_all
push_all_returns alloc best is_closed picks m [] h = ([], refl)
push_all_returns alloc best is_closed picks m ((id, p) ∷ ps) h =
    let (p', e) = pushed_copy-ready best is_closed (picks id) (dup alloc m) p h in
    let (ps', es) = push_all_returns alloc best is_closed picks m ps h in
    ((id, p') ∷ ps', rw (e, es) refl)

-- A message that a pipe failed to send is queued again for the other pipes exactly when it is for one
-- receiver and the shared queue takes it; the sender ends with the error of the pipe.
pub do_send_msg-failed :
    (pick : Bool) (p : SocketPipe) (m : Message) (e : Err) (s : Socket)
    → ((do_send_msg pick p m (some e) s ≡ requeued (record s { sendq = enqueue m s.sendq }) e)
        × (send_type m.meta ≡ send_type_to_one)
        × (has_room s.sendq ≡ true))
      ⊎ (do_send_msg pick p m (some e) s ≡ lost s e)
      ⊎ ((do_send_msg pick p m (some e) s ≡ stuck)
          × (send_type m.meta ≡ send_type_to_one)
          × (s.best_effort ≡ false)
          × (has_room s.sendq ≡ false))
unfolding resend_msg do_push_msg
do_send_msg-failed pick p m e s = ground arith
