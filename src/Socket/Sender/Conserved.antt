-- ===== src/Socket/Sender/Conserved.antt =====
-- socket.go: where the messages of the shared queue go.
use multisocket.Prelude.{
  ℕ, zero, suc, false, ◌+◌, ◌≡◌, refl, ap, sym, ◌∙◌, Bool, true, Option, none, some, List, [], ◌∷◌,
  ◌++◌, if◌then◌else◌, arith, count, count-append, Bool-cases, ◌==◌, inl, inr,
}
use multisocket.Prelude.Queue.{Chan}
use multisocket.Errs.{Err}
use multisocket.Message.{Message, send_type, send_type_to_one}
use multisocket.Socket.{
  Socket, SocketPipe, Done, done, fails, waiting, panics, push_shared, after_push, resend_msg,
  after_resend, do_send_msg,
}
use multisocket.Socket.Queues.{Pushed, pushed, failed, blocks, do_push_msg}
use multisocket.Socket.Send.{do_push_msg-pushed}
use multisocket.Socket.Sender.{
  take_first, take_shared, Call, sends, takes, answers, retries, Taken, Run, kept_flying,
  take_flying, after_answer, count_flying, after_send, after_hand, after_take, after_retry, retry,
  step, steps, count_sent, Balances,
}

-- A push that succeeds adds the message at the end.
pushed_shared :
    (pick : Bool) (m : Message) (s s' : Socket) (o : Pushed)
    → do_push_msg s.best_effort s.closedq_closed pick m s.sendq ≡ o
    → after_push s (λ q. record s { sendq = q }) o ≡ done s'
    → s'.sendq.items ≡ s.sendq.items ++ (m ∷ [])
pushed_shared pick m s s' (failed e) d h = absurd (ground (arith, h))
pushed_shared pick m s s' blocks d h = absurd (ground (arith, h))
pushed_shared pick m s s' (pushed q) d h =
    let (same, room) = do_push_msg-pushed s.best_effort s.closedq_closed pick m s.sendq q d in
    let next : record s { sendq = q } ≡ s' = ground (arith, h) in
    ap (λ (x : Socket). x.sendq.items) (sym next) ∙ ap (λ (c : Chan Message). c.items) same

push_shared-items :
    (pick : Bool) (m : Message) (s s' : Socket)
    → push_shared pick m s ≡ done s'
    → s'.sendq.items ≡ s.sendq.items ++ (m ∷ [])
push_shared-items pick m s s' h =
    pushed_shared pick m s s' (do_push_msg s.best_effort s.closedq_closed pick m s.sendq) refl h

sends-Balances :
    (test : Message → Bool) (pick : Bool) (m : Message) (r : Run) (o : Done)
    → push_shared pick m r.socket ≡ o
    → Balances test r
    → Balances test (after_send m r o)
sends-Balances test pick m r (done s) e b =
    let items = ap (count test) (push_shared-items pick m r.socket s e) in
    omega (
      arith,
      b,
      items,
      count-append test r.accepted (m ∷ []),
      count-append test r.socket.sendq.items (m ∷ []),
    )
sends-Balances test pick m r (fails s x) e b = b
sends-Balances test pick m r waiting e b = b
sends-Balances test pick m r panics e b = b

retry-Balances :
    (test : Message → Bool) (pick : Bool) (r : Run) (hs : List Message)
    → r.held ≡ hs
    → Balances test r
    → Balances test (retry pick r hs)
retry-Balances test pick r [] e b = b
retry-Balances test pick r (m ∷ ms) e b = go (push_shared pick m r.socket) refl
  where
    holds : count test r.held ≡ (if test m then 1 else 0) + count test ms
    holds = ap (count test) e

    go : (o : Done) → push_shared pick m r.socket ≡ o → Balances test (after_retry m ms r o)
    go (done s) p =
        let items = ap (count test) (push_shared-items pick m r.socket s p) in
        omega (arith, b, holds, items, count-append test r.socket.sendq.items (m ∷ []))
    go (fails s x) p = omega (arith, b, holds)
    go waiting p = b
    go panics p = b

push_shared-fails :
    (pick : Bool) (m : Message) (s s' : Socket) (e : Err)
    → push_shared pick m s ≡ fails s' e
    → s ≡ s'
unfolding do_push_msg
push_shared-fails pick m s s' e h = ground (arith, h)

-- What becomes of a message that was not sent: it is back at the end of the queue, or the queue is as
-- it was.
pub resend_msg-items :
    (pick : Bool) (m : Message) (s s' : Socket)
    → resend_msg pick m s ≡ done s'
    → s'.sendq.items ≡ s.sendq.items ++ (m ∷ [])
unfolding resend_msg
resend_msg-items pick m s s' h = elim (Bool-cases (send_type m.meta == send_type_to_one)) [
  | inl e ↦ push_shared-items pick m s s' (sym (resent e) ∙ h)
  | inr e ↦ absurd (ground (arith, e, h))
]
  where
    resent :
        (send_type m.meta == send_type_to_one) ≡ true → resend_msg pick m s ≡ push_shared pick m s
    resent e = rw e refl

pub resend_msg-fails :
    (pick : Bool) (m : Message) (s s' : Socket) (e : Err)
    → resend_msg pick m s ≡ fails s' e
    → s ≡ s'
unfolding resend_msg do_push_msg
resend_msg-fails pick m s s' e h = ground (arith, h)

-- What a message comes to that was neither accepted nor in flight before.
hand-Balances :
    (test : Message → Bool) (pick : Bool) (id : ℕ) (p : SocketPipe) (m : Message) (r : Run)
    (answer : Option Err)
    → count test r.accepted
      ≡ count_flying test r.in_flight
        + count_sent test r.sent
        + count test r.dropped
        + count test r.held
        + ((if test m then 1 else 0) + count test r.socket.sendq.items)
    → Balances test (after_hand id m r (do_send_msg pick p m answer r.socket))
hand-Balances test pick id p m r none b = omega (arith, b)
hand-Balances test pick id p m r (some e) b = go (resend_msg pick m r.socket) refl
  where
    go :
        (o : Done)
        → resend_msg pick m r.socket ≡ o
        → Balances test (after_hand id m r (after_resend e o))
    go (done s') h =
        let items = ap (count test) (resend_msg-items pick m r.socket s' h) in
        omega (arith, b, items, count-append test r.socket.sendq.items (m ∷ []))
    go (fails s' x) h =
        let items =
          ap (λ (y : Socket). count test y.sendq.items) (resend_msg-fails pick m r.socket s' x h) in
        omega (arith, b, items)
    go waiting h = omega (arith, b, count-append test r.held (m ∷ []))
    go panics h = omega (arith, b, count-append test r.held (m ∷ []))

take_flying-count :
    (test : Message → Bool) (n : ℕ) (ts us : List Taken) (t : Taken)
    → take_flying n ts ≡ some (t, us)
    → count_flying test ts ≡ (if test t.msg then 1 else 0) + count_flying test us
take_flying-count test n [] us t e = absurd (cc)
take_flying-count test zero (x ∷ ts) us t e =
    let first : x ≡ t = cc e in
    let rest : ts ≡ us = cc e in
    ap (λ (y : Taken). (if test y.msg then 1 else 0) + count_flying test ts) first
    ∙ ap (λ (ys : List Taken). (if test t.msg then 1 else 0) + count_flying test ys) rest
take_flying-count test (suc n) (x ∷ ts) us t e =
    go (λ vs. take_flying-count test n ts vs t) (take_flying n ts) refl e
  where
    go :
        ((vs : List Taken)
          → take_flying n ts ≡ some (t, vs)
          → count_flying test ts ≡ (if test t.msg then 1 else 0) + count_flying test vs)
        → (o : Option (Taken × List Taken)) → take_flying n ts ≡ o
        → kept_flying x o ≡ some (t, us)
        → count_flying test (x ∷ ts) ≡ (if test t.msg then 1 else 0) + count_flying test us
    go further none f k = absurd (cc)
    go further (some (u, vs)) f k =
        let first : u ≡ t = cc k in
        let rest : x ∷ vs ≡ us = cc k in
        omega (
          arith,
          further vs (f ∙ ap (λ (y : Taken). some (y, vs)) first),
          ap (count_flying test) rest,
        )

answers-Balances :
    (test : Message → Bool) (pick : Bool) (n : ℕ) (answer : Option Err) (r : Run)
    → Balances test r
    → Balances test (after_answer pick answer r (take_flying n r.in_flight))
answers-Balances test pick n answer r b = go (take_flying n r.in_flight) refl
  where
    go :
        (o : Option (Taken × List Taken))
        → take_flying n r.in_flight ≡ o
        → Balances test (after_answer pick answer r o)
    go none e = b
    go (some (t, ts)) e =
        hand-Balances test pick t.id t.pipe t.msg (record r { in_flight = ts }) answer
          (omega (arith, b, take_flying-count test n r.in_flight ts t e))

take_first-Balances :
    (test : Message → Bool) (id : ℕ) (p : SocketPipe) (r : Run) (ms : List Message)
    → r.socket.sendq.items ≡ ms
    → Balances test r
    → Balances test (after_take id p r (take_first r.socket ms))
take_first-Balances test id p r [] e b = b
take_first-Balances test id p r (m ∷ ms) e b = omega (arith, b, ap (count test) e)

step-Balances :
    (test : Message → Bool) (c : Call) (r : Run) → Balances test r → Balances test (step c r)
unfolding step take_shared
step-Balances test (sends pick m) r b =
    sends-Balances test pick m r (push_shared pick m r.socket) refl b
step-Balances test (takes id p) r b = go p.raw
  where
    go :
        (raw : Bool)
        → Balances test
            (after_take id p r (if raw then none else take_first r.socket r.socket.sendq.items))
    go true = b
    go false = take_first-Balances test id p r r.socket.sendq.items refl b
step-Balances test (answers pick n answer) r b = answers-Balances test pick n answer r b
step-Balances test (retries pick) r b = retry-Balances test pick r r.held refl b

pub steps-Balances :
    (test : Message → Bool) (cs : List Call) (r : Run)
    → Balances test r
    → Balances test (steps cs r)
unfolding steps
steps-Balances test [] r b = b
steps-Balances test (c ∷ cs) r b = steps-Balances test cs (step c r) (step-Balances test c r b)
