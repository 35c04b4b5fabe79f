-- ===== src/Pair/Order.antt =====
-- pair.go: the messages that go over a pair, and which calls wait.
use mathlib.Core.List.{append_assoc, append-nil}
use mathlib.Core.Path.{subst}
use multisocket.Prelude.{
  ℕ, zero, suc, ◌≡◌, refl, ap, sym, ◌∙◌, Bool, true, false, List, [], ◌∷◌, ◌++◌, arith, ◌⊎◌, inl,
  inr, if◌then◌else◌,
}
use multisocket.Errs.{ok, err, closed}
use multisocket.Message.{Message}
use multisocket.Socket.{Values}
use multisocket.Socket.Changes.{Opt}
use multisocket.Pair.{
  Line, PairSocket, on_option_change, new_pair_socket, new_pair, Done, fails, dropped, offer,
  collect, send_msg, recv_msg, close, idle_line,
}
use multisocket.Pair.Calls.{
  Call, Run, after_send, after_recv, after_close, step, steps, start, sends, receives, sets, closes,
}

-- Nobody waits to send while somebody waits to receive; on a closed pair nobody waits to send, on an
-- open one nothing has failed.
pub record IsOrdered (r : Run) : Type 0 where
  pub order : r.offered ≡ r.delivered ++ (r.failed ++ r.pair.rightward.senders)
  pub one_side : (r.pair.rightward.senders ≡ []) ⊎ (r.pair.rightward.receivers ≡ 0)
  pub shut : r.pair.closedq_closed ≡ true → r.pair.rightward.senders ≡ []
  pub unshut : r.pair.closedq_closed ≡ false → r.failed ≡ []
  pub sends_all : r.pair.left.no_send ≡ false

-- A message behind others, when nothing has failed or nobody waits.
past_all :
    (d f s : List Message) (m : Message)
    → f ≡ []
    → s ≡ []
    → (d ++ (f ++ s)) ++ (m ∷ []) ≡ (d ++ (m ∷ [])) ++ (f ++ s)
past_all d f s m ef es =
    ap (λ (x : List Message). (d ++ x) ++ (m ∷ [])) nothing
    ∙ ap (λ (x : List Message). x ++ (m ∷ [])) (append-nil d)
    ∙ sym (append-nil (d ++ (m ∷ [])))
    ∙ ap (◌++◌ (d ++ (m ∷ []))) (sym nothing)
  where
    nothing : f ++ s ≡ []
    nothing = ap (λ (x : List Message). x ++ s) ef ∙ es

past_waiting :
    (d f s : List Message) (m : Message) → (d ++ (f ++ s)) ++ (m ∷ []) ≡ d ++ (f ++ (s ++ (m ∷ [])))
past_waiting d f s m = append_assoc d (f ++ s) (m ∷ []) ∙ ap (◌++◌ d) (append_assoc f s (m ∷ []))

past_failed :
    (d f s : List Message) (m : Message)
    → s ≡ []
    → (d ++ (f ++ s)) ++ (m ∷ []) ≡ d ++ ((f ++ (m ∷ [])) ++ s)
past_failed d f s m es =
    ap (λ (x : List Message). (d ++ (f ++ x)) ++ (m ∷ [])) es
    ∙ ap (λ (x : List Message). (d ++ x) ++ (m ∷ [])) (append-nil f)
    ∙ append_assoc d f (m ∷ [])
    ∙ ap (◌++◌ d) (sym (append-nil (f ++ (m ∷ []))))
    ∙ ap (λ (x : List Message). d ++ ((f ++ (m ∷ [])) ++ x)) (sym es)

send_msg-sends :
    (c : Bool) (s : PairSocket) (m : Message) (l : Line)
    → s.no_send ≡ false
    → send_msg c s m l ≡ (if c then fails closed else offer m l.senders l.receivers)
unfolding send_msg
send_msg-sends c s m l e =
    ap
      (λ (b : Bool).
        if b then dropped else if c then fails closed else offer m l.senders l.receivers)
      e

offer-IsOrdered :
    (m : Message) (r : Run) (n : ℕ)
    → r.pair.rightward.receivers ≡ n
    → r.pair.closedq_closed ≡ false
    → IsOrdered r
    → IsOrdered (after_send m r (offer m r.pair.rightward.senders n))
offer-IsOrdered m r zero e c o = record {
  order =
      ap (λ (x : List Message). x ++ (m ∷ [])) o.order
      ∙ past_waiting r.delivered r.failed r.pair.rightward.senders m;
  one_side = inr refl;
  shut = λ t. absurd (cc (t, c));
  unshut = o.unshut;
  sends_all = o.sends_all;
}
offer-IsOrdered m r (suc n) e c o = record {
  order =
      ap (λ (x : List Message). x ++ (m ∷ [])) o.order
      ∙ past_all r.delivered r.failed r.pair.rightward.senders m (o.unshut c) nobody;
  one_side = inl nobody;
  shut = λ t. nobody;
  unshut = o.unshut;
  sends_all = o.sends_all;
}
  where
    nobody : r.pair.rightward.senders ≡ []
    nobody = elim (o.one_side) [ inl s ↦ s | inr z ↦ absurd (omega (arith, e, z)) ]

sends-IsOrdered : (m : Message) (r : Run) → IsOrdered r → IsOrdered (step (sends m) r)
unfolding step
sends-IsOrdered m r o =
    subst (λ (d : Done). IsOrdered (after_send m r d))
      (sym (send_msg-sends r.pair.closedq_closed r.pair.left m r.pair.rightward o.sends_all))
      (go r.pair.closedq_closed refl)
  where
    go :
        (c : Bool)
        → r.pair.closedq_closed ≡ c
        → IsOrdered (
            after_send m r (
              if c
              then fails closed
              else offer m r.pair.rightward.senders r.pair.rightward.receivers))
    go true c = record {
      order =
          ap (λ (x : List Message). x ++ (m ∷ [])) o.order
          ∙ past_failed r.delivered r.failed r.pair.rightward.senders m (o.shut c);
      one_side = o.one_side;
      shut = o.shut;
      unshut = λ f. absurd (cc (f, c));
      sends_all = o.sends_all;
    }
    go false c = offer-IsOrdered m r r.pair.rightward.receivers refl c o

collect-IsOrdered :
    (r : Run) (ms : List Message)
    → r.pair.rightward.senders ≡ ms
    → r.pair.closedq_closed ≡ false
    → IsOrdered r
    → IsOrdered (after_recv r (collect r.pair.rightward.receivers ms))
collect-IsOrdered r [] e c o = record {
  order = o.order ∙ ap (λ (x : List Message). r.delivered ++ (r.failed ++ x)) e;
  one_side = inl refl;
  shut = λ t. refl;
  unshut = o.unshut;
  sends_all = o.sends_all;
}
collect-IsOrdered r (m ∷ ms) e c o = record {
  order =
      o.order
      ∙ ap (λ (x : List Message). r.delivered ++ (r.failed ++ x)) e
      ∙ ap (λ (x : List Message). r.delivered ++ (x ++ (m ∷ ms))) (o.unshut c)
      ∙ sym (append_assoc r.delivered (m ∷ []) ms)
      ∙ ap (λ (x : List Message). (r.delivered ++ (m ∷ [])) ++ (x ++ ms)) (sym (o.unshut c));
  one_side = inr (nobody o.one_side);
  shut = λ t. absurd (cc (t, c));
  unshut = o.unshut;
  sends_all = o.sends_all;
}
  where
    nobody :
        (r.pair.rightward.senders ≡ []) ⊎ (r.pair.rightward.receivers ≡ 0)
        → r.pair.rightward.receivers ≡ 0
    nobody (inl s) = absurd (cc (s, e))
    nobody (inr z) = z

receives-IsOrdered : (r : Run) → IsOrdered r → IsOrdered (step receives r)
unfolding step recv_msg
receives-IsOrdered r o = go r.pair.closedq_closed refl
  where
    go :
        (c : Bool)
        → r.pair.closedq_closed ≡ c
        → IsOrdered (
            after_recv r (
              if c
              then fails closed
              else collect r.pair.rightward.receivers r.pair.rightward.senders))
    go true c = o
    go false c = collect-IsOrdered r r.pair.rightward.senders refl c o

closes-IsOrdered : (r : Run) → IsOrdered r → IsOrdered (step closes r)
unfolding step close
closes-IsOrdered r o = go r.pair.closedq_closed
  where
    go :
        (c : Bool)
        → IsOrdered (
            after_close r (
              if c
              then err closed
              else ok (record (r.pair) {
                closedq_closed = true;
                rightward = idle_line;
                leftward = idle_line;
              })))
    go true = o
    go false = record {
      order =
          o.order ∙ ap (◌++◌ r.delivered) (sym (append-nil (r.failed ++ r.pair.rightward.senders)));
      one_side = inl refl;
      shut = λ t. refl;
      unshut = λ f. absurd (cc f);
      sends_all = o.sends_all;
    }

on_option_change-no_send : (o : Opt) (s : PairSocket) → (on_option_change o s).no_send ≡ s.no_send
unfolding on_option_change
on_option_change-no_send Opt.no_recv s = refl
on_option_change-no_send Opt.recv_queue_size s = refl
on_option_change-no_send Opt.no_send s = refl
on_option_change-no_send Opt.send_queue_size s = refl
on_option_change-no_send Opt.send_ttl s = refl
on_option_change-no_send Opt.send_best_effort s = refl
on_option_change-no_send Opt.unrelated s = refl

step-IsOrdered : (c : Call) (r : Run) → IsOrdered r → IsOrdered (step c r)
unfolding step
step-IsOrdered (sends m) r o = sends-IsOrdered m r o
step-IsOrdered receives r o = receives-IsOrdered r o
step-IsOrdered (sets c v) r o = record {
  order = o.order;
  one_side = o.one_side;
  shut = o.shut;
  unshut = o.unshut;
  sends_all = on_option_change-no_send c (record (r.pair.left) { values = v }) ∙ o.sends_all;
}
step-IsOrdered closes r o = closes-IsOrdered r o

steps-IsOrdered : (cs : List Call) (r : Run) → IsOrdered r → IsOrdered (steps cs r)
unfolding steps
steps-IsOrdered [] r o = o
steps-IsOrdered (c ∷ cs) r o = steps-IsOrdered cs (step c r) (step-IsOrdered c r o)

start-IsOrdered : (v : Values) → IsOrdered (start v)
unfolding new_pair new_pair_socket on_option_change
start-IsOrdered v = record {
  order = refl;
  one_side = inl refl;
  shut = λ t. refl;
  unshut = λ f. refl;
  sends_all = refl;
}

-- Whatever calls of SendMsg, RecvMsg, SetOption and Close follow each other on a new pair: the
-- messages that were offered are, in order, those that went over, those whose call failed, and those
-- whose sender waits; and no sender waits while a receiver does. No message is dropped, since the
-- socket sends whatever its options NoSend and NoRecv are set to.
pub pair_in_order :
    (v : Values) (cs : List Call)
    → ((steps cs (start v)).offered
        ≡ (steps cs (start v)).delivered
          ++ ((steps cs (start v)).failed ++ (steps cs (start v)).pair.rightward.senders))
      × (((steps cs (start v)).pair.rightward.senders ≡ [])
          ⊎ ((steps cs (start v)).pair.rightward.receivers ≡ 0))
      × ((steps cs (start v)).pair.left.no_send ≡ false)
pair_in_order v cs =
    let o = steps-IsOrdered cs (start v) (start-IsOrdered v) in (o.order, o.one_side, o.sends_all)
