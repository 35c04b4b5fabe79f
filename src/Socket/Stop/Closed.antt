-- ===== src/Socket/Stop/Closed.antt =====
-- socket.go: the messages of the shared queue over the whole life of a socket, up to the end of Close.
use mathlib.Core.Path.{subst}
use multisocket.Prelude.{
  ◌+◌, ◌≡◌, refl, ap, Bool, true, false, List, [], ◌∷◌, ◌++◌, Option, none, some, sym, ◌∙◌, count,
  count-append, arith, inl, inr, Bool-cases,
}
use multisocket.Errs.{Outcome, ok, err, panic}
use multisocket.Message.{Message}
use multisocket.Connector.{Connector}
use multisocket.Connector
use multisocket.Socket.{Socket}
use multisocket.Socket.Recv
use multisocket.Socket.Sender.{Call, Run, steps, start, count_sent, count_flying, Balances}
use multisocket.Socket.Sender.Conserved.{steps-Balances}
use mathlib.Core.List.{append_assoc, append-nil}
use multisocket.Socket.Stop.{stop_sender, drop_first, next_drop, closed_rest, close, close_rest}

-- What Close leaves: the messages all accounted for, those in the queue pushed by `after`, when the
-- loop that empties it had found it empty; and a connector that is closed.
abbrev pub IsOver : (Message → Bool) → List Call → Run → Connector → Type 0
IsOver test after r c =
    (count test r.accepted
      ≡ count_flying test r.in_flight
        + count_sent test r.sent
        + count test r.dropped
        + count test r.held
        + count test r.socket.sendq.items)
    × ((empty : Run) × (empty.socket.sendq.items ≡ []) × (r ≡ steps after empty))
    × (c.pipes ≡ [])
    × (c.is_closed ≡ true)

drop_first-Balances :
    (test : Message → Bool) (r : Run) (ms : List Message)
    → r.socket.sendq.items ≡ ms
    → Balances test r
    → Balances test (drop_first r ms)
drop_first-Balances test r [] e b = b
drop_first-Balances test r (m ∷ ms) e b =
    omega (arith, b, ap (count test) e, count-append test r.dropped (m ∷ []))

-- The loop that empties the queue loses no message, and ends on an empty queue.
stop_sender-Balances :
    (test : Message → Bool) (between : List (List Call)) (r r' : Run)
    → stop_sender between r ≡ some r'
    → Balances test r
    → Balances test r' × (r'.socket.sendq.items ≡ [])
unfolding stop_sender
stop_sender-Balances test [] r r' e b = absurd (cc)
stop_sender-Balances test (cs ∷ more) r r' e b =
    go (steps cs r).socket.sendq.items refl (λ x. stop_sender-Balances test more x r') e
  where
    now : Balances test (steps cs r)
    now = steps-Balances test cs r b

    go :
        (ms : List Message)
        → (steps cs r).socket.sendq.items ≡ ms
        → ((x : Run)
            → stop_sender more x ≡ some r'
            → Balances test x
            → Balances test r' × (r'.socket.sendq.items ≡ []))
        → next_drop (stop_sender more) (steps cs r) ms ≡ some r'
        → Balances test r' × (r'.socket.sendq.items ≡ [])
    go [] f further g =
        let same : steps cs r ≡ r' = cc g in
        subst (λ (x : Run). Balances test x × (x.socket.sendq.items ≡ [])) same (now, f)
    go (m ∷ ms) f further g =
        further (drop_first (steps cs r) (m ∷ ms)) g
          (drop_first-Balances test (steps cs r) (m ∷ ms) f now)

-- Rounds in which nobody else does anything, one more than there are messages.
abbrev pub quiet : List Message → List (List Call)
quiet [] = [] ∷ []
quiet (m ∷ ms) = [] ∷ quiet ms

-- They are enough: the loop ends, and has freed everything, in order.
stop_sender-quiet :
    (ms : List Message) (r : Run)
    → r.socket.sendq.items ≡ ms
    → stop_sender (quiet ms) r
      ≡ some (record r {
        socket = record (r.socket) { sendq = record { size = r.socket.sendq.size; items = [] } };
        dropped = r.dropped ++ ms;
      })
unfolding stop_sender steps
stop_sender-quiet [] r e = ap (next_drop (stop_sender []) r) e ∙ (λ i. some (record r {
  socket = record (r.socket) { sendq = record { size = r.socket.sendq.size; items = e i } };
  dropped = sym (append-nil r.dropped) i;
}))
stop_sender-quiet (m ∷ ms) r e =
    ap (next_drop (stop_sender (quiet ms)) r) e
    ∙ stop_sender-quiet ms (drop_first r (m ∷ ms)) refl
    ∙ ap
        (λ (x : List Message). some (record r {
          socket = record (r.socket) { sendq = record { size = r.socket.sendq.size; items = [] } };
          dropped = x;
        }))
        (append_assoc r.dropped (m ∷ []) ms)

connector_closed :
    (c : Connector)
    → c.is_closed ≡ false
    → ((Connector.close (Connector.clear_pipe_event_handler c)).pipes ≡ [])
      × ((Connector.close (Connector.clear_pipe_event_handler c)).is_closed ≡ true)
unfolding Connector.close Connector.clear_pipe_event_handler
connector_closed c h = simp h (refl, refl)

marked-Balances :
    (test : Message → Bool) (r : Run) (s : Socket)
    → Recv.close r.socket ≡ ok s
    → Balances test r
    → Balances test (record r { socket = s })
unfolding Recv.close
marked-Balances test r s e b = elim (Bool-cases r.socket.closedq_closed) [
  | inl c ↦ absurd (ground (arith, e, c))
  | inr c ↦
      let same : record (r.socket) { closedq_closed = true } ≡ s = ground (arith, e, c) in
      subst (λ (x : Socket). Balances test (record r { socket = x })) same b
]

-- The run once Close has marked the socket.
abbrev pub marked : Run → Run
marked r = record r { socket = record (r.socket) { closedq_closed = true } }

-- Over the whole life of a socket, callers push messages and the senders of the pipes take them, send
-- them, fail to send and put back: before Close, while it waits for them or until its timer fires,
-- between the rounds of the loop that empties the queue, and until it returns. When Close returns, for
-- every test as many messages that pass it were accepted as are in flight, were sent, were freed
-- unsent, wait in a sender or are in the queue; the loop had found the queue empty, so what is in it was
-- pushed after that; and the connector is closed and has no pipes. If nobody comes between its rounds,
-- the loop ends after one round more than there are messages, and frees them all, in order.
pub close_accounts :
    (s : Socket) (before during : List Call) (between : List (List Call)) (after : List Call)
    (c c' : Connector) (r : Run) (test : Message → Bool)
    → s.sendq.items ≡ []
    → c.is_closed ≡ false
    → close during between after (steps before (start s)) c ≡ some (ok (r, c'))
    → IsOver test after r c'
      × (let waited = steps during (marked (steps before (start s))) in
          stop_sender (quiet waited.socket.sendq.items) waited
          ≡ some (record waited {
            socket = record (waited.socket) {
              sendq = record { size = waited.socket.sendq.size; items = [] };
            };
            dropped = waited.dropped ++ waited.socket.sendq.items;
          }))
unfolding close
close_accounts s before during between after c c' r test h o e = (
  go (Recv.close (steps before (start s)).socket) refl e,
  stop_sender-quiet _ (steps during (marked (steps before (start s)))) refl,
)
  where
    balanced : Balances test (steps before (start s))
    balanced = steps-Balances test before (start s) (omega (arith, ap (count test) h))

    last : Connector
    last = Connector.close (Connector.clear_pipe_event_handler c)

    ended :
        (begun : Run) (m : Option Run)
        → Balances test begun
        → stop_sender between begun ≡ m
        → closed_rest after c m ≡ some (ok (r, c'))
        → IsOver test after r c'
    ended begun none b f e = absurd (cc)
    ended begun (some empty) b f e =
        let (fair, none_left) = stop_sender-Balances test between begun empty f b in
        let same : (steps after empty, last) ≡ (r, c') = cc e in
        let shut = connector_closed c o in
        let all : IsOver test after (steps after empty) last =
          (steps-Balances test after empty fair, (empty, none_left, refl), shut.0, shut.1) in
        subst (λ (x : Run × Connector). IsOver test after x.0 x.1) same all

    go :
        (m : Outcome Socket)
        → Recv.close (steps before (start s)).socket ≡ m
        → close_rest during between after (steps before (start s)) c m ≡ some (ok (r, c'))
        → IsOver test after r c'
    go (ok s') f e =
        let begun : Run = steps during (record (steps before (start s)) { socket = s' }) in
        ended begun (stop_sender between begun)
          (steps-Balances test during _
            (marked-Balances test (steps before (start s)) s' f balanced))
          refl e
    go (err x) f e = absurd (cc)
    go panic f e = absurd (cc)
