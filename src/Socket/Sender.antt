-- ===== src/Socket/Sender.antt =====
-- socket.go: the senders of all pipes at work on the queue that they share.
pub mod Conserved
use mathlib.Core.Path.{subst}
use multisocket.Prelude.{
  ℕ, zero, suc, ◌+◌, ◌≡◌, refl, ap, sym, ◌∙◌, Bool, true, false, Option, none, some, List, [], ◌∷◌,
  ◌++◌, length, if◌then◌else◌, arith, Bool-cases, ◌==◌, inl, inr, count,
}
use multisocket.Prelude.Queue.{Chan, enqueue}
use multisocket.Errs.{Err}
use multisocket.Message.{Message, FreeLevel, send_type, send_type_to_one}
use multisocket.Socket.{
  Socket, SocketPipe, Done, done, fails, waiting, panics, push_shared, after_push, resend_msg,
  after_resend, do_send_msg, Handed, freed, requeued, lost, stuck,
}
use multisocket.Socket.Queues.{Pushed, pushed, failed, blocks, do_push_msg}
use multisocket.Socket.Send.{do_push_msg-pushed}

-- The case of sender's select that takes from the shared queue. A raw pipe has no such case.
abbrev pub take_first : Socket → List Message → Option (Message × Socket)
take_first s [] = none
take_first s (m ∷ ms) = some (m, record s { sendq = record { size = s.sendq.size; items = ms } })

unfoldable pub take_shared : SocketPipe → Socket → Option (Message × Socket)
take_shared p s = if p.raw then none else take_first s s.sendq.items

-- What callers and senders do, in the order in which it takes effect: a caller pushes a message; the
-- sender of a pipe takes one; SendMsg of a pipe, on one of the messages that were taken, answers; a
-- sender that waits to put a message back tries again.
pub data Call : Type 0 where
  sends : Bool → Message → Call
  takes : ℕ → SocketPipe → Call
  answers : Bool → ℕ → Option Err → Call
  retries : Bool → Call

-- A message that a sender has taken, with the id of its pipe, and the pipe.
pub record Taken : Type 0 where
  pub id : ℕ
  pub pipe : SocketPipe
  pub msg : Message

-- The messages that were accepted from callers, that senders have taken and SendMsg has not answered
-- for, that were sent and by which pipe, that were freed unsent, and that senders hold because they
-- wait to put them back.
pub record Run : Type 0 where
  pub socket : Socket
  pub accepted : List Message
  pub in_flight : List Taken
  pub sent : List (ℕ × Message)
  pub dropped : List Message
  pub held : List Message

abbrev pub after_send : Message → Run → Done → Run
after_send m r (done s) = record r { socket = s; accepted = r.accepted ++ (m ∷ []) }
after_send m r (fails s e) = r
after_send m r waiting = r
after_send m r panics = r

abbrev pub after_take : ℕ → SocketPipe → Run → Option (Message × Socket) → Run
after_take id p r none = r
after_take id p r (some (m, s)) = record r {
  socket = s;
  in_flight = record { id = id; pipe = p; msg = m } ∷ r.in_flight;
}

-- The n-th message in flight, and the others.
abbrev pub kept_flying : Taken → Option (Taken × List Taken) → Option (Taken × List Taken)
kept_flying t none = none
kept_flying t (some (u, ts)) = some (u, t ∷ ts)

abbrev pub take_flying : ℕ → List Taken → Option (Taken × List Taken)
take_flying n [] = none
take_flying zero (t ∷ ts) = some (t, ts)
take_flying (suc n) (t ∷ ts) = kept_flying t (take_flying n ts)

abbrev pub after_hand : ℕ → Message → Run → Handed → Run
after_hand id m r (freed level s) = record r { socket = s; sent = (id, m) ∷ r.sent }
after_hand id m r (requeued s e) = record r { socket = s }
after_hand id m r (lost s e) = record r { socket = s; dropped = m ∷ r.dropped }
after_hand id m r stuck = record r { held = r.held ++ (m ∷ []) }

abbrev pub after_answer : Bool → Option Err → Run → Option (Taken × List Taken) → Run
after_answer pick answer r none = r
after_answer pick answer r (some (t, ts)) =
    after_hand t.id t.msg (record r { in_flight = ts })
      (do_send_msg pick t.pipe t.msg answer r.socket)

abbrev pub after_retry : Message → List Message → Run → Done → Run
after_retry m ms r (done s) = record r { socket = s; held = ms }
after_retry m ms r (fails s e) = record r { held = ms; dropped = m ∷ r.dropped }
after_retry m ms r waiting = r
after_retry m ms r panics = r

abbrev pub retry : Bool → Run → List Message → Run
retry pick r [] = r
retry pick r (m ∷ ms) = after_retry m ms r (push_shared pick m r.socket)

unfoldable pub step : Call → Run → Run
unfolding take_shared
step (sends pick m) r = after_send m r (push_shared pick m r.socket)
step (takes id p) r = after_take id p r (take_shared p r.socket)
step (answers pick n answer) r = after_answer pick answer r (take_flying n r.in_flight)
step (retries pick) r = retry pick r r.held

unfoldable pub steps : List Call → Run → Run
unfolding step
steps [] r = r
steps (c ∷ cs) r = steps cs (step c r)

abbrev pub count_sent : (Message → Bool) → List (ℕ × Message) → ℕ
count_sent test [] = 0
count_sent test ((id, m) ∷ ms) = (if test m then 1 else 0) + count_sent test ms

abbrev pub count_flying : (Message → Bool) → List Taken → ℕ
count_flying test [] = 0
count_flying test (t ∷ ts) = (if test t.msg then 1 else 0) + count_flying test ts

abbrev pub Balances : (Message → Bool) → Run → Type 0
Balances test r =
    count test r.accepted
    ≡ count_flying test r.in_flight
      + count_sent test r.sent
      + count test r.dropped
      + count test r.held
      + count test r.socket.sendq.items

abbrev pub start : Socket → Run
start s = record { socket = s; accepted = []; in_flight = []; sent = []; dropped = []; held = [] }
