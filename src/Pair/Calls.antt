-- ===== src/Pair/Calls.antt =====
-- pair.go: calls on a pair that follow each other.
use multisocket.Prelude.{List, [], ◌∷◌, ◌++◌}
use multisocket.Errs.{Outcome, ok, err, panic}
use multisocket.Message.{Message}
use multisocket.Socket.{Values}
use multisocket.Socket.Changes.{Opt}
use multisocket.Pair.{
  Line, Pair, on_option_change, new_pair, Done, passed, waits, fails, dropped, send_msg, recv_msg,
  close,
}

-- Calls on a pair that concern the messages from left to right, and options of the left socket.
pub data Call : Type 0 where
  sends : Message → Call
  receives : Call
  sets : Opt → Values → Call
  closes : Call

-- The messages that SendMsg was called with, those that went over, and those whose SendMsg failed, all
-- oldest first.
pub record Run : Type 0 where
  pub pair : Pair
  pub offered : List Message
  pub delivered : List Message
  pub failed : List Message

abbrev pub with_line : Run → Line → Pair
with_line r l = record (r.pair) { rightward = l }

abbrev pub after_send : Message → Run → Done → Run
after_send m r (passed got l) = record r {
  pair = with_line r l;
  offered = r.offered ++ (m ∷ []);
  delivered = r.delivered ++ (got ∷ []);
}
after_send m r (waits l) = record r { pair = with_line r l; offered = r.offered ++ (m ∷ []) }
after_send m r (fails e) = record r {
  offered = r.offered ++ (m ∷ []);
  failed = r.failed ++ (m ∷ []);
}
after_send m r dropped = r

abbrev pub after_recv : Run → Done → Run
after_recv r (passed got l) = record r {
  pair = with_line r l;
  delivered = r.delivered ++ (got ∷ []);
}
after_recv r (waits l) = record r { pair = with_line r l }
after_recv r (fails e) = r
after_recv r dropped = r

-- The calls that wait fail.
abbrev pub after_close : Run → Outcome Pair → Run
after_close r (ok p) = record r { pair = p; failed = r.failed ++ r.pair.rightward.senders }
after_close r (err e) = r
after_close r panic = r

abbrev pub set_left : Opt → Values → Pair → Pair
set_left o v p = record p { left = on_option_change o (record (p.left) { values = v }) }

unfoldable pub step : Call → Run → Run
unfolding send_msg recv_msg close on_option_change
step (sends m) r = after_send m r (send_msg r.pair.closedq_closed r.pair.left m r.pair.rightward)
step receives r = after_recv r (recv_msg r.pair.closedq_closed r.pair.rightward)
step (sets o v) r = record r { pair = set_left o v r.pair }
step closes r = after_close r (close r.pair)

unfoldable pub steps : List Call → Run → Run
unfolding step
steps [] r = r
steps (c ∷ cs) r = steps cs (step c r)

abbrev pub start : Values → Run
start v = record { pair = new_pair v; offered = []; delivered = []; failed = [] }
