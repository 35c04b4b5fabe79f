-- ===== src/Pair.antt =====
-- pair.go: two sockets that are joined by two channels without a buffer. `left` sends on `rightward`,
-- `right` on `leftward`.
pub mod Calls
pub mod Order
use multisocket.Prelude.{
  ℕ, zero, suc, Bool, true, false, Option, none, some, List, [], ◌∷◌, ◌++◌, if◌then◌else◌,
}
use multisocket.Errs.{Err, Outcome, ok, err, closed}
use multisocket.Message.{Message, send_type_to_one, send_type_to_all, send_type_to_dest}
use multisocket.Message.Send.{new_send_message}
use multisocket.Socket.{Values}
use multisocket.Socket.Changes.{
  Opt, no_recv, no_send, send_ttl, send_best_effort, recv_queue_size, send_queue_size, unrelated,
}

-- A channel: the messages that senders wait with, oldest first, and how many receivers wait. A message
-- goes over when one of each has come.
pub record Line : Type 0 where
  pub senders : List Message
  pub receivers : ℕ

pub record PairSocket : Type 0 where
  pub values : Values
  pub no_send : Bool
  pub ttl : ℕ
  pub best_effort : Bool

pub record Pair : Type 0 where
  pub left : PairSocket
  pub right : PairSocket
  pub rightward : Line
  pub leftward : Line
  pub closedq_closed : Bool

-- The case for NoRecv calls the peer's onOptionChange with NoSend, which has no case of its own.
unfoldable pub on_option_change : Opt → PairSocket → PairSocket
on_option_change send_ttl s = record s { ttl = s.values.send_ttl }
on_option_change send_best_effort s = record s { best_effort = s.values.send_best_effort }
on_option_change no_recv s = s
on_option_change no_send s = s
on_option_change recv_queue_size s = s
on_option_change send_queue_size s = s
on_option_change unrelated s = s

abbrev pub changed : List Opt → PairSocket → PairSocket
changed [] s = s
changed (o ∷ os) s = changed os (on_option_change o s)

unfoldable pub new_pair_socket : Values → PairSocket
unfolding on_option_change
new_pair_socket v =
    changed (no_recv ∷ no_send ∷ send_ttl ∷ send_best_effort ∷ [])
      (record { values = v; no_send = false; ttl = 0; best_effort = false })

abbrev pub idle_line : Line
idle_line = record { senders = []; receivers = 0 }

unfoldable pub new_pair : Values → Pair
unfolding new_pair_socket
new_pair v = record {
  left = new_pair_socket v;
  right = new_pair_socket v;
  rightward = idle_line;
  leftward = idle_line;
  closedq_closed = false;
}

-- What a call does on a line: a message goes over; the call waits; the call fails; the message is
-- dropped.
pub data Done : Type 0 where
  passed : Message → Line → Done
  waits : Line → Done
  fails : Err → Done
  dropped : Done

-- A receiver that waits takes the message; otherwise the sender waits with it.
abbrev pub offer : Message → List Message → ℕ → Done
offer msg senders zero = waits (record { senders = senders ++ (msg ∷ []); receivers = 0 })
offer msg senders (suc n) = passed msg (record { senders = senders; receivers = n })

-- On a closed pair nobody waits at the other end.
unfoldable pub send_msg : Bool → PairSocket → Message → Line → Done
send_msg is_closed s msg l =
    if s.no_send
    then dropped
    else if is_closed
    then fails closed
    else offer msg l.senders l.receivers

abbrev pub collect : ℕ → List Message → Done
collect receivers [] = waits (record { senders = []; receivers = suc receivers })
collect receivers (m ∷ ms) = passed m (record { senders = ms; receivers = receivers })

unfoldable pub recv_msg : Bool → Line → Done
recv_msg is_closed l = if is_closed then fails closed else collect l.receivers l.senders

unfoldable pub send : (ℕ → List ℕ) → Bool → PairSocket → List ℕ → Line → Done
unfolding send_msg
send alloc is_closed s content l =
    if s.no_send
    then dropped
    else send_msg is_closed s (new_send_message alloc 0 send_type_to_one s.ttl [] [] content) l

unfoldable pub send_all : (ℕ → List ℕ) → Bool → PairSocket → List ℕ → Line → Done
unfolding send_msg
send_all alloc is_closed s content l =
    if s.no_send
    then dropped
    else send_msg is_closed s (new_send_message alloc 0 send_type_to_all s.ttl [] [] content) l

unfoldable pub send_to : (ℕ → List ℕ) → Bool → PairSocket → List ℕ → List ℕ → Line → Done
unfolding send_msg
send_to alloc is_closed s dest content l =
    if s.no_send
    then dropped
    else send_msg is_closed s (new_send_message alloc 0 send_type_to_dest s.ttl [] dest content) l

-- Close of either socket closes the pair: the calls that wait fail, and are gone from the lines.
unfoldable pub close : Pair → Outcome Pair
close p =
    if p.closedq_closed
    then err closed
    else ok (record p { closedq_closed = true; rightward = idle_line; leftward = idle_line })
