-- ===== src/Socket/Stop.antt =====
-- socket.go: what stops: stopPipe for a pipe that was removed, the sender of a pipe on a socket that
-- was closed, stopSender and Close; and the first round of receiver. A call of a pipe's SendMsg is its
-- answer, and a timer is whether it has fired, one `Turn` for each round of a loop.
pub mod Laws
pub mod Closed
pub mod Announce
use multisocket.Prelude.{
  ℕ, zero, suc, ◌+◌, ◌≡◌, Bool, true, false, not, Option, none, some, List, [], ◌∷◌, ◌++◌, ◌&&◌,
  if◌then◌else◌,
}
use multisocket.Prelude.Assoc.{lookup, insert}
use multisocket.Prelude.Queue.{Chan, has_room, enqueue}
use multisocket.Errs.{Err, Outcome, ok, err, panic}
use multisocket.Message.{Message, FreeLevel}
use multisocket.Message.Receive.{new_raw_recv_message}
use multisocket.Connector.{Connector}
use multisocket.Connector
use multisocket.Socket.{
  Socket, SocketPipe, rem_pipe, do_send_msg, Handed, freed, requeued, lost, stuck,
}
use multisocket.Socket.Recv.{Round, goes_on, full}
use multisocket.Socket.Recv
use multisocket.Socket.Sender.{Run, Call, steps}

-- One round of a loop: whether a timer has fired and select takes its case, what SendMsg answers, and
-- what select takes when the message is put back.
pub record Turn : Type 0 where
  pub stops : Bool
  pub answer : Option Err
  pub pick : Bool

-- The messages of the pipe's own queue that were sent, that were put back into the shared queue, and
-- that were freed unsent. `none`: the sender waits to put one back.
pub record Drained : Type 0 where
  pub socket : Socket
  pub sent : List Message
  pub put_back : List Message
  pub dropped : List Message

-- "drop last": FreeAll for what is left.
abbrev pub drop_last : Socket → List Message → Option Drained
drop_last s ms = some (record { socket = s; sent = []; put_back = []; dropped = ms })

abbrev pub and_sent : Message → Option Drained → Option Drained
and_sent m none = none
and_sent m (some d) = some (record d { sent = m ∷ d.sent })

-- An error of doSendMsg ends the loop; `next` is its rest.
abbrev pub after_turn : Message → List Message → (Socket → Option Drained) → Handed → Option Drained
after_turn m ms next (freed level s) = and_sent m (next s)
after_turn m ms next (requeued s e) =
    some (record { socket = s; sent = []; put_back = m ∷ []; dropped = ms })
after_turn m ms next (lost s e) = drop_last s (m ∷ ms)
after_turn m ms next stuck = none

-- The two loops of stopPipe, over what the queue holds; `turns n` is the n-th round.
unfoldable pub drain : (ℕ → Turn) → ℕ → SocketPipe → List Message → Socket → Option Drained
drain turns n p [] s = drop_last s []
drain turns n p (m ∷ ms) s =
    let t = turns n in
    if t.stops
    then drop_last s (m ∷ ms)
    else after_turn m ms (drain turns (n + 1) p ms) (do_send_msg t.pick p m t.answer s)

-- stopPipe, on a pipe whose queue nobody else reads or writes any more.
unfoldable pub stop_pipe : (ℕ → Turn) → SocketPipe → Socket → Option Drained
unfolding drain
stop_pipe turns p s = drain turns 0 p p.sendq.items s

abbrev pub stop_removed : (ℕ → Turn) → Socket × Option SocketPipe → Option Drained
stop_removed turns (s, none) = drop_last s []
stop_removed turns (s, some p) = stop_pipe turns p s

-- remPipe as a whole.
unfoldable pub remove_pipe : (ℕ → Turn) → ℕ → Socket → Option Drained
remove_pipe turns id s = stop_removed turns (rem_pipe id s)

-- The case of sender's select that takes from the pipe's own queue.
abbrev pub take_own_first : ℕ → SocketPipe → Socket → List Message → Option (Message × Socket)
take_own_first id p s [] = none
take_own_first id p s (m ∷ ms) = some (
  m,
  record s {
    pipes = insert id (record p { sendq = record { size = p.sendq.size; items = ms } }) s.pipes;
  },
)

abbrev pub take_own_of : ℕ → Socket → Option SocketPipe → Option (Message × Socket)
take_own_of id s none = none
take_own_of id s (some p) = take_own_first id p s p.sendq.items

unfoldable pub take_own : ℕ → Socket → Option (Message × Socket)
take_own id s = take_own_of id s (lookup id s.pipes)

-- The start of receiver: a raw pipe announces itself with an empty message. This send on the queue
-- looks neither at noRecv nor at closedq.
unfoldable pub receiver_start : (ℕ → List ℕ) → ℕ → SocketPipe → Socket → Round
receiver_start alloc id p s =
    if p.raw
    then (if has_room s.recvq
        then goes_on true
            (record s { recvq = enqueue (new_raw_recv_message alloc id (some [])) s.recvq })
        else full)
    else goes_on true s

-- The loop of stopSender, once the senders have stopped or the timer has fired: FreeAll for what the
-- shared queue holds, until it is found empty. `between` is what callers and senders do before each
-- round; `none`: the loop goes on.
abbrev pub drop_first : Run → List Message → Run
drop_first r [] = r
drop_first r (m ∷ ms) = record r {
  socket = record (r.socket) { sendq = record { size = r.socket.sendq.size; items = ms } };
  dropped = r.dropped ++ (m ∷ []);
}

abbrev pub next_drop : (Run → Option Run) → Run → List Message → Option Run
next_drop next r [] = some r
next_drop next r (m ∷ ms) = next (drop_first r (m ∷ ms))

unfoldable pub stop_sender : List (List Call) → Run → Option Run
stop_sender [] r = none
stop_sender (between ∷ more) r =
    let r' = steps between r in next_drop (stop_sender more) r' r'.socket.sendq.items

-- Close: the first call marks the socket, takes the socket's handler from the connector, waits for the
-- senders while `during` happens, frees what is in the queue, and closes the connector, while `after`
-- happens.
abbrev pub closed_rest : List Call → Connector → Option Run → Option (Outcome (Run × Connector))
closed_rest after c none = none
closed_rest after c (some r) =
    some (ok (steps after r, Connector.close (Connector.clear_pipe_event_handler c)))

abbrev pub close_rest :
    List Call
    → List (List Call)
    → List Call
    → Run
    → Connector
    → Outcome Socket
    → Option (Outcome (Run × Connector))
close_rest during between after r c (ok s) =
    closed_rest after c (stop_sender between (steps during (record r { socket = s })))
close_rest during between after r c (err e) = some (err e)
close_rest during between after r c panic = some panic

unfoldable pub close :
    List Call → List (List Call) → List Call → Run → Connector → Option (Outcome (Run × Connector))
close during between after r c = close_rest during between after r c (Recv.close r.socket)
