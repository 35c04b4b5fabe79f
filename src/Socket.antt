-- ===== src/Socket.antt =====
-- socket.go: the socket, its queues, its pipes and its options. A blocking call that cannot go on is
-- `blocks`; where Go's select may take either of two ready cases, an argument decides.
pub mod Queues
pub mod Changes
pub mod Recv
pub mod Send
pub mod Sender
pub mod Stop
pub mod Own
use multisocket.Prelude.{
  ℕ, zero, suc, ◌+◌, ◌≡◌, Bool, true, false, not, Option, none, some, List, [], ◌∷◌, ◌++◌, length,
  ltb, ◌==◌, ◌&&◌, ◌||◌, if◌then◌else◌,
}
use multisocket.Prelude.Assoc.{lookup, insert, delete}
use multisocket.Prelude.Queue.{Chan, make, has_room, enqueue}
use multisocket.Errs.{
  Err, Outcome, ok, err, panic, ◌>>=◌, closed, msg_dropped, broken_path, invalid_send_type, bad_msg,
}
use multisocket.Message.{
  Message, FreeLevel, send_type, has_flags, msg_flag_internal, send_type_to_one, send_type_to_all,
  send_type_to_dest, cur_id, bytes_of, dup,
}
use multisocket.Message.Send.{new_send_message}
use Queues.{Pushed, pushed, failed, blocks, do_push_msg, Popped, got, empty_closed, waits, pop}

-- The values of the socket's options.
pub record Values : Type 0 where
  pub no_recv : Bool
  pub recv_queue_size : ℕ
  pub no_send : Bool
  pub send_queue_size : ℕ
  pub send_ttl : ℕ
  pub send_best_effort : Bool

pub record SocketPipe : Type 0 where
  pub raw : Bool
  pub stopq_closed : Bool
  pub sendq : Chan Message
  pub free_level : FreeLevel

pub record Socket : Type 0 where
  pub values : Values
  pub closedq_closed : Bool
  pub pipes : List (ℕ × SocketPipe)
  pub no_recv : Bool
  pub recvq : Chan Message
  pub no_send : Bool
  pub ttl : ℕ
  pub best_effort : Bool
  pub sendq : Chan Message

-- The result of a call on a socket: the socket with nil, an error, or a wait.
pub data Done : Type 0 where
  done : Socket → Done
  fails : Socket → Err → Done
  waiting : Done
  panics : Done

-- addPipe and newPipe. A pipe with the same id would be replaced.
unfoldable pub add_pipe : ℕ → Bool → FreeLevel → Socket → Socket
add_pipe id raw level s = record s {
  pipes =
      insert id
        (record {
          raw = raw;
          stopq_closed = false;
          sendq = make s.values.send_queue_size;
          free_level = level;
        })
        s.pipes;
}

abbrev pub removed : ℕ → Socket → Option SocketPipe → Socket × Option SocketPipe
removed id s none = (s, none)
removed id s (some p) =
    (record s { pipes = delete id s.pipes }, some (record p { stopq_closed = true }))

-- remPipe, up to stopPipe, which drains the queue of the pipe that is returned.
unfoldable pub rem_pipe : ℕ → Socket → Socket × Option SocketPipe
rem_pipe id s = removed id s (lookup id s.pipes)

abbrev pub after_push : Socket → (Chan Message → Socket) → Pushed → Done
after_push s put (pushed q) = done (put q)
after_push s put (failed e) = fails s e
after_push s put blocks = waiting

-- doPushMsg on the queue that all pipes share.
abbrev pub push_shared : Bool → Message → Socket → Done
push_shared pick msg s =
    after_push s (λ q. record s { sendq = q })
      (do_push_msg s.best_effort s.closedq_closed pick msg s.sendq)

abbrev pub push_to_pipe : Bool → Message → ℕ → Option SocketPipe → Socket → Done
push_to_pipe pick msg id none s = fails s broken_path
push_to_pipe pick msg id (some p) s =
    after_push s (λ q. record s { pipes = insert id (record p { sendq = q }) s.pipes })
      (do_push_msg s.best_effort s.closedq_closed pick msg p.sendq)

abbrev pub route : Bool → Message → Outcome ℕ → Socket → Done
route pick msg (ok id) s = push_to_pipe pick msg id (lookup id s.pipes) s
route pick msg (err e) s = fails s e
route pick msg panic s = panics

-- sendTo. A message that has arrived is dropped.
unfoldable pub send_to : Bool → Message → Socket → Done
send_to pick msg s =
    if msg.meta.distance == 0
    then done s
    else route pick msg (cur_id (bytes_of msg.buf msg.destination)) s

-- sendToAll, over the pipes: each gets a copy, and what doPushMsg answers is not looked at. `picks`
-- decides for each pipe. `none`: a push waits.
abbrev pub pushed_copy : SocketPipe → Pushed → Option SocketPipe
pushed_copy p (pushed q) = some (record p { sendq = q })
pushed_copy p (failed e) = some p
pushed_copy p blocks = none

abbrev pub keep_copy :
    ℕ → Option SocketPipe → Option (List (ℕ × SocketPipe)) → Option (List (ℕ × SocketPipe))
keep_copy id none rest = none
keep_copy id (some p) none = none
keep_copy id (some p) (some ps) = some ((id, p) ∷ ps)

unfoldable pub push_all :
    (ℕ → List ℕ)
    → Bool
    → Bool
    → (ℕ → Bool)
    → Message
    → List (ℕ × SocketPipe)
    → Option (List (ℕ × SocketPipe))
push_all alloc best_effort is_closed picks msg [] = some []
push_all alloc best_effort is_closed picks msg ((id, p) ∷ ps) =
    keep_copy id
      (pushed_copy p (do_push_msg best_effort is_closed (picks id) (dup alloc msg) p.sendq))
      (push_all alloc best_effort is_closed picks msg ps)

abbrev pub all_pushed : Socket → Option (List (ℕ × SocketPipe)) → Done
all_pushed s none = waiting
all_pushed s (some ps) = done (record s { pipes = ps })

unfoldable pub send_to_all : (ℕ → List ℕ) → (ℕ → Bool) → Message → Socket → Done
unfolding push_all
send_to_all alloc picks msg s =
    all_pushed s (push_all alloc s.best_effort s.closedq_closed picks msg s.pipes)

abbrev pub by_type : (ℕ → List ℕ) → (ℕ → Bool) → Bool → Message → ℕ → Socket → Done
by_type alloc picks pick msg type s =
    if type == send_type_to_dest
    then send_to pick msg s
    else if type == send_type_to_one
    then push_shared pick msg s
    else if type == send_type_to_all
    then send_to_all alloc picks msg s
    else fails s invalid_send_type

-- SendMsg, for messages that are passed on.
unfoldable pub send_msg : (ℕ → List ℕ) → (ℕ → Bool) → Bool → Message → Socket → Done
send_msg alloc picks pick msg s =
    if s.no_send
    then done s
    else if msg.meta.ttl == 0
    then done s
    else by_type alloc picks pick msg (send_type msg.meta) s

unfoldable pub send : (ℕ → List ℕ) → Bool → List ℕ → Socket → Done
send alloc pick content s =
    if s.no_send
    then done s
    else push_shared pick (new_send_message alloc 0 send_type_to_one s.ttl [] [] content) s

unfoldable pub send_to_path : (ℕ → List ℕ) → Bool → List ℕ → List ℕ → Socket → Done
send_to_path alloc pick dest content s =
    if s.no_send
    then done s
    else send_to pick (new_send_message alloc 0 send_type_to_dest s.ttl [] dest content) s

unfoldable pub send_all : (ℕ → List ℕ) → (ℕ → Bool) → List ℕ → Socket → Done
send_all alloc picks content s =
    if s.no_send
    then done s
    else send_to_all alloc picks (new_send_message alloc 0 send_type_to_all s.ttl [] [] content) s

-- resendMsg, for a message that the pipe has failed to send.
unfoldable pub resend_msg : Bool → Message → Socket → Done
resend_msg pick msg s =
    if send_type msg.meta == send_type_to_one then push_shared pick msg s else fails s bad_msg

-- doSendMsg, by what SendMsg of the pipe returns: whether the message is freed, and whether the sender
-- goes on.
pub data Handed : Type 0 where
  freed : FreeLevel → Socket → Handed
  requeued : Socket → Err → Handed
  lost : Socket → Err → Handed
  stuck : Handed

abbrev pub after_resend : Err → Done → Handed
after_resend e (done s) = requeued s e
after_resend e (fails s f) = lost s e
after_resend e waiting = stuck
after_resend e panics = stuck

abbrev pub do_send_msg : Bool → SocketPipe → Message → Option Err → Socket → Handed
do_send_msg pick p msg none s = freed p.free_level s
do_send_msg pick p msg (some e) s = after_resend e (resend_msg pick msg s)
