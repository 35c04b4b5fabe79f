-- ===== src/Tests/Sockets.antt =====
-- socket.go at concrete inputs.
use multisocket.Prelude.{ℕ, ◌≡◌, refl, true, false, none, some, List, [], ◌∷◌, arith}
use multisocket.Prelude.Assoc.{lookup, insert}
use multisocket.Prelude.Bytes.{slice, get_u32}
use multisocket.Prelude.Queue.{make, enqueue}
use multisocket.Errs.{err, closed, timeout}
use multisocket.Message.{Message, FreeLevel, cur_id, bytes_of, dup, send_type}
use multisocket.Socket.{Values, Socket, SocketPipe, send_to, push_all}
use multisocket.Socket.Queues.{do_push_msg}
use multisocket.Socket.Changes.{Opt, new, set_options, no_send_never_set}
use multisocket.Socket.Recv.{close, recv_all, recv-after-close}
use multisocket.Socket.Send.{IsSentTo, send_to_delivers, IsPushed, push_all-copies}
use multisocket.Socket.{resend_msg}
use multisocket.Socket.Sender
use multisocket.Socket.Own.Ends
use multisocket.Socket.Own.Ends.{remove_pipe_ends}
use multisocket.Socket.Stop.{Turn, Drained, remove_pipe, stop_sender}
use multisocket.Socket.Stop.Closed.{IsOver, quiet, marked, close_accounts}
use multisocket.Connector.{Connector}
use multisocket.Connector
use multisocket.Prelude.Int.{pos}
use multisocket.Prelude.Assoc.{delete}
use multisocket.Prelude.{◌==◌, ◌++◌}
use multisocket.Tests.Messages.{zeros, hello_msg}

abbrev pub values : Values
values = record {
  no_recv = false;
  recv_queue_size = 8;
  no_send = true;
  send_queue_size = 2;
  send_ttl = 16;
  send_best_effort = true;
}

abbrev pub pipe : SocketPipe
pipe = record { raw = false; stopq_closed = false; sendq = make 2; free_level = FreeLevel.free_all }

-- A socket with the pipes 4 and 9, which has received one message.
abbrev pub socket : Socket
socket = record {
  values = values;
  closedq_closed = false;
  pipes = (4, pipe) ∷ (9, pipe) ∷ [];
  no_recv = false;
  recvq = record { size = 8; items = hello_msg ∷ [] };
  no_send = false;
  ttl = 16;
  best_effort = true;
  sendq = make 2;
}

no_send_never_set_example :
    (set_options ((Opt.no_send, values) ∷ (Opt.no_recv, values) ∷ []) (new values)).no_send ≡ false
no_send_never_set_example =
    no_send_never_set values ((Opt.no_send, values) ∷ (Opt.no_recv, values) ∷ [])

recv-after-close_example :
    (close (record socket { closedq_closed = true }) ≡ err closed)
    × (recv_all 2 (record socket { closedq_closed = true }) ≡ some (hello_msg ∷ [], some closed))
unfolding close
recv-after-close_example = recv-after-close socket (record socket { closedq_closed = true }) refl

abbrev delivered : Socket
delivered = record socket {
  pipes = (4, pipe) ∷ (9, record pipe { sendq = enqueue hello_msg (make 2) }) ∷ [];
}

send_to_delivers_example : IsSentTo hello_msg socket delivered
unfolding send_to do_push_msg cur_id bytes_of slice get_u32 lookup insert
send_to_delivers_example =
    send_to_delivers true hello_msg socket delivered (λ e. omega (arith, e)) refl

abbrev copied : SocketPipe
copied = record pipe { sendq = enqueue (dup zeros hello_msg) (make 2) }

push_all-copies_example :
    IsPushed zeros false hello_msg
      (lookup 9 socket.pipes)
      (lookup 9 ((4, copied) ∷ (9, copied) ∷ []))
unfolding push_all do_push_msg
push_all-copies_example =
    push_all-copies zeros true false (λ id. true) hello_msg socket.pipes
      ((4, copied) ∷ (9, copied) ∷ []) refl 9

abbrev pub to_one : Message
to_one = record hello_msg { meta = record (hello_msg.meta) { flags = 0 } }

-- A message is accepted, the sender of pipe 4 fails to send it and puts it back, and the sender of pipe
-- 9 sends it.
abbrev pub calls : List Sender.Call
calls =
    Sender.sends true to_one
    ∷ Sender.takes 4 pipe
    ∷ Sender.answers true 0 (some timeout)
    ∷ Sender.takes 9 pipe
    ∷ Sender.answers true 0 none
    ∷ []

calls_sent : (Sender.steps calls (Sender.start socket)).sent ≡ (9, to_one) ∷ []
unfolding Sender.steps Sender.step Sender.take_shared do_push_msg resend_msg send_type
calls_sent = refl

-- A message to the path of pipe 4.
abbrev to_pipe_4 : Message
to_pipe_4 = record hello_msg {
  buf = 0 ∷ 0 ∷ 0 ∷ 4 ∷ [];
  meta = record (hello_msg.meta) { hops = 0; distance = 1; content_length = 0 };
  source = none;
  destination = some (record { from = 0; to = 4 });
  content = none;
}

-- A pipe is added, a message for one receiver and one for a path are sent, and the pipe is removed,
-- with a timer that has fired before the second round.
abbrev own_calls : List Ends.Call
own_calls =
    Ends.adds 4 false FreeLevel.free_all
    ∷ Ends.passes_on (λ id. true) true to_pipe_4
    ∷ Ends.passes_on (λ id. true) true to_pipe_4
    ∷ Ends.sends true (1 ∷ [])
    ∷ []

abbrev in_use : Socket
in_use = Ends.steps zeros own_calls (record socket { pipes = [] })

abbrev queued_twice : SocketPipe
queued_twice = record pipe { sendq = record { size = 2; items = to_pipe_4 ∷ to_pipe_4 ∷ [] } }

abbrev fires : ℕ → Turn
fires n = record { stops = 1 == n; answer = none; pick = true }

remove_pipe_ends_example :
    (d : Drained) × (remove_pipe fires 4 in_use ≡ some d)
    × (queued_twice.sendq.items ≡ d.sent ++ d.dropped)
    × (d.put_back ≡ [])
    × (d.socket ≡ record in_use { pipes = delete 4 in_use.pipes })
unfolding Ends.steps Ends.step multisocket.Socket.add_pipe multisocket.Socket.send_msg send_to
    do_push_msg cur_id bytes_of slice get_u32 lookup insert send_type multisocket.Socket.send
remove_pipe_ends_example =
    remove_pipe_ends zeros own_calls (record socket { pipes = [] }) fires 4 queued_twice refl refl

abbrev before : List Sender.Call
before = Sender.sends true to_one ∷ Sender.sends true to_one ∷ []

-- Two messages are accepted, the sender of pipe 9 takes one of them while Close waits, and SendMsg
-- fails after the queue was emptied, so that it is put back.
abbrev taken : List Sender.Call
taken = Sender.takes 9 pipe ∷ []

abbrev put_back : List Sender.Call
put_back = Sender.answers true 0 (some timeout) ∷ []

abbrev connector : Connector
connector = record {
  limit = pos 1;
  dialers = [];
  listeners = [];
  pipes = [];
  has_handler = true;
  is_closed = false;
  events = [];
}

abbrev emptied : Sender.Run
emptied = record {
  socket = record socket { closedq_closed = true };
  accepted = to_one ∷ to_one ∷ [];
  in_flight = record { id = 9; pipe = pipe; msg = to_one } ∷ [];
  sent = [];
  dropped = to_one ∷ [];
  held = [];
}

close_accounts_example :
    IsOver
      (λ m. true)
      put_back
      (Sender.steps put_back emptied)
      (Connector.close (Connector.clear_pipe_event_handler connector))
    × (let waited = Sender.steps taken (marked (Sender.steps before (Sender.start socket))) in
        stop_sender (quiet waited.socket.sendq.items) waited
        ≡ some (record waited {
          socket = record (waited.socket) {
            sendq = record { size = waited.socket.sendq.size; items = [] };
          };
          dropped = waited.dropped ++ waited.socket.sendq.items;
        }))
unfolding multisocket.Socket.Stop.close close Sender.steps Sender.step Sender.take_shared
    do_push_msg resend_msg send_type stop_sender
close_accounts_example =
    close_accounts socket before taken ([] ∷ [] ∷ []) put_back connector _ _ (λ m. true) refl refl
      refl
