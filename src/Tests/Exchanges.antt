-- ===== src/Tests/Exchanges.antt =====
-- Sockets, connectors and pipes together, switch.go and pair.go, at concrete inputs.
use multisocket.Prelude.{
  ℕ, ◌≡◌, refl, true, false, none, some, List, [], ◌∷◌, ◌++◌, arith, ◌⊎◌, inl, inr,
}
use multisocket.Prelude.Assoc.{lookup, delete, insert}
use multisocket.Prelude.Queue.{make}
use multisocket.Bytespool.{alloc}
use multisocket.Errs.{ok, closed}
use multisocket.Message.{Message, view, send_type}
use multisocket.Message.Send.Reply.{path_of}
use multisocket.Utils.Id.{RecyclableIdGenerator, new_recyclable_id_generator, next_id, contains}
use multisocket.Connector.{Connector, PipeRef, get_pipe}
use multisocket.Socket.{Socket, SocketPipe}
use multisocket.Socket
use multisocket.Socket.Changes.{Opt}
use multisocket.Exchange.RoundTrip.{round_trip, round_trip_lem}
use multisocket.Exchange.Idle.{IsIdle}
use multisocket.Exchange.Ids
use multisocket.Exchange.Ids.{new_pipe_unheld}
use multisocket.Switch.{forward, stops}
use multisocket.Switch.Forward.{forward-closed}
use multisocket.Pair.Calls
use multisocket.Pair.Order.{pair_in_order}
use multisocket.Tests.Messages.{zeros, zeros-IsHanded}
use multisocket.Tests.Sockets.{values, pipe, socket, to_one}
use multisocket.Tests.Connectors.{busy, packets}

-- The socket, before it has received anything.
abbrev idle : Socket
idle = record socket { recvq = make 8 }

idle-IsIdle : (id : ℕ) → lookup id idle.pipes ≡ some pipe → IsIdle idle id pipe
idle-IsIdle id e = record {
  not_closed = refl;
  receives = refl;
  sends = refl;
  ttl_fits = omega arith;
  has_pipe = e;
  nothing_received = refl;
  nothing_shared = refl;
  nothing_own = refl;
  recv_room = omega arith;
  shared_room = omega arith;
  own_room = omega arith;
}

-- Pipe 4 of one socket leads to pipe 9 of the other.
round_trip_lem_example :
    (request reply : Message) × (round_trip
        (alloc zeros)
        (packets 4)
        (packets 9)
        pipe
        (104 ∷ 105 ∷ [])
        (111 ∷ 107 ∷ [])
        idle
        idle
      ≡ ok (request, reply))
    × ((view request).content ≡ 104 ∷ 105 ∷ [])
    × ((view request).source ≡ path_of (9 ∷ []))
    × ((view reply).content ≡ 111 ∷ 107 ∷ [])
    × ((view reply).source ≡ path_of (4 ∷ []))
    × ((view reply).destination ≡ [])
unfolding lookup
round_trip_lem_example =
    round_trip_lem zeros (packets 4) (packets 9) idle idle pipe pipe (104 ∷ 105 ∷ [])
      (111 ∷ 107 ∷ []) zeros-IsHanded refl (inl refl) (omega arith) refl (idle-IsIdle 4 refl)
      (idle-IsIdle 9 refl) (inr (omega arith), omega arith) (inr (omega arith), omega arith)

-- One connection becomes a pipe and goes, and another one comes.
abbrev comings : List Ids.Call
comings =
    Ids.connects none none
    ∷ Ids.disconnects (record { id = 1; dialer = none })
    ∷ Ids.connects none none
    ∷ []

abbrev no_pipes : Socket
no_pipes = record socket { pipes = [] }

abbrev world : Ids.World
world = record { ids = new_recyclable_id_generator; connector = busy; socket = no_pipes }

abbrev after_three : Ids.World
after_three = Ids.steps comings world

new_pipe_unheld_example :
    (get_pipe 3 after_three.connector ≡ none)
    × (lookup 3 after_three.socket.pipes ≡ none)
    × ((j : ℕ)
        → (get_pipe j after_three.connector ≡ none) ⊎ (contains after_three.ids.ids j ≡ true))
unfolding Ids.steps Ids.step Ids.connect Ids.disconnect next_id contains new_recyclable_id_generator
    multisocket.Utils.Id.next_loop multisocket.Utils.Id.recycle multisocket.Connector.add_pipe
    multisocket.Connector.rem_pipe Socket.add_pipe Socket.rem_pipe lookup insert delete
    multisocket.Connector.check_limit multisocket.Connector.stop_connecting
    multisocket.Connector.start_connecting
new_pipe_unheld_example = new_pipe_unheld comings busy no_pipes 3 _ refl refl refl refl

abbrev to_two : Message
to_two = record to_one { content = none }

-- Two messages are passed on, and their contents are cut off.
forward-closed_example :
    forward zeros
      (λ id. true)
      true
      3
      (some (λ m. some to_two))
      (record socket {
        recvq = record { size = 8; items = to_one ∷ to_one ∷ [] };
        closedq_closed = true;
      })
      socket
    ≡ stops closed
        (record socket { recvq = record { size = 8; items = [] }; closedq_closed = true })
        (record socket { sendq = record { size = 2; items = to_two ∷ to_two ∷ [] } })
unfolding send_type
forward-closed_example =
    forward-closed zeros (λ id. true) true (λ m. some to_two) (to_one ∷ to_one ∷ [])
      (to_two ∷ to_two ∷ [])
      (record socket {
        recvq = record { size = 8; items = to_one ∷ to_one ∷ [] };
        closedq_closed = true;
      })
      socket refl refl (refl, (refl, tt))
      ((refl, (λ e. omega (arith, e))), ((refl, (λ e. omega (arith, e))), tt)) refl refl
      (omega arith)

-- Two messages wait, one is received, the option NoSend is set, and the pair is closed.
abbrev pair_calls : List Calls.Call
pair_calls =
    Calls.sends to_one
    ∷ Calls.sends to_two
    ∷ Calls.receives
    ∷ Calls.sets Opt.no_send values
    ∷ Calls.closes
    ∷ []

abbrev pair_run : Calls.Run
pair_run = Calls.steps pair_calls (Calls.start values)

pair_run_failed : pair_run.failed ≡ to_two ∷ []
unfolding Calls.steps Calls.step multisocket.Pair.close multisocket.Pair.send_msg
    multisocket.Pair.recv_msg multisocket.Pair.on_option_change multisocket.Pair.new_pair
    multisocket.Pair.new_pair_socket
pair_run_failed = refl

pair_in_order_example :
    (pair_run.offered ≡ pair_run.delivered ++ (pair_run.failed ++ pair_run.pair.rightward.senders))
    × ((pair_run.pair.rightward.senders ≡ []) ⊎ (pair_run.pair.rightward.receivers ≡ 0))
    × (pair_run.pair.left.no_send ≡ false)
pair_in_order_example = pair_in_order values pair_calls
