-- ===== src/Socket/Stop/Announce.antt =====
-- socket.go: the empty message by which the receiver of a raw pipe announces the pipe.
use multisocket.Prelude.{ℕ, ◌≡◌, ◌≢◌, Bool, true, false, Option, some, List, arith}
use multisocket.Prelude.Queue.{has_room}
use multisocket.Errs.{Err}
use multisocket.Message.{Message}
use multisocket.Socket.{Socket, SocketPipe}
use multisocket.Socket.Recv.{full, receive}
use multisocket.Socket.Stop.{receiver_start}

-- On a closed socket the receiver of a raw pipe waits for ever at its start, while the queue of
-- received messages is full; a receiver that has started does not wait on a closed socket.
pub receiver_start_waits :
    (alloc : ℕ → List ℕ) (id : ℕ) (p : SocketPipe) (s : Socket) (pick : Bool) (m : Message)
    (e : Option Err)
    → p.raw ≡ true
    → s.closedq_closed ≡ true
    → has_room s.recvq ≡ false
    → (receiver_start alloc id p s ≡ full) × (receive id pick (some m) e s ≢ full)
unfolding receiver_start receive
receiver_start_waits alloc id p s pick m e raw shut no_room =
    (ground (arith, raw, no_room), λ h. ground (arith, shut, h))
