-- ===== src/Switch.antt =====
-- switch.go: forward, which passes what one socket receives to another.
pub mod Forward
use multisocket.Prelude.{ℕ, zero, suc, Bool, Option, none, some, List}
use multisocket.Errs.{Err}
use multisocket.Message.{Message}
use multisocket.Socket.{Socket, Done, done, fails, waiting, panics, send_msg}
use multisocket.Socket.Recv.{Taken, taken, refused, idle, recv_msg}

-- `stops`: an error of RecvMsg or of SendMsg has ended the loop. `waits`: a call waits. A middleware
-- that returns nil makes SendMsg panic.
pub data Forwarded : Type 0 where
  goes_on : Socket → Socket → Forwarded
  stops : Err → Socket → Socket → Forwarded
  waits : Socket → Socket → Forwarded
  crashes : Forwarded

abbrev pub after_send : (Socket → Forwarded) → Socket → Socket → Done → Forwarded
after_send next from to (done to') = next to'
after_send next from to (fails to' e) = stops e from to'
after_send next from to waiting = waits from to
after_send next from to panics = crashes

module _ (alloc : ℕ → List ℕ) (picks : ℕ → Bool) (pick : Bool) where
  abbrev pub send_on : (Socket → Forwarded) → Socket → Socket → Option Message → Forwarded
  send_on next from to none = crashes
  send_on next from to (some m) = after_send next from to (send_msg alloc picks pick m to)

  -- One round; `next` is the next one.
  abbrev pub round :
      (Message → Option Message)
      → (Socket → Socket → Forwarded)
      → Socket
      → Socket
      → Taken
      → Forwarded
  round mid next from to (taken m from') = send_on (next from') from' to (mid m)
  round mid next from to (refused e) = stops e from to
  round mid next from to idle = waits from to

  -- The two loops, `fuel` rounds at most: with a middleware, and without one.
  unfoldable pub forward_mid : ℕ → (Message → Option Message) → Socket → Socket → Forwarded
  forward_mid zero mid from to = goes_on from to
  forward_mid (suc fuel) mid from to = round mid (forward_mid fuel mid) from to (recv_msg from)

  unfoldable pub forward_plain : ℕ → Socket → Socket → Forwarded
  forward_plain zero from to = goes_on from to
  forward_plain (suc fuel) from to = round some (forward_plain fuel) from to (recv_msg from)

  unfoldable pub forward : ℕ → Option (Message → Option Message) → Socket → Socket → Forwarded
  unfolding forward_mid forward_plain
  forward fuel none from to = forward_plain fuel from to
  forward fuel (some mid) from to = forward_mid fuel mid from to
