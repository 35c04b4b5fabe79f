-- ===== src/Transport/Channel/Packets.antt =====
-- transport/inproc/channel/channel_sr.go and channel_msr.go: pipes that hand byte slices, or whole
-- messages, from one end to the other. One direction of a pipe.
-- The two files have the same code at two types; freeing a nil slice does nothing.
pub mod Ownership
use multisocket.Prelude.{
  ℕ, ◌≡◌, Bool, true, false, not, Option, none, some, List, [], ◌∷◌, ◌++◌, ◌&&◌, ◌||◌,
  if◌then◌else◌,
}
use multisocket.Prelude.Queue.{Chan, make, has_room, enqueue}
use multisocket.Errs.{Err, Outcome, ok, err, closed}
use multisocket.Message.{Message}

-- What is sent is handed over. `last` is what Recv returned last, which the receiver still reads;
-- `freed` is what went back to the pool, oldest first.
pub record Half {ℓ} (A : Type ℓ) : Type ℓ where
  pub queue : Chan A
  pub last : Option A
  pub freed : List A
  pub is_closed : Bool

pub data Sent {ℓ} (A : Type ℓ) : Type ℓ where
  sent : Half A → Sent A
  not_sent : Err → Sent A
  blocks : Sent A

-- Recv frees before it waits, so the pipe changes on every branch.
pub data Received {ℓ} (A : Type ℓ) : Type ℓ where
  got : A → Half A → Received A
  refused : Err → Half A → Received A
  waits : Half A → Received A

module _ {ℓ} {A : Type ℓ} where
  -- newSrPipe, in one direction.
  unfoldable pub new_sr_pipe : ℕ → Half A
  new_sr_pipe buffer_size = record {
    queue = make buffer_size;
    last = none;
    freed = [];
    is_closed = false;
  }

  -- srPipe.Send: select with a case for `closedq` and one for the queue; `pick` takes the first if both
  -- are ready.
  unfoldable pub send : Bool → A → Half A → Sent A
  send pick a p =
      if p.is_closed && (pick || not (has_room p.queue))
      then not_sent closed
      else if has_room p.queue
      then sent (record p { queue = enqueue a p.queue })
      else blocks

  abbrev pub free_last : Option A → Half A → Half A
  free_last none p = p
  free_last (some a) p = record p { last = none; freed = p.freed ++ (a ∷ []) }

  -- A closed pipe hands out what it has, too.
  abbrev pub take_next : Half A → List A → Received A
  take_next p [] = if p.is_closed then refused closed p else waits p
  take_next p (a ∷ rest) =
      got a (record p { queue = record { size = p.queue.size; items = rest }; last = some a })

  -- srPipe.Recv.
  unfoldable pub recv : Half A → Received A
  recv p = take_next (free_last p.last p) (free_last p.last p).queue.items

-- msrPipe: the two channels of messages of newMsrPipe, one for each direction.
unfoldable pub new_msr_pipe : ℕ → Half Message × Half Message
unfolding new_sr_pipe
new_msr_pipe buffer_size = (new_sr_pipe buffer_size, new_sr_pipe buffer_size)

unfoldable pub send_msg : Bool → Message → Half Message → Sent Message
unfolding send
send_msg pick msg p = send pick msg p

unfoldable pub recv_msg : Half Message → Received Message
unfolding recv
recv_msg p = recv p

-- Close, of the pipe that both embed.
unfoldable pub close {ℓ} : {A : Type ℓ} → Half A → Outcome (Half A)
close p = if p.is_closed then err closed else ok (record p { is_closed = true })
