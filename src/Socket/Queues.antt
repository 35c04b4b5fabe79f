-- ===== src/Socket/Queues.antt =====
-- socket.go: a push and a pop on a queue of a socket that may be closed.
use multisocket.Prelude.{
  ◌||◌, ℕ, ◌≡◌, Bool, true, false, not, List, [], ◌∷◌, length-append, ◌&&◌, if◌then◌else◌, arith,
  ◌⊎◌,
}
use multisocket.Prelude.Queue.{Chan, has_room, enqueue, IsBounded}
use multisocket.Errs.{Err, closed, msg_dropped}
use multisocket.Message.{Message}

pub data Pushed : Type 0 where
  pushed : Chan Message → Pushed
  failed : Err → Pushed
  blocks : Pushed

-- doPushMsg: `is_closed` and the room in the queue make the two cases of its select ready; `pick`
-- takes the first if both are. With best effort there is a default case.
unfoldable pub do_push_msg : Bool → Bool → Bool → Message → Chan Message → Pushed
do_push_msg best_effort is_closed pick msg q =
    if is_closed && (pick || not (has_room q))
    then failed closed
    else if has_room q
    then pushed (enqueue msg q)
    else if best_effort
    then failed msg_dropped
    else blocks

pub data Popped : Type 0 where
  got : Message → Chan Message → Popped
  empty_closed : Popped
  waits : Popped

abbrev pub pop_list : Bool → ℕ → List Message → Popped
pop_list is_closed size [] = if is_closed then empty_closed else waits
pop_list is_closed size (m ∷ ms) = got m (record { size = size; items = ms })

-- RecvMsg's select: a closed socket still hands out what it has received.
unfoldable pub pop : Bool → Chan Message → Popped
pop is_closed q = pop_list is_closed q.size q.items

-- A push appends the message to the queue, which had room and keeps to its size; or the queue stays,
-- because the socket is closed, or because it is full and best effort drops the message; or it waits,
-- only on a full queue of an open socket without best effort.
pub do_push_msg_cases :
    (best_effort is_closed pick : Bool) (msg : Message) (q : Chan Message)
    → ((do_push_msg best_effort is_closed pick msg q ≡ pushed (enqueue msg q))
        × (has_room q ≡ true)
        × IsBounded (enqueue msg q))
      ⊎ ((do_push_msg best_effort is_closed pick msg q ≡ failed closed) × (is_closed ≡ true))
      ⊎ ((do_push_msg best_effort is_closed pick msg q ≡ failed msg_dropped)
          × (best_effort ≡ true)
          × (has_room q ≡ false))
      ⊎ ((do_push_msg best_effort is_closed pick msg q ≡ blocks)
          × (best_effort ≡ false)
          × (is_closed ≡ false)
          × (has_room q ≡ false))
unfolding do_push_msg
do_push_msg_cases best_effort is_closed pick msg q =
    ground (arith, length-append q.items (msg ∷ []))
