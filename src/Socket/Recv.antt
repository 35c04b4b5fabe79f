-- ===== src/Socket/Recv.antt =====
-- socket.go: the receiving half, RecvMsg, the receiver of a pipe and Close.
use multisocket.Prelude.{
  ℕ, zero, suc, ◌≡◌, refl, ap, ◌∙◌, Bool, true, false, Option, none, some, List, [], ◌∷◌, length,
  ◌⊎◌, inl, inr, Bool-cases, length-append, not, ◌&&◌, ◌||◌, if◌then◌else◌, arith,
}
use mathlib.Core.Path.{subst}
use multisocket.Prelude.Queue.{enqueue, has_room, IsBounded}
use multisocket.Errs.{Err, Outcome, ok, err, closed}
use multisocket.Message.{Message, has_flags, msg_flag_internal}
use multisocket.Socket.{Socket, rem_pipe}
use multisocket.Socket.Queues.{Popped, got, empty_closed, waits, pop}

pub data Taken : Type 0 where
  taken : Message → Socket → Taken
  refused : Err → Taken
  idle : Taken

abbrev pub after_pop : Socket → Popped → Taken
after_pop s (got m q) = taken m (record s { recvq = q })
after_pop s empty_closed = refused closed
after_pop s waits = idle

unfoldable pub recv_msg : Socket → Taken
recv_msg s = after_pop s (pop s.closedq_closed s.recvq)

-- One round of receiver, by what RecvMsg of the pipe returns: a message, an error, or both. The
-- Boolean says that it goes on.
pub data Round : Type 0 where
  goes_on : Bool → Socket → Round
  full : Round

abbrev pub no_error : Option Err → Bool
no_error none = true
no_error (some e) = false

unfoldable pub receive : ℕ → Bool → Option Message → Option Err → Socket → Round
receive id pick none e s = goes_on (no_error e) s
receive id pick (some m) e s =
    if s.no_recv
    then goes_on (no_error e) s
    else if has_flags m.meta msg_flag_internal
    then goes_on (no_error e) s
    else if s.closedq_closed && (pick || not (has_room s.recvq))
    then goes_on false (rem_pipe id s).0
    else if has_room s.recvq
    then goes_on (no_error e) (record s { recvq = enqueue m s.recvq })
    else full

-- Close, up to the senders and the connector: the second call fails.
unfoldable pub close : Socket → Outcome Socket
close s = if s.closedq_closed then err closed else ok (record s { closedq_closed = true })

-- RecvMsg n times: the messages, and the socket, or the error of the first call that fails; `none` if
-- a call waits.
abbrev pub one_more :
    Message → Option (List Message × Option Err) → Option (List Message × Option Err)
one_more m none = none
one_more m (some (ms, e)) = some (m ∷ ms, e)

abbrev pub go_on :
    (Socket → Option (List Message × Option Err)) → Taken → Option (List Message × Option Err)
go_on next (taken m s) = one_more m (next s)
go_on next (refused e) = some ([], some e)
go_on next idle = none

abbrev pub recv_all : ℕ → Socket → Option (List Message × Option Err)
recv_all zero s = some ([], none)
recv_all (suc n) s = go_on (recv_all n) (recv_msg s)

recv_all-closed :
    (ms : List Message) (n : ℕ) (s : Socket)
    → s.closedq_closed ≡ true
    → s.recvq.items ≡ ms
    → n ≡ length ms
    → recv_all (suc n) s ≡ some (ms, some closed)
unfolding recv_msg pop
recv_all-closed [] n s c h l = ground (arith, c, h, l)
recv_all-closed (m ∷ ms) zero s c h l = absurd (omega arith)
recv_all-closed (m ∷ ms) (suc n) s c h l =
    let after : Socket = record s { recvq = record { size = s.recvq.size; items = ms } } in
    let one : recv_msg s ≡ taken m after = ground (arith, h) in
    ap (go_on (recv_all (suc n))) one
    ∙ ap (one_more m) (recv_all-closed ms n after c refl (omega arith))

-- A socket that is closed once answers every later Close with an error; RecvMsg still returns the
-- messages it had received, in the order they came, and then the error.
pub recv-after-close :
    (s s' : Socket)
    → close s ≡ ok s'
    → (close s' ≡ err closed)
      × (recv_all (suc (length s.recvq.items)) s' ≡ some (s.recvq.items, some closed))
unfolding close
recv-after-close s s' h = elim (Bool-cases s.closedq_closed) [
  | inl c ↦ absurd (ground (arith, h, c))
  | inr c ↦
      let same : record s { closedq_closed = true } ≡ s' = ground (arith, h, c) in
      subst
        (λ (x : Socket).
          (close x ≡ err closed)
          × (recv_all (suc (length s.recvq.items)) x ≡ some (s.recvq.items, some closed)))
        same
        (
          refl,
          recv_all-closed s.recvq.items (length s.recvq.items) (record s { closedq_closed = true })
              refl refl refl,
        )
]

-- Every branch of a round of the receiver of pipe id: a message is queued only if the socket receives,
-- the message is not internal and there is room, and then as the last; a message that is not queued
-- leaves the socket, save that a closed socket drops the pipe and the receiver ends.
pub receiver_cases :
    (id : ℕ) (pick : Bool) (m : Message) (e : Option Err) (s : Socket)
    → ((receive id pick (some m) e s
          ≡ goes_on (no_error e) (record s { recvq = enqueue m s.recvq }))
        × (s.no_recv ≡ false)
        × (has_flags m.meta msg_flag_internal ≡ false)
        × IsBounded (enqueue m s.recvq))
      ⊎ ((receive id pick (some m) e s ≡ goes_on (no_error e) s)
          × ((s.no_recv || has_flags m.meta msg_flag_internal) ≡ true))
      ⊎ ((receive id pick (some m) e s ≡ goes_on false (rem_pipe id s).0)
          × (s.closedq_closed ≡ true))
      ⊎ ((receive id pick (some m) e s ≡ full)
          × (s.closedq_closed ≡ false)
          × (has_room s.recvq ≡ false))
unfolding receive
receiver_cases id pick m e s = ground (arith, length-append s.recvq.items (m ∷ []))
