-- ===== src/Exchange.antt =====
-- socket.go, connector/pipe.go and message/message.go together: a message on its way from the queue of
-- one socket, over the pipes at the two ends of a connection, to the queue of another.
pub mod Idle
pub mod RoundTrip
pub mod Ids
use mathlib.Core.Path.{subst}
use multisocket.Prelude.{
  ℕ, ◌+◌, ◌<◌, ◌≡◌, refl, ap, sym, ◌∙◌, Bool, true, false, Option, none, some, List, [], ◌∷◌, ◌++◌,
  arith, ◌⊎◌, inl, inr, if◌then◌else◌, ◌&&◌,
}
use mathlib.Core.List.{append-nil}
use multisocket.Prelude.Queue.{Chan, has_room, enqueue}
use multisocket.Bytespool.{alloc, IsHanded}
use multisocket.Errs.{Err, Outcome, ok, err, panic, ◌>>=◌, closed, timeout, bad_protocol, eof}
use multisocket.Message.{Message, View, view, encode, has_flags, msg_flag_raw, msg_flag_internal}
use multisocket.Message.Wire.{wire}
use multisocket.Message.Receive.{Reader}
use multisocket.Message.Receive.Parts.{ok_then, advance, IsReceivable}
use multisocket.Message.Receive.Framing.{reader}
use multisocket.Connector.Pipe.{
  Pipe, Mode, Sent, raw_stream, raw_block, direct, block, stream_msg, ignored, bytes, message,
  send_msg, recv_block_msg, recv_msg, recv_direct_msg,
}
use multisocket.Connector.Pipe.Laws.{recv-send}
use multisocket.Socket.{Socket}
use multisocket.Socket.Recv.{Round, goes_on, full, receive}

-- What the pipe at the other end makes of what a pipe sent; raw pipes are left out.
abbrev pub arrived : (ℕ → List ℕ) → Pipe → Mode → Sent → Outcome Message
arrived alloc q block (bytes b) = (recv_block_msg alloc q b none).1
arrived alloc q stream_msg (bytes b) = (recv_msg alloc q (reader b eof)).1 >>= λ r. ok (r.0)
arrived alloc q direct (message m) = recv_direct_msg alloc q (ok m)
arrived alloc q mode sent = err bad_protocol

-- The round of receiver in which a message comes in goes through.
abbrev pub landed : Round → Outcome Socket
landed (goes_on true s) = ok s
landed (goes_on false s) = err closed
landed full = err timeout

-- A sender of pipe `p` has taken the message; the receiver of pipe `q` puts it into the queue of `to`.
unfoldable pub transfer : (ℕ → List ℕ) → Pipe → Pipe → Bool → Message → Socket → Outcome Socket
transfer alloc p q pick msg to = do
  sent ← send_msg p msg
  got ← arrived alloc q q.mode sent
  landed (receive q.id pick (some got) none to)

-- A socket that takes a message in.
pub record IsOpen (s : Socket) : Type 0 where
  pub not_closed : s.closedq_closed ≡ false
  pub receives : s.no_recv ≡ false
  pub has_place : has_room s.recvq ≡ true

keeps_flags :
    (pid flags : ℕ) (v : View) (got : Message)
    → view got ≡ advance pid v
    → has_flags got.meta flags ≡ has_flags v.meta flags
unfolding view has_flags
keeps_flags pid flags v got e = ap (λ (w : View). has_flags w.meta flags) e

receive_open :
    (id : ℕ) (pick : Bool) (got : Message) (to : Socket)
    → IsOpen to
    → has_flags got.meta msg_flag_internal ≡ false
    → receive id pick (some got) none to ≡ goes_on true (record to { recvq = enqueue got to.recvq })
unfolding receive
receive_open id pick got to o f =
    let shut = o.not_closed in
    let takes = o.receives in let room = o.has_place in ground (arith, shut, takes, room, f)

module _ (get : ℕ → List ℕ) (p q : Pipe) (pick : Bool) (msg : Message) (v : View) (to : Socket)
    (handed : IsHanded get) (plain : has_flags msg.meta msg_flag_raw ≡ false)
    (outward : has_flags v.meta msg_flag_internal ≡ false) (encodes : encode msg ≡ ok (wire v))
    (r : IsReceivable q.max_recv_content_length v) (sum : v.meta.hops + v.meta.distance < 256)
    (same : p.mode ≡ q.mode) (mode : (p.mode ≡ block) ⊎ (p.mode ≡ stream_msg)) (o : IsOpen to) where
  stored :
      (sent : Sent) (got : Message)
      → send_msg p msg ≡ ok sent
      → arrived (alloc get) q q.mode sent ≡ ok got
      → view got ≡ advance q.id v
      → transfer (alloc get) p q pick msg to ≡ ok (record to { recvq = enqueue got to.recvq })
  unfolding transfer
  stored sent got s a e =
      ok_then (send_msg p msg) _ s
      ∙ ok_then (arrived (alloc get) q q.mode sent) _ a
      ∙ ap landed
          (receive_open q.id pick got to o (keeps_flags q.id msg_flag_internal v got e ∙ outward))

  -- A message that a packet or stream pipe of an open socket sends, is in the queue of the socket at
  -- the other end, as its last, in the shape that `advance` says.
  pub transfer_delivers :
      (got : Message) × (transfer (alloc get) p q pick msg to
        ≡ ok (record to { recvq = enqueue got to.recvq }))
      × (view got ≡ advance q.id v)
  transfer_delivers = go mode
    where
      go :
          (p.mode ≡ block) ⊎ (p.mode ≡ stream_msg)
          → (got : Message) × (transfer (alloc get) p q pick msg to
              ≡ ok (record to { recvq = enqueue got to.recvq }))
            × (view got ≡ advance q.id v)
      go (inl m) =
          let (sends, (got, e, seen), _) =
            recv-send get msg v p q [] handed plain encodes r (inl m) sum in
          let a : arrived (alloc get) q q.mode (bytes (wire v)) ≡ ok got =
            ap (λ x. arrived (alloc get) q x (bytes (wire v))) (sym same ∙ m)
            ∙ ap (λ (x : Pipe × Outcome Message). x.1) e in
          (got, stored (bytes (wire v)) got sends a seen, seen)
      go (inr m) =
          let (sends, _, (got, e, seen)) =
            recv-send get msg v p q [] handed plain encodes r (inr m) sum in
          let read : (recv_msg (alloc get) q (reader (wire v) eof)).1 ≡ ok (got, reader [] eof) =
            ap (λ (b : List ℕ). (recv_msg (alloc get) q (reader b eof)).1)
              (sym (append-nil (wire v)))
            ∙ ap (λ (x : Pipe × Outcome (Message × Reader)). x.1) e in
          let a : arrived (alloc get) q q.mode (bytes (wire v)) ≡ ok got =
            ap (λ x. arrived (alloc get) q x (bytes (wire v))) (sym same ∙ m)
            ∙ ok_then (recv_msg (alloc get) q (reader (wire v) eof)).1 _ read in
          (got, stored (bytes (wire v)) got sends a seen, seen)
