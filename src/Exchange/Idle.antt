-- ===== src/Exchange/Idle.antt =====
-- socket.go: the calls on an open socket with empty queues.
use multisocket.Prelude.{
  ℕ, ◌<◌, ◌≤◌, ◌≡◌, ap, ◌∙◌, Bool, true, false, Option, none, some, List, [], ◌∷◌, ◌++◌, length,
  arith, if◌then◌else◌, ◌==◌,
}
use multisocket.Prelude.Assoc.{lookup, insert, lookup-insert}
use multisocket.Prelude.Queue.{enqueue}
use multisocket.Errs.{Outcome, ok}
use multisocket.Message.{Message, bytes_of, cur_id, send_type_to_one, send_type_to_dest}
use multisocket.Message.Send.{new_send_message}
use multisocket.Socket.{Socket, SocketPipe, done, send, send_to_path, send_to, route, push_to_pipe}
use multisocket.Socket.Queues.{do_push_msg, pop, pop_list}
use multisocket.Socket.Recv.{taken, recv_msg, after_pop}
use multisocket.Socket.Sender.{take_shared, take_first}
use multisocket.Socket.Stop.{take_own, take_own_of, take_own_first}
use multisocket.Exchange.{IsOpen}

-- An open socket that sends and receives, has the pipe with this id, and has empty queues.
pub record IsIdle (s : Socket) (id : ℕ) (p : SocketPipe) : Type 0 where
  pub not_closed : s.closedq_closed ≡ false
  pub receives : s.no_recv ≡ false
  pub sends : s.no_send ≡ false
  pub ttl_fits : s.ttl < 256
  pub has_pipe : lookup id s.pipes ≡ some p
  pub nothing_received : s.recvq.items ≡ []
  pub nothing_shared : s.sendq.items ≡ []
  pub nothing_own : p.sendq.items ≡ []
  pub recv_room : 1 ≤ s.recvq.size
  pub shared_room : 1 ≤ s.sendq.size
  pub own_room : 1 ≤ p.sendq.size

-- RecvMsg on a socket that has received one message.
pub recv_msg-one :
    (s : Socket) (m : Message)
    → s.recvq.items ≡ []
    → recv_msg (record s { recvq = enqueue m s.recvq })
      ≡ taken m (record s { recvq = record { size = s.recvq.size; items = [] } })
unfolding recv_msg pop
recv_msg-one s m e =
    ap
      (λ (ms : List Message).
        after_pop (record s { recvq = enqueue m s.recvq })
          (pop_list s.closedq_closed s.recvq.size (ms ++ (m ∷ []))))
      e

module _ (alloc : ℕ → List ℕ) (s : Socket) (id : ℕ) (p : SocketPipe) (i : IsIdle s id p) where
  pub idle-IsOpen : IsOpen s
  idle-IsOpen = record {
    not_closed = i.not_closed;
    receives = i.receives;
    has_place = let e = i.nothing_received in let r = i.recv_room in ground (arith, ap length e, r);
  }

  pub send-idle :
      (content : List ℕ)
      → send alloc true content s
        ≡ done (record s {
          sendq = enqueue (new_send_message alloc 0 send_type_to_one s.ttl [] [] content) s.sendq;
        })
  unfolding send do_push_msg
  send-idle content =
      let c = i.not_closed in
      let n = i.sends in
      let e = i.nothing_shared in let r = i.shared_room in ground (arith, c, n, ap length e, r)

  pub take_shared-idle :
      (m : Message)
      → p.raw ≡ false
      → take_shared p (record s { sendq = enqueue m s.sendq })
        ≡ some (m, record s { sendq = record { size = s.sendq.size; items = [] } })
  unfolding take_shared
  take_shared-idle m raw =
      ap
        (λ (b : Bool).
          if b
          then none
          else take_first (record s { sendq = enqueue m s.sendq }) (s.sendq.items ++ (m ∷ [])))
        raw
      ∙ ap
          (λ (ms : List Message).
            take_first (record s { sendq = enqueue m s.sendq }) (ms ++ (m ∷ [])))
          i.nothing_shared

  -- A message to the pipe is queued on it, and the pipe's sender takes it.
  unfoldable pub queued : Message → Socket
  queued m = record s { pipes = insert id (record p { sendq = enqueue m p.sendq }) s.pipes }

  send_to-idle :
      (m : Message)
      → m.meta.distance ≡ 1
      → cur_id (bytes_of m.buf m.destination) ≡ ok id
      → send_to true m s ≡ done (queued m)
  unfolding send_to do_push_msg queued
  send_to-idle m far next =
      let moves : (m.meta.distance == 0) ≡ false = ground (arith, far) in
      let c = i.not_closed in
      let e = i.nothing_own in
      let r = i.own_room in
      ap
        (λ (b : Bool). if b then done s else route true m (cur_id (bytes_of m.buf m.destination)) s)
        moves
      ∙ ap (λ (o : Outcome ℕ). route true m o s) next
      ∙ ap (λ (o : Option SocketPipe). push_to_pipe true m id o s) i.has_pipe
      ∙ ground (arith, c, ap length e, r)

  pub send_to_path-idle :
      (dest content : List ℕ)
      → (new_send_message alloc 0 send_type_to_dest s.ttl [] dest content).meta.distance ≡ 1
      → (let m = new_send_message alloc 0 send_type_to_dest s.ttl [] dest content in
          cur_id (bytes_of m.buf m.destination) ≡ ok id)
      → send_to_path alloc true dest content s
        ≡ done (queued (new_send_message alloc 0 send_type_to_dest s.ttl [] dest content))
  unfolding send_to_path
  send_to_path-idle dest content far next =
      let m = new_send_message alloc 0 send_type_to_dest s.ttl [] dest content in
      ap (λ (b : Bool). if b then done s else send_to true m s) i.sends ∙ send_to-idle m far next

  pub take_own-idle : (m : Message) → (s' : Socket) × (take_own id (queued m) ≡ some (m, s'))
  unfolding take_own queued
  take_own-idle m =
      let there : lookup id (queued m).pipes ≡ some (record p { sendq = enqueue m p.sendq }) =
        ground (arith, lookup-insert id id (record p { sendq = enqueue m p.sendq }) s.pipes) in
      (
        _,
        ap (take_own_of id (queued m)) there
            ∙ ap
                (λ (ms : List Message).
                  take_own_first id (record p { sendq = enqueue m p.sendq }) (queued m)
                    (ms ++ (m ∷ [])))
                i.nothing_own,
      )
