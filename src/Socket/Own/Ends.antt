-- ===== src/Socket/Own/Ends.antt =====
-- socket.go: a pipe that is removed after any calls on the socket.
use multisocket.Prelude.{
  ℕ, ◌≡◌, ap, sym, ◌∙◌, Bool, true, false, some, List, [], ◌∷◌, ◌++◌, arith, All, ◌==◌,
}
use mathlib.Core.Path.{subst}
use multisocket.Prelude.Assoc.{lookup, delete}
use multisocket.Prelude.Queue.{make}
use multisocket.Message.{Message, FreeLevel, send_type_to_one, send_type_to_dest, send_type_to_all}
use multisocket.Message.Flags.{send_type-new_send_message}
use multisocket.Message.Send.{new_send_message}
use multisocket.Socket.{
  Socket, SocketPipe, add_pipe, rem_pipe, send_msg, send, send_to_path, send_all,
}
use multisocket.Socket.Stop.{Turn, Drained, remove_pipe, stop_removed, stop_pipe}
use multisocket.Socket.Stop.Laws.{IsRouted, drain-Drains}
use multisocket.Socket.Own.{
  IsOwn, AreOwn, All-insert, All-lookup, after, either_way, send_to-AreOwn, push_shared-AreOwn,
  rem_pipe-found, rem_pipe-AreOwn,
}
use multisocket.Socket.Own.Copies.{send_to_all-AreOwn, by_type-AreOwn}

-- The calls that change the pipes or their queues. A pipe that is added is new.
pub data Call : Type 0 where
  adds : ℕ → Bool → FreeLevel → Call
  removes : ℕ → Call
  passes_on : (ℕ → Bool) → Bool → Message → Call
  sends : Bool → List ℕ → Call
  sends_to : Bool → List ℕ → List ℕ → Call
  sends_all : (ℕ → Bool) → List ℕ → Call

unfoldable pub step : (ℕ → List ℕ) → Call → Socket → Socket
unfolding add_pipe rem_pipe send_msg send send_to_path send_all
step alloc (adds id raw level) s = add_pipe id raw level s
step alloc (removes id) s = (rem_pipe id s).0
step alloc (passes_on picks pick m) s = after s (send_msg alloc picks pick m s)
step alloc (sends pick content) s = after s (send alloc pick content s)
step alloc (sends_to pick dest content) s = after s (send_to_path alloc pick dest content s)
step alloc (sends_all picks content) s = after s (send_all alloc picks content s)

unfoldable pub steps : (ℕ → List ℕ) → List Call → Socket → Socket
unfolding step
steps alloc [] s = s
steps alloc (c ∷ cs) s = steps alloc cs (step alloc c s)

step-AreOwn : (alloc : ℕ → List ℕ) (c : Call) (s : Socket) → AreOwn s → AreOwn (step alloc c s)
unfolding step add_pipe send_msg send send_to_path send_all
step-AreOwn alloc (adds id raw level) s h =
    All-insert id
      (record {
        raw = raw;
        stopq_closed = false;
        sendq = make s.values.send_queue_size;
        free_level = level;
      })
      s.pipes tt h
step-AreOwn alloc (removes id) s h = rem_pipe-AreOwn id s h
step-AreOwn alloc (passes_on picks pick m) s h =
    either_way s.no_send s _ _ h
      (either_way (m.meta.ttl == 0) s _ _ h (by_type-AreOwn alloc picks pick m s h))
step-AreOwn alloc (sends pick content) s h =
    either_way s.no_send s _ _ h
      (push_shared-AreOwn pick (new_send_message alloc 0 send_type_to_one s.ttl [] [] content) s h)
step-AreOwn alloc (sends_to pick dest content) s h =
    let m = new_send_message alloc 0 send_type_to_dest s.ttl [] dest content in
    let type =
      send_type-new_send_message alloc 0 send_type_to_dest s.ttl [] dest content (omega arith)
        (omega arith) in
    either_way s.no_send s _ _ h (send_to-AreOwn pick m s (λ z. omega (arith, type, z)) h)
step-AreOwn alloc (sends_all picks content) s h =
    let m = new_send_message alloc 0 send_type_to_all s.ttl [] [] content in
    let type =
      send_type-new_send_message alloc 0 send_type_to_all s.ttl [] [] content (omega arith)
        (omega arith) in
    either_way s.no_send s _ _ h
      (send_to_all-AreOwn alloc picks m s (λ z. omega (arith, type, z)) h)

steps-AreOwn :
    (alloc : ℕ → List ℕ) (cs : List Call) (s : Socket) → AreOwn s → AreOwn (steps alloc cs s)
unfolding steps
steps-AreOwn alloc [] s h = h
steps-AreOwn alloc (c ∷ cs) s h = steps-AreOwn alloc cs (step alloc c s) (step-AreOwn alloc c s h)

-- Whatever calls a socket without pipes has taken, removing a pipe that it then has comes to an end,
-- whenever the timer fires and whatever the pipe answers: each message of the pipe's own queue was
-- sent or was freed unsent, in this order, nothing was put back into the shared queue, and the socket
-- is as it was but for the pipe.
pub remove_pipe_ends :
    (alloc : ℕ → List ℕ) (cs : List Call) (s : Socket) (turns : ℕ → Turn) (id : ℕ) (p : SocketPipe)
    → s.pipes ≡ []
    → lookup id (steps alloc cs s).pipes ≡ some p
    → (d : Drained) × (remove_pipe turns id (steps alloc cs s) ≡ some d)
      × (p.sendq.items ≡ d.sent ++ d.dropped)
      × (d.put_back ≡ [])
      × (d.socket ≡ record (steps alloc cs s) { pipes = delete id (steps alloc cs s).pipes })
unfolding remove_pipe stop_pipe
remove_pipe_ends alloc cs s turns id p e l =
    let t : Socket = steps alloc cs s in
    let own : All IsRouted p.sendq.items =
      All-lookup id p t.pipes (steps-AreOwn alloc cs s (subst (All IsOwn) (sym e) tt)) l in
    let (d, f, i) =
      drain-Drains turns 0 (record p { stopq_closed = true }) p.sendq.items
        (record t { pipes = delete id t.pipes }) own in
    (
      d,
      ap (stop_removed turns) (rem_pipe-found id p t l) ∙ f,
      i.in_order,
      i.none_back,
      i.same_socket,
    )
