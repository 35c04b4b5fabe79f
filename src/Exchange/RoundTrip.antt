-- ===== src/Exchange/RoundTrip.antt =====
-- socket.go: a request over one connection, and the reply to its source.
use multisocket.Prelude.{
  ℕ, ◌≡◌, refl, ap, sym, ◌∙◌, true, false, Option, none, some, List, [], ◌∷◌, drop, arith, ◌⊎◌, inl,
  inr,
}
use multisocket.Prelude.Bytes.{IsU32, put_u32}
use multisocket.Prelude.Queue.{enqueue}
use multisocket.Bytespool.{alloc, IsHanded}
use multisocket.Errs.{Outcome, ok, err, panic, ◌>>=◌, timeout}
use multisocket.Message.{Message, View, view, bytes_of, cur_id, has_flags, send_type, msg_flag_raw}
use multisocket.Message.Receive.Parts.{ok_then, advance}
use multisocket.Message.Send.{new_send_message}
use multisocket.Message.Send.Laws.{sent, new_send_message-wire}
use multisocket.Message.Send.Route.{Fits-IsReceivable}
use multisocket.Message.Send.Reply.{
  path_of, path_of-IsPath, length-path_of, IsShort, sent-Fits, cur_id-path_of,
}
use multisocket.Connector.Pipe.{Pipe, block, stream_msg}
use multisocket.Socket.{Socket, SocketPipe, Done, done, fails, waiting, panics, send, send_to_path}
use multisocket.Socket.Recv.{Taken, taken, refused, idle, recv_msg}
use multisocket.Socket.Sender.{take_shared}
use multisocket.Socket.Stop.{take_own}
use multisocket.Exchange.Idle.{
  IsIdle, recv_msg-one, idle-IsOpen, queued, send-idle, take_shared-idle, send_to_path-idle,
  take_own-idle,
}
use multisocket.Exchange.{transfer, transfer_delivers}

abbrev pub pushed_on : Done → Outcome Socket
pushed_on (done s) = ok s
pushed_on (fails s e) = err e
pushed_on waiting = err timeout
pushed_on panics = panic

abbrev pub taken_off : Option (Message × Socket) → Outcome (Message × Socket)
taken_off none = err timeout
taken_off (some r) = ok r

abbrev pub handed_out : Taken → Outcome (Message × Socket)
handed_out (taken m s) = ok (m, s)
handed_out (refused e) = err e
handed_out idle = err timeout

-- Send on socket `a`; the sender of its pipe `p`, the receiver of pipe `q` of socket `b`; RecvMsg on
-- `b`, and SendTo to the source of what it returns; the sender of `q`, the receiver of `p`; RecvMsg on
-- `a`. The two messages that RecvMsg returns.
unfoldable pub round_trip :
    (ℕ → List ℕ)
    → Pipe
    → Pipe
    → SocketPipe
    → List ℕ
    → List ℕ
    → Socket
    → Socket
    → Outcome (Message × Message)
unfolding transfer recv_msg send send_to_path take_shared take_own
round_trip alloc p q sp content answer a b = do
  a1 ← pushed_on (send alloc true content a)
  (m, a2) ← taken_off (take_shared sp a1)
  b1 ← transfer alloc p q true m b
  (request, b2) ← handed_out (recv_msg b1)
  b3 ← pushed_on (send_to_path alloc true (bytes_of request.buf request.source) answer b2)
  (r, b4) ← taken_off (take_own q.id b3)
  a3 ← transfer alloc q p true r a2
  (reply, a4) ← handed_out (recv_msg a3)
  ok (request, reply)

-- A message that NewSendMessage built has no flags.
built_flags :
    (flags : ℕ) (m : Message) (v : View)
    → view m ≡ v
    → has_flags m.meta flags ≡ has_flags v.meta flags
unfolding view has_flags
built_flags flags m v e = ap (λ (w : View). has_flags w.meta flags) e

used_up : (x : ℕ) → drop 4 (path_of (x ∷ [])) ≡ []
unfolding put_u32
used_up x = refl

module _ (get : ℕ → List ℕ) (p q : Pipe) (a b : Socket) (sp sq : SocketPipe)
    (content answer : List ℕ) (handed : IsHanded get) (same : p.mode ≡ q.mode)
    (mode : (p.mode ≡ block) ⊎ (p.mode ≡ stream_msg)) (id : IsU32 q.id) (plain : sp.raw ≡ false)
    (ia : IsIdle a p.id sp) (ib : IsIdle b q.id sq)
    (asked : IsShort q.max_recv_content_length content)
    (answered : IsShort p.max_recv_content_length answer) where
  abbrev asks : View
  asks = sent 0 0 a.ttl [] [] content

  abbrev answers : View
  answers = sent 0 2 b.ttl [] (path_of (q.id ∷ [])) answer

  -- The sockets once their messages are gone.
  abbrev a2 : Socket
  a2 = record a { sendq = record { size = a.sendq.size; items = [] } }

  abbrev b2 : Socket
  b2 = record b { recvq = record { size = b.recvq.size; items = [] } }

  idle_a2 : IsIdle a2 p.id sp
  idle_a2 = record {
    not_closed = ia.not_closed;
    receives = ia.receives;
    sends = ia.sends;
    ttl_fits = ia.ttl_fits;
    has_pipe = ia.has_pipe;
    nothing_received = ia.nothing_received;
    nothing_shared = refl;
    nothing_own = ia.nothing_own;
    recv_room = ia.recv_room;
    shared_room = ia.shared_room;
    own_room = ia.own_room;
  }

  idle_b2 : IsIdle b2 q.id sq
  idle_b2 = record {
    not_closed = ib.not_closed;
    receives = ib.receives;
    sends = ib.sends;
    ttl_fits = ib.ttl_fits;
    has_pipe = ib.has_pipe;
    nothing_received = refl;
    nothing_shared = ib.nothing_shared;
    nothing_own = ib.nothing_own;
    recv_room = ib.recv_room;
    shared_room = ib.shared_room;
    own_room = ib.own_room;
  }

  request_sent :
      (m got : Message) × (send (alloc get) true content a
        ≡ done (record a { sendq = enqueue m a.sendq }))
      × (transfer (alloc get) p q true m b ≡ ok (record b { recvq = enqueue got b.recvq }))
      × (view got ≡ advance q.id asks)
  unfolding send_type has_flags
  request_sent =
      let m = new_send_message (alloc get) 0 0 a.ttl [] [] content in
      let (built, encoded) =
        new_send_message-wire get 0 0 a.ttl [] [] content handed (omega arith) (omega arith)
          (asked.1) in
      let fits =
        sent-Fits q.max_recv_content_length 1 a.ttl 0 [] content (omega arith) refl ia.ttl_fits
          asked (omega arith) (inr refl) in
      let (got, runs, seen) =
        transfer_delivers get p q true m asks b handed (built_flags msg_flag_raw m asks built) refl
          encoded (Fits-IsReceivable q.max_recv_content_length 0 asks fits) (omega arith) same mode
          (idle-IsOpen (alloc get) b q.id sq ib) in
      (m, got, send-idle (alloc get) a p.id sp ia content, runs, seen)

  reply_sent :
      (asked : Message)
      → view asked ≡ advance q.id asks
      → (m got : Message) × (send_to_path
            (alloc get)
            true
            (bytes_of asked.buf asked.source)
            answer
            b2
          ≡ done (queued (alloc get) b2 q.id sq idle_b2 m))
        × (transfer (alloc get) q p true m a2 ≡ ok (record a2 { recvq = enqueue got a2.recvq }))
        × (view got ≡ advance p.id answers)
  unfolding send_type has_flags
  reply_sent asked seen =
      let m = new_send_message (alloc get) 0 2 b.ttl [] (path_of (q.id ∷ [])) answer in
      let (built, encoded) =
        new_send_message-wire get 0 2 b.ttl [] (path_of (q.id ∷ [])) answer handed (omega arith)
          (path_of-IsPath (q.id ∷ []) (omega arith)) (answered.1) in
      let fits =
        sent-Fits p.max_recv_content_length 1 b.ttl 2 (q.id ∷ []) answer (omega arith) refl
          ib.ttl_fits answered (omega arith) (inl (omega arith)) in
      let (got, runs, seen') =
        transfer_delivers get q p true m answers a2 handed
          (built_flags msg_flag_raw m answers built) refl encoded
          (Fits-IsReceivable p.max_recv_content_length 0 answers fits)
          (omega (arith, length-path_of (q.id ∷ []))) (sym same) (other mode)
          (idle-IsOpen (alloc get) a2 p.id sp idle_a2) in
      let source : bytes_of asked.buf asked.source ≡ path_of (q.id ∷ []) =
        unfold view in ap (λ (v : View). v.source) seen in
      let far : m.meta.distance ≡ 1 =
        unfold view in
        ap (λ (v : View). v.meta.distance) built ∙ omega (arith, length-path_of (q.id ∷ [])) in
      let next : cur_id (bytes_of m.buf m.destination) ≡ ok q.id =
        unfold view in ap (λ (v : View). cur_id v.destination) built ∙ cur_id-path_of q.id [] id in
      (
        m,
        got,
        ap (λ (d : List ℕ). send_to_path (alloc get) true d answer b2) source
            ∙ send_to_path-idle (alloc get) b2 q.id sq idle_b2 (path_of (q.id ∷ [])) answer far
                next,
        runs,
        seen',
      )
    where
      other : (p.mode ≡ block) ⊎ (p.mode ≡ stream_msg) → (q.mode ≡ block) ⊎ (q.mode ≡ stream_msg)
      other (inl e) = inl (sym same ∙ e)
      other (inr e) = inr (sym same ∙ e)

  -- Over a connection between two sockets with empty queues, Send on the one and RecvMsg on the other,
  -- then SendTo to the source of the message that came in and RecvMsg on the first, go through: the
  -- request arrives with the content that was sent and the id of the pipe as its source, and the reply
  -- arrives with the content of the answer and nothing left of its destination. So it is for packet
  -- and for stream pipes, for contents within the limits of the pipes.
  pub round_trip_lem :
      (request reply : Message) × (round_trip (alloc get) p q sp content answer a b
        ≡ ok (request, reply))
      × ((view request).content ≡ content)
      × ((view request).source ≡ path_of (q.id ∷ []))
      × ((view reply).content ≡ answer)
      × ((view reply).source ≡ path_of (p.id ∷ []))
      × ((view reply).destination ≡ [])
  unfolding round_trip send_type
  round_trip_lem =
      let (m, request, e1, e2, seen) = request_sent in
      let (r, reply, e3, e4, seen') = reply_sent request seen in
      let (b4, e5) = take_own-idle (alloc get) b2 q.id sq idle_b2 r in
      (
        request,
        reply,
        ok_then (pushed_on (send (alloc get) true content a)) _ (ap pushed_on e1)
            ∙ ok_then (taken_off (take_shared sp (record a { sendq = enqueue m a.sendq }))) _
                (ap taken_off (take_shared-idle (alloc get) a p.id sp ia m plain))
            ∙ ok_then (transfer (alloc get) p q true m b) _ e2
            ∙ ok_then (handed_out (recv_msg (record b { recvq = enqueue request b.recvq }))) _
                (ap handed_out (recv_msg-one b request ib.nothing_received))
            ∙ ok_then
                (pushed_on
                  (send_to_path (alloc get) true (bytes_of request.buf request.source) answer b2))
                _ (ap pushed_on e3)
            ∙ ok_then (taken_off (take_own q.id (queued (alloc get) b2 q.id sq idle_b2 r))) _
                (ap taken_off e5)
            ∙ ok_then (transfer (alloc get) q p true r a2) _ e4
            ∙ ok_then (handed_out (recv_msg (record a2 { recvq = enqueue reply a2.recvq }))) _
                (ap handed_out (recv_msg-one a2 reply ia.nothing_received)),
        ap (λ (v : View). v.content) seen,
        ap (λ (v : View). v.source) seen,
        ap (λ (v : View). v.content) seen',
        ap (λ (v : View). v.source) seen',
        ap (λ (v : View). v.destination) seen' ∙ used_up q.id,
      )
