-- ===== src/Switch/Forward.antt =====
-- switch.go: the messages that forward passes on.
use mathlib.Core.List.{append_assoc, append-nil}
use multisocket.Prelude.{
  ℕ, zero, suc, ◌+◌, ◌≤◌, ◌≡◌, ◌≢◌, refl, ap, sym, ◌∙◌, Bool, true, false, Option, none, some, List,
  [], ◌∷◌, ◌++◌, length, length-append, arith, All, ◌==◌,
}
use multisocket.Prelude.Queue.{Chan, has_room, enqueue}
use multisocket.Errs.{closed}
use multisocket.Message.{Message, send_type, send_type_to_one}
use multisocket.Socket.{Socket, done, send_msg}
use multisocket.Socket.Queues.{do_push_msg, pop, pop_list}
use multisocket.Socket.Recv.{taken, refused, recv_msg, after_pop}
use multisocket.Switch.{
  Forwarded, stops, after_send, send_on, round, forward_mid, forward_plain, forward,
}

module _ (alloc : ℕ → List ℕ) (picks : ℕ → Bool) (pick : Bool) where
  -- The loop without a middleware does what the other loop does with one that changes nothing.
  pub forward_plain-identity :
      (fuel : ℕ) (from to : Socket)
      → forward alloc picks pick fuel none from to
        ≡ forward alloc picks pick fuel (some some) from to
  unfolding forward forward_plain forward_mid
  forward_plain-identity zero from to = refl
  forward_plain-identity (suc fuel) from to =
      ap
        (λ (next : Socket → Socket → Forwarded).
          round alloc picks pick some next from to (recv_msg from))
        (λ i f t. forward_plain-identity fuel f t i)

  -- What the middleware makes of each message.
  abbrev pub Maps : (Message → Option Message) → List Message → List Message → Type 0
  Maps mid [] [] = Unit {0}
  Maps mid [] (o ∷ os) = ⊥
  Maps mid (m ∷ ms) [] = ⊥
  Maps mid (m ∷ ms) (o ∷ os) = (mid m ≡ some o) × Maps mid ms os

  -- A message for one receiver, with time to live.
  abbrev pub IsShared : Message → Type 0
  IsShared m = (send_type m.meta ≡ send_type_to_one) × (m.meta.ttl ≢ 0)

  send_msg-shared :
      (m : Message) (to : Socket)
      → IsShared m
      → to.no_send ≡ false
      → to.closedq_closed ≡ false
      → has_room to.sendq ≡ true
      → send_msg alloc picks pick m to ≡ done (record to { sendq = enqueue m to.sendq })
  unfolding send_msg do_push_msg
  send_msg-shared m to h n c r =
      let one = h.0 in
      let alive : (m.meta.ttl == 0) ≡ false = let t = h.1 in ground (arith, t) in
      ground (arith, one, alive, n, c, r)

  recv_msg-first :
      (m : Message) (ms : List Message) (s : Socket)
      → s.recvq.items ≡ m ∷ ms
      → recv_msg s ≡ taken m (record s { recvq = record { size = s.recvq.size; items = ms } })
  unfolding recv_msg pop
  recv_msg-first m ms s e = ap (λ x. after_pop s (pop_list s.closedq_closed s.recvq.size x)) e

  recv_msg-closed :
      (s : Socket) → s.recvq.items ≡ [] → s.closedq_closed ≡ true → recv_msg s ≡ refused closed
  unfolding recv_msg pop
  recv_msg-closed s e c = ground (arith, e, c)

  abbrev with_items : List Message → Chan Message → Chan Message
  with_items ms c = record { size = c.size; items = ms }

  -- A closed socket whose received messages the middleware turns into messages for one receiver: they
  -- are passed on, in order, to a socket that has room for all of them, and then the loop ends with
  -- ErrClosed, in one round more than there are messages.
  pub forward-closed :
      (mid : Message → Option Message) (ms os : List Message) (from to : Socket)
      → from.recvq.items ≡ ms
      → from.closedq_closed ≡ true
      → Maps mid ms os
      → All IsShared os
      → to.no_send ≡ false
      → to.closedq_closed ≡ false
      → length to.sendq.items + length os ≤ to.sendq.size
      → forward alloc picks pick (suc (length ms)) (some mid) from to
        ≡ stops closed
            (record from { recvq = with_items [] from.recvq })
            (record to { sendq = with_items (to.sendq.items ++ os) to.sendq })
  unfolding forward forward_mid
  forward-closed mid [] [] from to e c maps shared n o room =
      ap (round alloc picks pick mid (forward_mid alloc picks pick zero mid) from to)
        (recv_msg-closed from e c)
      ∙ (λ i.
          stops closed (record from { recvq = with_items (e i) from.recvq })
            (record to { sendq = with_items (sym (append-nil to.sendq.items) i) to.sendq }))
  forward-closed mid [] (x ∷ os) from to e c maps shared n o room = absurd maps
  forward-closed mid (m ∷ ms) [] from to e c maps shared n o room = absurd maps
  forward-closed mid (m ∷ ms) (x ∷ os) from to e c maps shared n o room =
      let next = forward_mid alloc picks pick (suc (length ms)) mid in
      let from' : Socket = record from { recvq = with_items ms from.recvq } in
      let to' : Socket = record to { sendq = enqueue x to.sendq } in
      let free : has_room to.sendq ≡ true = ground (arith, room) in
      ap (round alloc picks pick mid next from to) (recv_msg-first m ms from e)
      ∙ ap (send_on alloc picks pick (next from') from' to) (maps.0)
      ∙ ap (after_send (next from') from' to) (send_msg-shared x to (shared.0) n o free)
      ∙ forward-closed mid ms os from' to' refl c (maps.1) (shared.1) n o
          (omega (arith, room, length-append to.sendq.items (x ∷ [])))
      ∙ ap
          (λ (xs : List Message).
            stops closed (record from { recvq = with_items [] from.recvq })
              (record to { sendq = with_items xs to.sendq }))
          (append_assoc to.sendq.items (x ∷ []) os)
