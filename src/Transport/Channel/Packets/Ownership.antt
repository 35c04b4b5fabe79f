-- ===== src/Transport/Channel/Packets/Ownership.antt =====
-- transport/inproc/channel/channel_sr.go and channel_msr.go: who holds what was sent, and when it goes
-- back to the pool.
use mathlib.Core.List.{append_assoc, append-nil}
use multisocket.Prelude.{
  ℕ, ◌≡◌, refl, ap, sym, ◌∙◌, Bool, true, false, Option, none, some, List, [], ◌∷◌, ◌++◌, arith,
  inl, inr, Bool-cases, if◌then◌else◌,
}
use mathlib.Core.Path.{subst}
use multisocket.Prelude.Queue.{enqueue}
use multisocket.Errs.{Err, Outcome, ok, err, panic, closed}
use multisocket.Transport.Channel.Packets.{
  Half, Sent, sent, not_sent, blocks, Received, got, refused, waits, free_last, take_next, close,
  new_sr_pipe, send, recv,
}

-- The calls, in the order in which they take effect.
pub data Call {ℓ} (A : Type ℓ) : Type ℓ where
  sends : Bool → A → Call A
  recvs : Call A
  closes : Call A

-- What Send took and what Recv gave, oldest first.
pub record Run {ℓ} (A : Type ℓ) : Type ℓ where
  pub pipe : Half A
  pub taken : List A
  pub given : List A

-- A Recv that fails does so with ErrClosed and leaves everything that was taken in the pool.
pub data Settles {ℓ} {A : Type ℓ} (taken : List A) : Received A → Type ℓ where
  gives : (a : A) (p : Half A) → Settles taken (got a p)
  fails : (e : Err) (p : Half A) → e ≡ closed → p.freed ≡ taken → Settles taken (refused e p)
  stays : (p : Half A) → Settles taken (waits p)

module _ {ℓ} {A : Type ℓ} where
  abbrev pub held : Option A → List A
  held none = []
  held (some a) = a ∷ []

  abbrev pub after_send : A → Run A → Sent A → Run A
  after_send a r (sent p) = record r { pipe = p; taken = r.taken ++ (a ∷ []) }
  after_send a r (not_sent e) = r
  after_send a r blocks = r

  abbrev pub after_recv : Run A → Received A → Run A
  after_recv r (got a p) = record r { pipe = p; given = r.given ++ (a ∷ []) }
  after_recv r (refused e p) = record r { pipe = p }
  after_recv r (waits p) = record r { pipe = p }

  abbrev pub after_close : Run A → Outcome (Half A) → Run A
  after_close r (ok p) = record r { pipe = p }
  after_close r (err e) = r
  after_close r panic = r

  unfoldable pub step : Call A → Run A → Run A
  unfolding send recv close
  step (sends pick a) r = after_send a r (send pick a r.pipe)
  step recvs r = after_recv r (recv r.pipe)
  step closes r = after_close r (close r.pipe)

  unfoldable pub steps : List (Call A) → Run A → Run A
  unfolding step
  steps [] r = r
  steps (c ∷ cs) r = steps cs (step c r)

  abbrev pub start : ℕ → Run A
  start size = record { pipe = new_sr_pipe size; taken = []; given = [] }

  -- What was given is what went back to the pool and then what the receiver holds; what was taken is
  -- what was given and then what is queued.
  pub record IsOwned (r : Run A) : Type ℓ where
    pub back : r.given ≡ r.pipe.freed ++ held r.pipe.last
    pub order : r.taken ≡ r.given ++ r.pipe.queue.items

  send-IsOwned : (pick : Bool) (a : A) (r : Run A) → IsOwned r → IsOwned (step (sends pick a) r)
  unfolding step
  send-IsOwned pick a r o = go (send pick a r.pipe) refl
    where
      go : (s : Sent A) → send pick a r.pipe ≡ s → IsOwned (after_send a r s)
      go (sent p) e =
          let same : record (r.pipe) { queue = enqueue a r.pipe.queue } ≡ p =
            unfold send in ground (arith, e) in
          subst (λ (x : Half A). IsOwned (record r { pipe = x; taken = r.taken ++ (a ∷ []) })) same
            (record {
              back = o.back;
              order =
                  ap (λ (x : List A). x ++ (a ∷ [])) o.order
                  ∙ append_assoc r.given r.pipe.queue.items (a ∷ []);
            })
      go (not_sent x) e = o
      go blocks e = o

  -- Before Recv waits, nothing is held and everything that was given is back.
  freed_all :
      (l : Option A) (p : Half A) (given : List A)
      → p.last ≡ l
      → given ≡ p.freed ++ held l
      → (given ≡ (free_last l p).freed)
        × ((free_last l p).last ≡ none)
        × ((free_last l p).queue.items ≡ p.queue.items)
  freed_all none p given e h = (h ∙ append-nil p.freed, e, refl)
  freed_all (some a) p given e h = (h, refl, refl)

  next-IsOwned :
      (r : Run A) (p : Half A) (items : List A)
      → p.queue.items ≡ items
      → r.given ≡ p.freed
      → p.last ≡ none
      → r.taken ≡ r.given ++ items
      → IsOwned (after_recv r (take_next p items))
  next-IsOwned r p [] q g l o = go p.is_closed
    where
      now : IsOwned (record r { pipe = p })
      now = record {
        back = g ∙ sym (append-nil p.freed) ∙ ap (λ (x : Option A). p.freed ++ held x) (sym l);
        order = o ∙ ap (◌++◌ r.given) (sym q);
      }

      go : (b : Bool) → IsOwned (after_recv r (if b then refused closed p else waits p))
      go true = now
      go false = now
  next-IsOwned r p (a ∷ rest) q g l o = record {
    back = ap (λ (x : List A). x ++ (a ∷ [])) g;
    order = o ∙ sym (append_assoc r.given (a ∷ []) rest);
  }

  recv-IsOwned : (r : Run A) → IsOwned r → IsOwned (step recvs r)
  unfolding step recv
  recv-IsOwned r o =
      let (back, none_held, queue) = freed_all r.pipe.last r.pipe r.given refl o.back in
      next-IsOwned r (free_last r.pipe.last r.pipe) _ refl back none_held
        (o.order ∙ ap (◌++◌ r.given) (sym queue))

  close-IsOwned : (r : Run A) → IsOwned r → IsOwned (step closes r)
  unfolding step close
  close-IsOwned r o = go r.pipe.is_closed
    where
      go :
          (b : Bool)
          → IsOwned
              (after_close r (if b then err closed else ok (record (r.pipe) { is_closed = true })))
      go true = o
      go false = record { back = o.back; order = o.order }

  step-IsOwned : (c : Call A) (r : Run A) → IsOwned r → IsOwned (step c r)
  step-IsOwned (sends pick a) r o = send-IsOwned pick a r o
  step-IsOwned recvs r o = recv-IsOwned r o
  step-IsOwned closes r o = close-IsOwned r o

  steps-IsOwned : (cs : List (Call A)) (r : Run A) → IsOwned r → IsOwned (steps cs r)
  unfolding steps
  steps-IsOwned [] r o = o
  steps-IsOwned (c ∷ cs) r o = steps-IsOwned cs (step c r) (step-IsOwned c r o)

  refused_at :
      (p p' : Half A) (items : List A) (e : Err)
      → take_next p items ≡ refused e p'
      → p.queue.items ≡ items
      → (p ≡ p') × (p.queue.items ≡ []) × (e ≡ closed)
  refused_at p p' [] e h q = elim (Bool-cases p.is_closed) [
    | inl c ↦
        let same : refused closed p ≡ refused e p' = sym (rw c refl) ∙ h in (cc same, q, cc same)
    | inr c ↦ absurd (ground (arith, c, h))
  ]
  refused_at p p' (a ∷ rest) e h q = absurd (cc)

  settled : (r : Run A) → IsOwned r → (x : Received A) → recv r.pipe ≡ x → Settles r.taken x
  unfolding recv
  settled r o (got a p) h = gives a p
  settled r o (waits p) h = stays p
  settled r o (refused e p) h =
      let (back, none_held, queue) = freed_all r.pipe.last r.pipe r.given refl o.back in
      let (same, empty, shut) = refused_at (free_last r.pipe.last r.pipe) p _ e h refl in
      fails e p shut (
        ap (λ (x : Half A). x.freed) (sym same)
        ∙ sym back
        ∙ sym (append-nil r.given)
        ∙ ap (◌++◌ r.given) (sym (sym queue ∙ empty))
        ∙ sym o.order)

  -- Whatever calls of Send, Recv and Close on a new pipe follow each other: what Recv gave is, in
  -- order, what went back to the pool and then the one that the receiver still holds, so nothing goes
  -- back twice or while it is held; and what Send took is, in order, what Recv gave and what is
  -- queued. When Recv fails, the error is ErrClosed, and everything that Send took is back.
  pub packets_owned :
      (size : ℕ) (cs : List (Call A))
      → ((steps cs (start size)).given
          ≡ (steps cs (start size)).pipe.freed ++ held (steps cs (start size)).pipe.last)
        × ((steps cs (start size)).taken
            ≡ (steps cs (start size)).given ++ (steps cs (start size)).pipe.queue.items)
        × Settles (steps cs (start size)).taken (recv (steps cs (start size)).pipe)
  unfolding recv new_sr_pipe
  packets_owned size cs =
      let r : Run A = steps cs (start size) in
      let o : IsOwned r = steps-IsOwned cs (start size) (record { back = refl; order = refl }) in
      (o.back, o.order, settled r o (recv r.pipe) refl)
