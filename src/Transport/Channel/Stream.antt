-- ===== src/Transport/Channel/Stream.antt =====
-- transport/inproc/channel/channel.go: the bytes that go through a pipe.
use mathlib.Core.Path.{subst}
use mathlib.Core.List.{append_assoc, append-nil}
use multisocket.Prelude.{
  ℕ, zero, suc, ◌+◌, ◌-◌, ◌≤◌, ◌<◌, ◌≡◌, ◌≢◌, refl, ap, sym, ◌∙◌, Bool, false, Option, none, some,
  List, [], ◌∷◌, ◌++◌, length, take, drop, min, length-take, length-drop, leb, arith, leb→le, inl,
  inr, Bool-cases,
}
use multisocket.Prelude.Queue.{enqueue}
use multisocket.Errs.{Outcome, ok, err, panic, closed}
use multisocket.Transport.Channel.{
  Half, Read, got, refused, waits, copy_out, next_slice, read_on, read, Written, written,
  not_written, blocks, write, close, create_pipe,
}

abbrev pub joined : List (List ℕ) → List ℕ
joined [] = []
joined (s ∷ rest) = s ++ joined rest

abbrev pub rest_of : Option (List ℕ) → ℕ → List ℕ
rest_of none i = []
rest_of (some s) i = drop i s

-- The bytes that were written and not yet read.
abbrev pub unread : Half → List ℕ
unread p = rest_of p.s p.i ++ joined p.rc.items

take-short : (n : ℕ) → take {A = ℕ} n [] ≡ []
take-short zero = refl
take-short (suc n) = refl

drop-short : (n : ℕ) → drop {A = ℕ} n [] ≡ []
drop-short zero = refl
drop-short (suc n) = refl

from_start : (n : ℕ) (s : List ℕ) → take n s ++ drop (min n (length s)) s ≡ s
from_start zero s = rw (the_zero (length s)) refl
  where
    the_zero : (k : ℕ) → min 0 k ≡ 0
    the_zero k = omega arith
from_start (suc n) [] = drop-short (min (suc n) 0)
from_start (suc n) (b ∷ s) =
    let step : min (suc n) (suc (length s)) ≡ suc (min n (length s)) = omega arith in
    rw step (ap (◌∷◌ b) (from_start n s))

-- What one Read copies, and what it leaves of the slice.
copied-left :
    (n i : ℕ) (s : List ℕ) → take n (drop i s) ++ drop (i + min n (length s - i)) s ≡ drop i s
copied-left n zero s =
    let here : 0 + min n (length s - 0) ≡ min n (length s) = omega arith in rw here (from_start n s)
copied-left n (suc i) [] =
    ap (λ x. x ++ drop (suc i + min n (0 - suc i)) []) (take-short n)
    ∙ drop-short (suc i + min n (0 - suc i))
copied-left n (suc i) (b ∷ s) =
    let step : suc i + min n (suc (length s) - suc i) ≡ suc (i + min n (length s - i)) =
      omega arith in
    rw step (copied-left n i s)

-- The bytes of a Read come off the front of the stream.
abbrev pub IsFront : ℕ → List ℕ → Read → Type 0
IsFront n stream (got bs p) = (bs ++ unread p ≡ stream) × (length bs ≤ n) × (n ≢ 0 → bs ≢ [])
IsFront n stream (refused e) = (stream ≡ []) × (e ≡ closed)
IsFront n stream waits = stream ≡ []

copy_out-IsFront :
    (n : ℕ) (s : List ℕ) (i : ℕ) (p : Half) (rest : List (List ℕ))
    → i < length s
    → p.rc.items ≡ rest
    → IsFront n (drop i s ++ joined rest) (copy_out n s i p)
copy_out-IsFront n s i p rest inside same = (
  ap (λ (x : List (List ℕ)). take n (drop i s) ++ (drop (i + min n (length s - i)) s ++ joined x))
        same
      ∙ sym (append_assoc (take n (drop i s)) (drop (i + min n (length s - i)) s) (joined rest))
      ∙ ap (λ x. x ++ joined rest) (copied-left n i s),
  omega (arith, length-take n (drop i s)),
  λ some_room nothing.
      some_room (omega (arith, length-take n (drop i s), length-drop i s, ap length nothing)),
)

next_slice-IsFront :
    (n : ℕ) (p : Half) (slices : List (List ℕ)) → IsFront n (joined slices) (next_slice n p slices)
unfolding next_slice
next_slice-IsFront n p [] = elim (Bool-cases p.is_closed) [
  | inl e ↦ rw e (refl, refl)
  | inr e ↦ rw e refl
]
next_slice-IsFront n p ([] ∷ rest) = next_slice-IsFront n p rest
next_slice-IsFront n p ((b ∷ s) ∷ rest) =
    let some_bytes : leb (suc (length s)) 0 ≡ false = ground arith in
    rw some_bytes (
      copy_out-IsFront n (b ∷ s) 0 (record p { rc = record { size = p.rc.size; items = rest } })
        rest (omega arith) refl)

drop-all : (i : ℕ) (s : List ℕ) → length s ≤ i → drop i s ≡ []
drop-all zero [] h = refl
drop-all zero (b ∷ s) h = absurd (omega arith)
drop-all (suc i) [] h = refl
drop-all (suc i) (b ∷ s) h = drop-all i s (omega arith)

read_on-IsFront :
    (n : ℕ) (p : Half) (s : Option (List ℕ))
    → IsFront n (rest_of s p.i ++ joined p.rc.items) (read_on n p s)
read_on-IsFront n p none = next_slice-IsFront n p p.rc.items
read_on-IsFront n p (some s) = elim (Bool-cases (leb (length s) p.i)) [
  | inl e ↦
      subst (λ (x : List ℕ). IsFront n (x ++ joined p.rc.items) (read_on n p (some s)))
        (sym (drop-all p.i s (leb→le (length s) p.i e))) (rw e (next_slice-IsFront n p p.rc.items))
  | inr e ↦ rw e (copy_out-IsFront n s p.i p p.rc.items (ground (arith, e)) refl)
]

-- Every Read: it returns bytes from the front of the stream, at most as many as it was given room for,
-- and some if it was given any; it fails only if the stream is empty, with ErrClosed, and waits only
-- if it is empty.
pub read-IsFront : (n : ℕ) (p : Half) → IsFront n (unread p) (read n p)
unfolding read
read-IsFront n p = read_on-IsFront n p p.s

-- Calls on the two ends in the order in which they take effect, with the bytes that Write took and the
-- bytes that Read gave.
pub data Call : Type 0 where
  writes : Bool → List ℕ → Call
  reads : ℕ → Call
  closes : Call

pub record Run : Type 0 where
  pub pipe : Half
  pub sent : List ℕ
  pub seen : List ℕ

abbrev pub after_write : List ℕ → Run → Written → Run
after_write b r (written p) = record { pipe = p; sent = r.sent ++ b; seen = r.seen }
after_write b r (not_written e) = r
after_write b r blocks = r

abbrev pub after_read : Run → Read → Run
after_read r (got bs p) = record { pipe = p; sent = r.sent; seen = r.seen ++ bs }
after_read r (refused e) = r
after_read r waits = r

abbrev pub after_close : Run → Outcome Half → Run
after_close r (ok p) = record r { pipe = p }
after_close r (err e) = r
after_close r panic = r

unfoldable pub step : Call → Run → Run
unfolding read write close
step (writes pick b) r = after_write b r (write pick b r.pipe)
step (reads n) r = after_read r (read n r.pipe)
step closes r = after_close r (close r.pipe)

unfoldable pub steps : List Call → Run → Run
unfolding step
steps [] r = r
steps (c ∷ cs) r = steps cs (step c r)

abbrev pub start : ℕ → Run
start size = record { pipe = create_pipe size; sent = []; seen = [] }

abbrev pub IsInOrder : Run → Type 0
IsInOrder r = r.sent ≡ r.seen ++ unread r.pipe

joined-append : (xs ys : List (List ℕ)) → joined (xs ++ ys) ≡ joined xs ++ joined ys
joined-append [] ys = refl
joined-append (x ∷ xs) ys =
    ap (◌++◌ x) (joined-append xs ys) ∙ sym (append_assoc x (joined xs) (joined ys))

unread-enqueue : (b : List ℕ) (p : Half) → unread (record p { rc = enqueue b p.rc }) ≡ unread p ++ b
unread-enqueue b p =
    ap (◌++◌ (rest_of p.s p.i))
      (joined-append p.rc.items (b ∷ []) ∙ ap (◌++◌ (joined p.rc.items)) (append-nil b))
    ∙ sym (append_assoc (rest_of p.s p.i) (joined p.rc.items) b)

write-unread :
    (pick : Bool) (b : List ℕ) (p p' : Half)
    → write pick b p ≡ written p'
    → unread p' ≡ unread p ++ b
unfolding write
write-unread pick b p p' h =
    let same : record p { rc = enqueue b p.rc } ≡ p' = ground (arith, h) in
    ap unread (sym same) ∙ unread-enqueue b p

write-IsInOrder :
    (pick : Bool) (b : List ℕ) (r : Run) → IsInOrder r → IsInOrder (step (writes pick b) r)
unfolding step
write-IsInOrder pick b r h = go (write pick b r.pipe) refl
  where
    go : (o : Written) → write pick b r.pipe ≡ o → IsInOrder (after_write b r o)
    go (written p) e =
        ap (λ x. x ++ b) h
        ∙ append_assoc r.seen (unread r.pipe) b
        ∙ ap (◌++◌ r.seen) (sym (write-unread pick b r.pipe p e))
    go (not_written x) e = h
    go blocks e = h

read-IsInOrder : (n : ℕ) (r : Run) → IsInOrder r → IsInOrder (step (reads n) r)
unfolding step
read-IsInOrder n r h = go (read n r.pipe) (read-IsFront n r.pipe)
  where
    go : (o : Read) → IsFront n (unread r.pipe) o → IsInOrder (after_read r o)
    go (got bs p) f = h ∙ ap (◌++◌ r.seen) (sym (f.0)) ∙ sym (append_assoc r.seen bs (unread p))
    go (refused e) f = h
    go waits f = h

close-IsInOrder : (r : Run) → IsInOrder r → IsInOrder (step closes r)
unfolding step close
close-IsInOrder r h = elim (Bool-cases r.pipe.is_closed) [ inl e ↦ rw e h | inr e ↦ rw e h ]

step-IsInOrder : (c : Call) (r : Run) → IsInOrder r → IsInOrder (step c r)
step-IsInOrder (writes pick b) r h = write-IsInOrder pick b r h
step-IsInOrder (reads n) r h = read-IsInOrder n r h
step-IsInOrder closes r h = close-IsInOrder r h

steps-IsInOrder : (cs : List Call) (r : Run) → IsInOrder r → IsInOrder (steps cs r)
unfolding steps
steps-IsInOrder [] r h = h
steps-IsInOrder (c ∷ cs) r h = steps-IsInOrder cs (step c r) (step-IsInOrder c r h)

-- Whatever calls of Write, Read and Close on a new pipe follow each other, the bytes that Read gave and
-- then the bytes that are left to read are the bytes that Write took, in order.
pub bytes_in_order :
    (size : ℕ) (cs : List Call)
    → (steps cs (start size)).sent
      ≡ (steps cs (start size)).seen ++ unread (steps cs (start size)).pipe
unfolding create_pipe
bytes_in_order size cs = steps-IsInOrder cs (start size) refl
