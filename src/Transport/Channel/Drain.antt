-- ===== src/Transport/Channel/Drain.antt =====
-- transport/inproc/channel/channel.go: reading from a pipe that was closed.
use multisocket.Prelude.{
  ℕ, suc, ◌≤◌, ◌<◌, ◌≡◌, ◌≢◌, refl, ap, sym, ◌∙◌, true, false, Option, none, some, List, [], ◌∷◌,
  ◌++◌, length, length-append, leb, arith, All, inl, inr, Bool-cases,
}
use multisocket.Transport.Channel.{Half, Read, got, refused, waits, next_slice, read_on, read}
use multisocket.Transport.Channel.Stream.{unread, IsFront, read-IsFront}

-- Reads into slices of these sizes, until one fails: the bytes. `none` if the sizes are used up first,
-- or if a Read waits.
abbrev pub more : List ℕ → Option (List ℕ) → Option (List ℕ)
more bs none = none
more bs (some rest) = some (bs ++ rest)

abbrev pub read_further : (Half → Option (List ℕ)) → Read → Option (List ℕ)
read_further next (got bs p) = more bs (next p)
read_further next (refused e) = some []
read_further next waits = none

abbrev pub read_all : List ℕ → Half → Option (List ℕ)
read_all [] p = none
read_all (n ∷ ns) p = read_further (read_all ns) (read n p)

IsClosedAfter : Read → Type 0
IsClosedAfter (got bs p) = p.is_closed ≡ true
IsClosedAfter (refused e) = Unit {0}
IsClosedAfter waits = ⊥

next_slice-IsClosedAfter :
    (n : ℕ) (p : Half) (slices : List (List ℕ))
    → p.is_closed ≡ true
    → IsClosedAfter (next_slice n p slices)
unfolding next_slice IsClosedAfter
next_slice-IsClosedAfter n p [] h = rw h tt
next_slice-IsClosedAfter n p ([] ∷ rest) h = next_slice-IsClosedAfter n p rest h
next_slice-IsClosedAfter n p ((b ∷ s) ∷ rest) h =
    let some_bytes : leb (suc (length s)) 0 ≡ false = ground arith in rw some_bytes h

read-IsClosedAfter : (n : ℕ) (p : Half) → p.is_closed ≡ true → IsClosedAfter (read n p)
unfolding read IsClosedAfter
read-IsClosedAfter n p h = go p.s
  where
    go : (s : Option (List ℕ)) → IsClosedAfter (read_on n p s)
    go none = next_slice-IsClosedAfter n p p.rc.items h
    go (some s) = elim (Bool-cases (leb (length s) p.i)) [
      | inl e ↦ rw e (next_slice-IsClosedAfter n p p.rc.items h)
      | inr e ↦ rw e h
    ]

some_bytes : (bs : List ℕ) → bs ≢ [] → 1 ≤ length bs
some_bytes [] h = absurd (h refl)
some_bytes (b ∷ bs) h = omega arith

read_further-unread :
    (n bound : ℕ) (p : Half) (next : Half → Option (List ℕ)) (o : Read)
    → IsFront n (unread p) o
    → IsClosedAfter o
    → n ≢ 0
    → length (unread p) < suc bound
    → ((p' : Half) → length (unread p') < bound → p'.is_closed ≡ true → next p' ≡ some (unread p'))
    → read_further next o ≡ some (unread p)
unfolding IsClosedAfter
read_further-unread n bound p next (got bs p') f c room enough further =
    let fewer : length (unread p') < bound =
      omega
        (arith, enough, some_bytes bs (f.2 room), length-append bs (unread p'), ap length (f.0)) in
    ap (more bs) (further p' fewer c) ∙ ap some (f.0)
read_further-unread n bound p next (refused e) f c room enough further = ap some (sym (f.0))
read_further-unread n bound p next waits f c room enough further = absurd c

-- Reading from a closed pipe, with room for at least one byte each time, gives every byte that is left
-- and then the error, in at most one Read more than there are bytes.
pub read_all-closed :
    (ns : List ℕ) (p : Half)
    → All (λ n. n ≢ 0) ns
    → length (unread p) < length ns
    → p.is_closed ≡ true
    → read_all ns p ≡ some (unread p)
read_all-closed [] p rooms enough h = absurd (omega arith)
read_all-closed (n ∷ ns) p rooms enough h =
    read_further-unread n (length ns) p (read_all ns) (read n p) (read-IsFront n p)
      (read-IsClosedAfter n p h) (rooms.0) enough
      (λ p' fewer c. read_all-closed ns p' (rooms.1) fewer c)
