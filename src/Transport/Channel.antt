-- ===== src/Transport/Channel.antt =====
-- transport/inproc/channel/channel.go: one direction of a pipe between two goroutines, a channel of
-- byte slices that Read hands out piece by piece.
pub mod Stream
pub mod Drain
pub mod Packets
use multisocket.Prelude.{
  ℕ, zero, suc, ◌+◌, ◌≤◌, ◌≡◌, Bool, true, false, not, Option, none, some, List, [], ◌∷◌, ◌++◌,
  length, take, drop, leb, ◌&&◌, ◌||◌, if◌then◌else◌, min, ◌-◌,
}
use multisocket.Prelude.Queue.{Chan, make, has_room, enqueue}
use multisocket.Errs.{Err, Outcome, ok, err, closed}

-- The channel that one end writes and the other reads, the slice that is being read, from `i` on, and
-- whether either end was closed.
pub record Half : Type 0 where
  pub rc : Chan (List ℕ)
  pub s : Option (List ℕ)
  pub i : ℕ
  pub is_closed : Bool

-- createPipe, in one direction.
unfoldable pub create_pipe : ℕ → Half
create_pipe buffer_size = record { rc = make buffer_size; s = none; i = 0; is_closed = false }

pub data Read : Type 0 where
  got : List ℕ → Half → Read
  refused : Err → Read
  waits : Read

-- `n = copy(b, p.s[p.i:])`, where b has n bytes.
abbrev pub copy_out : ℕ → List ℕ → ℕ → Half → Read
copy_out n s i p = got (take n (drop i s)) (record p { s = some s; i = i + min n (length s - i) })

-- The loop of Read, from where it waits for a slice: empty slices are skipped.
unfoldable pub next_slice : ℕ → Half → List (List ℕ) → Read
next_slice n p [] = if p.is_closed then refused closed else waits
next_slice n p (s ∷ rest) =
    let later = next_slice n p rest in
    if leb (length s) 0
    then later
    else copy_out n s 0 (record p { rc = record { size = p.rc.size; items = rest } })

abbrev pub read_on : ℕ → Half → Option (List ℕ) → Read
read_on n p none = next_slice n p p.rc.items
read_on n p (some s) = if leb (length s) p.i then next_slice n p p.rc.items else copy_out n s p.i p

-- Read, into a slice of n bytes.
unfoldable pub read : ℕ → Half → Read
unfolding next_slice
read n p = read_on n p p.s

pub data Written : Type 0 where
  written : Half → Written
  not_written : Err → Written
  blocks : Written

-- Write. On a closed pipe with room, `pick` decides.
unfoldable pub write : Bool → List ℕ → Half → Written
write pick b p =
    if p.is_closed && (pick || not (has_room p.rc))
    then not_written closed
    else if has_room p.rc
    then written (record p { rc = enqueue b p.rc })
    else blocks

-- Close, for both directions at once.
unfoldable pub close : Half → Outcome Half
close p = if p.is_closed then err closed else ok (record p { is_closed = true })
