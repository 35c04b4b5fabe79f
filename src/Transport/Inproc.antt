-- ===== src/Transport/Inproc.antt =====
-- transport/inproc/inproc.go: listeners by address, and how a dialer meets a listener.
pub mod Served
pub mod Calls
pub mod Rendezvous
use multisocket.Prelude.{
  ℕ, zero, suc, ◌+◌, ◌≡◌, Bool, true, false, not, Option, none, some, List, [], ◌∷◌, ◌++◌, length,
  ltb, ◌==◌, ◌&&◌, ◌||◌, if◌then◌else◌,
}
use multisocket.Prelude.Assoc.{lookup, insert, delete}
use multisocket.Prelude.Queue.{Chan, make, has_room, enqueue}
use multisocket.Errs.{Err, Outcome, ok, err, closed, addr_in_use, conn_refused, not_listening}

-- A listener is a pointer, which a number stands for. `accepts` is nil until Listen makes the channel;
-- what it holds are the dialers that wait, by number.
pub record Listener : Type 0 where
  pub addr : ℕ
  pub accepted_count : ℕ
  pub accepts : Option (Chan ℕ)
  pub is_closed : Bool

-- A Dial that has given its channel to a listener waits until the listener answers or closes; then it
-- is connected, or has left.
pub data Dialing : Type 0 where
  waits_for : ℕ → Dialing
  connected : ℕ → Dialing
  left : Dialing

-- `by_addr` is the transport's map, `listeners` and `dialings` hold everyone, by pointer.
pub record Tran : Type 0 where
  pub by_addr : List (ℕ × ℕ)
  pub listeners : List (ℕ × Listener)
  pub dialings : List (ℕ × Dialing)

abbrev pub default_accept_queue_size : ℕ
default_accept_queue_size = 8

unfoldable pub new_transport : Tran
new_transport = record { by_addr = []; listeners = []; dialings = [] }

-- NewListener, after StripScheme: `l` is a new pointer.
unfoldable pub new_listener : ℕ → ℕ → Tran → Tran
new_listener l addr t = record t {
  listeners =
      insert l (record { addr = addr; accepted_count = 0; accepts = none; is_closed = false })
        t.listeners;
}

abbrev pub same_pointer : ℕ → Option ℕ → Bool
same_pointer l none = false
same_pointer l (some x) = x == l

unfoldable pub is_listening : ℕ → ℕ → Tran → Bool
is_listening l addr t = same_pointer l (lookup addr t.by_addr)

-- addListener: `err` is false with an error, `ok` the Boolean with nil.
abbrev pub add_at : ℕ → ℕ → Option ℕ → Tran → Tran × Outcome Bool
add_at l addr none t = (record t { by_addr = insert addr l t.by_addr }, ok true)
add_at l addr (some xl) t = (t, if xl == l then ok false else err addr_in_use)

unfoldable pub add_listener : ℕ → ℕ → Tran → Tran × Outcome Bool
add_listener l addr t = add_at l addr (lookup addr t.by_addr) t

unfoldable pub remove_listener : ℕ → ℕ → Tran → Tran
unfolding is_listening
remove_listener l addr t =
    if is_listening l addr t then record t { by_addr = delete addr t.by_addr } else t

abbrev pub after_add : ℕ → Listener → Tran × Outcome Bool → Tran × Option Err
after_add l x (t, ok true) = (
  record t {
    listeners = insert l (record x { accepts = some (make default_accept_queue_size) }) t.listeners;
  },
  none,
)
after_add l x (t, ok false) = (t, none)
after_add l x (t, err e) = (t, some e)
after_add l x (t, Outcome.panic) = (t, none)

-- Listen, as one step.
unfoldable pub listen : ℕ → Listener → Tran → Tran × Option Err
unfolding add_listener
listen l x t = if x.is_closed then (t, some closed) else after_add l x (add_listener l x.addr t)

-- Close. The dialers that wait are refused by their own select on closedq.
unfoldable pub close : ℕ → Listener → Tran → Tran × Option Err
unfolding remove_listener
close l x t = if x.is_closed then (t, some closed) else (
  remove_listener l x.addr
      (record t { listeners = insert l (record x { is_closed = true }) t.listeners }),
  none,
)

-- Dial, up to its second select: refused, waiting with its channel in the listener's queue, or waiting to put it there.
pub data Dialed : Type 0 where
  dialing : Tran → Dialed
  dial_failed : Err → Dialed
  dial_waits : Dialed

abbrev pub hand_over : ℕ → ℕ → Listener → Option (Chan ℕ) → Tran → Dialed
hand_over d l x none t = dial_waits
hand_over d l x (some q) t =
    if has_room q
    then dialing (record t {
      listeners = insert l (record x { accepts = some (enqueue d q) }) t.listeners;
      dialings = insert d (waits_for l) t.dialings;
    })
    else dial_waits

abbrev pub is_full : Option (Chan ℕ) → Bool
is_full none = true
is_full (some q) = not (has_room q)

-- The first select of a Dial that has found the listener; `pick`: it takes closedq if both are ready.
abbrev pub dial_at : Bool → ℕ → ℕ → Option Listener → Tran → Dialed
dial_at pick d l none t = dial_failed conn_refused
dial_at pick d l (some x) t =
    if x.is_closed && (pick || is_full x.accepts)
    then dial_failed conn_refused
    else hand_over d l x x.accepts t

unfoldable pub dial_select : Bool → ℕ → ℕ → Tran → Dialed
dial_select pick d l t = dial_at pick d l (lookup l t.listeners) t

abbrev pub dial_to : Bool → ℕ → Option ℕ → Tran → Dialed
dial_to pick d none t = dial_failed conn_refused
dial_to pick d (some l) t = dial_at pick d l (lookup l t.listeners) t

-- The look-up and the first select, with nothing in between.
unfoldable pub dial : Bool → ℕ → ℕ → Tran → Dialed
dial pick d addr t = dial_to pick d (lookup addr t.by_addr) t

-- The second select of Dial, between closedq and the answer of the listener.
pub data DialEnd : Type 0 where
  got : ℕ → DialEnd
  refused : DialEnd
  still_waits : DialEnd
  no_dial : DialEnd

abbrev pub is_shut : Option Listener → Bool
is_shut none = false
is_shut (some x) = x.is_closed

abbrev pub end_of : ℕ → Tran → Option Dialing → DialEnd × Tran
end_of d t none = (no_dial, t)
end_of d t (some left) = (no_dial, t)
end_of d t (some (connected l)) = (got l, t)
end_of d t (some (waits_for l)) =
    if is_shut (lookup l t.listeners)
    then (refused, record t { dialings = insert d left t.dialings })
    else (still_waits, t)

unfoldable pub dial_wait : ℕ → Tran → DialEnd × Tran
dial_wait d t = end_of d t (lookup d t.dialings)

-- Accept: the oldest dialer that waits gets the other end of a new pipe, whose address carries the
-- number of the connection. It is told at once, since it waits for nothing else but closedq; if it has
-- left, the listener is closed, and that ends the wait for it.
pub data Accepted : Type 0 where
  accepted : ℕ → ℕ → Tran → Accepted
  accept_failed : Err → Accepted
  accept_waits : Accepted

abbrev pub has_left : Option Dialing → Bool
has_left (some left) = true
has_left (some (waits_for l)) = false
has_left (some (connected l)) = false
has_left none = false

abbrev pub take_waiting : ℕ → Listener → ℕ → List ℕ → Tran → Accepted
take_waiting l x size [] t = accept_waits
take_waiting l x size (d ∷ ds) t =
    if has_left (lookup d t.dialings)
    then accept_failed closed
    else accepted d (x.accepted_count + 1) (record t {
      listeners =
          insert l
            (record x {
              accepts = some (record { size = size; items = ds });
              accepted_count = x.accepted_count + 1;
            })
            t.listeners;
      dialings = insert d (connected l) t.dialings;
    })

abbrev pub take_from : ℕ → Listener → Option (Chan ℕ) → Tran → Accepted
take_from l x none t = accept_waits
take_from l x (some q) t = take_waiting l x q.size q.items t

abbrev pub nobody : Option (Chan ℕ) → Bool
nobody none = true
nobody (some q) = length q.items == 0

-- The select in which Accept may wait; `pick` takes closedq though a dialer waits. An Accept that waits
-- runs it again when Close or a Dial wakes it.
unfoldable pub accept_wait : Bool → ℕ → Listener → Tran → Accepted
accept_wait pick l x t =
    if x.is_closed && (pick || nobody x.accepts)
    then accept_failed closed
    else take_from l x x.accepts t

-- Accept, up to the end of that select.
unfoldable pub accept : Bool → ℕ → Listener → Tran → Accepted
unfolding is_listening accept_wait
accept pick l x t =
    if not (is_listening l x.addr t) then accept_failed not_listening else accept_wait pick l x t
