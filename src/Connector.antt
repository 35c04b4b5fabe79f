-- ===== src/Connector.antt =====
-- connector/connector.go: the pipes of a socket, its limit, its dialers and listeners.
pub mod Dialer
pub mod Listener
pub mod Pipe
pub mod Gate
pub mod Limit
pub mod Pipes
pub mod Close
use mathlib.Core.List.{filter}
use multisocket.Prelude.{
  ℕ, zero, suc, ◌+◌, ◌≡◌, Bool, true, false, not, Option, none, some, List, [], ◌∷◌, ◌++◌, map,
  length, ltb, leb, ◌==◌, ◌&&◌, ◌||◌, if◌then◌else◌,
}
use multisocket.Prelude.Assoc.{lookup, insert, delete}
use multisocket.Prelude.Int.{ℤ, pos, negsuc}
use multisocket.Errs.{Err, Outcome, ok, err, panic, closed, bad_transport}

-- What the pipe event handler is called with, by pipe id, and the closes that are started.
pub data Event : Type 0 where
  pipe_event_add : ℕ → Event
  pipe_event_remove : ℕ → Event
  drop_pipe : ℕ → Event
  close_pipe : ℕ → Event

-- A pipe knows its id and the dialer that it comes from.
pub record PipeRef : Type 0 where
  pub id : ℕ
  pub dialer : Option ℕ

-- `dialers` and `listeners` hold every one that was made, by address; `registered` says whether it is
-- in the connector's map. `events` is newest first. After Close the maps are nil.
pub record Connector : Type 0 where
  pub limit : ℤ
  pub dialers : List (ℕ × Dialer.Dialer)
  pub listeners : List (ℕ × Listener.Listener)
  pub pipes : List (ℕ × PipeRef)
  pub has_handler : Bool
  pub is_closed : Bool
  pub events : List Event

abbrev pub no_limit : ℤ
no_limit = negsuc 0

abbrev pub is_no_limit : ℤ → Bool
is_no_limit (pos n) = false
is_no_limit (negsuc zero) = true
is_no_limit (negsuc (suc n)) = false

-- `n < limit`, for a limit that may be negative.
abbrev pub below : ℕ → ℤ → Bool
below n (pos limit) = ltb n limit
below n (negsuc limit) = false

unfoldable pub new_with_limit : ℤ → Connector
new_with_limit limit = record {
  limit = limit;
  dialers = [];
  listeners = [];
  pipes = [];
  has_handler = false;
  is_closed = false;
  events = [];
}

abbrev pub each_dialer :
    (Dialer.Dialer → Dialer.Dialer) → List (ℕ × Dialer.Dialer) → List (ℕ × Dialer.Dialer)
each_dialer f [] = []
each_dialer f ((k, d) ∷ ds) = (k, if d.registered then f d else d) ∷ each_dialer f ds

abbrev pub each_listener :
    (Listener.Listener → Listener.Listener)
    → List (ℕ × Listener.Listener)
    → List (ℕ × Listener.Listener)
each_listener f [] = []
each_listener f ((k, l) ∷ ls) = (k, if l.registered then f l else l) ∷ each_listener f ls

unfoldable pub start_connecting : Connector → Connector
start_connecting c = record c {
  listeners = each_listener Listener.start c.listeners;
  dialers = each_dialer Dialer.start c.dialers;
}

unfoldable pub stop_connecting : Connector → Connector
stop_connecting c = record c {
  listeners = each_listener Listener.stop c.listeners;
  dialers = each_dialer Dialer.stop c.dialers;
}

unfoldable pub check_limit : Bool → Connector → Connector
check_limit check_no_limit c =
    if c.is_closed
    then c
    else if is_no_limit c.limit
    then (if check_no_limit then start_connecting c else c)
    else if below (length c.pipes) c.limit
    then start_connecting c
    else stop_connecting c

-- onOptionChange for PipeLimit.
unfoldable pub set_limit : ℤ → Connector → Connector
set_limit limit c = check_limit true (record c { limit = limit })

abbrev pub emit : Event → Connector → Connector
emit e c = record c { events = e ∷ c.events }

abbrev pub notify : Event → Connector → Connector
notify e c = if c.has_handler then emit e c else c

abbrev pub has_place : Connector → Bool
has_place c = is_no_limit c.limit || below (length c.pipes) c.limit

abbrev pub added : PipeRef → Connector → Connector
added p c = notify (pipe_event_add p.id) (record c { pipes = insert p.id p c.pipes })

-- `negotiated` is the answer of the negotiator, or `none` without one. A pipe that it refuses is left
-- as it is. A write to the nil map of a closed connector panics.
unfoldable pub add_pipe : Option Err → PipeRef → Connector → Outcome Connector
add_pipe (some e) p c = ok c
add_pipe none p c =
    if has_place c
    then (if c.is_closed then panic else ok (check_limit false (added p c)))
    else ok (emit (drop_pipe p.id) c)

-- The last part of a dialer's pipeClosed: without a reconnection the dialer is removed and closed.
abbrev pub after_closed : Dialer.Dialer × Bool → Dialer.Dialer
after_closed (d, true) = d
after_closed (d, false) = Dialer.close (record d { registered = false })

abbrev pub pipe_closed : Option ℕ → Connector → Connector
pipe_closed none c = c
pipe_closed (some k) c = elim (lookup k c.dialers) [
  | none ↦ c
  | some d ↦ record c { dialers = insert k (after_closed (Dialer.pipe_closed d)) c.dialers }
]

abbrev pub removed : PipeRef → Connector → Connector
removed p c =
    pipe_closed p.dialer
      (notify (pipe_event_remove p.id) (record c { pipes = delete p.id c.pipes }))

-- The handler is told of every pipe that is removed, also of one that was never added.
unfoldable pub rem_pipe : PipeRef → Connector → Connector
rem_pipe p c = check_limit false (removed p c)

-- NewDialer and NewListener, where the transport makes one: `t` is its answer. `k` is a new address.
unfoldable pub new_dialer : ℕ → Option Err → Dialer.Dialer → Connector → Outcome Connector
new_dialer k t d c = if c.is_closed then err closed else elim t [
  | some e ↦ err e
  | none ↦
      let d' = record d { registered = true } in
      ok (record c {
        dialers =
            (
              k,
              if is_no_limit c.limit || below (length c.pipes) c.limit then d' else Dialer.stop d',
            )
            ∷ c.dialers;
      })
]

unfoldable pub new_listener : ℕ → Option Err → Listener.Listener → Connector → Outcome Connector
new_listener k t l c = if c.is_closed then err closed else elim t [
  | some e ↦ err e
  | none ↦
      let l' = record l { registered = true } in
      ok (record c {
        listeners =
            (
              k,
              if is_no_limit c.limit || below (length c.pipes) c.limit
                  then l'
                  else Listener.stop l',
            )
            ∷ c.listeners;
      })
]

-- StopDial and StopListen keep the pipes.
unfoldable pub stop_dial : ℕ → Connector → Connector
stop_dial addr c = record c {
  dialers =
      each_dialer
        (λ d. if d.addr == addr then Dialer.close (record d { registered = false }) else d)
        c.dialers;
}

unfoldable pub stop_listen : ℕ → Connector → Connector
stop_listen addr c = record c {
  listeners =
      each_listener
        (λ l. if l.addr == addr then Listener.close (record l { registered = false }) else l)
        c.listeners;
}

unfoldable pub get_pipe : ℕ → Connector → Option PipeRef
get_pipe id c = lookup id c.pipes

abbrev pub close_events : List (ℕ × PipeRef) → List Event
close_events [] = []
close_events ((id, p) ∷ ps) = close_pipe p.id ∷ close_events ps

-- Close takes the maps away first, then closes what was in them; each pipe's Close calls rem_pipe.
unfoldable pub close : Connector → Connector
close c = if c.is_closed then c else record c {
  is_closed = true;
  listeners = each_listener (λ l. Listener.close (record l { registered = false })) c.listeners;
  dialers = each_dialer (λ d. Dialer.close (record d { registered = false })) c.dialers;
  pipes = [];
  events = close_events c.pipes ++ c.events;
}

unfoldable pub set_pipe_event_handler : Connector → Connector
set_pipe_event_handler c = record c { has_handler = true }

unfoldable pub clear_pipe_event_handler : Connector → Connector
clear_pipe_event_handler c = record c { has_handler = false }
