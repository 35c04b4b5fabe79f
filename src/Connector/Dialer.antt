-- ===== src/Connector/Dialer.antt =====
-- connector/dialer.go: a dialer, which connects again when its pipe closes.
pub mod Backoff
use multisocket.Prelude.{
  ℕ, zero, suc, ◌+◌, ◌*◌, ◌/◌, ◌^◌, ◌<◌, ◌≤◌, ◌≡◌, Bool, true, false, not, Option, none, some, ltb,
  ◌==◌, ◌||◌, ◌&&◌, if◌then◌else◌,
}
use multisocket.Errs.{Err, Outcome, ok, err, panic, closed, addr_in_use, stopped}

-- `d.redialer`: nil, a timer that was stopped or has fired, or one that will fire after a time.
pub data Redialer : Type 0 where
  nil idle : Redialer
  pending : ℕ → Redialer

-- Times are nanoseconds. The options are read when they are used; they are fields here.
pub record Dialer : Type 0 where
  pub addr : ℕ
  pub registered : Bool
  pub is_closed : Bool
  pub is_stopped : Bool
  pub active : Bool
  pub dialing : Bool
  pub connected : Bool
  pub redialer : Redialer
  pub reconn_time : ℕ
  pub min_reconnect_time : ℕ
  pub max_reconnect_time : ℕ
  pub dial_async : Bool
  pub reconnects : Bool

abbrev pub stop_timer : Redialer → Redialer
stop_timer nil = nil
stop_timer idle = idle
stop_timer (pending t) = idle

unfoldable pub reconn : Dialer → Dialer × Bool
reconn d =
    if d.is_closed
    then (d, true)
    else if not d.reconnects
    then (d, false)
    else (record d { redialer = pending d.reconn_time }, true)

unfoldable pub start : Dialer → Dialer
unfolding reconn
start d = if d.is_stopped then (reconn (record d { is_stopped = false })).0 else d

unfoldable pub stop : Dialer → Dialer
stop d =
    if d.is_stopped then d else record d { is_stopped = true; redialer = stop_timer d.redialer }

unfoldable pub close : Dialer → Dialer
close d = record d { is_closed = true }

unfoldable pub pipe_closed : Dialer → Dialer × Bool
unfolding reconn
pipe_closed d = reconn (record d { connected = false })

-- Dial, up to its call of dial: an error, or whether it goes on in the background.
unfoldable pub dial : Dialer → Dialer × Outcome Bool
dial d =
    if d.is_closed
    then (d, err closed)
    else if d.active
    then (d, err addr_in_use)
    else (record d { active = true; reconn_time = d.min_reconnect_time }, ok d.dial_async)

-- The part of dial before the transport is asked. A dialer that is refused keeps its timer.
unfoldable pub dial_begin : Dialer → Dialer × Outcome (Unit {0})
dial_begin d =
    if d.is_closed
    then (d, err closed)
    else if d.is_stopped
    then (d, err stopped)
    else if d.dialing || d.connected
    then (d, err addr_in_use)
    else (record d { redialer = nil; dialing = true }, ok tt)

-- The transport has a connection, and its pipe was added.
unfoldable pub dial_success : Dialer → Dialer
dial_success d = record d { dialing = false; connected = true; reconn_time = d.min_reconnect_time }

-- `actfact * reconnTime`, cut to an integer: rand.Float64 is draw / 2 ^ 53, minfact is 11/10 and
-- maxfact - minfact is 4/10. The rounding of float64 is left out.
abbrev pub scaled : ℕ → ℕ → ℕ
scaled draw t = (4 * (draw * t) + 11 * 2 ^ 53 * t) / (10 * 2 ^ 53)

-- The time that is waited next.
abbrev pub next_time : ℕ → Dialer → ℕ
next_time draw d =
    if not (d.max_reconnect_time == 0) && ltb d.max_reconnect_time (scaled draw d.reconn_time)
    then d.max_reconnect_time
    else scaled draw d.reconn_time

-- The transport failed.
unfoldable pub dial_failure : ℕ → Bool → Dialer → Dialer
dial_failure draw redial d = if not redial then record d { dialing = false } else record d {
  dialing = false;
  reconn_time = next_time draw d;
  redialer = pending d.reconn_time;
}
