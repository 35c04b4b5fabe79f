-- ===== src/Tests/Connectors.antt =====
-- connector/*.go at concrete inputs.
use multisocket.Prelude.{◌^◌, ℕ, ◌≤◌, ◌≡◌, refl, true, false, none, [], ◌∷◌, arith, inr}
use multisocket.Prelude.Int.{pos}
use multisocket.Prelude.Assoc.{insert}
use multisocket.Errs.{ok, err, panic, addr_in_use}
use multisocket.Message.{FreeLevel}
use multisocket.Connector.Dialer
use multisocket.Connector.Dialer.{Dialer, Redialer}
use multisocket.Connector.Dialer.Backoff.{
  failures, IsBackoff, failures_bounds, dial_success-pipe_closed,
}
use multisocket.Connector.Listener
use multisocket.Connector.Listener.{Listener}
use multisocket.Connector.{
  Connector, PipeRef, add_pipe, close, check_limit, start_connecting, stop_connecting,
  pipe_event_add,
}
use multisocket.Connector.Gate.{IsGated}
use multisocket.Connector.Limit.{Call, step, step-IsGated}
use multisocket.Connector.Close.{add_pipe-close}
use multisocket.Connector.Pipe.{Pipe, Mode}

abbrev dialer : Dialer
dialer = record {
  addr = 80;
  registered = true;
  is_closed = false;
  is_stopped = false;
  active = true;
  dialing = true;
  connected = false;
  redialer = Redialer.nil;
  reconn_time = 10;
  min_reconnect_time = 10;
  max_reconnect_time = 25;
  reconnects = true;
  dial_async = false;
}

failures_bounds_example :
    (10 ≤ (failures (0 ∷ 2 ^ 52 ∷ []) dialer).reconn_time)
    × IsBackoff 25
        (failures (0 ∷ 2 ^ 52 ∷ []) dialer).reconn_time
        (Dialer.dial_failure 3 true (failures (0 ∷ 2 ^ 52 ∷ []) dialer)).reconn_time
    × ((Dialer.dial_failure 3 true (failures (0 ∷ 2 ^ 52 ∷ []) dialer)).redialer
        ≡ Redialer.pending (failures (0 ∷ 2 ^ 52 ∷ []) dialer).reconn_time)
failures_bounds_example =
    failures_bounds (0 ∷ 2 ^ 52 ∷ []) 3 dialer (omega arith, (omega arith, tt)) (omega arith)
      (λ e. omega (arith, e)) (omega arith)

dial_success-pipe_closed_example :
    ((Dialer.dial_success ((Dialer.pipe_closed dialer).0)).redialer ≡ Redialer.pending 10)
    × (Dialer.dial_begin (Dialer.dial_success ((Dialer.pipe_closed dialer).0))
        ≡ (Dialer.dial_success ((Dialer.pipe_closed dialer).0), err addr_in_use))
dial_success-pipe_closed_example = dial_success-pipe_closed dialer refl refl refl

-- A connector with a limit of one pipe, a dialer and a listener.
abbrev pub listener : Listener
listener = record { addr = 81; registered = true; is_closed = false; is_stopped = false }

abbrev pub busy : Connector
busy = record {
  limit = pos 1;
  dialers = (1, dialer) ∷ [];
  listeners = (2, listener) ∷ [];
  pipes = [];
  has_handler = true;
  is_closed = false;
  events = [];
}

abbrev first_pipe : PipeRef
first_pipe = record { id = 3; dialer = none }

abbrev full : Connector
full = record busy {
  dialers = (1, record dialer { is_stopped = true; redialer = Redialer.nil }) ∷ [];
  listeners = (2, record listener { is_stopped = true }) ∷ [];
  pipes = (3, first_pipe) ∷ [];
  events = pipe_event_add 3 ∷ [];
}

busy-add_pipe : add_pipe none first_pipe busy ≡ ok full
unfolding add_pipe check_limit stop_connecting start_connecting insert Dialer.stop Listener.stop
busy-add_pipe = refl

busy-IsGated : IsGated busy
busy-IsGated = record { dialers_gated = ((λ e. refl), tt); listeners_gated = ((λ e. refl), tt) }

step-IsGated_example : IsGated full
unfolding step
step-IsGated_example =
    step-IsGated busy full (Call.adds_pipe none first_pipe) tt refl busy-IsGated busy-add_pipe

add_pipe-close_example : add_pipe none first_pipe (close busy) ≡ panic
add_pipe-close_example = add_pipe-close first_pipe busy (inr (0, refl)) refl

abbrev pub packets : ℕ → Pipe
packets id = record {
  id = id;
  raw = false;
  mode = Mode.block;
  msg_free_level = FreeLevel.free_all;
  close_on_eof = true;
  max_recv_content_length = 100;
  is_closed = false;
}
