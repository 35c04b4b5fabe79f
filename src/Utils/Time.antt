-- ===== src/Utils/Time.antt =====
-- utils/time.go: a timer that may be stopped and set again at any time. Its time.Timer is what package
-- time makes of it: a timer that runs or not, and a channel with room for one tick.
pub mod Calls
pub mod Fresh
use multisocket.Prelude.{
  ℕ, suc, Bool, true, false, Option, none, some, List, [], ◌∷◌, ◌++◌, if◌then◌else◌,
}

-- `period` counts how often the timer was set; a tick is the period that it ends. A timer that ends
-- does not run any more, and then puts its tick into the channel: `firing` are the ticks in between.
pub record TimeTimer : Type 0 where
  pub period : ℕ
  pub running : Bool
  pub tick : Option ℕ
  pub firing : List ℕ

-- time.NewTimer, Stop, and Reset of a timer that does not run. Stop leaves a tick in the channel, and
-- answers whether the timer was running.
abbrev pub new_time_timer : TimeTimer
new_time_timer = record { period = 1; running = true; tick = none; firing = [] }

abbrev pub halt : TimeTimer → TimeTimer × Bool
halt t = (record t { running = false }, t.running)

abbrev pub set_again : TimeTimer → TimeTimer
set_again t = record t { period = suc t.period; running = true }

-- The period is over; later the tick is put into the channel, or dropped if there is one in it.
unfoldable pub expire : TimeTimer → TimeTimer
expire t =
    if t.running then record t { running = false; firing = t.firing ++ (t.period ∷ []) } else t

abbrev pub put_tick : ℕ → Option ℕ → Option ℕ
put_tick n none = some n
put_tick n (some m) = some m

abbrev pub fire : TimeTimer → List ℕ → TimeTimer
fire t [] = t
fire t (n ∷ ns) = record t { tick = put_tick n t.tick; firing = ns }

unfoldable pub deliver : TimeTimer → TimeTimer
deliver t = fire t t.firing

-- `has_c`: C is the channel of the time.Timer, and not nil.
pub record Timer : Type 0 where
  pub has_c : Bool
  pub tm : Option TimeTimer

unfoldable pub new_timer : Timer
new_timer = record { has_c = false; tm = none }

-- The method stop: a timer that had ended has its tick taken out, if it is there.
abbrev pub taken_out : TimeTimer × Bool → TimeTimer
taken_out (t, true) = t
taken_out (t, false) = record t { tick = none }

unfoldable pub stop_timer : TimeTimer → TimeTimer
stop_timer t = taken_out (halt t)

abbrev pub stop_at : Timer → Option TimeTimer → Timer
stop_at t none = t
stop_at t (some tm) = record { has_c = false; tm = some (stop_timer tm) }

-- Stop.
unfoldable pub stop : Timer → Timer
unfolding stop_timer
stop t = stop_at t t.tm

abbrev pub set_at : Option TimeTimer → TimeTimer
set_at none = new_time_timer
set_at (some tm) = set_again (stop_timer tm)

-- Reset.
unfoldable pub reset : Timer → Timer
unfolding stop_timer
reset t = record { has_c = true; tm = some (set_at t.tm) }

unfoldable pub new_timer_with_duration : Timer
unfolding reset new_timer
new_timer_with_duration = reset new_timer

-- A receive from C: the tick, if there is one.
abbrev pub tick_of : Bool → Option TimeTimer → Option ℕ
tick_of false tm = none
tick_of true none = none
tick_of true (some tm) = tm.tick
