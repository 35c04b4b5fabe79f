-- ===== src/Utils/Time/Calls.antt =====
-- utils/time.go: calls on a timer, in the order in which they take effect.
use multisocket.Prelude.{ℕ, suc, Bool, true, false, Option, none, some, List, [], ◌∷◌, ◌++◌}
use multisocket.Utils.Time.{TimeTimer, expire, deliver, Timer, new_timer, stop, reset, tick_of}

-- Calls of Reset and Stop, periods that end, ticks that come into the channel, and receives from C that
-- do not wait.
pub data Call : Type 0 where
  resets stops expires delivers receives : Call

-- How often Reset was called, whether Stop was called since, the ticks that were on their way to the
-- channel when Reset or Stop was called, and each tick that was received, with the number of Resets
-- before it and whether Stop came in between.
pub record Run : Type 0 where
  pub timer : Timer
  pub set : ℕ
  pub stopped : Bool
  pub late : List ℕ
  pub seen : List (ℕ × ℕ × Bool)

abbrev pub on_timer : (TimeTimer → TimeTimer) → Option TimeTimer → Option TimeTimer
on_timer f none = none
on_timer f (some t) = some (f t)

abbrev pub emptied : Option TimeTimer → Option TimeTimer
emptied none = none
emptied (some t) = some (record t { tick = none })

abbrev pub under_way : Option TimeTimer → List ℕ
under_way none = []
under_way (some t) = t.firing

abbrev pub after_receive : Run → Option ℕ → Run
after_receive r none = r
after_receive r (some n) = record r {
  timer = record (r.timer) { tm = emptied r.timer.tm };
  seen = r.seen ++ ((n, r.set, r.stopped) ∷ []);
}

unfoldable pub step : Call → Run → Run
unfolding reset stop expire deliver
step resets r = record r {
  timer = reset r.timer;
  set = suc r.set;
  stopped = false;
  late = under_way r.timer.tm ++ r.late;
}
step stops r = record r {
  timer = stop r.timer;
  stopped = true;
  late = under_way r.timer.tm ++ r.late;
}
step expires r = record r { timer = record (r.timer) { tm = on_timer expire r.timer.tm } }
step delivers r = record r { timer = record (r.timer) { tm = on_timer deliver r.timer.tm } }
step receives r = after_receive r (tick_of r.timer.has_c r.timer.tm)

unfoldable pub steps : List Call → Run → Run
unfolding step
steps [] r = r
steps (c ∷ cs) r = steps cs (step c r)

abbrev pub start : Run
start = record { timer = new_timer; set = 0; stopped = true; late = []; seen = [] }
