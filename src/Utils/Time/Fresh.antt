-- ===== src/Utils/Time/Fresh.antt =====
-- utils/time.go: which ticks can be received from a timer.
use mathlib.Core.Path.{subst}
use multisocket.Prelude.{
  ℕ, suc, ◌≡◌, refl, ap, sym, ◌∙◌, Bool, true, false, Option, none, some, List, [], ◌∷◌, ◌++◌,
  arith, if◌then◌else◌, All, All-append, ◌⊎◌, inl, inr,
}
use multisocket.Utils.Id.{contains}
use multisocket.Utils.Time.{
  TimeTimer, expire, put_tick, fire, deliver, Timer, new_timer, taken_out, stop_timer, stop_at,
  stop, set_at, reset, tick_of,
}
use multisocket.Utils.Time.Calls.{
  Call, resets, stops, expires, delivers, receives, Run, on_timer, emptied, under_way,
  after_receive, step, steps, start,
}

-- The tick of the period that the last Reset began, with no Stop since; or one of the ticks `late`.
abbrev pub IsTimely : List ℕ → ℕ × ℕ × Bool → Type 0
IsTimely late (n, set, stopped) = ((n ≡ set) × (stopped ≡ false)) ⊎ (contains late n ≡ true)

-- A tick of the present period, which is over, or one that was late.
abbrev IsOnTime : List ℕ → ℕ → Bool → ℕ → Type 0
IsOnTime late period running n = ((n ≡ period) × (running ≡ false)) ⊎ (contains late n ≡ true)

abbrev HasTick : List ℕ → ℕ → Bool → Option ℕ → Type 0
HasTick late period running none = Unit {0}
HasTick late period running (some n) = IsOnTime late period running n

abbrev IsCurrent : List ℕ → ℕ → Bool → Option TimeTimer → Type 0
IsCurrent late set has_c none = (set ≡ 0) × (has_c ≡ false)
IsCurrent late set has_c (some t) =
    (t.period ≡ set)
    × HasTick late t.period t.running t.tick
    × All (IsOnTime late t.period t.running) t.firing

record IsFresh (r : Run) : Type 0 where
  current : IsCurrent r.late r.set r.timer.has_c r.timer.tm
  alive : r.timer.has_c ≡ true → r.stopped ≡ false
  timely : All (IsTimely r.late) r.seen

contains-behind : (xs ys : List ℕ) (n : ℕ) → contains ys n ≡ true → contains (xs ++ ys) n ≡ true
unfolding contains
contains-behind [] ys n h = h
contains-behind (x ∷ xs) ys n h = let rest = contains-behind xs ys n h in ground (arith, rest)

contains-cons : (x n : ℕ) (xs : List ℕ) → contains xs n ≡ true → contains (x ∷ xs) n ≡ true
unfolding contains
contains-cons x n xs h = ground (arith, h)

contains-head : (x : ℕ) (xs : List ℕ) → contains (x ∷ xs) x ≡ true
unfolding contains
contains-head x xs = ground arith

All-map : (P Q : ℕ → Type 0) (xs : List ℕ) → ((n : ℕ) → P n → Q n) → All P xs → All Q xs
All-map P Q [] f h = tt
All-map P Q (x ∷ xs) f h = (f x (h.0), All-map P Q xs f (h.1))

All-late : (xs ys : List ℕ) → All (λ n. contains (xs ++ ys) n ≡ true) xs
All-late [] ys = tt
All-late (x ∷ xs) ys = (
  contains-head x (xs ++ ys),
  All-map (λ n. contains (xs ++ ys) n ≡ true) (λ n. contains (x ∷ (xs ++ ys)) n ≡ true) xs
      (λ n h. contains-cons x n (xs ++ ys) h) (All-late xs ys),
)

seen_later :
    (xs ys : List ℕ) (seen : List (ℕ × ℕ × Bool))
    → All (IsTimely ys) seen
    → All (IsTimely (xs ++ ys)) seen
seen_later xs ys [] h = tt
seen_later xs ys ((n, set, stopped) ∷ seen) h = (go (h.0), seen_later xs ys seen (h.1))
  where
    go : IsTimely ys (n, set, stopped) → IsTimely (xs ++ ys) (n, set, stopped)
    go (inl e) = inl e
    go (inr e) = inr (contains-behind xs ys n e)

-- What Stop and Reset leave of a tick in the channel: of a timer that runs, a late one at most.
stop_timer-current :
    (late : List ℕ) (period : ℕ) (running : Bool) (t : TimeTimer)
    → HasTick late t.period t.running t.tick
    → HasTick (t.firing ++ late) period running (stop_timer t).tick
      × All (IsOnTime (t.firing ++ late) period running) (stop_timer t).firing
unfolding stop_timer
stop_timer-current late period running t h = go t.running refl
  where
    kept :
        (tick : Option ℕ)
        → t.running ≡ true
        → HasTick late t.period t.running tick
        → HasTick (t.firing ++ late) period running tick
    kept none e k = tt
    kept (some n) e (inl k) = absurd (cc (e, k.1))
    kept (some n) e (inr k) = inr (contains-behind t.firing late n k)

    fired : All (IsOnTime (t.firing ++ late) period running) t.firing
    fired =
        All-map (λ n. contains (t.firing ++ late) n ≡ true)
          (IsOnTime (t.firing ++ late) period running) t.firing (λ n k. inr k)
          (All-late t.firing late)

    go :
        (b : Bool)
        → t.running ≡ b
        → HasTick
            (t.firing ++ late)
            period
            running
            (taken_out (record t { running = false }, b)).tick
          × All
              (IsOnTime (t.firing ++ late) period running)
              (taken_out (record t { running = false }, b)).firing
    go true e = (kept t.tick e h, fired)
    go false e = (tt, fired)

stop_timer-period : (t : TimeTimer) → (stop_timer t).period ≡ t.period
unfolding stop_timer
stop_timer-period t = go t.running
  where
    go : (b : Bool) → (taken_out (record t { running = false }, b)).period ≡ t.period
    go true = refl
    go false = refl

reset-current :
    (late : List ℕ) (set : ℕ) (has_c : Bool) (o : Option TimeTimer)
    → IsCurrent late set has_c o
    → IsCurrent (under_way o ++ late) (suc set) true (some (set_at o))
reset-current late set has_c none h = (ap suc (sym (h.0)), tt, tt)
reset-current late set has_c (some t) h =
    let (tick, fired) = stop_timer-current late (suc (stop_timer t).period) true t (h.1) in
    (ap suc (stop_timer-period t ∙ h.0), tick, fired)

stop-current :
    (late : List ℕ) (set : ℕ) (t : Timer) (o : Option TimeTimer)
    → IsCurrent late set t.has_c o
    → t.tm ≡ o
    → IsCurrent (under_way o ++ late) set (stop_at t o).has_c (stop_at t o).tm
stop-current late set t none h e = subst (IsCurrent late set t.has_c) (sym e) h
stop-current late set t (some tm) h e =
    let (tick, fired) =
      stop_timer-current late (stop_timer tm).period (stop_timer tm).running tm (h.1) in
    (stop_timer-period tm ∙ h.0, tick, fired)

stop-silent :
    (late : List ℕ) (set : ℕ) (t : Timer) (o : Option TimeTimer)
    → IsCurrent late set t.has_c o
    → (stop_at t o).has_c ≡ false
stop-silent late set t none h = h.1
stop-silent late set t (some tm) h = refl

over :
    (late : List ℕ) (period n : ℕ) (running : Bool)
    → IsOnTime late period running n
    → IsOnTime late period false n
over late period n running (inl e) = inl (e.0, refl)
over late period n running (inr e) = inr e

expire-current :
    (late : List ℕ) (set : ℕ) (has_c : Bool) (o : Option TimeTimer)
    → IsCurrent late set has_c o
    → IsCurrent late set has_c (on_timer expire o)
unfolding expire
expire-current late set has_c none h = h
expire-current late set has_c (some t) h = go t.running
  where
    tick_over :
        (tick : Option ℕ) → HasTick late t.period t.running tick → HasTick late t.period false tick
    tick_over none k = tt
    tick_over (some n) k = over late t.period n t.running k

    go :
        (b : Bool)
        → IsCurrent late set has_c (
            some
              (if b then record t { running = false; firing = t.firing ++ (t.period ∷ []) } else t))
    go true = (
      h.0,
      tick_over t.tick (h.1),
      All-append (IsOnTime late t.period false) t.firing (t.period ∷ [])
          (All-map (IsOnTime late t.period t.running) (IsOnTime late t.period false) t.firing
            (λ n k. over late t.period n t.running k) (h.2))
          (inl (refl, refl), tt),
    )
    go false = h

deliver-current :
    (late : List ℕ) (set : ℕ) (has_c : Bool) (o : Option TimeTimer)
    → IsCurrent late set has_c o
    → IsCurrent late set has_c (on_timer deliver o)
unfolding deliver
deliver-current late set has_c none h = h
deliver-current late set has_c (some t) h = go t.firing (h.2)
  where
    put :
        (n : ℕ) (tick : Option ℕ)
        → IsOnTime late t.period t.running n
        → HasTick late t.period t.running tick
        → HasTick late t.period t.running (put_tick n tick)
    put n none k j = k
    put n (some m) k j = j

    go :
        (ns : List ℕ)
        → All (IsOnTime late t.period t.running) ns
        → IsCurrent late set has_c (some (fire t ns))
    go [] k = h
    go (n ∷ ns) k = (h.0, put n t.tick (k.0) (h.1), k.1)

received :
    (late : List ℕ) (set : ℕ) (has_c stopped : Bool) (o : Option TimeTimer) (n : ℕ)
    → IsCurrent late set has_c o
    → (has_c ≡ true → stopped ≡ false)
    → tick_of has_c o ≡ some n
    → IsTimely late (n, set, stopped) × IsCurrent late set has_c (emptied o)
received late set false stopped o n h alive e = absurd (cc e)
received late set true stopped none n h alive e = absurd (cc)
received late set true stopped (some t) n h alive e = (go t.tick (h.1) e, (h.0, tt, h.2))
  where
    go :
        (tick : Option ℕ)
        → HasTick late t.period t.running tick
        → tick ≡ some n
        → IsTimely late (n, set, stopped)
    go none k f = absurd (cc f)
    go (some m) (inl k) f = let same : m ≡ n = cc f in inl (sym same ∙ k.0 ∙ h.0, alive refl)
    go (some m) (inr k) f = let same : m ≡ n = cc f in inr (ap (contains late) (sym same) ∙ k)

receive-IsFresh : (r : Run) → IsFresh r → IsFresh (step receives r)
unfolding step
receive-IsFresh r h = go (tick_of r.timer.has_c r.timer.tm) refl
  where
    go : (o : Option ℕ) → tick_of r.timer.has_c r.timer.tm ≡ o → IsFresh (after_receive r o)
    go none e = h
    go (some n) e =
        let (now, rest) =
          received r.late r.set r.timer.has_c r.stopped r.timer.tm n h.current h.alive e in
        record {
          current = rest;
          alive = h.alive;
          timely = All-append (IsTimely r.late) r.seen _ h.timely (now, tt);
        }

step-IsFresh : (c : Call) (r : Run) → IsFresh r → IsFresh (step c r)
unfolding step reset stop
step-IsFresh resets r h = record {
  current = reset-current r.late r.set r.timer.has_c r.timer.tm h.current;
  alive = λ e. refl;
  timely = seen_later (under_way r.timer.tm) r.late r.seen h.timely;
}
step-IsFresh stops r h = record {
  current = stop-current r.late r.set r.timer r.timer.tm h.current refl;
  alive = λ e. absurd (cc (e, stop-silent r.late r.set r.timer r.timer.tm h.current));
  timely = seen_later (under_way r.timer.tm) r.late r.seen h.timely;
}
step-IsFresh expires r h = record {
  current = expire-current r.late r.set r.timer.has_c r.timer.tm h.current;
  alive = h.alive;
  timely = h.timely;
}
step-IsFresh delivers r h = record {
  current = deliver-current r.late r.set r.timer.has_c r.timer.tm h.current;
  alive = h.alive;
  timely = h.timely;
}
step-IsFresh receives r h = receive-IsFresh r h

steps-IsFresh : (cs : List Call) (r : Run) → IsFresh r → IsFresh (steps cs r)
unfolding steps
steps-IsFresh [] r h = h
steps-IsFresh (c ∷ cs) r h = steps-IsFresh cs (step c r) (step-IsFresh c r h)

start-IsFresh : IsFresh start
unfolding new_timer
start-IsFresh = record { current = (refl, refl); alive = λ e. absurd (cc e); timely = tt }

-- Whatever calls of Reset and Stop, ends of periods and receives follow each other on a new timer, a
-- tick that is received is that of the period which the last Reset began, and no Stop has come since,
-- unless it is a tick of a period that was over, but was not in the channel yet, when Reset or Stop was
-- called: only such a tick can be missed by Stop and be seen too late.
pub ticks-IsTimely : (cs : List Call) → All (IsTimely (steps cs start).late) (steps cs start).seen
ticks-IsTimely cs =
    let h : IsFresh (steps cs start) = steps-IsFresh cs start start-IsFresh in h.timely
