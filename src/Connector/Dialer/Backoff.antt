-- ===== src/Connector/Dialer/Backoff.antt =====
-- connector/dialer.go: the waiting times of a dialer, and when it connects again.
use multisocket.Prelude.{
  ℕ, ◌+◌, ◌*◌, ◌^◌, ◌≤◌, ◌<◌, ◌≡◌, ◌≢◌, true, false, List, [], ◌∷◌, arith, All, ◌⊎◌, inl, inr,
  Bool-cases, ltb,
}
use mathlib.Core.Path.{subst}
use multisocket.Errs.{err, addr_in_use}
use multisocket.Connector.Dialer.{
  Dialer, scaled, pending, reconn, pipe_closed, dial_begin, dial_success, dial_failure,
}

-- Failures in a row, each with its own draw of rand.Float64.
pub failures : List ℕ → Dialer → Dialer
failures [] d = d
failures (draw ∷ more) d = failures more (dial_failure draw true d)

-- A waiting time grows by at least a tenth and by at most a half, up to the cut to an integer.
scaled_bounds :
    (draw t : ℕ) → draw < 2 ^ 53 → (11 * t ≤ 10 * scaled draw t + 9) × (2 * scaled draw t ≤ 3 * t)
scaled_bounds draw t h =
    let most : draw * t ≤ 2 ^ 53 * t = grind (arith, h) in
    (omega (arith, most), omega (arith, most))

-- The waiting time after a failure, by the one before: within the maximum, not shorter, at most half as
-- long again, and at least a tenth longer unless it is the maximum.
abbrev pub IsBackoff : ℕ → ℕ → ℕ → Type 0
IsBackoff top before after =
    (after ≤ top)
    × (before ≤ after)
    × (2 * after ≤ 3 * before)
    × ((after ≡ top) ⊎ (11 * before ≤ 10 * after + 9))

dial_failure_times :
    (draw : ℕ) (d : Dialer)
    → draw < 2 ^ 53
    → d.max_reconnect_time ≢ 0
    → d.reconn_time ≤ d.max_reconnect_time
    → IsBackoff d.max_reconnect_time d.reconn_time (dial_failure draw true d).reconn_time
      × ((dial_failure draw true d).redialer ≡ pending d.reconn_time)
      × ((dial_failure draw true d).max_reconnect_time ≡ d.max_reconnect_time)
unfolding dial_failure
dial_failure_times draw d f h k =
    let (grows, most) = scaled_bounds draw d.reconn_time f in
    elim (Bool-cases (ltb d.max_reconnect_time (scaled draw d.reconn_time))) [
      | inl b ↦ ground (arith, grows, most, h, k, b)
      | inr b ↦ ground (arith, grows, most, h, k, b)
    ]

-- After any number of failures in a row, whatever the random draws, the next failure sets a waiting
-- time that is within the maximum, not shorter than the one before, at most half as long again, and at
-- least a tenth longer, up to the cut to an integer, unless it is the maximum; and the dialer waits for
-- the one before. There is a maximum, and the dialer starts within it.
pub failures_bounds :
    (draws : List ℕ) (draw : ℕ) (d : Dialer)
    → All (λ n. n < 2 ^ 53) draws
    → draw < 2 ^ 53
    → d.max_reconnect_time ≢ 0
    → d.reconn_time ≤ d.max_reconnect_time
    → (d.reconn_time ≤ (failures draws d).reconn_time)
      × IsBackoff d.max_reconnect_time
          (failures draws d).reconn_time
          (dial_failure draw true (failures draws d)).reconn_time
      × ((dial_failure draw true (failures draws d)).redialer
          ≡ pending (failures draws d).reconn_time)
unfolding failures
failures_bounds [] draw d all f h k =
    let (back, waits, _) = dial_failure_times draw d f h k in (omega arith, back, waits)
failures_bounds (first ∷ more) draw d all f h k =
    let d' = dial_failure first true d in
    let (back, _, same) = dial_failure_times first d (all.0) h k in
    let (lo, next, waits) =
      failures_bounds more draw d' (all.1) f (λ e. h (rw same at e))
        (omega (arith, back.0, same)) in
    (
      omega (arith, lo, back.1),
      subst
          (λ top.
            IsBackoff top (failures more d').reconn_time
              (dial_failure draw true (failures more d')).reconn_time)
          same next,
      waits,
    )

-- A dialer whose pipe closes between add_pipe and the end of dial is left connected: the end of dial
-- undoes what pipe_closed noted, so every attempt to connect again is refused as in use, although
-- there is no pipe.
pub dial_success-pipe_closed :
    (d : Dialer)
    → d.is_closed ≡ false
    → d.is_stopped ≡ false
    → d.reconnects ≡ true
    → let d' = dial_success ((pipe_closed d).0) in
      (d'.redialer ≡ pending d.reconn_time) × (dial_begin d' ≡ (d', err addr_in_use))
unfolding dial_success pipe_closed dial_begin reconn
dial_success-pipe_closed d o s r = ground (arith, o, s, r)
