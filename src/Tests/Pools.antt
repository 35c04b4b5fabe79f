-- ===== src/Tests/Pools.antt =====
-- utils/id.go and bytespool/bytespool.go at concrete inputs.
use multisocket.Utils.Time.Calls
use multisocket.Utils.Time.Fresh.{IsTimely, ticks-IsTimely}
use multisocket.Prelude.{All}
use multisocket.Prelude.{
  ℕ, ◌-◌, ◌^◌, ◌<◌, ◌≡◌, ◌≢◌, refl, false, some, List, [], ◌∷◌, replicate, length-replicate, arith,
}
use multisocket.Prelude.Bytes.{IsU32}
use multisocket.Utils.Id.{RecyclableIdGenerator, next_loop, next_id, contains}
use multisocket.Utils.Id.Search.{next_id_total}
use multisocket.Utils.Id.Fresh.{next_id_fresh}
use multisocket.Bytespool.{IsHanded}

abbrev two_ids : RecyclableIdGenerator
two_ids = record { ids = 2 ∷ 1 ∷ []; next = 2 }

next_id_total_example : (r : ℕ × RecyclableIdGenerator) × (next_id two_ids ≡ some r)
next_id_total_example = next_id_total two_ids (omega arith)

-- The counter wraps from 2 ^ 32 - 1 over the id 0 and the ids in use.
abbrev wrapping : RecyclableIdGenerator
wrapping = record { ids = 2 ∷ 1 ∷ []; next = 2 ^ 32 - 1 }

next_id_wraps :
    next_id wrapping ≡ some (2 ^ 31 - 1, record { ids = (2 ^ 31 - 1) ∷ 2 ∷ 1 ∷ []; next = 0 })
unfolding next_id next_loop contains
next_id_wraps = refl

next_id_two : next_id two_ids ≡ some (3, record { ids = 3 ∷ 2 ∷ 1 ∷ []; next = 4 })
unfolding next_id next_loop contains
next_id_two = refl

next_id_fresh_example :
    (◌≢◌ {A = ℕ} 3 0)
    × (3 < 2 ^ 31)
    × (contains (2 ∷ 1 ∷ []) 3 ≡ false)
    × (◌≡◌ {A = List ℕ} (3 ∷ 2 ∷ 1 ∷ []) (3 ∷ 2 ∷ 1 ∷ []))
    × IsU32 4
next_id_fresh_example =
    next_id_fresh two_ids 3 (record { ids = 3 ∷ 2 ∷ 1 ∷ []; next = 4 }) next_id_two

abbrev zeros : ℕ → List ℕ
zeros n = replicate n 0

zeros-IsHanded : IsHanded zeros
zeros-IsHanded s = length-replicate s 0

-- The first period ends unseen, the timer is set again, and the second tick is received.
abbrev timer_calls : List Calls.Call
timer_calls =
    Calls.resets ∷ Calls.expires ∷ Calls.delivers ∷ Calls.resets ∷ Calls.receives ∷ Calls.expires
    ∷ Calls.delivers ∷ Calls.receives ∷ []

timer_calls_seen : (Calls.steps timer_calls Calls.start).seen ≡ (2, 2, false) ∷ []
unfolding Calls.steps Calls.step multisocket.Utils.Time.reset multisocket.Utils.Time.expire
    multisocket.Utils.Time.new_timer multisocket.Utils.Time.stop_timer
    multisocket.Utils.Time.deliver
timer_calls_seen = refl

-- The first tick is on its way when the timer is set again, and is received in the second period.
abbrev late_calls : List Calls.Call
late_calls = Calls.resets ∷ Calls.expires ∷ Calls.resets ∷ Calls.delivers ∷ Calls.receives ∷ []

late_calls_seen : (Calls.steps late_calls Calls.start).seen ≡ (1, 2, false) ∷ []
unfolding Calls.steps Calls.step multisocket.Utils.Time.reset multisocket.Utils.Time.expire
    multisocket.Utils.Time.new_timer multisocket.Utils.Time.stop_timer
    multisocket.Utils.Time.deliver
late_calls_seen = refl

ticks-IsTimely_example :
    All
      (IsTimely (Calls.steps timer_calls Calls.start).late)
      (Calls.steps timer_calls Calls.start).seen
ticks-IsTimely_example = ticks-IsTimely timer_calls
