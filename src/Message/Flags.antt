-- ===== src/Message/Flags.antt =====
-- message/message.go: the bits of the flags.
use multisocket.Message.{send_type}
use multisocket.Message.Send.{new_send_message}
use multisocket.Prelude.{
  ℕ, zero, suc, List, ◌*◌, ◌<◌, ◌≡◌, refl, Bool, true, bit_and, bit_or, ◌==◌, arith, ◌&&◌,
}

-- Every f under the bound leaves the send type in the low bits.
keeps_low : ℕ → ℕ → Bool
keeps_low type zero = true
keeps_low type (suc n) = keeps_low type n && bit_and (bit_or (4 * n) type) 3 == type

keeps_low_lem :
    (type bound f : ℕ)
    → f < bound
    → keeps_low type bound ≡ true
    → bit_and (bit_or (4 * f) type) 3 ≡ type
unfolding keeps_low
keeps_low_lem type zero f small kept = absurd (omega arith)
keeps_low_lem type (suc n) f small kept = ground (arith, keeps_low_lem type n f)

low_bits : (f type : ℕ) → f < 64 → type < 4 → bit_and (bit_or (4 * f) type) 3 ≡ type
unfolding keeps_low
low_bits f zero h k = keeps_low_lem 0 64 f h refl
low_bits f (suc zero) h k = keeps_low_lem 1 64 f h refl
low_bits f (suc (suc zero)) h k = keeps_low_lem 2 64 f h refl
low_bits f (suc (suc (suc zero))) h k = keeps_low_lem 3 64 f h refl
low_bits f (suc (suc (suc (suc type)))) h k = absurd (omega arith)

-- SendType reads back the send type that NewSendMessage was given, whatever flags above the low two
-- bits it was given with it.
pub send_type-new_send_message :
    (alloc : ℕ → List ℕ) (f type ttl : ℕ) (src dest content : List ℕ)
    → f < 64
    → type < 4
    → send_type (new_send_message alloc (4 * f) type ttl src dest content).meta ≡ type
unfolding send_type new_send_message
send_type-new_send_message alloc f type ttl src dest content h k = low_bits f type h k
