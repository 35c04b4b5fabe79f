-- ===== src/Errs.antt =====
-- errs/errs.go, errs.go, connector/errs.go and transport/errs.go: the errors as one type, with the
-- two of Go's io package that the code tells apart, and a number for every other error.
use multisocket.Prelude.{ℕ, Bool, true, false}

pub data Err : Type 0 where
  closed timeout bad_operate_state bad_addr addr_in_use operation_not_supported : Err
  bad_transport bad_msg bad_protocol content_too_long : Err
  msg_dropped broken_path invalid_send_type : Err
  stopped : Err
  conn_refused not_listening : Err
  eof unexpected_eof : Err
  other : ℕ → Err

-- What a Go function of type (A, error) does: it returns a value, an error, or panics.
pub data Outcome {ℓ} (A : Type ℓ) : Type ℓ where
  ok : A → Outcome A
  err : Err → Outcome A
  panic : Outcome A

infixl 5 ◌>>=◌ ◌>>◌
abbrev pub ◌>>=◌ {ℓ κ} : {A : Type ℓ} {B : Type κ} → Outcome A → (A → Outcome B) → Outcome B
panic >>= next = panic
err e >>= next = err e
ok a >>= next = next a

abbrev pub ◌>>◌ {ℓ} : {B : Type ℓ} → Outcome (Unit {0}) → Outcome B → Outcome B
first >> second = first >>= λ done. second

-- Go's bounds checks panic.
abbrev pub bounds : Bool → Outcome (Unit {0})
bounds false = panic
bounds true = ok tt

-- An early return of an error, unless the test holds.
abbrev pub guard : Bool → Err → Outcome (Unit {0})
guard false e = err e
guard true e = ok tt
