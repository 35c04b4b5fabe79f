-- ===== src/Transport/Tcp/Config.antt =====
-- transport/tcp/tcp.go: the settings that a connection gets.
use multisocket.Prelude.{
  ℕ, ◌≡◌, refl, ap, ◌∙◌, Bool, true, false, Option, none, some, List, [], ◌∷◌, ◌++◌,
}
use multisocket.Prelude.Int.{ℤ}
use multisocket.Errs.{Err, ok}
use multisocket.Transport.Tcp.{
  Opts, Setting, set_no_delay, set_keep_alive, set_keep_alive_period, set_read_buffer,
  set_write_buffer, set, keep_alive_settings, settings, made, apply, config_tcp, configured, dial,
}

-- The size that the last of some settings gives the write buffer, and the read buffer.
abbrev pub later : Option ℤ → Option ℤ → Option ℤ
later before none = before
later before (some n) = some n

abbrev pub write_buffer_of : List Setting → Option ℤ
write_buffer_of [] = none
write_buffer_of (set_write_buffer n ∷ ss) = later (some n) (write_buffer_of ss)
write_buffer_of (set_read_buffer n ∷ ss) = write_buffer_of ss
write_buffer_of (set_no_delay b ∷ ss) = write_buffer_of ss
write_buffer_of (set_keep_alive b ∷ ss) = write_buffer_of ss
write_buffer_of (set_keep_alive_period d ∷ ss) = write_buffer_of ss

abbrev pub read_buffer_of : List Setting → Option ℤ
read_buffer_of [] = none
read_buffer_of (set_write_buffer n ∷ ss) = read_buffer_of ss
read_buffer_of (set_read_buffer n ∷ ss) = later (some n) (read_buffer_of ss)
read_buffer_of (set_no_delay b ∷ ss) = read_buffer_of ss
read_buffer_of (set_keep_alive b ∷ ss) = read_buffer_of ss
read_buffer_of (set_keep_alive_period d ∷ ss) = read_buffer_of ss

apply-all : (ss : List Setting) → apply (λ s. none) ss ≡ (ss, none)
apply-all [] = refl
apply-all (s ∷ ss) = ap (made s none) (apply-all ss)

-- Settings in front of others that touch no buffer.
abbrev IsOther : List Setting → Type 0
IsOther front =
    (ss : List Setting)
    → (write_buffer_of (front ++ ss) ≡ write_buffer_of ss)
      × (read_buffer_of (front ++ ss) ≡ read_buffer_of ss)

no_delay-IsOther : (b : Option Bool) → IsOther (set set_no_delay b)
no_delay-IsOther none ss = (refl, refl)
no_delay-IsOther (some b) ss = (refl, refl)

keep_alive-IsOther : (b : Option Bool) (d : Option ℤ) → IsOther (keep_alive_settings d b)
keep_alive-IsOther none d ss = (refl, refl)
keep_alive-IsOther (some false) d ss = (refl, refl)
keep_alive-IsOther (some true) none ss = (refl, refl)
keep_alive-IsOther (some true) (some d) ss = (refl, refl)

sizes :
    (rb wb : Option ℤ)
    → (write_buffer_of (set set_write_buffer rb ++ set set_write_buffer wb) ≡ later rb wb)
      × (read_buffer_of (set set_write_buffer rb ++ set set_write_buffer wb) ≡ none)
sizes none none = (refl, refl)
sizes none (some n) = (refl, refl)
sizes (some n) none = (refl, refl)
sizes (some n) (some m) = (refl, refl)

buffers_of :
    (o : Opts)
    → (write_buffer_of (settings o) ≡ later o.read_buffer o.write_buffer)
      × (read_buffer_of (settings o) ≡ none)
unfolding settings
buffers_of o =
    let buffers = set set_write_buffer o.read_buffer ++ set set_write_buffer o.write_buffer in
    let behind = keep_alive_settings o.keep_alive_period o.keep_alive ++ buffers in
    let a = no_delay-IsOther o.no_delay behind in
    let b = keep_alive-IsOther o.keep_alive o.keep_alive_period buffers in
    let c = sizes o.read_buffer o.write_buffer in (a.0 ∙ b.0 ∙ c.0, a.1 ∙ b.1 ∙ c.1)

-- Dial on a connection whose settings all succeed makes the settings of the options, in order, and
-- returns the connection; and the size that the option ReadBuffer names is given to the write buffer,
-- unless WriteBuffer names one, while the read buffer is never set.
pub dial_configures :
    (o : Opts) (c : ℕ)
    → (config_tcp (λ s. none) o ≡ (settings o, none))
      × (dial (λ s. none) o (ok c) ≡ (ok c, []))
      × (write_buffer_of (config_tcp (λ s. none) o).0 ≡ later o.read_buffer o.write_buffer)
      × (read_buffer_of (config_tcp (λ s. none) o).0 ≡ none)
unfolding config_tcp dial
dial_configures o c =
    let all = apply-all (settings o) in
    let (w, r) = buffers_of o in
    (
      all,
      ap (configured c) all,
      ap (λ (x : List Setting × Option Err). write_buffer_of x.0) all ∙ w,
      ap (λ (x : List Setting × Option Err). read_buffer_of x.0) all ∙ r,
    )
