-- ===== src/Transport/Tcp.antt =====
-- transport/tcp/tcp.go: TCP connections and listeners. What package net answers is an argument.
pub mod Config
use multisocket.Prelude.{
  ℕ, Bool, true, false, Option, none, some, List, [], ◌∷◌, ◌++◌, if◌then◌else◌, ◌==◌,
}
use multisocket.Prelude.Int.{ℤ}
use multisocket.Errs.{Err, Outcome, ok, err, panic, closed, bad_operate_state, ◌>>=◌}
use multisocket.Options.Numbers.{Text}
use multisocket.Transport.Schemes.{strip_scheme}

-- The options that configTCP looks up.
pub record Opts : Type 0 where
  pub no_delay : Option Bool
  pub keep_alive : Option Bool
  pub keep_alive_period : Option ℤ
  pub read_buffer : Option ℤ
  pub write_buffer : Option ℤ

-- The settings of a connection, by the method of net.TCPConn that makes them.
pub data Setting : Type 0 where
  set_no_delay : Bool → Setting
  set_keep_alive : Bool → Setting
  set_keep_alive_period : ℤ → Setting
  set_read_buffer : ℤ → Setting
  set_write_buffer : ℤ → Setting

abbrev pub set {ℓ} : {A : Type ℓ} → (A → Setting) → Option A → List Setting
set f none = []
set f (some a) = f a ∷ []

abbrev pub keep_alive_settings : Option ℤ → Option Bool → List Setting
keep_alive_settings period none = []
keep_alive_settings period (some false) = set_keep_alive false ∷ []
keep_alive_settings period (some true) = set_keep_alive true ∷ set set_keep_alive_period period

-- The calls that configTCP makes while none fails. The read buffer's size goes to SetWriteBuffer.
unfoldable pub settings : Opts → List Setting
settings o =
    set set_no_delay o.no_delay
    ++ (keep_alive_settings o.keep_alive_period o.keep_alive
        ++ (set set_write_buffer o.read_buffer ++ set set_write_buffer o.write_buffer))

-- The first call that fails ends configTCP. The calls that were made, and the error.
abbrev pub made : Setting → Option Err → List Setting × Option Err → List Setting × Option Err
made s (some e) rest = (s ∷ [], some e)
made s none rest = (s ∷ rest.0, rest.1)

abbrev pub apply : (Setting → Option Err) → List Setting → List Setting × Option Err
apply answer [] = ([], none)
apply answer (s ∷ ss) = made s (answer s) (apply answer ss)

unfoldable pub config_tcp : (Setting → Option Err) → Opts → List Setting × Option Err
unfolding settings
config_tcp answer o = apply answer (settings o)

-- Dial: the connection, or it is closed if it cannot be configured. `dialed` is what net.DialTCP
-- answers.
abbrev pub configured : ℕ → List Setting × Option Err → Outcome ℕ × List ℕ
configured c (made_calls, none) = (ok c, [])
configured c (made_calls, some e) = (err e, c ∷ [])

abbrev pub connected : (Setting → Option Err) → Opts → Outcome ℕ → Outcome ℕ × List ℕ
connected answer o (ok c) = configured c (config_tcp answer o)
connected answer o (err e) = (err e, [])
connected answer o panic = (panic, [])

unfoldable pub dial : (Setting → Option Err) → Opts → Outcome ℕ → Outcome ℕ × List ℕ
unfolding config_tcp
dial answer o dialed = connected answer o dialed

-- `has_listener`: the pointer to the net.TCPListener is not nil.
pub record Listener : Type 0 where
  pub has_listener : Bool
  pub is_closed : Bool

unfoldable pub new_listener : Listener
new_listener = record { has_listener = false; is_closed = false }

abbrev pub no_error : Option Err → Bool
no_error none = true
no_error (some e) = false

-- `bound` is the error of net.ListenTCP, which returns a nil pointer with it.
unfoldable pub listen : Option Err → Listener → Listener × Option Err
listen bound l =
    if l.is_closed then (l, some closed) else (record l { has_listener = no_error bound }, bound)

-- `came` is what AcceptTCP answers.
unfoldable pub accept : (Setting → Option Err) → Opts → Outcome ℕ → Listener → Outcome ℕ × List ℕ
unfolding config_tcp
accept answer o came l =
    if l.is_closed
    then (err closed, [])
    else if l.has_listener
    then connected answer o came
    else (err bad_operate_state, [])

-- `shut` is what the net.TCPListener's Close answers.
unfoldable pub close : Option Err → Listener → Listener × Option Err
close shut l =
    if l.is_closed
    then (l, some closed)
    else (record l { is_closed = true }, if l.has_listener then shut else none)

-- NewDialer and NewListener: the address that net.ResolveTCPAddr is asked for, by ResolveTCPAddr of
-- transport.go, which drops a leading "*".
unfoldable pub resolve_tcp_addr : Text → Text
resolve_tcp_addr [] = []
resolve_tcp_addr (c ∷ s) = if c == b'*' then s else c ∷ s

unfoldable pub new_dialer : Text → Outcome Text
unfolding resolve_tcp_addr strip_scheme
new_dialer address = do rest ← strip_scheme address; ok (resolve_tcp_addr rest)
