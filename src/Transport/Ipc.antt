-- ===== src/Transport/Ipc.antt =====
-- transport/ipc/ipc_unix.go: listeners on UNIX domain sockets, and the file at their path. What
-- packages os and net answer is an argument.
pub mod Files
use multisocket.Prelude.{ℕ, Bool, true, false, Option, none, some, if◌then◌else◌}
use multisocket.Errs.{
  Err, Outcome, ok, err, panic, closed, addr_in_use, bad_addr, bad_operate_state,
}

-- What os.Stat answers for a path, at the end of the links that it follows: nothing, a socket, another
-- file, or an error of another kind.
pub data Stat : Type 0 where
  absent socket other_file : Stat
  stat_error : Err → Stat

-- What stands at the path: a link or not, and what os.Stat answers. A link may lead to nothing.
pub record File : Type 0 where
  pub is_link : Bool
  pub stat : Stat

abbrev pub nothing : File
nothing = record { is_link = false; stat = absent }

-- `has_listener`: the pointer to the net.UnixListener is not nil.
pub record Listener : Type 0 where
  pub has_listener : Bool
  pub is_closed : Bool

unfoldable pub new_listener : Listener
new_listener = record { has_listener = false; is_closed = false }

-- net.ListenUnix makes the socket file, unless it fails with the error `bound`.
abbrev pub bind : Option Err → Listener → File → Listener × File × Option Err
bind none l file = (record l { has_listener = true }, record file { stat = socket }, none)
bind (some e) l file = (l, file, some e)

-- os.Remove removes what stands at the path, a link and not what it leads to; `removed` is its error.
abbrev pub take_over : Option Err → Option Err → Listener → File → Listener × File × Option Err
take_over (some e) bound l file = (l, file, some addr_in_use)
take_over none bound l file = bind bound l nothing

abbrev pub listen_at :
    Option Err → Option Err → Listener → File → Stat → Listener × File × Option Err
listen_at removed bound l file absent = bind bound l file
listen_at removed bound l file socket = take_over removed bound l file
listen_at removed bound l file other_file = (l, file, some bad_addr)
listen_at removed bound l file (stat_error e) = (l, file, some e)

-- Listen: the listener, what stands at its path, and the error.
unfoldable pub listen : Option Err → Option Err → Listener → File → Listener × File × Option Err
listen removed bound l file =
    if l.is_closed then (l, file, some closed) else listen_at removed bound l file file.stat

-- `came` is what AcceptUnix answers.
unfoldable pub accept : Outcome ℕ → Listener → Outcome ℕ
accept came l =
    if l.is_closed then err closed else if l.has_listener then came else err bad_operate_state

-- `shut` is what the net.UnixListener's Close answers.
unfoldable pub close : Option Err → Listener → Listener × Option Err
close shut l =
    if l.is_closed
    then (l, some closed)
    else (record l { is_closed = true }, if l.has_listener then shut else none)
