-- ===== src/Transport/Contract/Close.antt =====
-- transport/types.go: Close, on the listeners of the four transports.
use multisocket.Prelude.{List, true, ℕ, ◌≡◌, Bool, false, Option, some}
use multisocket.Prelude.Assoc.{lookup}
use multisocket.Errs.{Err, Outcome}
use multisocket.Transport.Tcp
use multisocket.Transport.Ipc
use multisocket.Transport.Inproc
use multisocket.Transport.Ws.Listener
use multisocket.Transport.Contract.{
  ListenerOps, Closes, Call, calls, calls-IsOver, tcp_ops, ipc_ops, tcp-Closes, ipc-Closes, ws_ops,
  ws-Closes,
}
use multisocket.Transport.Contract.Local.{inproc_ops, inproc-Closes}

-- After Close of `s` the calls are all refused, and leave what Close left, which is closed.
abbrev pub IsRefused {ℓ} : {S : Type ℓ} → ListenerOps S → S → List Call → Type ℓ
IsRefused ops s cs =
    (ops.is_closed (ops.close s).0 ≡ true)
    × (calls ops cs (ops.close s).0 ≡ ((ops.close s).0, true))

all-IsRefused {ℓ} :
    {S : Type ℓ} (ops : ListenerOps S) (s : S) (cs : List Call) → Closes ops s → IsRefused ops s cs
all-IsRefused ops s cs h = (h.shut, calls-IsOver ops cs (ops.close s).0 h)

-- After Close of an open listener, of any of the four transports and whatever the packages under them
-- answer, every further call of the interface Listener is refused, in any order and number, and changes
-- nothing: Close and Listen with ErrClosed, and Accept with an error and without a wait; also on a
-- websocket listener with connections in its queue, and on an in-process listener whose address
-- another one has. A request that the http server of a websocket listener still serves is no such
-- call.
pub listeners_close :
    (answer : Tcp.Setting → Option Err) (o : Tcp.Opts) (wo : Listener.Opts)
    (removed bound shut : Option Err) (came : Outcome ℕ) (pick : Bool) (tcp : Tcp.Listener)
    (ipc : Ipc.Listener) (file : Ipc.File) (ws : Listener.Listener) (l : ℕ) (x : Inproc.Listener)
    (t : Inproc.Tran) (cs : List Call)
    → tcp.is_closed ≡ false
    → ipc.is_closed ≡ false
    → ws.is_closed ≡ false
    → lookup l t.listeners ≡ some x
    → x.is_closed ≡ false
    → IsRefused (tcp_ops answer o bound came shut) tcp cs
      × IsRefused (ipc_ops removed bound came shut) (ipc, file) cs
      × IsRefused (ws_ops wo removed bound pick) ws cs
      × IsRefused (inproc_ops pick l) t cs
listeners_close answer o wo removed bound shut came pick tcp ipc file ws l x t cs ht hi hw there
      hx =
    (
      all-IsRefused _ tcp cs (tcp-Closes answer o bound came shut tcp ht),
      all-IsRefused _ (ipc, file) cs (ipc-Closes removed bound came shut ipc file hi),
      all-IsRefused _ ws cs (ws-Closes wo removed bound pick ws hw),
      all-IsRefused _ t cs (inproc-Closes pick l x t there hx),
    )
