-- ===== src/Transport/Ws/Listener.antt =====
-- transport/ws/ws.go: a listener, whose http handler runs beside Accept and Close.
pub mod Late
pub mod Calls
pub mod Sends
pub mod Conserved
use multisocket.Prelude.{
  ℕ, suc, ◌+◌, ◌≡◌, Bool, true, false, not, Option, none, some, List, [], ◌∷◌, ◌++◌, ◌&&◌, ◌||◌,
  if◌then◌else◌,
}
use multisocket.Prelude.Queue.{Chan, make, has_room, enqueue}
use multisocket.Errs.{Err, Outcome, ok, err, closed, bad_operate_state}

-- How the upgrader checks the origin of a request.
pub data OriginCheck : Type 0 where
  default_check no_check : OriginCheck
  checker : ℕ → OriginCheck

-- Connections are numbers. `pending` is nil until Listen makes the channel. `has_listener`:
-- `l.listener != nil`.
pub record Listener : Type 0 where
  pub check_origin : OriginCheck
  pub external_listen : Bool
  pub has_listener : Bool
  pub pending : Option (Chan ℕ)
  pub is_closed : Bool

unfoldable pub new_listener : Listener
new_listener = record {
  check_origin = default_check;
  external_listen = false;
  has_listener = false;
  pending = none;
  is_closed = false;
}

-- The options that Listen looks up.
pub record Opts : Type 0 where
  pub pending_size : ℕ
  pub check_origin : Option Bool
  pub origin_checker : Option ℕ
  pub external_listen : Bool

abbrev pub checked_by : Option ℕ → OriginCheck → OriginCheck
checked_by none c = c
checked_by (some f) c = checker f

unfoldable pub origin_of : Option Bool → Option ℕ → OriginCheck → OriginCheck
origin_of (some true) f c = checked_by f default_check
origin_of (some false) f c = no_check
origin_of none f c = checked_by f c

abbrev pub configured : Opts → Listener → Listener
configured o l = record l {
  pending = some (make o.pending_size);
  check_origin = origin_of o.check_origin o.origin_checker l.check_origin;
}

-- `resolved` and `bound` are the errors of ResolveTCPAddr and of net.ListenTCP. The nil pointer that a
-- failed ListenTCP returns makes an interface that is not nil.
abbrev pub listen_tcp : Option Err → Option Err → Listener → Listener × Option Err
listen_tcp (some e) bound l = (l, some e)
listen_tcp none bound l = (record l { has_listener = true }, bound)

unfoldable pub listen : Opts → Option Err → Option Err → Listener → Listener × Option Err
unfolding origin_of
listen o resolved bound l =
    if l.is_closed
    then (l, some closed)
    else if o.external_listen
    then (record (configured o l) { external_listen = true }, none)
    else listen_tcp resolved bound (configured o l)

pub data Accepted : Type 0 where
  accepted : ℕ → Listener → Accepted
  accept_failed : Err → Accepted
  accept_waits : Accepted

abbrev pub items_of : Option (Chan ℕ) → List ℕ
items_of none = []
items_of (some q) = q.items

abbrev pub set_items : List ℕ → Option (Chan ℕ) → Option (Chan ℕ)
set_items cs none = none
set_items cs (some q) = some (record { size = q.size; items = cs })

abbrev pub take_pending : Bool → Listener → List ℕ → Accepted
take_pending pick l [] = if l.is_closed then accept_failed closed else accept_waits
take_pending pick l (c ∷ cs) =
    if l.is_closed && pick
    then accept_failed closed
    else accepted c (record l { pending = set_items cs l.pending })

-- `pick`: on a closed listener, select takes the case of closedq though a connection is pending.
unfoldable pub accept : Bool → Listener → Accepted
accept pick l =
    if not l.external_listen && not l.has_listener
    then accept_failed bad_operate_state
    else take_pending pick l (items_of l.pending)

-- Close: the connections that it closes.
unfoldable pub close : Listener → Outcome (Listener × List ℕ)
close l =
    if l.is_closed
    then err closed
    else ok (record l { is_closed = true; pending = set_items [] l.pending }, items_of l.pending)

-- ServeHTTP, up to the send on `pending`: the connection is closed, or goes on. `known` says that the
-- websocket has one of the two subprotocols.
pub data Served : Type 0 where
  closes : Served
  goes_on : Served

unfoldable pub serve_http : Bool → Listener → Served
serve_http known l = if l.is_closed then closes else if known then goes_on else closes

-- `l.pending <- c`; `none` waits, for ever on the nil channel of a listener that was never started.
abbrev pub put_in : ℕ → Listener → Option (Chan ℕ) → Option Listener
put_in c l none = none
put_in c l (some q) = if has_room q then some (record l { pending = some (enqueue c q) }) else none

unfoldable pub put_pending : ℕ → Listener → Option Listener
put_pending c l = put_in c l l.pending
