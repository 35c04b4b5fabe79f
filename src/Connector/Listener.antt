-- ===== src/Connector/Listener.antt =====
-- connector/listener.go: a listener, which drops connections while it is stopped.
pub mod Serve
use multisocket.Prelude.{ℕ, Bool, true, false, if◌then◌else◌}
use multisocket.Errs.{Err, closed}

pub record Listener : Type 0 where
  pub addr : ℕ
  pub registered : Bool
  pub is_closed : Bool
  pub is_stopped : Bool

unfoldable pub start : Listener → Listener
start l = if l.is_stopped then record l { is_stopped = false } else l

unfoldable pub stop : Listener → Listener
stop l = if l.is_stopped then l else record l { is_stopped = true }

unfoldable pub close : Listener → Listener
close l = if l.is_closed then l else record l { is_closed = true }

-- What Accept of the transport answers.
pub data Accepted : Type 0 where
  connection : ℕ → Accepted
  failed : Err → Accepted

-- One round of serve: the loop ends, the connection is closed or becomes a pipe, or it waits a little.
pub data Served : Type 0 where
  ends : Served
  closes : ℕ → Served
  adds : ℕ → Served
  waits : Served

unfoldable pub serve : Listener → Accepted → Served
serve l (connection tc) = if l.is_stopped then closes tc else adds tc
serve l (failed closed) = ends
serve l (failed e) = waits
