-- ===== src/Tests/Transports.antt =====
-- transport/inproc at concrete inputs.
use multisocket.Prelude.{ℕ, Option, ◌≡◌, refl, none, some, List, [], ◌∷◌, ◌++◌, true, false}
use multisocket.Transport.Channel.{Half, create_pipe, read, write, next_slice}
use multisocket.Transport.Channel.Stream
use multisocket.Transport.Channel.Stream.{unread, bytes_in_order}
use multisocket.Transport.Inproc.{Listener, Tran}
use multisocket.Transport.Inproc.Rendezvous
use multisocket.Transport.Inproc.Calls
use multisocket.Transport.Inproc.Rendezvous.{listen-close, new-IsServed}
use multisocket.Transport.Inproc.Calls.{step-IsServed}

abbrev two_writes : List Stream.Call
two_writes =
    Stream.writes true (1 ∷ 2 ∷ 3 ∷ [])
    ∷ Stream.reads 2
    ∷ Stream.writes true (4 ∷ [])
    ∷ Stream.closes
    ∷ Stream.reads 5
    ∷ []

two_writes_seen : (Stream.steps two_writes (Stream.start 4)).seen ≡ 1 ∷ 2 ∷ 3 ∷ []
unfolding Stream.steps Stream.step create_pipe read write next_slice
    multisocket.Transport.Channel.close
two_writes_seen = refl

bytes_in_order_example :
    (Stream.steps two_writes (Stream.start 4)).sent
    ≡ (Stream.steps two_writes (Stream.start 4)).seen
      ++ unread (Stream.steps two_writes (Stream.start 4)).pipe
bytes_in_order_example = bytes_in_order 4 two_writes

abbrev left : Half
left = record {
  rc = record { size = 4; items = (3 ∷ 4 ∷ []) ∷ [] };
  s = some (1 ∷ 2 ∷ []);
  i = 1;
  is_closed = true;
}

-- Two dialers wait, one is accepted, and the listener is closed.
abbrev one_listener : List Calls.Call
one_listener =
    Calls.makes 1 80
    ∷ Calls.listens 1
    ∷ Calls.dials true 5 80
    ∷ Calls.dials true 6 80
    ∷ Calls.accepts true 1
    ∷ Calls.closes 1
    ∷ Calls.ends 5
    ∷ []

abbrev first : Listener
first = record {
  addr = 80;
  accepted_count = 0;
  accepts = some (record { size = 8; items = [] });
  is_closed = false;
}

abbrev second : Listener
second = record { addr = 80; accepted_count = 0; accepts = none; is_closed = false }

abbrev served : Tran
served = record { by_addr = (80, 1) ∷ []; listeners = (1, first) ∷ (2, second) ∷ []; dialings = [] }

-- "ab://c".
abbrev address : List ℕ
address = b'a' ∷ b'b' ∷ b':' ∷ b'/' ∷ b'/' ∷ b'c' ∷ []

abbrev no_transports : List ℕ → Option ℕ
no_transports s = none
