-- ===== src/Tests/Networks.antt =====
-- Packet pipes, listeners and the transports over networks at concrete inputs.
use multisocket.Prelude.{
  ◌⊎◌, All, ℕ, ◌+◌, ◌≡◌, refl, true, false, Bool, Option, none, some, List, [], ◌∷◌, ◌++◌, count,
  arith,
}
use multisocket.Prelude.Assoc.{lookup}
use multisocket.Prelude.Queue.{make}
use multisocket.Errs.{Err, Outcome, ok, closed, addr_in_use, timeout}
use multisocket.Connector.Listener.{Listener}
use multisocket.Connector.Listener.Serve.{serve_loop, serve_woken, woken, serve_after_close}
use multisocket.Options.Numbers.{Text}
use multisocket.Transport.Schemes.{register_transport, get_transport_from_addr, strip_scheme}
use multisocket.Transport.Channel.Packets.{recv}
use multisocket.Transport.Channel.Packets.Ownership
use multisocket.Transport.Channel.Packets.Ownership.{held, Settles, packets_owned}
use multisocket.Transport.Conn.{NetAddr, new_connection}
use multisocket.Transport.Conn.Addresses.{addresses-get_transport}
use multisocket.Transport.Contract
use multisocket.Transport.Contract.{tcp_ops, ipc_ops, ws_ops}
use multisocket.Transport.Contract.Local.{inproc_ops, gone}
use multisocket.Transport.Contract.Close.{IsRefused, listeners_close}
use multisocket.Transport.Inproc
use multisocket.Transport.Ipc
use multisocket.Transport.Ipc.{Stat, File}
use multisocket.Transport.Ipc.Files.{IsSafe, listen-IsSafe}
use multisocket.Transport.Tcp
use multisocket.Transport.Ws.{WsConn, Chunk, read}
use multisocket.Transport.Ws.Stream.{
  IsFront, reads, unread, ws_bytes_in_order, recvs, packets, IsEmpty, recvs-packets,
}
use multisocket.Transport.Ws.Listener
use multisocket.Transport.Ws.Listener.{items_of, serve_http, put_pending}
use multisocket.Transport.Ws.Listener.Calls
use multisocket.Transport.Ws.Listener.Calls.{count_sending}
use multisocket.Transport.Ws.Listener.Conserved.{conns_conserved}
use multisocket.Transport.Ws.Listener.Late.{put_after_close}

-- Two slices are sent and one is received; the pipe is closed, and the other one is received.
abbrev packet_calls : List (Ownership.Call (List ℕ))
packet_calls =
    Ownership.sends true (1 ∷ [])
    ∷ Ownership.sends true (2 ∷ 3 ∷ [])
    ∷ Ownership.recvs
    ∷ Ownership.closes
    ∷ Ownership.recvs
    ∷ []

abbrev packet_run : Ownership.Run (List ℕ)
packet_run = Ownership.steps packet_calls (Ownership.start 4)

packets_owned_example :
    (packet_run.given ≡ packet_run.pipe.freed ++ held packet_run.pipe.last)
    × (packet_run.taken ≡ packet_run.given ++ packet_run.pipe.queue.items)
    × Settles packet_run.taken (recv packet_run.pipe)
packets_owned_example = packets_owned 4 packet_calls

-- Two messages, of which the second is broken off.
abbrev websocket : WsConn
websocket = record {
  messages =
      record { bytes = 1 ∷ 2 ∷ 3 ∷ []; broken = none }
      ∷ record { bytes = 4 ∷ []; broken = some timeout }
      ∷ [];
  end = closed;
  r = none;
  last_buf = none;
  put_back = [];
  pool = [] ∷ [];
}

abbrev two_reads : List (Chunk × ℕ)
two_reads = (record { give = 1; early = false }, 4) ∷ (record { give = 9; early = true }, 4) ∷ []

ws_bytes_in_order_example :
    ((reads two_reads websocket).0 ++ unread (reads two_reads websocket).1 ≡ unread websocket)
    × ((k : Chunk) (n : ℕ) → IsFront n (unread websocket) (read k n websocket))
ws_bytes_in_order_example = ws_bytes_in_order two_reads websocket

abbrev first : ℕ → ℕ
first n = 0

recvs-packets_example :
    ((recvs first 3 websocket).0 ≡ packets websocket.messages)
    × ((recvs first 3 websocket).1 ≡ some closed)
    × ((recvs first 3 websocket).2.put_back ≡ [] ++ packets websocket.messages)
    × All IsEmpty (recvs first 3 websocket).2.pool
recvs-packets_example = recvs-packets first websocket websocket.messages refl (refl, tt)

abbrev ws_opts : Listener.Opts
ws_opts = record {
  pending_size = 2;
  check_origin = none;
  origin_checker = none;
  external_listen = false;
}

abbrev ws_calls : List Calls.Call
ws_calls =
    Calls.listens ws_opts none none
    ∷ Calls.serves true 5
    ∷ Calls.serves true 6
    ∷ Calls.sends 5
    ∷ Calls.puts 5
    ∷ Calls.accepts true
    ∷ Calls.sends 6
    ∷ Calls.listens ws_opts none none
    ∷ Calls.puts 6
    ∷ Calls.shuts
    ∷ []

abbrev ws_run : Calls.Run
ws_run = Calls.steps ws_calls Calls.start

conns_conserved_example :
    count (λ c. true) ws_run.upgraded
    ≡ count (λ c. true) ws_run.in_flight
      + count_sending (λ c. true) ws_run.sending
      + count (λ c. true) ws_run.given
      + count (λ c. true) ws_run.shut
      + count (λ c. true) ws_run.lost
      + count (λ c. true) (items_of ws_run.listener.pending)
conns_conserved_example = conns_conserved ws_calls (λ c. true)

abbrev ws_listener : Listener.Listener
ws_listener = record {
  check_origin = Listener.default_check;
  external_listen = false;
  has_listener = true;
  pending = some (record { size = 2; items = 5 ∷ [] });
  is_closed = false;
}

abbrev ws_closed : Listener.Listener
ws_closed = record ws_listener { pending = some (make 2); is_closed = true }

put_after_close_example :
    (items_of ws_closed.pending ≡ [])
    × (◌≡◌ {A = List ℕ} (5 ∷ []) (5 ∷ []))
    × ((known : Bool) → serve_http known ws_closed ≡ Listener.closes)
    × ((l : Listener.Listener) × (put_pending 6 ws_closed ≡ some l)
        × (items_of l.pending ≡ 6 ∷ [])
        × (Listener.close l ≡ Outcome.err closed))
unfolding Listener.close
put_after_close_example =
    put_after_close 6 ws_listener ws_closed (5 ∷ []) (record { size = 2; items = 5 ∷ [] }) refl refl
      (omega arith)

-- A link to a socket.
abbrev a_link : File
a_link = record { is_link = true; stat = Stat.socket }

listen-IsSafe_example :
    IsSafe Ipc.new_listener a_link (Ipc.listen none (some addr_in_use) Ipc.new_listener a_link)
listen-IsSafe_example = listen-IsSafe none (some addr_in_use) Ipc.new_listener a_link

abbrev tcp_opts : Tcp.Opts
tcp_opts = record {
  no_delay = some true;
  keep_alive = none;
  keep_alive_period = none;
  read_buffer = none;
  write_buffer = none;
}

abbrev tcp_listener : Tcp.Listener
tcp_listener = record { has_listener = true; is_closed = false }

abbrev ipc_listener : Ipc.Listener
ipc_listener = record { has_listener = true; is_closed = false }

abbrev inproc_listener : Inproc.Listener
inproc_listener = record {
  addr = 80;
  accepted_count = 0;
  accepts = some (make 8);
  is_closed = false;
}

abbrev one_served : Inproc.Tran
one_served = record { by_addr = (80, 1) ∷ []; listeners = (1, inproc_listener) ∷ []; dialings = [] }

abbrev settled : Tcp.Setting → Option Err
settled s = none

abbrev late : List Contract.Call
late = Contract.accepts ∷ Contract.listens ∷ Contract.closes ∷ Contract.accepts ∷ []

listeners_close_example :
    IsRefused (tcp_ops settled tcp_opts none (ok 7) none) tcp_listener late
    × IsRefused (ipc_ops none none (ok 7) none) (ipc_listener, a_link) late
    × IsRefused (ws_ops ws_opts none none true) ws_listener late
    × IsRefused (inproc_ops true 1) one_served late
unfolding lookup
listeners_close_example =
    listeners_close settled tcp_opts ws_opts none none none (ok 7) true tcp_listener ipc_listener
      a_link ws_listener 1 inproc_listener one_served late refl refl refl refl refl

-- "tcp" and "h:1".
abbrev tcp : Text
tcp = b't' ∷ b'c' ∷ b'p' ∷ []

abbrev there : NetAddr
there = record { network = tcp; string = b'h' ∷ b':' ∷ b'1' ∷ [] }

abbrev no_transports : Text → Option ℕ
no_transports s = none

addresses-get_transport_example :
    (get_transport_from_addr
        (register_transport 3 tcp no_transports)
        (new_connection tcp there there false).remote_address
      ≡ some 3)
    × (strip_scheme (new_connection tcp there there false).remote_address ≡ ok there.string)
    × (get_transport_from_addr
          (register_transport 3 tcp no_transports)
          (new_connection tcp there there true).local_address
        ≡ some 3)
    × (strip_scheme (new_connection tcp there there true).local_address ≡ ok there.string)
addresses-get_transport_example =
    addresses-get_transport 3 tcp there there no_transports
      ((λ e. omega (arith, e)), ((λ e. omega (arith, e)), ((λ e. omega (arith, e)), tt)))

abbrev serving : multisocket.Connector.Listener.Listener
serving = record { addr = 80; registered = true; is_closed = false; is_stopped = false }

serve_after_close_example :
    (serve_loop 4 serving
        (tcp_ops settled tcp_opts none (ok 7) none)
        ((tcp_ops settled tcp_opts none (ok 7) none).close tcp_listener).0
      ≡ true)
    × (serve_loop 4 serving
          (ipc_ops none none (ok 7) none)
          ((ipc_ops none none (ok 7) none).close (ipc_listener, a_link)).0
        ≡ true)
    × ((Inproc.nobody inproc_listener.accepts ≡ false)
        ⊎ (serve_woken 3 serving
              (inproc_ops true 1)
              (gone 1 inproc_listener one_served)
              (woken true 1 inproc_listener one_served)
            ≡ true))
    × (((inproc_ops true 1).close one_served).0 ≡ gone 1 inproc_listener one_served)
    × (serve_loop 3 serving (inproc_ops true 1) ((inproc_ops true 1).close one_served).0 ≡ false)
unfolding lookup
serve_after_close_example =
    serve_after_close 3 serving settled tcp_opts none none none (ok 7) tcp_listener ipc_listener
      a_link true 1 inproc_listener one_served refl refl refl refl
