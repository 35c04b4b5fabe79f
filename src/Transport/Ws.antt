-- ===== src/Transport/Ws.antt =====
-- transport/ws/ws.go: websocket connections and listeners. A websocket is what github.com/gorilla/
-- websocket makes of it: messages, each read through an io.Reader of its own.
pub mod Stream
pub mod Listener
pub mod Dial
use multisocket.Prelude.{
  ℕ, zero, suc, ◌+◌, Bool, true, false, Option, none, some, List, [], ◌∷◌, ◌++◌, length, take, drop,
  min, leb, if◌then◌else◌, ◌==◌, ◌&&◌,
}
use multisocket.Errs.{Err, Outcome, ok, err, eof}

-- A message that comes in: its bytes, and the error that breaks it off behind them, if any.
pub record Incoming : Type 0 where
  pub bytes : List ℕ
  pub broken : Option Err

-- The messages that will still come, the error of NextReader behind them, the rest of the message that
-- is being read, and the buffer that Recv has handed out. `put_back` are the buffers that went back to
-- the pool, by what they held before; `pool` is the pool, by what its buffers hold.
pub record WsConn : Type 0 where
  pub messages : List Incoming
  pub end : Err
  pub r : Option Incoming
  pub last_buf : Option (List ℕ)
  pub put_back : List (List ℕ)
  pub pool : List (List ℕ)

-- What an io.Reader may do in one Read of n bytes: it gives up to `give` bytes more than one, and
-- `early` says that it reports the end together with the last bytes.
pub record Chunk : Type 0 where
  pub give : ℕ
  pub early : Bool

-- The bytes, the error, and the rest of the message.
abbrev pub ending : Incoming → Err
ending m = elim (m.broken) [ none ↦ eof | some e ↦ e ]

abbrev pub size_of : Chunk → ℕ → ℕ
size_of c n = min n (suc c.give)

abbrev pub at_end : Bool → List ℕ → Err → Option Err
at_end early [] e = if early then some e else none
at_end early (b ∷ bs) e = none

abbrev pub reader_read : Chunk → ℕ → Incoming → List ℕ → List ℕ × Option Err × Incoming
reader_read c n m [] = ([], some (ending m), m)
reader_read c n m (b ∷ bs) =
    let rest = drop (size_of c n) (b ∷ bs) in
    (take (size_of c n) (b ∷ bs), at_end c.early rest (ending m), record m { bytes = rest })

pub data Read : Type 0 where
  got : List ℕ → WsConn → Read
  failed : List ℕ → Err → WsConn → Read

abbrev pub is_eof : Err → Bool
is_eof eof = true
is_eof e = false

-- At the end of a message, Read goes on with the next one if it has no bytes yet; `next` is that call.
abbrev pub after_end : WsConn → Read → Bool → List ℕ → Err → Incoming → Read
after_end c next true [] e m = next
after_end c next true (b ∷ bs) e m = got (b ∷ bs) (record c { r = none })
after_end c next false bs e m = failed bs e (record c { r = some m })

abbrev pub after_reader : WsConn → Read → List ℕ × Option Err × Incoming → Read
after_reader c next (bs, none, m) = got bs (record c { r = some m })
after_reader c next (bs, some e, m) = after_end c next (is_eof e) bs e m

-- Read without a message at hand, over the messages that come.
unfoldable pub read_next : Chunk → ℕ → WsConn → List Incoming → Read
read_next k n c [] = failed [] c.end (record c { messages = []; r = none })
read_next k n c (m ∷ ms) =
    after_reader (record c { messages = ms }) (read_next k n c ms) (reader_read k n m m.bytes)

abbrev pub read_from : Chunk → ℕ → WsConn → Option Incoming → Read
read_from k n c none = read_next k n c c.messages
read_from k n c (some m) = after_reader c (read_next k n c c.messages) (reader_read k n m m.bytes)

unfoldable pub read : Chunk → ℕ → WsConn → Read
unfolding read_next
read k n c = read_from k n c c.r

-- Recv. The buffer that was handed out is emptied before it goes back to the pool. Get takes some
-- buffer of the pool, which `pick` chooses, or makes a new one, and io.Copy writes behind what it holds.
-- What io.Copy answers is not looked at.
abbrev pub reset_buf : List ℕ → List ℕ
reset_buf b = []

abbrev pub put_last : Option (List ℕ) → WsConn → WsConn
put_last none c = c
put_last (some b) c = record c {
  last_buf = none;
  put_back = c.put_back ++ (b ∷ []);
  pool = reset_buf b ∷ c.pool;
}

abbrev pub get_buf : ℕ → List (List ℕ) → List ℕ × List (List ℕ)
get_buf pick [] = ([], [])
get_buf zero (b ∷ bs) = (b, bs)
get_buf (suc pick) (b ∷ bs) = let rest = get_buf pick bs in (rest.0, b ∷ rest.1)

abbrev pub copied :
    WsConn → Incoming → List Incoming → List ℕ × List (List ℕ) → Outcome (List ℕ) × WsConn
copied c m ms (old, pool) = (
  ok (old ++ m.bytes),
  record c {
    messages = ms;
    r = some (record m { bytes = [] });
    last_buf = some (old ++ m.bytes);
    pool = pool;
  },
)

abbrev pub recv_next : ℕ → WsConn → List Incoming → Outcome (List ℕ) × WsConn
recv_next pick c [] = (err c.end, record c { r = none })
recv_next pick c (m ∷ ms) = copied c m ms (get_buf pick c.pool)

unfoldable pub recv : ℕ → WsConn → Outcome (List ℕ) × WsConn
recv pick c = recv_next pick (put_last c.last_buf c) (put_last c.last_buf c).messages

-- Write and Send, by what WriteMessage answers: Write counts all bytes as written, whatever comes.
unfoldable pub write : List ℕ → Option Err → ℕ × Option Err
write b answer = (length b, answer)

unfoldable pub send : List ℕ → Option Err → Option Err
send b answer = answer
