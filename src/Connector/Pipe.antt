-- ===== src/Connector/Pipe.antt =====
-- connector/pipe.go: a pipe, which encodes and decodes messages on a connection.
pub mod Laws
use multisocket.Prelude.{
  ℕ, zero, suc, ◌+◌, ◌≡◌, Bool, true, false, not, Option, none, some, List, [], ◌∷◌, length, take,
  leb, ltb, ◌&&◌, if◌then◌else◌,
}
use multisocket.Errs.{Err, Outcome, ok, err, panic, ◌>>=◌, closed, eof, unexpected_eof}
use multisocket.Message.{
  Message, FreeLevel, free_all, free_msg_only, free_none, has_flags, has_any_flags, msg_flag_raw,
  encode, bytes_of,
}
use multisocket.Message.Receive.{
  new_message_from_bytes, new_message_from_msg, new_raw_recv_message, new_message_from_reader,
  Reader,
}

-- What the raw connection can do, by the interfaces that newPipe asks it for: a stream, packets, or
-- whole messages.
pub data Conn : Type 0 where
  stream send_receiver msg_send_receiver : Conn

-- The functions that newPipe sets, by name.
pub data Mode : Type 0 where
  raw_stream raw_block direct block stream_msg : Mode

pub record Pipe : Type 0 where
  pub id : ℕ
  pub raw : Bool
  pub mode : Mode
  pub msg_free_level : FreeLevel
  pub close_on_eof : Bool
  pub max_recv_content_length : ℕ
  pub is_closed : Bool

-- Raw pipes do not ask for whole messages.
abbrev pub mode_of : Bool → Conn → Mode
mode_of true stream = raw_stream
mode_of true send_receiver = raw_block
mode_of true msg_send_receiver = raw_stream
mode_of false stream = stream_msg
mode_of false send_receiver = block
mode_of false msg_send_receiver = direct

-- `in_channel`: the scheme of the transport begins with "inproc.channel".
abbrev pub free_level_of : Bool → Conn → Bool → FreeLevel
free_level_of raw conn false = free_all
free_level_of true conn true = free_msg_only
free_level_of false msg_send_receiver true = free_none
free_level_of false conn true = free_msg_only

unfoldable pub new_pipe : ℕ → Bool → Conn → Bool → Bool → ℕ → Pipe
new_pipe id raw conn in_channel close_on_eof max_length = record {
  id = id;
  raw = raw;
  mode = mode_of raw conn;
  msg_free_level = free_level_of raw conn in_channel;
  close_on_eof = close_on_eof;
  max_recv_content_length = if raw then 0 else max_length;
  is_closed = false;
}

-- Close, the part under the lock: `true` goes on to close the connection, to remove the pipe from its
-- connector and to give its id back.
unfoldable pub close : Pipe → Pipe × Outcome Bool
close p = if p.is_closed then (p, err closed) else (record p { is_closed = true }, ok true)

-- What becomes of an error other than the end of the stream: the pipe is closed, and the error is
-- replaced if it was closed already.
abbrev pub fail : Pipe → Err → Pipe × Outcome (List ℕ)
fail p e = if p.is_closed then (p, err closed) else (record p { is_closed = true }, err e)

abbrev pub at_eof : Pipe → List ℕ → Pipe × Outcome (List ℕ)
at_eof p [] = if p.close_on_eof then (record p { is_closed = true }, err closed) else (p, err eof)
at_eof p (b ∷ bs) = (p, ok (b ∷ bs))

-- Read and recv: `got` and `error` are the answer of the connection; the end of the stream behind some
-- bytes is reported with the next call.
unfoldable pub receive : Pipe → List ℕ → Option Err → Pipe × Outcome (List ℕ)
receive p got none = (p, ok got)
receive p got (some eof) = at_eof p got
receive p got (some e) = fail p e

-- Write, send and Writev: the error of the connection, if any.
unfoldable pub write : Pipe → Option Err → Pipe × Option Err
write p none = (p, none)
write p (some e) = if p.is_closed then (p, some closed) else (record p { is_closed = true }, some e)

-- What SendMsg hands to the connection: nothing, bytes, or the message itself.
pub data Sent : Type 0 where
  ignored : Sent
  bytes : List ℕ → Sent
  message : Message → Sent

abbrev pub encoded : Message → Outcome Sent
encoded msg =
    if has_flags msg.meta msg_flag_raw then ok ignored else (encode msg >>= λ b. ok (bytes b))

abbrev pub content_sent : Message → Sent
content_sent msg = if has_any_flags msg.meta then ignored else bytes (bytes_of msg.buf msg.content)

unfoldable pub send_msg : Pipe → Message → Outcome Sent
send_msg p msg = elim (p.mode) [
  | stream_msg ↦ encoded msg
  | block ↦ encoded msg
  | raw_stream ↦ ok (content_sent msg)
  | raw_block ↦ ok (content_sent msg)
  | direct ↦ ok (message msg)
]

-- recvBlockMsg, after recv.
abbrev pub from_packet : (ℕ → List ℕ) → Pipe → Outcome (List ℕ) → Outcome Message
from_packet alloc p (ok buf) = new_message_from_bytes alloc p.id buf p.max_recv_content_length
from_packet alloc p (err e) = err e
from_packet alloc p panic = panic

unfoldable pub recv_block_msg : (ℕ → List ℕ) → Pipe → List ℕ → Option Err → Pipe × Outcome Message
unfolding receive
recv_block_msg alloc p got error =
    let r = receive p got error in (r.0, from_packet alloc (r.0) (r.1))

-- recvRawMsg and recvBlockRawMsg: a message and an error. The end of the stream, on a pipe that stays
-- open, is a message with a nil content beside the error.
abbrev pub from_raw : (ℕ → List ℕ) → ℕ → Outcome (List ℕ) → Option Message × Option Err
from_raw alloc id (ok got) = (some (new_raw_recv_message alloc id (some got)), none)
from_raw alloc id (err eof) = (some (new_raw_recv_message alloc id none), some eof)
from_raw alloc id (err e) = (none, some e)
from_raw alloc id panic = (none, none)

unfoldable pub recv_raw_msg :
    (ℕ → List ℕ) → Pipe → List ℕ → Option Err → Pipe × (Option Message × Option Err)
unfolding receive
recv_raw_msg alloc p got error = let r = receive p got error in (r.0, from_raw alloc p.id (r.1))

-- recvDirectMsg: `answer` is what the connection's RecvMsg gives.
unfoldable pub recv_direct_msg : (ℕ → List ℕ) → Pipe → Outcome Message → Outcome Message
recv_direct_msg alloc p answer =
    answer >>= λ src. new_message_from_msg alloc p.id src p.max_recv_content_length

-- An error of Read, or a content that is too long, leaves the pipe closed; only the end of the stream
-- leaves it open.
abbrev pub after_read {ℓ} : {A : Type ℓ} → Pipe → Outcome A → Pipe
after_read p (ok a) = p
after_read p (err eof) = p
after_read p (err unexpected_eof) = p
after_read p (err e) = record p { is_closed = true }
after_read p panic = p

-- recvMsg, on the bytes that the pipe's Read will still give, with the error that Read gives behind
-- them: io.EOF only if the option CloseOnEOF is off.
unfoldable pub recv_msg : (ℕ → List ℕ) → Pipe → Reader → Pipe × Outcome (Message × Reader)
recv_msg alloc p r =
    let answer = new_message_from_reader alloc p.id r p.max_recv_content_length in
    (after_read p answer, answer)
