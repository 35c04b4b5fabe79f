-- ===== src/Message/Receive.antt =====
-- message/message.go: NewMessageFromMsg, NewMessageFromBytes, NewMessageFromReader and
-- NewRawRecvMessage. `alloc` is bytespool.Alloc. An early return drops the message it began.
pub mod Parts
pub mod Laws
pub mod Bytes
pub mod Faults
pub mod Framing
pub mod Direct
pub mod Agree
use multisocket.Prelude.{
  ℕ, zero, suc, ◌+◌, ◌-◌, ◌*◌, ◌<◌, ◌≡◌, Bool, true, false, not, Option, none, some, List, [], ◌∷◌,
  ◌++◌, length, take, drop, bit_or, ◌==◌, ltb, leb, ◌&&◌, if◌then◌else◌,
}
use multisocket.Prelude.Bytes.{u8, u32, put_u32, copy_at}
use multisocket.Errs.{
  Err, Outcome, ok, err, panic, bounds, guard, ◌>>=◌, ◌>>◌, bad_msg, content_too_long, eof,
  unexpected_eof,
}
use multisocket.Message.{
  Meta, Message, Region, region, meta_size, send_type, send_type_to_dest, decode_meta_from,
  bytes_of, msg_flag_raw, send_type_to_one,
}

abbrev pub to_dest : Meta → Bool
to_dest m = send_type m == send_type_to_dest

-- `maxLength != 0 && meta.Length > maxLength`
abbrev pub too_long : ℕ → Meta → Bool
too_long max_length m = not (max_length == 0) && ltb max_length m.content_length

-- `4 * int(meta.Hops+1)`: the sum wraps before the conversion.
abbrev pub source_size : Meta → ℕ
source_size m = 4 * u8 (m.hops + 1)

abbrev pub dest_size : Meta → ℕ
dest_size m = if to_dest m then 4 * u8 (m.distance + 255) else 4 * m.distance

-- `meta.TTL--`, `meta.Hops++`, and `meta.Distance--` if the message goes to a destination.
abbrev pub next_meta : Meta → Meta
next_meta m = record m {
  ttl = u8 (m.ttl + 255);
  hops = u8 (m.hops + 1);
  distance = if to_dest m then u8 (m.distance + 255) else m.distance;
}

-- `buf[n:]`
abbrev pub tail_from : List ℕ → ℕ → Outcome (List ℕ)
tail_from buf n = do bounds (leb n (length buf)); ok (drop n buf)

abbrev pub cut : Bool → List ℕ → ℕ → Outcome (List ℕ)
cut b buf n = if b then tail_from buf n else ok buf

-- `if destSize > 0 { msg.Destination = msg.buf[from:to:to] }`
abbrev pub dest_region : ℕ → ℕ → Option Region
dest_region size from = if ltb 0 size then region from (from + size) else none

-- The offsets of the parts in the new buffer.
abbrev pub source_end : Meta → ℕ
source_end m = meta_size + source_size m

abbrev pub content_start : Meta → ℕ
content_start m = source_end m + dest_size m

abbrev pub content_end : Meta → ℕ
content_end m = content_start m + m.content_length

abbrev pub received : Meta → List ℕ → Message
received m buf = record {
  buf = buf;
  meta = next_meta m;
  source = region meta_size (source_end m);
  destination = dest_region (dest_size m) (source_end m);
  content = region (content_start m) (content_end m);
}

-- The destination is written only if it has a size.
abbrev pub copy_dest : ℕ → List ℕ → ℕ → List ℕ → List ℕ
copy_dest size buf from src = if ltb 0 size then copy_at buf from (from + size) src else buf

-- The new buffer with the source and, in front of it, the id of the receiving pipe.
abbrev pub with_source : (ℕ → List ℕ) → ℕ → Meta → List ℕ → List ℕ
with_source alloc pid m in_source =
    let buf1 = copy_at (alloc (content_end m)) (meta_size + 4) (source_end m) in_source in
    copy_at buf1 meta_size (meta_size + 4) (put_u32 pid)

-- The same with the destination and the content.
abbrev pub with_rest : Meta → List ℕ → List ℕ → List ℕ → List ℕ
with_rest m buf in_dest in_content =
    let buf3 = copy_dest (dest_size m) buf (source_end m) in_dest in
    copy_at buf3 (content_start m) (content_end m) in_content

-- What NewMessageFromBytes does once the lengths are checked; `body` is the input behind the meta data.
unfoldable pub copy_body : (ℕ → List ℕ) → ℕ → Meta → List ℕ → Outcome Message
copy_body alloc pid m body = do
  -- msg.Source[4:sourceSize]
  bounds (leb 4 (source_size m))
  after_source ← tail_from body (source_size m - 4)
  at_dest ← cut (to_dest m) after_source 4
  at_content ← cut (ltb 0 (dest_size m)) at_dest (dest_size m)
  ok (received m (with_rest m (with_source alloc pid m body) at_dest at_content))

unfoldable pub new_message_from_bytes : (ℕ → List ℕ) → ℕ → List ℕ → ℕ → Outcome Message
unfolding copy_body
new_message_from_bytes alloc pid buf max_length = do
  guard (leb meta_size (length buf)) bad_msg
  m ← decode_meta_from buf
  let body = drop meta_size buf
  guard (not (too_long max_length m)) content_too_long
  guard (length body == 4 * u8 (m.hops + m.distance) + m.content_length) bad_msg
  copy_body alloc pid m body

-- From a message that the peer handed over. The destination is copied from itself:
-- `copy(msg.Destination, msg.Destination[4:])`. Its slice has the capacity to take `[4:]` of.
unfoldable pub new_message_from_msg : (ℕ → List ℕ) → ℕ → Message → ℕ → Outcome Message
new_message_from_msg alloc pid src max_length = do
  let m = src.meta
  guard (not (too_long max_length m)) content_too_long
  bounds (leb 4 (source_size m))
  let buf = with_source alloc pid m (bytes_of src.buf src.source)
  let own = bytes_of buf (region (source_end m + 4) (content_start m))
  ok (received m (with_rest m buf own (bytes_of src.buf src.content)))

-- A reader: the bytes that will still arrive, and the error that follows them.
pub record Reader : Type 0 where
  pub bytes : List ℕ
  pub end : Err

-- io.ReadFull: `n` bytes, or the reader's error; io.EOF in the middle is io.ErrUnexpectedEOF.
-- Reading nothing succeeds at once.
abbrev pub short_err : List ℕ → Err → Err
short_err (b ∷ bs) eof = unexpected_eof
short_err got e = e

unfoldable pub read_full : Reader → ℕ → Outcome (List ℕ × Reader)
read_full r n =
    if leb n (length r.bytes)
    then ok (take n r.bytes, record r { bytes = drop n r.bytes })
    else err (short_err r.bytes r.end)

-- io.CopyN(ioutil.Discard, r, n): a short read gives the reader's own error.
unfoldable pub discard : Reader → ℕ → Outcome Reader
discard r n = if leb n (length r.bytes) then ok (record r { bytes = drop n r.bytes }) else err r.end

-- Nothing is checked but the content's length; `metaBuf` has eight bytes.
unfoldable pub new_message_from_reader : (ℕ → List ℕ) → ℕ → Reader → ℕ → Outcome (Message × Reader)
unfolding read_full discard
new_message_from_reader alloc pid r max_length = do
  (meta_buf, r1) ← read_full r meta_size
  m ← decode_meta_from meta_buf
  guard (not (too_long max_length m)) content_too_long
  bounds (leb 4 (source_size m))
  (in_source, r2) ← read_full r1 (source_size m - 4)
  r3 ← (if to_dest m then discard r2 4 else ok r2)
  (in_dest, r4) ← (if ltb 0 (dest_size m) then read_full r3 (dest_size m) else ok ([], r3))
  (in_content, r5) ← read_full r4 m.content_length
  ok (received m (with_rest m (with_source alloc pid m in_source) in_dest in_content), r5)

-- `content` is `none` for nil, which stands for the end of the peer's stream. The meta data starts
-- with a TTL of 0, which wraps.
unfoldable pub new_raw_recv_message : (ℕ → List ℕ) → ℕ → Option (List ℕ) → Message
new_raw_recv_message alloc pid none = record {
  buf = copy_at (alloc (meta_size + 4)) meta_size (meta_size + 4) (put_u32 pid);
  meta = record {
    flags = bit_or msg_flag_raw send_type_to_one;
    ttl = u8 (0 + 255);
    hops = u8 (0 + 1);
    distance = 0;
    content_length = 0;
  };
  source = region meta_size (meta_size + 4);
  destination = none;
  content = none;
}
new_raw_recv_message alloc pid (some content) = record {
  buf =
      copy_at (copy_at (alloc (meta_size + 4 + n)) meta_size (meta_size + 4) (put_u32 pid))
        (meta_size + 4) (meta_size + 4 + n) content;
  meta = record {
    flags = bit_or msg_flag_raw send_type_to_one;
    ttl = u8 (0 + 255);
    hops = u8 (0 + 1);
    distance = 0;
    content_length = n;
  };
  source = region meta_size (meta_size + 4);
  destination = none;
  content = region (meta_size + 4) (meta_size + 4 + n);
}
  where
    n : ℕ
    n = u32 (length content)
