-- ===== src/Message.antt =====
-- message/message.go: messages, their flags, their meta data on the wire, paths and buffers.
pub mod Flags
pub mod Wire
pub mod Receive
pub mod Send
use multisocket.Prelude.{
  ℕ, zero, suc, ◌+◌, ◌*◌, ◌/◌, ◌%◌, ◌^◌, ◌<◌, ◌≡◌, Bool, true, false, not, Option, none, some, List,
  [], ◌∷◌, ◌++◌, length, take, drop, bit_and, bit_or, ◌==◌, ltb, if◌then◌else◌,
}
use multisocket.Prelude.Bytes.{u8, u32, get_u32, put_u32, slice, copy_at}
use multisocket.Errs.{Err, Outcome, ok, err, panic, bounds}
use Prim.Native.Nat.{bit_xor}

pub record Meta : Type 0 where
  pub flags : ℕ
  pub ttl : ℕ
  pub hops : ℕ
  pub distance : ℕ
  pub content_length : ℕ

-- Every field fits its Go type.
pub record IsMeta (m : Meta) : Type 0 where
  pub flags_fit : m.flags < 256
  pub ttl_fits : m.ttl < 256
  pub hops_fit : m.hops < 256
  pub distance_fits : m.distance < 256
  pub length_fits : m.content_length < 2 ^ 32

-- A sub-slice `buf[from:to]` of a message's buffer; `none` is Go's nil.
pub record Region : Type 0 where
  pub from : ℕ
  pub to : ℕ

-- Source, Destination and Content are slices of `buf`, which holds room for the meta data in front.
pub record Message : Type 0 where
  pub buf : List ℕ
  pub meta : Meta
  pub source : Option Region
  pub destination : Option Region
  pub content : Option Region

abbrev pub default_msg_ttl : ℕ
default_msg_ttl = 16

abbrev pub meta_size : ℕ
meta_size = 8

abbrev pub send_type_to_one : ℕ
send_type_to_one = 0

abbrev pub send_type_to_all : ℕ
send_type_to_all = 1

abbrev pub send_type_to_dest : ℕ
send_type_to_dest = 2

abbrev pub send_type_mask : ℕ
send_type_mask = 0x03

abbrev pub flags_mask : ℕ
flags_mask = bit_xor 0xff send_type_mask

-- `1 << (iota + 2)`, where iota is the line's place in the block.
abbrev pub msg_flag_internal : ℕ
msg_flag_internal = 4

abbrev pub msg_flag_no_source : ℕ
msg_flag_no_source = 8

abbrev pub msg_flag_raw : ℕ
msg_flag_raw = 16

abbrev pub msg_flag_control : ℕ
msg_flag_control = 32

abbrev pub empty_meta : Meta
empty_meta = record { flags = 0; ttl = default_msg_ttl; hops = 0; distance = 0; content_length = 0 }

unfoldable pub send_type : Meta → ℕ
send_type m = bit_and m.flags send_type_mask

unfoldable pub has_flags : Meta → ℕ → Bool
has_flags m flags = bit_and m.flags flags == flags

unfoldable pub has_any_flags : Meta → Bool
has_any_flags m = not (bit_and m.flags flags_mask == 0)

-- The result leaves `m` as it is: the method returns the flags.
unfoldable pub clear_flags : Meta → ℕ → ℕ
clear_flags m flags = bit_and m.flags (bit_xor flags 0xff)

-- encodeTo writes these eight bytes over the front of the buffer.
unfoldable pub encode_meta : Meta → List ℕ
encode_meta m = m.flags ∷ m.ttl ∷ m.hops ∷ m.distance ∷ put_u32 m.content_length

-- A slice shorter than eight bytes makes decodeMetaFrom panic.
unfoldable pub decode_meta_from : List ℕ → Outcome Meta
decode_meta_from (f ∷ t ∷ h ∷ d ∷ a ∷ b ∷ c ∷ e ∷ rest) = ok (record {
  flags = f;
  ttl = t;
  hops = h;
  distance = d;
  content_length = get_u32 (a ∷ b ∷ c ∷ e ∷ []);
})
decode_meta_from _ = panic

-- MsgPath: a list of bytes, four to a pipe id.
unfoldable pub path_length : List ℕ → ℕ
path_length path = u8 (length path / 4)

unfoldable pub cur_id : List ℕ → Outcome ℕ
cur_id path = if ltb (length path) 4 then panic else ok (get_u32 path)

unfoldable pub next_id : List ℕ → Outcome (ℕ × List ℕ)
next_id path = if ltb (length path) 4 then panic else ok (get_u32 path, drop 4 path)

-- The bytes of a slice of the buffer.
unfoldable pub bytes_of : List ℕ → Option Region → List ℕ
bytes_of buf none = []
bytes_of buf (some r) = slice buf r.from r.to

abbrev pub region : ℕ → ℕ → Option Region
region from to = some (record { from = from; to = to })

-- encodeTo panics on a nil buffer, that of a message that was freed.
unfoldable pub encode : Message → Outcome (List ℕ)
encode msg =
    if ltb (length msg.buf) meta_size
    then panic
    else ok (encode_meta msg.meta ++ drop meta_size msg.buf)

-- Encode writes the meta data into the buffer, so a later Dup copies it too.
unfoldable pub dup : (ℕ → List ℕ) → Message → Message
dup alloc msg = record {
  buf = copy_at (alloc (length msg.buf)) 0 (length msg.buf) msg.buf;
  meta = msg.meta;
  source = region meta_size source_end;
  destination = region source_end dest_end;
  content = region dest_end (dest_end + msg.meta.content_length);
}
  where
    source_end : ℕ
    source_end = meta_size + 4 * msg.meta.hops

    dest_end : ℕ
    dest_end = source_end + 4 * msg.meta.distance

-- Free leaves the struct that goes back to the pool empty.
abbrev pub free_msg : Message
free_msg = record { buf = []; meta = empty_meta; source = none; destination = none; content = none }

pub data FreeLevel : Type 0 where
  free_all free_msg_only free_none : FreeLevel

-- What a message's owner sees of it.
pub record View : Type 0 where
  pub meta : Meta
  pub source : List ℕ
  pub destination : List ℕ
  pub content : List ℕ

unfoldable pub view : Message → View
unfolding bytes_of
view msg = record {
  meta = msg.meta;
  source = bytes_of msg.buf msg.source;
  destination = bytes_of msg.buf msg.destination;
  content = bytes_of msg.buf msg.content;
}

unfoldable pub pipe_id : Message → Outcome ℕ
unfolding cur_id bytes_of
pipe_id msg = cur_id (bytes_of msg.buf msg.source)
