-- ===== src/Message/Send.antt =====
-- message/message.go: NewSendMessage.
pub mod Laws
pub mod Route
pub mod Reply
use multisocket.Prelude.{
  ℕ, zero, suc, ◌+◌, Bool, true, false, Option, none, some, List, [], ◌∷◌, length, bit_or, ◌==◌,
  ltb, if◌then◌else◌,
}
use multisocket.Prelude.Bytes.{u32, copy_at}
use multisocket.Message.{Meta, Message, Region, region, meta_size, default_msg_ttl, path_length}

-- `if size > 0 { part = buf[from:to]; copy(part, src) }`
abbrev pub put_part : List ℕ → ℕ → List ℕ → List ℕ
put_part buf from src = if ltb 0 (length src) then copy_at buf from (from + length src) src else buf

abbrev pub part_region : ℕ → ℕ → Option Region
part_region from size = if ltb 0 size then region from (from + size) else none

-- `src` and `dest` may be nil, which is []; `alloc` is bytespool.Alloc.
unfoldable pub new_send_message : (ℕ → List ℕ) → ℕ → ℕ → ℕ → List ℕ → List ℕ → List ℕ → Message
unfolding path_length
new_send_message alloc flags send_type ttl src dest content =
    let source_end = meta_size + length src in
    let dest_end = source_end + length dest in
    let content_end = dest_end + length content in
    let buf1 = put_part (alloc content_end) meta_size src in
    let buf2 = put_part buf1 source_end dest in
    record {
      buf = copy_at buf2 dest_end content_end content;
      meta = record {
        flags = bit_or flags send_type;
        ttl = if ttl == 0 then default_msg_ttl else ttl;
        hops = path_length src;
        distance = path_length dest;
        content_length = u32 (length content);
      };
      source = part_region meta_size (length src);
      destination = part_region source_end (length dest);
      content = region dest_end content_end;
    }
