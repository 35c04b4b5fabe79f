-- ===== src/Message/Receive/Bytes.antt =====
-- message/message.go: NewMessageFromBytes on a well-formed message.
use mathlib.Core.List.{append_assoc}
use multisocket.Prelude.{
  ℕ, ◌+◌, ◌*◌, ◌<◌, ◌≡◌, refl, ap, sym, ◌∙◌, true, not, List, [], ◌++◌, length, take, drop,
  length-append, drop-append, take-append-drop, arith, leb, ◌==◌, if◌then◌else◌, Bool-cases, inl,
  inr, le→leb, length-take, length-drop, ==_iff,
}
use multisocket.Prelude.Bytes.{u8, put_u32}
use multisocket.Bytespool.{alloc, IsHanded}
use multisocket.Bytespool.Laws.{length-alloc}
use multisocket.Errs.{ok, guard, ◌>>◌, bad_msg, content_too_long}
use multisocket.Message.{View, Message, meta_size, encode_meta, decode_meta_from, view, encode}
use multisocket.Message.Wire.{wire, length-encode_meta, decode-encode_meta, frame, frame_of}
use multisocket.Message.Receive.{
  to_dest, too_long, source_size, dest_size, next_meta, content_end, received, copy_body,
  new_message_from_bytes,
}
use multisocket.Message.Receive.Parts.{ok_then, advance, IsReceivable}
use multisocket.Message.Receive.Laws.{received-view, received-encode, copy_body-parts}

-- The destination is what is cut off and what is kept.
pub record Split (pid : ℕ) (v : View) : Type 0 where
  pub skip : List ℕ
  pub kept : List ℕ
  pub whole : v.destination ≡ skip ++ kept
  pub skipped : length skip ≡ (if to_dest v.meta then 4 else 0)
  pub sized : dest_size v.meta ≡ length kept
  pub is_next : kept ≡ (advance pid v).destination

pub split_dest : (pid max_length : ℕ) (v : View) → IsReceivable max_length v → Split pid v
split_dest pid max_length v r = elim (Bool-cases (to_dest v.meta)) [
  | inl e ↦ record {
    skip = take 4 v.destination;
    kept = drop 4 v.destination;
    whole = sym (take-append-drop 4 v.destination);
    skipped = rw e (omega (arith, length-take 4 v.destination, count, r.has_destination e));
    sized = rw e (omega (arith, length-drop 4 v.destination, count, fits, r.has_destination e));
    is_next = rw e;
  }
  | inr e ↦ record {
    skip = [];
    kept = v.destination;
    whole = refl;
    skipped = rw e;
    sized = rw e (sym count);
    is_next = rw e;
  }
]
  where
    count : length v.destination ≡ 4 * v.meta.distance
    count = r.is_view.distance_count

    fits : v.meta.distance < 256
    fits = r.is_view.meta_fits.distance_fits

pub next_meta_lem :
    (pid max_length : ℕ) (v : View)
    → IsReceivable max_length v
    → next_meta v.meta ≡ (advance pid v).meta
next_meta_lem pid max_length v r =
    let h = r.hops_fit in
    let t = r.is_view.meta_fits.ttl_fits in
    let d = r.is_view.meta_fits.distance_fits in
    let k = r.has_destination in ground (arith, h, t, d, k)

pub source_size_lem :
    (max_length : ℕ) (v : View)
    → IsReceivable max_length v
    → source_size v.meta ≡ 4 + length v.source
source_size_lem max_length v r = omega (arith, r.hops_fit, r.is_view.hops_count)

-- The message that is received from any buffer of the right length.
module _ (get : ℕ → List ℕ) (pid max_length : ℕ) (v : View) (handed : IsHanded get)
    (r : IsReceivable max_length v) where
  unfoldable pub split : Split pid v
  split = split_dest pid max_length v r

  pub room :
      (h p s d c : List ℕ) × (alloc get (content_end v.meta) ≡ frame h p s d c)
      × (length h ≡ 8)
      × (length p ≡ 4)
      × (length s ≡ length v.source)
      × (length d ≡ length (split.kept))
      × (length c ≡ length v.content)
  room =
      frame_of (alloc get (content_end v.meta)) (length v.source) (length (split.kept))
        (length v.content)
        (length-alloc get (content_end v.meta) handed
          ∙ omega (arith, source_size_lem max_length v r, split.sized, r.is_view.content_count))

  unfoldable pub result : Message
  result = received v.meta (frame (room.0) (put_u32 pid) v.source (split.kept) v.content)

  pub result-view : view result ≡ advance pid v
  unfolding result
  result-view =
      received-view v.meta pid (room.0) v.source (split.kept) v.content (room.6)
        (source_size_lem max_length v r) (split.sized) (sym r.is_view.content_count)
      ∙ (λ i. record {
        meta = next_meta_lem pid max_length v r i;
        source = put_u32 pid ++ v.source;
        destination = split.is_next i;
        content = v.content;
      })

  pub result-encode : encode result ≡ ok (wire (advance pid v))
  unfolding result
  result-encode =
      received-encode v.meta pid (room.0) v.source (split.kept) v.content (room.6)
        (source_size_lem max_length v r) (split.sized) (sym r.is_view.content_count)
      ∙ (λ i. ok (
          encode_meta (next_meta_lem pid max_length v r i)
          ++ (put_u32 pid ++ (v.source ++ (split.is_next i ++ v.content)))))
      ∙ ap (λ (b : List ℕ). ok (encode_meta ((advance pid v).meta) ++ b))
          (sym (append_assoc (put_u32 pid) v.source ((advance pid v).destination ++ v.content)))

  pub body_received :
      copy_body (alloc get) pid v.meta (v.source ++ (v.destination ++ v.content)) ≡ ok result
  unfolding result
  body_received =
      ap (λ (b : List ℕ). copy_body (alloc get) pid v.meta (v.source ++ b))
        (ap (λ (d : List ℕ). d ++ v.content) split.whole
          ∙ append_assoc split.skip split.kept v.content)
      ∙ copy_body-parts v.meta pid (room.0) v.source (split.kept) v.content (room.6) (alloc get)
          (room.1) (room.2) (room.3) (room.4) (room.5) (room.7) (room.8) (room.9) (room.10)
          (source_size_lem max_length v r) split.sized (sym r.is_view.content_count) split.skip
          split.skipped

  -- NewMessageFromBytes on the bytes of a well-formed message returns the message that `advance`
  -- describes: the id of the receiving pipe in front of the source, one hop more, one unit of the
  -- time to live less, one id less at the front of the destination of a message to a destination, the
  -- same content. Encoding what it returns gives the bytes of that message, whatever the pooled
  -- buffers held before. The two counts of the path may not wrap when they are added.
  pub new_message_from_bytes-wire :
      v.meta.hops + v.meta.distance < 256
      → (msg : Message) × (new_message_from_bytes (alloc get) pid (wire v) max_length ≡ ok msg)
        × (view msg ≡ advance pid v)
        × (encode msg ≡ ok (wire (advance pid v)))
  unfolding new_message_from_bytes
  new_message_from_bytes-wire sum = (result, runs, result-view, result-encode)
    where
      body : List ℕ
      body = v.source ++ (v.destination ++ v.content)

      rest : drop 8 (wire v) ≡ body
      rest = drop-append 8 (encode_meta v.meta) body (sym (length-encode_meta v.meta))

      long : leb 8 (length (wire v)) ≡ true
      long =
          le→leb 8 (length (wire v))
            (omega (arith, length-append (encode_meta v.meta) body, length-encode_meta v.meta))

      exact : (length body == 4 * u8 (v.meta.hops + v.meta.distance) + v.meta.content_length) ≡ true
      exact = (==_iff (length body) _).1 (
          omega (
            arith,
            length-append v.source (v.destination ++ v.content),
            length-append v.destination v.content,
            r.is_view.hops_count,
            r.is_view.distance_count,
            r.is_view.content_count,
            sum,
          ))

      runs : new_message_from_bytes (alloc get) pid (wire v) max_length ≡ ok result
      runs =
          ok_then (guard (leb meta_size (length (wire v))) bad_msg) _ (rw long)
          ∙ ok_then (decode_meta_from (wire v)) _
              (decode-encode_meta v.meta body r.is_view.meta_fits)
          ∙ ok_then (guard (not (too_long max_length v.meta)) content_too_long) _
              (rw (r.short_enough))
          ∙ ap
              (λ (b : List ℕ).
                guard (length b == 4 * u8 (v.meta.hops + v.meta.distance) + v.meta.content_length)
                  bad_msg
                >> copy_body (alloc get) pid v.meta b)
              rest
          ∙ ok_then
              (guard (length body == 4 * u8 (v.meta.hops + v.meta.distance) + v.meta.content_length)
                bad_msg)
              (λ _. copy_body (alloc get) pid v.meta body) (rw exact)
          ∙ body_received
