-- ===== src/Message/Receive/Agree.antt =====
-- message/message.go: NewMessageFromBytes beside NewMessageFromReader, on the same bytes.
use mathlib.Core.List.{append_assoc, append-nil}
use multisocket.Prelude.{
  ℕ, ◌+◌, ◌*◌, ◌<◌, ◌≤◌, ◌≡◌, refl, ap, sym, ◌∙◌, true, false, not, List, ◌++◌, length, arith, leb,
  ◌==◌, Bool-cases, ==_iff, inl, inr, ltb→lt, ltb, [],
}
use multisocket.Prelude.Bytes.{u8, split_at}
use multisocket.Bytespool.{alloc, IsHanded}
use multisocket.Errs.{Err, Outcome, ok, err, panic, guard, ◌>>=◌, bad_msg, content_too_long}
use multisocket.Message.{Meta, IsMeta, Message, View, encode_meta, decode_meta_from}
use multisocket.Message.Wire.{length-encode_meta, decode-encode_meta}
use multisocket.Message.Receive.{
  to_dest, too_long, source_size, copy_body, new_message_from_bytes, new_message_from_reader,
  Reader, read_full,
}
use multisocket.Message.Receive.Parts.{ok_then, IsReceivable}
use multisocket.Message.Receive.Bytes.{body_received}
use multisocket.Message.Receive.Faults.{after_meta}
use multisocket.Message.Receive.Framing.{reader, runs, read_full_lem}

-- The message that some meta data and the bytes that it counts are.
view_of :
    (m : Meta) (body : List ℕ)
    → IsMeta m
    → length body ≡ 4 * (m.hops + m.distance) + m.content_length
    → (source destination content : List ℕ) × (length source ≡ 4 * m.hops)
      × (length destination ≡ 4 * m.distance)
      × (length content ≡ m.content_length)
      × (body ≡ source ++ (destination ++ content))
view_of m body w e =
    let (s, r1, e1, l1, k1) =
      split_at (4 * m.hops) (4 * m.distance + m.content_length) body (omega (arith, e)) in
    let (d, c, e2, l2, k2) = split_at (4 * m.distance) m.content_length r1 k1 in
    (s, d, c, l1, l2, k2, e1 ∙ ap (◌++◌ s) e2)

module _ (get : ℕ → List ℕ) (pid max_length : ℕ) (handed : IsHanded get) (m : Meta)
    (body rest : List ℕ) (end : Err) (w : IsMeta m)
    (exact : length body ≡ 4 * (m.hops + m.distance) + m.content_length)
    (sum : m.hops + m.distance < 256) where
  -- NewMessageFromBytes past its checks on the lengths.
  whole_body :
      too_long max_length m ≡ false
      → new_message_from_bytes (alloc get) pid (encode_meta m ++ body) max_length
        ≡ copy_body (alloc get) pid m body
  whole_body fits =
      after_meta (alloc get) pid max_length m body w
      ∙ ok_then (guard (not (too_long max_length m)) content_too_long) _ (rw fits)
      ∙ ok_then (guard (length body == 4 * u8 (m.hops + m.distance) + m.content_length) bad_msg) _ (
          rw (
            (==_iff (length body) (4 * u8 (m.hops + m.distance) + m.content_length)).1
              (omega (arith, exact, sum))))

  -- NewMessageFromReader past the meta data.
  header_read :
      (next : Meta → Outcome (Message × Reader))
      → (do meta_buf ← ok (encode_meta m); n ← decode_meta_from meta_buf; next n) ≡ next m
  header_read next =
      ok_then (decode_meta_from (encode_meta m)) _
        (ap decode_meta_from (sym (append-nil (encode_meta m))) ∙ decode-encode_meta m [] w)

  both_receive :
      too_long max_length m ≡ false
      → m.hops < 255
      → (to_dest m ≡ true → 1 ≤ m.distance)
      → new_message_from_reader
          (alloc get)
          pid
          (reader (encode_meta m ++ (body ++ rest)) end)
          max_length
        ≡ (new_message_from_bytes (alloc get) pid (encode_meta m ++ body) max_length >>= λ msg.
            ok (msg, reader rest end))
  both_receive fits h t =
      let (s, d, c, ls, ld, lc, parts) = view_of m body w exact in
      let v : View = record { meta = m; source = s; destination = d; content = c } in
      let r : IsReceivable max_length v = record {
        is_view = record {
          meta_fits = w;
          hops_count = ls;
          distance_count = ld;
          content_count = lc;
        };
        hops_fit = h;
        has_destination = t;
        short_enough = fits;
      } in
      ap (λ (b : List ℕ). new_message_from_reader (alloc get) pid (reader b end) max_length)
        (sym (append_assoc (encode_meta m) body rest)
          ∙ ap (λ (b : List ℕ). (encode_meta m ++ b) ++ rest) parts)
      ∙ runs get pid max_length v handed r rest end
      ∙ sym (
          ok_then (new_message_from_bytes (alloc get) pid (encode_meta m ++ body) max_length) _ (
            whole_body fits
            ∙ ap (copy_body (alloc get) pid m) parts
            ∙ body_received get pid max_length v handed r))

  both_panic :
      too_long max_length m ≡ false
      → m.hops ≡ 255
      → new_message_from_reader
          (alloc get)
          pid
          (reader (encode_meta m ++ (body ++ rest)) end)
          max_length
        ≡ (new_message_from_bytes (alloc get) pid (encode_meta m ++ body) max_length >>= λ msg.
            ok (msg, reader rest end))
  unfolding new_message_from_reader copy_body
  both_panic fits h =
      let wraps : leb 4 (source_size m) ≡ false = ground (arith, h) in
      ok_then (read_full (reader (encode_meta m ++ (body ++ rest)) end) 8) _
        (read_full_lem (encode_meta m) (body ++ rest) end 8 (sym (length-encode_meta m)))
      ∙ header_read _
      ∙ rw (fits, wraps) refl
      ∙ sym (
          ap (λ (o : Outcome Message). o >>= λ msg. ok (msg, reader rest end)) {y = panic}
            (whole_body fits ∙ rw wraps refl))

  both_refuse :
      too_long max_length m ≡ true
      → new_message_from_reader
          (alloc get)
          pid
          (reader (encode_meta m ++ (body ++ rest)) end)
          max_length
        ≡ (new_message_from_bytes (alloc get) pid (encode_meta m ++ body) max_length >>= λ msg.
            ok (msg, reader rest end))
  unfolding new_message_from_reader
  both_refuse long =
      ok_then (read_full (reader (encode_meta m ++ (body ++ rest)) end) 8) _
        (read_full_lem (encode_meta m) (body ++ rest) end 8 (sym (length-encode_meta m)))
      ∙ header_read _
      ∙ rw long refl
      ∙ sym (
          ap (λ (o : Outcome Message). o >>= λ msg. ok (msg, reader rest end))
            {y = err content_too_long}
            (after_meta (alloc get) pid max_length m body w ∙ rw long refl))

  -- NewMessageFromReader does on a stream what NewMessageFromBytes does on a buffer: on meta data and
  -- a body of exactly the bytes that it counts, both return the same message, both refuse the content
  -- with ErrContentTooLong, or both panic on 255 hops; and the stream is left at the first byte
  -- behind the message. The counts of the path may not wrap when they are added, and a message to a
  -- destination that is within the limit has one.
  pub reader_agrees :
      (too_long max_length m ≡ false → to_dest m ≡ true → 1 ≤ m.distance)
      → new_message_from_reader
          (alloc get)
          pid
          (reader (encode_meta m ++ (body ++ rest)) end)
          max_length
        ≡ (new_message_from_bytes (alloc get) pid (encode_meta m ++ body) max_length >>= λ msg.
            ok (msg, reader rest end))
  reader_agrees t = elim (Bool-cases (too_long max_length m)) [
    | inl long ↦ both_refuse long
    | inr fits ↦ elim (Bool-cases (ltb m.hops 255)) [
      | inl h ↦ both_receive fits (ltb→lt m.hops 255 h) (t fits)
      | inr h ↦ both_panic fits (ground (arith, h, w.hops_fit))
    ]
  ]
