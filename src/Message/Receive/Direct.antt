-- ===== src/Message/Receive/Direct.antt =====
-- message/message.go: NewMessageFromMsg, on a message that the peer hands over.
use mathlib.Core.List.{append_assoc, append-nil}
use multisocket.Prelude.{
  ℕ, zero, suc, ◌+◌, ◌≤◌, ◌≡◌, refl, ap, sym, ◌∙◌, not, List, [], ◌∷◌, ◌++◌, length, take, drop,
  length-append, take-append-drop, arith, leb, lt→ltb, le→leb, length-take, length-drop, ◌⊎◌, inl,
  inr, Bool-cases,
}
use multisocket.Prelude.Bytes.{
  copy, copy_at, copy-append, put_u32, length-put_u32, slice, length-copy,
}
use multisocket.Bytespool.{alloc, IsHanded}
use multisocket.Bytespool.Laws.{length-alloc}
use multisocket.Errs.{ok, bounds, guard, content_too_long}
use multisocket.Message.{Meta, Message, region, bytes_of, view}
use multisocket.Message.Wire.{frame, frame_of, fill_content, slice_dest, fill_dest}
use multisocket.Message.Receive.{
  to_dest, too_long, source_size, dest_size, source_end, content_start, content_end, received,
  with_rest, with_source, copy_dest, new_message_from_msg,
}
use multisocket.Message.Receive.Parts.{ok_then, advance, IsReceivable}
use multisocket.Message.Receive.Laws.{source_placed, received-view}
use multisocket.Message.Receive.Bytes.{source_size_lem, next_meta_lem}

-- What the destination becomes: the old bytes `d` at its place, moved down by four.
abbrev pub self_copy : List ℕ → List ℕ
self_copy d = copy d (drop 4 d)

module _ (h p s d c : List ℕ) (head : length h ≡ 8) (id : length p ≡ 4) where
  tail_of_dest :
      (from to : ℕ)
      → from ≡ 12 + length s + 4
      → 4 ≤ length d
      → to ≡ 12 + length s + length d
      → slice (frame h p s d c) from to ≡ drop 4 d
  tail_of_dest from to e big f =
      ap (λ (x : List ℕ). slice x from to)
        (ap (λ (x : List ℕ). frame h p s x c) (sym (take-append-drop 4 d))
          ∙ ap (λ (x : List ℕ). h ++ (p ++ (s ++ x))) (append_assoc (take 4 d) (drop 4 d) c)
          ∙ ap (λ (x : List ℕ). h ++ (p ++ x)) (sym (append_assoc s (take 4 d) (drop 4 d ++ c))))
      ∙ slice_dest h p (s ++ take 4 d) (drop 4 d) c head id from to
          (omega (arith, length-append s (take 4 d), length-take 4 d))
          (omega (arith, length-drop 4 d))

  dest_moved :
      (size from : ℕ)
      → size ≡ length d
      → from ≡ 12 + length s
      → (size ≡ 0) ⊎ (4 ≤ size)
      → copy_dest size
          (frame h p s d c)
          from
          (bytes_of (frame h p s d c) (region (from + 4) (from + size)))
        ≡ frame h p s (self_copy d) c
  unfolding bytes_of
  dest_moved zero from e f big = ap (λ (x : List ℕ). frame h p s x c) (nothing d e)
    where
      nothing : (d : List ℕ) → 0 ≡ length d → d ≡ self_copy d
      nothing [] e = unfold copy in refl
      nothing (x ∷ xs) e = absurd (omega arith)
  dest_moved (suc size) from e f big = rw (lt→ltb 0 (suc size) (omega arith)) (
      fill_dest h p s d c head id (slice (frame h p s d c) (from + 4) (from + suc size)) from
        (from + suc size) f (omega arith)
      ∙ ap (λ (x : List ℕ). frame h p s (copy d x) c)
          (tail_of_dest (from + 4) (from + suc size) (omega arith) (omega arith) (omega arith)))

-- `4 * int(…)` is 0, or 4 at least.
size_cases : (m : Meta) → (dest_size m ≡ 0) ⊎ (4 ≤ dest_size m)
size_cases m = elim (Bool-cases (to_dest m)) [
  | inl e ↦ rw e (omega arith)
  | inr e ↦ rw e (omega arith)
]

module _ (get : ℕ → List ℕ) (pid max_length : ℕ) (src : Message) (handed : IsHanded get)
    (r : IsReceivable max_length (view src)) where
  abbrev m : Meta
  m = src.meta

  abbrev source : List ℕ
  source = bytes_of src.buf src.source

  abbrev content : List ℕ
  content = bytes_of src.buf src.content

  -- The bytes that stood at the place of the destination.
  abbrev pub stale : List ℕ
  stale = slice (alloc get (content_end src.meta)) (source_end src.meta) (content_start src.meta)

  counts : (source_size m ≡ 4 + length source) × (length content ≡ m.content_length)
  unfolding view
  counts = (source_size_lem max_length (view src) r, r.is_view.content_count)

  room :
      (h p s d c : List ℕ) × (alloc get (content_end m) ≡ frame h p s d c)
      × (length h ≡ 8)
      × (length p ≡ 4)
      × (length s ≡ length source)
      × (length d ≡ dest_size m)
      × (length c ≡ length content)
  room =
      frame_of (alloc get (content_end m)) (length source) (dest_size m) (length content)
        (length-alloc get (content_end m) handed ∙ omega (arith, counts.0, counts.1))

  is_stale : room.3 ≡ stale
  is_stale = sym (
      ap (λ (b : List ℕ). slice b (source_end m) (content_start m)) (room.5)
      ∙ slice_dest (room.0) (room.1) (room.2) (room.3) (room.4) (room.6) (room.7) (source_end m)
          (content_start m) (omega (arith, counts.0, room.8)) (omega (arith, room.9)))

  abbrev placed : List ℕ
  placed = frame (room.0) (put_u32 pid) source (self_copy (room.3)) content

  filled :
      with_rest m
        (with_source (alloc get) pid m source)
        (bytes_of
          (with_source (alloc get) pid m source)
          (region (source_end m + 4) (content_start m)))
        content
      ≡ placed
  filled =
      let h = room.0 in
      let d = room.3 in
      let c = room.4 in
      let four = length-put_u32 pid in
      let finish = λ (b : List ℕ). copy_at b (content_start m) (content_end m) content in
      ap
        (λ (b : List ℕ). finish (
          copy_dest (dest_size m) b (source_end m)
            (bytes_of b (region (source_end m + 4) (content_start m)))))
        (ap (with_source (alloc get) pid m) (sym (append-nil source))
          ∙ source_placed m pid h source d content (room.6) (alloc get) (room.1) (room.2) d c
              (room.5) (room.7) (room.8) refl (room.10) (counts.0) (sym (room.9)) (sym (counts.1))
              [])
      ∙ ap finish (
          dest_moved h (put_u32 pid) source d c (room.6) four (dest_size m) (source_end m)
            (sym (room.9)) (omega (arith, counts.0)) (size_cases m))
      ∙ fill_content h (put_u32 pid) source (self_copy d) c (room.6) four content (content_start m)
          (content_end m) (omega (arith, counts.0, length-copy d (drop 4 d), room.9))
          (omega (arith, counts.1, room.10))
      ∙ ap (frame h (put_u32 pid) source (self_copy d))
          (ap (copy c) (sym (append-nil content)) ∙ copy-append c content [] (room.10))

  -- NewMessageFromMsg counts and carries over the source and the content as NewMessageFromBytes does,
  -- but it does not look at the destination of the message that it is given: that of the new message
  -- is what the pooled buffer held at its place before, moved down by four bytes.
  pub new_message_from_msg-view :
      (msg : Message) × (new_message_from_msg (alloc get) pid src max_length ≡ ok msg)
      × (view msg ≡ record (advance pid (view src)) { destination = self_copy stale })
  new_message_from_msg-view = (received m placed, runs, seen)
    where
      runs : new_message_from_msg (alloc get) pid src max_length ≡ ok (received m placed)
      runs =
          unfold new_message_from_msg in
          ok_then (guard (not (too_long max_length m)) content_too_long) _
            (unfold view in rw (r.short_enough))
          ∙ ok_then (bounds (leb 4 (source_size m))) _
              (rw (le→leb 4 (source_size m) (omega (arith, counts.0))))
          ∙ ap (λ (b : List ℕ). ok (received m b)) filled

      seen :
          view (received m placed)
          ≡ record (advance pid (view src)) { destination = self_copy stale }
      seen =
          received-view m pid (room.0) source (self_copy (room.3)) content (room.6) (counts.0)
            (sym (room.9) ∙ sym (length-copy (room.3) (drop 4 (room.3)))) (sym (counts.1))
          ∙ unfold view in
            (λ i. record {
              meta = next_meta_lem pid max_length (view src) r i;
              source = put_u32 pid ++ source;
              destination = self_copy (is_stale i);
              content = content;
            })
