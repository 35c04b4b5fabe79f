-- ===== src/Message/Receive/Framing.antt =====
-- message/message.go: NewMessageFromReader on a stream of messages.
use mathlib.Core.List.{append_assoc, append-nil}
use multisocket.Prelude.{
  ℕ, zero, suc, ◌-◌, ◌≡◌, refl, ap, sym, ◌∙◌, Bool, true, false, not, List, [], ◌∷◌, ◌++◌, length,
  length-append, drop-append, take-append, arith, ltb, leb, if◌then◌else◌, lt→ltb, le→leb,
}
use multisocket.Bytespool.{alloc, IsHanded}
use multisocket.Errs.{Err, ok, bounds, guard, content_too_long}
use multisocket.Message.{View, Message, encode_meta, decode_meta_from, view, encode}
use multisocket.Message.Wire.{wire, length-encode_meta, decode-encode_meta}
use multisocket.Message.Receive.{
  to_dest, too_long, source_size, dest_size, received, with_rest, with_source, Reader, read_full,
  discard, new_message_from_reader,
}
use multisocket.Message.Receive.Parts.{ok_then, advance, IsReceivable}
use multisocket.Message.Receive.Laws.{assembled}
use multisocket.Message.Receive.Bytes.{
  Split, split, room, result, result-view, result-encode, source_size_lem,
}

abbrev pub reader : List ℕ → Err → Reader
reader bytes end = record { bytes = bytes; end = end }

pub read_full_lem :
    (xs ys : List ℕ) (end : Err) (n : ℕ)
    → n ≡ length xs
    → read_full (reader (xs ++ ys) end) n ≡ ok (xs, reader ys end)
unfolding read_full
read_full_lem xs ys end n e =
    rw (le→leb n (length (xs ++ ys)) (omega (arith, length-append xs ys)))
      (λ i. ok (take-append n xs ys e i, reader (drop-append n xs ys e i) end))

discard_lem :
    (b : Bool) (xs ys : List ℕ) (end : Err)
    → length xs ≡ (if b then 4 else 0)
    → (if b then discard (reader (xs ++ ys) end) 4 else ok (reader (xs ++ ys) end))
      ≡ ok (reader ys end)
unfolding discard
discard_lem true xs ys end e =
    rw (le→leb 4 (length (xs ++ ys)) (omega (arith, length-append xs ys)))
      (ap (λ (b : List ℕ). ok (reader b end)) (drop-append 4 xs ys (sym e)))
discard_lem false [] ys end e = refl
discard_lem false (x ∷ xs) ys end e = absurd (omega arith)

read_dest_lem :
    (n : ℕ) (xs ys : List ℕ) (end : Err)
    → n ≡ length xs
    → (if ltb 0 n then read_full (reader (xs ++ ys) end) n else ok ([], reader (xs ++ ys) end))
      ≡ ok (xs, reader ys end)
read_dest_lem zero [] ys end e = refl
read_dest_lem zero (x ∷ xs) ys end e = absurd (omega arith)
read_dest_lem (suc n) xs ys end e =
    rw (lt→ltb 0 (suc n) (omega arith)) (read_full_lem xs ys end (suc n) e)

module _ (get : ℕ → List ℕ) (pid max_length : ℕ) (v : View) (handed : IsHanded get)
    (r : IsReceivable max_length v) (rest : List ℕ) (end : Err) where
  abbrev s : Split pid v
  s = split get pid max_length v handed r

  abbrev got : Message
  got = result get pid max_length v handed r

  stream :
      wire v ++ rest
      ≡ encode_meta v.meta ++ (v.source ++ (s.skip ++ (s.kept ++ (v.content ++ rest))))
  stream =
      append_assoc (encode_meta v.meta) (v.source ++ (v.destination ++ v.content)) rest
      ∙ ap (◌++◌ (encode_meta v.meta)) (
          append_assoc v.source (v.destination ++ v.content) rest
          ∙ ap (◌++◌ v.source) (
              append_assoc v.destination v.content rest
              ∙ ap (λ (d : List ℕ). d ++ (v.content ++ rest)) s.whole
              ∙ append_assoc s.skip s.kept (v.content ++ rest)))

  built :
      received v.meta
        (with_rest v.meta (with_source (alloc get) pid v.meta v.source) s.kept v.content)
      ≡ got
  unfolding result
  built =
      ap (received v.meta) (λ i.
        with_rest v.meta (with_source (alloc get) pid v.meta (sym (append-nil v.source) i))
          (sym (append-nil s.kept) i) (sym (append-nil v.content) i))
      ∙ ap (received v.meta) (
          let w = room get pid max_length v handed r in
          assembled v.meta pid (w.0) v.source s.kept v.content (w.6) (alloc get) (w.1) (w.2) (w.3)
            (w.4) (w.5) (w.7) (w.8) (w.9) (w.10) (source_size_lem max_length v r) s.sized
            (sym r.is_view.content_count) [] [] [])

  pub runs :
      new_message_from_reader (alloc get) pid (reader (wire v ++ rest) end) max_length
      ≡ ok (got, reader rest end)
  unfolding new_message_from_reader
  runs =
      ap (λ (b : List ℕ). new_message_from_reader (alloc get) pid (reader b end) max_length) stream
      ∙ ok_then
          (read_full
            (reader
              (encode_meta v.meta ++ (v.source ++ (s.skip ++ (s.kept ++ (v.content ++ rest))))) end)
            8)
          _
          (read_full_lem (encode_meta v.meta)
            (v.source ++ (s.skip ++ (s.kept ++ (v.content ++ rest)))) end 8
            (sym (length-encode_meta v.meta)))
      ∙ ok_then (decode_meta_from (encode_meta v.meta)) _ decoded
      ∙ ok_then (guard (not (too_long max_length v.meta)) content_too_long) _ (rw (r.short_enough))
      ∙ ok_then (bounds (leb 4 (source_size v.meta))) _
          (rw (le→leb 4 (source_size v.meta) (omega (arith, source_size_lem max_length v r))))
      ∙ ok_then
          (read_full (reader (v.source ++ (s.skip ++ (s.kept ++ (v.content ++ rest)))) end)
            (source_size v.meta - 4))
          _
          (read_full_lem v.source (s.skip ++ (s.kept ++ (v.content ++ rest))) end
            (source_size v.meta - 4) (omega (arith, source_size_lem max_length v r)))
      ∙ ok_then _ _
          (discard_lem (to_dest v.meta) s.skip (s.kept ++ (v.content ++ rest)) end s.skipped)
      ∙ ok_then _ _ (read_dest_lem (dest_size v.meta) s.kept (v.content ++ rest) end s.sized)
      ∙ ok_then (read_full (reader (v.content ++ rest) end) v.meta.content_length) _
          (read_full_lem v.content rest end v.meta.content_length (sym r.is_view.content_count))
      ∙ ap (λ (m : Message). ok (m, reader rest end)) built
    where
      decoded : decode_meta_from (encode_meta v.meta) ≡ ok v.meta
      decoded =
          ap decode_meta_from (sym (append-nil (encode_meta v.meta)))
          ∙ decode-encode_meta v.meta [] r.is_view.meta_fits

  -- From a stream that begins with a well-formed message, NewMessageFromReader returns the message
  -- that `advance` describes and leaves the stream at the first byte behind it, whatever follows. So
  -- messages that are written back to back are read one at a time.
  pub new_message_from_reader-wire :
      (msg : Message) × (new_message_from_reader
          (alloc get)
          pid
          (reader (wire v ++ rest) end)
          max_length
        ≡ ok (msg, reader rest end))
      × (view msg ≡ advance pid v)
      × (encode msg ≡ ok (wire (advance pid v)))
  new_message_from_reader-wire = (
    got,
    runs,
    result-view get pid max_length v handed r,
    result-encode get pid max_length v handed r,
  )
