-- ===== src/Message/Receive/Faults.antt =====
-- message/message.go: inputs that are refused, inputs that make the receiver panic, and what becomes
-- of the destination of a message that the peer hands over.
use multisocket.Prelude.{
  ℕ, ◌+◌, ◌-◌, ◌*◌, ◌<◌, ◌≡◌, refl, ap, sym, ◌∙◌, true, false, not, List, ◌++◌, length, drop,
  length-append, drop-append, length-drop, arith, ltb, leb, ◌==◌, if◌then◌else◌, le→leb, ==_iff,
  ◌⊎◌, inl, inr, Bool-cases, ◌≢◌,
}
use multisocket.Prelude.Bytes.{u8}
use multisocket.Errs.{ok, err, panic, bounds, guard, ◌>>=◌, ◌>>◌, bad_msg, content_too_long}
use multisocket.Message.{Meta, IsMeta, Message, encode_meta, decode_meta_from}
use multisocket.Message.Wire.{length-encode_meta, decode-encode_meta}
use multisocket.Message.Receive.{
  to_dest, too_long, source_size, dest_size, tail_from, cut, copy_body, new_message_from_bytes,
}
use multisocket.Message.Receive.Parts.{ok_then}

module _ (alloc : ℕ → List ℕ) (pid max_length : ℕ) where
  too_short :
      (buf : List ℕ)
      → length buf < 8
      → new_message_from_bytes alloc pid buf max_length ≡ err bad_msg
  unfolding new_message_from_bytes
  too_short buf h = let short : leb 8 (length buf) ≡ false = ground arith in rw short

  -- Past the first guard, on the bytes of some meta data.
  pub after_meta :
      (m : Meta) (body : List ℕ)
      → IsMeta m
      → new_message_from_bytes alloc pid (encode_meta m ++ body) max_length ≡ (
          guard (not (too_long max_length m)) content_too_long
          >> (guard (length body == 4 * u8 (m.hops + m.distance) + m.content_length) bad_msg
              >> copy_body alloc pid m body))
  unfolding new_message_from_bytes
  after_meta m body w =
      ok_then (guard (leb 8 (length (encode_meta m ++ body))) bad_msg) _ (
        rw (
          le→leb 8 (length (encode_meta m ++ body))
            (omega (arith, length-append (encode_meta m) body, length-encode_meta m))))
      ∙ ok_then (decode_meta_from (encode_meta m ++ body)) _ (decode-encode_meta m body w)
      ∙ ap
          (λ (b : List ℕ).
            guard (not (too_long max_length m)) content_too_long
            >> (guard (length b == 4 * u8 (m.hops + m.distance) + m.content_length) bad_msg
                >> copy_body alloc pid m b))
          (drop-append 8 (encode_meta m) body (sym (length-encode_meta m)))

  -- NewMessageFromBytes answers ErrBadMsg to fewer than eight bytes; ErrContentTooLong to meta data
  -- whose content is over the limit, whatever follows; and, within the limit, ErrBadMsg to a body that
  -- has not exactly the bytes that the meta data counts.
  pub new_message_from_bytes_refuses :
      (few : List ℕ) (m : Meta) (body : List ℕ)
      → length few < 8
      → IsMeta m
      → (too_long max_length m ≡ true)
        ⊎ (length body ≢ 4 * u8 (m.hops + m.distance) + m.content_length)
      → (new_message_from_bytes alloc pid few max_length ≡ err bad_msg)
        × (new_message_from_bytes alloc pid (encode_meta m ++ body) max_length
            ≡ (if too_long max_length m then err content_too_long else err bad_msg))
  new_message_from_bytes_refuses few m body short w refused = (
    too_short few short,
    after_meta m body w ∙ elim (Bool-cases (too_long max_length m)) [
      | inl long ↦ rw long refl
      | inr fits ↦
          rw
            (
              fits,
              not_equal (length body) (4 * u8 (m.hops + m.distance) + m.content_length) fits
                  refused,
            )
            refl
    ],
  )
    where
      not_equal :
          (a b : ℕ)
          → too_long max_length m ≡ false
          → (too_long max_length m ≡ true) ⊎ (a ≢ b)
          → (a == b) ≡ false
      not_equal a b f (inl h) = absurd (ground (arith, f, h))
      not_equal a b f (inr h) = ground arith

  accepted :
      (m : Meta) (body : List ℕ)
      → IsMeta m
      → too_long max_length m ≡ false
      → length body ≡ 4 * u8 (m.hops + m.distance) + m.content_length
      → new_message_from_bytes alloc pid (encode_meta m ++ body) max_length
        ≡ copy_body alloc pid m body
  accepted m body w short exact =
      after_meta m body w
      ∙ ok_then (guard (not (too_long max_length m)) content_too_long) _ (rw short)
      ∙ ok_then (guard (length body == 4 * u8 (m.hops + m.distance) + m.content_length) bad_msg)
          (λ _. copy_body alloc pid m body) (rw ((==_iff (length body) _).1 exact))

  no_source : (m : Meta) (body : List ℕ) → m.hops ≡ 255 → copy_body alloc pid m body ≡ panic
  unfolding copy_body
  no_source m body h = ground (arith, h)

  no_destination :
      (m : Meta) (body : List ℕ)
      → m.hops < 255
      → to_dest m ≡ true
      → m.distance ≡ 0
      → length body ≡ 4 * m.hops + m.content_length
      → m.content_length < 1024
      → copy_body alloc pid m body ≡ panic
  unfolding copy_body
  no_destination m body h t d e k =
      ok_then (bounds (leb 4 (source_size m))) _ (rw (le→leb 4 (source_size m) (omega arith)))
      ∙ ok_then (tail_from body (source_size m - 4)) _ (
          ok_then (bounds (leb (source_size m - 4) (length body))) _
            (rw (le→leb (source_size m - 4) (length body) (omega arith))))
      ∙ at_dest (drop (source_size m - 4) body)
          (omega (arith, length-drop (source_size m - 4) body)) _
    where
      size : dest_size m ≡ 1020
      size = rw t (omega arith)

      at_dest :
          (left : List ℕ)
          → length left ≡ m.content_length
          → (make : List ℕ → List ℕ → Message)
          → (cut (to_dest m) left 4 >>= λ at.
              (cut (ltb 0 (dest_size m)) at (dest_size m) >>= λ c. ok (make at c)))
            ≡ panic
      at_dest left f make = ground (arith, t, size, d, f, k, length-drop 4 left)

  -- A peer can make the receiver panic. Meta data with 255 hops passes every check, and so does meta
  -- data of a message to a destination with an empty destination; with the body that it counts, the
  -- first always panics, and the second does if its content is under 1024 bytes: the sizes of the
  -- source and of the destination wrap before they are checked.
  pub new_message_from_bytes_panics :
      (m : Meta) (body : List ℕ)
      → IsMeta m
      → too_long max_length m ≡ false
      → length body ≡ 4 * u8 (m.hops + m.distance) + m.content_length
      → (m.hops ≡ 255)
        ⊎ ((m.hops < 255) × (to_dest m ≡ true) × (m.distance ≡ 0) × (m.content_length < 1024))
      → new_message_from_bytes alloc pid (encode_meta m ++ body) max_length ≡ panic
  new_message_from_bytes_panics m body w short exact (inl h) =
      accepted m body w short exact ∙ no_source m body h
  new_message_from_bytes_panics m body w short exact (inr (h, t, d, k)) =
      accepted m body w short exact ∙ no_destination m body h t d (omega arith) k
