-- ===== src/Message/Send/Laws.antt =====
-- message/message.go: what NewSendMessage builds.
use mathlib.Core.List.{append_assoc, append-nil}
use mathlib.Core.Path.{ap₂}
use multisocket.Prelude.{
  ℕ, ◌+◌, ◌*◌, ◌/◌, ◌^◌, ◌<◌, ◌≡◌, refl, ap, sym, ◌∙◌, false, List, [], ◌∷◌, ◌++◌, length, drop,
  length-append, drop-append, arith, ltb, if◌then◌else◌, lt→ltb, bit_or, ◌==◌,
}
use multisocket.Prelude.Bytes.{copy-same, slice, slice-parts, copy_at, copy_at-parts, split_at}
use multisocket.Bytespool.{alloc, IsHanded}
use multisocket.Bytespool.Laws.{length-alloc}
use multisocket.Errs.{ok, panic}
use multisocket.Message.{Meta, View, Message, path_length, bytes_of, view, encode, encode_meta}
use multisocket.Message.Wire.{wire}
use multisocket.Message.Send.{put_part, part_region, new_send_message}

-- What is sent: the meta data counts the ids of the paths and the bytes of the content.
abbrev pub sent : ℕ → ℕ → ℕ → List ℕ → List ℕ → List ℕ → View
sent flags send_type ttl src dest content = record {
  meta = record {
    flags = bit_or flags send_type;
    ttl = if ttl == 0 then 16 else ttl;
    hops = length src / 4;
    distance = length dest / 4;
    content_length = length content;
  };
  source = src;
  destination = dest;
  content = content;
}

-- An empty part is not written and has no bytes; another one is written at its place.
module _ (a b c : List ℕ) (from : ℕ) (starts : from ≡ length a) where
  put_part_lem :
      (src : List ℕ) → length b ≡ length src → put_part (a ++ (b ++ c)) from src ≡ a ++ (src ++ c)
  put_part_lem [] e = ap (λ (x : List ℕ). a ++ (x ++ c)) (nothing b e)
    where
      nothing : (b : List ℕ) → length b ≡ 0 → b ≡ []
      nothing [] e = refl
      nothing (x ∷ xs) e = absurd (omega arith)
  put_part_lem (x ∷ src) e = rw (lt→ltb 0 (length (x ∷ src)) (omega arith)) (
      copy_at-parts a b c from (from + length (x ∷ src)) starts (omega arith) (x ∷ src)
      ∙ ap (λ (y : List ℕ). a ++ (y ++ c)) (copy-same b (x ∷ src) e))

  part_bytes : bytes_of (a ++ (b ++ c)) (part_region from (length b)) ≡ b
  unfolding bytes_of
  part_bytes = go b refl
    where
      go : (d : List ℕ) → b ≡ d → bytes_of (a ++ (b ++ c)) (part_region from (length d)) ≡ d
      go [] e = refl
      go (x ∷ xs) e =
          rw (lt→ltb 0 (length (x ∷ xs)) (omega arith)) (
            slice-parts a b c from (from + length (x ∷ xs)) starts (omega (arith, ap length e)) ∙ e)

-- A path is a whole number of pipe ids, 255 at most.
abbrev pub IsPath : List ℕ → Type 0
IsPath path = (length path ≡ 4 * (length path / 4)) × (length path / 4 < 256)

-- The buffer: room for the meta data, then the parts.
module _ (get : ℕ → List ℕ) (flags send_type ttl : ℕ) (src dest content : List ℕ)
    (handed : IsHanded get) where
  abbrev msg : Message
  msg = new_send_message (alloc get) flags send_type ttl src dest content

  room :
      (h s d c : List ℕ) × (alloc get (8 + length src + length dest + length content)
        ≡ h ++ (s ++ (d ++ c)))
      × (length h ≡ 8)
      × (length s ≡ length src)
      × (length d ≡ length dest)
      × (length c ≡ length content)
  room =
      let total = 8 + length src + length dest + length content in
      let (h, r1, e1, l1, k1) =
        split_at 8 (length src + (length dest + length content)) (alloc get total)
          (length-alloc get total handed ∙ omega arith) in
      let (s, r2, e2, l2, k2) = split_at (length src) (length dest + length content) r1 k1 in
      let (d, c, e3, l3, k3) = split_at (length dest) (length content) r2 k2 in
      (h, s, d, c, e1 ∙ ap (◌++◌ h) (e2 ∙ ap (◌++◌ s) e3), l1, l2, l3, k3)

  abbrev h : List ℕ
  h = room.0

  -- The same buffer, cut where the destination and the content stand.
  at_dest : (s d c : List ℕ) → h ++ (s ++ (d ++ c)) ≡ (h ++ s) ++ (d ++ c)
  at_dest s d c = sym (append_assoc h s (d ++ c))

  at_content : (s d c : List ℕ) → h ++ (s ++ (d ++ c)) ≡ (h ++ (s ++ d)) ++ (c ++ [])
  at_content s d c =
      ap (◌++◌ h) (sym (append_assoc s d c))
      ∙ sym (append_assoc h (s ++ d) c)
      ∙ ap (◌++◌ (h ++ (s ++ d))) (sym (append-nil c))

  filled : msg.buf ≡ h ++ (src ++ (dest ++ content))
  unfolding new_send_message
  filled =
      let s = room.1 in
      let d = room.2 in
      let c = room.3 in
      let dest_start = 8 + length src in
      let dest_end = dest_start + length dest in
      let content_end = dest_end + length content in
      let write = λ (b : List ℕ). copy_at b dest_end content_end content in
      ap (λ (b : List ℕ). write (put_part (put_part b 8 src) dest_start dest)) (room.4)
      ∙ ap (λ (b : List ℕ). write (put_part b dest_start dest))
          (put_part_lem h s (d ++ c) 8 (sym (room.5)) src (room.6) ∙ at_dest src d c)
      ∙ ap write (
          put_part_lem (h ++ src) d c dest_start (omega (arith, length-append h src, room.5)) dest
            (room.7)
          ∙ sym (at_dest src dest c)
          ∙ at_content src dest c)
      ∙ copy_at-parts (h ++ (src ++ dest)) c [] dest_end content_end
          (omega (arith, length-append h (src ++ dest), length-append src dest, room.5))
          (omega (arith, room.8)) content
      ∙ ap (λ (b : List ℕ). (h ++ (src ++ dest)) ++ (b ++ [])) (copy-same c content (room.8))
      ∙ sym (at_content src dest content)

  module _ (source_path : IsPath src) (dest_path : IsPath dest)
      (content_fits : length content < 2 ^ 32) where
    meta_sent : msg.meta ≡ (sent flags send_type ttl src dest content).meta
    unfolding new_send_message path_length
    meta_sent = ground (arith, source_path, dest_path)

    -- NewSendMessage builds the message that `sent` describes: the flags with the send type, the
    -- time to live or 16 if it is 0, the paths and the content that were given, each counted in the
    -- meta data; and encoding it gives the bytes of that message, whatever the pooled buffer held. The
    -- paths hold 255 ids at most and the content fits 32 bits.
    pub new_send_message-wire :
        (view msg ≡ sent flags send_type ttl src dest content)
        × (encode msg ≡ ok (wire (sent flags send_type ttl src dest content)))
    new_send_message-wire = (viewed, encoded)
      where
        in_source : bytes_of msg.buf msg.source ≡ src
        in_source =
            unfold new_send_message in
            ap (λ (b : List ℕ). bytes_of b (part_region 8 (length src))) filled
            ∙ part_bytes h src (dest ++ content) 8 (sym (room.5))

        in_dest : bytes_of msg.buf msg.destination ≡ dest
        in_dest =
            unfold new_send_message in
            ap (λ (b : List ℕ). bytes_of b (part_region (8 + length src) (length dest)))
              (filled ∙ at_dest src dest content)
            ∙ part_bytes (h ++ src) dest content (8 + length src)
                (omega (arith, length-append h src, room.5))

        in_content : bytes_of msg.buf msg.content ≡ content
        in_content =
            unfold new_send_message bytes_of in
            ap
              (λ (b : List ℕ).
                slice b (8 + length src + length dest)
                  (8 + length src + length dest + length content))
              (filled ∙ at_content src dest content)
            ∙ slice-parts (h ++ (src ++ dest)) content [] _ _
                (omega (arith, length-append h (src ++ dest), length-append src dest, room.5)) refl

        viewed : view msg ≡ sent flags send_type ttl src dest content
        viewed =
            unfold view in
            λ i. record {
              meta = meta_sent i;
              source = in_source i;
              destination = in_dest i;
              content = in_content i;
            }

        long : ltb (length (h ++ (src ++ (dest ++ content)))) 8 ≡ false
        long = ground (arith, length-append h (src ++ (dest ++ content)), room.5)

        encoded : encode msg ≡ ok (wire (sent flags send_type ttl src dest content))
        encoded =
            unfold encode in
            ap
              (λ (b : List ℕ).
                if ltb (length b) 8 then panic else ok (encode_meta msg.meta ++ drop 8 b))
              filled
            ∙ rw long (
                ap₂ (λ (m : Meta) (b : List ℕ). ok (encode_meta m ++ b)) meta_sent
                  (drop-append 8 h (src ++ (dest ++ content)) (sym (room.5))))
