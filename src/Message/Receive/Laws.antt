-- ===== src/Message/Receive/Laws.antt =====
-- message/message.go: NewMessageFromBytes on the parts of a well-formed message.
use mathlib.Core.List.{append-nil}
use mathlib.Core.Path.{ap₂}
use multisocket.Prelude.{
  ℕ, zero, suc, ◌+◌, ◌-◌, ◌≡◌, refl, ap, sym, ◌∙◌, false, List, [], ◌++◌, length, length-append,
  arith, ltb, leb, if◌then◌else◌, le→leb,
}
use multisocket.Prelude.Bytes.{copy, copy_at, copy-append, copy-same, put_u32, length-put_u32}
use multisocket.Errs.{ok, bounds}
use multisocket.Message.{Meta, encode_meta, view, encode}
use multisocket.Message.Wire.{
  frame, fill_id, fill_source, fill_content, slice_source, slice_content, drop_meta,
}
use multisocket.Message.Receive.{
  to_dest, source_size, dest_size, next_meta, tail_from, cut, source_end, content_start,
  content_end, received, copy_dest, copy_body, with_source, with_rest,
}
use multisocket.Message.Receive.Parts.{ok_then, dest_bytes, copy_dest_lem, cut_lem, tail_from_lem}

module _ (m : Meta) (pid : ℕ) (h src dst con : List ℕ) (head : length h ≡ 8) where
  module _ (sources : source_size m ≡ 4 + length src) (dests : dest_size m ≡ length dst)
      (contents : m.content_length ≡ length con) where
    pub received-view : view (received m (frame h (put_u32 pid) src dst con)) ≡ record {
      meta = next_meta m;
      source = put_u32 pid ++ src;
      destination = dst;
      content = con;
    }
    unfolding view
    received-view = λ i. record {
      meta = next_meta m;
      source =
          slice_source h (put_u32 pid) src dst con head (length-put_u32 pid) (source_end m)
            (omega arith) i;
      destination =
          dest_bytes h (put_u32 pid) src dst con head (length-put_u32 pid) (dest_size m)
            (source_end m) dests (omega arith) i;
      content =
          slice_content h (put_u32 pid) src dst con head (length-put_u32 pid) (content_start m)
            (content_end m) (omega arith) (omega arith) i;
    }

    pub received-encode :
        encode (received m (frame h (put_u32 pid) src dst con))
        ≡ ok (encode_meta (next_meta m) ++ (put_u32 pid ++ (src ++ (dst ++ con))))
    unfolding encode
    received-encode =
        rw (long, drop_meta h (put_u32 pid) src dst con head (length-put_u32 pid)) refl
      where
        long : ltb (length (frame h (put_u32 pid) src dst con)) 8 ≡ false
        long = ground (arith, length-append h (put_u32 pid ++ (src ++ (dst ++ con))))

  module _ (alloc : ℕ → List ℕ) (p s d c : List ℕ) (e : alloc (content_end m) ≡ frame h p s d c)
      (lp : length p ≡ 4) (ls : length s ≡ length src) (ld : length d ≡ length dst)
      (lc : length c ≡ length con) (es : source_size m ≡ 4 + length src)
      (ed : dest_size m ≡ length dst) (ec : m.content_length ≡ length con) where
    -- The source, behind the id of the receiving pipe; more input is not read.
    pub source_placed :
        (r1 : List ℕ) → with_source alloc pid m (src ++ r1) ≡ frame h (put_u32 pid) src d c
    source_placed r1 =
        ap (λ (b : List ℕ). copy_at (copy_at b 12 (source_end m) (src ++ r1)) 8 12 (put_u32 pid)) e
        ∙ ap (λ (b : List ℕ). copy_at b 8 12 (put_u32 pid))
            (fill_source h p s d c head lp (src ++ r1) (source_end m) (omega arith))
        ∙ fill_id h p (copy s (src ++ r1)) d c head lp (put_u32 pid)
        ∙ ap₂ (λ (x y : List ℕ). frame h x y d c)
            (copy-same p (put_u32 pid) (lp ∙ sym (length-put_u32 pid))) (copy-append s src r1 ls)

    -- Whatever stood in the buffer is written over; what follows in the input is not read.
    pub assembled :
        (r1 r2 r3 : List ℕ)
        → with_rest m (with_source alloc pid m (src ++ r1)) (dst ++ r2) (con ++ r3)
          ≡ frame h (put_u32 pid) src dst con
    assembled r1 r2 r3 =
        ap (λ (b : List ℕ). with_rest m b (dst ++ r2) (con ++ r3)) (source_placed r1)
        ∙ ap (λ (b : List ℕ). copy_at b (content_start m) (content_end m) (con ++ r3)) in_dest
        ∙ fill_content h (put_u32 pid) src dst c head (length-put_u32 pid) (con ++ r3)
            (content_start m) (content_end m) (omega arith) (omega arith)
        ∙ ap (frame h (put_u32 pid) src dst) (copy-append c con r3 lc)
      where
        in_dest :
            copy_dest (dest_size m) (frame h (put_u32 pid) src d c) (source_end m) (dst ++ r2)
            ≡ frame h (put_u32 pid) src dst c
        in_dest =
            copy_dest_lem h (put_u32 pid) src d c head (length-put_u32 pid) (dest_size m)
              (source_end m) dst r2 (ed ∙ sym ld) (omega arith) ld

    -- The body that belongs to `m`.
    pub copy_body-parts :
        (skip : List ℕ)
        → length skip ≡ (if to_dest m then 4 else 0)
        → copy_body alloc pid m (src ++ (skip ++ (dst ++ con)))
          ≡ ok (received m (frame h (put_u32 pid) src dst con))
    unfolding copy_body
    copy_body-parts skip lk =
        ok_then (bounds (leb 4 (source_size m))) _ (rw (le→leb 4 (source_size m) (omega arith)))
        ∙ ok_then (tail_from (src ++ (skip ++ (dst ++ con))) (source_size m - 4)) _
            (tail_from_lem src (skip ++ (dst ++ con)) (source_size m - 4) (omega arith))
        ∙ ok_then (cut (to_dest m) (skip ++ (dst ++ con)) 4) _
            (cut_lem (to_dest m) skip (dst ++ con) 4 lk)
        ∙ ok_then (cut (ltb 0 (dest_size m)) (dst ++ con) (dest_size m)) _
            (cut_lem (ltb 0 (dest_size m)) dst con (dest_size m) (if_size (dest_size m) ed))
        ∙ ap (λ (b : List ℕ). ok (received m b)) whole
      where
        if_size : (n : ℕ) → n ≡ length dst → length dst ≡ (if ltb 0 n then n else 0)
        if_size zero e = sym e
        if_size (suc n) e = ground arith

        whole :
            with_rest m (with_source alloc pid m (src ++ (skip ++ (dst ++ con)))) (dst ++ con) con
            ≡ frame h (put_u32 pid) src dst con
        whole =
            ap (with_rest m (with_source alloc pid m (src ++ (skip ++ (dst ++ con)))) (dst ++ con))
              (sym (append-nil con))
            ∙ assembled (skip ++ (dst ++ con)) con []
