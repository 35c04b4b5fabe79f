-- ===== src/Message/Wire.antt =====
-- message/message.go: the bytes of a whole message, and the buffer of one as its five parts.
use mathlib.Core.List.{append_assoc, append-nil}
use multisocket.Prelude.{
  ℕ, ◌+◌, ◌*◌, ◌≡◌, refl, ap, sym, ◌∙◌, List, [], ◌++◌, length, drop, length-append, drop-append,
  arith,
}
use multisocket.Prelude.Bytes.{
  copy, slice, copy_at, slice-parts, copy_at-parts, put_u32, get_u32-put_u32, split_at,
}
use multisocket.Errs.{ok}
use multisocket.Message.{Meta, IsMeta, View, encode_meta, decode_meta_from}

-- What a message looks like between two peers.
abbrev pub wire : View → List ℕ
wire v = encode_meta v.meta ++ (v.source ++ (v.destination ++ v.content))

-- The meta data counts what is there.
pub record IsView (v : View) : Type 0 where
  pub meta_fits : IsMeta v.meta
  pub hops_count : length v.source ≡ 4 * v.meta.hops
  pub distance_count : length v.destination ≡ 4 * v.meta.distance
  pub content_count : length v.content ≡ v.meta.content_length

pub length-encode_meta : (m : Meta) → length (encode_meta m) ≡ 8
unfolding encode_meta put_u32
length-encode_meta m = refl

-- The meta data read back is the meta data written.
pub decode-encode_meta :
    (m : Meta) (rest : List ℕ) → IsMeta m → decode_meta_from (encode_meta m ++ rest) ≡ ok m
unfolding decode_meta_from encode_meta put_u32
decode-encode_meta m rest h =
    ap (λ (n : ℕ). ok (record m { content_length = n }))
      (unfold put_u32 in get_u32-put_u32 m.content_length [] h.length_fits)

-- Room for the meta data, the receiver's pipe id, the source so far, the destination, the content.
abbrev pub frame : List ℕ → List ℕ → List ℕ → List ℕ → List ℕ → List ℕ
frame h p s d c = h ++ (p ++ (s ++ (d ++ c)))

module _ (h p s d c : List ℕ) where
  frame_source : frame h p s d c ≡ (h ++ p) ++ (s ++ (d ++ c))
  frame_source = sym (append_assoc h p (s ++ (d ++ c)))

  frame_dest : frame h p s d c ≡ (h ++ (p ++ s)) ++ (d ++ c)
  frame_dest =
      ap (◌++◌ h) (sym (append_assoc p s (d ++ c))) ∙ sym (append_assoc h (p ++ s) (d ++ c))

  frame_content : frame h p s d c ≡ (h ++ (p ++ (s ++ d))) ++ (c ++ [])
  frame_content =
      ap (◌++◌ h) (ap (◌++◌ p) (sym (append_assoc s d c)) ∙ sym (append_assoc p (s ++ d) c))
      ∙ sym (append_assoc h (p ++ (s ++ d)) c)
      ∙ ap (◌++◌ (h ++ (p ++ (s ++ d)))) (sym (append-nil c))

module _ (h p s d c : List ℕ) (head : length h ≡ 8) (id : length p ≡ 4) where
  pub fill_id : (x : List ℕ) → copy_at (frame h p s d c) 8 12 x ≡ frame h (copy p x) s d c
  fill_id x = copy_at-parts h p (s ++ (d ++ c)) 8 12 (omega arith) (omega arith) x

  pub fill_source :
      (x : List ℕ) (to : ℕ)
      → to ≡ 12 + length s
      → copy_at (frame h p s d c) 12 to x ≡ frame h p (copy s x) d c
  fill_source x to e =
      ap (λ (b : List ℕ). copy_at b 12 to x) (frame_source h p s d c)
      ∙ copy_at-parts (h ++ p) s (d ++ c) 12 to (omega (arith, length-append h p)) (omega arith) x
      ∙ sym (frame_source h p (copy s x) d c)

  pub fill_dest :
      (x : List ℕ) (from to : ℕ)
      → from ≡ 12 + length s
      → to ≡ from + length d
      → copy_at (frame h p s d c) from to x ≡ frame h p s (copy d x) c
  fill_dest x from to e f =
      ap (λ (b : List ℕ). copy_at b from to x) (frame_dest h p s d c)
      ∙ copy_at-parts (h ++ (p ++ s)) d c from to
          (omega (arith, length-append h (p ++ s), length-append p s)) f x
      ∙ sym (frame_dest h p s (copy d x) c)

  pub fill_content :
      (x : List ℕ) (from to : ℕ)
      → from ≡ 12 + length s + length d
      → to ≡ from + length c
      → copy_at (frame h p s d c) from to x ≡ frame h p s d (copy c x)
  fill_content x from to e f =
      ap (λ (b : List ℕ). copy_at b from to x) (frame_content h p s d c)
      ∙ copy_at-parts (h ++ (p ++ (s ++ d))) c [] from to
          (omega
            (arith, length-append h (p ++ (s ++ d)), length-append p (s ++ d), length-append s d))
          f x
      ∙ sym (frame_content h p s d (copy c x))

  pub slice_source : (to : ℕ) → to ≡ 12 + length s → slice (frame h p s d c) 8 to ≡ p ++ s
  slice_source to e =
      ap (λ (b : List ℕ). slice b 8 to) (ap (◌++◌ h) (sym (append_assoc p s (d ++ c))))
      ∙ slice-parts h (p ++ s) (d ++ c) 8 to (omega arith) (omega (arith, length-append p s))

  pub slice_dest :
      (from to : ℕ)
      → from ≡ 12 + length s
      → to ≡ from + length d
      → slice (frame h p s d c) from to ≡ d
  slice_dest from to e f =
      ap (λ (b : List ℕ). slice b from to) (frame_dest h p s d c)
      ∙ slice-parts (h ++ (p ++ s)) d c from to
          (omega (arith, length-append h (p ++ s), length-append p s)) f

  pub slice_content :
      (from to : ℕ)
      → from ≡ 12 + length s + length d
      → to ≡ from + length c
      → slice (frame h p s d c) from to ≡ c
  slice_content from to e f =
      ap (λ (b : List ℕ). slice b from to) (frame_content h p s d c)
      ∙ slice-parts (h ++ (p ++ (s ++ d))) c [] from to
          (omega
            (arith, length-append h (p ++ (s ++ d)), length-append p (s ++ d), length-append s d))
          f

  pub drop_meta : drop 8 (frame h p s d c) ≡ p ++ (s ++ (d ++ c))
  drop_meta = drop-append 8 h (p ++ (s ++ (d ++ c))) (sym head)

-- Any buffer of the right length is made of such parts.
pub frame_of :
    (buf : List ℕ) (s d c : ℕ)
    → length buf ≡ 8 + (4 + (s + (d + c)))
    → (h p s' d' c' : List ℕ) × (buf ≡ frame h p s' d' c')
      × (length h ≡ 8)
      × (length p ≡ 4)
      × (length s' ≡ s)
      × (length d' ≡ d)
      × (length c' ≡ c)
frame_of buf s d c e =
    let (h, r1, e1, l1, k1) = split_at 8 (4 + (s + (d + c))) buf e in
    let (p, r2, e2, l2, k2) = split_at 4 (s + (d + c)) r1 k1 in
    let (s', r3, e3, l3, k3) = split_at s (d + c) r2 k2 in
    let (d', c', e4, l4, k4) = split_at d c r3 k3 in
    let whole = e1 ∙ ap (◌++◌ h) (e2 ∙ ap (◌++◌ p) (e3 ∙ ap (◌++◌ s') e4)) in
    (h, p, s', d', c', whole, l1, l2, l3, l4, k4)
