-- ===== src/Message/Receive/Parts.antt =====
-- message/message.go: how the parts of a received message land in the new buffer.
use multisocket.Prelude.{
  ℕ, zero, suc, ◌+◌, ◌-◌, ◌≤◌, ◌<◌, ◌≡◌, refl, ap, sym, ◌∙◌, Bool, true, false, List, [], ◌∷◌, ◌++◌,
  length, drop, length-append, drop-append, arith, leb, ◌==◌, if◌then◌else◌, lt→ltb, le→leb,
}
use multisocket.Prelude.Bytes.{copy-append, put_u32}
use multisocket.Errs.{Outcome, ok, bounds, ◌>>=◌}
use multisocket.Message.{View, bytes_of}
use multisocket.Message.Wire.{IsView, frame, fill_dest, slice_dest}
use multisocket.Message.Receive.{to_dest, too_long, tail_from, cut, dest_region, copy_dest}

pub ok_then {ℓ κ} :
    {A : Type ℓ} {B : Type κ} (m : Outcome A) (f : A → Outcome B) {a : A}
    → m ≡ ok a
    → (m >>= f) ≡ f a
ok_then m f e = rw e

-- What the next node sees of a message that comes in on pipe `pid`.
abbrev pub advance : ℕ → View → View
advance pid v = record {
  meta = record (v.meta) {
    ttl = if v.meta.ttl == 0 then 255 else v.meta.ttl - 1;
    hops = v.meta.hops + 1;
    distance = if to_dest v.meta then v.meta.distance - 1 else v.meta.distance;
  };
  source = put_u32 pid ++ v.source;
  destination = if to_dest v.meta then drop 4 v.destination else v.destination;
  content = v.content;
}

-- The limits within which a message can be received: the counts do not wrap, a message to a
-- destination has one, the content is not too long.
pub record IsReceivable (max_length : ℕ) (v : View) : Type 0 where
  pub is_view : IsView v
  pub hops_fit : v.meta.hops < 255
  pub has_destination : to_dest v.meta ≡ true → 1 ≤ v.meta.distance
  pub short_enough : too_long max_length v.meta ≡ false

module _ (h p s d c : List ℕ) (head : length h ≡ 8) (id : length p ≡ 4) where
  -- An empty destination is nil, and has no bytes.
  pub dest_bytes :
      (size from : ℕ)
      → size ≡ length d
      → from ≡ 12 + length s
      → bytes_of (frame h p s d c) (dest_region size from) ≡ d
  unfolding bytes_of
  dest_bytes zero from e f = nothing d e
    where
      nothing : (d : List ℕ) → 0 ≡ length d → [] ≡ d
      nothing [] e = refl
      nothing (x ∷ xs) e = absurd (omega arith)
  dest_bytes (suc size) from e f =
      rw (lt→ltb 0 (suc size) (omega arith))
        (slice_dest h p s d c head id from (from + suc size) f (omega arith))

  pub copy_dest_lem :
      (size from : ℕ) (x rest : List ℕ)
      → size ≡ length d
      → from ≡ 12 + length s
      → length d ≡ length x
      → copy_dest size (frame h p s d c) from (x ++ rest) ≡ frame h p s x c
  copy_dest_lem zero from x rest e f g = ap (λ (y : List ℕ). frame h p s y c) (nothing d x e g)
    where
      nothing : (d x : List ℕ) → 0 ≡ length d → length d ≡ length x → d ≡ x
      nothing [] [] e g = refl
      nothing [] (x ∷ xs) e g = absurd (omega arith)
      nothing (d ∷ ds) x e g = absurd (omega arith)
  copy_dest_lem (suc size) from x rest e f g = rw (lt→ltb 0 (suc size) (omega arith)) (
      fill_dest h p s d c head id (x ++ rest) from (from + suc size) f (omega arith)
      ∙ ap (λ (y : List ℕ). frame h p s y c) (copy-append d x rest g))

-- A cut takes off what it should.
pub cut_lem :
    (b : Bool) (xs ys : List ℕ) (n : ℕ)
    → length xs ≡ (if b then n else 0)
    → cut b (xs ++ ys) n ≡ ok ys
cut_lem true xs ys n e =
    ok_then (bounds (leb n (length (xs ++ ys)))) (λ _. ok (drop n (xs ++ ys)))
      (rw (le→leb n (length (xs ++ ys)) (omega (arith, length-append xs ys))))
    ∙ ap ok (drop-append n xs ys (sym e))
cut_lem false [] ys n e = refl
cut_lem false (x ∷ xs) ys n e = absurd (omega arith)

pub tail_from_lem : (xs ys : List ℕ) (n : ℕ) → length xs ≡ n → tail_from (xs ++ ys) n ≡ ok ys
tail_from_lem xs ys n e = cut_lem true xs ys n e
