-- ===== src/Message/Send/Route.antt =====
-- message/message.go: a message over several hops, and the reply along its source.
use multisocket.Prelude.{
  ℕ, suc, ◌+◌, ◌≤◌, ◌<◌, ◌≡◌, refl, ap, ◌∙◌, true, false, List, [], ◌∷◌, length, length-append,
  length-drop, arith, Bool-cases, inl, inr,
}
use multisocket.Prelude.Bytes.{put_u32, length-put_u32}
use multisocket.Bytespool.{alloc, IsHanded}
use multisocket.Errs.{Outcome, ok, err, panic, ◌>>=◌}
use multisocket.Message.{View, Message, view, encode, send_type, cur_id, bytes_of}
use multisocket.Message.Wire.{wire, IsView}
use multisocket.Message.Receive.{to_dest, too_long, new_message_from_bytes}
use multisocket.Message.Receive.Parts.{ok_then, advance, IsReceivable}
use multisocket.Message.Receive.Bytes.{new_message_from_bytes-wire}

-- A message that is encoded, received and passed on over the pipes `pids` of the nodes on its way:
-- what a pipe sends is `Encode`, what it receives goes through NewMessageFromBytes.
pub transmit : (ℕ → List ℕ) → ℕ → List ℕ → Message → Outcome Message
transmit get max_length [] msg = ok msg
transmit get max_length (pid ∷ pids) msg = do
  bytes ← encode msg
  next ← new_message_from_bytes (alloc get) pid bytes max_length
  transmit get max_length pids next

-- The pipe ids that the nodes on the way of a message read in front of its destination, to choose the
-- pipe that they send it over; `pids` are the pipes at whose other ends it comes in.
abbrev pub chosen_on : (Message → List (Outcome ℕ)) → Outcome Message → List (Outcome ℕ)
chosen_on next (ok msg) = next msg
chosen_on next (err e) = []
chosen_on next panic = []

pub chosen : (ℕ → List ℕ) → ℕ → List ℕ → Message → List (Outcome ℕ)
chosen get max_length [] msg = []
chosen get max_length (pid ∷ pids) msg =
    cur_id (bytes_of msg.buf msg.destination)
    ∷ chosen_on (chosen get max_length pids)
        (encode msg >>= λ bytes. new_message_from_bytes (alloc get) pid bytes max_length)

abbrev pub relay : List ℕ → View → View
relay [] v = v
relay (pid ∷ pids) v = relay pids (advance pid v)

-- The message can make `n` hops more.
pub record Fits (max_length n : ℕ) (v : View) : Type 0 where
  pub is_view : IsView v
  pub room : v.meta.hops + v.meta.distance + n < 256
  pub far_enough : to_dest v.meta ≡ true → n ≤ v.meta.distance
  pub short_enough : too_long max_length v.meta ≡ false

pub Fits-IsReceivable :
    (max_length n : ℕ) (v : View) → Fits max_length (suc n) v → IsReceivable max_length v
Fits-IsReceivable max_length n v f = record {
  is_view = f.is_view;
  hops_fit = omega (arith, f.room);
  has_destination = λ e. omega (arith, f.far_enough e);
  short_enough = f.short_enough;
}

advance-IsView :
    (pid : ℕ) (v : View)
    → IsView v
    → v.meta.hops < 255
    → (to_dest v.meta ≡ true → 1 ≤ v.meta.distance)
    → IsView (advance pid v)
advance-IsView pid v w h k = record {
  meta_fits = record {
    flags_fit = w.meta_fits.flags_fit;
    ttl_fits = let t = w.meta_fits.ttl_fits in ground arith;
    hops_fit = omega arith;
    distance_fits = let t = w.meta_fits.distance_fits in ground arith;
    length_fits = w.meta_fits.length_fits;
  };
  hops_count =
      omega (arith, length-append (put_u32 pid) v.source, length-put_u32 pid, w.hops_count);
  distance_count = elim (Bool-cases (to_dest v.meta)) [
    | inl e ↦ rw e (omega (arith, length-drop 4 v.destination, w.distance_count, k e))
    | inr e ↦ rw e (w.distance_count)
  ];
  content_count = w.content_count;
}

advance-Fits :
    (max_length n pid : ℕ) (v : View)
    → Fits max_length (suc n) v
    → Fits max_length n (advance pid v)
unfolding send_type
advance-Fits max_length n pid v f =
    let room = f.room in
    let far = f.far_enough in
    record {
      is_view =
          advance-IsView pid v f.is_view (omega (arith, f.room))
            (λ e. omega (arith, f.far_enough e));
      room = ground (arith, room, far);
      far_enough = λ e. ground (arith, far e);
      short_enough = f.short_enough;
    }

-- What the nodes choose of a message with the view `v`, hop by hop.
abbrev pub trail : List ℕ → View → List (Outcome ℕ)
trail [] v = []
trail (pid ∷ pids) v = cur_id v.destination ∷ trail pids (advance pid v)

module _ (get : ℕ → List ℕ) (max_length : ℕ) (handed : IsHanded get) where
  -- Over pipes that the counts have room for, a message arrives at the last node as `advance` says,
  -- hop by hop.
  pub transmit-relay :
      (pids : List ℕ) (msg : Message) (v : View)
      → Fits max_length (length pids) v
      → encode msg ≡ ok (wire v)
      → view msg ≡ v
      → (last : Message) × (transmit get max_length pids msg ≡ ok last)
        × (view last ≡ relay pids v)
        × (encode last ≡ ok (wire (relay pids v)))
  unfolding transmit
  transmit-relay [] msg v f e s = (msg, refl, s, e)
  transmit-relay (pid ∷ pids) msg v f e s =
      let r = Fits-IsReceivable max_length (length pids) v f in
      let (next, received, seen, encoded) =
        new_message_from_bytes-wire get pid max_length v handed r (omega (arith, f.room)) in
      let (last, runs, viewed, again) =
        transmit-relay pids next (advance pid v) (advance-Fits max_length (length pids) pid v f)
          encoded seen in
      (
        last,
        ok_then (encode msg) _ e
            ∙ ok_then (new_message_from_bytes (alloc get) pid (wire v) max_length)
                (transmit get max_length pids) received
            ∙ runs,
        viewed,
        again,
      )

  pub chosen-trail :
      (pids : List ℕ) (msg : Message) (v : View)
      → Fits max_length (length pids) v
      → encode msg ≡ ok (wire v)
      → view msg ≡ v
      → chosen get max_length pids msg ≡ trail pids v
  unfolding chosen
  chosen-trail [] msg v f e s = refl
  chosen-trail (pid ∷ pids) msg v f e s =
      let r = Fits-IsReceivable max_length (length pids) v f in
      let (next, received, seen, encoded) =
        new_message_from_bytes-wire get pid max_length v handed r (omega (arith, f.room)) in
      let rest =
        chosen-trail pids next (advance pid v) (advance-Fits max_length (length pids) pid v f)
          encoded seen in
      let here : cur_id (bytes_of msg.buf msg.destination) ≡ cur_id v.destination =
        unfold view in ap (λ (w : View). cur_id w.destination) s in
      let there : (encode msg >>= λ bytes. new_message_from_bytes (alloc get) pid bytes max_length)
          ≡ ok next =
        ok_then (encode msg) _ e ∙ received in
      ap
        (◌∷ chosen_on (chosen get max_length pids)
          (encode msg >>= λ bytes. new_message_from_bytes (alloc get) pid bytes max_length))
        here
      ∙ ap (λ o. cur_id v.destination ∷ chosen_on (chosen get max_length pids) o) there
      ∙ ap (◌∷◌ (cur_id v.destination)) rest
