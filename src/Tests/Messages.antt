-- ===== src/Tests/Messages.antt =====
-- message/message.go at concrete inputs.
use mathlib.Core.Path.{subst}
use multisocket.Prelude.{
  ℕ, ◌≡◌, refl, sym, some, List, [], ◌∷◌, ◌++◌, replicate, length-replicate, arith, inr,
}
use multisocket.Prelude.Bytes.{slice}
use multisocket.Errs.{◌>>=◌, ok, panic, eof}
use multisocket.Bytespool.{alloc, IsHanded}
use multisocket.Message.{Meta, Message, View, view, encode, encode_meta, bytes_of, send_type}
use multisocket.Message.Wire.{wire, IsView}
use multisocket.Message.Receive.{
  new_message_from_bytes, new_message_from_msg, new_message_from_reader,
}
use multisocket.Message.Receive.Parts.{IsReceivable, advance}
use multisocket.Message.Receive.Bytes.{new_message_from_bytes-wire}
use multisocket.Message.Receive.Framing.{reader}
use multisocket.Message.Receive.Agree.{reader_agrees}
use multisocket.Message.Receive.Direct.{new_message_from_msg-view, self_copy, stale}
use multisocket.Message.Receive.Faults.{new_message_from_bytes_panics}
use multisocket.Message.Send.{new_send_message}
use multisocket.Message.Send.Laws.{new_send_message-wire, sent}

abbrev pub zeros : ℕ → List ℕ
zeros n = replicate n 0

pub zeros-IsHanded : IsHanded zeros
zeros-IsHanded s = length-replicate s 0

-- A message to pipe 9 that has come over pipe 7, with two bytes of content.
abbrev pub hello : View
hello = record {
  meta = record { flags = 2; ttl = 3; hops = 1; distance = 1; content_length = 2 };
  source = 0 ∷ 0 ∷ 0 ∷ 7 ∷ [];
  destination = 0 ∷ 0 ∷ 0 ∷ 9 ∷ [];
  content = 104 ∷ 105 ∷ [];
}

pub hello-IsView : IsView hello
hello-IsView = record {
  meta_fits = record {
    flags_fit = omega arith;
    ttl_fits = omega arith;
    hops_fit = omega arith;
    distance_fits = omega arith;
    length_fits = omega arith;
  };
  hops_count = refl;
  distance_count = refl;
  content_count = refl;
}

pub hello-IsReceivable : IsReceivable 100 hello
hello-IsReceivable = record {
  is_view = hello-IsView;
  hops_fit = omega arith;
  has_destination = λ e. omega arith;
  short_enough = refl;
}

abbrev pub hello_msg : Message
hello_msg = record {
  buf = 0 ∷ 0 ∷ 0 ∷ 0 ∷ 0 ∷ 0 ∷ 0 ∷ 0 ∷ 0 ∷ 0 ∷ 0 ∷ 7 ∷ 0 ∷ 0 ∷ 0 ∷ 9 ∷ 104 ∷ 105 ∷ [];
  meta = hello.meta;
  source = some (record { from = 8; to = 12 });
  destination = some (record { from = 12; to = 16 });
  content = some (record { from = 16; to = 18 });
}

pub hello-view : view hello_msg ≡ hello
unfolding view bytes_of slice
hello-view = refl

pub hello-encode : encode hello_msg ≡ ok (wire hello)
unfolding encode
hello-encode = refl

new_message_from_bytes-wire_example :
    (msg : Message) × (new_message_from_bytes (alloc zeros) 5 (wire hello) 100 ≡ ok msg)
    × (view msg ≡ advance 5 hello)
    × (encode msg ≡ ok (wire (advance 5 hello)))
new_message_from_bytes-wire_example =
    new_message_from_bytes-wire zeros 5 100 hello zeros-IsHanded hello-IsReceivable (omega arith)

reader_agrees_example :
    new_message_from_reader
      (alloc zeros)
      5
      (reader
        (encode_meta hello.meta
          ++ ((hello.source ++ (hello.destination ++ hello.content)) ++ (1 ∷ [])))
        eof)
      100
    ≡ (new_message_from_bytes
          (alloc zeros)
          5
          (encode_meta hello.meta ++ (hello.source ++ (hello.destination ++ hello.content)))
          100
        >>= λ msg. ok (msg, reader (1 ∷ []) eof))
reader_agrees_example =
    reader_agrees zeros 5 100 zeros-IsHanded hello.meta
      (hello.source ++ (hello.destination ++ hello.content)) (1 ∷ []) eof hello-IsView.meta_fits
      refl (omega arith) (λ fits to. omega arith)

hello_msg-IsReceivable : IsReceivable 100 (view hello_msg)
hello_msg-IsReceivable = subst (IsReceivable 100) (sym hello-view) hello-IsReceivable

new_message_from_msg-view_example :
    (msg : Message) × (new_message_from_msg (alloc zeros) 5 hello_msg 100 ≡ ok msg)
    × (view msg ≡ record (advance 5 (view hello_msg)) {
      destination = self_copy (stale zeros 5 100 hello_msg zeros-IsHanded hello_msg-IsReceivable);
    })
new_message_from_msg-view_example =
    new_message_from_msg-view zeros 5 100 hello_msg zeros-IsHanded hello_msg-IsReceivable

abbrev arrived : Meta
arrived = record { flags = 2; ttl = 3; hops = 0; distance = 0; content_length = 1 }

new_message_from_bytes_panics_example :
    new_message_from_bytes zeros 5 (encode_meta arrived ++ (1 ∷ [])) 100 ≡ panic
unfolding send_type
new_message_from_bytes_panics_example =
    new_message_from_bytes_panics zeros 5 100 arrived (1 ∷ [])
      (record {
        flags_fit = omega arith;
        ttl_fits = omega arith;
        hops_fit = omega arith;
        distance_fits = omega arith;
        length_fits = omega arith;
      })
      refl refl (inr (omega arith, refl, refl, omega arith))

new_send_message-wire_example :
    (view (new_send_message (alloc zeros) 0 2 0 [] (0 ∷ 0 ∷ 0 ∷ 9 ∷ []) (1 ∷ []))
      ≡ sent 0 2 0 [] (0 ∷ 0 ∷ 0 ∷ 9 ∷ []) (1 ∷ []))
    × (encode (new_send_message (alloc zeros) 0 2 0 [] (0 ∷ 0 ∷ 0 ∷ 9 ∷ []) (1 ∷ []))
        ≡ ok (wire (sent 0 2 0 [] (0 ∷ 0 ∷ 0 ∷ 9 ∷ []) (1 ∷ []))))
new_send_message-wire_example =
    new_send_message-wire zeros 0 2 0 [] (0 ∷ 0 ∷ 0 ∷ 9 ∷ []) (1 ∷ []) zeros-IsHanded (omega arith)
      (omega arith) (omega arith)
