-- ===== src/Connector/Pipe/Laws.antt =====
-- connector/pipe.go: a message over a pair of pipes, and the end of a stream.
use multisocket.Prelude.{
  ℕ, ◌+◌, ◌<◌, ◌≡◌, refl, ap, ◌≢◌, true, false, Option, none, some, List, [], ◌∷◌, ◌++◌,
  if◌then◌else◌, arith, ◌⊎◌, inl, inr,
}
use multisocket.Bytespool.{alloc, IsHanded}
use multisocket.Errs.{Err, Outcome, ok, err, closed, eof}
use multisocket.Message.{Message, View, view, encode, has_flags, msg_flag_raw}
use multisocket.Message.Wire.{wire}
use multisocket.Message.Receive.{Reader}
use multisocket.Message.Receive.Parts.{advance, IsReceivable}
use multisocket.Message.Receive.Bytes.{new_message_from_bytes-wire}
use multisocket.Message.Receive.Framing.{reader, new_message_from_reader-wire}
use multisocket.Connector.Pipe.{
  Pipe, ignored, bytes, block, stream_msg, send_msg, recv_block_msg, recv_msg, receive, after_read,
}

module _ (get : ℕ → List ℕ) (msg : Message) (v : View) (p q : Pipe) (rest : List ℕ)
    (handed : IsHanded get) (plain : has_flags msg.meta msg_flag_raw ≡ false)
    (encodes : encode msg ≡ ok (wire v)) (r : IsReceivable q.max_recv_content_length v) where
  sends : (p.mode ≡ block) ⊎ (p.mode ≡ stream_msg) → send_msg p msg ≡ ok (bytes (wire v))
  unfolding send_msg
  sends (inl m) = ground (arith, m, plain, encodes)
  sends (inr m) = ground (arith, m, plain, encodes)

  -- What a packet pipe sends, the packet pipe at the other end receives, as `advance` says; and what a
  -- stream pipe sends, the stream pipe at the other end reads, up to the last byte of the message. So
  -- it is for every message that is not raw and can be received.
  pub recv-send :
      (p.mode ≡ block) ⊎ (p.mode ≡ stream_msg)
      → v.meta.hops + v.meta.distance < 256
      → (send_msg p msg ≡ ok (bytes (wire v)))
        × ((got : Message) × (recv_block_msg (alloc get) q (wire v) none ≡ (q, ok got))
            × (view got ≡ advance q.id v))
        × ((got : Message) × (recv_msg (alloc get) q (reader (wire v ++ rest) eof)
              ≡ (q, ok (got, reader rest eof)))
            × (view got ≡ advance q.id v))
  unfolding recv_block_msg recv_msg
  recv-send mode sum =
      let (a, e, s, _) =
        new_message_from_bytes-wire get q.id q.max_recv_content_length v handed r sum in
      let (b, f, t, _) =
        new_message_from_reader-wire get q.id q.max_recv_content_length v handed r rest eof in
      (
        sends mode,
        (a, ap (λ (o : Outcome Message). (q, o)) e, s),
        (b, ap (λ (o : Outcome (Message × Reader)). (after_read q o, o)) f, t),
      )

-- A raw message is not sent on over a pipe that encodes messages.
pub send_msg-raw :
    (p : Pipe) (msg : Message)
    → (p.mode ≡ block) ⊎ (p.mode ≡ stream_msg)
    → has_flags msg.meta msg_flag_raw ≡ true
    → send_msg p msg ≡ ok ignored
unfolding send_msg
send_msg-raw p msg (inl m) h = ground (arith, m, h)
send_msg-raw p msg (inr m) h = ground (arith, m, h)

-- What reading from a pipe does on every answer of the connection. Bytes are returned, with the end of
-- the stream behind them or not. The end of the stream alone closes the pipe, with ErrClosed, if the
-- option says so, and otherwise comes out as io.EOF on a pipe that stays open. Every other error
-- closes the pipe, and comes out as it is unless the pipe was closed before.
pub receive_cases :
    (p : Pipe) (got : List ℕ) (error : Option Err)
    → ((error ≡ none) × (receive p got error ≡ (p, ok got)))
      ⊎ ((error ≡ some eof) × (got ≢ []) × (receive p got error ≡ (p, ok got)))
      ⊎ ((error ≡ some eof)
          × (got ≡ [])
          × (receive p got error ≡ (
              if p.close_on_eof
              then (record p { is_closed = true }, err closed)
              else (p, err eof))))
      ⊎ ((e : Err) × (error ≡ some e)
          × (e ≢ eof)
          × ((receive p got error).0 ≡ record p { is_closed = true })
          × ((receive p got error).1 ≡ err (if p.is_closed then closed else e)))
unfolding receive
receive_cases p got none = inl (refl, refl)
receive_cases p [] (some eof) = inr (inr (inl (refl, refl, refl)))
receive_cases p (b ∷ bs) (some eof) = inr (inl (refl, (λ h. cc), refl))
receive_cases p got (some e) = inr (inr (inr (e, refl, (λ h. cc), ground arith, ground arith)))
