-- ===== src/Transport/Ws/Stream.antt =====
-- transport/ws/ws.go: the bytes that Read gives, and the packets that Recv gives.
use mathlib.Core.List.{append_assoc, append-nil}
use mathlib.Core.Path.{subst}
use multisocket.Prelude.{
  ◌⊎◌, inl, inr, All, ℕ, zero, suc, ◌≤◌, ◌≡◌, ◌≢◌, refl, ap, sym, ◌∙◌, Bool, true, false, Option,
  none, some, List, [], ◌∷◌, ◌++◌, length, take, drop, take-append-drop, length-take, arith,
}
use multisocket.Errs.{Err, Outcome, ok, err, panic}
use multisocket.Transport.Ws.{
  Incoming, WsConn, Chunk, ending, size_of, at_end, reader_read, Read, got, failed, is_eof,
  after_end, after_reader, read_next, read_from, read, put_last, recv_next, get_buf, copied, recv,
}

abbrev pub joined : List Incoming → List ℕ
joined [] = []
joined (m ∷ ms) = m.bytes ++ joined ms

abbrev pub left_of : Option Incoming → List ℕ
left_of none = []
left_of (some m) = m.bytes

-- The bytes that have not been read.
abbrev pub unread : WsConn → List ℕ
unread c = left_of c.r ++ joined c.messages

-- What one Read takes off the front of the stream.
abbrev pub IsFront : ℕ → List ℕ → Read → Type 0
IsFront n stream (got bs c) = (bs ++ unread c ≡ stream) × (length bs ≤ n) × ((n ≡ 0) ⊎ (bs ≢ []))
IsFront n stream (failed bs e c) = bs ++ unread c ≡ stream

-- What a Read of one message gives: the front of it; an error only at its end.
abbrev IsPart : ℕ → List ℕ → List ℕ × Option Err × Incoming → Type 0
IsPart n xs (bs, none, m) = (bs ++ m.bytes ≡ xs) × (length bs ≤ n) × ((n ≡ 0) ⊎ (bs ≢ []))
IsPart n xs (bs, some e, m) = (bs ++ m.bytes ≡ xs) × (length bs ≤ n) × (m.bytes ≡ [])

some_taken :
    (k : Chunk) (n : ℕ) (b : ℕ) (bs : List ℕ) → (n ≡ 0) ⊎ (take (size_of k n) (b ∷ bs) ≢ [])
some_taken k zero b bs = inl refl
some_taken k (suc n) b bs =
    inr (λ e. omega (arith, length-take (size_of k (suc n)) (b ∷ bs), ap length e))

reader_read-IsPart :
    (k : Chunk) (n : ℕ) (m : Incoming) (xs : List ℕ)
    → m.bytes ≡ xs
    → IsPart n xs (reader_read k n m xs)
reader_read-IsPart k n m [] e = (e, omega arith, e)
reader_read-IsPart k n m (b ∷ bs) e = go k.early (drop (size_of k n) (b ∷ bs)) refl
  where
    taken : List ℕ
    taken = take (size_of k n) (b ∷ bs)

    few : length taken ≤ n
    few = omega (arith, length-take (size_of k n) (b ∷ bs))

    whole : taken ++ drop (size_of k n) (b ∷ bs) ≡ b ∷ bs
    whole = take-append-drop (size_of k n) (b ∷ bs)

    go :
        (early : Bool) (rest : List ℕ)
        → drop (size_of k n) (b ∷ bs) ≡ rest
        → IsPart n (b ∷ bs) (taken, at_end early rest (ending m), record m { bytes = rest })
    go true [] f = (ap (◌++◌ taken) (sym f) ∙ whole, few, refl)
    go false [] f = (ap (◌++◌ taken) (sym f) ∙ whole, few, some_taken k n b bs)
    go early (r ∷ rs) f = (ap (◌++◌ taken) (sym f) ∙ whole, few, some_taken k n b bs)

after_reader-IsFront :
    (n : ℕ) (xs : List ℕ) (c : WsConn) (next : Read) (o : List ℕ × Option Err × Incoming)
    → IsPart n xs o
    → IsFront n (joined c.messages) next
    → IsFront n (xs ++ joined c.messages) (after_reader c next o)
after_reader-IsFront n xs c next (bs, none, m) (whole, few, room) f = (
  sym (append_assoc bs m.bytes (joined c.messages))
      ∙ ap (λ (x : List ℕ). x ++ joined c.messages) whole,
  few,
  room,
)
after_reader-IsFront n xs c next (bs, some e, m) (whole, few, nothing) f = go (is_eof e) bs few now
  where
    now : bs ≡ xs
    now = sym (append-nil bs) ∙ ap (◌++◌ bs) (sym nothing) ∙ whole

    go :
        (b : Bool) (ys : List ℕ)
        → length ys ≤ n
        → ys ≡ xs
        → IsFront n (xs ++ joined c.messages) (after_end c next b ys e m)
    go true [] l p = subst (λ (x : List ℕ). IsFront n (x ++ joined c.messages) next) p f
    go true (y ∷ ys) l p = (ap (λ (x : List ℕ). x ++ joined c.messages) p, l, inr (λ z. cc))
    go false ys l p =
        ap (λ (x : List ℕ). ys ++ (x ++ joined c.messages)) nothing
        ∙ ap (λ (x : List ℕ). x ++ joined c.messages) p

read_next-IsFront :
    (k : Chunk) (n : ℕ) (c : WsConn) (ms : List Incoming)
    → IsFront n (joined ms) (read_next k n c ms)
unfolding read_next
read_next-IsFront k n c [] = refl
read_next-IsFront k n c (m ∷ ms) =
    after_reader-IsFront n m.bytes (record c { messages = ms }) (read_next k n c ms)
      (reader_read k n m m.bytes) (reader_read-IsPart k n m m.bytes refl)
      (read_next-IsFront k n c ms)

read-IsFront : (k : Chunk) (n : ℕ) (c : WsConn) → IsFront n (unread c) (read k n c)
unfolding read
read-IsFront k n c = go c.r
  where
    go : (r : Option Incoming) → IsFront n (left_of r ++ joined c.messages) (read_from k n c r)
    go none = read_next-IsFront k n c c.messages
    go (some m) =
        after_reader-IsFront n m.bytes c (read_next k n c c.messages) (reader_read k n m m.bytes)
          (reader_read-IsPart k n m m.bytes refl) (read_next-IsFront k n c c.messages)

-- Reads, one after the other, by what the readers do and the room that the caller gives; the bytes
-- that they gave, and the connection.
abbrev pub and_read : List ℕ → List ℕ × WsConn → List ℕ × WsConn
and_read bs (more, c) = (bs ++ more, c)

abbrev pub go_on : (WsConn → List ℕ × WsConn) → Read → List ℕ × WsConn
go_on next (got bs c) = and_read bs (next c)
go_on next (failed bs e c) = (bs, c)

abbrev pub reads : List (Chunk × ℕ) → WsConn → List ℕ × WsConn
reads [] c = ([], c)
reads ((k, n) ∷ calls) c = go_on (reads calls) (read k n c)

go_on-order :
    (n : ℕ) (c : WsConn) (next : WsConn → List ℕ × WsConn) (o : Read)
    → IsFront n (unread c) o
    → ((c' : WsConn) → (next c').0 ++ unread (next c').1 ≡ unread c')
    → (go_on next o).0 ++ unread (go_on next o).1 ≡ unread c
go_on-order n c next (got bs c') f further =
    append_assoc bs (next c').0 (unread (next c').1) ∙ ap (◌++◌ bs) (further c') ∙ f.0
go_on-order n c next (failed bs e c') f further = f

-- Whatever Reads follow each other, until the first that fails, and whatever the readers of the
-- messages do within io.Reader's contract, the bytes that they gave and then the bytes that are left
-- are the bytes of the messages, in order, with no trace of where one message ends; and a Read with
-- room gives a byte unless it fails.
pub ws_bytes_in_order :
    (calls : List (Chunk × ℕ)) (c : WsConn)
    → ((reads calls c).0 ++ unread (reads calls c).1 ≡ unread c)
      × ((k : Chunk) (n : ℕ) → IsFront n (unread c) (read k n c))
ws_bytes_in_order [] c = (refl, λ k n. read-IsFront k n c)
ws_bytes_in_order ((k, n) ∷ calls) c = (
  go_on-order n c (reads calls) (read k n c) (read-IsFront k n c)
      (λ c'. (ws_bytes_in_order calls c').0),
  λ k' n'. read-IsFront k' n' c,
)

-- Recvs until one fails, `fuel` at most: what they gave, the error, and the connection. `picks` chooses
-- the buffers.
abbrev pub and_packet :
    List ℕ → List (List ℕ) × Option Err × WsConn → List (List ℕ) × Option Err × WsConn
and_packet b (bs, e, c) = (b ∷ bs, e, c)

abbrev pub recv_on :
    (WsConn → List (List ℕ) × Option Err × WsConn)
    → Outcome (List ℕ) × WsConn
    → List (List ℕ) × Option Err × WsConn
recv_on next (ok b, c) = and_packet b (next c)
recv_on next (err e, c) = ([], some e, c)
recv_on next (panic, c) = ([], none, c)

abbrev pub recvs : (ℕ → ℕ) → ℕ → WsConn → List (List ℕ) × Option Err × WsConn
recvs picks zero c = ([], none, c)
recvs picks (suc n) c = recv_on (recvs picks n) (recv (picks n) c)

abbrev pub packets : List Incoming → List (List ℕ)
packets [] = []
packets (m ∷ ms) = m.bytes ∷ packets ms

abbrev pub held : Option (List ℕ) → List (List ℕ)
held none = []
held (some b) = b ∷ []

put_last-put_back :
    (o : Option (List ℕ)) (c : WsConn) → (put_last o c).put_back ≡ c.put_back ++ held o
put_last-put_back none c = sym (append-nil c.put_back)
put_last-put_back (some b) c = refl

put_last-messages : (o : Option (List ℕ)) (c : WsConn) → (put_last o c).messages ≡ c.messages
put_last-messages none c = refl
put_last-messages (some b) c = refl

put_last-end : (o : Option (List ℕ)) (c : WsConn) → (put_last o c).end ≡ c.end
put_last-end none c = refl
put_last-end (some b) c = refl

abbrev pub IsEmpty : List ℕ → Type 0
IsEmpty b = b ≡ []

put_last-pool :
    (o : Option (List ℕ)) (c : WsConn) → All IsEmpty c.pool → All IsEmpty (put_last o c).pool
put_last-pool none c h = h
put_last-pool (some b) c h = (refl, h)

get_buf-IsEmpty :
    (pick : ℕ) (pool : List (List ℕ))
    → All IsEmpty pool
    → ((get_buf pick pool).0 ≡ []) × All IsEmpty (get_buf pick pool).1
get_buf-IsEmpty pick [] h = (refl, tt)
get_buf-IsEmpty zero (b ∷ bs) h = h
get_buf-IsEmpty (suc pick) (b ∷ bs) h =
    let (first, rest) = get_buf-IsEmpty pick bs (h.1) in (first, (h.0, rest))

recv_at :
    (pick : ℕ) (c : WsConn) (ms : List Incoming)
    → c.messages ≡ ms
    → recv pick c ≡ recv_next pick (put_last c.last_buf c) ms
unfolding recv
recv_at pick c ms e =
    ap (recv_next pick (put_last c.last_buf c)) (put_last-messages c.last_buf c ∙ e)

-- Recv, called until it fails, gives the messages in the order in which they came, one by one and with
-- all the bytes that came of each and no others, and then the error of the connection, in one call more
-- than there are messages; and every buffer that it handed out is back in the pool, once each and in
-- order, and all buffers of the pool are empty. They were at the start, and the pool may hand out any.
-- A message that was broken off is given like a whole one, since the error of reading it is not looked
-- at.
pub recvs-packets :
    (picks : ℕ → ℕ) (c : WsConn) (ms : List Incoming)
    → c.messages ≡ ms
    → All IsEmpty c.pool
    → ((recvs picks (suc (length ms)) c).0 ≡ packets ms)
      × ((recvs picks (suc (length ms)) c).1 ≡ some c.end)
      × ((recvs picks (suc (length ms)) c).2.put_back
          ≡ (c.put_back ++ held c.last_buf) ++ packets ms)
      × All IsEmpty (recvs picks (suc (length ms)) c).2.pool
recvs-packets picks c [] e h =
    let at : recv (picks 0) c
        ≡ (err (put_last c.last_buf c).end, record (put_last c.last_buf c) { r = none }) =
      recv_at (picks 0) c [] e in
    (
      ap (λ o. (recv_on (recvs picks 0) o).0) at,
      ap (λ o. (recv_on (recvs picks 0) o).1) at ∙ ap some (put_last-end c.last_buf c),
      ap (λ o. (recv_on (recvs picks 0) o).2.put_back) at
          ∙ put_last-put_back c.last_buf c
          ∙ sym (append-nil (c.put_back ++ held c.last_buf)),
      subst (λ o. All IsEmpty (recv_on (recvs picks 0) o).2.pool) (sym at)
          (put_last-pool c.last_buf c h),
    )
recvs-packets picks c (m ∷ ms) e h =
    let n = suc (length ms) in
    let base : WsConn = put_last c.last_buf c in
    let pool : List (List ℕ) = (get_buf (picks n) base.pool).1 in
    let c' : WsConn = record base {
      messages = ms;
      r = some (record m { bytes = [] });
      last_buf = some m.bytes;
      pool = pool;
    } in
    let (old, empty) = get_buf-IsEmpty (picks n) base.pool (put_last-pool c.last_buf c h) in
    let (all, last, back, still) = recvs-packets picks c' ms refl empty in
    let at : recvs picks (suc n) c ≡ and_packet m.bytes (recvs picks n c') =
      ap (recv_on (recvs picks n)) (recv_at (picks n) c (m ∷ ms) e)
      ∙ ap (λ (b : List ℕ). recv_on (recvs picks n) (copied base m ms (b, pool))) old in
    (
      ap (λ o. o.0) at ∙ ap (◌∷◌ m.bytes) all,
      ap (λ o. o.1) at ∙ last ∙ ap some (put_last-end c.last_buf c),
      ap (λ o. o.2.put_back) at
          ∙ back
          ∙ ap (λ (x : List (List ℕ)). (x ++ (m.bytes ∷ [])) ++ packets ms)
              (put_last-put_back c.last_buf c)
          ∙ append_assoc (c.put_back ++ held c.last_buf) (m.bytes ∷ []) (packets ms),
      subst (λ o. All IsEmpty o.2.pool) (sym at) still,
    )
