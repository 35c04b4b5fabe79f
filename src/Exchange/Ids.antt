-- ===== src/Exchange/Ids.antt =====
-- connector/pipe.go, connector/connector.go, utils/id.go and socket.go together: the ids of pipes
-- over their lives. newPipe takes an id and addPipe hands the pipe to the connector, whose handler is
-- the socket; Close of a pipe takes it out again and gives the id back.
use multisocket.Prelude.{
  ℕ, ◌≡◌, refl, ap, sym, ◌∙◌, Bool, true, false, Option, none, some, List, [], ◌∷◌, arith,
  if◌then◌else◌, inl, inr, Bool-cases, Option-cases, ◌==◌, ◌&&◌, ◌⊎◌,
}
use multisocket.Prelude.Assoc.{lookup, lookup-insert, lookup-delete}
use multisocket.Errs.{Err, Outcome, ok, err, panic}
use multisocket.Message.{FreeLevel}
use multisocket.Utils.Id.{
  RecyclableIdGenerator, contains, next_id, recycle, new_recyclable_id_generator,
}
use multisocket.Utils.Id.Fresh.{next_id_fresh, contains-recycle}
use multisocket.Connector.{Connector, PipeRef, has_place, get_pipe}
use multisocket.Connector
use multisocket.Connector.Pipes.{
  add_pipe-held, rem_pipe_lem, add_pipe-has_handler, rem_pipe-has_handler,
}
use multisocket.Socket.{Socket}
use multisocket.Socket
use multisocket.Socket.Own.{rem_pipe-found, rem_pipe-missing}
use multisocket.Prelude.Queue.{make}

pub record World : Type 0 where
  pub ids : RecyclableIdGenerator
  pub connector : Connector
  pub socket : Socket

-- What the socket does when its handler hears of a new pipe, and of one that is gone.
abbrev pub heard_add : Bool → ℕ → Socket → Socket
heard_add false id s = s
heard_add true id s = Socket.add_pipe id false FreeLevel.free_all s

abbrev pub heard_remove : Bool → ℕ → Socket → Socket
heard_remove false id s = s
heard_remove true id s = (Socket.rem_pipe id s).0

abbrev pub told : Option Err → Connector → Bool
told (some e) c = false
told none c = has_place c && c.has_handler

-- A connection becomes a pipe: newPipe, then addPipe. A panic, or a generator that finds no id, ends
-- the step.
abbrev pub with_added : Option Err → ℕ → RecyclableIdGenerator → World → Outcome Connector → World
with_added negotiated id g w (ok c) = record {
  ids = g;
  connector = c;
  socket = heard_add (told negotiated w.connector) id w.socket;
}
with_added negotiated id g w (err e) = w
with_added negotiated id g w panic = w

abbrev pub with_id : Option Err → Option ℕ → World → Option (ℕ × RecyclableIdGenerator) → World
with_id negotiated dialer w none = w
with_id negotiated dialer w (some (id, g)) =
    with_added negotiated id g w
      (Connector.add_pipe negotiated (record { id = id; dialer = dialer }) w.connector)

unfoldable pub connect : Option Err → Option ℕ → World → World
connect negotiated dialer w = with_id negotiated dialer w (next_id w.ids)

-- Close of a pipe: remPipe, then Recycle.
unfoldable pub disconnect : PipeRef → World → World
disconnect p w = record {
  ids = recycle p.id w.ids;
  connector = Connector.rem_pipe p w.connector;
  socket = heard_remove w.connector.has_handler p.id w.socket;
}

pub data Call : Type 0 where
  connects : Option Err → Option ℕ → Call
  disconnects : PipeRef → Call

unfoldable pub step : Call → World → World
unfolding connect disconnect
step (connects negotiated dialer) w = connect negotiated dialer w
step (disconnects p) w = disconnect p w

unfoldable pub steps : List Call → World → World
unfolding step
steps [] w = w
steps (c ∷ cs) w = steps cs (step c w)

-- Every pipe that the connector or the socket holds has an id in use. The socket has the handler.
pub record IsHeld (w : World) : Type 0 where
  pub by_connector :
      (j : ℕ) (p : PipeRef) → get_pipe j w.connector ≡ some p → contains w.ids.ids j ≡ true
  pub by_socket : (j : ℕ) → contains w.ids.ids j ≡ false → lookup j w.socket.pipes ≡ none
  pub handled : w.connector.has_handler ≡ true

socket_add :
    (heard : Bool) (id j : ℕ) (s : Socket)
    → (id == j) ≡ false
    → lookup j (heard_add heard id s).pipes ≡ lookup j s.pipes
unfolding Socket.add_pipe
socket_add false id j s n = refl
socket_add true id j s n = ground (
  arith,
  lookup-insert id j
      (record {
        raw = false;
        stopq_closed = false;
        sendq = make s.values.send_queue_size;
        free_level = FreeLevel.free_all;
      })
      s.pipes,
  n,
)

socket_remove :
    (id j : ℕ) (s : Socket)
    → lookup j (Socket.rem_pipe id s).0.pipes ≡ (if id == j then none else lookup j s.pipes)
socket_remove id j s = elim (Option-cases (lookup id s.pipes)) [
  | inl e ↦
      ap (λ (r : Socket × Option Socket.SocketPipe). lookup j r.0.pipes) (rem_pipe-missing id s e)
      ∙ missing e
  | inr (p, e) ↦
      ap (λ (r : Socket × Option Socket.SocketPipe). lookup j r.0.pipes) (rem_pipe-found id p s e)
      ∙ lookup-delete id j s.pipes
]
  where
    missing :
        lookup id s.pipes ≡ none → lookup j s.pipes ≡ (if id == j then none else lookup j s.pipes)
    missing e = elim (Bool-cases (id == j)) [
      | inl b ↦
          let same : id ≡ j = ground (arith, b) in
          let gone : lookup j s.pipes ≡ none = ap (λ (k : ℕ). lookup k s.pipes) (sym same) ∙ e in
          ground (arith, b, gone)
      | inr b ↦ ground (arith, b)
    ]

contains-cons :
    (x j : ℕ) (xs : List ℕ) → contains (x ∷ xs) j ≡ (if x == j then true else contains xs j)
unfolding contains
contains-cons x j xs = ground arith

added-IsHeld :
    (negotiated : Option Err) (dialer : Option ℕ) (id : ℕ) (g : RecyclableIdGenerator)
    (c : Connector) (w : World)
    → next_id w.ids ≡ some (id, g)
    → Connector.add_pipe negotiated (record { id = id; dialer = dialer }) w.connector ≡ ok c
    → IsHeld w
    → IsHeld (with_added negotiated id g w (ok c))
added-IsHeld negotiated dialer id g c w n e h = record {
  by_connector = λ j p k.
      elim (add_pipe-held negotiated (record { id = id; dialer = dialer }) p w.connector c j e k) [
        | inl same ↦ ground (arith, grows j, same)
        | inr before ↦ ground (arith, grows j, h.by_connector j p before)
      ];
  by_socket = λ j k.
      let apart : (id == j) ≡ false = ground (arith, grows j, k) in
      let before : contains w.ids.ids j ≡ false = ground (arith, grows j, k, apart) in
      socket_add (told negotiated w.connector) id j w.socket apart ∙ h.by_socket j before;
  handled =
      add_pipe-has_handler negotiated (record { id = id; dialer = dialer }) w.connector c e
      ∙ h.handled;
}
  where
    grows : (j : ℕ) → contains g.ids j ≡ (if id == j then true else contains w.ids.ids j)
    grows j =
        let (_, _, _, now, _) = next_id_fresh w.ids id g n in
        ap (λ (x : List ℕ). contains x j) now ∙ contains-cons id j w.ids.ids

connect-IsHeld :
    (negotiated : Option Err) (dialer : Option ℕ) (w : World)
    → IsHeld w
    → IsHeld (connect negotiated dialer w)
unfolding connect
connect-IsHeld negotiated dialer w h = go (next_id w.ids) refl
  where
    add :
        (id : ℕ) (g : RecyclableIdGenerator) (o : Outcome Connector)
        → next_id w.ids ≡ some (id, g)
        → Connector.add_pipe negotiated (record { id = id; dialer = dialer }) w.connector ≡ o
        → IsHeld (with_added negotiated id g w o)
    add id g (ok c) n e = added-IsHeld negotiated dialer id g c w n e h
    add id g (err x) n e = h
    add id g panic n e = h

    go :
        (o : Option (ℕ × RecyclableIdGenerator))
        → next_id w.ids ≡ o
        → IsHeld (with_id negotiated dialer w o)
    go none n = h
    go (some (id, g)) n =
        add id g (Connector.add_pipe negotiated (record { id = id; dialer = dialer }) w.connector) n
          refl

disconnect-IsHeld : (p : PipeRef) (w : World) → IsHeld w → IsHeld (disconnect p w)
unfolding disconnect
disconnect-IsHeld p w h = record {
  by_connector = λ j q k.
      let left = (rem_pipe_lem p w.connector).0 j in
      let apart : (p.id == j) ≡ false = ground (arith, left, k) in
      let before : get_pipe j w.connector ≡ some q = ground (arith, left, k, apart) in
      ground (arith, contains-recycle w.ids p.id j, apart, h.by_connector j q before);
  by_socket = λ j k.
      ap (λ (b : Bool). lookup j (heard_remove b p.id w.socket).pipes) h.handled
      ∙ socket_remove p.id j w.socket
      ∙ absent j k;
  handled = rem_pipe-has_handler p w.connector ∙ h.handled;
}
  where
    absent :
        (j : ℕ)
        → contains (recycle p.id w.ids).ids j ≡ false
        → (if p.id == j then none else lookup j w.socket.pipes) ≡ none
    absent j k = elim (Bool-cases (p.id == j)) [
      | inl b ↦ ground (arith, b)
      | inr b ↦
          let before : contains w.ids.ids j ≡ false =
            ground (arith, contains-recycle w.ids p.id j, b, k) in
          let gone = h.by_socket j before in ground (arith, b, gone)
    ]

steps-IsHeld : (cs : List Call) (w : World) → IsHeld w → IsHeld (steps cs w)
unfolding steps step
steps-IsHeld [] w h = h
steps-IsHeld (connects negotiated dialer ∷ cs) w h =
    steps-IsHeld cs (connect negotiated dialer w) (connect-IsHeld negotiated dialer w h)
steps-IsHeld (disconnects p ∷ cs) w h = steps-IsHeld cs (disconnect p w) (disconnect-IsHeld p w h)

no_pipe : (j : ℕ) (c : Connector) → c.pipes ≡ [] → get_pipe j c ≡ none
unfolding get_pipe lookup
no_pipe j c e = ap (lookup j) e

no_socket_pipe : (j : ℕ) (s : Socket) → s.pipes ≡ [] → lookup j s.pipes ≡ none
unfolding lookup
no_socket_pipe j s e = ap (lookup j) e

-- With a new generator and a socket without pipes that listens to a connector without pipes, after any
-- calls by which connections become pipes and pipes close, the id that the next pipe gets is held
-- neither by the connector nor by the socket: so addPipe of the connector, and that of the socket,
-- never replace a pipe. And every pipe that the connector holds has its id in use.
pub new_pipe_unheld :
    (cs : List Call) (c : Connector) (s : Socket) (id : ℕ) (g : RecyclableIdGenerator)
    → c.pipes ≡ []
    → c.has_handler ≡ true
    → s.pipes ≡ []
    → next_id
        (steps cs (record { ids = new_recyclable_id_generator; connector = c; socket = s })).ids
      ≡ some (id, g)
    → let w = steps cs (record { ids = new_recyclable_id_generator; connector = c; socket = s }) in
      (get_pipe id w.connector ≡ none)
      × (lookup id w.socket.pipes ≡ none)
      × ((j : ℕ) → (get_pipe j w.connector ≡ none) ⊎ (contains w.ids.ids j ≡ true))
new_pipe_unheld cs c s id g ec handler es n =
    let w : World =
      steps cs (record { ids = new_recyclable_id_generator; connector = c; socket = s }) in
    let h : IsHeld w = steps-IsHeld cs _ start in
    let (_, _, fresh, _, _) = next_id_fresh w.ids id g n in
    let unheld : get_pipe id w.connector ≡ none = elim (Option-cases (get_pipe id w.connector)) [
      | inl e ↦ e
      | inr (p, e) ↦ absurd (ground (arith, fresh, h.by_connector id p e))
    ] in
    (
      unheld,
      h.by_socket id fresh,
      λ j. elim (Option-cases (get_pipe j w.connector)) [
        | inl e ↦ inl e
        | inr (p, e) ↦ inr (h.by_connector j p e)
      ],
    )
  where
    start : IsHeld (record { ids = new_recyclable_id_generator; connector = c; socket = s })
    start = record {
      by_connector = λ j p k. absurd (cc (k, no_pipe j c ec));
      by_socket = λ j k. no_socket_pipe j s es;
      handled = handler;
    }
