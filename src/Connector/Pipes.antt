-- ===== src/Connector/Pipes.antt =====
-- connector/connector.go: the pipes that a connector holds.
use multisocket.Prelude.{
  ℕ, ◌≤◌, ◌≡◌, refl, ap, sym, ◌∙◌, Bool, true, false, Option, none, some, ◌∷◌, length, ltb,
  if◌then◌else◌, arith, ◌⊎◌, inl, inr, Bool-cases, ◌==◌,
}
use multisocket.Prelude.Assoc.{lookup, insert, delete, lookup-insert, lookup-delete, length-insert}
use multisocket.Prelude.Int.{pos}
use multisocket.Errs.{Err, ok}
use multisocket.Connector.{
  Connector, PipeRef, pipe_event_add, pipe_event_remove, drop_pipe, has_place, check_limit,
  start_connecting, stop_connecting, add_pipe, rem_pipe, added, removed, emit, get_pipe,
}

check_limit-frame :
    (all : Bool) (c : Connector)
    → ((check_limit all c).pipes ≡ c.pipes)
      × ((check_limit all c).limit ≡ c.limit)
      × ((check_limit all c).events ≡ c.events)
unfolding check_limit start_connecting stop_connecting
check_limit-frame all c = ground arith

removed-frame :
    (p : PipeRef) (c : Connector)
    → ((removed p c).pipes ≡ delete p.id c.pipes)
      × ((removed p c).events
          ≡ (if c.has_handler then pipe_event_remove p.id ∷ c.events else c.events))
removed-frame p c = ground arith

-- What add_pipe does to an open connector: a pipe that the negotiator refuses changes nothing; with
-- room, the pipe is held under its id, and the handler, if there is one, hears of it; without room
-- the pipes stay, and the pipe is closed.
pub add_pipe_cases :
    (negotiated : Option Err) (p : PipeRef) (c c' : Connector)
    → c.is_closed ≡ false
    → add_pipe negotiated p c ≡ ok c'
    → ((e : Err) × (negotiated ≡ some e) × (c' ≡ c))
      ⊎ ((has_place c ≡ true)
          × ((j : ℕ) → get_pipe j c' ≡ (if p.id == j then some p else get_pipe j c))
          × (c'.events ≡ (if c.has_handler then pipe_event_add p.id ∷ c.events else c.events)))
      ⊎ ((has_place c ≡ false)
          × ((j : ℕ) → get_pipe j c' ≡ get_pipe j c)
          × (c'.events ≡ drop_pipe p.id ∷ c.events))
unfolding add_pipe get_pipe
add_pipe_cases (some e) p c c' o r = inl (e, refl, (sym (cc r)))
add_pipe_cases none p c c' o r = inr (elim (Bool-cases (has_place c)) [
  | inl h ↦
      let same : check_limit false (added p c) ≡ c' = ground (arith, h, o, r) in
      let (ps, _, es) = check_limit-frame false (added p c) in
      let held : c'.pipes ≡ insert p.id p c.pipes =
        ap (λ (x : Connector). x.pipes) (sym same) ∙ ps ∙ ground arith in
      inl (
        h,
        (λ j. ap (lookup j) held ∙ lookup-insert p.id j p c.pipes),
        ap (λ (x : Connector). x.events) (sym same) ∙ es ∙ ground arith,
      )
  | inr h ↦
      let same : emit (drop_pipe p.id) c ≡ c' = ground (arith, h, r) in
      inr (
        h,
        (λ j. ap (λ (x : Connector). lookup j x.pipes) (sym same)),
        ap (λ (x : Connector). x.events) (sym same),
      )
])

-- A limit that the pipes keep to is kept when a pipe is added.
pub add_pipe-within_limit :
    (negotiated : Option Err) (p : PipeRef) (c c' : Connector) (limit : ℕ)
    → c.is_closed ≡ false
    → c.limit ≡ pos limit
    → length c.pipes ≤ limit
    → add_pipe negotiated p c ≡ ok c'
    → length c'.pipes ≤ limit
unfolding add_pipe
add_pipe-within_limit (some e) p c c' limit o l h r = ground (arith, r)
add_pipe-within_limit none p c c' limit o l h r = elim (Bool-cases (ltb (length c.pipes) limit)) [
  | inl b ↦
      let place : has_place c ≡ true = ground (arith, l, b) in
      let same : check_limit false (added p c) ≡ c' = ground (arith, place, o, r) in
      let (ps, _, _) = check_limit-frame false (added p c) in
      let held : c'.pipes ≡ insert p.id p c.pipes =
        ap (λ (x : Connector). x.pipes) (sym same) ∙ ps ∙ ground arith in
      rw held (ground (arith, b, length-insert p.id p c.pipes))
  | inr b ↦
      let place : has_place c ≡ false = ground (arith, l, b) in
      let same : emit (drop_pipe p.id) c ≡ c' = ground (arith, place, r) in ground (arith, h, same)
]

-- A pipe that is removed is gone, the others stay, and the handler, if there is one, hears of it,
-- whether or not the pipe was held.
pub rem_pipe_lem :
    (p : PipeRef) (c : Connector)
    → ((j : ℕ) → get_pipe j (rem_pipe p c) ≡ (if p.id == j then none else get_pipe j c))
      × ((rem_pipe p c).events
          ≡ (if c.has_handler then pipe_event_remove p.id ∷ c.events else c.events))
unfolding rem_pipe get_pipe
rem_pipe_lem p c =
    let (ps, _, es) = check_limit-frame false (removed p c) in
    let (qs, fs) = removed-frame p c in
    ((λ j. ap (lookup j) (ps ∙ qs) ∙ lookup-delete p.id j c.pipes), es ∙ fs)

check_limit-has_handler :
    (all : Bool) (c : Connector) → (check_limit all c).has_handler ≡ c.has_handler
unfolding check_limit start_connecting stop_connecting
check_limit-has_handler all c = ground arith

-- The handler stays what it was.
pub add_pipe-has_handler :
    (negotiated : Option Err) (p : PipeRef) (c c' : Connector)
    → add_pipe negotiated p c ≡ ok c'
    → c'.has_handler ≡ c.has_handler
unfolding add_pipe
add_pipe-has_handler (some e) p c c' r =
    let same : c ≡ c' = cc r in ap (λ (x : Connector). x.has_handler) (sym same)
add_pipe-has_handler none p c c' r = elim (Bool-cases (has_place c)) [
  | inl h ↦ elim (Bool-cases c.is_closed) [
    | inl o ↦ absurd (ground (arith, h, o, r))
    | inr o ↦
        let same : check_limit false (added p c) ≡ c' = ground (arith, h, o, r) in
        ap (λ (x : Connector). x.has_handler) (sym same)
        ∙ check_limit-has_handler false (added p c)
        ∙ ground arith
  ]
  | inr h ↦
      let same : emit (drop_pipe p.id) c ≡ c' = ground (arith, h, r) in
      ap (λ (x : Connector). x.has_handler) (sym same)
]

pub rem_pipe-has_handler :
    (p : PipeRef) (c : Connector) → (rem_pipe p c).has_handler ≡ c.has_handler
unfolding rem_pipe
rem_pipe-has_handler p c = check_limit-has_handler false (removed p c) ∙ ground arith

add_pipe-shut :
    (negotiated : Option Err) (p : PipeRef) (c c' : Connector) (j : ℕ)
    → c.is_closed ≡ true
    → add_pipe negotiated p c ≡ ok c'
    → get_pipe j c' ≡ get_pipe j c
unfolding add_pipe get_pipe
add_pipe-shut (some e) p c c' j o r =
    let same : c ≡ c' = cc r in ap (λ (x : Connector). lookup j x.pipes) (sym same)
add_pipe-shut none p c c' j o r = elim (Bool-cases (has_place c)) [
  | inl h ↦ absurd (ground (arith, h, o, r))
  | inr h ↦
      let same : emit (drop_pipe p.id) c ≡ c' = ground (arith, h, r) in
      ap (λ (x : Connector). lookup j x.pipes) (sym same)
]

-- A pipe that a connector holds after add_pipe is the new one or was held before.
pub add_pipe-held :
    (negotiated : Option Err) (p q : PipeRef) (c c' : Connector) (j : ℕ)
    → add_pipe negotiated p c ≡ ok c'
    → get_pipe j c' ≡ some q
    → (p.id ≡ j) ⊎ (get_pipe j c ≡ some q)
add_pipe-held negotiated p q c c' j e h = elim (Bool-cases c.is_closed) [
  | inl shut ↦ inr (sym (add_pipe-shut negotiated p c c' j shut e) ∙ h)
  | inr open_one ↦ elim (add_pipe_cases negotiated p c c' open_one e) [
    | inl (x, n, same) ↦ inr (sym (ap (get_pipe j) same) ∙ h)
    | inr (inl (place, held, events)) ↦ elim (Bool-cases (p.id == j)) [
      | inl b ↦ inl (ground (arith, b))
      | inr b ↦
          let other : get_pipe j c' ≡ get_pipe j c = ground (arith, held j, b) in
          inr (sym other ∙ h)
    ]
    | inr (inr (place, held, events)) ↦ inr (sym (held j) ∙ h)
  ]
]
