-- ===== src/Transport/Inproc/Calls.antt =====
-- transport/inproc/inproc.go: calls on the map of listeners, and what they keep.
use multisocket.Prelude.{
  ℕ, ◌≡◌, refl, Bool, true, false, not, Option, none, some, List, [], ◌∷◌, if◌then◌else◌, ◌&&◌,
  ◌||◌, inl, inr, Bool-cases, Option-cases,
}
use multisocket.Prelude.Assoc.{lookup, insert}
use multisocket.Prelude.Queue.{Chan, has_room}
use multisocket.Errs.{Err, closed, conn_refused, not_listening}
use multisocket.Transport.Inproc.{
  Listener, Tran, new_listener, is_listening, listen, close, Dialed, dialing, dial_failed,
  dial_waits, hand_over, dial_at, dial_to, dial_select, is_full, dial, Dialing, waits_for,
  connected, left, DialEnd, refused, still_waits, is_shut, end_of, dial_wait, has_left, nobody,
  accept_wait, Accepted, accepted, accept_failed, accept_waits, take_waiting, take_from, accept,
}
use multisocket.Transport.Inproc.Served.{
  IsServed, insert-Serves, insert_closed-Serves, makes-IsServed, listen-IsServed, close-IsServed,
}

-- One call, on the listener that a pointer names; `tries` is the first select of a Dial that has found
-- that listener before, `ends` the second select of a Dial, `wakes` the
-- select of an Accept that has waited.
pub data Call : Type 0 where
  makes : ℕ → ℕ → Call
  listens : ℕ → Call
  closes : ℕ → Call
  dials : Bool → ℕ → ℕ → Call
  tries : Bool → ℕ → ℕ → Call
  ends : ℕ → Call
  accepts : Bool → ℕ → Call
  wakes : Bool → ℕ → Call

abbrev pub dialed : Tran → Dialed → Tran
dialed t (dialing t') = t'
dialed t (dial_failed e) = t
dialed t dial_waits = t

abbrev pub accepted_in : Tran → Accepted → Tran
accepted_in t (accepted d n t') = t'
accepted_in t (accept_failed e) = t
accepted_in t accept_waits = t

abbrev pub on_listener : Tran → (Listener → Tran) → Option Listener → Tran
on_listener t f none = t
on_listener t f (some x) = f x

unfoldable pub step : Call → Tran → Tran
step (makes l addr) t = on_listener (new_listener l addr t) (λ x. t) (lookup l t.listeners)
step (listens l) t = on_listener t (λ x. (listen l x t).0) (lookup l t.listeners)
step (closes l) t = on_listener t (λ x. (close l x t).0) (lookup l t.listeners)
step (dials pick d addr) t = dialed t (dial pick d addr t)
step (tries pick d l) t = dialed t (dial_select pick d l t)
step (ends d) t = (dial_wait d t).1
step (accepts pick l) t =
    on_listener t (λ x. accepted_in t (accept pick l x t)) (lookup l t.listeners)
step (wakes pick l) t =
    on_listener t (λ x. accepted_in t (accept_wait pick l x t)) (lookup l t.listeners)

hand_over-IsServed :
    (d l : ℕ) (x : Listener) (q : Option (Chan ℕ)) (t : Tran)
    → lookup l t.listeners ≡ some x
    → IsServed t
    → IsServed (dialed t (hand_over d l x q t))
hand_over-IsServed d l x none t f s = s
hand_over-IsServed d l x (some q) t f s = elim (Bool-cases (has_room q)) [
  | inl h ↦ elim (Bool-cases x.is_closed) [
    | inl c ↦ rw h (λ a k e. insert_closed-Serves t.listeners a k l x _ f c (s a k e))
    | inr o ↦ rw h (λ a k e. insert-Serves t.listeners a k l x _ f refl o refl (s a k e))
  ]
  | inr h ↦ rw h s
]

unless_refused :
    (b : Bool) (t : Tran) (u : Dialed)
    → IsServed t
    → IsServed (dialed t u)
    → IsServed (dialed t (if b then dial_failed conn_refused else u))
unless_refused true t u s next = s
unless_refused false t u s next = next

dial_at-IsServed :
    (pick : Bool) (d l : ℕ) (t : Tran) (found : Option Listener)
    → lookup l t.listeners ≡ found
    → IsServed t
    → IsServed (dialed t (dial_at pick d l found t))
dial_at-IsServed pick d l t none f s = s
dial_at-IsServed pick d l t (some x) f s =
    unless_refused (x.is_closed && (pick || is_full x.accepts)) t _ s
      (hand_over-IsServed d l x x.accepts t f s)

dial_to-IsServed :
    (pick : Bool) (d : ℕ) (found : Option ℕ) (t : Tran)
    → IsServed t
    → IsServed (dialed t (dial_to pick d found t))
dial_to-IsServed pick d none t s = s
dial_to-IsServed pick d (some l) t s = dial_at-IsServed pick d l t (lookup l t.listeners) refl s

take_from-IsServed :
    (l : ℕ) (x : Listener) (q : Option (Chan ℕ)) (t : Tran)
    → lookup l t.listeners ≡ some x
    → IsServed t
    → IsServed (accepted_in t (take_from l x q t))
take_from-IsServed l x none t f s = s
take_from-IsServed l x (some q) t f s = go q.items
  where
    go : (ds : List ℕ) → IsServed (accepted_in t (take_waiting l x q.size ds t))
    go [] = s
    go (d ∷ ds) = elim (Bool-cases (has_left (lookup d t.dialings))) [
      | inl h ↦ rw h s
      | inr h ↦ elim (Bool-cases x.is_closed) [
        | inl c ↦ rw h (λ a k e. insert_closed-Serves t.listeners a k l x _ f c (s a k e))
        | inr o ↦ rw h (λ a k e. insert-Serves t.listeners a k l x _ f refl o refl (s a k e))
      ]
    ]

unless_failed :
    (b : Bool) (e : Err) (t : Tran) (u : Accepted)
    → IsServed t
    → IsServed (accepted_in t u)
    → IsServed (accepted_in t (if b then accept_failed e else u))
unless_failed true e t u s next = s
unless_failed false e t u s next = next

accept_wait-IsServed :
    (pick : Bool) (l : ℕ) (x : Listener) (t : Tran)
    → lookup l t.listeners ≡ some x
    → IsServed t
    → IsServed (accepted_in t (accept_wait pick l x t))
unfolding accept_wait
accept_wait-IsServed pick l x t f s =
    unless_failed (x.is_closed && (pick || nobody x.accepts)) closed t (take_from l x x.accepts t) s
      (take_from-IsServed l x x.accepts t f s)

accept-IsServed :
    (pick : Bool) (l : ℕ) (x : Listener) (t : Tran)
    → lookup l t.listeners ≡ some x
    → IsServed t
    → IsServed (accepted_in t (accept pick l x t))
unfolding accept
accept-IsServed pick l x t f s =
    unless_failed (not (is_listening l x.addr t)) not_listening t (accept_wait pick l x t) s
      (accept_wait-IsServed pick l x t f s)

end_of-IsServed : (d : ℕ) (t : Tran) (o : Option Dialing) → IsServed t → IsServed (end_of d t o).1
end_of-IsServed d t none s = s
end_of-IsServed d t (some left) s = s
end_of-IsServed d t (some (connected l)) s = s
end_of-IsServed d t (some (waits_for l)) s = go (is_shut (lookup l t.listeners))
  where
    go :
        (b : Bool)
        → IsServed
            (if◌then◌else◌ {A = DialEnd × Tran} b
              (refused, record t { dialings = insert d left t.dialings })
              (still_waits, t)).1
    go true = s
    go false = s

on_listener-IsServed :
    (t : Tran) (f : Listener → Tran) (found : Option Listener)
    → IsServed t
    → ((x : Listener) → found ≡ some x → IsServed (f x))
    → IsServed (on_listener t f found)
on_listener-IsServed t f none s next = s
on_listener-IsServed t f (some x) s next = next x refl

-- Every address in the map of an in-process transport leads to an open listener for that address,
-- whose channel is made, and every call keeps it so: a new listener, Listen, Close, Dial and Accept,
-- and the selects in
-- which Dial and Accept wait, each as one step.
pub step-IsServed : (c : Call) (t : Tran) → IsServed t → IsServed (step c t)
unfolding step dial dial_select
step-IsServed (makes l addr) t s = elim (Option-cases (lookup l t.listeners)) [
  | inl h ↦ rw h (makes-IsServed l addr t h s)
  | inr (x, h) ↦ rw h s
]
step-IsServed (listens l) t s =
    on_listener-IsServed t _ (lookup l t.listeners) s (λ x f. listen-IsServed l x t f s)
step-IsServed (closes l) t s =
    on_listener-IsServed t _ (lookup l t.listeners) s (λ x f. close-IsServed l x t f s)
step-IsServed (dials pick d addr) t s = dial_to-IsServed pick d (lookup addr t.by_addr) t s
step-IsServed (tries pick d l) t s = dial_at-IsServed pick d l t (lookup l t.listeners) refl s
step-IsServed (ends d) t s = unfold dial_wait in end_of-IsServed d t (lookup d t.dialings) s
step-IsServed (accepts pick l) t s =
    on_listener-IsServed t _ (lookup l t.listeners) s (λ x f. accept-IsServed pick l x t f s)
step-IsServed (wakes pick l) t s =
    on_listener-IsServed t _ (lookup l t.listeners) s (λ x f. accept_wait-IsServed pick l x t f s)

unfoldable pub steps : List Call → Tran → Tran
unfolding step
steps [] t = t
steps (c ∷ cs) t = steps cs (step c t)

pub steps-IsServed : (cs : List Call) (t : Tran) → IsServed t → IsServed (steps cs t)
unfolding steps
steps-IsServed [] t s = s
steps-IsServed (c ∷ cs) t s = steps-IsServed cs (step c t) (step-IsServed c t s)
