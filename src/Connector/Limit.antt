-- ===== src/Connector/Limit.antt =====
-- connector/connector.go: the pipe limit, and the dialers and listeners that it stops.
use mathlib.Core.Path.{subst}
use multisocket.Prelude.{
  ℕ, ◌≡◌, refl, ap, sym, ◌∙◌, Bool, true, false, not, Option, none, some, List, [], ◌∷◌,
  if◌then◌else◌, arith, inl, inr, Bool-cases, ◌==◌,
}
use multisocket.Prelude.Assoc.{lookup, insert, delete}
use multisocket.Prelude.Int.{ℤ}
use multisocket.Errs.{Err, Outcome, ok}
use multisocket.Connector.Dialer
use multisocket.Connector.Dialer.{Dialer}
use multisocket.Connector.Listener
use multisocket.Connector.Listener.{Listener}
use multisocket.Connector.{
  Connector, PipeRef, is_no_limit, has_place, check_limit, set_limit, add_pipe, rem_pipe,
  new_dialer, new_listener, pipe_closed, after_closed, added, removed, Event, pipe_event_add,
  pipe_event_remove, drop_pipe, notify, emit,
}
use multisocket.Connector.Gate.{
  DialersAre, ListenersAre, IsGated, check_limit-IsGated, set_limit-IsGated, unlimited, same_gate,
}

notify-frame :
    (e : Event) (c : Connector)
    → ((notify e c).limit ≡ c.limit)
      × ((notify e c).pipes ≡ c.pipes)
      × ((notify e c).dialers ≡ c.dialers)
      × ((notify e c).listeners ≡ c.listeners)
      × ((notify e c).is_closed ≡ c.is_closed)
notify-frame e c = ground arith

add_pipe-IsGated :
    (negotiated : Option Err) (p : PipeRef) (c c' : Connector)
    → c.is_closed ≡ false
    → IsGated c
    → add_pipe negotiated p c ≡ ok c'
    → IsGated c'
unfolding add_pipe
add_pipe-IsGated (some e) p c c' o g r = let same : c ≡ c' = cc r in subst IsGated same g
add_pipe-IsGated none p c c' o g r = elim (Bool-cases (has_place c)) [
  | inl h ↦
      let same : check_limit false (added p c) ≡ c' = ground (arith, h, o, r) in
      let (l, q, d, m, k) =
        notify-frame (pipe_event_add p.id) (record c { pipes = insert p.id p c.pipes }) in
      subst IsGated same (
        check_limit-IsGated false (added p c) (k ∙ o) (λ n e.
          let (ds, ls) = unlimited c g (ap is_no_limit (sym l) ∙ n) in
          (subst (DialersAre false) (sym d) ds, subst (ListenersAre false) (sym m) ls)))
  | inr h ↦
      let same : emit (drop_pipe p.id) c ≡ c' = ground (arith, h, r) in
      subst IsGated same (same_gate c (emit (drop_pipe p.id) c) refl refl refl refl g)
]

-- A write to the heap of dialers.
DialersAre-insert :
    (b : Bool) (k : ℕ) (d : Dialer) (ds : List (ℕ × Dialer))
    → (d.registered ≡ true → d.is_stopped ≡ b)
    → DialersAre b ds
    → DialersAre b (insert k d ds)
unfolding insert
DialersAre-insert b k d [] h g = (h, tt)
DialersAre-insert b k d ((j, x) ∷ ds) h g = elim (Bool-cases (j == k)) [
  | inl e ↦ rw (e, insert) (h, g.1)
  | inr e ↦ rw (e, insert) (g.0, DialersAre-insert b k d ds h (g.1))
]

DialersAre-lookup :
    (b : Bool) (k : ℕ) (d : Dialer) (ds : List (ℕ × Dialer))
    → lookup k ds ≡ some d
    → DialersAre b ds
    → d.registered ≡ true
    → d.is_stopped ≡ b
unfolding lookup
DialersAre-lookup b k d [] e g r = absurd (cc)
DialersAre-lookup b k d ((j, x) ∷ ds) e g r = ground (arith, g.0, DialersAre-lookup b k d ds)

after_closed_stopped :
    (d : Dialer)
    → ((after_closed (Dialer.pipe_closed d)).is_stopped ≡ d.is_stopped)
      × ((after_closed (Dialer.pipe_closed d)).registered ≡ true → d.registered ≡ true)
unfolding Dialer.pipe_closed Dialer.reconn Dialer.close
after_closed_stopped d = ground arith

pipe_closed-DialersAre :
    (b : Bool) (k : Option ℕ) (c : Connector)
    → DialersAre b c.dialers
    → DialersAre b (pipe_closed k c).dialers
pipe_closed-DialersAre b none c g = g
pipe_closed-DialersAre b (some k) c g = at_entry (lookup k c.dialers) refl
  where
    at_entry :
        (o : Option Dialer)
        → lookup k c.dialers ≡ o
        → DialersAre b
            (elim o as (λ x. Connector) [
              | none ↦ c
              | some d ↦ record c {
                dialers = insert k (after_closed (Dialer.pipe_closed d)) c.dialers;
              }
            ]).dialers
    at_entry none e = g
    at_entry (some d) e =
        let (stays, was) = after_closed_stopped d in
        DialersAre-insert b k _ c.dialers
          (λ r. stays ∙ DialersAre-lookup b k d c.dialers e g (was r)) g

pipe_closed-frame :
    (k : Option ℕ) (c : Connector)
    → ((pipe_closed k c).limit ≡ c.limit)
      × ((pipe_closed k c).pipes ≡ c.pipes)
      × ((pipe_closed k c).listeners ≡ c.listeners)
      × ((pipe_closed k c).is_closed ≡ c.is_closed)
pipe_closed-frame none c = (refl, refl, refl, refl)
pipe_closed-frame (some k) c = ground arith

rem_pipe-IsGated :
    (p : PipeRef) (c : Connector) → c.is_closed ≡ false → IsGated c → IsGated (rem_pipe p c)
unfolding rem_pipe
rem_pipe-IsGated p c o g =
    let c1 = record c { pipes = delete p.id c.pipes } in
    let c2 = notify (pipe_event_remove p.id) c1 in
    let (l, q, d, m, k) = notify-frame (pipe_event_remove p.id) c1 in
    let (l', q', m', k') = pipe_closed-frame p.dialer c2 in
    check_limit-IsGated false (removed p c) (k' ∙ k ∙ o) (λ n e.
      let (ds, ls) = unlimited c g (ap is_no_limit (sym (l' ∙ l)) ∙ n) in
      (
        pipe_closed-DialersAre false p.dialer c2 (subst (DialersAre false) (sym d) ds),
        subst (ListenersAre false) (sym (m' ∙ m)) ls,
      ))

new_dialer-IsGated :
    (k : ℕ) (t : Option Err) (d : Dialer) (c c' : Connector)
    → d.is_stopped ≡ false
    → c.is_closed ≡ false
    → IsGated c
    → new_dialer k t d c ≡ ok c'
    → IsGated c'
unfolding new_dialer
new_dialer-IsGated k (some e) d c c' f o g r = absurd (ground (arith, o, r))
new_dialer-IsGated k none d c c' f o g r =
    let same : record c { dialers = (k, new) ∷ c.dialers } ≡ c' = ground (arith, o, r) in
    subst IsGated same (record {
      dialers_gated = ((λ _. placed (has_place c)), g.dialers_gated);
      listeners_gated = g.listeners_gated;
    })
  where
    new : Dialer
    new =
        if has_place c
        then record d { registered = true }
        else Dialer.stop (record d { registered = true })

    placed :
        (b : Bool)
        → (if b
            then record d { registered = true }
            else Dialer.stop (record d { registered = true })).is_stopped
          ≡ not b
    placed true = f
    placed false = unfold Dialer.stop in ground (arith, f)

new_listener-IsGated :
    (k : ℕ) (t : Option Err) (l : Listener) (c c' : Connector)
    → l.is_stopped ≡ false
    → c.is_closed ≡ false
    → IsGated c
    → new_listener k t l c ≡ ok c'
    → IsGated c'
unfolding new_listener
new_listener-IsGated k (some e) l c c' f o g r = absurd (ground (arith, o, r))
new_listener-IsGated k none l c c' f o g r =
    let same : record c { listeners = (k, new) ∷ c.listeners } ≡ c' = ground (arith, o, r) in
    subst IsGated same (record {
      dialers_gated = g.dialers_gated;
      listeners_gated = ((λ _. placed (has_place c)), g.listeners_gated);
    })
  where
    new : Listener
    new =
        if has_place c
        then record l { registered = true }
        else Listener.stop (record l { registered = true })

    placed :
        (b : Bool)
        → (if b
            then record l { registered = true }
            else Listener.stop (record l { registered = true })).is_stopped
          ≡ not b
    placed true = f
    placed false = unfold Listener.stop in ground (arith, f)

-- The calls that an open connector answers, with what the environment contributes.
pub data Call : Type 0 where
  sets_limit : ℤ → Call
  adds_pipe : Option Err → PipeRef → Call
  removes_pipe : PipeRef → Call
  makes_dialer : ℕ → Option Err → Dialer → Call
  makes_listener : ℕ → Option Err → Listener → Call

-- A new dialer or listener is not stopped.
abbrev pub IsNew : Call → Type 0
IsNew (makes_dialer k t d) = d.is_stopped ≡ false
IsNew (makes_listener k t l) = l.is_stopped ≡ false
IsNew call = Unit {0}

unfoldable pub step : Connector → Call → Outcome Connector
step c (sets_limit limit) = ok (set_limit limit c)
step c (adds_pipe negotiated p) = add_pipe negotiated p c
step c (removes_pipe p) = ok (rem_pipe p c)
step c (makes_dialer k t d) = new_dialer k t d c
step c (makes_listener k t l) = new_listener k t l c

-- While a connector is open, every registered dialer and listener is stopped exactly when the pipes
-- have reached the limit (-1 is none): a change of the limit, a pipe that comes or goes, and a new
-- dialer or listener all keep it so.
pub step-IsGated :
    (c c' : Connector) (call : Call)
    → IsNew call
    → c.is_closed ≡ false
    → IsGated c
    → step c call ≡ ok c'
    → IsGated c'
unfolding step
step-IsGated c c' (sets_limit limit) new o g r =
    let same : set_limit limit c ≡ c' = cc r in subst IsGated same (set_limit-IsGated limit c o)
step-IsGated c c' (adds_pipe negotiated p) new o g r = add_pipe-IsGated negotiated p c c' o g r
step-IsGated c c' (removes_pipe p) new o g r =
    let same : rem_pipe p c ≡ c' = cc r in subst IsGated same (rem_pipe-IsGated p c o g)
step-IsGated c c' (makes_dialer k t d) new o g r = new_dialer-IsGated k t d c c' new o g r
step-IsGated c c' (makes_listener k t l) new o g r = new_listener-IsGated k t l c c' new o g r
