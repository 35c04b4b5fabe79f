-- ===== src/Connector/Gate.antt =====
-- connector/connector.go: the gate that checkLimit opens and shuts.
use mathlib.Core.Path.{subst, subst₂}
use multisocket.Prelude.{
  ℕ, ◌≡◌, refl, ap, sym, Bool, true, false, not, List, [], ◌∷◌, length, if◌then◌else◌, arith, inl,
  inr, Bool-cases,
}
use multisocket.Prelude.Int.{ℤ}
use multisocket.Connector.Dialer
use multisocket.Connector.Dialer.{Dialer}
use multisocket.Connector.Listener
use multisocket.Connector.Listener.{Listener}
use multisocket.Connector.{
  Connector, is_no_limit, below, has_place, each_dialer, each_listener, start_connecting,
  stop_connecting, check_limit, set_limit,
}

-- Each registered dialer, and each registered listener, is stopped or not, as `b` says.
abbrev pub DialersAre : Bool → List (ℕ × Dialer) → Type 0
DialersAre b [] = Unit {0}
DialersAre b ((k, d) ∷ ds) = (d.registered ≡ true → d.is_stopped ≡ b) × DialersAre b ds

abbrev pub ListenersAre : Bool → List (ℕ × Listener) → Type 0
ListenersAre b [] = Unit {0}
ListenersAre b ((k, l) ∷ ls) = (l.registered ≡ true → l.is_stopped ≡ b) × ListenersAre b ls

-- The connector connects and accepts exactly while it has a place for a pipe.
pub record IsGated (c : Connector) : Type 0 where
  pub dialers_gated : DialersAre (not (has_place c)) c.dialers
  pub listeners_gated : ListenersAre (not (has_place c)) c.listeners

each_dialer-start : (ds : List (ℕ × Dialer)) → DialersAre false (each_dialer Dialer.start ds)
each_dialer-start [] = tt
each_dialer-start ((k, d) ∷ ds) =
    ((unfold Dialer.start Dialer.reconn in ground arith), each_dialer-start ds)

each_dialer-stop : (ds : List (ℕ × Dialer)) → DialersAre true (each_dialer Dialer.stop ds)
each_dialer-stop [] = tt
each_dialer-stop ((k, d) ∷ ds) = ((unfold Dialer.stop in ground arith), each_dialer-stop ds)

each_listener-start :
    (ls : List (ℕ × Listener)) → ListenersAre false (each_listener Listener.start ls)
each_listener-start [] = tt
each_listener-start ((k, l) ∷ ls) =
    ((unfold Listener.start in ground arith), each_listener-start ls)

each_listener-stop : (ls : List (ℕ × Listener)) → ListenersAre true (each_listener Listener.stop ls)
each_listener-stop [] = tt
each_listener-stop ((k, l) ∷ ls) = ((unfold Listener.stop in ground arith), each_listener-stop ls)

started-IsGated : (c : Connector) → has_place c ≡ true → IsGated (start_connecting c)
unfolding start_connecting
started-IsGated c h = record {
  dialers_gated =
      subst (λ b. DialersAre b (each_dialer Dialer.start c.dialers)) (sym (ap not h))
        (each_dialer-start c.dialers);
  listeners_gated =
      subst (λ b. ListenersAre b (each_listener Listener.start c.listeners)) (sym (ap not h))
        (each_listener-start c.listeners);
}

stopped-IsGated : (c : Connector) → has_place c ≡ false → IsGated (stop_connecting c)
unfolding stop_connecting
stopped-IsGated c h = record {
  dialers_gated =
      subst (λ b. DialersAre b (each_dialer Dialer.stop c.dialers)) (sym (ap not h))
        (each_dialer-stop c.dialers);
  listeners_gated =
      subst (λ b. ListenersAre b (each_listener Listener.stop c.listeners)) (sym (ap not h))
        (each_listener-stop c.listeners);
}

left-IsGated :
    (c : Connector)
    → has_place c ≡ true
    → DialersAre false c.dialers × ListenersAre false c.listeners
    → IsGated c
left-IsGated c h g = record {
  dialers_gated = subst (λ b. DialersAre b c.dialers) (sym (ap not h)) (g.0);
  listeners_gated = subst (λ b. ListenersAre b c.listeners) (sym (ap not h)) (g.1);
}

-- check_limit opens or shuts the gate, unless there is no limit and it is told to leave that.
pub check_limit-IsGated :
    (all : Bool) (c : Connector)
    → c.is_closed ≡ false
    → (is_no_limit c.limit ≡ true
        → all ≡ false
        → DialersAre false c.dialers × ListenersAre false c.listeners)
    → IsGated (check_limit all c)
unfolding check_limit
check_limit-IsGated all c o h = elim (Bool-cases (is_no_limit c.limit)) [
  | inl n ↦ at_all all refl n
  | inr n ↦ elim (Bool-cases (below (length c.pipes) c.limit)) [
    | inl b ↦ subst IsGated (sym (chosen true n b)) (started-IsGated c (ground (arith, n, b)))
    | inr b ↦ subst IsGated (sym (chosen false n b)) (stopped-IsGated c (ground (arith, n, b)))
  ]
]
  where
    chosen :
        (b : Bool)
        → is_no_limit c.limit ≡ false
        → below (length c.pipes) c.limit ≡ b
        → check_limit all c ≡ (if b then start_connecting c else stop_connecting c)
    chosen b n e = ground (arith, n, e, o)

    at_all : (b : Bool) → all ≡ b → is_no_limit c.limit ≡ true → IsGated (check_limit all c)
    at_all true e n =
        let same : check_limit all c ≡ start_connecting c = ground (arith, n, e, o) in
        subst IsGated (sym same) (started-IsGated c (ground (arith, n)))
    at_all false e n =
        let same : check_limit all c ≡ c = ground (arith, n, e, o) in
        subst IsGated (sym same) (left-IsGated c (ground (arith, n)) (h n e))

-- A change of the limit opens or shuts the gate.
pub set_limit-IsGated :
    (limit : ℤ) (c : Connector) → c.is_closed ≡ false → IsGated (set_limit limit c)
unfolding set_limit
set_limit-IsGated limit c o = check_limit-IsGated true _ o (λ n e. absurd (cc))

-- Without a limit nothing is stopped.
pub unlimited :
    (c : Connector)
    → IsGated c
    → is_no_limit c.limit ≡ true
    → DialersAre false c.dialers × ListenersAre false c.listeners
unlimited c g n =
    let h : has_place c ≡ true = ground (arith, n) in
    (
      subst (λ b. DialersAre b c.dialers) (ap not h) g.dialers_gated,
      subst (λ b. ListenersAre b c.listeners) (ap not h) g.listeners_gated,
    )

-- Only the limit, the pipes, the dialers and the listeners matter.
pub same_gate :
    (c c' : Connector)
    → c'.limit ≡ c.limit
    → c'.pipes ≡ c.pipes
    → c'.dialers ≡ c.dialers
    → c'.listeners ≡ c.listeners
    → IsGated c
    → IsGated c'
same_gate c c' l p d m g =
    let h : has_place c' ≡ has_place c = ground (arith, l, p) in
    record {
      dialers_gated = subst₂ (λ b ds. DialersAre (not b) ds) (sym h) (sym d) g.dialers_gated;
      listeners_gated = subst₂ (λ b ls. ListenersAre (not b) ls) (sym h) (sym m) g.listeners_gated;
    }
