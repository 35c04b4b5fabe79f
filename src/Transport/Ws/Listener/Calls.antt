-- ===== src/Transport/Ws/Listener/Calls.antt =====
-- transport/ws/ws.go: the calls on a listener, in the order in which they take effect.
use multisocket.Prelude.Assoc.{lookup, insert}
use multisocket.Prelude.Queue.{Chan, has_room, enqueue}
use multisocket.Prelude.{
  ℕ, suc, ◌+◌, ◌≡◌, Bool, true, false, Option, none, some, List, [], ◌∷◌, ◌++◌, count, ◌==◌,
  if◌then◌else◌,
}
use multisocket.Errs.{Err, Outcome, ok, err, panic}
use multisocket.Transport.Ws.Listener.{
  Listener, Opts, new_listener, listen, Accepted, accepted, accept_failed, accept_waits, items_of,
  accept, close, Served, closes, goes_on, serve_http, put_pending,
}

-- Calls in the order in which they take effect. ServeHTTP is three steps: it upgrades, it reads the
-- field `pending`, and the send on that channel goes through. `meets`: an Accept that has
-- waited since before a later Listen takes it from the channel which it waits on.
pub data Call : Type 0 where
  listens : Opts → Option Err → Option Err → Call
  serves : Bool → ℕ → Call
  sends : ℕ → Call
  puts : ℕ → Call
  meets : ℕ → Call
  accepts : Bool → Call
  shuts : Call

-- `made` counts the channels that Listen has made; the last one is `listener.pending`, 0 is nil, and
-- `old` has the others, by number. The connections that were upgraded, those of requests that have not
-- read `pending` yet, those that wait to be sent, with the number of their channel, those that Accept
-- returned, those that were closed, and those in the channels that Listen has replaced.
pub record Run : Type 0 where
  pub listener : Listener
  pub made : ℕ
  pub old : List (ℕ × Chan ℕ)
  pub upgraded : List ℕ
  pub in_flight : List ℕ
  pub sending : List (ℕ × ℕ)
  pub given : List ℕ
  pub shut : List ℕ
  pub lost : List ℕ

abbrev pub with_old : ℕ → Option (Chan ℕ) → List (ℕ × Chan ℕ) → List (ℕ × Chan ℕ)
with_old n none old = old
with_old n (some q) old = insert n q old

abbrev pub after_listen : Run → Listener × Option Err → Bool → Run
after_listen r (l, e) true = r
after_listen r (l, e) false = record r {
  listener = l;
  made = suc r.made;
  old = with_old r.made r.listener.pending r.old;
  lost = items_of r.listener.pending ++ r.lost;
}

abbrev pub after_serve : ℕ → Run → Served → Run
after_serve c r closes = record r { upgraded = c ∷ r.upgraded; shut = c ∷ r.shut }
after_serve c r goes_on = record r { upgraded = c ∷ r.upgraded; in_flight = c ∷ r.in_flight }

abbrev pub kept : ℕ → Option (List ℕ) → Option (List ℕ)
kept x none = none
kept x (some xs) = some (x ∷ xs)

abbrev pub without : ℕ → List ℕ → Option (List ℕ)
without c [] = none
without c (x ∷ xs) = let rest = without c xs in if x == c then some xs else kept x rest

abbrev pub after_read : ℕ → Run → Option (List ℕ) → Run
after_read c r none = r
after_read c r (some rest) = record r { in_flight = rest; sending = (c, r.made) ∷ r.sending }

-- A send that waits, with its channel, and the others.
abbrev pub kept_sending : ℕ × ℕ → Option (ℕ × List (ℕ × ℕ)) → Option (ℕ × List (ℕ × ℕ))
kept_sending x none = none
kept_sending x (some (n, xs)) = some (n, x ∷ xs)

abbrev pub take_sending : ℕ → List (ℕ × ℕ) → Option (ℕ × List (ℕ × ℕ))
take_sending c [] = none
take_sending c ((x, n) ∷ xs) =
    let rest = take_sending c xs in if x == c then some (n, xs) else kept_sending (x, n) rest

abbrev pub after_put : Run → List (ℕ × ℕ) → Option Listener → Run
after_put r rest none = r
after_put r rest (some l) = record r { listener = l; sending = rest }

-- A channel that was replaced still takes what its room allows, and no later Accept receives from it.
abbrev pub put_old : ℕ → ℕ → Run → List (ℕ × ℕ) → Option (Chan ℕ) → Run
put_old c n r rest none = r
put_old c n r rest (some q) =
    if has_room q
    then record r { old = insert n (enqueue c q) r.old; sending = rest; lost = c ∷ r.lost }
    else r

abbrev pub put_one : ℕ → Run → Option (ℕ × List (ℕ × ℕ)) → Run
put_one c r none = r
put_one c r (some (n, rest)) =
    if n == r.made
    then after_put r rest (put_pending c r.listener)
    else put_old c n r rest (lookup n r.old)

abbrev pub meet_old : ℕ → Run → List (ℕ × ℕ) → Option (Chan ℕ) → Run
meet_old c r rest none = r
meet_old c r rest (some q) = record r { sending = rest; given = c ∷ r.given }

abbrev pub meet_one : ℕ → Run → Option (ℕ × List (ℕ × ℕ)) → Run
meet_one c r none = r
meet_one c r (some (n, rest)) = if n == r.made then r else meet_old c r rest (lookup n r.old)

abbrev pub after_accept : Run → Accepted → Run
after_accept r (accepted c l) = record r { listener = l; given = c ∷ r.given }
after_accept r (accept_failed e) = r
after_accept r accept_waits = r

abbrev pub after_close : Run → Outcome (Listener × List ℕ) → Run
after_close r (ok (l, cs)) = record r { listener = l; shut = cs ++ r.shut }
after_close r (err e) = r
after_close r panic = r

unfoldable pub step : Call → Run → Run
unfolding listen serve_http put_pending accept close
step (listens o resolved bound) r =
    after_listen r (listen o resolved bound r.listener) r.listener.is_closed
step (serves known c) r = after_serve c r (serve_http known r.listener)
step (sends c) r = after_read c r (without c r.in_flight)
step (puts c) r = put_one c r (take_sending c r.sending)
step (meets c) r = meet_one c r (take_sending c r.sending)
step (accepts pick) r = after_accept r (accept pick r.listener)
step shuts r = after_close r (close r.listener)

unfoldable pub steps : List Call → Run → Run
unfolding step
steps [] r = r
steps (c ∷ cs) r = steps cs (step c r)

abbrev pub start : Run
start = record {
  listener = new_listener;
  made = 0;
  old = [];
  upgraded = [];
  in_flight = [];
  sending = [];
  given = [];
  shut = [];
  lost = [];
}

abbrev pub count_sending : (ℕ → Bool) → List (ℕ × ℕ) → ℕ
count_sending test [] = 0
count_sending test ((c, n) ∷ xs) = (if test c then 1 else 0) + count_sending test xs

abbrev pub Balances : (ℕ → Bool) → Run → Type 0
Balances test r =
    count test r.upgraded
    ≡ count test r.in_flight
      + count_sending test r.sending
      + count test r.given
      + count test r.shut
      + count test r.lost
      + count test (items_of r.listener.pending)
