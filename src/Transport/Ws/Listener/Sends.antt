-- ===== src/Transport/Ws/Listener/Sends.antt =====
-- transport/ws/ws.go: Listen and ServeHTTP, and the sends that wait, keep every connection.
use multisocket.Prelude.{
  ℕ, ◌+◌, ◌≡◌, refl, ap, sym, ◌∙◌, Bool, true, false, Option, none, some, List, [], ◌∷◌, ◌++◌,
  count, count-append, arith, ◌==◌, if◌then◌else◌, inl, inr, Bool-cases,
}
use multisocket.Prelude.Queue.{Chan, has_room, enqueue}
use multisocket.Errs.{Err, closed}
use multisocket.Transport.Ws.Listener.{
  Listener, Opts, configured, listen_tcp, listen, items_of, Served, closes, goes_on, serve_http,
  put_in, put_pending,
}
use multisocket.Transport.Ws.Listener.Calls.{
  Run, after_listen, after_serve, kept, without, after_put, put_one, after_read, kept_sending,
  take_sending, put_old, meet_old, meet_one, count_sending, sends, meets, step, Balances, listens,
  serves, puts,
}
use multisocket.Prelude.Assoc.{lookup}

-- A queue that Listen has just made is empty.
listen-items :
    (o : Opts) (resolved bound : Option Err) (l : Listener)
    → l.is_closed ≡ false
    → items_of (listen o resolved bound l).0.pending ≡ []
unfolding listen
listen-items o resolved bound l h =
    ap
      (λ (b : Bool).
        items_of
          (if b
            then (l, some closed)
            else if o.external_listen
            then (record (configured o l) { external_listen = true }, none)
            else listen_tcp resolved bound (configured o l)).0.pending)
      h
    ∙ go o.external_listen resolved
  where
    go :
        (b : Bool) (e : Option Err)
        → items_of
            (if b
              then (record (configured o l) { external_listen = true }, none)
              else listen_tcp e bound (configured o l)).0.pending
          ≡ []
    go true e = refl
    go false none = refl
    go false (some e) = refl

pub listens-Balances :
    (test : ℕ → Bool) (o : Opts) (resolved bound : Option Err) (r : Run)
    → Balances test r
    → Balances test (step (listens o resolved bound) r)
unfolding step
listens-Balances test o resolved bound r b = go r.listener.is_closed refl
  where
    go :
        (c : Bool)
        → r.listener.is_closed ≡ c
        → Balances test (after_listen r (listen o resolved bound r.listener) c)
    go true e = b
    go false e =
        let none_left = ap (count test) (listen-items o resolved bound r.listener e) in
        omega (arith, b, none_left, count-append test (items_of r.listener.pending) r.lost)

pub serves-Balances :
    (test : ℕ → Bool) (known : Bool) (c : ℕ) (r : Run)
    → Balances test r
    → Balances test (step (serves known c) r)
unfolding step
serves-Balances test known c r b = go (serve_http known r.listener)
  where
    go : (s : Served) → Balances test (after_serve c r s)
    go closes = omega (arith, b)
    go goes_on = omega (arith, b)

without-count :
    (test : ℕ → Bool) (c : ℕ) (xs ys : List ℕ)
    → without c xs ≡ some ys
    → count test xs ≡ (if test c then 1 else 0) + count test ys
without-count test c [] ys e = absurd (cc)
without-count test c (x ∷ xs) ys e = elim (Bool-cases (x == c)) [
  | inl h ↦
      let same : xs ≡ ys = ground (arith, e, h) in
      let here : x ≡ c = ground (arith, h) in
      ap (λ (z : ℕ). (if test z then 1 else 0) + count test xs) here
      ∙ ap (λ (z : List ℕ). (if test c then 1 else 0) + count test z) same
  | inr h ↦ go (without-count test c xs) (without c xs) refl (ground (arith, e, h))
]
  where
    go :
        ((zs : List ℕ)
          → without c xs ≡ some zs
          → count test xs ≡ (if test c then 1 else 0) + count test zs)
        → (o : Option (List ℕ)) → without c xs ≡ o
        → kept x o ≡ some ys
        → count test (x ∷ xs) ≡ (if test c then 1 else 0) + count test ys
    go further none f k = absurd (cc)
    go further (some zs) f k =
        let same : x ∷ zs ≡ ys = cc k in omega (arith, further zs f, ap (count test) same)

put_in-items :
    (c : ℕ) (l l' : Listener) (o : Option (Chan ℕ))
    → put_in c l o ≡ some l'
    → items_of l'.pending ≡ items_of o ++ (c ∷ [])
put_in-items c l l' none e = absurd (cc)
put_in-items c l l' (some q) e = elim (Bool-cases (has_room q)) [
  | inl h ↦
      let same : record l { pending = some (enqueue c q) } ≡ l' = ground (arith, h, e) in
      ap (λ (x : Listener). items_of x.pending) (sym same)
  | inr h ↦ absurd (ground (arith, h, e))
]

pub sends-Balances :
    (test : ℕ → Bool) (c : ℕ) (r : Run) → Balances test r → Balances test (step (sends c) r)
unfolding step
sends-Balances test c r b = go (without c r.in_flight) refl
  where
    go : (o : Option (List ℕ)) → without c r.in_flight ≡ o → Balances test (after_read c r o)
    go none f = b
    go (some rest) f = omega (arith, b, without-count test c r.in_flight rest f)

take_sending-count :
    (test : ℕ → Bool) (c n : ℕ) (xs ys : List (ℕ × ℕ))
    → take_sending c xs ≡ some (n, ys)
    → count_sending test xs ≡ (if test c then 1 else 0) + count_sending test ys
take_sending-count test c n [] ys e = absurd (cc)
take_sending-count test c n ((x, k) ∷ xs) ys e = elim (Bool-cases (x == c)) [
  | inl h ↦
      let same : xs ≡ ys = ground (arith, e, h) in
      let here : x ≡ c = ground (arith, h) in
      ap (λ (z : ℕ). (if test z then 1 else 0) + count_sending test xs) here
      ∙ ap (λ (z : List (ℕ × ℕ)). (if test c then 1 else 0) + count_sending test z) same
  | inr h ↦
      go (λ m zs. take_sending-count test c m xs zs) (take_sending c xs) refl (ground (arith, e, h))
]
  where
    go :
        ((m : ℕ) (zs : List (ℕ × ℕ))
          → take_sending c xs ≡ some (m, zs)
          → count_sending test xs ≡ (if test c then 1 else 0) + count_sending test zs)
        → (o : Option (ℕ × List (ℕ × ℕ))) → take_sending c xs ≡ o
        → kept_sending (x, k) o ≡ some (n, ys)
        → count_sending test ((x, k) ∷ xs) ≡ (if test c then 1 else 0) + count_sending test ys
    go further none f g = absurd (cc)
    go further (some (m, zs)) f g =
        let same : (x, k) ∷ zs ≡ ys = cc g in
        omega (arith, further m zs f, ap (count_sending test) same)

either_way :
    (test : ℕ → Bool) (x : Bool) (u v : Run)
    → Balances test u
    → Balances test v
    → Balances test (if x then u else v)
either_way test true u v hu hv = hu
either_way test false u v hu hv = hv

pub meets-Balances :
    (test : ℕ → Bool) (c : ℕ) (r : Run) → Balances test r → Balances test (step (meets c) r)
unfolding step
meets-Balances test c r b = go (take_sending c r.sending) refl
  where
    met :
        (n : ℕ) (rest : List (ℕ × ℕ)) (o : Option (Chan ℕ))
        → take_sending c r.sending ≡ some (n, rest)
        → Balances test (meet_old c r rest o)
    met n rest none f = b
    met n rest (some q) f = omega (arith, b, take_sending-count test c n r.sending rest f)

    go :
        (o : Option (ℕ × List (ℕ × ℕ)))
        → take_sending c r.sending ≡ o
        → Balances test (meet_one c r o)
    go none f = b
    go (some (n, rest)) f =
        either_way test (n == r.made) r (meet_old c r rest (lookup n r.old)) b
          (met n rest (lookup n r.old) f)

pub puts-Balances :
    (test : ℕ → Bool) (c : ℕ) (r : Run) → Balances test r → Balances test (step (puts c) r)
unfolding step put_pending
puts-Balances test c r b = go (take_sending c r.sending) refl
  where
    moved :
        (n : ℕ) (rest : List (ℕ × ℕ)) (o : Option Listener)
        → take_sending c r.sending ≡ some (n, rest)
        → put_in c r.listener r.listener.pending ≡ o
        → Balances test (after_put r rest o)
    moved n rest none f p = b
    moved n rest (some l) f p =
        let items = ap (count test) (put_in-items c r.listener l r.listener.pending p) in
        omega (
          arith,
          b,
          items,
          take_sending-count test c n r.sending rest f,
          count-append test (items_of r.listener.pending) (c ∷ []),
        )

    passed :
        (n : ℕ) (rest : List (ℕ × ℕ)) (o : Option (Chan ℕ))
        → take_sending c r.sending ≡ some (n, rest)
        → Balances test (put_old c n r rest o)
    passed n rest none f = b
    passed n rest (some q) f = elim (Bool-cases (has_room q)) [
      | inl h ↦ rw h (omega (arith, b, take_sending-count test c n r.sending rest f))
      | inr h ↦ rw h b
    ]

    go :
        (o : Option (ℕ × List (ℕ × ℕ)))
        → take_sending c r.sending ≡ o
        → Balances test (put_one c r o)
    go none f = b
    go (some (n, rest)) f =
        either_way test (n == r.made) (after_put r rest (put_pending c r.listener))
          (put_old c n r rest (lookup n r.old))
          (moved n rest (put_in c r.listener r.listener.pending) f refl)
          (passed n rest (lookup n r.old) f)
