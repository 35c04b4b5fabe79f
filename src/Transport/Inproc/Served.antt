-- ===== src/Transport/Inproc/Served.antt =====
-- transport/inproc/inproc.go: the map of listeners under Listen and Close.
use multisocket.Prelude.{
  ℕ, ◌≡◌, ◌≢◌, refl, ap, sym, ◌∙◌, Bool, true, false, Option, none, some, List, ◌==◌, ==_iff,
  if◌then◌else◌, arith, inl, inr, Bool-cases,
}
use multisocket.Prelude.Assoc.{lookup, insert, lookup-insert, lookup-delete}
use multisocket.Prelude.Queue.{Chan, make}
use multisocket.Errs.{Err, closed}
use multisocket.Transport.Inproc.{
  Listener, Tran, new_listener, is_listening, same_pointer, add_listener, add_at, remove_listener,
  after_add, listen, close, default_accept_queue_size,
}

abbrev pub is_made : Option (Chan ℕ) → Bool
is_made none = false
is_made (some q) = true

-- The pointer l is an open listener for the address, with its channel.
abbrev pub Serves : List (ℕ × Listener) → ℕ → ℕ → Type 0
Serves ls addr l =
    (x : Listener) × (lookup l ls ≡ some x)
    × (x.addr ≡ addr)
    × (x.is_closed ≡ false)
    × (is_made x.accepts ≡ true)

-- Every address in the map leads to a listener that serves it.
abbrev pub IsServed : Tran → Type 0
IsServed t = (addr l : ℕ) → lookup addr t.by_addr ≡ some l → Serves t.listeners addr l

-- A listener that is replaced by one for the same address, open, with its channel.
pub insert-Serves :
    (ls : List (ℕ × Listener)) (addr l k : ℕ) (x x' : Listener)
    → lookup k ls ≡ some x
    → x'.addr ≡ x.addr
    → x'.is_closed ≡ false
    → is_made x'.accepts ≡ true
    → Serves ls addr l
    → Serves (insert k x' ls) addr l
insert-Serves ls addr l k x x' f a o m (y, g, b, p, n) = elim (Bool-cases (k == l)) [
  | inl e ↦
      let same : k ≡ l = (==_iff k l).0 e in
      let both : some x ≡ some y = sym f ∙ ap (λ (j : ℕ). lookup j ls) same ∙ g in
      let xy : x ≡ y = cc both in
      (x', lookup-insert k l x' ls ∙ rw e refl, a ∙ ap (λ (z : Listener). z.addr) xy ∙ b, o, m)
  | inr e ↦ (y, lookup-insert k l x' ls ∙ rw e g, b, p, n)
]

-- A closed listener that is replaced: no address leads to it.
pub insert_closed-Serves :
    (ls : List (ℕ × Listener)) (addr l k : ℕ) (x x' : Listener)
    → lookup k ls ≡ some x
    → x.is_closed ≡ true
    → Serves ls addr l
    → Serves (insert k x' ls) addr l
insert_closed-Serves ls addr l k x x' f c (y, g, b, p, n) = elim (Bool-cases (k == l)) [
  | inl e ↦
      let same : k ≡ l = (==_iff k l).0 e in
      let both : some x ≡ some y = sym f ∙ ap (λ (j : ℕ). lookup j ls) same ∙ g in
      let xy : x ≡ y = cc both in
      let shut : x.is_closed ≡ y.is_closed = ap (λ (z : Listener). z.is_closed) xy in
      absurd (cc (shut, c, p))
  | inr e ↦ (y, lookup-insert k l x' ls ∙ rw e g, b, p, n)
]

other_pointer :
    (ls : List (ℕ × Listener)) (k l : ℕ) (y : Listener)
    → lookup k ls ≡ none
    → lookup l ls ≡ some y
    → (k == l) ≡ false
other_pointer ls k l y new g = elim (Bool-cases (k == l)) [
  | inl e ↦
      let both : none ≡ some y = sym new ∙ ap (λ (j : ℕ). lookup j ls) ((==_iff k l).0 e) ∙ g in
      absurd (cc both)
  | inr e ↦ e
]

insert_other-Serves :
    (ls : List (ℕ × Listener)) (addr l k : ℕ) (x' : Listener)
    → (k == l) ≡ false
    → Serves ls addr l
    → Serves (insert k x' ls) addr l
insert_other-Serves ls addr l k x' e (y, g, b, p, n) =
    (y, lookup-insert k l x' ls ∙ rw e g, b, p, n)

pub makes-IsServed :
    (l addr : ℕ) (t : Tran)
    → lookup l t.listeners ≡ none
    → IsServed t
    → IsServed (new_listener l addr t)
unfolding new_listener
makes-IsServed l addr t new s a k e =
    let (y, g, b, p, n) = s a k e in
    insert_other-Serves t.listeners a k l _ (other_pointer t.listeners l k y new g) (s a k e)

added-Serves :
    (l a k : ℕ) (x : Listener) (t : Tran)
    → (x.addr == a) ≡ true
    → x.is_closed ≡ false
    → lookup a (insert x.addr l t.by_addr) ≡ some k
    → Serves
        (insert l (record x { accepts = some (make default_accept_queue_size) }) t.listeners)
        a
        k
added-Serves l a k x t h o e =
    let both : some l ≡ some k = sym (lookup-insert x.addr a l t.by_addr ∙ rw h refl) ∙ e in
    let lk : (l == k) ≡ true = (==_iff l k).1 (cc both) in
    let x' : Listener = record x { accepts = some (make default_accept_queue_size) } in
    (x', lookup-insert l k x' t.listeners ∙ rw lk refl, (==_iff x.addr a).0 h, o, refl)

add_at-IsServed :
    (l : ℕ) (x : Listener) (t : Tran) (found : Option ℕ)
    → lookup l t.listeners ≡ some x
    → x.is_closed ≡ false
    → IsServed t
    → IsServed (after_add l x (add_at l x.addr found t)).0
add_at-IsServed l x t none f o s = λ a k e. elim (Bool-cases (x.addr == a)) [
  | inl h ↦ added-Serves l a k x t h o e
  | inr h ↦
      insert-Serves t.listeners a k l x _ f refl o refl
        (s a k (sym (lookup-insert x.addr a l t.by_addr ∙ rw h refl) ∙ e))
]
add_at-IsServed l x t (some xl) f o s = elim (Bool-cases (xl == l)) [
  | inl h ↦ rw h s
  | inr h ↦ rw h s
]

unless_closed :
    (b : Bool) (t : Tran) (u : Tran × Option Err)
    → IsServed t
    → (b ≡ false → IsServed (u.0))
    → IsServed ((if b then (t, some closed) else u).0)
unless_closed true t u s next = s
unless_closed false t u s next = next refl

pub listen-IsServed :
    (l : ℕ) (x : Listener) (t : Tran)
    → lookup l t.listeners ≡ some x
    → IsServed t
    → IsServed (listen l x t).0
unfolding listen add_listener
listen-IsServed l x t f s =
    unless_closed x.is_closed t (after_add l x (add_listener l x.addr t)) s
      (λ h. add_at-IsServed l x t (lookup x.addr t.by_addr) f h s)

own_address :
    (l k a : ℕ) (x : Listener) (t : Tran)
    → lookup l t.listeners ≡ some x
    → Serves t.listeners a k
    → (l == k) ≡ true
    → x.addr ≡ a
own_address l k a x t f (y, g, b, p, n) h =
    let both : some x ≡ some y =
      sym f ∙ ap (λ (j : ℕ). lookup j t.listeners) ((==_iff l k).0 h) ∙ g in
    let xy : x ≡ y = cc both in ap (λ (z : Listener). z.addr) xy ∙ b

unless_own :
    (l k a : ℕ) (x x' : Listener) (t : Tran)
    → lookup l t.listeners ≡ some x
    → Serves t.listeners a k
    → x.addr ≢ a
    → Serves (insert l x' t.listeners) a k
unless_own l k a x x' t f serves other = elim (Bool-cases (l == k)) [
  | inl h ↦ absurd (other (own_address l k a x t f serves h))
  | inr h ↦ insert_other-Serves t.listeners a k l x' h serves
]

-- An address that leads to the listener that is closed is its own, so the map no longer holds it.
closed-IsServed :
    (l : ℕ) (x x' : Listener) (t : Tran)
    → lookup l t.listeners ≡ some x
    → IsServed t
    → IsServed (remove_listener l x.addr (record t { listeners = insert l x' t.listeners }))
unfolding remove_listener is_listening
closed-IsServed l x x' t f s = elim (Bool-cases (same_pointer l (lookup x.addr t.by_addr))) [
  | inl h ↦ rw h (λ a k e. elim (Bool-cases (x.addr == a)) [
    | inl q ↦
        let gone : none ≡ some k = sym (lookup-delete x.addr a t.by_addr ∙ rw q refl) ∙ e in
        absurd (cc gone)
    | inr q ↦
        let held : lookup a t.by_addr ≡ some k =
          sym (lookup-delete x.addr a t.by_addr ∙ rw q refl) ∙ e in
        unless_own l k a x x' t f (s a k held) (λ z. ground (arith, z, q))
  ])
  | inr h ↦ rw h (λ a k e. elim (Bool-cases (l == k)) [
    | inl q ↦
        let at : lookup x.addr t.by_addr ≡ some k =
          ap (λ (j : ℕ). lookup j t.by_addr) (own_address l k a x t f (s a k e) q) ∙ e in
        let kl : (k == l) ≡ true = (==_iff k l).1 (sym ((==_iff l k).0 q)) in
        let clash : false ≡ true = sym h ∙ ap (same_pointer l) at ∙ kl in absurd (cc clash)
    | inr q ↦ insert_other-Serves t.listeners a k l x' q (s a k e)
  ])
]

pub close-IsServed :
    (l : ℕ) (x : Listener) (t : Tran)
    → lookup l t.listeners ≡ some x
    → IsServed t
    → IsServed (close l x t).0
unfolding close
close-IsServed l x t f s =
    unless_closed x.is_closed t _ s (λ h. closed-IsServed l x (record x { is_closed = true }) t f s)
