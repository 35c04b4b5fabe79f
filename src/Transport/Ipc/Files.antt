-- ===== src/Transport/Ipc/Files.antt =====
-- transport/ipc/ipc_unix.go: what Listen does to the file at its path.
use multisocket.Prelude.{
  ◌≡◌, refl, true, Option, none, some, ◌⊎◌, inl, inr, if◌then◌else◌, Bool, false,
}
use multisocket.Errs.{Err, closed}
use multisocket.Transport.Ipc.{
  File, nothing, Stat, absent, socket, other_file, stat_error, Listener, listen_at, listen,
}

-- What is true of an answer of Listen, by its error.
abbrev pub IsSafe : Listener → File → Listener × File × Option Err → Type 0
IsSafe l file (l', file', none) =
    (l'.has_listener ≡ true)
    × (file'.stat ≡ socket)
    × ((file.stat ≡ absent) ⊎ (file.stat ≡ socket))
    × (l'.is_closed ≡ false)
IsSafe l file (l', file', some e) =
    (l' ≡ l) × ((file' ≡ file) ⊎ ((file.stat ≡ socket) × (file' ≡ nothing) × (l.is_closed ≡ false)))

-- Listen succeeds only on an open listener and where os.Stat finds nothing or a socket, even one that
-- another listener uses, and then a socket is at the path. If it fails, the listener is as it was, and
-- so is what stands at the path, unless os.Stat found a socket: then it may be gone. So nothing is
-- ever removed but a socket, or a link that leads to a socket, which leaves that socket alone.
pub listen-IsSafe :
    (removed bound : Option Err) (l : Listener) (file : File)
    → IsSafe l file (listen removed bound l file)
unfolding listen
listen-IsSafe removed bound l file = go l.is_closed refl removed bound file.stat refl
  where
    go :
        (c : Bool)
        → l.is_closed ≡ c
        → (removed bound : Option Err) (stat : Stat) → file.stat ≡ stat
        → IsSafe l file (if c then (l, file, some closed) else listen_at removed bound l file stat)
    go true h r b stat k = (refl, inl refl)
    go false h r none absent k = (refl, refl, inl k, h)
    go false h r (some e) absent k = (refl, inl refl)
    go false h none none socket k = (refl, refl, inr k, h)
    go false h none (some e) socket k = (refl, inr (k, refl, h))
    go false h (some e) b socket k = (refl, inl refl)
    go false h r b other_file k = (refl, inl refl)
    go false h r b (stat_error e) k = (refl, inl refl)
