-- ===== src/Message/Send/Reply.antt =====
-- message/message.go: a reply along the source of a message.
use multisocket.Prelude.{
  ℕ, ◌+◌, ◌*◌, ◌/◌, ◌^◌, ◌≤◌, ◌<◌, ◌≡◌, refl, true, false, List, [], ◌∷◌, ◌++◌, length,
  length-append, arith, All, ◌⊎◌, inl, inr, bit_or,
}
use multisocket.Prelude.Bytes.{put_u32, length-put_u32, get_u32-put_u32, IsU32}
use multisocket.Bytespool.{IsHanded}
use multisocket.Errs.{ok}
use multisocket.Message.{View, Message, cur_id, send_type}
use multisocket.Message.Receive.{to_dest}
use multisocket.Message.Send.Laws.{sent, IsPath}
use multisocket.Message.Send.Route.{Fits}

-- The path that holds these pipe ids.
abbrev pub path_of : List ℕ → List ℕ
path_of [] = []
path_of (id ∷ ids) = put_u32 id ++ path_of ids

pub length-path_of : (ids : List ℕ) → length (path_of ids) ≡ 4 * length ids
length-path_of [] = omega arith
length-path_of (id ∷ ids) =
    omega (arith, length-append (put_u32 id) (path_of ids), length-put_u32 id, length-path_of ids)

pub cur_id-path_of : (id : ℕ) (ids : List ℕ) → IsU32 id → cur_id (path_of (id ∷ ids)) ≡ ok id
unfolding cur_id
cur_id-path_of id ids h = ground (
  arith,
  length-append (put_u32 id) (path_of ids),
  length-put_u32 id,
  get_u32-put_u32 id (path_of ids) h,
)

pub path_of-IsPath : (ids : List ℕ) → length ids < 256 → IsPath (path_of ids)
path_of-IsPath ids h = (omega (arith, length-path_of ids), omega (arith, length-path_of ids))

-- A content within the receivers' limit, where 0 is no limit.
abbrev pub IsShort : ℕ → List ℕ → Type 0
IsShort max_length content =
    ((max_length ≡ 0) ⊎ (length content ≤ max_length)) × (length content < 2 ^ 32)

pub sent-Fits :
    (max_length n ttl send_type : ℕ) (ids content : List ℕ)
    → send_type < 256
    → bit_or 0 send_type ≡ send_type
    → ttl < 256
    → IsShort max_length content
    → length ids + n < 256
    → n ≤ length ids ⊎ (to_dest (sent 0 send_type ttl [] (path_of ids) content).meta ≡ false)
    → Fits max_length n (sent 0 send_type ttl [] (path_of ids) content)
sent-Fits max_length n ttl t ids content ht flags httl short room far = record {
  is_view = record {
    meta_fits = record {
      flags_fit = rw flags ht;
      ttl_fits = ground arith;
      hops_fit = omega arith;
      distance_fits = omega (arith, length-path_of ids);
      length_fits = short.1;
    };
    hops_count = omega arith;
    distance_count = omega (arith, length-path_of ids);
    content_count = refl;
  };
  room = omega (arith, length-path_of ids);
  far_enough = enough far;
  short_enough = let s = short.0 in ground (arith, s);
}
  where
    enough :
        n ≤ length ids ⊎ (to_dest (sent 0 t ttl [] (path_of ids) content).meta ≡ false)
        → to_dest (sent 0 t ttl [] (path_of ids) content).meta ≡ true
        → n ≤ length (path_of ids) / 4
    enough (inl h) e = omega (arith, length-path_of ids)
    enough (inr h) e = absurd (cc)

module _ (get : ℕ → List ℕ) (max_length ttl : ℕ) (pids back : List ℕ) (content answer : List ℕ)
    (handed : IsHanded get) (ids : All IsU32 pids) (same : length back ≡ length pids)
    (near : length pids < 128) (ttl_fits : ttl < 256) (asked : IsShort max_length content)
    (answered : IsShort max_length answer) where
  abbrev request : View
  request = sent 0 0 ttl [] [] content
