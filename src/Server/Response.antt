-- ===== src/Server/Response.antt =====
-- The packets that the handler of samples/samples-server/test-client-handle.cpp answers with.
use tcp_epoll.Prelude.{
  ℕ, zero, suc, ◌+◌, ◌*◌, ◌^◌, ◌≤◌, ◌<◌, ◌≡◌, refl, [], ◌∷◌, ◌++◌, length, length-append, arith,
}
use tcp_epoll.StdMap.{StdMap, insert}
use tcp_epoll.StdMap.Order.{Ascends, Ascends-insert}
use tcp_epoll.Wire.{le_bytes}
use tcp_epoll.Wire.Entries.{InRange, entries_bytes}
use tcp_epoll.Packet.{MsgHeader}
use tcp_epoll.Packet.Reads.{IsHeader, string_bytes}
use tcp_epoll.Packet.RoundTrip.{IsPacket}
use tcp_epoll.Server.Handler.{ver_nego_answer, level_map, auth_answer, answer_text}

level_map-Ascends : (n : ℕ) → Ascends (level_map n)
unfolding level_map
level_map-Ascends zero = tt
level_map-Ascends (suc n) = Ascends-insert n n (level_map n) (level_map-Ascends n)

InRange-insert :
    (k v : ℕ) (m : StdMap ℕ) → k < 2 ^ 32 → v < 2 ^ 64 → InRange m → InRange (insert k v m)
unfolding insert
InRange-insert k v [] h j r = ((h, j), tt)
InRange-insert k v ((i, w) ∷ m) h j r = ground (arith, r, InRange-insert k v m h j r.1)

level_map-InRange : (n : ℕ) → n < 2 ^ 32 → InRange (level_map n)
unfolding level_map
level_map-InRange zero h = tt
level_map-InRange (suc n) h =
    InRange-insert n n (level_map n) (omega (arith, h)) (omega (arith, h))
      (level_map-InRange n (omega (arith, h)))

length-insert : (k v : ℕ) (m : StdMap ℕ) → length (insert k v m) ≤ length m + 1
unfolding insert
length-insert k v [] = omega arith
length-insert k v ((i, w) ∷ m) = ground (arith, length-insert k v m)

length-level_map : (n : ℕ) → length (level_map n) ≤ n
unfolding level_map
length-level_map zero = omega arith
length-level_map (suc n) = omega (arith, length-insert n n (level_map n), length-level_map n)

length-entries_bytes : (m : StdMap ℕ) → length (entries_bytes m) ≡ 12 * length m
unfolding le_bytes
length-entries_bytes [] = omega arith
length-entries_bytes ((k, v) ∷ m) = omega (arith, length-entries_bytes m)

pub ver_nego_answer-IsPacket : (h : MsgHeader) → IsHeader h → IsPacket (ver_nego_answer h)
ver_nego_answer-IsPacket h v = record {
  header = record {
    magic = v.magic;
    type = omega arith;
    total = omega arith;
    seq = v.seq;
    ret = omega arith;
  };
  type = refl;
  body = tt;
  short = omega arith;
}

pub auth_answer-IsPacket :
    (h : MsgHeader) (n : ℕ) → IsHeader h → n < 2 ^ 20 → IsPacket (auth_answer h n)
unfolding le_bytes
auth_answer-IsPacket h n v b = record {
  header = record {
    magic = v.magic;
    type = omega arith;
    total = omega arith;
    seq = v.seq;
    ret = omega arith;
  };
  type = refl;
  body = (
    omega arith,
    omega arith,
    omega arith,
    level_map-Ascends n,
    level_map-InRange n (omega (arith, b)),
    omega (arith, b, length-level_map n),
    omega arith,
  );
  short = omega (
    arith,
    b,
    length-level_map n,
    length-entries_bytes (level_map n),
    length-append (entries_bytes (level_map n)) (string_bytes answer_text ++ []),
  );
}
