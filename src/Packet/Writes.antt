-- ===== src/Packet/Writes.antt =====
-- The bytes that the writers of packets write.
use mathlib.Core.List.{append_assoc, append-nil}
use tcp_epoll.Prelude.{ℕ, ◌%◌, ◌^◌, ◌<◌, ◌≡◌, sym, ap, ◌∙◌, List, [], ◌∷◌, ◌++◌, length, arith}
use tcp_epoll.StdMap.{StdMap}
use tcp_epoll.Wire.{le_bytes, ms_endian32}
use tcp_epoll.Wire.Pack.{pack_scalar, pack_string, pack_map, pack_entries}
use tcp_epoll.Wire.Entries.{entries_bytes}
use tcp_epoll.Packet.{
  Body, ver_req, comm_resp, auth_req, auth_resp, pack_body, pack_auth_req, pack_auth_resp,
}
use tcp_epoll.Packet.Reads.{string_bytes, map_bytes, body_bytes, IsBody}

pack_string-bytes : (s vc : List ℕ) → length s < 2 ^ 31 → pack_string s vc ≡ vc ++ string_bytes s
unfolding pack_string pack_scalar
pack_string-bytes s vc h = rw (let_mod) (append_assoc vc (le_bytes 4 (ms_endian32 (length s))) s)
  where
    let_mod : length s % 2 ^ 32 ≡ length s
    let_mod = omega (arith, h)

pack_entries-bytes : (m : StdMap ℕ) (vc : List ℕ) → pack_entries m vc ≡ vc ++ entries_bytes m
unfolding pack_entries pack_scalar
pack_entries-bytes [] vc = sym (append-nil vc)
pack_entries-bytes ((k, v) ∷ m) vc = pack_entries-bytes m _ ∙ simp (append_assoc)

pack_map-bytes :
    (m : StdMap ℕ) (vc : List ℕ) → length m < 2 ^ 32 → pack_map m vc ≡ vc ++ map_bytes m
unfolding pack_map pack_scalar
pack_map-bytes m vc h = rw (let_mod) (
    pack_entries-bytes m _
    ∙ append_assoc vc (le_bytes 4 (ms_endian32 (length m))) (entries_bytes m))
  where
    let_mod : length m % 2 ^ 32 ≡ length m
    let_mod = omega (arith, h)

pub pack_body-bytes : (b : Body) (vc : List ℕ) → IsBody b → pack_body b vc ≡ vc ++ body_bytes b
unfolding pack_body pack_auth_req pack_auth_resp pack_scalar
pack_body-bytes (ver_req s) vc v =
    pack_string-bytes s vc v ∙ ap (λ xs. vc ++ xs) (sym (append-nil (string_bytes s)))
pack_body-bytes comm_resp vc v = sym (append-nil vc)
pack_body-bytes (auth_req b) vc v = simp (append_assoc, append-nil)
pack_body-bytes (auth_resp b) vc v =
    pack_string-bytes b.str_extend _ v.6
    ∙ ap (λ xs. xs ++ string_bytes b.str_extend) (pack_map-bytes b.ui_client_level_map _ v.5)
    ∙ simp (append_assoc, append-nil)
