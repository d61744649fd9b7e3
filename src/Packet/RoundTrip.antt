-- ===== src/Packet/RoundTrip.antt =====
-- parse_data on what write_packet writes: comm-func.h and net-packet.h of
-- samples/samples-server/include.
use mathlib.Core.List.{append_assoc, append-nil}
use tcp_epoll.Prelude.{
  ℕ, ◌+◌, ◌%◌, ◌^◌, ◌≤◌, ◌<◌, ◌≡◌, refl, sym, ap, ◌∙◌, subst, List, [], ◌++◌, length, length-append,
  arith, true, leb, some, none, ltb, if◌then◌else◌, false,
}
use tcp_epoll.Wire.{le_bytes, ms_endian32, ms_endian32-round}
use tcp_epoll.Wire.Parse.{copy}
use tcp_epoll.Wire.Pack.{pack_scalar, pack_at}
use tcp_epoll.Wire.Reads.{Reads, Reads->>=, Reads-pure, ok, pure, ◌>>=◌}
use tcp_epoll.Packet.{
  MsgHeader, Body, ver_req, comm_resp, auth_req, auth_resp, Packet, header_size, pack_header,
  write_packet, write_packet_size, parse_header, read_packet, body_of, ntohl_at, swapped,
  parse_packet, parse_data, packet, incomplete, packet_case, read_case, data_case, to_result,
}
use tcp_epoll.Packet.Reads.{
  header_bytes, body_bytes, IsHeader, IsBody, Reads-header, Reads-body, reader_of, type_of,
}
use tcp_epoll.Packet.Writes.{pack_body-bytes}

-- The packet, with its length in the header.
abbrev pub sized : Packet → Packet
sized p = record p { header = record p.header { total_len = 20 + length (body_bytes p.body) } }

abbrev pub packet_bytes : Packet → List ℕ
packet_bytes p = header_bytes (sized p).header ++ body_bytes p.body

-- A packet that can be sent: its fields are of their types, the type of its message is that of its
-- body, and its length is that of an INT32.
pub record IsPacket (p : Packet) : Type 0 where
  pub header : IsHeader p.header
  pub type : p.header.msg_type ≡ type_of p.body
  pub body : IsBody p.body
  pub short : 20 + length (body_bytes p.body) < 2 ^ 31

-- The header, with the length of what follows it.
abbrev with_total : ℕ → MsgHeader → MsgHeader
with_total n h = record h { total_len = n }

write_packet_size-bytes :
    (h : MsgHeader) (body : List ℕ)
    → 20 + length body < 2 ^ 31
    → write_packet_size (header_bytes h ++ body)
      ≡ (true, header_bytes (with_total (20 + length body) h) ++ body)
unfolding write_packet_size pack_at le_bytes
write_packet_size-bytes h body s =
    let buf = header_bytes h ++ body in
    let m : length buf % 2 ^ 32 ≡ 20 + length body = omega (arith, s) in
    let t : leb 12 (length buf % 2 ^ 32) ≡ true = ground (arith, m) in
    ap (λ x. pack_at 8 (le_bytes 4 (ms_endian32 x)) buf) m
    ∙ ap
        (λ c.
          if c
          then (true, header_bytes (with_total (20 + length body) h) ++ body)
          else (false, buf))
        t

pub write_packet-bytes : (p : Packet) → IsPacket p → write_packet p [] ≡ (true, packet_bytes p)
unfolding write_packet pack_header pack_scalar
write_packet-bytes p v =
    ap write_packet_size (pack_body-bytes p.body (pack_header p.header []) v.body)
    ∙ ap (λ xs. write_packet_size (xs ++ body_bytes p.body)) header
    ∙ write_packet_size-bytes p.header (body_bytes p.body) v.short
  where
    header : pack_header p.header [] ≡ header_bytes p.header
    header = simp (append_assoc, append-nil)

body_of-type_of : (b : Body) → body_of (type_of b) ≡ some (reader_of b)
unfolding body_of
body_of-type_of (ver_req s) = refl
body_of-type_of comm_resp = refl
body_of-type_of (auth_req b) = refl
body_of-type_of (auth_resp b) = refl

-- read_packet on a packet that stands at the front of a buffer.
read_packet-bytes :
    (p : Packet) (post : List ℕ)
    → IsPacket p
    → read_packet (reader_of p.body) (packet_bytes p ++ post) (20 + length (body_bytes p.body))
      ≡ ok (sized p) (20 + length (body_bytes p.body))
unfolding read_packet le_bytes
read_packet-bytes p post v =
    let q = sized p in
    let all =
      Reads->>= parse_header
        (λ header. do body ← reader_of p.body; pure (record { header = header; body = body }))
        (header_bytes q.header) (body_bytes p.body ++ []) q.header q
        (Reads-header q.header (record {
          magic = v.header.magic;
          type = v.header.type;
          total = omega (arith, v.short);
          seq = v.header.seq;
          ret = v.header.ret;
        }))
        (Reads->>= (reader_of p.body) (λ body. pure (record { header = q.header; body = body }))
          (body_bytes p.body) [] p.body q (Reads-body p.body v.body) (Reads-pure q)) in
    let here =
      subst
        (λ xs.
          Reads
            (do
              header ← parse_header
              body ← reader_of p.body
              pure (record { header = header; body = body }))
            (header_bytes q.header ++ xs) q)
        (append-nil (body_bytes p.body)) all in
    here [] post (20 + length (body_bytes p.body)) (omega arith) v.short ∙ ap (ok q) (omega arith)

ntohl_at-total :
    (h : MsgHeader) (rest : List ℕ)
    → h.total_len < 2 ^ 32
    → ntohl_at 8 (header_bytes h ++ rest) ≡ some h.total_len
unfolding ntohl_at copy le_bytes
ntohl_at-total h rest b =
    ap (λ t. swapped (if t then some (le_bytes 4 (ms_endian32 h.total_len)) else none))
      (enough 12 (omega arith))
    ∙ ap some (ms_endian32-round h.total_len b)
  where
    enough : (n : ℕ) → n ≤ 20 → leb n (length (header_bytes h ++ rest)) ≡ true
    enough n k = ground (arith, k)

ntohl_at-type :
    (h : MsgHeader) (rest : List ℕ)
    → h.msg_type < 2 ^ 32
    → ntohl_at 4 (header_bytes h ++ rest) ≡ some h.msg_type
unfolding ntohl_at copy le_bytes
ntohl_at-type h rest b =
    ap (λ t. swapped (if t then some (le_bytes 4 (ms_endian32 h.msg_type)) else none))
      (enough 8 (omega arith))
    ∙ ap some (ms_endian32-round h.msg_type b)
  where
    enough : (n : ℕ) → n ≤ 20 → leb n (length (header_bytes h ++ rest)) ≡ true
    enough n k = ground (arith, k)

parse_packet-bytes :
    (p : Packet) (post : List ℕ)
    → IsPacket p
    → parse_packet (packet_bytes p ++ post) (20 + length (body_bytes p.body))
      ≡ packet (sized p) (20 + length (body_bytes p.body))
unfolding parse_packet le_bytes
parse_packet-bytes p post v =
    let buf = packet_bytes p ++ post in
    let n = 20 + length (body_bytes p.body) in
    ap (packet_case buf n)
      (ntohl_at-type (sized p).header (body_bytes p.body ++ post) v.header.type ∙ ap some v.type)
    ∙ ap (read_case buf n) (body_of-type_of p.body)
    ∙ ap (to_result n) (read_packet-bytes p post v)

pub parse_data-bytes :
    (p : Packet) (post : List ℕ)
    → IsPacket p
    → parse_data (packet_bytes p ++ post) ≡ packet (sized p) (20 + length (body_bytes p.body))
unfolding parse_data le_bytes
parse_data-bytes p post v =
    let buf = packet_bytes p ++ post in
    let n = 20 + length (body_bytes p.body) in
    let l = length-append (packet_bytes p) post in
    let first : ltb (length buf) header_size ≡ false = ground (arith, l) in
    let second : ltb (length buf) n ≡ false = ground (arith, l) in
    let rest = parse_packet buf n in
    ap (data_case buf)
      (ntohl_at-total (sized p).header (body_bytes p.body ++ post) (omega (arith, v.short)))
    ∙ ap (λ t. if t then incomplete else if ltb (length buf) n then incomplete else rest) first
    ∙ ap (λ t. if t then incomplete else rest) second
    ∙ parse_packet-bytes p post v

pub length-packet_bytes : (p : Packet) → length (packet_bytes p) ≡ 20 + length (body_bytes p.body)
unfolding le_bytes
length-packet_bytes p = omega arith

-- What write_packet writes, parse_data brings back: the packet with its length in its header, and
-- that length. It does so whatever follows the packet in the buffer, for each of the four messages
-- that the link managers know, with fields of their types.
pub parse_data-write_packet :
    (p : Packet) (post : List ℕ)
    → IsPacket p
    → let w = write_packet p [] in
      (w.0 ≡ true) × (parse_data (w.1 ++ post) ≡ packet (sized p) (length w.1))
parse_data-write_packet p post v =
    let w = write_packet-bytes p v in
    (
      ap (λ x. x.0) w,
      ap (λ x. parse_data (x.1 ++ post)) w
          ∙ parse_data-bytes p post v
          ∙ ap (packet (sized p)) (sym (ap (λ x. length x.1) w ∙ length-packet_bytes p)),
    )
