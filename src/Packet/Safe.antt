-- ===== src/Packet/Safe.antt =====
-- parse_data of samples/samples-server/include/comm-func.h on any bytes.
use tcp_epoll.Prelude.{
  ℕ, ◌+◌, ◌^◌, ◌≤◌, ◌<◌, ◌≡◌, sym, subst, ap, List, length, take, drop, arith, true, false, leb,
  ltb, ◌==◌, Bool, Bool-cases, inl, inr, Option, some, none, if◌then◌else◌,
}
use tcp_epoll.Wire.{uint32, uint64, of_le, ms_endian32}
use tcp_epoll.Wire.Parse.{copy}
use tcp_epoll.Wire.Reads.{Read, ok, refused, overread, Reader, scalar, array, string, entries}
use tcp_epoll.Wire.Safe.{
  Within, IsSafe, scalar-IsSafe, array-IsSafe, string-IsSafe, entries-IsSafe, pure-IsSafe,
  >>=-IsSafe,
}
use tcp_epoll.Packet.{
  Body, Packet, Result, packet, incomplete, failed, not_exist, beyond, parse_header, parse_auth_req,
  parse_auth_resp, parse_ver_req, comm_resp, read_packet, body_of, parse_packet, parse_data,
  ntohl_at, swapped, packet_case, read_case, data_case, to_result, header_size, ver_nego_req,
  ver_nego_resp, link_auth_req, link_auth_resp,
}

parse_header-IsSafe : IsSafe parse_header
unfolding parse_header
parse_header-IsSafe = >>=-IsSafe (scalar uint32) _ (scalar-IsSafe uint32) λ a.
    >>=-IsSafe (scalar uint32) _ (scalar-IsSafe uint32) λ b.
      >>=-IsSafe (scalar uint32) _ (scalar-IsSafe uint32) λ c.
        >>=-IsSafe (scalar uint32) _ (scalar-IsSafe uint32) λ d.
          >>=-IsSafe (scalar uint32) _ (scalar-IsSafe uint32)
            λ e. λ buf size off g. (omega arith, g.0)

parse_auth_req-IsSafe : IsSafe parse_auth_req
unfolding parse_auth_req
parse_auth_req-IsSafe = >>=-IsSafe (array 32) _ (array-IsSafe 32) λ a.
    >>=-IsSafe (array 16) _ (array-IsSafe 16) λ b.
      >>=-IsSafe (scalar uint32) _ (scalar-IsSafe uint32) λ c.
        >>=-IsSafe (scalar uint32) _ (scalar-IsSafe uint32) λ d.
          >>=-IsSafe (scalar uint32) _ (scalar-IsSafe uint32)
            λ e. λ buf size off g. (omega arith, g.0)

parse_auth_resp-IsSafe : IsSafe parse_auth_resp
unfolding parse_auth_resp
parse_auth_resp-IsSafe = >>=-IsSafe (scalar uint32) _ (scalar-IsSafe uint32) λ a.
    >>=-IsSafe (scalar uint32) _ (scalar-IsSafe uint32) λ b.
      >>=-IsSafe (scalar uint64) _ (scalar-IsSafe uint64) λ c.
        >>=-IsSafe entries _ entries-IsSafe
          λ d. >>=-IsSafe string _ string-IsSafe λ e. λ buf size off g. (omega arith, g.0)

parse_ver_req-IsSafe : IsSafe parse_ver_req
unfolding parse_ver_req
parse_ver_req-IsSafe = >>=-IsSafe string _ string-IsSafe λ a. λ buf size off g. (omega arith, g.0)

-- The readers of the switch.
CaseIsSafe : Option (Reader Body) → Type 0
CaseIsSafe none = Unit
CaseIsSafe (some parse_body) = IsSafe parse_body

CaseIsSafe-if :
    (c : Bool) (a b : Option (Reader Body))
    → CaseIsSafe a
    → CaseIsSafe b
    → CaseIsSafe (if c then a else b)
CaseIsSafe-if true a b s t = s
CaseIsSafe-if false a b s t = t

body_of-IsSafe : (ui_msg_type : ℕ) → CaseIsSafe (body_of ui_msg_type)
unfolding body_of CaseIsSafe
body_of-IsSafe t = CaseIsSafe-if (t == ver_nego_req) _ _ parse_ver_req-IsSafe (
    CaseIsSafe-if (t == ver_nego_resp) _ _ (pure-IsSafe comm_resp) (
      CaseIsSafe-if (t == link_auth_req) _ _ parse_auth_req-IsSafe
        (CaseIsSafe-if (t == link_auth_resp) _ _ parse_auth_resp-IsSafe tt)))

-- What parse_data may return for so many bytes: it has not read beyond them, and a packet is no
-- longer than they are.
abbrev pub InData : ℕ → Result → Type 0
InData n (packet p i_parse_len) = i_parse_len ≤ n
InData n incomplete = Unit
InData n failed = Unit
InData n not_exist = Unit
InData n beyond = ⊥

read_case-InData :
    (buf : List ℕ) (size : ℕ) (o : Option (Reader Body))
    → size ≤ length buf
    → size < 2 ^ 31
    → CaseIsSafe o
    → InData (length buf) (read_case buf size o)
unfolding CaseIsSafe read_packet
read_case-InData buf size none h k s = tt
read_case-InData buf size (some parse_body) h k s = go (read_packet parse_body buf size) safe
  where
    safe : Within 0 size (read_packet parse_body buf size)
    safe =
        >>=-IsSafe parse_header _ parse_header-IsSafe
          (λ a. >>=-IsSafe parse_body _ s λ b. λ buf' size' off g. (omega arith, g.0)) buf size 0
          (omega arith, h, k)

    go : (r : Read Packet) → Within 0 size r → InData (length buf) (to_result size r)
    go (ok p n) w = h
    go refused w = tt
    go overread w = w

ntohl_at-there : (n : ℕ) (buf : List ℕ) → n + 4 ≤ length buf → (v : ℕ) × (ntohl_at n buf ≡ some v)
unfolding ntohl_at copy
ntohl_at-there n buf h =
    let c : leb (n + 4) (length buf) ≡ true = ground (arith, h) in
    let bytes = take 4 (drop n buf) in
    (ms_endian32 (of_le bytes), ap (λ t. swapped (if t then some bytes else none)) c)

packet_within :
    (buf : List ℕ) (n : ℕ)
    → 8 ≤ length buf
    → n ≤ length buf
    → length buf < 2 ^ 31
    → InData (length buf) (parse_packet buf n)
unfolding parse_packet
packet_within buf n low h high =
    let (t, e) = ntohl_at-there 4 buf low in
    subst (λ o. InData (length buf) (packet_case buf n o)) (sym e)
      (read_case-InData buf n (body_of t) h (omega (arith, h, high)) (body_of-IsSafe t))

-- parse_data reads nothing beyond its buffer, whatever its bytes are, if the buffer holds the field
-- with the length, of the first 12 bytes; and a packet that it gives out is no longer than the
-- buffer.
pub parse_data-InData :
    (p_data : List ℕ)
    → 12 ≤ length p_data
    → length p_data < 2 ^ 31
    → InData (length p_data) (parse_data p_data)
unfolding parse_data
parse_data-InData p_data low high =
    let (n, e) = ntohl_at-there 8 p_data (omega (arith, low)) in
    subst (λ o. InData (length p_data) (data_case p_data o)) (sym e) (sizes n)
  where
    parsed : (n : ℕ) → n ≤ length p_data → InData (length p_data) (parse_packet p_data n)
    parsed n h = packet_within p_data n (omega (arith, low)) h high

    sizes : (n : ℕ) → InData (length p_data) (data_case p_data (some n))
    sizes n = elim (Bool-cases (ltb (length p_data) header_size)) [
      | inl small ↦ rw small tt
      | inr large ↦ elim (Bool-cases (ltb (length p_data) n)) [
        | inl part ↦ rw (large, part) tt
        | inr whole ↦ rw (large, whole) (parsed n (ground (arith, whole)))
      ]
    ]
