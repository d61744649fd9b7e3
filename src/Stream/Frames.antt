-- ===== src/Stream/Frames.antt =====
-- A round of the loop of handle_recv_buff (samples/samples-server/include/link-mgr.h), by what
-- stands at the offset.
use tcp_epoll.Prelude.{
  ℕ, suc, ◌+◌, ◌%◌, ◌^◌, ◌<◌, ◌≡◌, sym, ap, ◌∙◌, subst, List, [], ◌∷◌, ◌++◌, length, length-append,
  take, drop, drop-append, arith, true, false, leb, ltb, ◌==◌, some, none, if◌then◌else◌,
}
use tcp_epoll.Wire.{le_bytes, ms_endian32, ms_endian32-round}
use tcp_epoll.Wire.Parse.{copy}
use tcp_epoll.Wire.Finds.{copy-append}
use tcp_epoll.Packet.{Packet, MsgHeader, parse_data, ntohl_at, msg_head_magic, swapped}
use tcp_epoll.Packet.Reads.{body_bytes}
use tcp_epoll.Packet.RoundTrip.{
  IsPacket, packet_bytes, sized, parse_data-bytes, length-packet_bytes,
}
use tcp_epoll.Stream.{
  leave, deliver, skip, scan_round, same_bytes, ui_msg_head, head_case, total_case, parsed_case,
}

-- A packet that the receiving side recognises.
pub record IsFrame (p : Packet) : Type 0 where
  pub packet : IsPacket p
  pub magic : p.header.magic_type ≡ msg_head_magic

abbrev pub frames : List Packet → List ℕ
frames [] = []
frames (p ∷ ps) = packet_bytes p ++ frames ps

-- The first 12 bytes of a header: the loop looks at them.
abbrev pub head_bytes : MsgHeader → List ℕ
head_bytes h =
    le_bytes 4 (ms_endian32 h.magic_type)
    ++ (le_bytes 4 (ms_endian32 h.msg_type) ++ le_bytes 4 (ms_endian32 h.total_len))

drop_past : (pre ys : List ℕ) (n : ℕ) → drop (length pre + n) (pre ++ ys) ≡ drop n ys
drop_past [] ys n = ap (λ k. drop k ys) (omega arith)
drop_past (x ∷ pre) ys n = ap (λ k. drop k (x ∷ pre ++ ys)) (next (length pre)) ∙ drop_past pre ys n
  where
    next : (k : ℕ) → suc k + n ≡ suc (k + n)
    next k = omega arith

copy_past : (pre ys : List ℕ) (n m : ℕ) → copy (pre ++ ys) (length pre + n) m ≡ copy ys n m
unfolding copy
copy_past pre ys n m =
    let test : leb (length pre + n + m) (length (pre ++ ys)) ≡ leb (n + m) (length ys) =
      ground (arith, length-append pre ys) in
    ap (λ c. if c then some (take m (drop (length pre + n) (pre ++ ys))) else none) test
    ∙ ap (λ d. if leb (n + m) (length ys) then some (take m d) else none) (drop_past pre ys n)

ntohl_at-head :
    (h : MsgHeader) (rest : List ℕ)
    → h.total_len < 2 ^ 32
    → ntohl_at 8 (head_bytes h ++ rest) ≡ some h.total_len
unfolding ntohl_at copy le_bytes
ntohl_at-head h rest b =
    ap (λ t. swapped (if t then some (le_bytes 4 (ms_endian32 h.total_len)) else none)) enough
    ∙ ap some (ms_endian32-round h.total_len b)
  where
    enough : leb 12 (length (head_bytes h ++ rest)) ≡ true
    enough = ground arith

-- At a head that it recognises, a round compares its length with what is there.
pub scan_round-head :
    (pre rest : List ℕ) (h : MsgHeader)
    → h.magic_type ≡ msg_head_magic
    → h.total_len < 2 ^ 32
    → let buf = pre ++ (head_bytes h ++ rest) in
      scan_round buf (length pre) ≡ (
        if ltb (length buf) ((h.total_len + length pre) % 2 ^ 32)
        then leave
        else parsed_case (parse_data (head_bytes h ++ rest)))
unfolding scan_round le_bytes ntohl_at same_bytes copy ms_endian32
scan_round-head pre rest h m t =
    let ys = head_bytes h ++ rest in
    let buf = pre ++ ys in
    let more : (length buf == length pre) ≡ false = ground (arith, length-append pre ys) in
    ap (λ c. if c then leave else head_case buf (length pre) (copy buf (length pre) 4)) more
    ∙ ap (head_case buf (length pre))
        (copy-append pre (le_bytes 4 (ms_endian32 h.magic_type)) (drop 4 ys))
    ∙ ap
        (λ g.
          if same_bytes (le_bytes 4 (ms_endian32 g)) ui_msg_head
          then total_case buf (length pre) (ntohl_at (length pre + 8) buf)
          else skip)
        m
    ∙ ap (total_case buf (length pre)) (ap swapped (copy_past pre ys 8 4) ∙ ntohl_at-head h rest t)
    ∙ ap
        (λ d.
          if ltb (length buf) ((h.total_len + length pre) % 2 ^ 32)
          then leave
          else parsed_case (parse_data d))
        (drop-append pre ys)

-- At a packet: its bytes stand behind `pre`.
pub scan_round-deliver :
    (pre post : List ℕ) (p : Packet)
    → IsFrame p
    → length (pre ++ (packet_bytes p ++ post)) < 2 ^ 31
    → scan_round (pre ++ (packet_bytes p ++ post)) (length pre)
      ≡ deliver (sized p) (length (packet_bytes p))
unfolding le_bytes
scan_round-deliver pre post p f s =
    let n = 20 + length (body_bytes p.body) in
    let buf = pre ++ (packet_bytes p ++ post) in
    let l = length-append pre (packet_bytes p ++ post) in
    let d = length-append (packet_bytes p) post in
    let fits : ltb (length buf) ((n + length pre) % 2 ^ 32) ≡ false =
      ground (arith, l, d, s, length-packet_bytes p) in
    scan_round-head pre
      ((le_bytes 4 (ms_endian32 p.header.seq_id) ++ (le_bytes 4 (ms_endian32 p.header.i_ret) ++ []))
        ++ (body_bytes p.body ++ post))
      (sized p).header f.magic (omega (arith, f.packet.short))
    ∙ ap (λ c. if c then leave else parsed_case (parse_data (packet_bytes p ++ post))) fits
    ∙ ap parsed_case (parse_data-bytes p post f.packet)
    ∙ ap (λ c. if c then leave else deliver (sized p) n) (positive (length (body_bytes p.body)))
    ∙ ap (deliver (sized p)) (sym (length-packet_bytes p))
  where
    positive : (k : ℕ) → (20 + k == 0) ≡ false
    positive k = ground arith

-- The start of a packet that has come as far as its length, and no further than before its end.
pub record IsStart (rest : List ℕ) : Type 0 where
  pub head : MsgHeader
  pub more : List ℕ
  pub starts : rest ≡ head_bytes head ++ more
  pub start_magic : head.magic_type ≡ msg_head_magic
  pub longer : length rest < head.total_len
  pub total : head.total_len < 2 ^ 31

pub scan_round-start :
    (pre rest : List ℕ)
    → IsStart rest
    → length (pre ++ rest) < 2 ^ 31
    → scan_round (pre ++ rest) (length pre) ≡ leave
scan_round-start pre rest s h =
    let buf = pre ++ rest in
    let l = length-append pre rest in
    let short : ltb (length buf) ((s.head.total_len + length pre) % 2 ^ 32) ≡ true =
      ground (arith, l, h, s.longer, s.total) in
    subst
      (λ r. scan_round (pre ++ r) (length pre) ≡ (
        if ltb (length (pre ++ r)) ((s.head.total_len + length pre) % 2 ^ 32)
        then leave
        else parsed_case (parse_data r)))
      (sym s.starts) (scan_round-head pre s.more s.head s.start_magic (omega (arith, s.total)))
    ∙ ap (λ c. if c then leave else parsed_case (parse_data rest)) short

pub scan_round-end : (pre : List ℕ) → scan_round (pre ++ []) (length pre) ≡ leave
unfolding scan_round
scan_round-end pre =
    let e : (length (pre ++ []) == length pre) ≡ true = ground (arith, length-append pre []) in
    ap
      (λ c.
        if c then leave else head_case (pre ++ []) (length pre) (copy (pre ++ []) (length pre) 4))
      e
