-- ===== src/Stream/Overread.antt =====
-- A piece of a packet that ends within the head that the loop looks at.
use tcp_epoll.Prelude.{
  ℕ, ◌+◌, ◌-◌, ◌^◌, ◌<◌, ◌≡◌, inl, inr, sym, ap, ◌∙◌, subst, List, [], ◌++◌, length, length-append,
  take, drop, arith, true, false, ltb, leb, All, if◌then◌else◌, Bool-cases, none, some, ◌==◌,
}
use tcp_epoll.Exec.{crash, pure, crash->>=}
use tcp_epoll.Wire.{le_bytes, ms_endian32}
use tcp_epoll.Wire.Parse.{copy}
use tcp_epoll.Wire.Finds.{copy-append}
use tcp_epoll.Packet.{Packet, ntohl_at, swapped}
use tcp_epoll.Packet.RoundTrip.{packet_bytes, length-packet_bytes}
use tcp_epoll.Stream.{
  Event, leave, scan_round, scan, cut, head_case, total_case, same_bytes, ui_msg_head,
}
use tcp_epoll.Stream.Frames.{IsFrame, frames}
use tcp_epoll.Stream.Order.{scan-frames, enough_rounds, Behind}
use tcp_epoll.Stream.Pieces.{take_past, length-take}

copy-short : (buf : List ℕ) (n m : ℕ) → length buf < n + m → copy buf n m ≡ none
unfolding copy
copy-short buf n m h = ap (λ c. if c then some (take m (drop n buf)) else none) beyond
  where
    beyond : leb (n + m) (length buf) ≡ false
    beyond = ground (arith, h)

scan_round-copy :
    (pre rest : List ℕ)
    → 0 < length rest
    → scan_round (pre ++ rest) (length pre)
      ≡ head_case (pre ++ rest) (length pre) (copy (pre ++ rest) (length pre) 4)
unfolding scan_round
scan_round-copy pre rest h =
    ap
      (λ c.
        if c
        then leave
        else head_case (pre ++ rest) (length pre) (copy (pre ++ rest) (length pre) 4))
      more
  where
    more : (length (pre ++ rest) == length pre) ≡ false
    more = ground (arith, length-append pre rest, h)

Behind-short : (rest : List ℕ) → 0 < length rest → length rest < 4 → Behind true rest
Behind-short rest h k pre b =
    scan_round-copy pre rest h
    ∙ ap (head_case (pre ++ rest) (length pre))
        (copy-short (pre ++ rest) (length pre) 4 (omega (arith, length-append pre rest, k)))

Behind-magic : (more : List ℕ) → length more < 8 → Behind true (ui_msg_head ++ more)
unfolding le_bytes ntohl_at same_bytes ms_endian32
Behind-magic more k pre b =
    let rest = ui_msg_head ++ more in
    let buf = pre ++ rest in
    scan_round-copy pre rest (omega arith)
    ∙ ap (head_case buf (length pre)) (copy-append pre ui_msg_head more)
    ∙ ap (λ o. total_case buf (length pre) (swapped o))
        (copy-short buf (length pre + 8) 4 (omega (arith, length-append pre rest, k)))

-- Let a piece of a packet stand behind other packets in the buffer of a link, of 1 to 11 bytes.
-- Then handle_recv_buff reads beyond the buffer: it compares 4 bytes with the magic number, and
-- reads the length, without a look at how many bytes there are.
pub cut-overread :
    (h_link n : ℕ) (ps : List Packet) (q : Packet) (events : List Event)
    → All IsFrame ps
    → IsFrame q
    → 0 < n
    → n < 12
    → length (frames ps ++ take n (packet_bytes q)) < 2 ^ 31
    → cut h_link (frames ps ++ take n (packet_bytes q)) events ≡ crash
unfolding cut le_bytes
cut-overread h_link n ps q events f g low high b =
    let rest = take n (packet_bytes q) in
    let buf = frames ps ++ rest in
    crash->>= (scan (length buf + 1) h_link buf 0) (λ k. pure (if ltb 0 k then drop k buf else buf))
      events
      (scan-frames true h_link (length buf + 1) ps [] rest events f behind b
        (omega (arith, enough_rounds ps, length-append (frames ps) rest)))
  where
    l : length (take n (packet_bytes q)) ≡ n
    l = length-take (packet_bytes q) n (omega (arith, high, length-packet_bytes q))

    tail_ : List ℕ
    tail_ = drop 4 (packet_bytes q)

    behind : Behind true (take n (packet_bytes q))
    behind = elim (Bool-cases (ltb n 4)) [
      | inl few ↦
          Behind-short (take n (packet_bytes q)) (omega (arith, l, low)) (ground (arith, l, few))
      | inr many ↦
          let e : take n (packet_bytes q) ≡ ui_msg_head ++ take (n - 4) tail_ =
            take_past (le_bytes 4 (ms_endian32 q.header.magic_type)) tail_ n (ground (arith, many))
            ∙ ap (λ m. le_bytes 4 (ms_endian32 m) ++ take (n - 4) tail_) g.magic in
          subst (Behind true) (sym e) (
            Behind-magic (take (n - 4) tail_)
              (omega (arith, l, high, length-append ui_msg_head (take (n - 4) tail_), ap length e)))
    ]
