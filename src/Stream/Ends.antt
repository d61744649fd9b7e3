-- ===== src/Stream/Ends.antt =====
-- The loop of handle_recv_buff (samples/samples-server/include/link-mgr.h) on any bytes.
use tcp_epoll.Prelude.{
  ℕ, zero, suc, ◌+◌, ◌-◌, ◌%◌, ◌^◌, ◌≤◌, ◌<◌, ◌≡◌, ◌⊎◌, refl, ◌∙◌, ap, subst, List, [], ◌∷◌, ◌++◌,
  length, drop, arith, ltb, ◌==◌, Bool-cases, Option-cases, inl, inr, some, if◌then◌else◌,
}
use tcp_epoll.Exec.{Outcome, done, crash, Prog, pure, done->>=, crash->>=}
use tcp_epoll.Wire.Parse.{copy}
use tcp_epoll.Packet.{
  Result, packet, incomplete, failed, not_exist, beyond, parse_data, ntohl_at, swapped,
}
use tcp_epoll.Packet.Safe.{InData, parse_data-InData}
use tcp_epoll.Stream.{
  Event, recv_data, recv_unknown_packet, Next, leave, skip, deliver, unknown, over, after,
  scan_round, scan, cut, head_case, total_case, parsed_case, same_bytes, ui_msg_head,
}

-- What a round may do with so many bytes left: it goes on by one byte or more, and not beyond them.
Moves : ℕ → Next → Type 0
Moves left leave = Unit
Moves left skip = 0 < left
Moves left (deliver p n) = (0 < n) × (n ≤ left)
Moves left unknown = 0 < left
Moves left over = Unit

parsed_case-Moves : (left : ℕ) (r : Result) → 0 < left → InData left r → Moves left (parsed_case r)
unfolding Moves
parsed_case-Moves left (packet p n) h i = elim (Bool-cases (n == 0)) [
  | inl none_ ↦ rw none_ tt
  | inr some_ ↦ rw some_ (ground (arith, some_), i)
]
parsed_case-Moves left incomplete h i = tt
parsed_case-Moves left failed h i = h
parsed_case-Moves left not_exist h i = h
parsed_case-Moves left beyond h i = tt

length-drop : (xs : List ℕ) (n : ℕ) → length (drop n xs) ≡ length xs - n
length-drop xs zero = omega arith
length-drop [] (suc n) = omega arith
length-drop (x ∷ xs) (suc n) = length-drop xs n ∙ omega arith

-- What memcpy and memcmp can read is there.
copy-there :
    (buf : List ℕ) (off n : ℕ) (bytes : List ℕ) → copy buf off n ≡ some bytes → off + n ≤ length buf
unfolding copy
copy-there buf off n bytes e = ground arith

ntohl_at-copied : (off v : ℕ) (buf : List ℕ) → ntohl_at off buf ≡ some v → off + 4 ≤ length buf
unfolding ntohl_at
ntohl_at-copied off v buf e = elim (Option-cases (copy buf off 4)) [
  | inl n ↦ absurd (cc (ap swapped n, e))
  | inr (bytes, f) ↦ copy-there buf off 4 bytes f
]

total_case-Moves :
    (buf : List ℕ) (off : ℕ)
    → length buf < 2 ^ 31
    → Moves (length buf - off) (total_case buf off (ntohl_at (off + 8) buf))
unfolding Moves
total_case-Moves buf off h = elim (Option-cases (ntohl_at (off + 8) buf)) [
  | inl n ↦ rw n tt
  | inr (v, e) ↦
      let there = ntohl_at-copied (off + 8) v buf e in
      let l = length-drop buf off in
      rw e (elim (Bool-cases (ltb (length buf) ((v + off) % 2 ^ 32))) [
        | inl part ↦ rw part tt
        | inr whole ↦ rw whole (
            parsed_case-Moves (length buf - off) (parse_data (drop off buf)) (omega (arith, there))
              (subst (λ n. InData n (parse_data (drop off buf))) l
                (parse_data-InData (drop off buf) (omega (arith, l, there)) (omega (arith, l, h)))))
      ])
]

head_case-Moves :
    (buf : List ℕ) (off : ℕ)
    → length buf < 2 ^ 31
    → Moves (length buf - off) (head_case buf off (copy buf off 4))
unfolding Moves
head_case-Moves buf off h = elim (Option-cases (copy buf off 4)) [
  | inl n ↦ rw n tt
  | inr (bytes, e) ↦
      let there = copy-there buf off 4 bytes e in
      rw e (elim (Bool-cases (same_bytes bytes ui_msg_head)) [
        | inl magic ↦ rw magic (total_case-Moves buf off h)
        | inr other ↦ rw other (omega (arith, there))
      ])
]

scan_round-Moves :
    (buf : List ℕ) (off : ℕ) → length buf < 2 ^ 31 → Moves (length buf - off) (scan_round buf off)
unfolding scan_round Moves
scan_round-Moves buf off h = elim (Bool-cases (length buf == off)) [
  | inl at_end ↦ rw at_end tt
  | inr more ↦ rw more (head_case-Moves buf off h)
]

-- The loop reads beyond the buffer, or it ends at an offset within it.
Ends : ℕ → Outcome (List Event) ℕ → Type 0
Ends n o = (o ≡ crash) ⊎ ((k : ℕ) × (events : List Event) × (k ≤ n) × (o ≡ done k events))

after-Ends :
    (go_on : ℕ → Prog (List Event) ℕ) (h_link : ℕ) (buf : List ℕ) (off : ℕ) (x : Next)
    (events : List Event)
    → off ≤ length buf
    → Moves (length buf - off) x
    → ((k : ℕ) (later : List Event) → off < k → k ≤ length buf → Ends (length buf) (go_on k later))
    → Ends (length buf) (after go_on h_link buf off x events)
unfolding Moves Ends
after-Ends go_on h_link buf off leave events h m g = inr (off, events, h, refl)
after-Ends go_on h_link buf off skip events h m g =
    g (off + 1) events (omega arith) (omega (arith, m))
after-Ends go_on h_link buf off (deliver p n) events h m g =
    g (off + n) (events ++ recv_data h_link p ∷ []) (omega (arith, m)) (omega (arith, m, h))
after-Ends go_on h_link buf off unknown events h m g =
    g (off + 1) (events ++ recv_unknown_packet h_link (drop (off + 1) buf) ∷ []) (omega arith)
      (omega (arith, m))
after-Ends go_on h_link buf off over events h m g = inl refl

scan-Ends :
    (rounds h_link : ℕ) (buf : List ℕ) (off : ℕ) (events : List Event)
    → length buf < 2 ^ 31
    → off ≤ length buf
    → length buf < off + rounds
    → Ends (length buf) (scan rounds h_link buf off events)
unfolding scan
scan-Ends zero h_link buf off events b h r = absurd (omega (arith, h, r))
scan-Ends (suc rounds) h_link buf off events b h r =
    after-Ends (scan rounds h_link buf) h_link buf off (scan_round buf off) events h
      (scan_round-Moves buf off b)
      λ k later i j. scan-Ends rounds h_link buf k later b j (omega (arith, i, r))

drop_all : (n : ℕ) (buf : List ℕ) → (if ltb 0 n then drop n buf else buf) ≡ drop n buf
drop_all zero buf = refl
drop_all (suc n) buf = ground arith

-- Whatever bytes a link sends, the loop of handle_recv_buff over its buffer ends: a round for each
-- byte is enough. It has then either read beyond the buffer, or cut bytes off its front, and what
-- is left is the rest.
pub cut-ends :
    (h_link : ℕ) (buf : List ℕ) (events : List Event)
    → length buf < 2 ^ 31
    → (cut h_link buf events ≡ crash)
      ⊎ ((k : ℕ) × (later : List Event) × (k ≤ length buf)
          × (cut h_link buf events ≡ done (drop k buf) later))
unfolding cut Ends
cut-ends h_link buf events b =
    let m = scan (length buf + 1) h_link buf 0 in
    let f : ℕ → Prog (List Event) (List ℕ) = λ n. pure (if ltb 0 n then drop n buf else buf) in
    elim (scan-Ends (length buf + 1) h_link buf 0 events b (omega arith) (omega arith)) [
      | inl c ↦ inl (crash->>= m f events c)
      | inr (k, later, h, e) ↦
          inr
            (k, later, h, done->>= m f events later k e ∙ ap (λ xs. done xs later) (drop_all k buf))
    ]
