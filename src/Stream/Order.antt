-- ===== src/Stream/Order.antt =====
-- handle_recv_buff (samples/samples-server/include/link-mgr.h) on the bytes of a number of packets.
use mathlib.Core.List.{append_assoc, append-nil}
use native.Mathlib.Nat.{zero-add}
use tcp_epoll.Prelude.{
  ℕ, zero, suc, ◌+◌, ◌^◌, ◌≤◌, ◌<◌, ◌≡◌, ◌⊎◌, inl, inr, refl, sym, ap, ◌∙◌, subst, List, [], ◌∷◌,
  ◌++◌, length, length-append, drop, drop-append, arith, true, false, ltb, Bool, All, map,
  if◌then◌else◌,
}
use tcp_epoll.Exec.{Outcome, done, crash, Prog, pure, done->>=}
use tcp_epoll.Packet.{Packet}
use tcp_epoll.Packet.RoundTrip.{packet_bytes, sized, length-packet_bytes}
use tcp_epoll.Stream.{Event, recv_data, Next, leave, over, scan_round, scan, cut, after}
use tcp_epoll.Stream.Frames.{
  IsFrame, frames, IsStart, scan_round-deliver, scan_round-start, scan_round-end,
}

-- The calls for packets of a link: each has its length in its header.
abbrev pub deliveries : ℕ → List Packet → List Event
deliveries h_link ps = map (λ p. recv_data h_link (sized p)) ps

leaves :
    (pre rest : List ℕ)
    → (rest ≡ []) ⊎ IsStart rest
    → length (pre ++ rest) < 2 ^ 31
    → scan_round (pre ++ rest) (length pre) ≡ leave
leaves pre rest (inl e) h =
    subst (λ r. scan_round (pre ++ r) (length pre) ≡ leave) (sym e) (scan_round-end pre)
leaves pre rest (inr s) h = scan_round-start pre rest s h

-- What a round behind the packets does: it leaves the loop, or it reads beyond the buffer.
abbrev pub next_of : Bool → Next
next_of false = leave
next_of true = over

abbrev pub ended : Bool → ℕ → List Event → Outcome (List Event) ℕ
ended false n events = done n events
ended true n events = crash

after-next_of :
    (o : Bool) (go_on : ℕ → Prog (List Event) ℕ) (h_link : ℕ) (buf : List ℕ) (n : ℕ)
    (events : List Event)
    → after go_on h_link buf n (next_of o) events ≡ ended o n events
after-next_of false go_on h_link buf n events = refl
after-next_of true go_on h_link buf n events = refl

-- Behind any bytes, the loop comes to its end at what stands behind the packets.
abbrev pub Behind : Bool → List ℕ → Type 0
Behind o rest =
    (pre : List ℕ)
    → length (pre ++ rest) < 2 ^ 31
    → scan_round (pre ++ rest) (length pre) ≡ next_of o

pub scan-frames :
    (o : Bool) (h_link rounds : ℕ) (ps : List Packet) (pre rest : List ℕ) (events : List Event)
    → All IsFrame ps
    → Behind o rest
    → length (pre ++ (frames ps ++ rest)) < 2 ^ 31
    → length ps < rounds
    → scan rounds h_link (pre ++ (frames ps ++ rest)) (length pre) events
      ≡ ended o (length pre + length (frames ps)) (events ++ deliveries h_link ps)
unfolding scan
scan-frames o h_link zero ps pre rest events f s b r = absurd (omega (arith, r))
scan-frames o h_link (suc k) [] pre rest events f s b r =
    ap (λ n. after (scan k h_link (pre ++ rest)) h_link (pre ++ rest) (length pre) n events)
      (s pre b)
    ∙ after-next_of o (scan k h_link (pre ++ rest)) h_link (pre ++ rest) (length pre) events
    ∙ ap (λ n. ended o n events) (omega arith)
    ∙ ap (ended o (length pre + 0)) (sym (append-nil events))
scan-frames o h_link (suc k) (p ∷ ps) pre rest events f s b r =
    let post = frames ps ++ rest in
    let buf = pre ++ (packet_bytes p ++ post) in
    let assoc : pre ++ (frames (p ∷ ps) ++ rest) ≡ buf =
      ap (λ xs. pre ++ xs) (append_assoc (packet_bytes p) (frames ps) rest) in
    let b' : length buf < 2 ^ 31 = subst (λ xs. length xs < 2 ^ 31) assoc b in
    let l = length-append pre (packet_bytes p) in
    let e = recv_data h_link (sized p) in
    let back : (pre ++ packet_bytes p) ++ post ≡ buf = append_assoc pre (packet_bytes p) post in
    let rest_ =
      scan-frames o h_link k ps (pre ++ packet_bytes p) rest (events ++ e ∷ []) f.1 s
        (subst (λ xs. length xs < 2 ^ 31) (sym back) b') (omega (arith, r)) in
    ap (λ xs. scan (suc k) h_link xs (length pre) events) assoc
    ∙ ap (λ n. after (scan k h_link buf) h_link buf (length pre) n events)
        (scan_round-deliver pre post p f.0 b')
    ∙ ap (λ n. scan k h_link buf n (events ++ e ∷ [])) (sym l)
    ∙ ap (λ xs. scan k h_link xs (length (pre ++ packet_bytes p)) (events ++ e ∷ [])) (sym back)
    ∙ rest_
    ∙ ap (λ n. ended o n ((events ++ e ∷ []) ++ deliveries h_link ps)) total
    ∙ ap (ended o (length pre + length (frames (p ∷ ps))))
        (append_assoc events (e ∷ []) (deliveries h_link ps))
  where
    total :
        length (pre ++ packet_bytes p) + length (frames ps) ≡ length pre + length (frames (p ∷ ps))
    total =
        omega
          (arith, length-append pre (packet_bytes p), length-append (packet_bytes p) (frames ps))

pub enough_rounds : (ps : List Packet) → length ps ≤ length (frames ps)
enough_rounds [] = omega arith
enough_rounds (p ∷ ps) =
    omega
      (arith, enough_rounds ps, length-append (packet_bytes p) (frames ps), length-packet_bytes p)

-- Let the buffer of a link hold packets, and behind them nothing or the start of another packet,
-- of which the length has come and the end has not. Then the loop of handle_recv_buff ends, gives
-- out these packets in their order, each with its length in its header, and leaves what is behind
-- them in the buffer. Nothing else is called, and nothing is read beyond the buffer.
pub cut-frames :
    (h_link : ℕ) (ps : List Packet) (rest : List ℕ) (events : List Event)
    → All IsFrame ps
    → (rest ≡ []) ⊎ IsStart rest
    → length (frames ps ++ rest) < 2 ^ 31
    → cut h_link (frames ps ++ rest) events ≡ done rest (events ++ deliveries h_link ps)
unfolding cut
cut-frames h_link ps rest events f s b =
    let buf = frames ps ++ rest in
    done->>= (scan (length buf + 1) h_link buf 0) (λ n. pure (if ltb 0 n then drop n buf else buf))
      events (events ++ deliveries h_link ps) (0 + length (frames ps))
      (scan-frames false h_link (length buf + 1) ps [] rest events f (λ pre h. leaves pre rest s h)
        b (omega (arith, enough_rounds ps, length-append (frames ps) rest)))
    ∙ ap (λ n. done (if ltb 0 n then drop n buf else buf) (events ++ deliveries h_link ps))
        (zero-add (length (frames ps)))
    ∙ ap (λ xs. done xs (events ++ deliveries h_link ps)) (kept (frames ps))
  where
    positive : (k : ℕ) → ltb 0 (suc k) ≡ true
    positive k = ground arith

    kept :
        (xs : List ℕ)
        → (if ltb 0 (length xs) then drop (length xs) (xs ++ rest) else xs ++ rest) ≡ rest
    kept [] = refl
    kept (x ∷ xs) =
        ap (λ c. if c then drop (length xs) (xs ++ rest) else x ∷ xs ++ rest) (positive (length xs))
        ∙ drop-append xs rest
