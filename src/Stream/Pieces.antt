-- ===== src/Stream/Pieces.antt =====
-- A packet that comes in two pieces.
use mathlib.Core.List.{append_assoc, append-nil}
use tcp_epoll.Prelude.{
  ℕ, zero, suc, ◌-◌, ◌^◌, ◌≤◌, ◌<◌, ◌≡◌, inl, inr, refl, sym, ap, ◌∙◌, subst, List, [], ◌∷◌, ◌++◌,
  length, length-append, take, drop, arith, All, some, none, ◌==◌, false,
}
use tcp_epoll.Exec.{Prog, pure, done, done->>=, ◌>>=◌}
use tcp_epoll.Wire.{le_bytes, ms_endian32}
use tcp_epoll.Packet.{Packet}
use tcp_epoll.Packet.Reads.{body_bytes}
use tcp_epoll.Packet.RoundTrip.{packet_bytes, sized, length-packet_bytes}
use tcp_epoll.StdMap.{StdMap, find, insert, find-insert}
use tcp_epoll.Stream.{
  Event, cut, Buffers, extended, do_post_recv_buff, handle_recv_buff, handle_links, handle_link,
}
use tcp_epoll.Stream.Frames.{IsFrame, frames, IsStart, head_bytes}
use tcp_epoll.Stream.Order.{deliveries, cut-frames}

pub take_past :
    (xs ys : List ℕ) (n : ℕ) → length xs ≤ n → take n (xs ++ ys) ≡ xs ++ take (n - length xs) ys
take_past [] ys n h = ap (λ k. take k ys) (omega arith)
take_past (x ∷ xs) ys zero h = absurd (omega (arith, h))
take_past (x ∷ xs) ys (suc n) h =
    ap (λ zs. x ∷ zs)
      (take_past xs ys n (omega (arith, h)) ∙ ap (λ k. xs ++ take k ys) (less n (length xs)))
  where
    less : (a b : ℕ) → a - b ≡ suc a - suc b
    less a b = omega arith

pub length-take : (xs : List ℕ) (n : ℕ) → n ≤ length xs → length (take n xs) ≡ n
length-take [] zero h = refl
length-take [] (suc n) h = absurd (omega (arith, h))
length-take (x ∷ xs) zero h = refl
length-take (x ∷ xs) (suc n) h = omega (arith, length-take xs n (omega (arith, h)))

take-drop : (xs : List ℕ) (n : ℕ) → take n xs ++ drop n xs ≡ xs
take-drop xs zero = refl
take-drop [] (suc n) = refl
take-drop (x ∷ xs) (suc n) = ap (λ ys. x ∷ ys) (take-drop xs n)

-- What stands behind the head of a packet.
abbrev behind_head : Packet → List ℕ
behind_head p =
    (le_bytes 4 (ms_endian32 p.header.seq_id) ++ (le_bytes 4 (ms_endian32 p.header.i_ret) ++ []))
    ++ body_bytes p.body

packet_bytes-head : (p : Packet) → packet_bytes p ≡ head_bytes (sized p).header ++ behind_head p
unfolding le_bytes
packet_bytes-head p = refl

take-IsStart :
    (p : Packet) (n : ℕ)
    → IsFrame p
    → 12 ≤ n
    → n < length (packet_bytes p)
    → IsStart (take n (packet_bytes p))
unfolding le_bytes
take-IsStart p n f low high = record {
  head = (sized p).header;
  more = take (n - 12) (behind_head p);
  starts = take_past (head_bytes (sized p).header) (behind_head p) n low;
  start_magic = f.magic;
  longer =
      omega
        (arith, length-take (packet_bytes p) n (omega (arith, high)), high, length-packet_bytes p);
  total = f.packet.short;
}

-- The two cuts, one for each piece.
cut-pieces :
    (h_link n : ℕ) (ps rs : List Packet) (q : Packet) (events later : List Event)
    → All IsFrame ps
    → All IsFrame (q ∷ rs)
    → 12 ≤ n
    → n < length (packet_bytes q)
    → length (frames ps ++ packet_bytes q) < 2 ^ 31
    → length (frames (q ∷ rs)) < 2 ^ 31
    → let first = take n (packet_bytes q) in
      let second = drop n (packet_bytes q) ++ frames rs in
      (cut h_link (frames ps ++ first) events ≡ done first (events ++ deliveries h_link ps))
      × (cut h_link (first ++ second) later ≡ done [] (later ++ deliveries h_link (q ∷ rs)))
cut-pieces h_link n ps rs q events later f g low high b c =
    let piece = take n (packet_bytes q) in
    let joined : piece ++ (drop n (packet_bytes q) ++ frames rs) ≡ frames (q ∷ rs) ++ [] =
      sym (append_assoc piece (drop n (packet_bytes q)) (frames rs))
      ∙ ap (λ xs. xs ++ frames rs) (take-drop (packet_bytes q) n)
      ∙ sym (append-nil (frames (q ∷ rs))) in
    (
      cut-frames h_link ps piece events f (inr (take-IsStart q n g.0 low high)) (
          omega (
            arith,
            b,
            high,
            length-take (packet_bytes q) n (omega (arith, high)),
            length-append (frames ps) piece,
            length-append (frames ps) (packet_bytes q),
          )),
      ap (λ xs. cut h_link xs later) joined
          ∙ cut-frames h_link (q ∷ rs) [] later g (inl refl)
              (subst (λ xs. length xs < 2 ^ 31) (sym (append-nil (frames (q ∷ rs)))) c),
    )

take-length : (xs : List ℕ) → take (length xs) xs ≡ xs
take-length [] = refl
take-length (x ∷ xs) = ap (λ ys. x ∷ ys) (take-length xs)

do_post_recv_buff-alone :
    (h_link : ℕ) (bytes : List ℕ) (m : StdMap (List ℕ))
    → 0 < length bytes
    → do_post_recv_buff h_link
        (some bytes)
        (length bytes)
        (record { m_recv_buf_old_map = []; m_recv_buf_map = m })
      ≡ record { m_recv_buf_old_map = (h_link, bytes) ∷ []; m_recv_buf_map = m }
unfolding do_post_recv_buff insert find
do_post_recv_buff-alone h_link bytes m some_ =
    let more : length bytes == 0 ≡ false = ground (arith, some_) in
    rw (more, take-length bytes) refl

handle_links-alone :
    (h_link : ℕ) (bytes left : List ℕ) (m : StdMap (List ℕ)) (events later : List Event)
    → cut h_link (extended (find h_link m) bytes) events ≡ done left later
    → handle_links ((h_link, bytes) ∷ []) m events ≡ done (insert h_link left m) later
unfolding handle_links handle_link
handle_links-alone h_link bytes left m events later e =
    done->>= (handle_link h_link bytes m) pure events later (insert h_link left m) (
      done->>= (cut h_link (extended (find h_link m) bytes)) (λ left. pure (insert h_link left m))
        events later left e)

-- Bytes come for one link, and nothing else waits: a round of handle_recv_buff cuts what is left
-- of the link, with the bytes behind it.
handle_recv_buff-post :
    (h_link : ℕ) (bytes left : List ℕ) (m : StdMap (List ℕ)) (events later : List Event)
    → 0 < length bytes
    → cut h_link (extended (find h_link m) bytes) events ≡ done left later
    → handle_recv_buff
        (do_post_recv_buff h_link
          (some bytes)
          (length bytes)
          (record { m_recv_buf_old_map = []; m_recv_buf_map = m }))
        events
      ≡ done (record { m_recv_buf_old_map = []; m_recv_buf_map = insert h_link left m }) later
unfolding handle_recv_buff
handle_recv_buff-post h_link bytes left m events later some_ e =
    ap (λ b. handle_recv_buff b events) (do_post_recv_buff-alone h_link bytes m some_)
    ∙ done->>= (handle_links ((h_link, bytes) ∷ []) m)
        (λ m. pure (record { m_recv_buf_old_map = []; m_recv_buf_map = m })) events later
        (insert h_link left m) (handle_links-alone h_link bytes left m events later e)

-- Bytes come for a link, and handle_recv_buff goes a round.
abbrev pub post_and_handle : ℕ → List ℕ → Buffers → Prog (List Event) Buffers
post_and_handle h_link bytes b =
    handle_recv_buff (do_post_recv_buff h_link (some bytes) (length bytes) b)

-- Let a packet come for a link in two pieces, of which the first has 12 bytes or more, the first
-- behind other packets and the second before others; let the link be new, and nothing else wait.
-- Let do_post_recv_buff get the first piece and handle_recv_buff go its round, and then the same
-- with the second piece. Then all that ends; the calls of the two rounds are those for the packets
-- before it, the packet itself and those behind it, in that order and each once; and nothing of
-- the link is left in its buffer.
pub handle_recv_buff-pieces :
    (h_link n : ℕ) (ps rs : List Packet) (q : Packet) (m : StdMap (List ℕ)) (events : List Event)
    → find h_link m ≡ none
    → All IsFrame ps
    → All IsFrame (q ∷ rs)
    → 12 ≤ n
    → n < length (packet_bytes q)
    → length (frames ps ++ packet_bytes q) < 2 ^ 31
    → length (frames (q ∷ rs)) < 2 ^ 31
    → let first = frames ps ++ take n (packet_bytes q) in
      let second = drop n (packet_bytes q) ++ frames rs in
      let m' = insert h_link (take n (packet_bytes q)) m in
      (post_and_handle h_link first (record { m_recv_buf_old_map = []; m_recv_buf_map = m })
          >>= post_and_handle h_link second)
        events
      ≡ done
          (record { m_recv_buf_old_map = []; m_recv_buf_map = insert h_link [] m' })
          ((events ++ deliveries h_link ps) ++ deliveries h_link (q ∷ rs))
handle_recv_buff-pieces h_link n ps rs q m events new f g low high b c =
    let piece = take n (packet_bytes q) in
    let second = drop n (packet_bytes q) ++ frames rs in
    let m' = insert h_link piece m in
    let later = events ++ deliveries h_link ps in
    let (one, two) = cut-pieces h_link n ps rs q events later f g low high b c in
    done->>=
      (post_and_handle h_link (frames ps ++ piece)
        (record { m_recv_buf_old_map = []; m_recv_buf_map = m }))
      (post_and_handle h_link second) events later
      (record { m_recv_buf_old_map = []; m_recv_buf_map = m' })
      (handle_recv_buff-post h_link (frames ps ++ piece) piece m events later
        (omega (
          arith,
          low,
          length-append (frames ps) piece,
          length-take (packet_bytes q) n (omega (arith, high)),
        ))
        (ap (λ o. cut h_link (extended o (frames ps ++ piece)) events) new ∙ one))
    ∙ handle_recv_buff-post h_link second [] m' later (later ++ deliveries h_link (q ∷ rs))
        (omega (
          arith,
          high,
          length-append (drop n (packet_bytes q)) (frames rs),
          length-append piece (drop n (packet_bytes q)),
          length-take (packet_bytes q) n (omega (arith, high)),
          ap (length {A = ℕ}) (take-drop (packet_bytes q) n),
        ))
        (ap (λ o. cut h_link (extended o second) later) kept ∙ two)
  where
    kept : find h_link (insert h_link (take n (packet_bytes q)) m) ≡ some (take n (packet_bytes q))
    kept = ground (arith, find-insert h_link h_link (take n (packet_bytes q)) m)
