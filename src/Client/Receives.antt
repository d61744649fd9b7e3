-- ===== src/Client/Receives.antt =====
-- The client of samples/samples-client/test-client.cpp on a number of packets.
use mathlib.Core.List.{append_assoc, append-nil}
use tcp_epoll.Prelude.{
  ℕ, ◌+◌, ◌-◌, ◌^◌, ◌≤◌, ◌<◌, ◌≡◌, ◌⊎◌, refl, sym, ap, ◌∙◌, List, [], ◌∷◌, ◌++◌, length,
  length-append, take, some, true, false, ltb, ◌==◌, All, arith, if◌then◌else◌,
}
use tcp_epoll.Exec.{done, done->>=, crash, Prog, pure, ◌>>◌}
use tcp_epoll.Packet.{
  Packet, Body, ver_req, comm_resp, auth_req, auth_resp, ver_nego_resp, link_auth_resp, header_size,
}
use tcp_epoll.Packet.Reads.{type_of}
use tcp_epoll.Packet.RoundTrip.{packet_bytes, sized, length-packet_bytes}
use tcp_epoll.Stream.{cut}
use tcp_epoll.Stream.Frames.{IsFrame, IsStart, frames}
use tcp_epoll.Stream.Order.{deliveries, cut-frames}
use tcp_epoll.Client.{
  TestClient, do_post_recv_buff, on_ver_nego_ack, on_message, on_link_auth_ack, on_tcp_recv_data,
  handle_events, parsed, parse_buffer, handle_recv_data,
}

-- The bytes come in pieces.
abbrev pub joined : List (List ℕ) → List ℕ
joined [] = []
joined (piece ∷ pieces) = piece ++ joined pieces

unfoldable pub post_all : ℕ → List (List ℕ) → Prog TestClient (Unit {0})
post_all h_link [] = pure tt
post_all h_link (piece ∷ pieces) =
    do_post_recv_buff h_link (some piece) (length piece) >> post_all h_link pieces

-- What a packet changes, and what packets change, one after the other.
abbrev pub seen : Body → TestClient → TestClient
seen (ver_req b) s = s
seen comm_resp s = record s { i_count = s.i_count + 1 }
seen (auth_req b) s = s
seen (auth_resp b) s = record s { mui_client_id = b.ui_client_id }

abbrev pub seen_all : List Packet → TestClient → TestClient
seen_all [] s = s
seen_all (p ∷ ps) s = seen_all ps (seen p.body s)

take-length : (xs : List ℕ) → take (length xs) xs ≡ xs
take-length [] = refl
take-length (x ∷ xs) = ap (λ ys. x ∷ ys) (take-length xs)

post_all-done :
    (pieces : List (List ℕ)) (s : TestClient)
    → post_all s.mh_tcp_link pieces s
      ≡ done tt (record s { mv_recv_buf_old = s.mv_recv_buf_old ++ joined pieces })
unfolding post_all do_post_recv_buff
post_all-done [] s =
    ap (λ xs. done tt (record s { mv_recv_buf_old = xs })) (sym (append-nil s.mv_recv_buf_old))
post_all-done (piece ∷ pieces) s =
    let next = record s { mv_recv_buf_old = s.mv_recv_buf_old ++ piece } in
    done->>= (do_post_recv_buff s.mh_tcp_link (some piece) (length piece))
      (λ _. post_all s.mh_tcp_link pieces) s next tt post
    ∙ post_all-done pieces next
    ∙ ap (λ xs. done tt (record s { mv_recv_buf_old = xs }))
        (append_assoc s.mv_recv_buf_old piece (joined pieces))
  where
    ours : s.mh_tcp_link == s.mh_tcp_link ≡ true
    ours = ground arith

    post :
        do_post_recv_buff s.mh_tcp_link (some piece) (length piece) s
        ≡ done tt (record s { mv_recv_buf_old = s.mv_recv_buf_old ++ piece })
    post =
        ap
          (λ c.
            if c
            then done tt
                (record s { mv_recv_buf_old = s.mv_recv_buf_old ++ take (length piece) piece })
            else done tt s)
          ours
        ∙ ap (λ xs. done tt (record s { mv_recv_buf_old = s.mv_recv_buf_old ++ xs }))
            (take-length piece)

-- on_message, by the type of the message.
abbrev typed : Packet → ℕ → Prog TestClient (Unit {0})
typed p k =
    if k == ver_nego_resp
    then on_ver_nego_ack
    else if k == link_auth_resp
    then on_link_auth_ack p.body
    else pure tt

on_ver_nego_ack-done :
    (s : TestClient)
    → s.i_count < 2 ^ 31 - 1
    → on_ver_nego_ack s ≡ done tt (record s { i_count = s.i_count + 1 })
unfolding on_ver_nego_ack
on_ver_nego_ack-done s c =
    ap (λ b. if b then crash else done tt (record s { i_count = s.i_count + 1 })) below
  where
    below : s.i_count == 2 ^ 31 - 1 ≡ false
    below = ground (arith, c)

on_message-seen :
    (b : Body) (p : Packet) (s : TestClient)
    → p.body ≡ b
    → p.header.msg_type ≡ type_of b
    → s.i_count < 2 ^ 31 - 1
    → on_message p s ≡ done tt (seen b s)
on_message-seen (ver_req b) p s e t c = ap (λ k. typed p k s) t
on_message-seen comm_resp p s e t c = ap (λ k. typed p k s) t ∙ on_ver_nego_ack-done s c
on_message-seen (auth_req b) p s e t c = ap (λ k. typed p k s) t
on_message-seen (auth_resp b) p s e t c = ap (λ k. typed p k s) t ∙ ap (λ x. on_link_auth_ack x s) e

on_tcp_recv_data-seen :
    (p : Packet) (s : TestClient)
    → p.header.msg_type ≡ type_of p.body
    → s.i_count < 2 ^ 31 - 1
    → on_tcp_recv_data s.mh_tcp_link p s ≡ done tt (seen p.body s)
unfolding on_tcp_recv_data
on_tcp_recv_data-seen p s t c =
    ap (λ b. if b then on_message p s else done tt s) ours ∙ on_message-seen p.body p s refl t c
  where
    ours : s.mh_tcp_link == s.mh_tcp_link ≡ true
    ours = ground arith

seen-link : (b : Body) (s : TestClient) → (seen b s).mh_tcp_link ≡ s.mh_tcp_link
seen-link (ver_req b) s = refl
seen-link comm_resp s = refl
seen-link (auth_req b) s = refl
seen-link (auth_resp b) s = refl

seen-count : (b : Body) (s : TestClient) → (seen b s).i_count ≤ s.i_count + 1
seen-count (ver_req b) s = omega arith
seen-count comm_resp s = omega arith
seen-count (auth_req b) s = omega arith
seen-count (auth_resp b) s = omega arith

handle_events-seen :
    (h_link : ℕ) (ps : List Packet) (s : TestClient)
    → s.mh_tcp_link ≡ h_link
    → All IsFrame ps
    → s.i_count + length ps < 2 ^ 31
    → handle_events (deliveries h_link ps) s ≡ done tt (seen_all ps s)
unfolding handle_events
handle_events-seen h_link [] s l f c = refl
handle_events-seen h_link (p ∷ ps) s l f c =
    ap (λ h. (on_tcp_recv_data h (sized p) >> handle_events (deliveries h_link ps)) s) (sym l)
    ∙ done->>= (on_tcp_recv_data s.mh_tcp_link (sized p))
        (λ _. handle_events (deliveries h_link ps)) s (seen p.body s) tt
        (on_tcp_recv_data-seen (sized p) s f.0.packet.type (omega (arith, c)))
    ∙ handle_events-seen h_link ps (seen p.body s) (seen-link p.body s ∙ l) f.1
        (omega (arith, c, seen-count p.body s))

parse_buffer-frames :
    (p : Packet) (ps : List Packet) (rest : List ℕ) (s : TestClient)
    → All IsFrame (p ∷ ps)
    → (rest ≡ []) ⊎ IsStart rest
    → length (frames (p ∷ ps) ++ rest) < 2 ^ 31
    → s.i_count + length (p ∷ ps) < 2 ^ 31
    → parse_buffer (frames (p ∷ ps) ++ rest) s
      ≡ done tt (seen_all (p ∷ ps) (record s { mv_recv_buf_old = []; mv_recv_buf = rest }))
parse_buffer-frames p ps rest s f r b c =
    let buf = frames (p ∷ ps) ++ rest in
    let s' = record s { mv_recv_buf_old = []; mv_recv_buf = buf } in
    ap (λ t. if t then done tt s' else parsed (cut s.mh_tcp_link buf []) s') enough
    ∙ ap (λ o. parsed o s') (cut-frames s.mh_tcp_link (p ∷ ps) rest [] f r b)
    ∙ handle_events-seen s.mh_tcp_link (p ∷ ps)
        (record s { mv_recv_buf_old = []; mv_recv_buf = rest }) refl f c
  where
    enough : ltb (length (frames (p ∷ ps) ++ rest)) header_size ≡ false
    enough = ground (
      arith,
      length-append (packet_bytes p ++ frames ps) rest,
      length-append (packet_bytes p) (frames ps),
      length-packet_bytes p,
    )

-- A client handles the packets that come over its link, however they are cut into pieces. Let what
-- is left in its buffer from before and the pieces be together the bytes of one packet or more, and
-- behind them nothing or the start of another one; let a byte at least be new, and let the counter
-- of responses be far enough from INT_MAX. Then a round of handle_recv_data behind the pieces ends
-- and handles these packets in their order: a response to a log-in sets the id of the client, a
-- response to a version is counted, requests change nothing. The start of the other packet stays in
-- the buffer.
pub handle_recv_data-seen :
    (pieces : List (List ℕ)) (p : Packet) (ps : List Packet) (rest : List ℕ) (s : TestClient)
    → All IsFrame (p ∷ ps)
    → (rest ≡ []) ⊎ IsStart rest
    → s.mv_recv_buf ++ (s.mv_recv_buf_old ++ joined pieces) ≡ frames (p ∷ ps) ++ rest
    → 0 < length (s.mv_recv_buf_old ++ joined pieces)
    → length (frames (p ∷ ps) ++ rest) < 2 ^ 31
    → s.i_count + length (p ∷ ps) < 2 ^ 31
    → (post_all s.mh_tcp_link pieces >> handle_recv_data) s
      ≡ done tt (seen_all (p ∷ ps) (record s { mv_recv_buf_old = []; mv_recv_buf = rest }))
unfolding handle_recv_data
handle_recv_data-seen pieces p ps rest s f r e new b c =
    let old = s.mv_recv_buf_old ++ joined pieces in
    let s' = record s { mv_recv_buf_old = old } in
    done->>= (post_all s.mh_tcp_link pieces) (λ _. handle_recv_data) s s' tt
      (post_all-done pieces s)
    ∙ ap (λ t. if t then done tt s' else parse_buffer (s.mv_recv_buf ++ old) s') some_new
    ∙ ap (λ buf. parse_buffer buf s') e
    ∙ parse_buffer-frames p ps rest s' f r b c
  where
    some_new : length (s.mv_recv_buf_old ++ joined pieces) == 0 ≡ false
    some_new = ground (arith, new)
