-- ===== src/Stream/Tests.antt =====
-- The buffer of a link with concrete bytes.
use tcp_epoll.Prelude.{
  ℕ, ◌≡◌, ◌≤◌, ◌<◌, ◌⊎◌, ◌^◌, refl, inl, List, [], ◌∷◌, ◌++◌, length, take, drop, arith,
}
use tcp_epoll.Exec.{done, crash, ◌>>=◌}
use tcp_epoll.StdMap.{insert, find}
use tcp_epoll.Wire.{le_bytes}
use tcp_epoll.Packet.{Packet}
use tcp_epoll.Packet.RoundTrip.{packet_bytes}
use tcp_epoll.Packet.Tests.{request, request-IsPacket}
use tcp_epoll.Stream.{Event, cut}
use tcp_epoll.Stream.Frames.{IsFrame, frames}
use tcp_epoll.Stream.Order.{deliveries, cut-frames}
use tcp_epoll.Stream.Pieces.{post_and_handle, handle_recv_buff-pieces}
use tcp_epoll.Stream.Overread.{cut-overread}
use tcp_epoll.Stream.Ends.{cut-ends}

request-IsFrame : IsFrame request
request-IsFrame = record { packet = request-IsPacket; magic = refl }

abbrev twice : List Packet
twice = request ∷ request ∷ []

abbrev piece : ℕ → List ℕ
piece n = take n (packet_bytes request)

frames-short :
    (length (frames twice ++ []) < 2 ^ 31)
    × (length (frames (request ∷ []) ++ packet_bytes request) < 2 ^ 31)
    × (length (frames twice) < 2 ^ 31)
    × (length (frames (request ∷ []) ++ piece 3) < 2 ^ 31)
    × (12 ≤ 15)
    × (15 < length (packet_bytes request))
unfolding le_bytes
frames-short = (omega arith, omega arith, omega arith, omega arith, omega arith, omega arith)

cut-frames_example : cut 5 (frames twice ++ []) [] ≡ done [] ([] ++ deliveries 5 twice)
cut-frames_example =
    cut-frames 5 twice [] [] (request-IsFrame, (request-IsFrame, tt)) (inl refl) frames-short.0

handle_recv_buff-pieces_example :
    (post_and_handle 5
          (frames (request ∷ []) ++ piece 15)
          (record { m_recv_buf_old_map = []; m_recv_buf_map = [] })
        >>= post_and_handle 5 (drop 15 (packet_bytes request) ++ frames (request ∷ [])))
      []
    ≡ done
        (record { m_recv_buf_old_map = []; m_recv_buf_map = insert 5 [] (insert 5 (piece 15) []) })
        (([] ++ deliveries 5 (request ∷ [])) ++ deliveries 5 twice)
unfolding find
handle_recv_buff-pieces_example =
    handle_recv_buff-pieces 5 15 (request ∷ []) (request ∷ []) request [] [] refl
      (request-IsFrame, tt) (request-IsFrame, (request-IsFrame, tt)) frames-short.4 frames-short.5
      frames-short.1 frames-short.2

cut-overread_example : cut 5 (frames (request ∷ []) ++ piece 3) [] ≡ crash
cut-overread_example =
    cut-overread 5 3 (request ∷ []) request [] (request-IsFrame, tt) request-IsFrame (omega arith)
      (omega arith) frames-short.3

-- Bytes that are no packet.
abbrev noise : List ℕ
noise = 1 ∷ 2 ∷ 3 ∷ 4 ∷ 5 ∷ []

cut-ends_example :
    (cut 5 noise [] ≡ crash)
    ⊎ ((k : ℕ) × (later : List Event) × (k ≤ 5) × (cut 5 noise [] ≡ done (drop k noise) later))
cut-ends_example = cut-ends 5 noise [] (omega arith)
