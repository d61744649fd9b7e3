-- ===== src/Client/Tests.antt =====
-- The sample client at concrete packets.
use tcp_epoll.Prelude.{ℕ, ◌≡◌, refl, inl, List, [], ◌∷◌, take, drop, arith}
use tcp_epoll.Exec.{done, ◌>>◌}
use tcp_epoll.Wire.{le_bytes, ms_endian32, ms_endian64}
use tcp_epoll.Packet.RoundTrip.{packet_bytes}
use tcp_epoll.Packet.Tests.{response, response-IsPacket}
use tcp_epoll.Stream.Frames.{IsFrame}
use tcp_epoll.Client.{TestClient, handle_recv_data}
use tcp_epoll.Client.Receives.{post_all, handle_recv_data-seen}

-- Before any response.
abbrev client : TestClient
client = record {
  mh_tcp_link = 4;
  mui_client_id = 0;
  i_count = 0;
  mv_recv_buf_old = [];
  mv_recv_buf = [];
}

-- The response to a log-in comes in two pieces.
abbrev pieces : List (List ℕ)
pieces = take 15 (packet_bytes response) ∷ drop 15 (packet_bytes response) ∷ []

response-IsFrame : IsFrame response
response-IsFrame = record { packet = response-IsPacket; magic = refl }

handle_recv_data-seen_example :
    (post_all 4 pieces >> handle_recv_data) client ≡ done tt (record client { mui_client_id = 1 })
unfolding le_bytes ms_endian32 ms_endian64
handle_recv_data-seen_example =
    handle_recv_data-seen pieces response [] [] client (response-IsFrame, tt) (inl refl) refl
      (omega arith) (omega arith) (omega arith)
