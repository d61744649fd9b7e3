-- ===== src/Server/Tests.antt =====
-- The sample server at concrete events.
use tcp_epoll.Prelude.{ℕ, ◌+◌, true, length, ◌≡◌, refl, some, List, [], ◌∷◌, ◌++◌, arith}
use tcp_epoll.StdMap.{find, insert, erase}
use tcp_epoll.Tcp.Monad.{Ensures}
use tcp_epoll.Tcp.State.{accepted_param, no_param, evt_tcp_accepted, evt_tcp_closed}
use tcp_epoll.Tcp.Events.{on_event_read}
use tcp_epoll.Tcp.Delivery.{Told, told}
use tcp_epoll.Tcp.Tests.{with_peer, two_bytes, two_bytes-Reads}
use tcp_epoll.Server.{
  LinkMgr, new_hdr, tell_all, tcp_io_callback_func, link_create, link_remove, on_tcp_closed,
}
use tcp_epoll.Server.Silent.{on_event_read-Silent}
use tcp_epoll.Wire.{le_bytes}
use tcp_epoll.Exec.{done}
use tcp_epoll.Packet.{Packet, parse_data, packet}
use tcp_epoll.Packet.Tests.{request, request-IsPacket}
use tcp_epoll.Server.Handler.{Handlers, File, recv_data}
use tcp_epoll.Server.Answer.{recv_data-answered}

abbrev server : LinkMgr
server = record {
  m_link_map = (1, new_hdr 1) ∷ [];
  mh_tcp_link = 9;
  buffers = record { m_recv_buf_old_map = []; m_recv_buf_map = [] };
}

-- A link is accepted, and an older one is closed.
abbrev some_news : List Told
some_news =
    record { event = record { ui_event = evt_tcp_accepted; h_link = 9 }; param = accepted_param 2 }
    ∷ record { event = record { ui_event = evt_tcp_closed; h_link = 1 }; param = no_param }
    ∷ []

tell_all-links :
    tell_all some_news server ≡ some (record server { m_link_map = (2, new_hdr 2) ∷ [] })
unfolding tell_all tcp_io_callback_func link_create link_remove on_tcp_closed find insert erase
tell_all-links = refl

on_event_read-Silent_example : Ensures (on_event_read 2 0 (with_peer two_bytes)) (λ ok w'.
    (news : List Told) × (s' : LinkMgr) × (told w'.trace ≡ told (with_peer two_bytes).trace ++ news)
    × (tell_all news server ≡ some s')
    × (s'.buffers ≡ server.buffers))
on_event_read-Silent_example =
    on_event_read-Silent 0 ((104 ∷ 105 ∷ []) ∷ []) 2 7 (with_peer two_bytes) server refl
      (omega arith) two_bytes-Reads

abbrev temp_txt : File
temp_txt = record { opens = true; fwrite = λ c. 1 }

abbrev idle : Handlers
idle = record { i = 0; sent = [] }

recv_data-answered_example :
    (answer : Packet) × (s' : Handlers) × (bytes : List ℕ) × (recv_data temp_txt 7 3 request idle
      ≡ done true s')
    × (s'.sent ≡ idle.sent ++ record { h_link = 3; buffer = bytes } ∷ [])
    × (parse_data bytes ≡ packet answer (length bytes))
    × (answer.header.msg_type ≡ request.header.msg_type + 0x8000)
    × (answer.header.seq_id ≡ request.header.seq_id)
unfolding le_bytes
recv_data-answered_example =
    recv_data-answered temp_txt 7 3 request idle request-IsPacket (omega arith) (λ c. omega arith)
      (omega arith)
