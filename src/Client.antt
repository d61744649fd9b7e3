-- ===== src/Client.antt =====
-- What the sample client receives: Test_Client of samples/samples-client/test-client.cpp, from the
-- callback with data to the handlers of the two responses. Its loop over the bytes is that of
-- handle_recv_buff in samples-server/include/link-mgr.h, for one link.
pub mod Receives
pub mod Silent
mod Tests
use tcp_epoll.Prelude.{
  ℕ, ◌+◌, ◌-◌, ◌^◌, List, [], ◌∷◌, ◌++◌, length, take, Option, none, some, Bool, true, false, ltb,
  ◌==◌, if◌then◌else◌,
}
use tcp_epoll.Exec.{Outcome, done, crash, spin, exhausted, Prog, pure, modify, ◌>>=◌, ◌>>◌}
use tcp_epoll.Tcp.State.{
  TcpEvent, TcpParam, no_param, accepted_param, recv_param, invalid_htcplink, evt_tcp_closed,
  evt_tcp_accepted, evt_tcp_receivedata, status_recv_end,
}
use tcp_epoll.Tcp.Delivery.{Told}
use tcp_epoll.Packet.{
  Packet, Body, ver_req, comm_resp, auth_req, auth_resp, ver_nego_resp, link_auth_resp, header_size,
}
use tcp_epoll.Stream.{Event, recv_data, recv_unknown_packet, cut}

-- `i_count` is the static counter of on_ver_nego_ack.
pub record TestClient : Type 0 where
  pub mh_tcp_link : ℕ
  pub mui_client_id : ℕ
  pub i_count : ℕ
  pub mv_recv_buf_old : List ℕ
  pub mv_recv_buf : List ℕ

-- The copy of the data behind what has come before; a NULL with a size is read through.
abbrev pub post_data : Option (List ℕ) → ℕ → Prog TestClient (Unit {0})
post_data none ui_size s = if ui_size == 0 then done tt s else crash
post_data (some p_data) ui_size s =
    done tt (record s { mv_recv_buf_old = s.mv_recv_buf_old ++ take ui_size p_data })

unfoldable pub do_post_recv_buff : ℕ → Option (List ℕ) → ℕ → Prog TestClient (Unit {0})
do_post_recv_buff h_link p_data ui_size s =
    if h_link == s.mh_tcp_link then post_data p_data ui_size s else done tt s

-- An error in the response is logged; the counter overflows behind INT_MAX.
unfoldable pub on_ver_nego_ack : Prog TestClient (Unit {0})
on_ver_nego_ack s =
    if s.i_count == 2 ^ 31 - 1 then crash else done tt (record s { i_count = s.i_count + 1 })

-- A cast to another structure than the packet is one is a crash.
abbrev pub on_link_auth_ack : Body → Prog TestClient (Unit {0})
on_link_auth_ack (ver_req b) = λ s. crash
on_link_auth_ack comm_resp = λ s. crash
on_link_auth_ack (auth_req b) = λ s. crash
on_link_auth_ack (auth_resp b) = modify (λ s. record s { mui_client_id = b.ui_client_id })

-- The switch on the type of a message.
abbrev pub on_message : Packet → Prog TestClient (Unit {0})
on_message p_pkt =
    if p_pkt.header.msg_type == ver_nego_resp
    then on_ver_nego_ack
    else if p_pkt.header.msg_type == link_auth_resp
    then on_link_auth_ack p_pkt.body
    else pure tt

unfoldable pub on_tcp_recv_data : ℕ → Packet → Prog TestClient (Unit {0})
on_tcp_recv_data h_link p_pkt s = if h_link == s.mh_tcp_link then on_message p_pkt s else done tt s

-- A closed link is forgotten.
unfoldable pub on_tcp_closed : ℕ → TestClient → TestClient
on_tcp_closed h_link s =
    if s.mh_tcp_link == h_link then record s { mh_tcp_link = invalid_htcplink } else s

-- on_tcp_recv_unknown_packet only logs.
unfoldable pub handle_events : List Event → Prog TestClient (Unit {0})
handle_events [] = pure tt
handle_events (recv_data h_link p_pkt ∷ events) =
    on_tcp_recv_data h_link p_pkt >> handle_events events
handle_events (recv_unknown_packet h_link p_data ∷ events) = handle_events events

-- The loop over the bytes, and the calls that it makes: they read and write nothing of the buffers.
abbrev pub parsed : Outcome (List Event) (List ℕ) → Prog TestClient (Unit {0})
parsed (done left events) s = handle_events events (record s { mv_recv_buf = left })
parsed crash s = crash
parsed spin s = spin
parsed exhausted s = exhausted

-- What has come goes behind what is left from before.
abbrev pub parse_buffer : List ℕ → Prog TestClient (Unit {0})
parse_buffer mv_recv_buf s =
    let s' = record s { mv_recv_buf_old = []; mv_recv_buf = mv_recv_buf } in
    if ltb (length mv_recv_buf) header_size
    then done tt s'
    else parsed (cut s.mh_tcp_link mv_recv_buf []) s'

-- A round of handle_recv_data, after the semaphore.
unfoldable pub handle_recv_data : Prog TestClient (Unit {0})
handle_recv_data s =
    if length s.mv_recv_buf_old == 0
    then done tt s
    else parse_buffer (s.mv_recv_buf ++ s.mv_recv_buf_old) s

-- The argument of the callback as TcpAcceptedParam_S, of which nothing is kept, and as
-- TcpRecvDataParam_S; a crash where that reads through NULL or as another structure.
abbrev pub on_accepted : TcpParam → Prog TestClient (Unit {0})
on_accepted no_param s = crash
on_accepted (accepted_param h_accept_link) s = done tt s
on_accepted (recv_param data_ size status) s = crash

abbrev pub on_received : ℕ → TcpParam → Prog TestClient (Unit {0})
on_received h_link no_param s = crash
on_received h_link (accepted_param h) s = crash
on_received h_link (recv_param p_recv_data ui_size ui_status) s =
    if ui_status == status_recv_end
    then do_post_recv_buff h_link p_recv_data ui_size s
    else done tt s

-- The client's copy of TcpIOCallbackFunc. The addresses that on_tcp_connected stores are no part
-- of the state here; on_tcp_created only logs, on_tcp_disconnected does nothing.
unfoldable pub tcp_io_callback_func : TcpEvent → TcpParam → Prog TestClient (Unit {0})
tcp_io_callback_func p_evt p_param s =
    if p_evt.ui_event == evt_tcp_closed
    then done tt (on_tcp_closed p_evt.h_link s)
    else if p_evt.ui_event == evt_tcp_accepted
    then on_accepted p_param s
    else if p_evt.ui_event == evt_tcp_receivedata
    then on_received p_evt.h_link p_param s
    else done tt s

-- The calls that the library makes, one after the other.
unfoldable pub tell_all : List Told → Prog TestClient (Unit {0})
tell_all [] = pure tt
tell_all (t ∷ ts) = tcp_io_callback_func t.event t.param >> tell_all ts
