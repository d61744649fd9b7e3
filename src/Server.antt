-- ===== src/Server.antt =====
-- The callbacks of the sample server: TcpNetHandler::TcpIOCallbackFunc of
-- samples/samples-server/include/net-handler.h, and the LinkMgr of link-mgr.h beside it that it
-- calls, with its map of links. A LinkMgr exists throughout.
pub mod Silent
pub mod Handler
pub mod Response
pub mod Answer
mod Tests
use tcp_epoll.Prelude.{
  ℕ, List, [], ◌∷◌, Option, none, some, Bool, true, false, not, ◌&&◌, ◌==◌, is_some, if◌then◌else◌,
}
use tcp_epoll.StdMap.{StdMap, find, insert, erase}
use tcp_epoll.Tcp.State.{
  TcpEvent, TcpParam, no_param, accepted_param, recv_param, evt_tcp_created, evt_tcp_closed,
  evt_tcp_accepted, evt_tcp_connected, evt_tcp_disconnected, evt_tcp_receivedata,
  evt_tcp_errprotocol, status_recv_end,
}
use tcp_epoll.Tcp.Delivery.{Told}
use tcp_epoll.Stream.{Buffers, do_post_recv_buff}

-- A HANDLE, which derives from LinkHdr of link-hdr.h.
pub record LinkHdr : Type 0 where
  pub mh_remote_tcplink : ℕ
  pub mb_can_broadcast : Bool

-- `new HANDLE()` and set_link.
abbrev pub new_hdr : ℕ → LinkHdr
new_hdr h_link = record { mh_remote_tcplink = h_link; mb_can_broadcast = false }

pub record LinkMgr : Type 0 where
  pub m_link_map : StdMap LinkHdr
  pub mh_tcp_link : ℕ
  pub buffers : Buffers

-- A link that is there already is left as it is.
unfoldable pub link_create : ℕ → LinkMgr → LinkMgr
link_create h_link s =
    if is_some (find h_link s.m_link_map)
    then s
    else record s { m_link_map = insert h_link (new_hdr h_link) s.m_link_map }

-- A link that is not there is none to erase.
unfoldable pub link_remove : ℕ → LinkMgr → LinkMgr
link_remove h_link s = record s { m_link_map = erase h_link s.m_link_map }

-- on_tcp_closed and on_tcp_disconnected
unfoldable pub on_tcp_closed : ℕ → LinkMgr → LinkMgr
on_tcp_closed h_link s = if h_link == s.mh_tcp_link then s else link_remove h_link s

-- The argument of the callback as TcpAcceptedParam_S and as TcpRecvDataParam_S; none where that
-- reads through NULL or as another structure.
abbrev pub on_tcp_accepted : TcpParam → LinkMgr → Option LinkMgr
on_tcp_accepted no_param s = none
on_tcp_accepted (accepted_param h_accept_link) s = some (link_create h_accept_link s)
on_tcp_accepted (recv_param data_ size status) s = none

abbrev pub on_tcp_recv_data : ℕ → TcpParam → LinkMgr → Option LinkMgr
on_tcp_recv_data h_link no_param s = none
on_tcp_recv_data h_link (accepted_param h) s = none
on_tcp_recv_data h_link (recv_param p_recv_data ui_size ui_status) s =
    if ui_status == status_recv_end
    then some (record s { buffers = do_post_recv_buff h_link p_recv_data ui_size s.buffers })
    else some s

unfoldable pub tcp_io_callback_func : TcpEvent → TcpParam → LinkMgr → Option LinkMgr
tcp_io_callback_func p_evt p_param s =
    if p_evt.ui_event == evt_tcp_closed
    then some (on_tcp_closed p_evt.h_link s)
    else if p_evt.ui_event == evt_tcp_accepted
    then on_tcp_accepted p_param s
    else if p_evt.ui_event == evt_tcp_disconnected
    then some (on_tcp_closed p_evt.h_link s)
    else if p_evt.ui_event == evt_tcp_receivedata
    then on_tcp_recv_data p_evt.h_link p_param s
    else some s

-- The calls that the library makes, one after the other.
unfoldable pub tell_all : List Told → LinkMgr → Option LinkMgr
tell_all [] s = some s
tell_all (t ∷ ts) s = elim (tcp_io_callback_func t.event t.param s) [
  | none ↦ none
  | some s' ↦ tell_all ts s'
]

-- The links that broad_cast and broad_cast_except send to.
unfoldable pub link_vec : StdMap LinkHdr → List ℕ
link_vec [] = []
link_vec ((h, p) ∷ m) = let rest = link_vec m in if p.mb_can_broadcast then h ∷ rest else rest

unfoldable pub link_vec_except : ℕ → StdMap LinkHdr → List ℕ
link_vec_except h_link [] = []
link_vec_except h_link ((h, p) ∷ m) =
    let rest = link_vec_except h_link m in
    if p.mb_can_broadcast && not (h == h_link) then h ∷ rest else rest
