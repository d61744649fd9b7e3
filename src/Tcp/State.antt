-- ===== src/Tcp/State.antt =====
-- The data of the TCP library: include/ms-epoll-tcp.h, include/tcp-link.h, include/ms-epoll.h.
-- A link object is shared through counted pointers, so the state has a store of objects.
use tcp_epoll.Prelude.{ℕ, Bool, true, false, Option, none, List, ◌==◌, if◌then◌else◌}
use tcp_epoll.Prelude.Int.{ℤ, minus_one}
use tcp_epoll.StdMap.{StdMap}
use tcp_epoll.Kernel.{SockAddr, Syscall, Reply, zero_addr}

abbrev pub invalid_htcplink : ℕ
invalid_htcplink = 0xffff_ffff

-- The events that a callback is told of.
abbrev pub evt_tcp_created : ℕ
evt_tcp_created = 1

abbrev pub evt_tcp_closed : ℕ
evt_tcp_closed = 2

abbrev pub evt_tcp_accepted : ℕ
evt_tcp_accepted = 3

abbrev pub evt_tcp_connected : ℕ
evt_tcp_connected = 4

abbrev pub evt_tcp_disconnected : ℕ
evt_tcp_disconnected = 5

abbrev pub evt_tcp_receivedata : ℕ
evt_tcp_receivedata = 6

abbrev pub evt_tcp_keepalive : ℕ
evt_tcp_keepalive = 7

abbrev pub evt_tcp_errprotocol : ℕ
evt_tcp_errprotocol = 16

abbrev pub status_recv_begin : ℕ
status_recv_begin = 1

abbrev pub status_recv_middle : ℕ
status_recv_middle = 2

abbrev pub status_recv_end : ℕ
status_recv_end = 3

abbrev pub link_addr_local : ℕ
link_addr_local = 1

abbrev pub link_addr_remote : ℕ
link_addr_remote = 2

-- TcpEvent_S
pub record TcpEvent : Type 0 where
  pub ui_event : ℕ
  pub h_link : ℕ

-- The callback's second argument: 0, TcpAcceptedParam_S, or TcpRecvDataParam_S, whose buffer
-- may be NULL.
pub data TcpParam : Type 0 where
  no_param : TcpParam
  accepted_param : ℕ → TcpParam
  recv_param : Option (List ℕ) → ℕ → ℕ → TcpParam

pub data LinkType : Type 0 where
  link_type_null : LinkType
  link_type_listen : LinkType
  link_type_connect : LinkType
  link_type_accept : LinkType
  link_type_connected : LinkType

pub record MsTcpLink : Type 0 where
  pub mi_socket : ℤ
  pub mh_link : ℕ
  pub mp_tcpcallback : Option ℕ
  pub m_local_address : SockAddr
  pub m_remote_address : SockAddr
  pub m_link_type : LinkType
  pub mt_last_alive_time : ℕ
  pub mb_need_check_alive : Bool
  pub mb_write_flag : Bool

pub record ErrInfo : Type 0 where
  pub i_error_no : ℕ
  pub ui_time : ℕ

pub record MsEpoll : Type 0 where
  pub mi_epoll_fd : ℤ
  pub mb_exit_thread : Bool
  pub m_pthread_id : ℕ
  pub m_pthread_timeout : ℕ
  pub mb_timeout_thread_flag : Bool

-- The constructor MsEpoll().
abbrev pub new_epoll : MsEpoll
new_epoll = record {
  mi_epoll_fd = minus_one;
  mb_exit_thread = false;
  m_pthread_id = 0;
  m_pthread_timeout = 0;
  mb_timeout_thread_flag = false;
}

-- The constructor MsTcpLink(), at a time. `mh_link = -1` is an unsigned number.
abbrev pub new_link : ℕ → MsTcpLink
new_link now = record {
  mi_socket = minus_one;
  mh_link = invalid_htcplink;
  mp_tcpcallback = none;
  m_local_address = zero_addr;
  m_remote_address = zero_addr;
  m_link_type = link_type_null;
  mt_last_alive_time = now;
  mb_need_check_alive = false;
  mb_write_flag = true;
}

-- What the library does to the outside: a call of the kernel, or of a user's callback.
pub data Effect : Type 0 where
  sys : Syscall → Effect
  callback : ℕ → TcpEvent → TcpParam → Effect

-- The static members of MsTcpLink, the globals, the store of link objects, and the kernel.
pub record World : Type 0 where
  pub m_maplink : StdMap ℕ
  pub m_link_socket_map : StdMap ℤ
  pub m_link_errinfo : StdMap ErrInfo
  -- `static int i_link` of add_tcp_link
  pub i_link : ℕ
  pub g_ms_tcp_first_create_link : ℕ
  pub g_tcp_log_callback : ℕ
  -- CSingletonMsEpollHandler::m_pInstance
  pub m_p_instance : Option MsEpoll
  -- `static unsigned int ui_keep_alive_times` of worker_thread
  pub ui_keep_alive_times : ℕ
  -- The objects, by address, and the first address that is not in use.
  pub heap : ℕ → MsTcpLink
  pub next : ℕ
  -- The replies to come, by number, the number of calls made, and all effects, newest first.
  pub replies : ℕ → Reply
  pub clock : ℕ
  pub trace : List Effect

abbrev pub update {ℓ} : {A : Type ℓ} → (ℕ → A) → ℕ → A → ℕ → A
update f p v q = if p == q then v else f q
