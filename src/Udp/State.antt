-- ===== src/Udp/State.antt =====
-- The data of the UDP library: include/ms-epoll-udp.h, include/udp-link.h, include/udp-ms-epoll.h.
use tcp_epoll.Prelude.{ℕ, Bool, Option, none, List, []}
use tcp_epoll.Prelude.Int.{ℤ, minus_one}
use tcp_epoll.StdMap.{StdMap}
use tcp_epoll.Kernel.{SockAddr, Syscall, Reply, zero_addr}

abbrev pub invalid_hudplink : ℕ
invalid_hudplink = 0xffff_ffff

abbrev pub udp_flag_broadcast : ℕ
udp_flag_broadcast = 2

abbrev pub evt_udp_created : ℕ
evt_udp_created = 1

abbrev pub evt_udp_closed : ℕ
evt_udp_closed = 2

abbrev pub evt_udp_receivedata : ℕ
evt_udp_receivedata = 3

-- UdpEvent_S
pub record UdpEvent : Type 0 where
  pub ui_event : ℕ
  pub h_link : ℕ

-- The callback's second argument: 0, or UdpRecvDataParam_S. The callback gets the text that
-- inet_ntoa makes of the address, which stands here itself.
pub data UdpParam : Type 0 where
  no_param : UdpParam
  recv_param : List ℕ → ℕ → ℕ → ℕ → UdpParam

-- send_buff_s: a datagram that waits, whose data may be NULL.
pub record SendBuff : Type 0 where
  pub p_data : Option (List ℕ)
  pub ui_size : ℕ
  pub dst_addr : SockAddr

pub record MsUdpLink : Type 0 where
  pub mi_socket : ℤ
  pub mh_link : ℕ
  pub mi_create_flag : ℤ
  pub mp_udpcallback : Option ℕ
  pub m_local_address : SockAddr
  pub m_remote_address : SockAddr
  pub m_send_buff_list : List SendBuff

-- The constructor MsUdpLink().
abbrev pub new_udp_link : MsUdpLink
new_udp_link = record {
  mi_socket = minus_one;
  mh_link = 0;
  mi_create_flag = minus_one;
  mp_udpcallback = none;
  m_local_address = zero_addr;
  m_remote_address = zero_addr;
  m_send_buff_list = [];
}

pub record MsUdpEpoll : Type 0 where
  pub mi_epoll_fd : ℤ
  pub mi_exit_event : ℤ
  pub m_pthread_id : ℕ

-- The constructor MsUdpEpoll().
abbrev pub new_udp_epoll : MsUdpEpoll
new_udp_epoll = record { mi_epoll_fd = minus_one; mi_exit_event = minus_one; m_pthread_id = 0 }

-- What the library does to the outside.
pub data UdpEffect : Type 0 where
  sys : Syscall → UdpEffect
  callback : ℕ → UdpEvent → UdpParam → UdpEffect

-- The static members of MsUdpLink, the singleton, the store of link objects, and the kernel.
pub record UdpWorld : Type 0 where
  pub m_maplink : StdMap ℕ
  pub mb_send_flag : Bool
  -- `static int i_link` of add_tcp_link
  pub i_link : ℕ
  pub m_p_instance : Option MsUdpEpoll
  -- The objects, by address, and the first address that is not in use.
  pub heap : ℕ → MsUdpLink
  pub next : ℕ
  -- The replies to come, by number, the number of calls made, and all effects, newest first.
  pub replies : ℕ → Reply
  pub clock : ℕ
  pub trace : List UdpEffect
