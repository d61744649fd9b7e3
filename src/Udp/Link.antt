-- ===== src/Udp/Link.antt =====
-- The other operations of one UDP link, the methods of MsUdpLink in udp-link.cpp.
use tcp_epoll.Prelude.{
  ℕ, ◌*◌, Bool, true, false, Option, none, some, List, [], ◌∷◌, ◌==◌, take, if◌then◌else◌,
}
use tcp_epoll.Prelude.Int.{ℤ, pos, minus_one, is_neg, le_zero, eq_ℤ, pos_part}
use tcp_epoll.Kernel.{Syscall, af_inet, inaddr_none, zero_addr, htons, htonl}
use tcp_epoll.Tcp.State.{link_addr_local, link_addr_remote}
use tcp_epoll.Tcp.Registry.{registered}
use tcp_epoll.Tcp.Sockets.{by_host, host_address}
use tcp_epoll.Tcp.Link.{so_reuseaddr}
use tcp_epoll.Udp.State.{
  udp_flag_broadcast, no_param, recv_param, evt_udp_closed, evt_udp_receivedata,
}
use tcp_epoll.Udp.Monad.{M, pure, ◌>>=◌, ◌>>◌, gets, load, store, syscall, call_back}
use tcp_epoll.Udp.Registry.{del_link}

unfoldable pub send_link_event : ℕ → ℕ → M (Unit {0})
send_link_event ui_event p = do
  o ← load p
  call_back o.mp_udpcallback (record { ui_event = ui_event; h_link = o.mh_link }) no_param

unfoldable pub send_recv_data : List ℕ → ℕ → ℕ → M (Unit {0})
send_recv_data buffer size p = do
  o ← load p
  call_back o.mp_udpcallback (record { ui_event = evt_udp_receivedata; h_link = o.mh_link })
      (recv_param buffer size o.m_remote_address.s_addr (htons o.m_remote_address.sin_port))

unfoldable pub get_ip_by_name : List ℕ → M (Option ℕ)
unfolding by_host
get_ip_by_name [] = pure none
get_ip_by_name (c ∷ name) = do
  ip ← syscall (Syscall.inet_addr (c ∷ name))
  if pos_part ip.ret == inaddr_none
      then (do h ← syscall (Syscall.gethostbyname (c ∷ name)); pure (by_host h))
      else pure (some (htonl (pos_part ip.ret)))

-- The address to bind to, in network order: any address where there is no name, or it is not
-- known.
unfoldable pub local_ip : Option (List ℕ) → M ℕ
unfolding get_ip_by_name
local_ip none = pure (htonl 0)
local_ip (some name) = do
  ip ← get_ip_by_name name
  pure (elim ip [ none ↦ htonl 0 | some ui_ipv4 ↦ htonl ui_ipv4 ])

abbrev pub so_broadcast : ℕ
so_broadcast = 6

unfoldable pub bind_link : ℕ → ℤ → M Bool
bind_link p fd = do
  syscall (Syscall.setsockopt fd so_reuseaddr)
  o ← load p
  r ← syscall (Syscall.bind fd o.m_local_address)
  if is_neg r.ret then syscall (Syscall.close fd) >> pure false else (do
    a ← syscall (Syscall.getsockname fd)
    store p
        (λ o'. record o' { m_local_address = if is_neg a.ret then o'.m_local_address else a.addr })
    pure true)

unfoldable pub set_broadcast : ℤ → ℤ → M Bool
set_broadcast i_flag fd =
    if eq_ℤ i_flag (pos udp_flag_broadcast)
    then (do
      r ← syscall (Syscall.setsockopt fd so_broadcast)
      if is_neg r.ret then syscall (Syscall.close fd) >> pure false else pure true)
    else pure true

unfoldable pub link_create : Option ℕ → ℤ → Option (List ℕ) → ℕ → ℕ → M Bool
unfolding local_ip set_broadcast bind_link
link_create back_func i_flag p_local_addr us_local_port p = do
  store p (λ o. record o { mp_udpcallback = back_func })
  s ← syscall Syscall.socket_dgram
  store p (λ o. record o { mi_socket = s.ret })
  if is_neg s.ret then pure false else (do
    ip ← local_ip p_local_addr
    store p (λ o. record o {
      m_local_address = record {
        sin_family = af_inet;
        sin_port = htons us_local_port;
        s_addr = ip;
      };
      mi_create_flag = i_flag;
    })
    on ← set_broadcast i_flag s.ret
    if on then bind_link p s.ret else pure false)

unfoldable pub del_send_buff : ℕ → M (Unit {0})
del_send_buff p = store p (λ o. record o { m_send_buff_list = [] })

unfoldable pub link_destroy : ℕ → M (Unit {0})
unfolding del_send_buff del_link send_link_event
link_destroy p = do
  del_send_buff p
  o ← load p
  del_link o.mh_link
  if eq_ℤ o.mi_socket minus_one then pure tt else (do
    syscall (Syscall.shutdown o.mi_socket)
    store p (λ o'. record o' { mi_socket = minus_one })
    send_link_event evt_udp_closed p)

unfoldable pub get_link_addr : ℕ → ℕ → M (Option (ℕ × ℕ))
unfolding host_address
get_link_addr ui_type p = do
  o ← load p
  pure (
      if ui_type == link_addr_local
      then some (host_address o.m_local_address)
      else if ui_type == link_addr_remote
      then some (host_address o.m_remote_address)
      else none)

abbrev pub i_recv_buff_size : ℕ
i_recv_buff_size = 10 * 1024 * 1024

unfoldable pub on_event_read : ℕ → M Bool
unfolding send_recv_data
on_event_read p = do
  store p (λ o. record o { m_remote_address = zero_addr })
  o ← load p
  r ← syscall (Syscall.recvfrom o.mi_socket i_recv_buff_size)
  store p (λ o'. record o' { m_remote_address = if is_neg r.ret then zero_addr else r.addr })
  if le_zero r.ret then pure true else (do
    a ← syscall (Syscall.getsockname o.mi_socket)
    store p
        (λ o'. record o' { m_local_address = if is_neg a.ret then o'.m_local_address else a.addr })
    send_recv_data (take (pos_part r.ret) r.bytes) (pos_part r.ret) p
    pure true)

unfoldable pub destroy_all : List ℕ → M (Unit {0})
unfolding link_destroy
destroy_all [] = pure tt
destroy_all (p ∷ ps) = link_destroy p >> destroy_all ps

unfoldable pub free_all_link_map : M (Unit {0})
unfolding destroy_all
free_all_link_map = do ps ← gets (λ w. registered w.m_maplink); destroy_all ps
