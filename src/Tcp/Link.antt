-- ===== src/Tcp/Link.antt =====
-- The operations of one link, the methods of MsTcpLink in tcp-link.cpp: creation, connection,
-- listening, destruction, sending, accepting, and the test of idleness.
use tcp_epoll.Prelude.{
  ℕ, ◌-◌, ◌*◌, Bool, true, false, not, ◌&&◌, ◌||◌, Option, none, some, List, ◌==◌, ltb,
  if◌then◌else◌,
}
use tcp_epoll.Prelude.Int.{ℤ, pos, minus_one, is_neg, eq_ℤ}
use tcp_epoll.Kernel.{SockAddr, Syscall, Reply, af_inet, einprogress, htons, htonl}
use tcp_epoll.Tcp.State.{
  World, link_type_listen, link_type_connect, link_type_accept, invalid_htcplink, evt_tcp_closed,
  evt_tcp_connected, evt_tcp_disconnected,
}
use tcp_epoll.Tcp.Monad.{M, pure, ◌>>=◌, ◌>>◌, modify, when, load, store, syscall}
use tcp_epoll.Tcp.Registry.{del_link}
use tcp_epoll.Tcp.Callback.{send_link_event}
use tcp_epoll.Tcp.Sockets.{set_conn_nonblock, get_ip_by_name, update_local_address, set_last_alive}

-- The setsockopt options.
abbrev pub so_reuseaddr : ℕ
so_reuseaddr = 2

abbrev pub tcp_nodelay : ℕ
tcp_nodelay = 1

unfoldable pub bind_link : ℕ → ℤ → ℕ → M Bool
bind_link p fd us_local_port = do
  set_conn_nonblock fd
  let addr : SockAddr = record { sin_family = af_inet; sin_port = htons us_local_port; s_addr = 0 }
  store p (λ o. record o { m_local_address = addr })
  syscall (Syscall.setsockopt fd so_reuseaddr)
  r ← syscall (Syscall.bind fd addr)
  if is_neg r.ret
      then syscall (Syscall.close fd) >> pure false
      else update_local_address p fd >> pure true

-- `p_localAddr` is an argument that nothing reads.
unfoldable pub link_create : Option ℕ → Option (List ℕ) → ℕ → ℕ → M Bool
unfolding bind_link set_conn_nonblock update_local_address
link_create back_func p_local_addr us_local_port p = do
  store p (λ o. record o { mp_tcpcallback = back_func })
  s ← syscall Syscall.socket
  store p (λ o. record o { mi_socket = s.ret })
  if is_neg s.ret then pure false else bind_link p s.ret us_local_port

-- The connection is there, or under way.
unfoldable pub connect_started : Reply → Bool
connect_started r = (eq_ℤ r.ret minus_one && r.errno == einprogress) || not (eq_ℤ r.ret minus_one)

unfoldable pub connect_to : SockAddr → ℕ → M Bool
unfolding connect_started set_last_alive set_conn_nonblock update_local_address send_link_event
connect_to remote p = do
  o ← load p
  set_conn_nonblock o.mi_socket
  store p (λ o'. record o' { m_link_type = link_type_connect })
  r ← syscall (Syscall.connect o.mi_socket remote)
  if connect_started r
      then (do
        update_local_address p o.mi_socket
        store p (λ o'. record o' { m_remote_address = remote })
        set_conn_nonblock o.mi_socket
        send_link_event evt_tcp_connected p
        set_last_alive p
        pure true)
      else (do
        syscall (Syscall.close o.mi_socket)
        store p (λ o'. record o' { mi_socket = minus_one })
        send_link_event evt_tcp_disconnected p
        pure false)

unfoldable pub connect_resolved : ℕ → ℕ → Option ℕ → M Bool
unfolding connect_to
connect_resolved us_port p none = pure false
connect_resolved us_port p (some ui_ipv4) =
    connect_to (record { sin_family = af_inet; sin_port = htons us_port; s_addr = htonl ui_ipv4 }) p

unfoldable pub link_connect : Option (List ℕ) → ℕ → ℕ → M Bool
unfolding connect_resolved get_ip_by_name
link_connect none us_port p = pure false
link_connect (some name) us_port p =
    if us_port == 0
    then pure false
    else (do ip ← get_ip_by_name name; connect_resolved us_port p ip)

unfoldable pub link_listen : ℕ → ℕ → M Bool
unfolding set_conn_nonblock set_last_alive
link_listen ui_block p = if ui_block == 0 then pure false else (do
  o ← load p
  set_conn_nonblock o.mi_socket
  store p (λ o'. record o' { m_link_type = link_type_listen })
  r ← syscall (Syscall.listen o.mi_socket ui_block)
  if eq_ℤ r.ret minus_one then pure false else set_last_alive p >> pure true)

-- `g_ms_tcp_first_create_link` is forgotten with its link.
unfoldable pub forget_first : ℕ → World → World
forget_first h w = record w {
  g_ms_tcp_first_create_link =
      if h == w.g_ms_tcp_first_create_link then invalid_htcplink else w.g_ms_tcp_first_create_link;
}

unfoldable pub close_socket : Bool → ℕ → ℤ → M (Unit {0})
unfolding send_link_event
close_socket b_self p fd = do
  syscall (Syscall.close fd)
  when b_self (send_link_event evt_tcp_closed p)
  store p (λ o. record o { mi_socket = minus_one })

unfoldable pub link_destroy : Bool → ℕ → M (Unit {0})
unfolding forget_first close_socket del_link
link_destroy b_self p = do
  o ← load p
  modify (forget_first o.mh_link)
  del_link o.mh_link
  if eq_ℤ o.mi_socket minus_one then pure tt else close_socket b_self p o.mi_socket

-- The result and errno. The byte count is converted to unsigned by `ms_tcp_send`.
unfoldable pub link_send_data : Option (List ℕ) → ℕ → ℕ → M (ℤ × ℕ)
unfolding set_last_alive
link_send_data none ui_size p = pure (pos 0, 0)
link_send_data (some bytes) ui_size p = do
  set_last_alive p
  o ← load p
  r ← syscall (Syscall.write o.mi_socket bytes ui_size)
  pure (r.ret, r.errno)

unfoldable pub send_data_socket : ℤ → Option (List ℕ) → ℕ → M ℤ
send_data_socket i_socket none ui_size = pure (pos 0)
send_data_socket i_socket (some bytes) ui_size = do
  r ← syscall (Syscall.write i_socket bytes ui_size)
  pure r.ret

-- MsTcpLink::send_data
unfoldable pub send_data : List ℕ → ℕ → ℕ → M ℤ
send_data bytes ui_size p = do
  o ← load p
  r ← syscall (Syscall.write o.mi_socket bytes ui_size)
  pure r.ret

unfoldable pub accepted : ℕ → ℤ → Option ℕ → M Bool
unfolding set_conn_nonblock
accepted p ui_socket p_callback = do
  store p (λ o. record o {
    mp_tcpcallback = p_callback;
    m_link_type = link_type_accept;
    mi_socket = ui_socket;
  })
  syscall (Syscall.setsockopt ui_socket tcp_nodelay)
  store p (λ o. record o { mb_need_check_alive = true })
  set_conn_nonblock ui_socket
  pure true

-- MsTcpLink::accept
unfoldable pub accept_link : ℤ → Option ℕ → ℕ → M Bool
unfolding accepted
accept_link ui_listen_fd p_callback p = do
  a ← syscall (Syscall.accept ui_listen_fd)
  if is_neg a.ret then pure false else (do
    store p (λ o. record o { m_remote_address = a.addr })
    r ← syscall (Syscall.getsockname a.ret)
    if eq_ℤ r.ret minus_one
        then syscall (Syscall.close a.ret) >> pure false
        else (do store p (λ o. record o { m_local_address = r.addr }); accepted p a.ret p_callback))

-- ui_check_alive_timeout: five minutes
abbrev pub ui_check_alive_timeout : ℕ
ui_check_alive_timeout = 5 * 60

-- A clock that went back restarts the wait.
unfoldable pub is_alive : ℕ → ℕ → M Bool
is_alive st_time p = do
  o ← load p
  if o.mb_need_check_alive
      then (if ltb st_time o.mt_last_alive_time
          then store p (λ o'. record o' { mt_last_alive_time = st_time }) >> pure true
          else pure (ltb (st_time - o.mt_last_alive_time) ui_check_alive_timeout))
      else pure true
