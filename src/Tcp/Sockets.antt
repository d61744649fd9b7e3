-- ===== src/Tcp/Sockets.antt =====
-- What tcp-link.cpp does to descriptors and addresses: non-blocking mode, host names, the local
-- address, and the time of the last activity.
use Prim.Native.Nat.{bit_or}
use tcp_epoll.Prelude.{ℕ, Option, none, some, List, [], ◌∷◌, ◌==◌, if◌then◌else◌}
use tcp_epoll.Prelude.Int.{ℤ, pos, minus_one, is_neg, eq_ℤ, pos_part}
use tcp_epoll.Kernel.{SockAddr, Syscall, Reply, af_inet, o_nonblock, inaddr_none, htons, htonl}
use tcp_epoll.Tcp.State.{link_addr_local, link_addr_remote}
use tcp_epoll.Tcp.Monad.{M, pure, ◌>>=◌, load, store, syscall}

unfoldable pub set_conn_nonblock : ℤ → M ℤ
set_conn_nonblock fd = do
  flag ← syscall (Syscall.fcntl_getfl fd)
  if eq_ℤ flag.ret minus_one then pure minus_one else (do
    r ← syscall (Syscall.fcntl_setfl fd (bit_or (pos_part flag.ret) o_nonblock))
    pure (if eq_ℤ r.ret minus_one then minus_one else pos 0))

-- inet_addr, then gethostbyname: the address in host order.
unfoldable pub by_host : Reply → Option ℕ
by_host h =
    if is_neg h.ret
    then none
    else if h.addr.sin_family == af_inet
    then elim h.bytes [ [] ↦ none | _ ∷ _ ↦ some (htonl h.addr.s_addr) ]
    else none

unfoldable pub get_ip_by_name : List ℕ → M (Option ℕ)
unfolding by_host
get_ip_by_name [] = pure none
get_ip_by_name (c ∷ name) = do
  ip ← syscall (Syscall.inet_addr (c ∷ name))
  if pos_part ip.ret == inaddr_none
      then (do h ← syscall (Syscall.gethostbyname (c ∷ name)); pure (by_host h))
      else pure (some (htonl (pos_part ip.ret)))

-- getsockname into m_local_address, whose result is not read.
unfoldable pub update_local_address : ℕ → ℤ → M (Unit {0})
update_local_address p fd = do
  r ← syscall (Syscall.getsockname fd)
  store p (λ o. record o { m_local_address = if is_neg r.ret then o.m_local_address else r.addr })

unfoldable pub set_last_alive : ℕ → M (Unit {0})
set_last_alive p = do
  t ← syscall Syscall.time
  store p (λ o. record o { mt_last_alive_time = pos_part t.ret })

-- ntohl and ntohs of the chosen address
unfoldable pub host_address : SockAddr → ℕ × ℕ
host_address a = (htonl a.s_addr, htons a.sin_port)

unfoldable pub get_link_addr : ℕ → ℕ → M (Option (ℕ × ℕ))
unfolding host_address
get_link_addr ui_type p = do
  o ← load p
  pure (
      if ui_type == link_addr_local
      then some (host_address o.m_local_address)
      else if ui_type == link_addr_remote
      then some (host_address o.m_remote_address)
      else none)
