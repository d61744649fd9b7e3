-- ===== src/Udp/Registry.antt =====
-- The epoll set and the registry of the UDP library: udp-ms-epoll.cpp, udp-link.cpp,
-- include/udp-link.h. The event masks and words are those of the TCP library.
use tcp_epoll.Prelude.{ℕ, ◌+◌, Bool, true, false, not, Option, none, some, [], ltb, if◌then◌else◌}
use tcp_epoll.Prelude.Int.{ℤ, is_neg}
use tcp_epoll.StdMap.{find, insert, erase}
use tcp_epoll.Kernel.{Syscall}
use tcp_epoll.Tcp.Epoll.{attach_mask, epoll_data}
use tcp_epoll.Tcp.Registry.{int_max, next_handle}
use tcp_epoll.Udp.State.{UdpWorld}
use tcp_epoll.Udp.Monad.{M, exhausted, pure, ◌>>=◌, ◌>>◌, gets, modify, load, syscall, instance_of}

unfoldable pub attach_to_epoll : ℤ → ℕ → Bool → M Bool
attach_to_epoll i_fd h_link b_write = do
  e ← instance_of
  r ←
      syscall
        (Syscall.epoll_ctl_add e.mi_epoll_fd i_fd (attach_mask b_write) (epoll_data h_link i_fd))
  pure (not (is_neg r.ret))

unfoldable pub mod_epoll_read : ℤ → ℕ → M Bool
mod_epoll_read i_fd h_link = do
  e ← instance_of
  r ← syscall (Syscall.epoll_ctl_mod e.mi_epoll_fd i_fd (attach_mask true) (epoll_data h_link i_fd))
  pure (not (is_neg r.ret))

unfoldable pub del_epoll_read : ℤ → M Bool
del_epoll_read i_fd = do
  e ← instance_of
  r ← syscall (Syscall.epoll_ctl_del e.mi_epoll_fd i_fd)
  pure (not (is_neg r.ret))

unfoldable pub find_link : ℕ → M (Option ℕ)
find_link h_link = gets (λ w. find h_link w.m_maplink)

unfoldable pub del_found : ℕ → Option ℕ → M Bool
unfolding del_epoll_read
del_found h none = pure false
del_found h (some p) = do
  o ← load p
  del_epoll_read o.mi_socket
  modify (λ w. record w { m_maplink = erase h w.m_maplink })
  pure true

unfoldable pub del_link : ℕ → M Bool
unfolding del_found find_link
del_link h_link = do found ← find_link h_link; del_found h_link found

unfoldable pub register : ℕ → ℕ → UdpWorld → UdpWorld
register h p w = record w { i_link = w.i_link + 1; m_maplink = insert h p w.m_maplink }

unfoldable pub out_of_handles : M ℕ
out_of_handles w = exhausted

unfoldable pub add_tcp_link : ℕ → M ℕ
unfolding register out_of_handles
add_tcp_link p = do
  i ← gets (λ w. w.i_link)
  if ltb i int_max
      then modify (register (next_handle i) p) >> pure (next_handle i)
      else out_of_handles

unfoldable pub init_link_map : M (Unit {0})
init_link_map = modify (λ w. record w { m_maplink = [] })

unfoldable pub set_send_flag : Bool → M (Unit {0})
set_send_flag b_flag = modify (λ w. record w { mb_send_flag = b_flag })
