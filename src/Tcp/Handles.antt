-- ===== src/Tcp/Handles.antt =====
-- Handles of links: the word of an epoll event that carries one (ms-epoll.cpp), and the counter
-- that gives them out (include/tcp-link.h).
use tcp_epoll.Prelude.{ℕ, ◌+◌, ◌<◌, ◌≤◌, ◌^◌, ◌≡◌, ◌⊎◌, some, arith}
use tcp_epoll.Prelude.Int.{ℤ, to_u32}
use tcp_epoll.StdMap.{find, find-insert}
use tcp_epoll.Tcp.State.{World}
use tcp_epoll.Tcp.Monad.{exhausted, Ensures}
use tcp_epoll.Tcp.Epoll.{epoll_data, data_link, data_fd}
use tcp_epoll.Tcp.Registry.{add_tcp_link, int_max}

-- From the word that attach_to_epoll and mod_epoll_read store, worker_thread reads the handle, any
-- unsigned int, and the low word is the descriptor's bit pattern: the assignment to `data.fd`
-- does not spoil the handle.
pub data_link-epoll_data :
    (h_link : ℕ) (i_fd : ℤ)
    → h_link < 2 ^ 32
    → (data_link (epoll_data h_link i_fd) ≡ h_link)
      × (data_fd (epoll_data h_link i_fd) ≡ to_u32 i_fd)
unfolding epoll_data data_link data_fd
data_link-epoll_data h_link i_fd h = ground arith

-- add_tcp_link returns the number after the last handle, also past 0x3fffffff: its modulus is
-- larger than any int, so that handles never wrap. It fails once the counter is INT_MAX.
pub add_tcp_link_lem :
    (p : ℕ) (w : World)
    → ((int_max ≤ w.i_link) × (add_tcp_link p w ≡ exhausted))
      ⊎ ((w.i_link < int_max)
          × Ensures
              (add_tcp_link p w)
              (λ h w'. (h ≡ w.i_link + 1) × (w'.i_link ≡ h) × (find h w'.m_maplink ≡ some p)))
unfolding add_tcp_link
add_tcp_link_lem p w = grind (arith, find-insert (w.i_link + 1) (w.i_link + 1) p w.m_maplink)
